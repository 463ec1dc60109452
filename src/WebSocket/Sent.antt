-- ===== src/WebSocket/Sent.antt =====
-- `transportWrite`: whole buffers, in however many parts the system takes them.
use exasol_gateway_sdk.Errors.{Error, Message, transport_error}
use exasol_gateway_sdk.Base.{
  ℕ, zero, suc, ◌%◌, ◌^◌, ◌≤◌, ◌<◌, List, [], ◌∷◌, ◌++◌, true, false, Option, some, none, length,
  take, drop, append_assoc, ◌≡◌, refl, sym, ap, ◌∙◌, arith, ◌==◌, ==_iff, length-drop,
  take-append-drop,
}
use exasol_gateway_sdk.Base.Ensures.{Ensures, and_then-Ensures, Ensures-mono, branch-Ensures}
use exasol_gateway_sdk.WebSocket.{WebSocketConnection, Platform}
use exasol_gateway_sdk.WebSocket.Transport.{
  has, started, count_since, write_by, write_some, write_loop, throw_write_error, transport_write,
}
use exasol_gateway_sdk.WebSocket.Streams.{
  IsPlatform, IsWritable, IsMove, IsMove-refl, IsMove-trans, IsStill, still_then, then_still,
}
use exasol_gateway_sdk.WebSocket.Quiet.{Never, Still, int_of_lem, started-Still, count_since-Still}

module _ {W : Type 0} (os : Platform W) (outgoing : W → List ℕ) (law : IsPlatform os outgoing) where
  -- A write that gets stuck: some of the bytes are sent, and only because the peer takes no more.
  pub record IsCutWrite (c : WebSocketConnection W) (bytes : List ℕ) (e : Error)
      (c' : WebSocketConnection W) : Type 0 where
    pub is_transport : e.category ≡ transport_error
    pub put : List ℕ
    pub unsent : List ℕ
    pub parts : bytes ≡ put ++ unsent
    pub moved : IsMove os outgoing c [] put c'
    pub blocked : IsWritable os outgoing → has c.fd ≡ true → length bytes < 2 ^ 31 → ⊥

  -- One call.
  pub record IsWriteSome (c : WebSocketConnection W) (rest : List ℕ) (n : ℕ)
      (c' : WebSocketConnection W) : Type 0 where
    pub moved : IsMove os outgoing c [] (take n rest) c'
    pub progress :
        IsWritable os outgoing → has c.fd ≡ true → 0 < length rest → length rest < 2 ^ 31 → 0 < n

  write_by-IsWriteSome :
      (t : Option ℕ) (rest : List ℕ) (c : WebSocketConnection W)
      → Ensures (IsWriteSome c rest) Never (write_by os t rest c)
  unfolding write_by
  write_by-IsWriteSome (some ssl) rest c =
      let w = law.ssl_write_writes ssl rest (length rest % 2 ^ 32) c.world in
      record {
        moved = record {
          same_fd = refl;
          same_ssl = refl;
          same_context = refl;
          read = sym w.unread;
          wrote = w.sent;
        };
        progress = λ live is_open some_bytes short.
            live.ssl_write_progress ssl rest (length rest % 2 ^ 32) c.world some_bytes (omega arith)
              (omega arith);
      }
  write_by-IsWriteSome none rest c =
      let w = law.send_writes c.fd rest c.world in
      let e = int_of_lem _ w.is_int in
      record {
        moved = record {
          same_fd = refl;
          same_ssl = refl;
          same_context = refl;
          read = sym w.unread;
          wrote = rw e w.sent;
        };
        progress = λ live is_open some_bytes short.
            rw e (live.send_progress c.fd rest c.world is_open some_bytes);
      }

  -- Some bytes are sent; what is done with the others goes for the whole.
  module _ (c d : WebSocketConnection W) (rest : List ℕ) (n : ℕ)
      (first : IsWriteSome c rest n d) where
    later-IsMove :
        (e : WebSocketConnection W)
        → IsMove os outgoing d [] (drop n rest) e
        → IsMove os outgoing c [] rest e
    later-IsMove e m =
        rw⁻¹ (take-append-drop {0} n rest)
          (IsMove-trans os outgoing c d e [] (take n rest) [] (drop n rest) first.moved m)

    later-IsCutWrite :
        (f : Error) (e : WebSocketConnection W)
        → IsCutWrite d (drop n rest) f e
        → IsCutWrite c rest f e
    later-IsCutWrite f e cut = record {
      is_transport = cut.is_transport;
      put = take n rest ++ cut.put;
      unsent = cut.unsent;
      parts =
          sym (take-append-drop n rest)
          ∙ ap (◌++◌ (take n rest)) cut.parts
          ∙ sym (append_assoc (take n rest) cut.put cut.unsent);
      moved = IsMove-trans os outgoing c d e [] (take n rest) [] cut.put first.moved cut.moved;
      blocked = λ live is_open short.
          cut.blocked live (ap has first.moved.same_fd ∙ is_open)
            (omega (arith, length-drop {0} n rest));
    }

    stuck-IsCutWrite :
        n ≡ 0
        → (message : Message) → 0 < length rest
        → IsCutWrite c rest (record { category = transport_error; message = message }) d
    stuck-IsCutWrite none_sent message some_bytes = record {
      is_transport = refl;
      put = take n rest;
      unsent = drop n rest;
      parts = sym (take-append-drop n rest);
      moved = first.moved;
      blocked = λ live is_open short.
          absurd (omega (arith, first.progress live is_open some_bytes short, none_sent));
    }

  write_loop-IsMove :
      (fuel : ℕ) (rest : List ℕ) (c : WebSocketConnection W)
      → length rest ≤ fuel
      → Ensures
          (λ _ c'. IsMove os outgoing c [] rest c')
          (IsCutWrite c rest)
          (write_loop os fuel rest c)
  unfolding write_loop write_some throw_write_error
  write_loop-IsMove fuel [] c h = IsMove-refl os outgoing c
  write_loop-IsMove zero (b ∷ rest) c h = absurd (omega arith)
  write_loop-IsMove (suc fuel) (b ∷ rest) c h =
      and_then-Ensures (IsWriteSome c (b ∷ rest)) Never _ (IsCutWrite c (b ∷ rest))
        (write_by os c.ssl (b ∷ rest) c) _ (write_by-IsWriteSome c.ssl (b ∷ rest) c)
        (λ e s never. absurd never)
        λ n d first.
          branch-Ensures _ (IsCutWrite c (b ∷ rest)) (n == 0) (throw_write_error os)
            (write_loop os fuel (drop n (b ∷ rest))) d
            (λ stuck.
              stuck-IsCutWrite c d (b ∷ rest) n first ((==_iff n 0).0 stuck) _ (omega arith))
            (λ more.
              Ensures-mono (λ _ e. IsMove os outgoing d [] (drop n (b ∷ rest)) e) _
                (IsCutWrite d (drop n (b ∷ rest))) _ (write_loop os fuel (drop n (b ∷ rest)) d)
                (write_loop-IsMove fuel (drop n (b ∷ rest)) d (shorter n more))
                (later-IsCutWrite c d (b ∷ rest) n first)
                (λ _ e m. later-IsMove c d (b ∷ rest) n first e m))
    where
      shorter : (n : ℕ) → (n == 0) ≡ false → length (drop n (b ∷ rest)) ≤ fuel
      shorter n more = ground (arith, length-drop n (b ∷ rest))

  closed_is_open :
      (c d : WebSocketConnection W)
      → IsStill os outgoing c d
      → has d.fd ≡ false
      → has c.fd ≡ true
      → ⊥
  closed_is_open c d still is_closed is_open =
      let same : has d.fd ≡ has c.fd = ap has still.same_fd in cc

  since-IsCutWrite :
      (c d : WebSocketConnection W) (payload : List ℕ)
      → IsStill os outgoing c d
      → (f : Error) (e : WebSocketConnection W) → IsCutWrite d payload f e
      → IsCutWrite c payload f e
  since-IsCutWrite c d payload still f e cut = record {
    is_transport = cut.is_transport;
    put = cut.put;
    unsent = cut.unsent;
    parts = cut.parts;
    moved = still_then os outgoing c d e [] cut.put still cut.moved;
    blocked = λ live is_open short. cut.blocked live (ap has still.same_fd ∙ is_open) short;
  }

  -- The bytes are all sent, in order, in however many parts the system takes them; else a transport
  -- error is thrown, and what was sent is the first part of them.
  pub transport_write-IsMove :
      (payload : List ℕ) (c : WebSocketConnection W)
      → Ensures
          (λ _ c'. IsMove os outgoing c [] payload c')
          (IsCutWrite c payload)
          (transport_write os payload c)
  unfolding transport_write
  transport_write-IsMove payload c =
      and_then-Ensures (Still os outgoing c) Never _ (IsCutWrite c payload) (started os c) _
        (started-Still os outgoing law c) (λ e s never. absurd never)
        λ start d still.
          branch-Ensures _ (IsCutWrite c payload) (has d.fd) _ _ d
            (λ is_open.
              and_then-Ensures (λ _ e. IsMove os outgoing d [] payload e) (IsCutWrite d payload) _
                (IsCutWrite c payload) (write_loop os (length payload) payload d) _
                (write_loop-IsMove (length payload) payload d (omega arith))
                (λ f e cut. since-IsCutWrite c d payload still f e cut)
                λ _ e m.
                  Ensures-mono (Still os outgoing e) _ Never _ (count_since os start _ e)
                    (count_since-Still os outgoing law start _ e) (λ f s never. absurd never)
                    (λ _ g quiet.
                      then_still os outgoing c e g [] payload
                        (still_then os outgoing c d e [] payload still m) quiet))
            (λ is_closed. record {
              is_transport = refl;
              put = [];
              unsent = payload;
              parts = refl;
              moved = still;
              blocked = λ live is_open short. closed_is_open c d still is_closed is_open;
            })
