-- ===== src/WebSocket/Filled.antt =====
-- `transportRead`: whole buffers, in however many parts the system delivers them.
use exasol_gateway_sdk.Errors.{Error, Message, transport_error}
use exasol_gateway_sdk.Base.{
  ℕ, zero, suc, ◌-◌, ◌%◌, ◌^◌, ◌≤◌, ◌<◌, List, [], ◌++◌, true, false, Option, some, none, length,
  append_assoc, append-nil, ◌≡◌, refl, sym, ap, ◌∙◌, arith, ◌==◌, ltb→lt, ==_iff, ltb,
  length-append,
}
use exasol_gateway_sdk.Base.Ensures.{Ensures, and_then-Ensures, Ensures-mono, branch-Ensures}
use exasol_gateway_sdk.WebSocket.{WebSocketConnection, Platform}
use exasol_gateway_sdk.WebSocket.Transport.{
  has, started, count_since, int_of, count, read_by, read_some, read_loop, throw_read_error,
  transport_read, iterated,
}
use exasol_gateway_sdk.WebSocket.Streams.{
  IsPlatform, IsMove, IsMove-refl, IsMove-trans, IsStill, still_then, then_still,
}
use exasol_gateway_sdk.WebSocket.Quiet.{
  Never, Still, int_of_lem, started-Still, count-Still, count_since-Still,
}

module _ {W : Type 0} (os : Platform W) (outgoing : W → List ℕ) (law : IsPlatform os outgoing) where
  -- One call.
  pub record IsReadSome (c : WebSocketConnection W) (size : ℕ) (got : List ℕ)
      (c' : WebSocketConnection W) : Type 0 where
    pub moved : IsMove os outgoing c got [] c'
    pub within : length got ≤ size
    pub is_int : length got < 2 ^ 31
    pub progress :
        has c.fd ≡ true → 0 < size → size < 2 ^ 31 → length got ≡ 0 → os.incoming c.world ≡ []

  read_by-IsReadSome :
      (t : Option ℕ) (size : ℕ) (c : WebSocketConnection W)
      → Ensures (IsReadSome c size) Never (read_by os t size c)
  unfolding read_by
  read_by-IsReadSome (some ssl) size c =
      let r = law.ssl_read_reads ssl (size % 2 ^ 32) c.world in
      record {
        moved = record {
          same_fd = refl;
          same_ssl = refl;
          same_context = refl;
          read = r.next_bytes;
          wrote = r.unsent ∙ sym (append-nil (outgoing c.world));
        };
        within = omega (arith, r.within);
        is_int = r.is_int;
        progress = λ is_open positive short none_got. r.progress refl (omega arith) none_got;
      }
  read_by-IsReadSome none size c =
      let r = law.recv_reads c.fd size c.world in
      record {
        moved = record {
          same_fd = refl;
          same_ssl = refl;
          same_context = refl;
          read = r.next_bytes;
          wrote = r.unsent ∙ sym (append-nil (outgoing c.world));
        };
        within = r.within;
        is_int = r.is_int;
        progress = λ is_open positive short none_got. r.progress is_open positive none_got;
      }

  -- A read that fails: the peer has fewer bytes to deliver than are wanted.
  pub record IsCutRead (c : WebSocketConnection W) (size : ℕ) (e : Error)
      (c' : WebSocketConnection W) : Type 0 where
    pub is_transport : e.category ≡ transport_error
    pub got : List ℕ
    pub moved : IsMove os outgoing c got [] c'
    pub blocked : has c.fd ≡ true → size < 2 ^ 31 → length (os.incoming c.world) < size

  -- `size` bytes are read behind those of a buffer.
  pub record IsFilled (c : WebSocketConnection W) (before : List ℕ) (size : ℕ) (bytes : List ℕ)
      (c' : WebSocketConnection W) : Type 0 where
    pub got : List ℕ
    pub filled : bytes ≡ before ++ got
    pub sized : length got ≡ size
    pub moved : IsMove os outgoing c got [] c'

  module _ (c d : WebSocketConnection W) (size : ℕ) (before got : List ℕ)
      (first : IsReadSome c size got d) where
    later-IsFilled :
        (bytes : List ℕ) (e : WebSocketConnection W)
        → IsFilled d (before ++ got) (size - length got) bytes e
        → IsFilled c before size bytes e
    later-IsFilled bytes e h = record {
      got = got ++ h.got;
      filled = h.filled ∙ append_assoc before got h.got;
      sized = omega (arith, length-append {0} got h.got, h.sized, first.within);
      moved = IsMove-trans os outgoing c d e got [] h.got [] first.moved h.moved;
    }

    later-IsCutRead :
        (f : Error) (e : WebSocketConnection W)
        → IsCutRead d (size - length got) f e
        → IsCutRead c size f e
    later-IsCutRead f e cut = record {
      is_transport = cut.is_transport;
      got = got ++ cut.got;
      moved = IsMove-trans os outgoing c d e got [] cut.got [] first.moved cut.moved;
      blocked = λ is_open short. omega (
        arith,
        ap length first.moved.read,
        length-append {0} got (os.incoming d.world),
        cut.blocked (ap has first.moved.same_fd ∙ is_open) (omega arith),
      );
    }

    ended-IsCutRead :
        int_of (length got) ≡ 0
        → (message : Message) → 0 < size
        → IsCutRead c size (record { category = transport_error; message = message }) d
    ended-IsCutRead none_got message positive = record {
      is_transport = refl;
      got = got;
      moved = first.moved;
      blocked = λ is_open short.
          let e =
            first.progress is_open positive short (sym (int_of_lem _ first.is_int) ∙ none_got) in
          omega (arith, ap length e);
    }

  read_loop-IsFilled :
      (fuel size : ℕ) (before : List ℕ) (c : WebSocketConnection W)
      → size ≤ fuel
      → Ensures (IsFilled c before size) (IsCutRead c size) (read_loop os fuel size before c)
  unfolding read_loop read_some throw_read_error
  read_loop-IsFilled fuel zero before c h = record {
    got = [];
    filled = sym (append-nil before);
    sized = refl;
    moved = IsMove-refl os outgoing c;
  }
  read_loop-IsFilled zero (suc left) before c h = absurd (omega arith)
  read_loop-IsFilled (suc fuel) (suc left) before c h =
      and_then-Ensures (IsReadSome c (suc left)) Never _ (IsCutRead c (suc left))
        (read_by os c.ssl (suc left) c) _ (read_by-IsReadSome c.ssl (suc left) c)
        (λ e s never. absurd never)
        λ got d first.
          branch-Ensures _ _ (ltb (suc left) (length got)) _ _ d
            (λ more. absurd (omega (arith, ltb→lt _ _ more, first.within)))
            λ _.
              branch-Ensures _ _ (int_of (length got) == 0) (throw_read_error os) _ d
                (λ end.
                  ended-IsCutRead c d (suc left) before got first ((==_iff _ 0).0 end) _
                    (omega arith))
                λ some_got.
                  and_then-Ensures (Still os outgoing d) Never (IsFilled c before (suc left))
                    (IsCutRead c (suc left)) (count iterated d)
                    (λ _. read_loop os fuel (suc left - length got) (before ++ got))
                    (count-Still os outgoing law iterated d) (λ e s never. absurd never)
                    λ _ e still.
                      Ensures-mono (IsFilled e (before ++ got) (suc left - length got))
                        (IsFilled c before (suc left)) (IsCutRead e (suc left - length got))
                        (IsCutRead c (suc left))
                        (read_loop os fuel (suc left - length got) (before ++ got) e)
                        (read_loop-IsFilled fuel (suc left - length got) (before ++ got) e
                          (shorter got some_got))
                        (later-IsCutRead c e (suc left) before got (settled first still))
                        (later-IsFilled c e (suc left) before got (settled first still))
    where
      settled :
          {got : List ℕ} {d e : WebSocketConnection W}
          → IsReadSome c (suc left) got d
          → IsStill os outgoing d e
          → IsReadSome c (suc left) got e
      settled {got} {d} {e} first still = record {
        moved = then_still os outgoing c d e got [] first.moved still;
        within = first.within;
        is_int = first.is_int;
        progress = first.progress;
      }

      shorter : (got : List ℕ) → (int_of (length got) == 0) ≡ false → suc left - length got ≤ fuel
      shorter got some_got = ground arith

  pub since-IsCutRead :
      (c d : WebSocketConnection W) (size : ℕ)
      → IsStill os outgoing c d
      → (f : Error) (e : WebSocketConnection W) → IsCutRead d size f e
      → IsCutRead c size f e
  since-IsCutRead c d size still f e cut = record {
    is_transport = cut.is_transport;
    got = cut.got;
    moved = still_then os outgoing c d e cut.got [] still cut.moved;
    blocked = λ is_open short.
        omega (arith, ap length still.read, cut.blocked (ap has still.same_fd ∙ is_open) short);
  }

  -- As many bytes are read as are wanted, the next ones that the peer delivers, in however many
  -- parts; else a transport error is thrown, and if the connection is open the peer has fewer.
  pub transport_read-IsMove :
      (size : ℕ) (c : WebSocketConnection W)
      → Ensures
          (λ bytes c'. (length bytes ≡ size) × IsMove os outgoing c bytes [] c')
          (IsCutRead c size)
          (transport_read os size c)
  unfolding transport_read
  transport_read-IsMove size c =
      and_then-Ensures (Still os outgoing c) Never _ (IsCutRead c size) (started os c) _
        (started-Still os outgoing law c) (λ e s never. absurd never)
        λ start d still.
          and_then-Ensures (IsFilled d [] size) (IsCutRead d size) _ (IsCutRead c size)
            (read_loop os size size [] d) _ (read_loop-IsFilled size size [] d (omega arith))
            (λ f e cut. since-IsCutRead c d size still f e cut)
            λ bytes e full.
              and_then-Ensures (Still os outgoing e) Never _ (IsCutRead c size)
                (count_since os start _ e) _ (count_since-Still os outgoing law start _ e)
                (λ f s never. absurd never)
                λ _ g quiet. (
                  ap length full.filled ∙ full.sized,
                  then_still os outgoing c e g bytes []
                      (still_then os outgoing c d e bytes [] still (rw full.filled (full.moved)))
                      quiet,
                )
