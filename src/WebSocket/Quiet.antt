-- ===== src/WebSocket/Quiet.antt =====
-- The clock and the statistics move nothing.
use exasol_gateway_sdk.Errors.{Error}
use exasol_gateway_sdk.Base.{ℕ, ◌^◌, ◌<◌, List, [], append-nil, ◌≡◌, refl, sym, ◌∙◌, arith}
use exasol_gateway_sdk.Base.Ensures.{Ensures, Ensures-mono, if-Ensures}
use exasol_gateway_sdk.WebSocket.{WebSocketConnection, WebSocketStatistics, Platform}
use exasol_gateway_sdk.WebSocket.Transport.{started, count_since, int_of, count}
use exasol_gateway_sdk.WebSocket.Streams.{IsQuiet, IsPlatform, IsMove-refl, IsStill, still_then}

-- Nothing of the kind happens.
abbrev pub Never : {S : Type 0} → Error → S → Type 0
Never e s = ⊥

pub int_of_lem : (n : ℕ) → n < 2 ^ 31 → int_of n ≡ n
int_of_lem n h = ground arith

module _ {W : Type 0} (os : Platform W) (outgoing : W → List ℕ) where
  -- What a call does that moves nothing, whatever it returns.
  abbrev pub Still {ℓ} : {A : Type ℓ} → WebSocketConnection W → A → WebSocketConnection W → Type 0
  Still c a c' = IsStill os outgoing c c'

module _ {W : Type 0} (os : Platform W) (outgoing : W → List ℕ) (law : IsPlatform os outgoing) where
  pub quiet-IsStill :
      (c : WebSocketConnection W) (w : W)
      → IsQuiet os outgoing (c.world) w
      → IsStill os outgoing c (record c { world = w })
  quiet-IsStill c w q = record {
    same_fd = refl;
    same_ssl = refl;
    same_context = refl;
    read = sym q.unread;
    wrote = q.unsent ∙ sym (append-nil (outgoing c.world));
  }

  pub started-Still :
      (c : WebSocketConnection W) → Ensures (Still os outgoing c) Never (started os c)
  unfolding started
  started-Still c =
      if-Ensures (Still os outgoing c) Never c.instrumentation_enabled _ _
        (λ _. quiet-IsStill c _ (law.now_quiet c.world)) (λ _. IsMove-refl os outgoing c)

  pub count-Still :
      (f : WebSocketStatistics → WebSocketStatistics) (c : WebSocketConnection W)
      → Ensures (Still os outgoing c) Never (count f c)
  count-Still f c =
      if-Ensures (Still os outgoing c) Never c.instrumentation_enabled _ _
        (λ _. record {
          same_fd = refl;
          same_ssl = refl;
          same_context = refl;
          read = refl;
          wrote = sym (append-nil (outgoing c.world));
        })
        (λ _. IsMove-refl os outgoing c)

  -- The statistics are no part of the buffer.
  pub count-buffer :
      (f : WebSocketStatistics → WebSocketStatistics) (c : WebSocketConnection W)
      → Ensures
          (λ _ d. IsStill os outgoing c d × (d.web_socket_frame_buffer ≡ c.web_socket_frame_buffer))
          Never
          (count f c)
  count-buffer f c =
      if-Ensures
        (λ _ d. IsStill os outgoing c d × (d.web_socket_frame_buffer ≡ c.web_socket_frame_buffer))
        Never c.instrumentation_enabled _ _
        (λ _. (
          record {
            same_fd = refl;
            same_ssl = refl;
            same_context = refl;
            read = refl;
            wrote = sym (append-nil (outgoing c.world));
          },
          refl,
        ))
        (λ _. (IsMove-refl os outgoing c, refl))

  pub count_since-Still :
      (start : ℕ) (f : ℕ → WebSocketStatistics → WebSocketStatistics) (c : WebSocketConnection W)
      → Ensures (Still os outgoing c) Never (count_since os start f c)
  unfolding count_since
  count_since-Still start f c =
      if-Ensures (Still os outgoing c) Never c.instrumentation_enabled _ _
        (λ _.
          Ensures-mono (Still os outgoing (record c { world = (os.now c.world).1 }))
            (Still os outgoing c) Never Never
            (count (f _) (record c { world = (os.now c.world).1 }))
            (count-Still (f _) (record c { world = (os.now c.world).1 })) (λ e s h. h)
            (λ _ d m.
              still_then os outgoing c _ d [] [] (quiet-IsStill c _ (law.now_quiet c.world)) m))
        (λ _. IsMove-refl os outgoing c)
