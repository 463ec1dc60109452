-- ===== src/WebSocket/Released.antt =====
-- `close` releases what a connection holds.
use exasol_gateway_sdk.Base.{ℕ, ◌≡◌, refl, none, some, Option}
use exasol_gateway_sdk.Base.Outcome.{ok}
use exasol_gateway_sdk.Base.Ensures.{Ensures}
use exasol_gateway_sdk.WebSocket.{WebSocketConnection, Platform}
use exasol_gateway_sdk.WebSocket.Transport.{close, close_ssl, close_context, close_fd}
use exasol_gateway_sdk.WebSocket.Quiet.{Never}

module _ {W : Type 0} where
  -- What is left of a connection that was closed.
  pub record IsClosed (c : WebSocketConnection W) : Type 0 where
    pub no_fd : c.fd ≡ none
    pub no_ssl : c.ssl ≡ none
    pub no_context : c.ssl_context ≡ none

module _ {W : Type 0} (os : Platform W) where
  -- The calls that give a handle back, if there is one.
  abbrev pub ssl_returned : Option ℕ → W → W
  ssl_returned none w = w
  ssl_returned (some h) w = os.ssl_free h (os.ssl_shutdown h w)

  abbrev pub context_returned : Option ℕ → W → W
  context_returned none w = w
  context_returned (some h) w = os.ssl_ctx_free h w

  abbrev pub fd_returned : Option ℕ → W → W
  fd_returned none w = w
  fd_returned (some h) w = os.close h w

  -- A connection whose handles were given back, in this order, and that holds none.
  abbrev pub released : WebSocketConnection W → WebSocketConnection W
  released c = record c {
    fd = none;
    ssl = none;
    ssl_context = none;
    world = fd_returned c.fd (context_returned c.ssl_context (ssl_returned c.ssl c.world));
  }

  close_handles :
      (fd ssl context : Option ℕ) (c : WebSocketConnection W)
      → close os (record c { fd = fd; ssl = ssl; ssl_context = context })
        ≡ (ok tt, released (record c { fd = fd; ssl = ssl; ssl_context = context }))
  unfolding close close_ssl close_context close_fd
  close_handles none none none c = refl
  close_handles none none (some x) c = refl
  close_handles none (some s) none c = refl
  close_handles none (some s) (some x) c = refl
  close_handles (some h) none none c = refl
  close_handles (some h) none (some x) c = refl
  close_handles (some h) (some s) none c = refl
  close_handles (some h) (some s) (some x) c = refl

  -- `close` returns. Of the handles that the connection holds, it shuts down and frees the one of
  -- TLS, frees the context of TLS and closes the descriptor, each once and in this order, and calls
  -- nothing for a handle that is not held; then the connection holds none, and the rest of it is as it
  -- was. A second `close` changes nothing.
  pub close-released :
      (c : WebSocketConnection W)
      → (close os c ≡ (ok tt, released c)) × (close os (released c) ≡ (ok tt, released c))
  close-released c =
      (close_handles c.fd c.ssl c.ssl_context c, close_handles none none none (released c))

  pub close-IsClosed : (c : WebSocketConnection W) → Ensures (λ _ d. IsClosed d) Never (close os c)
  close-IsClosed c =
      rw (close-released c).0 (record { no_fd = refl; no_ssl = refl; no_context = refl })
