-- ===== src/WebSocket/Transport.antt =====
-- src/websocket.cpp: `transportWrite`, `transportRead` and `close`. A loop gets as fuel the bytes
-- that it has to move; one that would run out of it is a fault.
use exasol_gateway_sdk.Errors.{transport_error}
use exasol_gateway_sdk.Base.{
  ℕ, zero, suc, ◌+◌, ◌-◌, ◌%◌, ◌^◌, List, [], ◌∷◌, ◌++◌, Bool, true, false, Option, none, some, ltb,
  ◌==◌, length, drop, if◌then◌else◌,
}
use exasol_gateway_sdk.Base.Outcome.{ok, fault}
use exasol_gateway_sdk.Base.State.{Action, pure, ◌>>=◌, ◌>>◌, get, lift, throw}
use exasol_gateway_sdk.WebSocket.{WebSocketConnection, WebSocketStatistics, Platform}

-- A counter of 64 bits.
abbrev pub plus : ℕ → ℕ → ℕ
plus a b = (a + b) % 2 ^ 64

-- `static_cast<int>` of a size, 0 where it is not positive.
abbrev pub int_of : ℕ → ℕ
int_of n = if ltb (n % 2 ^ 32) (2 ^ 31) then n % 2 ^ 32 else 0

abbrev pub has : Option ℕ → Bool
has none = false
has (some h) = true

module _ {W : Type 0} where
  abbrev pub on_world {ℓ} : {A : Type ℓ} → (W → A × W) → Action (WebSocketConnection W) A
  on_world m self = let (a, w) = m self.world in (ok a, record self { world = w })

  abbrev pub in_world : (W → W) → Action (WebSocketConnection W) (Unit {0})
  in_world f self = (ok tt, record self { world = f self.world })

  -- The statistics are kept if the connection is instrumented.
  abbrev pub count :
      (WebSocketStatistics → WebSocketStatistics) → Action (WebSocketConnection W) (Unit {0})
  count f self =
      if self.instrumentation_enabled
      then (ok tt, record self { statistics = f self.statistics })
      else (ok tt, self)

abbrev pub iterated : WebSocketStatistics → WebSocketStatistics
iterated s = record s { transport_read_iterations = plus (s.transport_read_iterations) 1 }

module _ {W : Type 0} (os : Platform W) where
  -- `instrumentationEnabled_ ? std::chrono::steady_clock::now() : ...::time_point{}`
  unfoldable pub started : Action (WebSocketConnection W) ℕ
  started self = if self.instrumentation_enabled then on_world os.now self else (ok 0, self)

  -- Statistics with the time since the start.
  unfoldable pub count_since :
      ℕ
      → (ℕ → WebSocketStatistics → WebSocketStatistics)
      → Action (WebSocketConnection W) (Unit {0})
  count_since start f self =
      if self.instrumentation_enabled
      then (do finish ← on_world os.now; count (f ((finish + 2 ^ 64 - start) % 2 ^ 64))) self
      else (ok tt, self)

  -- By TLS if there is a session of it, else by the socket.
  unfoldable pub write_by : Option ℕ → List ℕ → Action (WebSocketConnection W) ℕ
  write_by (some ssl) rest self = on_world (os.ssl_write ssl rest (length rest % 2 ^ 32)) self
  write_by none rest self =
      on_world (λ w. (int_of (os.send (self.fd) rest w).0, (os.send (self.fd) rest w).1)) self

  unfoldable pub write_some : List ℕ → Action (WebSocketConnection W) ℕ
  write_some rest self = write_by (self.ssl) rest self

  unfoldable pub throw_write_error {ℓ} : {A : Type ℓ} → Action (WebSocketConnection W) A
  throw_write_error self =
      throw transport_error
        (if has (self.ssl)
          then os.error_string "OpenSSL TLS write failed" (self.world)
          else os.errno_string (self.world))
        self

  unfoldable pub write_loop : ℕ → List ℕ → Action (WebSocketConnection W) (Unit {0})
  write_loop fuel [] = pure tt
  write_loop zero (b ∷ rest) = lift fault
  write_loop (suc fuel) (b ∷ rest) = do
    rc ← write_some (b ∷ rest)
    if rc == 0 then throw_write_error else write_loop fuel (drop rc (b ∷ rest))

  unfoldable pub transport_write : List ℕ → Action (WebSocketConnection W) (Unit {0})
  transport_write payload = do
    start ← started
    self ← get
    if has (self.fd)
        then (do
          write_loop (length payload) payload
          count_since start (λ ns s. record s {
            transport_write_calls = plus (s.transport_write_calls) 1;
            transport_bytes_written = plus (s.transport_bytes_written) (length payload);
            transport_write_nanoseconds = plus (s.transport_write_nanoseconds) ns;
          }))
        else throw transport_error "WebSocket transport is closed"

  unfoldable pub read_by : Option ℕ → ℕ → Action (WebSocketConnection W) (List ℕ)
  read_by (some ssl) size self = on_world (os.ssl_read ssl (size % 2 ^ 32)) self
  read_by none size self = on_world (os.recv (self.fd) size) self

  unfoldable pub read_some : ℕ → Action (WebSocketConnection W) (List ℕ)
  read_some size self = read_by (self.ssl) size self

  unfoldable pub throw_read_error {ℓ} : {A : Type ℓ} → Action (WebSocketConnection W) A
  throw_read_error self =
      throw transport_error
        (if has (self.ssl)
          then os.error_string "OpenSSL TLS read failed" (self.world)
          else "Socket closed while reading")
        self

  -- `left` bytes are missing. A call that stores more than it is asked for is a fault.
  unfoldable pub read_loop : ℕ → ℕ → List ℕ → Action (WebSocketConnection W) (List ℕ)
  read_loop fuel zero buffer = pure buffer
  read_loop zero (suc left) buffer = lift fault
  read_loop (suc fuel) (suc left) buffer = do
    got ← read_some (suc left)
    if ltb (suc left) (length got) then lift fault else (do
      if int_of (length got) == 0
          then throw_read_error
          else (do count iterated; read_loop fuel (suc left - length got) (buffer ++ got)))

  unfoldable pub transport_read : ℕ → Action (WebSocketConnection W) (List ℕ)
  transport_read size = do
    start ← started
    payload ← read_loop size size []
    count_since start (λ ns s. record s {
      transport_read_calls = plus (s.transport_read_calls) 1;
      transport_bytes_read = plus (s.transport_bytes_read) size;
      transport_read_nanoseconds = plus (s.transport_read_nanoseconds) ns;
    })
    pure payload

  unfoldable pub close_ssl : Option ℕ → Action (WebSocketConnection W) (Unit {0})
  close_ssl none self = (ok tt, self)
  close_ssl (some h) self =
      (ok tt, record self { ssl = none; world = os.ssl_free h (os.ssl_shutdown h (self.world)) })

  unfoldable pub close_context : Option ℕ → Action (WebSocketConnection W) (Unit {0})
  close_context none self = (ok tt, self)
  close_context (some h) self =
      (ok tt, record self { ssl_context = none; world = os.ssl_ctx_free h (self.world) })

  unfoldable pub close_fd : Option ℕ → Action (WebSocketConnection W) (Unit {0})
  close_fd none self = (ok tt, self)
  close_fd (some h) self = (ok tt, record self { fd = none; world = os.close h (self.world) })

  -- What the connection still holds is released.
  unfoldable pub close : Action (WebSocketConnection W) (Unit {0})
  close self = (do close_ssl (self.ssl); close_context (self.ssl_context); close_fd (self.fd)) self
