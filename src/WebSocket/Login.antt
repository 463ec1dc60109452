-- ===== src/WebSocket/Login.antt =====
-- src/websocket.cpp: `connectAndLogin`, from the TCP connection to the log-in.
pub mod Upgrade
pub mod Calls
mod Answers
pub mod Ends
pub mod Peer
mod Runs
use Prim.Native.String.{String}
use exasol_gateway_sdk.Errors.{
  Error, ErrorCategory, authentication_failed, transport_error, protocol_error, followed,
}
use exasol_gateway_sdk.Base.{
  ℕ, zero, suc, ◌+◌, ◌-◌, ◌*◌, ◌/◌, ◌%◌, ◌^◌, List, [], ◌∷◌, ◌++◌, Bool, true, false, Option, none,
  some, ltb, ◌==◌, not, ◌||◌, length, if◌then◌else◌, Result, err, fault,
}
use exasol_gateway_sdk.Base.Outcome.{ok}
use exasol_gateway_sdk.Base.Texts.{codes}
use exasol_gateway_sdk.Base.State.{Action, pure, ◌>>=◌, ◌>>◌, get, lift, throw, modify}
use exasol_gateway_sdk.WebSocket.{
  WebSocketConnection, WebSocketOptions, WebSocketStatistics, WebSocketTlsMode, Platform,
  plain_for_test_only, tls_verify, tls_skip_verify_for_test_only,
}
use exasol_gateway_sdk.WebSocket.Json.{
  find, json_escape, json_string_value, require_status_ok, throw_followed,
}
use exasol_gateway_sdk.WebSocket.Transport.{
  has, on_world, in_world, count, count_since, started, transport_read, transport_write, close,
}
use exasol_gateway_sdk.WebSocket.Send.{send_text}
use exasol_gateway_sdk.WebSocket.Connection.{receive_text, or_close}

-- The calls of the system and of OpenSSL that only the log-in makes. A call that reports success or
-- failure returns a Boolean, one that returns a handle or a null pointer an `Option`. `free_all` is
-- BIO_free_all, which takes a null pointer too; `contents` is what BIO_get_mem_ptr points at.
pub record Gate (W : Type 0) : Type 0 where
  pub get_addr_info : List ℕ → List ℕ → W → Option (List ℕ) × W
  pub gai_strerror : W → String
  pub socket : ℕ → W → Option ℕ × W
  pub connect : ℕ → ℕ → W → Bool × W
  pub free_addr_info : List ℕ → W → W
  pub set_no_delay : Option ℕ → W → Bool × W
  pub ssl_ctx_new : W → Option ℕ × W
  pub set_verify : ℕ → Bool → W → W
  pub set_default_verify_paths : ℕ → W → Bool × W
  pub load_verify_locations : ℕ → List ℕ → W → Bool × W
  pub ssl_new : ℕ → W → Option ℕ × W
  pub new_socket_bio : Option ℕ → W → Option ℕ × W
  pub set_bio : ℕ → ℕ → W → W
  pub set_tlsext_host_name : ℕ → List ℕ → W → W
  pub set1_host : ℕ → List ℕ → W → Bool × W
  pub ssl_connect : ℕ → W → Bool × W
  pub get_verify_result : ℕ → W → Bool
  pub sha1 : List ℕ → List ℕ
  pub new_mem_sink : W → Option ℕ × W
  pub new_base64_filter : W → Option ℕ × W
  pub set_no_newlines : ℕ → W → W
  pub push : ℕ → ℕ → W → W
  pub bio_write : ℕ → List ℕ → W → Bool × W
  pub bio_flush : ℕ → W → Bool × W
  pub contents : ℕ → W → List ℕ
  pub free_all : Option ℕ → W → W
  pub new_mem_bio : List ℕ → W → Option ℕ × W
  pub read_public_key : ℕ → W → Option ℕ × W
  pub free_bio : ℕ → W → W
  pub free_key : ℕ → W → W
  pub free_key_context : ℕ → W → W
  pub new_key_context : ℕ → W → Option ℕ × W
  pub encrypt_init : ℕ → W → Bool × W
  pub set_rsa_padding : ℕ → W → Bool × W
  pub encrypted_size : ℕ → List ℕ → W → Bool × W
  pub encrypt : ℕ → List ℕ → W → Option (List ℕ) × W

-- `std::to_string` of a number, in decimal.
unfoldable pub digits_of : ℕ → ℕ → List ℕ
digits_of zero n = []
digits_of (suc fuel) n =
    let higher = digits_of fuel (n / 10) in
    if ltb n 10 then (48 + n) ∷ [] else higher ++ (48 + n % 10) ∷ []

-- A port has 16 bits, hence five digits at most.
abbrev pub port_text : ℕ → List ℕ
port_text port = digits_of 5 port

abbrev pub websocket_guid : List ℕ
websocket_guid = codes "258EAFA5-E914-47DA-95CA-C5AB0DC85B11"

abbrev pub is_verify : WebSocketTlsMode → Bool
is_verify tls_verify = true
is_verify plain_for_test_only = false
is_verify tls_skip_verify_for_test_only = false

abbrev pub is_plain : WebSocketTlsMode → Bool
is_plain plain_for_test_only = true
is_plain tls_verify = false
is_plain tls_skip_verify_for_test_only = false

abbrev pub is_empty : List ℕ → Bool
is_empty [] = true
is_empty (c ∷ s) = false

module _ {W : Type 0} (os : Platform W) (gate : Gate W) where
  -- A handle, or an error.
  unfoldable pub or_throw {ℓ} :
      {A : Type ℓ} → (W → String) → Option A → Action (WebSocketConnection W) A
  or_throw message (some a) = pure a
  or_throw message none = λ self. throw transport_error (message (self.world)) self

  unfoldable pub check : (W → String) → Bool → Action (WebSocketConnection W) (Unit {0})
  check message true = pure tt
  check message false = λ self. throw transport_error (message (self.world)) self

  -- Either of the two is a null pointer.
  abbrev pub no_bio : Option ℕ → Option ℕ → Action (WebSocketConnection W) (List ℕ)
  no_bio b64 bio = do
    in_world (gate.free_all b64)
    in_world (gate.free_all bio)
    throw transport_error "OpenSSL BIO allocation failed"

  -- A call that fails leaves both of them allocated.
  unfoldable pub base64_by : Option ℕ → Option ℕ → List ℕ → Action (WebSocketConnection W) (List ℕ)
  base64_by none bio bytes = no_bio none bio
  base64_by (some b64) none bytes = no_bio (some b64) none
  base64_by (some b64) (some bio) bytes = do
    in_world (gate.set_no_newlines b64)
    in_world (gate.push b64 bio)
    written ← on_world (gate.bio_write b64 bytes)
    check (λ _. "OpenSSL base64 write failed") written
    flushed ← on_world (gate.bio_flush b64)
    check (λ _. "OpenSSL base64 flush failed") flushed
    self ← get
    in_world (gate.free_all (some b64))
    pure (gate.contents b64 (self.world))

  unfoldable pub base64_encode : List ℕ → Action (WebSocketConnection W) (List ℕ)
  base64_encode bytes = do
    bio ← on_world gate.new_mem_sink
    b64 ← on_world gate.new_base64_filter
    base64_by b64 bio bytes

  unfoldable pub websocket_accept_for_key : List ℕ → Action (WebSocketConnection W) (List ℕ)
  websocket_accept_for_key key = base64_encode (gate.sha1 (key ++ websocket_guid))

  -- The sixteen bytes of the key.
  unfoldable pub random_bytes : ℕ → Action (WebSocketConnection W) (List ℕ)
  random_bytes zero = pure []
  random_bytes (suc left) = do
    drawn ← on_world os.random
    bytes ← random_bytes left
    pure ((drawn % 2 ^ 8) ∷ bytes)

  unfoldable pub random_web_socket_key : Action (WebSocketConnection W) (List ℕ)
  random_web_socket_key = do bytes ← random_bytes 16; base64_encode bytes

  -- The loop over the addresses: the first that can be connected.
  unfoldable pub try_address : (W → Option ℕ × W) → ℕ → Option ℕ → W → Option ℕ × W
  try_address others address none w = others w
  try_address others address (some fd) w =
      if (gate.connect fd address w).0
      then (some fd, (gate.connect fd address w).1)
      else others (os.close fd (gate.connect fd address w).1)

  unfoldable pub try_addresses : List ℕ → W → Option ℕ × W
  try_addresses [] w = (none, w)
  try_addresses (address ∷ addresses) w =
      try_address (try_addresses addresses) address (gate.socket address w).0
        (gate.socket address w).1

  unfoldable pub connect_tcp : List ℕ → ℕ → Action (WebSocketConnection W) ℕ
  connect_tcp host port = do
    resolved ← on_world (gate.get_addr_info host (port_text port))
    addresses ← or_throw gate.gai_strerror resolved
    fd ← on_world (try_addresses addresses)
    in_world (gate.free_addr_info addresses)
    or_throw (λ _. "Could not connect TCP socket") fd

  unfoldable pub load_authorities : ℕ → WebSocketOptions → Action (WebSocketConnection W) (Unit {0})
  load_authorities context options =
      if is_empty (options.ca_file)
      then (do
        loaded ← on_world (gate.set_default_verify_paths context)
        check (os.error_string "OpenSSL could not load default CA paths") loaded)
      else (do
        loaded ← on_world (gate.load_verify_locations context (options.ca_file))
        check (os.error_string "OpenSSL could not load CA file") loaded)

  unfoldable pub set_up_verify : ℕ → WebSocketOptions → Action (WebSocketConnection W) (Unit {0})
  set_up_verify context options = do
    in_world (gate.set_verify context (is_verify (options.tls_mode)))
    if is_verify (options.tls_mode) then load_authorities context options else pure tt

  -- From the socket's BIO on.
  unfoldable pub shake_hands : ℕ → WebSocketOptions → Action (WebSocketConnection W) (Unit {0})
  shake_hands ssl options = do
    self ← get
    made ← on_world (gate.new_socket_bio (self.fd))
    bio ← or_throw (os.error_string "OpenSSL TLS socket BIO setup failed") made
    in_world (gate.set_bio ssl bio)
    in_world (gate.set_tlsext_host_name ssl (options.host))
    if is_verify (options.tls_mode)
        then (do
          named ← on_world (gate.set1_host ssl (options.host))
          check (os.error_string "OpenSSL TLS host verification setup failed") named)
        else pure tt
    shaken ← on_world (gate.ssl_connect ssl)
    check (os.error_string "OpenSSL TLS handshake failed") shaken
    done ← get
    check (λ _. "OpenSSL TLS certificate verification failed")
        (not (is_verify (options.tls_mode)) || gate.get_verify_result ssl (done.world))

  unfoldable pub enable_tls : WebSocketOptions → Action (WebSocketConnection W) (Unit {0})
  enable_tls options = do
    made ← on_world gate.ssl_ctx_new
    context ← or_throw (os.error_string "OpenSSL TLS context allocation failed") made
    modify (λ (s : WebSocketConnection W). record s { ssl_context = some context })
    set_up_verify context options
    allocated ← on_world (gate.ssl_new context)
    ssl ← or_throw (os.error_string "OpenSSL TLS allocation failed") allocated
    modify (λ (s : WebSocketConnection W). record s { ssl = some ssl })
    shake_hands ssl options

  abbrev pub or_free_key : ℕ → Option ℕ → Action (WebSocketConnection W) (ℕ × ℕ)
  or_free_key key (some context) = pure (key, context)
  or_free_key key none = do
    in_world (gate.free_key key)
    throw transport_error "OpenSSL EVP_PKEY_CTX allocation failed"

  -- The key and its context.
  unfoldable pub context_of_key : List ℕ → Action (WebSocketConnection W) (ℕ × ℕ)
  context_of_key public_key_pem = do
    allocated ← on_world (gate.new_mem_bio public_key_pem)
    bio ← or_throw (λ _. "OpenSSL BIO allocation failed") allocated
    parsed ← on_world (gate.read_public_key bio)
    in_world (gate.free_bio bio)
    key ← or_throw (λ _. "Could not parse WebSocket public key PEM") parsed
    made ← on_world (gate.new_key_context key)
    or_free_key key made

  unfoldable pub prepare : ℕ → List ℕ → Action (WebSocketConnection W) (Unit {0})
  prepare context password = do
    started_up ← on_world (gate.encrypt_init context)
    check (λ _. "OpenSSL RSA encrypt init failed") started_up
    padded ← on_world (gate.set_rsa_padding context)
    check (λ _. "OpenSSL RSA padding setup failed") padded
    sized ← on_world (gate.encrypted_size context password)
    check (λ _. "OpenSSL RSA encrypted-size calculation failed") sized

  -- Where a call of `prepare` or the encryption fails, the key and its context stay allocated.
  unfoldable pub encrypt_password_for_web_socket_login :
      List ℕ → List ℕ → Action (WebSocketConnection W) (List ℕ)
  encrypt_password_for_web_socket_login public_key_pem password = do
    made ← context_of_key public_key_pem
    let (key, context) = made
    prepare context password
    done ← on_world (gate.encrypt context password)
    encrypted ← or_throw (λ _. "OpenSSL RSA encrypt failed") done
    in_world (gate.free_key_context context)
    in_world (gate.free_key key)
    base64_encode encrypted
