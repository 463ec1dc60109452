-- ===== src/WebSocket/Login/Calls.antt =====
-- The calls of the system and of OpenSSL in `connectAndLogin`: each that fails is a transport error.
use Prim.Native.String.{String}
use exasol_gateway_sdk.Base.{
  ℕ, zero, suc, List, Bool, true, false, Option, none, some, if◌then◌else◌, Result, err, fault, ◌≡◌,
  refl,
}
use exasol_gateway_sdk.Base.Outcome.{ok}
use exasol_gateway_sdk.Base.Judged.{is_wire}
use exasol_gateway_sdk.Base.State.{Action, and_then, pure}
use exasol_gateway_sdk.Base.Ensures.{Ensures}
use exasol_gateway_sdk.WebSocket.{WebSocketConnection, WebSocketOptions, Platform}
use exasol_gateway_sdk.WebSocket.Login.{
  Gate, is_plain, is_empty, is_verify, random_bytes, random_web_socket_key, or_throw, check,
  connect_tcp, load_authorities, set_up_verify, shake_hands, enable_tls,
  encrypt_password_for_web_socket_login, context_of_key, prepare, or_free_key, base64_by,
  base64_encode,
}
use exasol_gateway_sdk.WebSocket.Login.Upgrade.{attach}

module _ {W : Type 0} where
  -- The code returns, or throws an error of a category of the protocol.
  abbrev pub Ends {ℓ} : {A : Type ℓ} → Result A × WebSocketConnection W → Type 0
  Ends r = Ensures (λ _ _. Unit {0}) (λ e _. is_wire e.category ≡ true) r

  pub and_then-Ends {ℓ κ} :
      {A : Type ℓ} {B : Type κ} (r : Result A × WebSocketConnection W)
      (f : A → Action (WebSocketConnection W) B)
      → Ends r
      → ((a : A) (s : WebSocketConnection W) → Ends (f a s))
      → Ends (and_then r f)
  and_then-Ends (ok a, s) f h k = k a s
  and_then-Ends (err e, s) f h k = h
  and_then-Ends (fault, s) f h k = h

  module _ (os : Platform W) (gate : Gate W) where
    pub or_throw-Ends {ℓ} :
        {A : Type ℓ} (message : W → String) (a : Option A) (s : WebSocketConnection W)
        → Ends (or_throw os gate message a s)
    unfolding or_throw
    or_throw-Ends message (some a) s = tt
    or_throw-Ends message none s = refl

    pub check-Ends :
        (message : W → String) (b : Bool) (s : WebSocketConnection W)
        → Ends (check os gate message b s)
    unfolding check
    check-Ends message true s = tt
    check-Ends message false s = refl

    pub connect_tcp-Ends :
        (host : List ℕ) (port : ℕ) (s : WebSocketConnection W)
        → Ends (connect_tcp os gate host port s)
    unfolding connect_tcp
    connect_tcp-Ends host port s =
        and_then-Ends (or_throw os gate _ _ _) _ (or_throw-Ends _ _ _)
          λ addresses t. or_throw-Ends _ _ _

    pub branch-Ends {ℓ} :
        {A : Type ℓ} (b : Bool) (f g : Action (WebSocketConnection W) A) (s : WebSocketConnection W)
        → Ends (f s)
        → Ends (g s)
        → Ends ((if b then f else g) s)
    branch-Ends true f g s h k = h
    branch-Ends false f g s h k = k

    pub set_up_verify-Ends :
        (context : ℕ) (options : WebSocketOptions) (s : WebSocketConnection W)
        → Ends (set_up_verify os gate context options s)
    unfolding set_up_verify load_authorities
    set_up_verify-Ends context options s =
        branch-Ends (is_verify options.tls_mode) (load_authorities os gate context options)
          (pure tt) _
          (branch-Ends (is_empty options.ca_file) _ _ _ (check-Ends _ _ _) (check-Ends _ _ _)) tt

    pub shake_hands-Ends :
        (ssl : ℕ) (options : WebSocketOptions) (s : WebSocketConnection W)
        → Ends (shake_hands os gate ssl options s)
    unfolding shake_hands
    shake_hands-Ends ssl options s =
        and_then-Ends (or_throw os gate _ _ _) _ (or_throw-Ends _ _ _) λ bio t.
          and_then-Ends _ _
            (branch-Ends (is_verify options.tls_mode) _ (pure tt) _ (check-Ends _ _ _) tt)
            λ _ u. and_then-Ends (check os gate _ _ _) _ (check-Ends _ _ _) λ _ v. check-Ends _ _ _

    pub enable_tls-Ends :
        (options : WebSocketOptions) (s : WebSocketConnection W)
        → Ends (enable_tls os gate options s)
    unfolding enable_tls
    enable_tls-Ends options s =
        and_then-Ends (or_throw os gate _ _ _) _ (or_throw-Ends _ _ _) λ context t.
          and_then-Ends (set_up_verify os gate context options _) _ (set_up_verify-Ends _ _ _)
            λ _ u.
              and_then-Ends (or_throw os gate _ _ _) _ (or_throw-Ends _ _ _)
                λ ssl v. shake_hands-Ends ssl options _

    or_free_key-Ends :
        (key : ℕ) (made : Option ℕ) (s : WebSocketConnection W)
        → Ends (or_free_key os gate key made s)
    or_free_key-Ends key (some context) s = tt
    or_free_key-Ends key none s = refl

    base64_by-Ends :
        (b64 bio : Option ℕ) (bytes : List ℕ) (s : WebSocketConnection W)
        → Ends (base64_by os gate b64 bio bytes s)
    unfolding base64_by
    base64_by-Ends none bio bytes s = refl
    base64_by-Ends (some b64) none bytes s = refl
    base64_by-Ends (some b64) (some bio) bytes s =
        and_then-Ends (check os gate _ _ _) _ (check-Ends _ _ _)
          λ _ a. and_then-Ends (check os gate _ _ _) _ (check-Ends _ _ _) λ _ b. tt

    pub base64_encode-Ends :
        (bytes : List ℕ) (s : WebSocketConnection W) → Ends (base64_encode os gate bytes s)
    unfolding base64_encode
    base64_encode-Ends bytes s = base64_by-Ends _ _ bytes _

    pub context_of_key-Ends :
        (pem : List ℕ) (s : WebSocketConnection W) → Ends (context_of_key os gate pem s)
    unfolding context_of_key
    context_of_key-Ends pem s =
        and_then-Ends (or_throw os gate _ _ _) _ (or_throw-Ends _ _ _) λ _ a.
          and_then-Ends (or_throw os gate _ _ _) _ (or_throw-Ends _ _ _)
            λ key b. or_free_key-Ends key (gate.new_key_context key b.world).0 _

    pub prepare-Ends :
        (context : ℕ) (password : List ℕ) (s : WebSocketConnection W)
        → Ends (prepare os gate context password s)
    unfolding prepare
    prepare-Ends context password s =
        and_then-Ends (check os gate _ _ _) _ (check-Ends _ _ _)
          λ _ a. and_then-Ends (check os gate _ _ _) _ (check-Ends _ _ _) λ _ b. check-Ends _ _ _

    pub encrypt_password-Ends :
        (pem password : List ℕ) (s : WebSocketConnection W)
        → Ends (encrypt_password_for_web_socket_login os gate pem password s)
    unfolding encrypt_password_for_web_socket_login
    encrypt_password-Ends pem password s =
        and_then-Ends (context_of_key os gate pem s) _ (context_of_key-Ends pem s) λ made a.
          and_then-Ends (prepare os gate made.1 password a) _ (prepare-Ends made.1 password a)
            λ _ b.
              and_then-Ends (or_throw os gate _ _ _) _ (or_throw-Ends _ _ _)
                λ encrypted c. base64_encode-Ends encrypted _

    pub random_bytes-Ends : (n : ℕ) (s : WebSocketConnection W) → Ends (random_bytes os gate n s)
    unfolding random_bytes
    random_bytes-Ends zero s = tt
    random_bytes-Ends (suc n) s =
        and_then-Ends (random_bytes os gate n _) _ (random_bytes-Ends n _) λ bytes t. tt

    pub random_key-Ends : (s : WebSocketConnection W) → Ends (random_web_socket_key os gate s)
    unfolding random_web_socket_key
    random_key-Ends s =
        and_then-Ends (random_bytes os gate 16 s) _ (random_bytes-Ends 16 s)
          λ bytes t. base64_encode-Ends bytes t

    pub attach-Ends :
        (options : WebSocketOptions) (s : WebSocketConnection W) → Ends (attach os gate options s)
    unfolding attach
    attach-Ends options s =
        and_then-Ends (connect_tcp os gate options.host options.port s) _ (connect_tcp-Ends _ _ s)
          λ fd t.
            and_then-Ends _ _
              (branch-Ends (gate.set_no_delay (some fd) t.world).0 (pure tt) _ _ tt refl)
              λ _ u.
                branch-Ends (is_plain options.tls_mode) (pure tt) (enable_tls os gate options) _ tt
                  (enable_tls-Ends options _)
