-- ===== src/WebSocket/Streams.antt =====
-- What the code relies on of the system and of OpenSSL: a connection is two streams of bytes.
use exasol_gateway_sdk.Base.{
  ℕ, ◌^◌, ◌≤◌, ◌<◌, List, [], ◌++◌, Bool, true, Option, length, take, append_assoc, append-nil, ◌≡◌,
  refl, sym, ap, ◌∙◌,
}
use exasol_gateway_sdk.WebSocket.{WebSocketConnection, Platform}
use exasol_gateway_sdk.WebSocket.Transport.{has}

module _ {W : Type 0} (os : Platform W) (outgoing : W → List ℕ) where
  -- Neither stream moves.
  pub record IsQuiet (w w' : W) : Type 0 where
    pub unread : os.incoming w' ≡ os.incoming w
    pub unsent : outgoing w' ≡ outgoing w

  -- A read of `size` bytes at most gets the next ones; of an open connection it gets one at least,
  -- if there is one to come.
  pub record IsRead (open_for_reading : Bool) (size : ℕ) (w : W) (got : List ℕ) (w' : W)
      : Type 0 where
    pub next_bytes : os.incoming w ≡ got ++ os.incoming w'
    pub unsent : outgoing w' ≡ outgoing w
    pub within : length got ≤ size
    pub is_int : length got < 2 ^ 31
    pub progress : open_for_reading ≡ true → 0 < size → length got ≡ 0 → os.incoming w ≡ []

  -- A write sends the first bytes that it is given.
  pub record IsWrite (bytes : List ℕ) (w : W) (n : ℕ) (w' : W) : Type 0 where
    pub within : n ≤ length bytes
    pub is_int : n < 2 ^ 31
    pub sent : outgoing w' ≡ outgoing w ++ take n bytes
    pub unread : os.incoming w' ≡ os.incoming w

  -- The documented behaviour of the calls.
  pub record IsPlatform : Type 0 where
    pub now_quiet : (w : W) → IsQuiet w (os.now w).1
    pub random_quiet : (w : W) → IsQuiet w (os.random w).1
    pub recv_reads :
        (fd : Option ℕ) (size : ℕ) (w : W)
        → IsRead (has fd) size w (os.recv fd size w).0 (os.recv fd size w).1
    pub ssl_read_reads :
        (ssl size : ℕ) (w : W)
        → IsRead true size w (os.ssl_read ssl size w).0 (os.ssl_read ssl size w).1
    pub send_writes :
        (fd : Option ℕ) (bytes : List ℕ) (w : W)
        → IsWrite bytes w (os.send fd bytes w).0 (os.send fd bytes w).1
    pub ssl_write_writes :
        (ssl : ℕ) (bytes : List ℕ) (size : ℕ) (w : W)
        → IsWrite bytes w (os.ssl_write ssl bytes size w).0 (os.ssl_write ssl bytes size w).1

  -- The peer takes what it is sent: a write of some bytes sends one at least.
  pub record IsWritable : Type 0 where
    pub send_progress :
        (fd : Option ℕ) (bytes : List ℕ) (w : W)
        → has fd ≡ true
        → 0 < length bytes
        → 0 < (os.send fd bytes w).0
    pub ssl_write_progress :
        (ssl : ℕ) (bytes : List ℕ) (size : ℕ) (w : W)
        → 0 < length bytes
        → 0 < size
        → size < 2 ^ 31
        → 0 < (os.ssl_write ssl bytes size w).0

  -- Between two states of a connection, `got` has been read and `put` written; it has the same
  -- handles.
  pub record IsMove (c : WebSocketConnection W) (got put : List ℕ) (c' : WebSocketConnection W)
      : Type 0 where
    pub same_fd : c'.fd ≡ c.fd
    pub same_ssl : c'.ssl ≡ c.ssl
    pub same_context : c'.ssl_context ≡ c.ssl_context
    pub read : os.incoming c.world ≡ got ++ os.incoming c'.world
    pub wrote : outgoing c'.world ≡ outgoing c.world ++ put

  pub IsMove-refl : (c : WebSocketConnection W) → IsMove c [] [] c
  IsMove-refl c = record {
    same_fd = refl;
    same_ssl = refl;
    same_context = refl;
    read = refl;
    wrote = sym (append-nil (outgoing c.world));
  }

  pub IsMove-trans :
      (c d e : WebSocketConnection W) (got put got' put' : List ℕ)
      → IsMove c got put d
      → IsMove d got' put' e
      → IsMove c (got ++ got') (put ++ put') e
  IsMove-trans c d e got put got' put' m n = record {
    same_fd = n.same_fd ∙ m.same_fd;
    same_ssl = n.same_ssl ∙ m.same_ssl;
    same_context = n.same_context ∙ m.same_context;
    read = m.read ∙ ap (◌++◌ got) n.read ∙ sym (append_assoc got got' _);
    wrote = n.wrote ∙ ap (λ (t : List ℕ). t ++ put') m.wrote ∙ append_assoc _ put put';
  }

  -- What moves nothing.
  abbrev pub IsStill : WebSocketConnection W → WebSocketConnection W → Type 0
  IsStill c c' = IsMove c [] [] c'

  pub still_then :
      (c d e : WebSocketConnection W) (got put : List ℕ)
      → IsStill c d
      → IsMove d got put e
      → IsMove c got put e
  still_then c d e got put m n = IsMove-trans c d e [] [] got put m n

  pub then_still :
      (c d e : WebSocketConnection W) (got put : List ℕ)
      → IsMove c got put d
      → IsStill d e
      → IsMove c got put e
  then_still c d e got put m n = record {
    same_fd = n.same_fd ∙ m.same_fd;
    same_ssl = n.same_ssl ∙ m.same_ssl;
    same_context = n.same_context ∙ m.same_context;
    read = m.read ∙ ap (◌++◌ got) n.read;
    wrote = n.wrote ∙ append-nil _ ∙ m.wrote;
  }
