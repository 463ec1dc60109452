-- ===== src/WebSocket/Tape.antt =====
-- A system that moves a few bytes in a call: it behaves as the code relies on.
use exasol_gateway_sdk.Base.{
  ℕ, ◌<◌, min, List, [], ◌∷◌, ◌++◌, Bool, true, false, none, some, length, take, drop, length-take,
  take-append-drop, if◌then◌else◌, ◌≡◌, refl, sym, arith,
}
use exasol_gateway_sdk.WebSocket.{WebSocketConnection, WebSocketStatistics, Platform}
use exasol_gateway_sdk.WebSocket.Transport.{has}
use exasol_gateway_sdk.WebSocket.Streams.{IsPlatform, IsWritable, IsRead, IsWrite}

-- What the peer will send and what it has been sent.
pub record Tape : Type 0 where
  pub inbound : List ℕ
  pub outbound : List ℕ

-- At most two bytes are read at a time, and three written; a socket that is closed moves none.
abbrev pub read_tape : Bool → ℕ → Tape → List ℕ × Tape
read_tape is_open size w =
    let n : ℕ = if is_open then min 2 size else 0 in
    (take n w.inbound, record w { inbound = drop n w.inbound })

abbrev pub write_tape : Bool → List ℕ → Tape → ℕ × Tape
write_tape is_open bytes w =
    let n : ℕ = if is_open then min 3 (length bytes) else 0 in
    (n, record w { outbound = w.outbound ++ take n bytes })

abbrev pub tape_os : Platform Tape
tape_os = record {
  incoming = λ w. w.inbound;
  now = λ w. (5, w);
  random = λ w. (0x1a7, w);
  send = λ fd bytes w. write_tape (has fd) bytes w;
  recv = λ fd size w. read_tape (has fd) size w;
  ssl_write = λ ssl bytes size w. write_tape true bytes w;
  ssl_read = λ ssl size w. read_tape true size w;
  error_string = λ s w. s;
  errno_string = λ w. "errno";
  ssl_shutdown = λ h w. w;
  ssl_free = λ h w. w;
  ssl_ctx_free = λ h w. w;
  close = λ h w. w;
}

abbrev pub sent : Tape → List ℕ
sent w = w.outbound

read_tape-IsRead :
    (is_open : Bool) (size : ℕ) (w : Tape)
    → IsRead tape_os sent is_open size w (read_tape is_open size w).0 (read_tape is_open size w).1
read_tape-IsRead true size w = record {
  next_bytes = sym (take-append-drop (min 2 size) w.inbound);
  unsent = refl;
  within = omega (arith, length-take {0} (min 2 size) w.inbound);
  is_int = omega (arith, length-take {0} (min 2 size) w.inbound);
  progress = λ is_open some none.
      empty w.inbound (omega (arith, length-take {0} (min 2 size) w.inbound, none, some));
}
  where
    empty : (xs : List ℕ) → length xs ≡ 0 → xs ≡ []
    empty [] h = refl
    empty (x ∷ xs) h = absurd (omega arith)
read_tape-IsRead false size w = record {
  next_bytes = refl;
  unsent = refl;
  within = omega arith;
  is_int = omega arith;
  progress = λ is_open some none. cc;
}

write_tape-IsWrite :
    (is_open : Bool) (bytes : List ℕ) (w : Tape)
    → IsWrite tape_os sent bytes w (write_tape is_open bytes w).0 (write_tape is_open bytes w).1
write_tape-IsWrite true bytes w = record {
  within = omega arith;
  is_int = omega arith;
  sent = refl;
  unread = refl;
}
write_tape-IsWrite false bytes w = record {
  within = omega arith;
  is_int = omega arith;
  sent = refl;
  unread = refl;
}

pub tape_law : IsPlatform tape_os sent
tape_law = record {
  now_quiet = λ w. record { unread = refl; unsent = refl };
  random_quiet = λ w. record { unread = refl; unsent = refl };
  recv_reads = λ fd size w. read_tape-IsRead (has fd) size w;
  ssl_read_reads = λ ssl size w. read_tape-IsRead true size w;
  send_writes = λ fd bytes w. write_tape-IsWrite (has fd) bytes w;
  ssl_write_writes = λ ssl bytes size w. write_tape-IsWrite true bytes w;
}

pub tape_live : IsWritable tape_os sent
tape_live = record {
  send_progress = λ fd bytes w is_open some. written (has fd) (length bytes) is_open some;
  ssl_write_progress = λ ssl bytes size w some positive short. omega arith;
}
  where
    written : (b : Bool) (n : ℕ) → b ≡ true → 0 < n → 0 < (if b then min 3 n else 0)
    written true n h k = omega arith
    written false n h k = cc

abbrev pub no_statistics : WebSocketStatistics
no_statistics = record {
  connect_nanoseconds = 0;
  transport_write_calls = 0;
  transport_read_calls = 0;
  transport_read_iterations = 0;
  transport_bytes_written = 0;
  transport_bytes_read = 0;
  transport_write_nanoseconds = 0;
  transport_read_nanoseconds = 0;
  sessiongw_frames_sent = 0;
  sessiongw_frames_received = 0;
  sessiongw_payload_bytes_sent = 0;
  sessiongw_payload_bytes_received = 0;
  websocket_mask_copy_bytes = 0;
  websocket_header_read_calls = 0;
  websocket_header_read_bytes = 0;
  websocket_header_read_nanoseconds = 0;
  websocket_payload_read_calls = 0;
  websocket_payload_read_bytes = 0;
  websocket_payload_read_nanoseconds = 0;
  sessiongw_frame_decode_nanoseconds = 0;
}

-- An open socket, whose peer will send these bytes.
abbrev pub open_socket : List ℕ → WebSocketConnection Tape
open_socket bytes = record {
  fd = some 4;
  web_socket_frame_buffer = [];
  ssl_context = none;
  ssl = none;
  instrumentation_enabled = true;
  statistics = no_statistics;
  world = record { inbound = bytes; outbound = [] };
}
