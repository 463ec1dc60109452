-- ===== src/WebSocket/Login/Peer.antt =====
-- A system and an OpenSSL on which every call of the log-in succeeds.
use exasol_gateway_sdk.Base.{[], ◌∷◌, true, some}
use exasol_gateway_sdk.WebSocket.Tape.{Tape}
use exasol_gateway_sdk.WebSocket.Login.{Gate}

abbrev pub tape_gate : Gate Tape
tape_gate = record {
  get_addr_info = λ host port w. (some (1 ∷ 2 ∷ []), w);
  gai_strerror = λ w. "unknown";
  socket = λ address w. (some 4, w);
  connect = λ fd address w. (true, w);
  free_addr_info = λ addresses w. w;
  set_no_delay = λ fd w. (true, w);
  ssl_ctx_new = λ w. (some 1, w);
  set_verify = λ context verify w. w;
  set_default_verify_paths = λ context w. (true, w);
  load_verify_locations = λ context path w. (true, w);
  ssl_new = λ context w. (some 2, w);
  new_socket_bio = λ fd w. (some 3, w);
  set_bio = λ ssl bio w. w;
  set_tlsext_host_name = λ ssl name w. w;
  set1_host = λ ssl name w. (true, w);
  ssl_connect = λ ssl w. (true, w);
  get_verify_result = λ ssl w. true;
  sha1 = λ bytes. bytes;
  new_mem_sink = λ w. (some 5, w);
  new_base64_filter = λ w. (some 6, w);
  set_no_newlines = λ b64 w. w;
  push = λ b64 bio w. w;
  bio_write = λ b64 bytes w. (true, w);
  bio_flush = λ b64 w. (true, w);
  contents = λ b64 w. [];
  free_all = λ b64 w. w;
  new_mem_bio = λ pem w. (some 7, w);
  read_public_key = λ bio w. (some 1, w);
  free_bio = λ bio w. w;
  free_key = λ key w. w;
  free_key_context = λ context w. w;
  new_key_context = λ key w. (some 1, w);
  encrypt_init = λ context w. (true, w);
  set_rsa_padding = λ context w. (true, w);
  encrypted_size = λ context password w. (true, w);
  encrypt = λ context password w. (some password, w);
}
