-- ===== src/WebSocket/Exact.antt =====
-- `receiveBinary` reads the frames that a server writes.
use native.Mathlib.Nat.{pow-suc, one-le-pow}
use exasol_gateway_sdk.Errors.{Error}
use exasol_gateway_sdk.Base.{
  ℕ, ◌+◌, ◌*◌, ◌^◌, ◌<◌, ◌≤◌, List, [], ◌∷◌, ◌++◌, true, false, length, leb, ltb, ◌==◌, not, ◌≡◌,
  refl, ap, sym, ◌∙◌, arith, length-append, leb→le, Bool-cases, inl, inr,
}
use exasol_gateway_sdk.Base.Outcome.{ok}
use exasol_gateway_sdk.Base.State.{pure}
use exasol_gateway_sdk.Base.Bytes.{
  IsBytes, value_from, big_endian, length-big_endian, big_endian-IsBytes, value-big_endian,
  shift_in_lem, at,
}
use exasol_gateway_sdk.Base.Ensures.{
  Ensures, and_then-Ensures, Ensures-mono, branch-Ensures, require-Ensures,
}
use exasol_gateway_sdk.WebSocket.{WebSocketConnection, Platform}
use exasol_gateway_sdk.WebSocket.Transport.{has}
use exasol_gateway_sdk.WebSocket.Masking.{read_big_endian}
use exasol_gateway_sdk.WebSocket.Receive.{
  read_header_bytes, read_length_16, read_length_64, read_length, read_payload,
  max_websocket_message_size,
}
use exasol_gateway_sdk.WebSocket.Script.{second_byte, extended}
use exasol_gateway_sdk.WebSocket.Streams.{IsPlatform, IsMove, IsMove-refl}
use exasol_gateway_sdk.WebSocket.Quiet.{Never}
use exasol_gateway_sdk.WebSocket.Filled.{IsCutRead}
use exasol_gateway_sdk.WebSocket.Heard.{read_header_bytes-IsMove, read_payload-IsMove}

-- The loop of `readBigEndian` computes the number, if it fits.
read_big_endian-value_from :
    (xs : List ℕ) (acc : ℕ)
    → IsBytes xs
    → (acc + 1) * 256 ^ length xs ≤ 2 ^ 64
    → read_big_endian xs acc ≡ value_from acc xs
unfolding read_big_endian value_from
read_big_endian-value_from [] acc are_bytes fits = refl
read_big_endian-value_from (x ∷ xs) acc are_bytes fits =
    rw (shift_in_lem 64 acc x are_bytes.0 small)
      (read_big_endian-value_from xs (acc * 256 + x) are_bytes.1 room)
  where
    power : 1 ≤ 256 ^ length xs
    power = one-le-pow (length xs) 256 (omega arith)

    product : (acc * 256 + 256) * 256 ^ length xs ≤ 2 ^ 64
    product = omega (arith, fits, ap (λ (t : ℕ). (acc + 1) * t) (pow-suc 256 (length xs)))

    small : acc * 256 < 2 ^ 64
    small = grind (arith, power, product)

    room : (acc * 256 + x + 1) * 256 ^ length xs ≤ 2 ^ 64
    room = grind (arith, product, are_bytes.0)

read_big_endian-big_endian :
    (n v : ℕ) → n ≤ 8 → v < 256 ^ n → 256 ^ n ≤ 2 ^ 64 → read_big_endian (big_endian n v) 0 ≡ v
read_big_endian-big_endian n v short small fits =
    read_big_endian-value_from (big_endian n v) 0 (big_endian-IsBytes n v)
      (let e : length (big_endian n v) ≡ n = length-big_endian n v in rw e (omega (arith, fits)))
    ∙ value-big_endian n v small

-- Two ways to split a list at the same place.
append_inj : (xs ys s t : List ℕ) → xs ++ s ≡ ys ++ t → length xs ≡ length ys → (xs ≡ ys) × (s ≡ t)
append_inj [] [] s t e h = (refl, e)
append_inj [] (y ∷ ys) s t e h = absurd (omega arith)
append_inj (x ∷ xs) [] s t e h = absurd (omega arith)
append_inj (x ∷ xs) (y ∷ ys) s t e h =
    let (same, rest) = append_inj xs ys s t (cc) (omega arith) in (cc, rest)

above : (m n : ℕ) → leb n m ≡ false → m < n
above m n h = ground arith

-- The three forms of a length.
short_length : (n : ℕ) → leb n 125 ≡ true → (second_byte n ≡ n) × (extended n ≡ [])
unfolding second_byte extended
short_length n h = (rw h refl, rw h refl)

medium_length :
    (n : ℕ)
    → leb n 125 ≡ false
    → leb n 0xffff ≡ true
    → (second_byte n ≡ 126) × (extended n ≡ big_endian 2 n)
unfolding second_byte extended
medium_length n h k = (rw (h, k) refl, rw (h, k) refl)

large_length :
    (n : ℕ)
    → leb n 125 ≡ false
    → leb n 0xffff ≡ false
    → (second_byte n ≡ 127) × (extended n ≡ big_endian 8 n)
unfolding second_byte extended
large_length n h k = (rw (h, k) refl, rw (h, k) refl)

top_byte : (n : ℕ) → n ≤ max_websocket_message_size → at (big_endian 8 n) 0 ≡ ok 0
unfolding at big_endian
top_byte n h = ap ok (omega arith)

module _ {W : Type 0} (os : Platform W) (outgoing : W → List ℕ) (law : IsPlatform os outgoing) where
  -- Bytes that lie ahead are taken.
  pub record IsTaken (xs rest : List ℕ) (c c' : WebSocketConnection W) : Type 0 where
    pub moved : IsMove os outgoing c xs [] c'
    pub ahead : os.incoming c'.world ≡ rest
    pub is_open : has c'.fd ≡ true

  module _ (xs rest : List ℕ) (c : WebSocketConnection W) (is_open : has c.fd ≡ true)
      (ahead : os.incoming c.world ≡ xs ++ rest) (short : length xs < 2 ^ 31) where
    taken :
        (bytes : List ℕ) (d : WebSocketConnection W)
        → (length bytes ≡ length xs) × IsMove os outgoing c bytes [] d
        → (bytes ≡ xs) × IsTaken xs rest c d
    taken bytes d got =
        let (same, behind) =
          append_inj bytes xs (os.incoming d.world) rest (sym got.1.read ∙ ahead) got.0 in
        (
          same,
          record {
            moved = rw⁻¹ same got.1;
            ahead = behind;
            is_open = ap has got.1.same_fd ∙ is_open;
          },
        )

    not_cut :
        (e : Error) (d : WebSocketConnection W) → IsCutRead os outgoing law c (length xs) e d → ⊥
    not_cut e d cut =
        omega (arith, cut.blocked is_open short, ap length ahead, length-append {0} xs rest)

    pub header_bytes-IsTaken :
        Ensures
          (λ bytes d. (bytes ≡ xs) × IsTaken xs rest c d)
          Never
          (read_header_bytes os (length xs) c)
    header_bytes-IsTaken =
        Ensures-mono (λ bytes d. (length bytes ≡ length xs) × IsMove os outgoing c bytes [] d) _
          (IsCutRead os outgoing law c (length xs)) Never (read_header_bytes os (length xs) c)
          (read_header_bytes-IsMove os outgoing law (length xs) c) not_cut taken

    pub payload-IsTaken :
        Ensures
          (λ bytes d. (bytes ≡ xs) × IsTaken xs rest c d)
          Never
          (read_payload os (length xs) c)
    payload-IsTaken =
        Ensures-mono (λ bytes d. (length bytes ≡ length xs) × IsMove os outgoing c bytes [] d) _
          (IsCutRead os outgoing law c (length xs)) Never (read_payload os (length xs) c)
          (read_payload-IsMove os outgoing law (length xs) c) not_cut taken

  read_length_16-IsLength :
      (n : ℕ) (rest : List ℕ) (c : WebSocketConnection W)
      → has c.fd ≡ true
      → os.incoming c.world ≡ big_endian 2 n ++ rest
      → 125 < n
      → n ≤ 0xffff
      → Ensures (λ v d. (v ≡ n) × IsTaken (big_endian 2 n) rest c d) Never (read_length_16 os c)
  unfolding read_length_16 big_endian
  read_length_16-IsLength n rest c is_open ahead low high =
      and_then-Ensures (λ bytes d. (bytes ≡ big_endian 2 n) × IsTaken (big_endian 2 n) rest c d)
        Never (λ v d. (v ≡ n) × IsTaken (big_endian 2 n) rest c d) Never (read_header_bytes os 2 c)
        _ (header_bytes-IsTaken (big_endian 2 n) rest c is_open ahead (omega arith))
        (λ _ _ never. never)
        λ bytes d got.
          let v : read_big_endian bytes 0 ≡ n =
            ap (λ (t : List ℕ). read_big_endian t 0) got.0
            ∙ read_big_endian-big_endian 2 n (omega arith) (omega arith) (omega arith) in
          rw v (
            require-Ensures (λ v d. (v ≡ n) × IsTaken (big_endian 2 n) rest c d) Never
              (not (ltb n 126)) _ d _ (λ h. absurd (long n low h)) (λ _. (refl, got.1)))
    where
      long : (n : ℕ) → 125 < n → not (ltb n 126) ≡ false → ⊥
      long n low h = ground arith

  read_length_64-IsLength :
      (n : ℕ) (rest : List ℕ) (c : WebSocketConnection W)
      → has c.fd ≡ true
      → os.incoming c.world ≡ big_endian 8 n ++ rest
      → 0xffff < n
      → n ≤ max_websocket_message_size
      → Ensures (λ v d. (v ≡ n) × IsTaken (big_endian 8 n) rest c d) Never (read_length_64 os c)
  unfolding read_length_64 big_endian
  read_length_64-IsLength n rest c is_open ahead low high =
      and_then-Ensures (λ bytes d. (bytes ≡ big_endian 8 n) × IsTaken (big_endian 8 n) rest c d)
        Never (λ v d. (v ≡ n) × IsTaken (big_endian 8 n) rest c d) Never (read_header_bytes os 8 c)
        _ (header_bytes-IsTaken (big_endian 8 n) rest c is_open ahead (omega arith))
        (λ _ _ never. never)
        λ bytes d got.
          let v : read_big_endian bytes 0 ≡ n =
            ap (λ (t : List ℕ). read_big_endian t 0) got.0
            ∙ read_big_endian-big_endian 8 n (omega arith) (omega arith) (omega arith) in
          let highest : at bytes 0 ≡ ok 0 = ap (λ (t : List ℕ). at t 0) got.0 ∙ top_byte n high in
          rw (highest, v)
            (require-Ensures (λ v d. (v ≡ n) × IsTaken (big_endian 8 n) rest c d) Never
              (not (leb n 0xffff)) _ d _ (λ h. absurd (long n low h)) (λ _. (refl, got.1)))
    where
      long : (n : ℕ) → 0xffff < n → not (leb n 0xffff) ≡ false → ⊥
      long n low h = ground arith

  pub read_length-IsLength :
      (n : ℕ) (rest : List ℕ) (c : WebSocketConnection W)
      → has c.fd ≡ true
      → os.incoming c.world ≡ extended n ++ rest
      → n ≤ max_websocket_message_size
      → Ensures
          (λ v d. (v ≡ n) × IsTaken (extended n) rest c d)
          Never
          (read_length os (second_byte n) c)
  unfolding read_length
  read_length-IsLength n rest c is_open ahead high = elim (Bool-cases (leb n 125)) [
    | inl short ↦
        rw ((short_length n short).0, (short_length n short).1)
          (branch-Ensures (λ v d. (v ≡ n) × IsTaken [] rest c d) Never (n == 126)
            (read_length_16 os) _ c (λ h. absurd (ground arith))
            λ _.
              branch-Ensures (λ v d. (v ≡ n) × IsTaken [] rest c d) Never (n == 127)
                (read_length_64 os) (pure n) c (λ h. absurd (ground arith))
                λ _. (
                  refl,
                  record {
                    moved = IsMove-refl os outgoing c;
                    ahead = ahead ∙ ap (λ (t : List ℕ). t ++ rest) (short_length n short).1;
                    is_open = is_open;
                  },
                ))
    | inr long ↦ elim (Bool-cases (leb n 0xffff)) [
      | inl medium ↦
          let (second, behind) = medium_length n long medium in
          rw (second, behind)
            (read_length_16-IsLength n rest c is_open
              (ahead ∙ ap (λ (t : List ℕ). t ++ rest) behind) (above 125 n long)
              (leb→le _ _ medium))
      | inr large ↦
          let (second, behind) = large_length n long large in
          rw (second, behind)
            (read_length_64-IsLength n rest c is_open
              (ahead ∙ ap (λ (t : List ℕ). t ++ rest) behind) (above 0xffff n large) high)
    ]
  ]
