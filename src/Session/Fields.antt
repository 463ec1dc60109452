-- ===== src/Session/Fields.antt =====
-- Fields that lie ahead in a payload are read as what they are, and the offset moves behind them.
use exasol_gateway_sdk.Base.{
  ℕ, ◌+◌, ◌-◌, ◌*◌, ◌≤◌, ◌<◌, ◌^◌, List, [], ◌∷◌, ◌++◌, true, ltb, length, drop, take, All, ◌≡◌,
  refl, ap, ◌∙◌, arith, Result, length-append, length-drop, take-append, lt→ltb, append_assoc,
}
use exasol_gateway_sdk.Base.Outcome.{ok}
use exasol_gateway_sdk.Base.Bytes.{
  range-le, big_endian, length-big_endian, big_endian-IsBytes, value-big_endian,
  read_big_endian-value, drop-cons, drop-ahead,
}
use exasol_gateway_sdk.Base.State.{and_then, passed_lem, put, pure, ◌>>◌}
use exasol_gateway_sdk.Session.Reads.{has_room-le}
use exasol_gateway_sdk.Session.{RowLocation}
use exasol_gateway_sdk.Session.Codec.{
  read_u8, read_u32, read_u64, has_room, read_field, read_bytes32, read_all, read_location,
}

has_room-ahead :
    (bytes xs rest : List ℕ) (o : ℕ)
    → drop o bytes ≡ xs ++ rest
    → 0 < length xs
    → has_room bytes o (length xs) ≡ true
has_room-ahead bytes xs rest o h some_bytes = ground (arith, room)
  where
    room : length bytes - o ≡ length xs + length rest
    room = omega (arith, length-drop {0} o bytes, ap length h, length-append {0} xs rest)

-- Row locations, 8 bytes each.
unfoldable pub locations_layout : List RowLocation → List ℕ
locations_layout [] = []
locations_layout (location ∷ locations) =
    big_endian 8 location.row_number ++ locations_layout locations

abbrev pub IsLocation : RowLocation → Type 0
IsLocation location = location.row_number < 2 ^ 64

module _ (bytes : List ℕ) where
  pub read_u8-ahead :
      (o v : ℕ) (rest : List ℕ)
      → drop o bytes ≡ v ∷ rest
      → (read_u8 bytes o ≡ (ok v, o + 1)) × (drop (o + 1) bytes ≡ rest)
  unfolding read_u8
  read_u8-ahead o v rest h =
      let (here, ahead, inside) = drop-cons bytes o v rest h in
      (
        passed_lem (ltb o (length bytes)) _ o _ (lt→ltb o (length bytes) inside) ∙ rw here refl,
        ahead,
      )

  pub read_u32-ahead :
      (o v : ℕ) (rest : List ℕ)
      → drop o bytes ≡ big_endian 4 v ++ rest
      → v < 2 ^ 32
      → (read_u32 bytes o ≡ (ok v, o + 4)) × (drop (o + 4) bytes ≡ rest)
  unfolding read_u32 big_endian
  read_u32-ahead o v rest h small = (
    passed_lem (has_room bytes o 4) _ o _
          (has_room-ahead bytes (big_endian 4 v) rest o h (omega (arith, length-big_endian 4 v)))
        ∙ rw
            (
              read_big_endian-value 32 (big_endian 4 v) bytes rest o 0 h (big_endian-IsBytes 4 v)
                  (omega arith),
              value-big_endian 4 v (omega arith),
            )
            refl,
    drop-ahead bytes (big_endian 4 v) rest o h,
  )

  pub read_u64-ahead :
      (o v : ℕ) (rest : List ℕ)
      → drop o bytes ≡ big_endian 8 v ++ rest
      → v < 2 ^ 64
      → (read_u64 bytes o ≡ (ok v, o + 8)) × (drop (o + 8) bytes ≡ rest)
  unfolding read_u64 big_endian
  read_u64-ahead o v rest h small = (
    passed_lem (has_room bytes o 8) _ o _
          (has_room-ahead bytes (big_endian 8 v) rest o h (omega (arith, length-big_endian 8 v)))
        ∙ rw
            (
              read_big_endian-value 64 (big_endian 8 v) bytes rest o 0 h (big_endian-IsBytes 8 v)
                  (omega arith),
              value-big_endian 8 v (omega arith),
            )
            refl,
    drop-ahead bytes (big_endian 8 v) rest o h,
  )

  pub read_bytes32-ahead :
      (o : ℕ) (xs rest : List ℕ)
      → drop o bytes ≡ big_endian 4 (length xs) ++ (xs ++ rest)
      → length xs < 2 ^ 32
      → (read_bytes32 bytes o ≡ (ok xs, o + 4 + length xs))
        × (drop (o + 4 + length xs) bytes ≡ rest)
  unfolding read_bytes32 read_field
  read_bytes32-ahead o xs rest h small =
      let (size, ahead) = read_u32-ahead o (length xs) (xs ++ rest) h small in
      (
        ap
              (λ (r : Result ℕ × ℕ).
                and_then r (λ n. read_field bytes n "truncated SessionGW byte field"))
              size
            ∙ passed_lem (has_room bytes (o + 4) (length xs)) _ (o + 4) _ (inside ahead)
            ∙ ap
                (λ (r : Result (List ℕ)).
                  and_then (r, o + 4) (λ value. put (o + 4 + length xs) >> pure value))
                (range-le bytes (o + 4) (length xs)
                  (has_room-le bytes (o + 4) (length xs) (inside ahead)))
            ∙ ap (λ (t : List ℕ). (ok t, o + 4 + length xs))
                (ap (take (length xs)) ahead ∙ take-append xs rest),
        drop-ahead bytes xs rest (o + 4) ahead,
      )
    where
      before : o + 4 ≤ length bytes
      before = omega (
        arith,
        length-drop {0} o bytes,
        ap length h,
        length-append {0} (big_endian 4 (length xs)) (xs ++ rest),
        length-big_endian 4 (length xs),
      )

      inside : drop (o + 4) bytes ≡ xs ++ rest → has_room bytes (o + 4) (length xs) ≡ true
      inside ahead =
          ground (
            arith,
            before,
            length-drop {0} (o + 4) bytes,
            ap length ahead,
            length-append {0} xs rest,
          )

  pub read_all-locations :
      (o : ℕ) (locations : List RowLocation) (rest : List ℕ)
      → drop o bytes ≡ locations_layout locations ++ rest
      → All IsLocation locations
      → (read_all (length locations) (read_location bytes) o
          ≡ (ok locations, o + 8 * length locations))
        × (drop (o + 8 * length locations) bytes ≡ rest)
  unfolding read_all read_location locations_layout
  read_all-locations o [] rest h fits =
      (ap (λ (n : ℕ). (ok [], n)) (omega arith), ap (λ (n : ℕ). drop n bytes) (omega arith) ∙ h)
  read_all-locations o (location ∷ locations) rest h fits =
      let (first, ahead) =
        read_u64-ahead o location.row_number (locations_layout locations ++ rest)
          (h ∙ append_assoc (big_endian 8 location.row_number) (locations_layout locations) rest)
          fits.0 in
      let (others, behind) = read_all-locations (o + 8) locations rest ahead fits.1 in
      (
        rw (first, others) (ap (λ (n : ℕ). (ok (location ∷ locations), n)) (omega arith)),
        ap (λ (n : ℕ). drop n bytes) (omega arith) ∙ behind,
      )
