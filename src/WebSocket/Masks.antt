-- ===== src/WebSocket/Masks.antt =====
-- The bytes of a client's frame as they were before they were masked.
use native.Mathlib.Numerals.{towards_suc}
use native.Mathlib.Nat.{div-div-eq-div-mul, mod-eq_of_lt}
use exasol_gateway_sdk.Base.{
  ℕ, zero, suc, ◌+◌, ◌*◌, ◌/◌, ◌%◌, ◌^◌, ◌<◌, bit_xor, List, [], ◌∷◌, ◌++◌, ◌≡◌, refl, sym, ap, ap₂,
  ◌∙◌, arith, length, get_or, append_assoc, append-nil,
}
use exasol_gateway_sdk.Base.Bytes.{big_endian}
use exasol_gateway_sdk.Base.Stores.{byte_of, byte_of_lem}
use exasol_gateway_sdk.Base.Xor.{bit_xor_twice}
use exasol_gateway_sdk.Frame.{FrameHeader, frame_magic, protocol_version_v1}
use exasol_gateway_sdk.Frame.Layout.{wire}
use exasol_gateway_sdk.WebSocket.Masking.{
  Masked, append_big_endian, append_masked_byte, append_masked_big_endian,
  append_masked_payload_with_mask, append_masked_session_gateway_frame,
}

-- Data under a mask, from place `index` on.
unfoldable pub masked : List ℕ → ℕ → List ℕ → List ℕ
masked mask index [] = []
masked mask index (b ∷ bs) = bit_xor b (get_or mask (index % 4) 0) ∷ masked mask (index + 1) bs

-- A mask that is applied twice is gone.
pub masked_twice :
    (mask : List ℕ) (index : ℕ) (bs : List ℕ) → masked mask index (masked mask index bs) ≡ bs
unfolding masked
masked_twice mask index [] = refl
masked_twice mask index (b ∷ bs) = ap₂ ◌∷◌ (bit_xor_twice b _) (masked_twice mask (index + 1) bs)

pub length-masked :
    (mask : List ℕ) (index : ℕ) (bs : List ℕ) → length (masked mask index bs) ≡ length bs
unfolding masked
length-masked mask index [] = refl
length-masked mask index (b ∷ bs) = ap suc (length-masked mask (index + 1) bs)

masked-append :
    (mask : List ℕ) (index : ℕ) (xs ys : List ℕ)
    → masked mask index (xs ++ ys) ≡ masked mask index xs ++ masked mask (index + length xs) ys
unfolding masked
masked-append mask index [] ys = ap (λ (t : ℕ). masked mask t ys) (omega arith)
masked-append mask index (x ∷ xs) ys = ap (◌∷◌ (bit_xor x (get_or mask (index % 4) 0))) (
    masked-append mask (index + 1) xs ys
    ∙ ap (λ (t : ℕ). masked mask (index + 1) xs ++ masked mask t ys) moved)
  where
    moved : index + 1 + length xs ≡ index + suc (length xs)
    moved = omega arith

pub append_masked_payload_with_mask-masked :
    (mask bs out : List ℕ) (index : ℕ)
    → append_masked_payload_with_mask mask bs (out, index)
      ≡ (out ++ masked mask index bs, index + length bs)
unfolding append_masked_payload_with_mask append_masked_byte masked
append_masked_payload_with_mask-masked mask [] out index =
    ap₂ (λ (o : List ℕ) (i : ℕ). (o, i)) (sym (append-nil out)) (omega arith)
append_masked_payload_with_mask-masked mask (b ∷ bs) out index =
    append_masked_payload_with_mask-masked mask bs _ (index + 1)
    ∙ ap₂ (λ (o : List ℕ) (i : ℕ). (o, i)) (append_assoc out _ _) (omega arith)

pow-byte : (k : ℕ) → 2 ^ (suc k * 8) ≡ 256 * 2 ^ (k * 8)
pow-byte k = let e : suc k * 8 ≡ k * 8 + 8 = omega arith in rw e (simp towards_suc (omega arith))

byte_of-above : (k v : ℕ) → byte_of (v / 256) (k * 8) ≡ byte_of v (suc k * 8)
byte_of-above k v =
    byte_of_lem (v / 256) (k * 8)
    ∙ ap (λ (t : ℕ). t % 256)
        (div-div-eq-div-mul v 256 (2 ^ (k * 8)) ∙ ap (λ (t : ℕ). v / t) (sym (pow-byte k)))
    ∙ sym (byte_of_lem v (suc k * 8))

-- The highest byte stands first.
pub big_endian_first : (k v : ℕ) → big_endian (suc k) v ≡ byte_of v (k * 8) ∷ big_endian k v
unfolding big_endian
big_endian_first zero v = ap (λ (t : ℕ). t ∷ []) (sym (byte_of_lem v 0 ∙ omega arith))
big_endian_first (suc k) v =
    ap (λ (t : List ℕ). t ++ v % 256 ∷ []) (big_endian_first k (v / 256))
    ∙ ap (λ (t : ℕ). t ∷ big_endian (suc k) v) (byte_of-above k v)

pub append_big_endian_lem :
    (out : List ℕ) (v n : ℕ) → append_big_endian out v n ≡ out ++ big_endian n v
unfolding append_big_endian
append_big_endian_lem out v zero = unfold big_endian in sym (append-nil out)
append_big_endian_lem out v (suc k) =
    append_big_endian_lem (out ++ byte_of v (k * 8) ∷ []) v k
    ∙ append_assoc out _ _
    ∙ ap (◌++◌ out) (sym (big_endian_first k v))

append_masked_big_endian-payload :
    (mask : List ℕ) (v n : ℕ) (m : Masked)
    → append_masked_big_endian mask v n m ≡ append_masked_payload_with_mask mask (big_endian n v) m
unfolding append_masked_big_endian append_masked_payload_with_mask
append_masked_big_endian-payload mask v zero m = unfold big_endian in refl
append_masked_big_endian-payload mask v (suc k) m =
    append_masked_big_endian-payload mask v k (append_masked_byte mask (byte_of v (k * 8)) m)
    ∙ ap (λ (t : List ℕ). append_masked_payload_with_mask mask t m) (sym (big_endian_first k v))

append_masked_payload_with_mask-append :
    (mask xs ys : List ℕ) (m : Masked)
    → append_masked_payload_with_mask mask (xs ++ ys) m
      ≡ append_masked_payload_with_mask mask ys (append_masked_payload_with_mask mask xs m)
unfolding append_masked_payload_with_mask
append_masked_payload_with_mask-append mask [] ys m = refl
append_masked_payload_with_mask-append mask (x ∷ xs) ys m =
    append_masked_payload_with_mask-append mask xs ys (append_masked_byte mask x m)

-- The header that a client's frame has.
abbrev pub client_header : ℕ → ℕ → List ℕ → FrameHeader
client_header message_type request_id payload = record {
  magic = frame_magic;
  version = protocol_version_v1;
  message_type = message_type;
  flags = 0;
  request_id = request_id;
  payload_length = length payload;
}

laid_out :
    (mask payload : List ℕ) (h : FrameHeader) (m : Masked)
    → append_masked_payload_with_mask mask (wire h 0 payload) m
      ≡ append_masked_payload_with_mask mask payload (
          append_masked_big_endian mask h.payload_length 4 (
            append_masked_big_endian mask h.request_id 8 (
              append_masked_big_endian mask 0 2 (
                append_masked_big_endian mask h.flags 2 (
                  append_masked_big_endian mask h.message_type 2 (
                    append_masked_big_endian mask h.version 2
                      (append_masked_big_endian mask h.magic 4 m)))))))
unfolding wire
laid_out mask payload h m =
    simp (append_masked_payload_with_mask-append, append_masked_big_endian-payload)

-- The gateway's frame is appended as its layout under the mask.
pub append_masked_session_gateway_frame-wire :
    (mask out payload : List ℕ) (message_type request_id : ℕ)
    → message_type < 2 ^ 16
    → length payload < 2 ^ 32
    → (append_masked_session_gateway_frame mask message_type request_id payload (out, 0)).0
      ≡ out ++ masked mask 0 (wire (client_header message_type request_id payload) 0 payload)
unfolding append_masked_session_gateway_frame
append_masked_session_gateway_frame-wire mask out payload message_type request_id small fits =
    rw (mod-eq_of_lt small, mod-eq_of_lt fits)
      (ap (λ (m : Masked). m.0)
        (sym (laid_out mask payload (client_header message_type request_id payload) (out, 0))
          ∙ append_masked_payload_with_mask-masked mask
              (wire (client_header message_type request_id payload) 0 payload) out 0))
