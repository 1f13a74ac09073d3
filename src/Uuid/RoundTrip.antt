-- ===== src/Uuid/RoundTrip.antt =====
-- Packing a document ID and restoring it.
use shinzo_generator_client.Prelude.{
  ℕ, ◌*◌, ◌/◌, ◌%◌, ◌<◌, ◌≡◌, ◌≢◌, refl, ap, ◌∙◌, [], ◌∷◌, ◌++◌, arith, ok, ◌==◌, length, take,
  drop, All, All-take, All-drop, take-append-drop, drop-drop, inl, inr, ==_iff, Bool-cases,
  Option-cases, >>=-eq-ok,
}
use shinzo_generator_client.Uuid.{
  Bytes, hyphen, uuid_size, hex_digit, from_hex_char, encode_hex, decode_hex, remove_hyphens,
  cut_hyphen, uuid_hex_without_hyphens_len, parse_uuid_hex, extract_uuid, format_uuid,
  restore_doc_id,
}

abbrev pub IsByte : ℕ → Type 0
IsByte b = b < 256

-- A [16]byte array.
pub record IsUuid (b : Bytes) : Type 0 where
  pub sized : length b ≡ uuid_size
  pub bytes : All IsByte b

abbrev pub IsNotHyphen : ℕ → Type 0
IsNotHyphen c = c ≢ hyphen

hex_digit-IsNotHyphen : (n : ℕ) → n < 16 → IsNotHyphen (hex_digit n)
unfolding hex_digit
hex_digit-IsNotHyphen n h = ground arith

from_hex_char-hex_digit : (n : ℕ) → n < 16 → from_hex_char (hex_digit n) ≡ ok n
unfolding from_hex_char hex_digit
from_hex_char-hex_digit n h = ground arith

encode_hex-IsNotHyphen : (b : Bytes) → All IsByte b → All IsNotHyphen (encode_hex b)
unfolding encode_hex
encode_hex-IsNotHyphen [] h = tt
encode_hex-IsNotHyphen (c ∷ b) h = (
  hex_digit-IsNotHyphen (c / 16) (omega (arith, h.0)),
  (hex_digit-IsNotHyphen (c % 16) (omega arith), encode_hex-IsNotHyphen b h.1),
)

length-encode_hex : (b : Bytes) → length (encode_hex b) ≡ 2 * length b
unfolding encode_hex
length-encode_hex [] = refl
length-encode_hex (c ∷ b) = omega (arith, length-encode_hex b)

pub decode_hex-encode_hex : (b : Bytes) → All IsByte b → decode_hex (encode_hex b) ≡ ok b
unfolding decode_hex encode_hex
decode_hex-encode_hex [] h = refl
decode_hex-encode_hex (c ∷ b) h = rw (from_hex_char-hex_digit (c / 16) (omega (arith, h.0))) (
    rw (from_hex_char-hex_digit (c % 16) (omega arith))
      (rw (decode_hex-encode_hex b h.1) (ground arith)))

remove_hyphens-append :
    (xs ys : Bytes) → All IsNotHyphen xs → remove_hyphens (xs ++ ys) ≡ xs ++ remove_hyphens ys
unfolding remove_hyphens
remove_hyphens-append [] ys h = refl
remove_hyphens-append (x ∷ xs) ys h = ground (arith, h.0, remove_hyphens-append xs ys h.1)

remove_hyphens_self : (xs : Bytes) → All IsNotHyphen xs → remove_hyphens xs ≡ xs
unfolding remove_hyphens
remove_hyphens_self [] h = refl
remove_hyphens_self (x ∷ xs) h = ground (arith, h.0, remove_hyphens_self xs h.1)

remove_hyphens-group :
    (xs ys : Bytes)
    → All IsNotHyphen xs
    → remove_hyphens (xs ++ hyphen ∷ ys) ≡ xs ++ remove_hyphens ys
remove_hyphens-group xs ys h =
    remove_hyphens-append xs (hyphen ∷ ys) h ∙ ap (λ t. xs ++ t) (unfold remove_hyphens in refl)

-- The five groups of a UUID text are its hex digits in order.
slices_join :
    (h : Bytes)
    → take 8 h ++ (take 4 (drop 8 h) ++ (take 4 (drop 12 h) ++ (take 4 (drop 16 h) ++ drop 20 h)))
      ≡ h
slices_join h =
    rw (← drop-drop 4 16 h, take-append-drop 4 (drop 16 h))
      (rw (← drop-drop 4 12 h, take-append-drop 4 (drop 12 h))
        (rw (← drop-drop 4 8 h, take-append-drop 4 (drop 8 h)) (take-append-drop 8 h)))

remove_hyphens-format_uuid :
    (b : Bytes) → All IsByte b → remove_hyphens (format_uuid b) ≡ encode_hex b
unfolding format_uuid
remove_hyphens-format_uuid b h =
    let x = encode_hex b in
    let ok_digits = encode_hex-IsNotHyphen b h in
    let group = λ (k : ℕ). All-take IsNotHyphen 4 (drop k x) (All-drop IsNotHyphen k x ok_digits) in
    rw (remove_hyphens-group (take 8 x) _ (All-take IsNotHyphen 8 x ok_digits)) (
      rw (remove_hyphens-group (take 4 (drop 8 x)) _ (group 8)) (
        rw (remove_hyphens-group (take 4 (drop 12 x)) _ (group 12)) (
          rw (remove_hyphens-group (take 4 (drop 16 x)) _ (group 16)) (
            rw (remove_hyphens_self (drop 20 x) (All-drop IsNotHyphen 20 x ok_digits))
              (slices_join x)))))

parse_uuid_hex-format_uuid : (b : Bytes) → IsUuid b → parse_uuid_hex (format_uuid b) ≡ ok b
unfolding parse_uuid_hex
parse_uuid_hex-format_uuid b v =
    rw (remove_hyphens-format_uuid b v.bytes, length-encode_hex b, v.sized)
      (decode_hex-encode_hex b v.bytes)

-- The queue's packing loses nothing of a UUID: reading the ID that `restore_doc_id` writes for 16
-- bytes gives back those bytes.
pub extract_uuid-restore_doc_id : (b : Bytes) → IsUuid b → extract_uuid (restore_doc_id b) ≡ ok b
extract_uuid-restore_doc_id b v =
    unfold extract_uuid restore_doc_id in parse_uuid_hex-format_uuid b v

from_hex_char-lt : (c n : ℕ) → from_hex_char c ≡ ok n → n < 16
unfolding from_hex_char
from_hex_char-lt c n h = ground arith

-- What the decoder accepts is pairs of digits, a byte each.
decode_hex_sound : (s b : Bytes) → decode_hex s ≡ ok b → (length s ≡ 2 * length b) × All IsByte b
unfolding decode_hex
decode_hex_sound [] b h = ground arith
decode_hex_sound (c ∷ []) b h = ground arith
decode_hex_sound (c ∷ d ∷ rest) b h =
    let (hi, hc, k) = >>=-eq-ok (from_hex_char c) _ h in
    let (lo, hd, l) = >>=-eq-ok (from_hex_char d) _ k in
    let (tail, ht, m) = >>=-eq-ok (decode_hex rest) _ l in
    let ih = decode_hex_sound rest tail ht in
    ground (arith, ih, m, from_hex_char-lt c hi hc, from_hex_char-lt d lo hd)

parse_uuid_hex-IsUuid : (d b : Bytes) → parse_uuid_hex d ≡ ok b → IsUuid b
unfolding parse_uuid_hex
parse_uuid_hex-IsUuid d b h =
    elim (Bool-cases (length (remove_hyphens d) == uuid_hex_without_hyphens_len)) [
      | inl sized ↦
          let (l, bytes) = decode_hex_sound (remove_hyphens d) b (rw sized at h) in
          let full = (==_iff _ _).0 sized in
          record { sized = omega (arith, l, full); bytes = bytes }
      | inr other ↦ cc (rw other at h)
    ]

-- What `extract_uuid` accepts is a UUID: 16 bytes.
pub extract_uuid-IsUuid : (d b : Bytes) → extract_uuid d ≡ ok b → IsUuid b
unfolding extract_uuid
extract_uuid-IsUuid d b h = elim (Option-cases (cut_hyphen d)) [
  | inl e ↦ cc (rw e at h)
  | inr (after, e) ↦ parse_uuid_hex-IsUuid after b (rw e at h)
]
