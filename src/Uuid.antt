-- ===== src/Uuid.antt =====
-- The UUID helpers of pkg/pruner/indexer_queue.go: a document ID is `prefix-uuid`, and the queue
-- keeps only the 16 bytes of the UUID. A Go string is the list of its bytes.
pub mod RoundTrip
use shinzo_generator_client.Prelude.{
  ℕ, ◌+◌, ◌-◌, ◌*◌, ◌/◌, ◌%◌, List, [], ◌∷◌, ◌++◌, Bool, ◌&&◌, Option, none, some, Result, ok, err,
  ◌>>=◌, ◌>>◌, ltb, leb, ◌==◌, if◌then◌else◌, length, take, drop,
}

abbrev pub Bytes : Type 0
Bytes = List ℕ

pub data DocIdError : Type 0 where
  invalid_doc_id_format : Bytes → DocIdError
  invalid_uuid : Bytes → DocIdError
  invalid_hex_byte odd_hex_length : DocIdError

abbrev pub hyphen : ℕ
hyphen = b'-'

abbrev pub uuid_size : ℕ
uuid_size = 16

abbrev pub uuid_hex_without_hyphens_len : ℕ
uuid_hex_without_hyphens_len = 32

-- docIDPrefix, "bae"
abbrev pub doc_id_prefix : Bytes
doc_id_prefix = b'b' ∷ b'a' ∷ b'e' ∷ []

-- encoding/hex: the digit of a half byte, and its value; both cases of letters are read.
hex_digit : ℕ → ℕ
hex_digit n = if ltb n 10 then b'0' + n else b'a' + (n - 10)

from_hex_char : ℕ → Result DocIdError ℕ
from_hex_char c =
    if leb b'0' c && leb c b'9'
    then ok (c - b'0')
    else if leb b'a' c && leb c b'f'
    then ok (c - b'a' + 10)
    else if leb b'A' c && leb c b'F'
    then ok (c - b'A' + 10)
    else err invalid_hex_byte

-- hex.EncodeToString
pub encode_hex : Bytes → Bytes
unfolding hex_digit
encode_hex [] = []
encode_hex (b ∷ bs) = hex_digit (b / 16) ∷ hex_digit (b % 16) ∷ encode_hex bs

-- hex.Decode
pub decode_hex : Bytes → Result DocIdError Bytes
unfolding from_hex_char
decode_hex [] = ok []
decode_hex (c ∷ []) = do from_hex_char c; err odd_hex_length
decode_hex (c ∷ d ∷ rest) = do
  hi ← from_hex_char c
  lo ← from_hex_char d
  bytes ← decode_hex rest
  ok ((hi * 16 + lo) ∷ bytes)

-- strings.ReplaceAll(s, "-", "")
pub remove_hyphens : Bytes → Bytes
remove_hyphens [] = []
remove_hyphens (c ∷ s) = let rest = remove_hyphens s in if c == hyphen then rest else c ∷ rest

-- the text behind the first hyphen, strings.Cut(s, "-")
pub cut_hyphen : Bytes → Option Bytes
cut_hyphen [] = none
cut_hyphen (c ∷ s) = if c == hyphen then some s else cut_hyphen s

unfoldable pub parse_uuid_hex : Bytes → Result DocIdError Bytes
unfolding remove_hyphens decode_hex
parse_uuid_hex uuid_str =
    let clean = remove_hyphens uuid_str in
    if length clean == uuid_hex_without_hyphens_len
    then decode_hex clean
    else err (invalid_uuid uuid_str)

parse_after : Bytes → Option Bytes → Result DocIdError Bytes
unfolding parse_uuid_hex
parse_after doc_id none = err (invalid_doc_id_format doc_id)
parse_after doc_id (some after) = parse_uuid_hex after

unfoldable pub extract_uuid : Bytes → Result DocIdError Bytes
unfolding parse_after cut_hyphen
extract_uuid doc_id = parse_after doc_id (cut_hyphen doc_id)

-- h[:8] + "-" + h[8:12] + "-" + h[12:16] + "-" + h[16:20] + "-" + h[20:]
unfoldable pub format_uuid : Bytes → Bytes
unfolding encode_hex
format_uuid b =
    let h = encode_hex b in
    take 8 h
    ++ hyphen
      ∷ (take 4 (drop 8 h)
          ++ hyphen ∷ (take 4 (drop 12 h) ++ hyphen ∷ (take 4 (drop 16 h) ++ hyphen ∷ drop 20 h)))

unfoldable pub restore_doc_id : Bytes → Bytes
unfolding format_uuid
restore_doc_id uuid = doc_id_prefix ++ hyphen ∷ format_uuid uuid
