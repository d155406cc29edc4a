-- ===== src/Uri.antt =====
-- File URIs and paths (ext/lsp_server_core.c): `lsp_hex_value`, `lsp_raw_url_decode`,
-- `lsp_uri_to_path`, `lsp_uri_encode_path` and `lsp_uri_from_path`, as built on a POSIX host.
-- The blocks under `_WIN32` are not modelled.
pub mod RoundTrip
pub mod Bounds
mod Tests
use ext_lsparrot.Base.{
  ℕ, zero, suc, ◌+◌, ◌-◌, ◌*◌, ◌/◌, ◌%◌, Bool, ◌||◌, Option, none, some, List, [], ◌∷◌, ◌++◌, ◌==◌,
  if◌then◌else◌, Bytes, codes, within, is_alnum, length, drop,
}

-- `lsp_hex_value`; `none` is the result -1.
unfoldable pub hex_value : ℕ → Option ℕ
hex_value c =
    if within b'0' b'9' c
    then some (c - b'0')
    else if within b'a' b'f' c
    then some (c - b'a' + 10)
    else if within b'A' b'F' c
    then some (c - b'A' + 10)
    else none

hex_pair : Option ℕ → Option ℕ → Option ℕ
hex_pair (some hi) (some lo) = some (hi * 16 + lo)
hex_pair _ _ = none

-- The test and the two digits inside the loop of `lsp_raw_url_decode`: the byte `c` and the bytes
-- behind it. `i + 2 < length` says that there are two of them.
unfoldable pub escape_value : ℕ → Bytes → Option ℕ
unfolding hex_pair hex_value
escape_value c (h ∷ l ∷ rest) = if c == b'%' then hex_pair (hex_value h) (hex_value l) else none
escape_value c _ = none

-- The loop of `lsp_raw_url_decode`. The first argument counts the bytes that an escape has
-- consumed (`i += 2`).
unfoldable pub decode_from : ℕ → Bytes → Bytes
decode_from skip [] = []
decode_from (suc skip) (c ∷ rest) = decode_from skip rest
decode_from zero (c ∷ rest) = elim (escape_value c rest) [
  | some v ↦ v ∷ decode_from 2 rest
  | none ↦ c ∷ decode_from 0 rest
]

unfoldable pub raw_url_decode : Bytes → Bytes
raw_url_decode value = decode_from 0 value

abbrev pub file_scheme : Bytes
file_scheme = codes "file://"

-- `memcmp(value, prefix, length) == 0` behind the length test: what follows the prefix.
unfoldable pub strip_prefix : Bytes → Bytes → Option Bytes
strip_prefix [] value = some value
strip_prefix (p ∷ prefix) [] = none
strip_prefix (p ∷ prefix) (c ∷ value) = if p == c then strip_prefix prefix value else none

unfoldable pub uri_to_path : Bytes → Bytes
unfolding strip_prefix raw_url_decode
uri_to_path uri = elim (strip_prefix file_scheme uri) [
  | some value ↦ raw_url_decode value
  | none ↦ uri
]

-- The bytes that `lsp_uri_encode_path` copies.
unfoldable pub is_plain : ℕ → Bool
is_plain c = is_alnum c || c == b'-' || c == b'.' || c == b'_' || c == b'~' || c == b'/'

-- `hex[d]` for a digit below 16
unfoldable pub hex_digit : ℕ → ℕ
hex_digit d = if within 0 9 d then b'0' + d else b'A' + (d - 10)

unfoldable pub encode_byte : ℕ → Bytes
unfolding is_plain hex_digit
encode_byte c = if is_plain c then c ∷ [] else b'%' ∷ hex_digit (c / 16) ∷ hex_digit (c % 16) ∷ []

unfoldable pub uri_encode_path : Bytes → Bytes
unfolding encode_byte
uri_encode_path [] = []
uri_encode_path (c ∷ rest) = encode_byte c ++ uri_encode_path rest

unfoldable pub uri_from_path : Bytes → Bytes
unfolding uri_encode_path
uri_from_path path = file_scheme ++ uri_encode_path path
