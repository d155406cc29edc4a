-- ===== src/Uri/Bounds.antt =====
-- Sizes and alphabets of `lsp_raw_url_decode` and `lsp_uri_from_path` (ext/lsp_server_core.c).
use ext_lsparrot.Base.{
  ℕ, zero, suc, ◌/◌, ◌%◌, ◌≤◌, ◌<◌, ◌≡◌, refl, true, inl, inr, [], ◌∷◌, ◌==◌, ◌||◌, Bytes, IsByte,
  All, All-append, Bool-cases, arith, length,
}
use ext_lsparrot.Uri.{
  hex_digit, decode_from, raw_url_decode, is_plain, encode_byte, uri_encode_path, uri_from_path,
  file_scheme,
}

length-decode_from : (skip : ℕ) (value : Bytes) → length (decode_from skip value) ≤ length value
unfolding decode_from
length-decode_from skip [] = omega arith
length-decode_from (suc skip) (c ∷ rest) = omega (arith, length-decode_from skip rest)
length-decode_from zero (c ∷ rest) =
    ground (arith, length-decode_from 2 rest, length-decode_from 0 rest)

-- The decoded text fits the buffer, which is allocated with the length of the input.
pub length-raw_url_decode : (value : Bytes) → length (raw_url_decode value) ≤ length value
unfolding raw_url_decode
length-raw_url_decode value = length-decode_from 0 value

-- The bytes that a URI may hold here: those that are copied, `%`, and `:` of the scheme.
abbrev pub IsUriByte : ℕ → Type 0
IsUriByte c = is_plain c || c == b'%' || c == b':' ≡ true

hex_digit-IsUriByte : (d : ℕ) → d < 16 → IsUriByte (hex_digit d)
unfolding hex_digit is_plain
hex_digit-IsUriByte d h = ground arith

encode_byte-IsUriByte : (c : ℕ) → IsByte c → All IsUriByte (encode_byte c)
unfolding encode_byte
encode_byte-IsUriByte c h = elim (Bool-cases (is_plain c)) [
  | inl plain ↦ rw plain (rw plain refl, tt)
  | inr other ↦ rw other (
    refl,
    (hex_digit-IsUriByte (c / 16) (omega arith), (hex_digit-IsUriByte (c % 16) (omega arith), tt)),
  )
]

uri_encode_path-IsUriByte : (path : Bytes) → All IsByte path → All IsUriByte (uri_encode_path path)
unfolding uri_encode_path
uri_encode_path-IsUriByte [] h = tt
uri_encode_path-IsUriByte (c ∷ rest) h =
    All-append IsUriByte (encode_byte c) (uri_encode_path rest) (encode_byte-IsUriByte c h.0)
      (uri_encode_path-IsUriByte rest h.1)

file_scheme-IsUriByte : All IsUriByte file_scheme
unfolding is_plain
file_scheme-IsUriByte = (refl, (refl, (refl, (refl, (refl, (refl, (refl, tt)))))))

-- Every byte of a URI made from a path is one that a URI can carry verbatim: a letter, a digit,
-- one of `-._~/`, the `%` of an escape, or the `:` of the scheme.
pub uri_from_path-IsUriByte : (path : Bytes) → All IsByte path → All IsUriByte (uri_from_path path)
unfolding uri_from_path
uri_from_path-IsUriByte path h =
    All-append IsUriByte file_scheme (uri_encode_path path) file_scheme-IsUriByte
      (uri_encode_path-IsUriByte path h)
