-- ===== src/Uri/RoundTrip.antt =====
-- A path survives the way into a URI and back (ext/lsp_server_core.c).
use ext_lsparrot.Base.{
  ℕ, ◌/◌, ◌%◌, ◌<◌, ◌≡◌, refl, sym, ap, ◌∙◌, true, inl, inr, none, some, [], ◌∷◌, ◌++◌, Bytes,
  IsByte, All, arith, Bool-cases,
}
use ext_lsparrot.Uri.{
  hex_value, hex_digit, escape_value, decode_from, uri_to_path, is_plain, encode_byte,
  uri_encode_path, uri_from_path,
}

hex_value-hex_digit : (d : ℕ) → d < 16 → hex_value (hex_digit d) ≡ some d
unfolding hex_value hex_digit
hex_value-hex_digit d h = ground arith

-- The digits of an encoded byte are read back as that byte.
escape_value-hex :
    (c : ℕ) (rest : Bytes)
    → IsByte c
    → escape_value b'%' (hex_digit (c / 16) ∷ hex_digit (c % 16) ∷ rest) ≡ some c
unfolding escape_value
escape_value-hex c rest h =
    rw (hex_value-hex_digit (c / 16) (omega arith), hex_value-hex_digit (c % 16) (omega arith))
      (ap some (omega arith))

-- A byte that is copied is no escape.
escape_value-plain : (c : ℕ) (rest : Bytes) → is_plain c ≡ true → escape_value c rest ≡ none
unfolding escape_value is_plain
escape_value-plain c [] h = refl
escape_value-plain c (x ∷ []) h = refl
escape_value-plain c (x ∷ y ∷ rest) h = ground arith

decode-encode_byte :
    (c : ℕ) (rest : Bytes)
    → IsByte c
    → decode_from 0 (encode_byte c ++ rest) ≡ c ∷ decode_from 0 rest
unfolding encode_byte decode_from
decode-encode_byte c rest h = elim (Bool-cases (is_plain c)) [
  | inl plain ↦ rw plain (rw (escape_value-plain c rest plain, decode_from))
  | inr other ↦ rw other (rw (escape_value-hex c rest h, decode_from))
]

decode-uri_encode_path :
    (path : Bytes) → All IsByte path → decode_from 0 (uri_encode_path path) ≡ path
unfolding uri_encode_path decode_from
decode-uri_encode_path [] h = refl
decode-uri_encode_path (c ∷ rest) h =
    decode-encode_byte c (uri_encode_path rest) h.0
    ∙ ap (λ r. c ∷ r) (decode-uri_encode_path rest h.1)

-- A path is the same after it has been made a URI and read back, whatever its bytes (NUL, spaces,
-- `%` and non-ASCII bytes included).
pub uri_to_path-uri_from_path :
    (path : Bytes) → All IsByte path → uri_to_path (uri_from_path path) ≡ path
unfolding uri_to_path uri_from_path
uri_to_path-uri_from_path path h = decode-uri_encode_path path h

-- Two paths that share a URI are one path.
pub uri_from_path-injective :
    (p q : Bytes) → All IsByte p → All IsByte q → uri_from_path p ≡ uri_from_path q → p ≡ q
uri_from_path-injective p q hp hq e =
    sym (uri_to_path-uri_from_path p hp) ∙ ap uri_to_path e ∙ uri_to_path-uri_from_path q hq
