-- ===== src/Position/Utf8.antt =====
-- Code points, their UTF-8 bytes and their UTF-16 length, and what the two loops of
-- ext/lsp_server_core.c make of such bytes.
use ext_lsparrot.Base.{
  length-append, append_assoc, ◌≤◌, All-append, refl, All, ℕ, ◌+◌, ◌/◌, ◌%◌, ◌<◌, ◌≡◌, ◌≢◌, List,
  [], ◌∷◌, ◌++◌, Bytes, arith, ltb, if◌then◌else◌, length,
}
use ext_lsparrot.Position.{lead_step, lead_units, to_byte_from, units_from}

-- RFC 3629
unfoldable pub encode_utf8 : ℕ → Bytes
encode_utf8 cp =
    if ltb cp 0x80
    then cp ∷ []
    else if ltb cp 0x800
    then (0xC0 + cp / 64) ∷ (0x80 + cp % 64) ∷ []
    else if ltb cp 0x10000
    then (0xE0 + cp / 4096) ∷ (0x80 + cp / 64 % 64) ∷ (0x80 + cp % 64) ∷ []
    else (0xF0 + cp / 262144)
      ∷ (0x80 + cp / 4096 % 64)
      ∷ (0x80 + cp / 64 % 64)
      ∷ (0x80 + cp % 64)
      ∷ []

-- One unit in the basic plane, a surrogate pair above it.
unfoldable pub utf16_width : ℕ → ℕ
utf16_width cp = if ltb cp 0x10000 then 1 else 2

unfoldable pub encode : List ℕ → Bytes
unfolding encode_utf8
encode [] = []
encode (cp ∷ cps) = encode_utf8 cp ++ encode cps

unfoldable pub utf16_length : List ℕ → ℕ
unfolding utf16_width
utf16_length [] = 0
utf16_length (cp ∷ cps) = utf16_width cp + utf16_length cps

-- A code point that may stand inside a line.
pub record IsInLine (cp : ℕ) : Type 0 where
  pub is_code_point : cp < 0x110000
  pub not_newline : cp ≢ 10
  pub not_return : cp ≢ 13

units_from-encode_utf8 :
    (cp : ℕ) (rest : Bytes)
    → cp < 0x110000
    → units_from 0 (encode_utf8 cp ++ rest) ≡ utf16_width cp + units_from 0 rest
unfolding units_from encode_utf8 utf16_width lead_step lead_units
units_from-encode_utf8 cp rest h = ground arith

to_byte_from-encode_utf8 :
    (cp : ℕ) (rest : Bytes) (units character : ℕ)
    → IsInLine cp
    → units < character
    → to_byte_from 0 (encode_utf8 cp ++ rest) units character
      ≡ length (encode_utf8 cp) + to_byte_from 0 rest (units + utf16_width cp) character
unfolding to_byte_from encode_utf8 utf16_width lead_step lead_units
to_byte_from-encode_utf8 cp rest units character h lt = ground arith

-- Counting the units of a whole line.
pub units_from-encode :
    (cps : List ℕ) (rest : Bytes)
    → All IsInLine cps
    → units_from 0 (encode cps ++ rest) ≡ utf16_length cps + units_from 0 rest
unfolding encode utf16_length
units_from-encode [] rest h = omega arith
units_from-encode (cp ∷ cps) rest h = rw (append_assoc (encode_utf8 cp) (encode cps) rest) (
    omega (
      arith,
      units_from-encode_utf8 cp (encode cps ++ rest) h.0.is_code_point,
      units_from-encode cps rest h.1,
    ))

utf16_width-pos : (cp : ℕ) → 0 < utf16_width cp
unfolding utf16_width
utf16_width-pos cp = ground arith

to_byte_from-done : (rest : Bytes) (units : ℕ) → to_byte_from 0 rest units units ≡ 0
unfolding to_byte_from
to_byte_from-done [] units = refl
to_byte_from-done (c ∷ rest) units = ground arith

-- The walk over a line stops behind the characters whose units are asked for.
pub to_byte_from-encode :
    (cps : List ℕ) (rest : Bytes) (units : ℕ)
    → All IsInLine cps
    → to_byte_from 0 (encode cps ++ rest) units (units + utf16_length cps) ≡ length (encode cps)
unfolding encode utf16_length
to_byte_from-encode [] rest units h =
    rw (let e : units + 0 ≡ units = omega arith in e) (to_byte_from-done rest units)
to_byte_from-encode (cp ∷ cps) rest units h =
    let shift : units + (utf16_width cp + utf16_length cps)
        ≡ (units + utf16_width cp) + utf16_length cps =
      omega arith in
    rw (append_assoc (encode_utf8 cp) (encode cps) rest) (
      rw shift (
        omega (
          arith,
          to_byte_from-encode_utf8 cp (encode cps ++ rest) units
              ((units + utf16_width cp) + utf16_length cps) h.0 (omega (arith, utf16_width-pos cp)),
          to_byte_from-encode cps rest (units + utf16_width cp) h.1,
          length-append {0} (encode_utf8 cp) (encode cps),
        )))

-- A character beyond the end of its line is moved back to the end.
pub to_byte_from-overshoot :
    (cps : List ℕ) (rest : Bytes) (units character : ℕ)
    → All IsInLine cps
    → units + utf16_length cps ≤ character
    → to_byte_from 0 (encode cps ++ 10 ∷ rest) units character ≡ length (encode cps)
unfolding encode utf16_length
to_byte_from-overshoot [] rest units character h le = unfold to_byte_from in ground arith
to_byte_from-overshoot (cp ∷ cps) rest units character h le =
    rw (append_assoc (encode_utf8 cp) (encode cps) (10 ∷ rest)) (
      omega (
        arith,
        to_byte_from-encode_utf8 cp (encode cps ++ 10 ∷ rest) units character h.0
            (omega (arith, utf16_width-pos cp)),
        to_byte_from-overshoot cps rest (units + utf16_width cp) character h.1 (omega arith),
        length-append {0} (encode_utf8 cp) (encode cps),
      ))

-- No byte of an encoded line is a newline.
abbrev pub IsNotNewline : ℕ → Type 0
IsNotNewline c = c ≢ 10

encode_utf8-IsNotNewline : (cp : ℕ) → IsInLine cp → All IsNotNewline (encode_utf8 cp)
unfolding encode_utf8
encode_utf8-IsNotNewline cp h = ground arith

pub encode-IsNotNewline : (cps : List ℕ) → All IsInLine cps → All IsNotNewline (encode cps)
unfolding encode
encode-IsNotNewline [] h = tt
encode-IsNotNewline (cp ∷ cps) h =
    All-append IsNotNewline (encode_utf8 cp) (encode cps) (encode_utf8-IsNotNewline cp h.0)
      (encode-IsNotNewline cps h.1)
