-- ===== src/Position.antt =====
-- LSP positions and byte offsets. ext/lsp_server_core.c: `lsp_utf16_units_to_byte_offset`,
-- `lsp_byte_offset_to_utf16_units`, `lsp_offset_at`; ext/lsp_server_symbols.c:
-- `lsp_offset_to_position`, `lsp_range_from_offsets`. A document is a list of bytes; a position
-- counts lines and UTF-16 code units. Lines and characters are not negative here, as
-- `lsp_position_from_zval` leaves them.
pub mod Utf8
pub mod Lines
pub mod RoundTrip
pub mod Bounds
mod Tests
use ext_lsparrot.Base.{
  ℕ, zero, suc, ◌+◌, ◌-◌, ◌/◌, Bool, not, ◌&&◌, ◌||◌, Option, none, some, List, [], ◌∷◌, ltb, ◌==◌,
  if◌then◌else◌, Bytes, length, take, drop,
}

-- The bytes that a lead byte announces: `(lead & 0xE0) == 0xC0` is `lead / 0x20 == 6`, and so on.
-- A stray continuation byte counts for itself.
unfoldable pub lead_step : ℕ → ℕ
lead_step lead =
    if ltb lead 0x80
    then 1
    else if lead / 0x20 == 6
    then 2
    else if lead / 0x10 == 14
    then 3
    else if lead / 8 == 30
    then 4
    else 1

-- The UTF-16 units of the character: a surrogate pair for four bytes.
unfoldable pub lead_units : ℕ → ℕ
lead_units lead =
    if ltb lead 0x80
    then 1
    else if lead / 0x20 == 6
    then 1
    else if lead / 0x10 == 14
    then 1
    else if lead / 8 == 30
    then 2
    else 1

abbrev pub is_line_break : ℕ → Bool
is_line_break c = c == b'\n' || c == b'\r'

-- The loop of `lsp_utf16_units_to_byte_offset`, on the bytes from `offset` to `length`: how far
-- `offset` moves. The first argument counts the bytes of the current character that are still to
-- be passed; a character that is cut short by the end of the text ends there (`offset = length`).
unfoldable pub to_byte_from : ℕ → Bytes → ℕ → ℕ → ℕ
to_byte_from skip [] units character = 0
to_byte_from (suc skip) (c ∷ rest) units character = suc (to_byte_from skip rest units character)
to_byte_from zero (c ∷ rest) units character =
    let further = suc (to_byte_from (lead_step c - 1) rest (units + lead_units c) character) in
    if ltb units character && not (is_line_break c) then further else 0

unfoldable pub utf16_units_to_byte_offset : Bytes → ℕ → ℕ → ℕ
utf16_units_to_byte_offset value line_start character =
    line_start + to_byte_from 0 (drop line_start value) 0 character

-- The loop of `lsp_byte_offset_to_utf16_units`, on the bytes from `offset` to `end_offset`.
unfoldable pub units_from : ℕ → Bytes → ℕ
units_from skip [] = 0
units_from (suc skip) (c ∷ rest) = units_from skip rest
units_from zero (c ∷ rest) = lead_units c + units_from (lead_step c - 1) rest

unfoldable pub byte_offset_to_utf16_units : Bytes → ℕ → ℕ → ℕ
byte_offset_to_utf16_units value line_start end_offset =
    units_from 0 (take (end_offset - line_start) (drop line_start value))

-- `memchr(value + offset, '\n', length - offset)`, and one more: the offset behind the newline.
unfoldable pub after_newline : Bytes → Option ℕ
after_newline [] = none
after_newline (c ∷ rest) =
    if c == b'\n' then some 1 else elim (after_newline rest) [ none ↦ none | some k ↦ some (suc k) ]

-- The loop of `lsp_offset_at` over the lines; `none` where the text has too few of them.
unfoldable pub line_offset : ℕ → Bytes → Option ℕ
line_offset zero rest = some 0
line_offset (suc line) rest = elim (after_newline rest) [
  | none ↦ none
  | some k ↦ elim (line_offset line (drop k rest)) [ none ↦ none | some more ↦ some (k + more) ]
]

unfoldable pub offset_at : Bytes → ℕ → ℕ → ℕ
offset_at text line character = elim (line_offset line text) [
  | none ↦ length text
  | some offset ↦ utf16_units_to_byte_offset text offset character
]

pub record Position : Type 0 where
  pub line : ℕ
  pub character : ℕ

-- The loop of `lsp_offset_to_position`: index, line and start of the line, over the bytes left.
unfoldable pub position_loop : ℕ → ℕ → ℕ → Bytes → ℕ × ℕ
position_loop i line line_start [] = (line, line_start)
position_loop i line line_start (c ∷ rest) =
    position_loop (suc i) (if c == b'\n' then suc line else line)
      (if c == b'\n' then suc i else line_start) rest

unfoldable pub offset_to_position : Bytes → ℕ → Position
offset_to_position text offset =
    let end = if ltb (length text) offset then length text else offset in
    let (line, line_start) = position_loop 0 0 0 (take end text) in
    record { line = line; character = byte_offset_to_utf16_units text line_start end }

pub record Range : Type 0 where
  pub start : Position
  pub finish : Position

-- The fields `start` and `end` of the source's array.
unfoldable pub range_from_offsets : Bytes → ℕ → ℕ → Range
range_from_offsets text start_offset end_offset = record {
  start = offset_to_position text start_offset;
  finish = offset_to_position text end_offset;
}
