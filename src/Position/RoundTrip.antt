-- ===== src/Position/RoundTrip.antt =====
-- A byte offset at a character boundary and its LSP position stand for one another:
-- `lsp_offset_to_position` (ext/lsp_server_symbols.c) and `lsp_offset_at` (ext/lsp_server_core.c).
-- A document is `unlines lines`, then the code points `cps` of the line under the cursor, then any
-- bytes.
use ext_lsparrot.Base.{
  append_assoc, append-nil, ℕ, ◌+◌, ◌-◌, ◌≡◌, sym, ap, ◌∙◌, some, List, [], ◌∷◌, ◌++◌, Bytes, All,
  arith, ltb, ◌≤◌, length, drop, take, length-append, drop-length, take-length, ge→ltb, false,
}
use ext_lsparrot.Position.{
  Position, line_offset, position_loop, offset_at, offset_to_position, utf16_units_to_byte_offset,
  byte_offset_to_utf16_units, units_from, to_byte_from,
}
use ext_lsparrot.Position.Utf8.{
  IsNotNewline, IsInLine, encode, utf16_length, units_from-encode, to_byte_from-encode,
  to_byte_from-overshoot, encode-IsNotNewline,
}
use ext_lsparrot.Position.Lines.{
  unlines, line_offset-unlines, position_loop-unlines, position_loop-tail,
}

offset_at-found :
    (text : Bytes) (line character offset : ℕ)
    → line_offset line text ≡ some offset
    → offset_at text line character ≡ offset + to_byte_from 0 (drop offset text) 0 character
unfolding offset_at utf16_units_to_byte_offset
offset_at-found text line character offset h = rw (h, offset_at)

abbrev at_line : ℕ → ℕ → Position
at_line line character = record { line = line; character = character }

offset_to_position-found :
    (text : Bytes) (end line start : ℕ)
    → ltb (length text) end ≡ false
    → position_loop 0 0 0 (take end text) ≡ (line, start)
    → offset_to_position text end
      ≡ at_line line (units_from 0 (take (end - start) (drop start text)))
unfolding offset_to_position byte_offset_to_utf16_units
offset_to_position-found text end line start h found = ground arith

module _ (lines : List Bytes) (cps : List ℕ) (rest : Bytes) (whole : All (All IsNotNewline) lines)
    (inside : All IsInLine cps) where
  -- The document, and the offset behind `cps`.
  abbrev document : Bytes
  document = unlines lines ++ (encode cps ++ rest)

  abbrev boundary : ℕ
  boundary = length (unlines lines) + length (encode cps)

  boundary-take : take boundary document ≡ unlines lines ++ encode cps
  boundary-take = rw (sym (length-append (unlines lines) (encode cps))) (
      rw (sym (append_assoc (unlines lines) (encode cps) rest))
        (take-length (unlines lines ++ encode cps) rest))

  boundary-in_text : ltb (length document) boundary ≡ false
  boundary-in_text = ge→ltb (length document) boundary (
      omega (
        arith,
        length-append {0} (unlines lines) (encode cps ++ rest),
        length-append {0} (encode cps) rest,
      ))

  loop-boundary :
      position_loop 0 0 0 (unlines lines ++ encode cps) ≡ (length lines, length (unlines lines))
  loop-boundary =
      position_loop-unlines lines (encode cps) whole
      ∙ position_loop-tail (encode cps) (length (unlines lines)) (length lines)
          (length (unlines lines)) (encode-IsNotNewline cps inside)

  units-boundary :
      units_from 0
        (take (boundary - length (unlines lines)) (drop (length (unlines lines)) document))
      ≡ utf16_length cps
  units-boundary = rw (drop-length (unlines lines) (encode cps ++ rest)) (
      rw (let e : boundary - length (unlines lines) ≡ length (encode cps) = omega arith in e) (
        rw (take-length (encode cps) rest) (
          rw (sym (append-nil (encode cps)))
            (units_from-encode cps [] inside ∙ unfold units_from in omega arith))))

  walk-boundary : to_byte_from 0 (encode cps ++ rest) 0 (utf16_length cps) ≡ length (encode cps)
  walk-boundary =
      rw (let e : utf16_length cps ≡ 0 + utf16_length cps = omega arith in e)
        (to_byte_from-encode cps rest 0 inside)

  -- The position reported for the offset behind `cps` counts the lines before and the UTF-16
  -- units of `cps`.
  pub offset_to_position-boundary :
      offset_to_position document boundary
      ≡ record { line = length lines; character = utf16_length cps }
  offset_to_position-boundary =
      offset_to_position-found document boundary (length lines) (length (unlines lines))
        boundary-in_text (rw boundary-take loop-boundary)
      ∙ ap (at_line (length lines)) units-boundary

  -- In a document of lines that are ended by newlines, code points without a newline or a carriage
  -- return, and any bytes behind, the offset read off the line and the UTF-16 units of the code points
  -- is the offset behind them.
  pub offset_at-boundary : offset_at document (length lines) (utf16_length cps) ≡ boundary
  offset_at-boundary =
      offset_at-found document (length lines) (utf16_length cps) (length (unlines lines))
        (line_offset-unlines lines (encode cps ++ rest) whole)
      ∙ ap (λ (n : ℕ). length (unlines lines) + n)
          (rw (drop-length (unlines lines) (encode cps ++ rest)) walk-boundary)

  -- A character past the end of a line that a newline ends is moved back to the end of the line, and
  -- never into later lines; the line is the UTF-8 of code points, with no newline and no carriage
  -- return in it, and the lines before it are ended by newlines.
  pub offset_at-overshoot :
      (character : ℕ)
      → utf16_length cps ≤ character
      → offset_at (unlines lines ++ (encode cps ++ 10 ∷ rest)) (length lines) character ≡ boundary
  offset_at-overshoot character past =
      offset_at-found (unlines lines ++ (encode cps ++ 10 ∷ rest)) (length lines) character
        (length (unlines lines)) (line_offset-unlines lines (encode cps ++ 10 ∷ rest) whole)
      ∙ ap (λ (n : ℕ). length (unlines lines) + n)
          (rw (drop-length (unlines lines) (encode cps ++ 10 ∷ rest))
            (to_byte_from-overshoot cps rest 0 character inside (omega arith)))
