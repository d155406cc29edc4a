-- ===== src/Position/Tests.antt =====
-- Inputs for the theorems about positions, and runs of the definitions.
use ext_lsparrot.Base.{◌+◌, ℕ, ◌≡◌, refl, List, [], ◌∷◌, Bytes, All, arith, codes, length, ◌++◌}
use ext_lsparrot.Position.{
  offset_at, offset_to_position, utf16_units_to_byte_offset, byte_offset_to_utf16_units,
  line_offset, after_newline, position_loop, to_byte_from, units_from, lead_step, lead_units,
}
use ext_lsparrot.Position.Utf8.{IsNotNewline, IsInLine, encode, utf16_length}
use ext_lsparrot.Position.Lines.{unlines}
use ext_lsparrot.Position.RoundTrip.{
  offset_to_position-boundary, offset_at-boundary, offset_at-overshoot,
}

abbrev opening : List Bytes
opening = codes "<?php" ∷ []

opening-IsNotNewline : All (All IsNotNewline) opening
opening-IsNotNewline = omega arith

-- `é`, a snowman and an emoji of the astral planes
abbrev typed : List ℕ
typed = 0xE9 ∷ 0x2603 ∷ 0x1F600 ∷ []

typed-IsInLine : All IsInLine typed
typed-IsInLine = omega arith

abbrev text : Bytes
text = unlines opening ++ (encode typed ++ codes ";")

offset_to_position-typed : offset_to_position text 15 ≡ record { line = 1; character = 4 }
unfolding unlines encode offset_to_position position_loop byte_offset_to_utf16_units units_from
    lead_step lead_units
offset_to_position-typed = refl

offset_at-typed : offset_at text 1 2 ≡ 11
unfolding unlines encode offset_at utf16_units_to_byte_offset line_offset after_newline to_byte_from
    lead_step lead_units
offset_at-typed = refl

offset_to_position-boundary_example :
    offset_to_position text (length (unlines opening) + length (encode typed))
    ≡ record { line = 1; character = utf16_length typed }
offset_to_position-boundary_example =
    offset_to_position-boundary opening typed (codes ";") opening-IsNotNewline typed-IsInLine

offset_at-boundary_example :
    offset_at text 1 (utf16_length typed) ≡ length (unlines opening) + length (encode typed)
offset_at-boundary_example =
    offset_at-boundary opening typed (codes ";") opening-IsNotNewline typed-IsInLine

offset_at-overshoot_example :
    offset_at (unlines opening ++ (encode typed ++ 10 ∷ codes "}")) 1 400
    ≡ length (unlines opening) + length (encode typed)
offset_at-overshoot_example =
    offset_at-overshoot opening typed (codes "}") opening-IsNotNewline typed-IsInLine 400
      (unfold utf16_length in omega arith)
