-- ===== src/Position/Bounds.antt =====
-- Offsets stay inside the text, whatever the client asks for (ext/lsp_server_core.c).
use ext_lsparrot.Base.{
  ℕ, zero, suc, ◌+◌, ◌-◌, ◌≤◌, inl, inr, Option, none, some, [], ◌∷◌, Bytes, arith, length, drop,
  length-drop, Bool-cases, ◌==◌,
}
use ext_lsparrot.Position.{
  lead_units, lead_step, to_byte_from, utf16_units_to_byte_offset, after_newline, line_offset,
  offset_at,
}

to_byte_from-le :
    (skip : ℕ) (rest : Bytes) (units character : ℕ)
    → to_byte_from skip rest units character ≤ length rest
unfolding to_byte_from
to_byte_from-le skip [] units character = omega arith
to_byte_from-le (suc skip) (c ∷ rest) units character =
    omega (arith, to_byte_from-le skip rest units character)
to_byte_from-le zero (c ∷ rest) units character =
    ground (arith, to_byte_from-le (lead_step c - 1) rest (units + lead_units c) character)

-- The offset, if there is one, is at most `n`.
abbrev AtMost : ℕ → Option ℕ → Type 0
AtMost n none = Unit
AtMost n (some k) = k ≤ n

after_newline-AtMost : (rest : Bytes) → AtMost (length rest) (after_newline rest)
unfolding after_newline
after_newline-AtMost [] = tt
after_newline-AtMost (c ∷ rest) = elim (Bool-cases (c == 10)) [
  | inl newline ↦ rw newline (omega arith)
  | inr other ↦ rw other (one_more (after_newline rest) (after_newline-AtMost rest))
]
  where
    one_more :
        (found : Option ℕ)
        → AtMost (length rest) found
        → AtMost (suc (length rest)) (elim found [ none ↦ none | some k ↦ some (suc k) ])
    one_more none h = tt
    one_more (some k) h = omega arith

add_behind :
    (n k : ℕ) (found : Option ℕ)
    → k ≤ n
    → AtMost (n - k) found
    → AtMost n (elim found [ none ↦ none | some more ↦ some (k + more) ])
add_behind n k none le h = tt
add_behind n k (some more) le h = omega arith

line_offset-AtMost : (line : ℕ) (rest : Bytes) → AtMost (length rest) (line_offset line rest)
unfolding line_offset
line_offset-AtMost zero rest = omega arith
line_offset-AtMost (suc line) rest =
    behind (after_newline rest) (after_newline-AtMost rest)
      (λ k. line_offset-AtMost line (drop k rest))
  where
    behind :
        (found : Option ℕ)
        → AtMost (length rest) found
        → ((k : ℕ) → AtMost (length (drop k rest)) (line_offset line (drop k rest)))
        → AtMost (length rest) (elim found [
          | none ↦ none
          | some k ↦ elim (line_offset line (drop k rest)) [
            | none ↦ none
            | some more ↦ some (k + more)
          ]
        ])
    behind none h next = tt
    behind (some k) h next =
        add_behind (length rest) k (line_offset line (drop k rest)) h
          (rw (length-drop k rest) at (next k))

-- The offset of any requested position is at most the length of the text.
pub offset_at-le : (text : Bytes) (line character : ℕ) → offset_at text line character ≤ length text
unfolding offset_at utf16_units_to_byte_offset
offset_at-le text line character = found (line_offset line text) (line_offset-AtMost line text)
  where
    found :
        (start : Option ℕ)
        → AtMost (length text) start
        → elim start [
          | none ↦ length text
          | some offset ↦ utf16_units_to_byte_offset text offset character
        ]
          ≤ length text
    found none h = omega arith
    found (some offset) h =
        omega (arith, to_byte_from-le 0 (drop offset text) 0 character, length-drop {0} offset text)
