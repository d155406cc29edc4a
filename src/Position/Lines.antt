-- ===== src/Position/Lines.antt =====
-- Lines of a document, and how the line loops of `lsp_offset_at` (ext/lsp_server_core.c) and
-- `lsp_offset_to_position` (ext/lsp_server_symbols.c) pass over them.
use ext_lsparrot.Base.{
  append_assoc, ℕ, suc, ◌+◌, ◌≡◌, refl, ap, ◌∙◌, some, List, [], ◌∷◌, ◌++◌, Bytes, All, arith,
  length, drop, length-append,
}
use ext_lsparrot.Position.{after_newline, line_offset, position_loop}
use ext_lsparrot.Position.Utf8.{IsNotNewline}

-- Lines, each with the newline that ends it.
unfoldable pub unlines : List Bytes → Bytes
unlines [] = []
unlines (line ∷ lines) = line ++ 10 ∷ unlines lines

after_newline-line :
    (line rest : Bytes)
    → All IsNotNewline line
    → after_newline (line ++ 10 ∷ rest) ≡ some (length line + 1)
unfolding after_newline
after_newline-line [] rest h = refl
after_newline-line (c ∷ line) rest h = ground (arith, after_newline-line line rest h.1)

drop-line : (line rest : Bytes) → drop (length line + 1) (line ++ 10 ∷ rest) ≡ rest
drop-line [] rest = refl
drop-line (c ∷ line) rest =
    rw (let e : suc (length line) + 1 ≡ suc (length line + 1) = omega arith in e)
      (drop-line line rest)

line_offset-step :
    (n k m : ℕ) (text rest : Bytes)
    → after_newline text ≡ some k
    → drop k text ≡ rest
    → line_offset n rest ≡ some m
    → line_offset (suc n) text ≡ some (k + m)
unfolding line_offset
line_offset-step n k m text rest found behind ih = ground arith

-- The start of the line behind `lines`.
pub line_offset-unlines :
    (lines : List Bytes) (rest : Bytes)
    → All (All IsNotNewline) lines
    → line_offset (length lines) (unlines lines ++ rest) ≡ some (length (unlines lines))
unfolding unlines
line_offset-unlines [] rest h = unfold line_offset in refl
line_offset-unlines (line ∷ lines) rest h = rw (append_assoc line (10 ∷ unlines lines) rest) (
    line_offset-step (length lines) (length line + 1) (length (unlines lines))
      (line ++ 10 ∷ (unlines lines ++ rest)) (unlines lines ++ rest)
      (after_newline-line line (unlines lines ++ rest) h.0) (drop-line line (unlines lines ++ rest))
      (line_offset-unlines lines rest h.1)
    ∙ ap some (omega (arith, length-append {0} line (10 ∷ unlines lines))))

position_loop-line :
    (line rest : Bytes) (i n start : ℕ)
    → All IsNotNewline line
    → position_loop i n start (line ++ 10 ∷ rest)
      ≡ position_loop (suc (i + length line)) (suc n) (suc (i + length line)) rest
unfolding position_loop
position_loop-line [] rest i n start h = rw (let e : i + 0 ≡ i = omega arith in e)
position_loop-line (c ∷ line) rest i n start h =
    rw (let e : i + suc (length line) ≡ suc i + length line = omega arith in e)
      (ground (arith, position_loop-line line rest (suc i) n start h.1))

position_loop-unlines_from :
    (lines : List Bytes) (rest : Bytes) (i n : ℕ)
    → All (All IsNotNewline) lines
    → position_loop i n i (unlines lines ++ rest)
      ≡ position_loop
          (i + length (unlines lines))
          (n + length lines)
          (i + length (unlines lines))
          rest
unfolding unlines
position_loop-unlines_from [] rest i n h =
    rw (let e : i + 0 ≡ i = omega arith in e, let e : n + 0 ≡ n = omega arith in e)
position_loop-unlines_from (line ∷ lines) rest i n h =
    rw (append_assoc line (10 ∷ unlines lines) rest) (
      position_loop-line line (unlines lines ++ rest) i n i h.0
      ∙ position_loop-unlines_from lines rest (suc (i + length line)) (suc n) h.1
      ∙ cc (
        (let e : suc (i + length line) + length (unlines lines)
                ≡ i + length (line ++ 10 ∷ unlines lines) =
              omega (arith, length-append {0} line (10 ∷ unlines lines)) in
            e),
        (let e : suc n + length lines ≡ n + suc (length lines) = omega arith in e),
      ))

-- Behind whole lines: their number, and the offset at which they end.
pub position_loop-unlines :
    (lines : List Bytes) (rest : Bytes)
    → All (All IsNotNewline) lines
    → position_loop 0 0 0 (unlines lines ++ rest)
      ≡ position_loop (length (unlines lines)) (length lines) (length (unlines lines)) rest
position_loop-unlines lines rest h =
    position_loop-unlines_from lines rest 0 0 h
    ∙ cc (
      (let e : 0 + length (unlines lines) ≡ length (unlines lines) = omega arith in e),
      (let e : 0 + length lines ≡ length lines = omega arith in e),
    )

-- A line that is not ended leaves the line number and its start alone.
pub position_loop-tail :
    (line : Bytes) (i n start : ℕ)
    → All IsNotNewline line
    → position_loop i n start line ≡ (n, start)
unfolding position_loop
position_loop-tail [] i n start h = refl
position_loop-tail (c ∷ line) i n start h =
    ground (arith, position_loop-tail line (suc i) n start h.1)
