-- ===== src/Formatting/Contents.antt =====
-- Formatting keeps the contents of a document: what ext/lsp_server_formatting.c replaces (`lsp_format_emit`,
-- `lsp_format_document_lines`) are lines, each by the same line between other blanks.
use ext_lsparrot.Base.{
  ℕ, zero, suc, ◌+◌, ◌-◌, ◌<◌, ◌≤◌, ◌≡◌, refl, sym, ap, ◌∙◌, ◌⊎◌, inl, inr, Bool, true, false, not,
  ◌&&◌, Bytes, List, [], ◌∷◌, ◌++◌, Option, Bool-cases, arith, ltb, ltb→lt, ltb→ge, lt→ltb, length,
  take, drop, get_or, drop_all,
}
use ext_lsparrot.Base.Int.{ℤ}
use ext_lsparrot.Formatting.{Settings, FormatOptions, options_resolve}
use ext_lsparrot.Formatting.Emit.{
  emit_line, emit_from, format_emit, plain_line, closing_newline, ends_with_newline,
}
use ext_lsparrot.Formatting.Lines.{Line, locked, line_starts}
use ext_lsparrot.Formatting.Reflow.{Reflowed, emit_line-Reflowed, emit_line-locked}
use ext_lsparrot.Formatting.Requests.{document_lines, plan_of, last_line, first_line, end_of_line}
use ext_lsparrot.Formatting.Search.{line_starts-pos}
use ext_lsparrot.Formatting.Split.{
  line_start-join, split_lines, join, length-split_lines, line_slice-split_lines,
}
use ext_lsparrot.Tokens.{Kind}
use ext_lsparrot.Zval.{Zval}

-- The lines from the one with index `i` on, as they are written: the same between other blanks, and
-- the locked ones as they were.
abbrev pub Reformatted : List Line → List Bytes → ℕ → List Bytes → Type 0
Reformatted plan lines i [] = Unit {0}
Reformatted plan lines i (out ∷ outs) =
    Reflowed (get_or lines i []) out
    × ((get_or plan i plain_line).kind ≡ locked → out ≡ get_or lines i [])
    × Reformatted plan lines (suc i) outs

emit_from-Reformatted :
    (left : ℕ) (options : FormatOptions) (reindent : Bool) (plan : List Line) (text : Bytes) (i : ℕ)
    → i + left ≤ length (line_starts text)
    → (outs : List Bytes) × (emit_from left options reindent plan text (line_starts text) i
        ≡ join outs)
      × (length outs ≡ left)
      × Reformatted plan (split_lines text) i outs
unfolding emit_from join
emit_from-Reformatted zero options reindent plan text i h = ([], refl, refl, tt)
emit_from-Reformatted (suc left) options reindent plan text i h =
    let (outs, e, count, all) =
      emit_from-Reformatted left options reindent plan text (suc i) (omega arith) in
    let inside : ltb i (length (line_starts text)) ≡ true =
      lt→ltb i (length (line_starts text)) (omega arith) in
    let l = get_or plan i plain_line in
    let line = get_or (split_lines text) i [] in
    let out = emit_line options reindent l line in
    (
      out ∷ outs,
      rw (inside, line_slice-split_lines text i (omega arith)) (ap (λ (t : Bytes). out ++ t) e),
      ap suc count,
      (emit_line-Reflowed options reindent l line, emit_line-locked options reindent l line, all),
    )

-- The end of a line is where the lines behind it start.
end_of_line-join :
    (text : Bytes) (last : ℕ)
    → last < length (line_starts text)
    → drop (end_of_line text (line_starts text) last) text
      ≡ join (drop (last + 1) (split_lines text))
unfolding end_of_line join
end_of_line-join text last h = elim (Bool-cases (ltb (last + 1) (length (line_starts text)))) [
  | inl more ↦ rw more (line_start-join text (last + 1) (ltb→lt _ _ more)).1
  | inr over ↦
      let size = length-split_lines text in
      let past = ltb→ge (last + 1) (length (line_starts text)) over in
      rw over (
        drop_all (length text) text (omega arith)
        ∙ sym (ap join (drop_all (last + 1) (split_lines text) (omega arith))))
]

last_line-lt : (n to_line : ℕ) → 0 < n → last_line n to_line < n
unfolding last_line
last_line-lt n to_line h = ground arith

first_line-le : (from_line to_line : ℕ) → first_line from_line to_line ≤ to_line
unfolding first_line
first_line-le from_line to_line = ground arith

-- A final newline is added to whole documents only.
final_newline_lem :
    (options : FormatOptions) (whole_document : Bool) (out : Bytes)
    → (closing_newline options whole_document out ≡ [])
      ⊎ ((whole_document ≡ true) × (closing_newline options whole_document out ≡ b'\n' ∷ []))
unfolding closing_newline
final_newline_lem options false out = inl refl
final_newline_lem options true out =
    elim (Bool-cases (options.final_newline && not (ends_with_newline out))) [
      | inl added ↦ inr (refl, rw added refl)
      | inr closed ↦ inl (rw closed refl)
    ]

same_parts :
    (a a' b b' c c' newline : Bytes)
    → a ≡ a'
    → b ≡ b'
    → c ≡ c'
    → a ++ ((b ++ newline) ++ c) ≡ a' ++ ((b' ++ newline) ++ c')
same_parts a a' b b' c c' newline p q r = rw (p, q, r) refl

module _ (kind_of : ℤ → Kind) (tokenize : Bytes → Zval) (settings : Settings) (text : Bytes)
    (params : Option Zval) where
  abbrev pub edited : ℕ → ℕ → Bool → Bytes
  edited from_line to_line whole_document =
      let (formatted, start, finish) =
        document_lines kind_of tokenize settings text params from_line to_line whole_document in
      take start text ++ (formatted ++ drop finish text)

  -- When the reply's edit is applied, the lines before and behind the requested ones stay, and each
  -- requested line is the same line between other blanks, and the same at all where it is locked;
  -- a final newline is added at most, and only to whole documents.
  pub document_lines-Reformatted :
      (from_line to_line : ℕ) (whole_document : Bool)
      → let lines = split_lines text in
        let last = last_line (length (line_starts text)) to_line in
        let first = first_line from_line last in
        (outs : List Bytes) × (newline : Bytes) × (edited from_line to_line whole_document
          ≡ join (take first lines) ++ ((join outs ++ newline) ++ join (drop (last + 1) lines)))
        × (length outs ≡ last + 1 - first)
        × Reformatted
            (plan_of kind_of tokenize settings text (options_resolve settings params)).0
            lines
            first
            outs
        × ((newline ≡ []) ⊎ ((whole_document ≡ true) × (newline ≡ b'\n' ∷ [])))
  unfolding document_lines format_emit
  document_lines-Reformatted from_line to_line whole_document =
      let options = options_resolve settings params in
      let (plan, reindent) = plan_of kind_of tokenize settings text options in
      let n = length (line_starts text) in
      let last = last_line n to_line in
      let first = first_line from_line last in
      let last<n = last_line-lt n to_line (line_starts-pos text) in
      let first≤last = first_line-le from_line last in
      let (outs, e, count, all) =
        emit_from-Reformatted (last + 1 - first) options reindent plan text first (omega arith) in
      let out = emit_from (last + 1 - first) options reindent plan text (line_starts text) first in
      (
        outs,
        closing_newline options whole_document out,
        same_parts _ (join (take first (split_lines text))) out (join outs) _
            (join (drop (last + 1) (split_lines text))) (closing_newline options whole_document out)
            (line_start-join text first (omega arith)).0 e (end_of_line-join text last last<n),
        count,
        all,
        final_newline_lem options whole_document out,
      )
