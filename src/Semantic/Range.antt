-- ===== src/Semantic/Range.antt =====
-- A reply for a range and the full reply, ext/lsp_server_semantic_tokens.c: `lsp_semantic_tokens_collect`
-- with and without bounds.
use ext_lsparrot.Base.{
  ℕ, suc, ◌-◌, ◌<◌, ◌≤◌, ◌⊎◌, inl, inr, ◌≡◌, refl, sym, ap, ◌∙◌, true, Option, none, List, [], ◌∷◌,
  Bool-cases, arith,
}
use ext_lsparrot.Base.Int.{ℤ, pos, int_eq, int_leb, sub-le}
use ext_lsparrot.Semantic.Collect.{Mark, Bounds, is_emitted, in_bounds, collect}
use ext_lsparrot.Semantic.Decode.{decode, emitted, within_bounds, document_marks, decode-collect}
use ext_lsparrot.Tokens.{Kind}
use ext_lsparrot.Server.{Document}

-- A place is behind another one in the text.
abbrev pub Behind : ℕ → ℕ → ℕ → ℕ → Type 0
Behind l c l' c' = (l < l') ⊎ ((l ≡ l') × (c ≤ c'))

-- Marks with lengths and types at places each behind the one before.
abbrev pub InOrder : ℕ → ℕ → List Mark → Type 0
InOrder l c [] = Unit {0}
InOrder l c (m ∷ ms) =
    (l' : ℕ) × (c' : ℕ) × (k : ℕ) × (t : ℕ) × (m.line ≡ pos l')
    × (m.column ≡ pos c')
    × (m.size ≡ pos (suc k))
    × (m.type ≡ pos t)
    × Behind l c l' c'
    × InOrder l' c' ms

Behind-trans : (a b c d e f : ℕ) → Behind a b c d → Behind c d e f → Behind a b e f
Behind-trans a b c d e f (inl p) (inl q) = inl (omega arith)
Behind-trans a b c d e f (inl p) (inr q) = inl (omega arith)
Behind-trans a b c d e f (inr p) (inl q) = inl (omega arith)
Behind-trans a b c d e f (inr p) (inr q) = inr (omega arith, omega arith)

is_emitted-Behind :
    (l c l' c' k t : ℕ) (m : Mark)
    → m.line ≡ pos l'
    → m.column ≡ pos c'
    → m.size ≡ pos (suc k)
    → m.type ≡ pos t
    → Behind l c l' c'
    → is_emitted (pos l) (pos c) m ≡ true
unfolding is_emitted int_eq int_leb
is_emitted-Behind l c l' c' k t m el ec es et (inl before) =
    let ahead : l' - l ≡ suc (l' - l - 1) = omega arith in
    rw (el, ec, es, et) (rw (sub-le l' l (omega arith)) (rw ahead (ground arith)))
is_emitted-Behind l c l' c' k t m el ec es et (inr (same, le)) =
    let here : l' - l ≡ 0 = omega arith in
    rw (el, ec, es, et)
      (rw (sub-le l' l (omega arith)) (rw here (rw (sub-le c' c le) (ground arith))))

emitted-InOrder : (l c : ℕ) (ms : List Mark) → InOrder l c ms → emitted (pos l) (pos c) ms ≡ ms
unfolding emitted
emitted-InOrder l c [] h = refl
emitted-InOrder l c (m ∷ ms) (l', c', k, t, el, ec, es, et, behind, rest) =
    rw (is_emitted-Behind l c l' c' k t m el ec es et behind) (
      ap (λ (r : List Mark). m ∷ r)
        (ap (λ (x : ℤ). emitted x (m.column) ms) el
          ∙ ap (λ (x : ℤ). emitted (pos l') x ms) ec
          ∙ emitted-InOrder l' c' ms rest))

within_bounds-InOrder :
    (bounds : Option Bounds) (l c l' c' : ℕ) (ms : List Mark)
    → Behind l c l' c'
    → InOrder l' c' ms
    → InOrder l c (within_bounds bounds ms)
unfolding within_bounds
within_bounds-InOrder bounds l c a b [] q h = tt
within_bounds-InOrder bounds l c a b (m ∷ ms) q (l', c', k, t, el, ec, es, et, behind, rest) =
    let onward = Behind-trans l c a b l' c' q behind in
    elim (Bool-cases (in_bounds bounds (m.line))) [
      | inl inside ↦ rw inside (
        l',
        c',
        k,
        t,
        el,
        ec,
        es,
        et,
        onward,
        within_bounds-InOrder bounds l' c' l' c' ms (inr (refl, omega arith)) rest,
      )
      | inr outside ↦ rw outside (within_bounds-InOrder bounds l c l' c' ms onward rest)
    ]

within_bounds-none : (ms : List Mark) → within_bounds none ms ≡ ms
unfolding within_bounds in_bounds
within_bounds-none [] = refl
within_bounds-none (m ∷ ms) = ap (λ (r : List Mark). m ∷ r) (within_bounds-none ms)

-- A reply for a range holds exactly those tokens of the full reply, in order, whose line is in
-- the range, if the tokens that are marked in the document have a length and stand in order.
pub collect-range :
    (kind_of : ℤ → Kind) (d : Document) (bounds : Option Bounds)
    → InOrder 0 0 (document_marks kind_of d)
    → decode (collect kind_of d bounds) ≡ within_bounds bounds (decode (collect kind_of d none))
collect-range kind_of d bounds ordered =
    decode-collect kind_of d bounds
    ∙ emitted-InOrder 0 0 (within_bounds bounds (document_marks kind_of d)) (
        within_bounds-InOrder bounds 0 0 0 0 (document_marks kind_of d) (inr (refl, omega arith))
          ordered)
    ∙ ap (within_bounds bounds) (
        sym (
          decode-collect kind_of d none
          ∙ ap (emitted (pos 0) (pos 0)) (within_bounds-none (document_marks kind_of d))
          ∙ emitted-InOrder 0 0 (document_marks kind_of d) ordered))
