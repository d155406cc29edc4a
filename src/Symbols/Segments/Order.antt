-- ===== src/Symbols/Segments/Order.antt =====
-- The order of the segments of names (ext/lsp_server_symbols.c, `lsp_symbol_segment_compare`).
use ext_lsparrot.Base.{
  ◌≡◌, refl, Bool, true, false, not, List, [], ◌∷◌, Bytes, All, ltb, ◌==◌, Bool-cases, inl, inr,
  arith, if◌then◌else◌,
}
use ext_lsparrot.Imports.{casecmp, is_lt, is_eq}
use ext_lsparrot.Symbols.Segments.{
  Segment, prefix_compare, not_above, insert_segment, sort_segments,
}
use Prim.Native.Nat.{Ordering, lt, eq, gt}

abbrev pub is_gt : Ordering → Bool
is_gt gt = true
is_gt _ = false

-- What is not above a text that is below the prefix is below the prefix too.
pub prefix_compare-lt :
    (a b prefix : Bytes)
    → is_gt (casecmp a b) ≡ false
    → is_lt (prefix_compare b prefix) ≡ true
    → is_lt (prefix_compare a prefix) ≡ true
unfolding casecmp prefix_compare
prefix_compare-lt a b [] h k = cc
prefix_compare-lt [] b (p ∷ prefix) h k = refl
prefix_compare-lt (c ∷ a) [] (p ∷ prefix) h k = cc
prefix_compare-lt (c ∷ a) (d ∷ b) (p ∷ prefix) h k = ground (arith, prefix_compare-lt a b prefix)

-- What is not below a text that is above the prefix is above the prefix too.
pub prefix_compare-gt :
    (a b prefix : Bytes)
    → is_gt (casecmp a b) ≡ false
    → is_gt (prefix_compare a prefix) ≡ true
    → is_gt (prefix_compare b prefix) ≡ true
unfolding casecmp prefix_compare
prefix_compare-gt a b [] h k = cc
prefix_compare-gt [] b (p ∷ prefix) h k = cc
prefix_compare-gt (c ∷ a) [] (p ∷ prefix) h k = cc
prefix_compare-gt (c ∷ a) (d ∷ b) (p ∷ prefix) h k = ground (arith, prefix_compare-gt a b prefix)

casecmp_trans :
    (a b d : Bytes)
    → is_gt (casecmp a b) ≡ false
    → is_gt (casecmp b d) ≡ false
    → is_gt (casecmp a d) ≡ false
unfolding casecmp
casecmp_trans [] b [] h k = refl
casecmp_trans [] b (e ∷ d) h k = refl
casecmp_trans (x ∷ a) [] d h k = cc
casecmp_trans (x ∷ a) (y ∷ b) [] h k = cc
casecmp_trans (x ∷ a) (y ∷ b) (z ∷ d) h k = ground (arith, casecmp_trans a b d)

casecmp_flip : (a b : Bytes) → is_lt (casecmp a b) ≡ false → is_gt (casecmp b a) ≡ false
unfolding casecmp
casecmp_flip [] [] h = refl
casecmp_flip [] (y ∷ b) h = cc
casecmp_flip (x ∷ a) [] h = refl
casecmp_flip (x ∷ a) (y ∷ b) h = ground (arith, casecmp_flip a b)

-- The first one's text is not above the second one's.
abbrev pub IsAtMost : Segment → Segment → Type 0
IsAtMost s t = is_gt (casecmp (s.text) (t.text)) ≡ false

pub data IsSorted : List Segment → Type 0 where
  none : IsSorted []
  more : {s : Segment} {ss : List Segment} → All (IsAtMost s) ss → IsSorted ss → IsSorted (s ∷ ss)

not_above-IsAtMost : (s t : Segment) → not_above s t ≡ true → IsAtMost s t
unfolding not_above
not_above-IsAtMost s t h = by_cases (casecmp (s.text) (t.text)) h
  where
    by_cases :
        (o : Ordering)
        → (if is_lt o
            then true
            else if not (is_eq o)
            then false
            else if s.entry_index == t.entry_index
            then not (ltb (t.segment_offset) (s.segment_offset))
            else ltb (s.entry_index) (t.entry_index))
          ≡ true
        → is_gt o ≡ false
    by_cases lt h = refl
    by_cases eq h = refl
    by_cases gt h = cc

above-IsAtMost : (s t : Segment) → not_above s t ≡ false → IsAtMost t s
unfolding not_above
above-IsAtMost s t h = elim (Bool-cases (is_lt (casecmp (s.text) (t.text)))) [
  | inl less ↦ absurd (let k : true ≡ false = rw less at h in true≢false k)
  | inr other ↦ casecmp_flip (s.text) (t.text) other
]
  where
    true≢false : true ≡ false → ⊥
    true≢false e = cc

All-trans :
    (s t : Segment) (ss : List Segment) → IsAtMost s t → All (IsAtMost t) ss → All (IsAtMost s) ss
All-trans s t [] h a = a
All-trans s t (u ∷ ss) h (b, a) =
    (casecmp_trans (s.text) (t.text) (u.text) h b, All-trans s t ss h a)

insert-All :
    (s t : Segment) (ss : List Segment)
    → IsAtMost t s
    → All (IsAtMost t) ss
    → All (IsAtMost t) (insert_segment s ss)
unfolding insert_segment
insert-All s t [] h a = (h, a)
insert-All s t (u ∷ ss) h (b, a) = elim (Bool-cases (not_above s u)) [
  | inl first ↦ rw first (h, (b, a))
  | inr later ↦ rw later (b, insert-All s t ss h a)
]

insert-IsSorted : (s : Segment) (ss : List Segment) → IsSorted ss → IsSorted (insert_segment s ss)
unfolding insert_segment
insert-IsSorted s [] sorted = more tt none
insert-IsSorted s (t ∷ ss) (more a sorted) = elim (Bool-cases (not_above s t)) [
  | inl first ↦
      let le = not_above-IsAtMost s t first in
      rw first (more (le, All-trans s t ss le a) (more a sorted))
  | inr later ↦
      rw later (more (insert-All s t ss (above-IsAtMost s t later) a) (insert-IsSorted s ss sorted))
]

pub sort_segments-IsSorted : (ss : List Segment) → IsSorted (sort_segments ss)
unfolding sort_segments
sort_segments-IsSorted [] = none
sort_segments-IsSorted (s ∷ ss) = insert-IsSorted s (sort_segments ss) (sort_segments-IsSorted ss)
