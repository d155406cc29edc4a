-- ===== src/Symbols/Segments/Search.antt =====
-- What the search in the sorted segments finds (ext/lsp_server_symbols.c,
-- `lsp_symbol_segment_lower_bound`, `lsp_symbol_match_prefix`).
use ext_lsparrot.Base.{
  ℕ, zero, suc, ◌+◌, ◌-◌, ◌/◌, ◌<◌, ◌≤◌, ◌≡◌, refl, sym, ◌∙◌, true, false, List, [], ◌∷◌, Bytes,
  All, ltb, ltb→lt, ltb→ge, length, drop, Bool-cases, inl, inr, arith, if◌then◌else◌,
}
use ext_lsparrot.Imports.{is_lt, is_eq}
use ext_lsparrot.Symbols.Segments.{
  Segment, prefix_compare, match_segments, is_below, search_segment, segment_lower_bound, mark_run,
}
use ext_lsparrot.Symbols.Segments.Order.{
  is_gt, IsAtMost, IsSorted, none, more, prefix_compare-lt, prefix_compare-gt,
}
use Prim.Native.Nat.{Ordering, lt, eq, gt}

true≢false : true ≡ false → ⊥
true≢false e = cc

module _ (segments : List Segment) (prefix : Bytes) where
  -- The search stops where what is before is below the prefix and what is behind is not.
  search_segment_lem :
      (fuel low high : ℕ)
      → high - low ≤ fuel
      → low ≤ high
      → ((i j : ℕ) → i ≤ j → is_below segments prefix j ≡ true → is_below segments prefix i ≡ true)
      → ((i : ℕ) → i < low → is_below segments prefix i ≡ true)
      → ((i : ℕ) → high ≤ i → is_below segments prefix i ≡ false)
      → let r = search_segment segments prefix fuel low high in
        ((i : ℕ) → i < r → is_below segments prefix i ≡ true)
        × ((i : ℕ) → r ≤ i → is_below segments prefix i ≡ false)
  unfolding search_segment
  search_segment_lem zero low high f order down before behind =
      (before, λ i h. behind i (omega arith))
  search_segment_lem (suc fuel) low high f order down before behind =
      let mid = low + (high - low) / 2 in
      elim (Bool-cases (ltb low high)) [
        | inl going ↦
            let gap = ltb→lt low high going in
            elim (Bool-cases (is_below segments prefix mid)) [
              | inl below ↦
                  rw (going, below)
                    (search_segment_lem fuel (mid + 1) high (omega arith) (omega arith) down
                      (λ i h. down i mid (omega arith) below) behind)
              | inr above ↦
                  rw (going, above)
                    (search_segment_lem fuel low mid (omega arith) (omega arith) down before (λ i h.
                      elim (Bool-cases (is_below segments prefix i)) [
                        | inl other ↦ absurd (true≢false (sym (down mid i h other) ∙ above))
                        | inr fine ↦ fine
                      ]))
            ]
        | inr closed ↦
            let end = ltb→ge low high closed in rw closed (before, λ i h. behind i (omega arith))
      ]

is_below-head :
    (s : Segment) (ss : List Segment) (prefix : Bytes) (j : ℕ)
    → All (IsAtMost s) ss
    → is_below ss prefix j ≡ true
    → is_lt (prefix_compare (s.text) prefix) ≡ true
unfolding is_below
is_below-head s [] prefix zero a h = cc
is_below-head s [] prefix (suc j) a h = cc
is_below-head s (t ∷ ss) prefix zero (b, a) h = prefix_compare-lt (s.text) (t.text) prefix b h
is_below-head s (t ∷ ss) prefix (suc j) (b, a) h = is_below-head s ss prefix j a h

-- In sorted segments those that are below the prefix come first.
is_below-down :
    (ss : List Segment) (prefix : Bytes)
    → IsSorted ss
    → (i j : ℕ) → i ≤ j
    → is_below ss prefix j ≡ true
    → is_below ss prefix i ≡ true
unfolding is_below
is_below-down ss prefix none i zero le h = cc
is_below-down ss prefix none i (suc j) le h = cc
is_below-down (s ∷ ss) prefix (more a sorted) zero zero le h = h
is_below-down (s ∷ ss) prefix (more a sorted) zero (suc j) le h = is_below-head s ss prefix j a h
is_below-down (s ∷ ss) prefix (more a sorted) (suc i) zero le h = absurd (omega arith)
is_below-down (s ∷ ss) prefix (more a sorted) (suc i) (suc j) le h =
    is_below-down ss prefix sorted i j (omega arith) h

is_below-end :
    (ss : List Segment) (prefix : Bytes) (i : ℕ) → length ss ≤ i → is_below ss prefix i ≡ false
unfolding is_below
is_below-end [] prefix zero h = refl
is_below-end [] prefix (suc i) h = refl
is_below-end (s ∷ ss) prefix zero h = absurd (omega arith)
is_below-end (s ∷ ss) prefix (suc i) h = is_below-end ss prefix i (omega arith)

-- The entries of all segments that start with the prefix, in any case.
unfoldable pub mark_all : Bytes → List Segment → List ℕ
unfolding prefix_compare
mark_all prefix [] = []
mark_all prefix (s ∷ ss) =
    let further = mark_all prefix ss in
    if is_eq (prefix_compare (s.text) prefix) then s.entry_index ∷ further else further

lt→not_eq : (o : Ordering) → is_lt o ≡ true → is_eq o ≡ false
lt→not_eq lt h = refl
lt→not_eq eq h = cc
lt→not_eq gt h = refl

gt→not_eq : (o : Ordering) → is_gt o ≡ true → is_eq o ≡ false
gt→not_eq lt h = refl
gt→not_eq eq h = cc
gt→not_eq gt h = refl

other→gt : (o : Ordering) → is_eq o ≡ false → is_lt o ≡ false → is_gt o ≡ true
other→gt lt h k = cc
other→gt eq h k = cc
other→gt gt h k = refl

-- Nothing behind a segment that is above the prefix starts with it.
mark_all-above :
    (s : Segment) (ss : List Segment) (prefix : Bytes)
    → All (IsAtMost s) ss
    → is_gt (prefix_compare (s.text) prefix) ≡ true
    → mark_all prefix ss ≡ []
unfolding mark_all
mark_all-above s [] prefix a h = refl
mark_all-above s (t ∷ ss) prefix (b, a) h =
    let above = prefix_compare-gt (s.text) (t.text) prefix b h in
    rw (gt→not_eq (prefix_compare (t.text) prefix) above) (mark_all-above s ss prefix a h)

-- Where nothing is below the prefix, the loop that ends early marks all that start with it.
mark_run-mark_all :
    (ss : List Segment) (prefix : Bytes)
    → IsSorted ss
    → is_below ss prefix 0 ≡ false
    → ((i : ℕ) → is_below ss prefix i ≡ false)
    → mark_run prefix ss ≡ mark_all prefix ss
unfolding mark_run mark_all is_below
mark_run-mark_all ss prefix none h k = refl
mark_run-mark_all (s ∷ ss) prefix (more a sorted) h k =
    elim (Bool-cases (is_eq (prefix_compare (s.text) prefix))) [
      | inl same ↦ rw (same, mark_run-mark_all ss prefix sorted (k 1) (λ i. k (suc i))) refl
      | inr other ↦
          rw
            (
              other,
              mark_all-above s ss prefix a (other→gt (prefix_compare (s.text) prefix) other h),
            )
            refl
    ]

-- What is below the prefix does not start with it.
mark_run-drop :
    (r : ℕ) (ss : List Segment) (prefix : Bytes)
    → IsSorted ss
    → ((i : ℕ) → i < r → is_below ss prefix i ≡ true)
    → ((i : ℕ) → r ≤ i → is_below ss prefix i ≡ false)
    → mark_run prefix (drop r ss) ≡ mark_all prefix ss
unfolding mark_all is_below
mark_run-drop zero ss prefix sorted before behind =
    mark_run-mark_all ss prefix sorted (behind 0 (omega arith)) (λ i. behind i (omega arith))
mark_run-drop (suc r) ss prefix none before behind = unfold mark_run in refl
mark_run-drop (suc r) (s ∷ ss) prefix (more a sorted) before behind =
    rw (lt→not_eq (prefix_compare (s.text) prefix) (before 0 (omega arith))) (
      mark_run-drop r ss prefix sorted (λ i h. before (suc i) (omega arith))
        (λ i h. behind (suc i) (omega arith)))

-- In sorted segments the binary search and the loop that ends at the first other segment mark exactly
-- what a look at every segment marks.
pub match_segments-mark_all :
    (ss : List Segment) (prefix : Bytes)
    → IsSorted ss
    → match_segments ss prefix ≡ mark_all prefix ss
unfolding match_segments segment_lower_bound
match_segments-mark_all ss prefix sorted =
    let (before, behind) =
      search_segment_lem ss prefix (length ss) 0 (length ss) (omega arith) (omega arith)
        (is_below-down ss prefix sorted) (λ i h. absurd (omega arith)) (is_below-end ss prefix) in
    mark_run-drop (segment_lower_bound ss prefix) ss prefix sorted before behind
