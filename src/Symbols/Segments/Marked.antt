-- ===== src/Symbols/Segments/Marked.antt =====
-- Which entries a prefix matches (ext/lsp_server_symbols.c, `lsp_symbol_match_prefix`).
use ext_lsparrot.Base.{
  ℕ, zero, suc, ◌+◌, ◌<◌, ◌≡◌, refl, ap, ◌∙◌, Bool, true, false, ◌&&◌, ◌||◌, not, List, [], ◌∷◌,
  Bytes, ltb, length, ◌==◌, ==_refl, Bool-cases, inl, inr, arith,
}
use ext_lsparrot.Imports.{is_eq}
use ext_lsparrot.Scan.Fuzzy.{symbol_fuzzy_match}
use ext_lsparrot.Symbols.Segments.{
  Segment, Name, prefix_compare, not_above, insert_segment, sort_segments, collect_segments,
  table_segments, match_segments, is_marked, all_marked, mark_fuzzy, without_backslash,
  match_prefix,
}
use ext_lsparrot.Symbols.Segments.Order.{sort_segments-IsSorted}
use ext_lsparrot.Symbols.Segments.Search.{mark_all, match_segments-mark_all}

-- The segment is one of the entry and starts with the prefix, in any case.
abbrev hits : ℕ → Bytes → Segment → Bool
hits i prefix s = is_eq (prefix_compare (s.text) prefix) && i == s.entry_index

unfoldable pub has_segment : ℕ → Bytes → List Segment → Bool
has_segment i prefix [] = false
has_segment i prefix (s ∷ ss) = hits i prefix s || has_segment i prefix ss

-- The name of the entry is that of a class and matches loosely.
unfoldable pub matches_loosely : ℕ → Bytes → List Name → Bool
matches_loosely i prefix [] = false
matches_loosely zero prefix (n ∷ names) = n.class_like && symbol_fuzzy_match (n.fqcn) prefix
matches_loosely (suc i) prefix (n ∷ names) = matches_loosely i prefix names

is_marked-mark_all :
    (i : ℕ) (prefix : Bytes) (ss : List Segment)
    → is_marked i (mark_all prefix ss) ≡ has_segment i prefix ss
unfolding is_marked mark_all has_segment
is_marked-mark_all i prefix [] = refl
is_marked-mark_all i prefix (s ∷ ss) = elim (Bool-cases (is_eq (prefix_compare (s.text) prefix))) [
  | inl same ↦ rw (same, is_marked-mark_all i prefix ss) refl
  | inr other ↦ rw (other, is_marked-mark_all i prefix ss) refl
]

or_swap : (a b c : Bool) → (a || (b || c)) ≡ (b || (a || c))
or_swap a b c = ground arith

has_segment-insert :
    (i : ℕ) (prefix : Bytes) (s : Segment) (ss : List Segment)
    → has_segment i prefix (insert_segment s ss) ≡ has_segment i prefix (s ∷ ss)
unfolding has_segment insert_segment
has_segment-insert i prefix s [] = refl
has_segment-insert i prefix s (t ∷ ss) = elim (Bool-cases (not_above s t)) [
  | inl first ↦ rw first refl
  | inr later ↦
      rw (later, has_segment-insert i prefix s ss)
        (or_swap (hits i prefix t) (hits i prefix s) (has_segment i prefix ss))
]

has_segment-sort :
    (i : ℕ) (prefix : Bytes) (ss : List Segment)
    → has_segment i prefix (sort_segments ss) ≡ has_segment i prefix ss
unfolding sort_segments has_segment
has_segment-sort i prefix [] = refl
has_segment-sort i prefix (s ∷ ss) =
    has_segment-insert i prefix s (sort_segments ss)
    ∙ ap (λ b. hits i prefix s || b) (has_segment-sort i prefix ss)

is_marked-match_segments :
    (i : ℕ) (prefix : Bytes) (names : List Name)
    → is_marked i (match_segments (table_segments names) prefix)
      ≡ has_segment i prefix (collect_segments 0 names)
unfolding table_segments
is_marked-match_segments i prefix names =
    let ss = collect_segments 0 names in
    ap (is_marked i) (match_segments-mark_all (sort_segments ss) prefix (sort_segments-IsSorted ss))
    ∙ is_marked-mark_all i prefix (sort_segments ss)
    ∙ has_segment-sort i prefix ss

-- The loop goes on behind an entry without a change to it.
mark_fuzzy-before :
    (k : ℕ) (names : List Name) (prefix : Bytes) (marked : List ℕ) (j : ℕ)
    → j < k
    → is_marked j (mark_fuzzy k names prefix marked) ≡ is_marked j marked
unfolding mark_fuzzy
mark_fuzzy-before k [] prefix marked j h = refl
mark_fuzzy-before k (n ∷ names) prefix marked j h =
    let apart : (j == k) ≡ false = ground arith in
    let stay = mark_fuzzy-before (suc k) names prefix marked j (omega arith) in
    let on : is_marked j (mark_fuzzy (suc k) names prefix (k ∷ marked)) ≡ is_marked j marked =
      mark_fuzzy-before (suc k) names prefix (k ∷ marked) j (omega arith)
      ∙ (unfold is_marked in rw apart refl) in
    elim (Bool-cases (is_marked k marked || not (n.class_like))) [
      | inl skipped ↦ rw skipped stay
      | inr asked ↦ elim (Bool-cases (symbol_fuzzy_match (n.fqcn) prefix)) [
        | inl yes_ ↦ rw (asked, yes_) on
        | inr no_ ↦ rw (asked, no_) stay
      ]
    ]

or_false : (b : Bool) → b ≡ (b || false)
or_false b = ground arith

mark_fuzzy-here :
    (k : ℕ) (n : Name) (names : List Name) (prefix : Bytes) (marked : List ℕ)
    → is_marked k (mark_fuzzy k (n ∷ names) prefix marked)
      ≡ (is_marked k marked || matches_loosely 0 prefix (n ∷ names))
unfolding mark_fuzzy matches_loosely
mark_fuzzy-here k n names prefix marked =
    let stay = mark_fuzzy-before (suc k) names prefix marked k (omega arith) in
    let on : is_marked k (mark_fuzzy (suc k) names prefix (k ∷ marked)) ≡ true =
      mark_fuzzy-before (suc k) names prefix (k ∷ marked) k (omega arith)
      ∙ (unfold is_marked in rw (==_refl k) refl) in
    elim (Bool-cases (is_marked k marked)) [
      | inl yes_ ↦ rw yes_ (stay ∙ yes_)
      | inr no_ ↦ elim (Bool-cases (n.class_like)) [
        | inr other ↦ rw (no_, other) (stay ∙ no_)
        | inl class_ ↦ elim (Bool-cases (symbol_fuzzy_match (n.fqcn) prefix)) [
          | inl loose ↦ rw (no_, class_, loose) on
          | inr strict ↦ rw (no_, class_, strict) (stay ∙ no_)
        ]
      ]
    ]

mark_fuzzy_lem :
    (i k : ℕ) (names : List Name) (prefix : Bytes) (marked : List ℕ) (j : ℕ)
    → j ≡ k + i
    → is_marked j (mark_fuzzy k names prefix marked)
      ≡ (is_marked j marked || matches_loosely i prefix names)
unfolding mark_fuzzy matches_loosely
mark_fuzzy_lem i k [] prefix marked j e = or_false (is_marked j marked)
mark_fuzzy_lem zero k (n ∷ names) prefix marked j e =
    let here : j ≡ k = omega arith in rw here (mark_fuzzy-here k n names prefix marked)
mark_fuzzy_lem (suc i) k (n ∷ names) prefix marked j e =
    let apart : (j == k) ≡ false = ground arith in
    let stay = mark_fuzzy_lem i (suc k) names prefix marked j (omega arith) in
    let on : is_marked j (mark_fuzzy (suc k) names prefix (k ∷ marked))
        ≡ (is_marked j marked || matches_loosely i prefix names) =
      mark_fuzzy_lem i (suc k) names prefix (k ∷ marked) j (omega arith)
      ∙ (unfold is_marked in rw apart refl) in
    elim (Bool-cases (is_marked k marked || not (n.class_like))) [
      | inl skipped ↦ rw skipped stay
      | inr asked ↦ elim (Bool-cases (symbol_fuzzy_match (n.fqcn) prefix)) [
        | inl yes_ ↦ rw (asked, yes_) on
        | inr no_ ↦ rw (asked, no_) stay
      ]
    ]

all_marked_lem :
    (i k : ℕ) (names : List Name) (j : ℕ)
    → j ≡ k + i
    → i < length names
    → is_marked j (all_marked k names) ≡ true
unfolding all_marked is_marked
all_marked_lem i k [] j e h = absurd (omega arith)
all_marked_lem zero k (n ∷ names) j e h =
    let here : j ≡ k = omega arith in rw (here, ==_refl k) refl
all_marked_lem (suc i) k (n ∷ names) j e h =
    let apart : (j == k) ≡ false = ground arith in
    rw apart (all_marked_lem i (suc k) names j (omega arith) (omega arith))

loosely_short :
    (i : ℕ) (prefix : Bytes) (names : List Name)
    → ltb (length prefix) 2 ≡ true
    → matches_loosely i prefix names ≡ false
unfolding matches_loosely symbol_fuzzy_match
loosely_short i prefix [] h = refl
loosely_short zero prefix (n ∷ names) h = rw h (and_false (n.class_like))
  where
    and_false : (b : Bool) → (b && false) ≡ false
    and_false b = ground arith
loosely_short (suc i) prefix (n ∷ names) h = loosely_short i prefix names h

-- Without its leading backslash, the typed prefix matches exactly the entries with a segment of their
-- name that starts with it, in any case, and the class-like ones whose name it matches loosely; an
-- empty prefix matches all entries.
pub match_prefix_lem :
    (names : List Name) (given : Bytes) (i : ℕ)
    → i < length names
    → let prefix = without_backslash given in
      is_marked i (match_prefix names given) ≡ (
        length prefix == 0
        || has_segment i prefix (collect_segments 0 names)
        || matches_loosely i prefix names)
unfolding match_prefix
match_prefix_lem names given i h =
    let prefix = without_backslash given in
    let strict = is_marked-match_segments i prefix names in
    elim (Bool-cases (length prefix == 0)) [
      | inl empty ↦ rw empty (all_marked_lem i 0 names i (omega arith) h)
      | inr filled ↦ elim (Bool-cases (ltb (length prefix) 2)) [
        | inl short ↦
            rw (filled, short, strict, loosely_short i prefix names short)
              (or_false (has_segment i prefix (collect_segments 0 names)))
        | inr long ↦
            rw (filled, long)
              (mark_fuzzy_lem i 0 names prefix (match_segments (table_segments names) prefix) i
                  (omega arith)
                ∙ ap (λ b. b || matches_loosely i prefix names) strict)
      ]
    ]
