-- ===== src/Symbols/Segments.antt =====
-- The sorted segments of the names and the search in them, ext/lsp_server_symbols.c:
-- `lsp_symbol_segment_compare`, the end of `lsp_symbol_index_table_ensure`,
-- `lsp_symbol_segment_lower_bound` and `lsp_symbol_match_prefix`. Names and prefixes hold no NUL. The
-- order of segments is total, so that every sort gives the list that this one gives.
pub mod Order
pub mod Search
pub mod Marked
mod Tests
use ext_lsparrot.Base.{
  ℕ, zero, suc, ◌+◌, ◌-◌, ◌/◌, Bool, true, false, ◌&&◌, ◌||◌, not, List, [], ◌∷◌, Bytes, ◌==◌, ltb,
  length, drop, get_or, to_lower, if◌then◌else◌,
}
use ext_lsparrot.Imports.{casecmp, is_lt, is_eq}
use ext_lsparrot.Scan.Fuzzy.{symbol_fuzzy_match}
use Prim.Native.Nat.{Ordering, lt, eq, gt}

-- `lsp_symbol_segment`, with the segment itself for the entry's name from `segment_offset` on.
pub record Segment : Type 0 where
  pub entry_index : ℕ
  pub segment_offset : ℕ
  pub text : Bytes

-- The name of an entry and whether its kind is class-like.
pub record Name : Type 0 where
  pub fqcn : Bytes
  pub class_like : Bool

-- `strncasecmp` of a segment and a prefix, with the prefix's length.
unfoldable pub prefix_compare : Bytes → Bytes → Ordering
prefix_compare text [] = eq
prefix_compare [] (p ∷ prefix) = lt
prefix_compare (c ∷ text) (p ∷ prefix) =
    let further = prefix_compare text prefix in
    if ltb (to_lower c) (to_lower p)
    then lt
    else if ltb (to_lower p) (to_lower c)
    then gt
    else further

-- `lsp_symbol_segment_compare`, as whether the left one is not above the right one.
unfoldable pub not_above : Segment → Segment → Bool
unfolding casecmp
not_above a b =
    if is_lt (casecmp (a.text) (b.text))
    then true
    else if not (is_eq (casecmp (a.text) (b.text)))
    then false
    else if a.entry_index == b.entry_index
    then not (ltb (b.segment_offset) (a.segment_offset))
    else ltb (a.entry_index) (b.entry_index)

-- The segments of a name from the offset `j` on, with the byte before it.
unfoldable pub segments_from : ℕ → ℕ → ℕ → Bytes → List Segment → List Segment
segments_from i j before [] rest = rest
segments_from i j before (c ∷ name) rest =
    let later = segments_from i (suc j) c name rest in
    if not (j == 0) && not (before == 92) && not (before == b'_')
    then later
    else record { entry_index = i; segment_offset = j; text = c ∷ name } ∷ later

unfoldable pub collect_segments : ℕ → List Name → List Segment
unfolding segments_from
collect_segments i [] = []
collect_segments i (n ∷ names) = segments_from i 0 0 (n.fqcn) (collect_segments (suc i) names)

-- `qsort`
unfoldable pub insert_segment : Segment → List Segment → List Segment
unfolding not_above
insert_segment s [] = s ∷ []
insert_segment s (t ∷ ss) =
    let later = t ∷ insert_segment s ss in if not_above s t then s ∷ t ∷ ss else later

unfoldable pub sort_segments : List Segment → List Segment
unfolding insert_segment
sort_segments [] = []
sort_segments (s ∷ ss) = insert_segment s (sort_segments ss)

module _ (segments : List Segment) (prefix : Bytes) where
  unfoldable pub is_below : ℕ → Bool
  unfolding prefix_compare
  is_below i = below (drop i segments)
    where
      below : List Segment → Bool
      below [] = false
      below (s ∷ ss) = is_lt (prefix_compare (s.text) prefix)

  -- The loop of `lsp_symbol_segment_lower_bound`.
  unfoldable pub search_segment : ℕ → ℕ → ℕ → ℕ
  unfolding is_below
  search_segment zero low high = low
  search_segment (suc fuel) low high =
      let mid = low + (high - low) / 2 in
      let right = search_segment fuel (mid + 1) high in
      let left = search_segment fuel low mid in
      if ltb low high then (if is_below mid then right else left) else low

  unfoldable pub segment_lower_bound : ℕ
  unfolding search_segment
  segment_lower_bound = search_segment (length segments) 0 (length segments)

-- The entries that the loop over the segments marks: it ends at the first that does not match.
unfoldable pub mark_run : Bytes → List Segment → List ℕ
unfolding prefix_compare
mark_run prefix [] = []
mark_run prefix (s ∷ ss) =
    let further = mark_run prefix ss in
    if is_eq (prefix_compare (s.text) prefix) then s.entry_index ∷ further else []

-- The loop over the segments in `lsp_symbol_match_prefix`: the entries that it marks.
unfoldable pub match_segments : List Segment → Bytes → List ℕ
unfolding segment_lower_bound mark_run
match_segments segments prefix =
    mark_run prefix (drop (segment_lower_bound segments prefix) segments)

unfoldable pub is_marked : ℕ → List ℕ → Bool
is_marked i [] = false
is_marked i (j ∷ marked) = i == j || is_marked i marked

unfoldable pub all_marked : ℕ → List Name → List ℕ
all_marked i [] = []
all_marked i (n ∷ names) = i ∷ all_marked (suc i) names

-- The loop over the entries in `lsp_symbol_match_prefix`.
unfoldable pub mark_fuzzy : ℕ → List Name → Bytes → List ℕ → List ℕ
unfolding is_marked
mark_fuzzy i [] prefix marked = marked
mark_fuzzy i (n ∷ names) prefix marked =
    let on = mark_fuzzy (suc i) names prefix (i ∷ marked) in
    let stay = mark_fuzzy (suc i) names prefix marked in
    if is_marked i marked || not (n.class_like)
    then stay
    else if symbol_fuzzy_match (n.fqcn) prefix
    then on
    else stay

unfoldable pub without_backslash : Bytes → Bytes
without_backslash [] = []
without_backslash (c ∷ prefix) = if c == 92 then prefix else c ∷ prefix

unfoldable pub table_segments : List Name → List Segment
unfolding collect_segments sort_segments
table_segments names = sort_segments (collect_segments 0 names)

-- `lsp_symbol_match_prefix`: the entries whose flag in `matched` is set, where none was before.
unfoldable pub match_prefix : List Name → Bytes → List ℕ
unfolding table_segments match_segments mark_fuzzy without_backslash
match_prefix names given =
    let prefix = without_backslash given in
    let marked = match_segments (table_segments names) prefix in
    if length prefix == 0
    then all_marked 0 names
    else if ltb (length prefix) 2
    then marked
    else mark_fuzzy 0 names prefix marked
