-- ===== src/Semantic/Edits.antt =====
-- The edit between two replies, ext/lsp_server_semantic_tokens.c: `lsp_semantic_tokens_group_equal`
-- and `lsp_semantic_tokens_build_edits`. The tables are flat arrays of numbers, five for a token; an
-- index below 2^32 does not wrap.
use ext_lsparrot.Base.{
  ℕ, zero, suc, ◌+◌, ◌-◌, ◌*◌, ◌/◌, Bool, false, ◌&&◌, Option, some, List, [], ◌∷◌, ltb, length,
  get_elem?, get_or, if◌then◌else◌,
}
use ext_lsparrot.Base.Int.{ℤ, pos, int_eq}

-- `!va || !vb || ... || Z_LVAL_P(va) != Z_LVAL_P(vb)`, negated
unfoldable pub longs_equal : Option ℤ → Option ℤ → Bool
longs_equal (some a) (some b) = int_eq a b
longs_equal _ _ = false

unfoldable pub group_equal : List ℤ → ℕ → List ℤ → ℕ → Bool
unfolding longs_equal
group_equal a group_a b group_b =
    longs_equal (get_elem? a (group_a * 5)) (get_elem? b (group_b * 5))
    && longs_equal (get_elem? a (group_a * 5 + 1)) (get_elem? b (group_b * 5 + 1))
    && longs_equal (get_elem? a (group_a * 5 + 2)) (get_elem? b (group_b * 5 + 2))
    && longs_equal (get_elem? a (group_a * 5 + 3)) (get_elem? b (group_b * 5 + 3))
    && longs_equal (get_elem? a (group_a * 5 + 4)) (get_elem? b (group_b * 5 + 4))

-- The first loop, from `prefix`; the first argument is `max_common - prefix`.
unfoldable pub prefix_from : ℕ → List ℤ → List ℤ → ℕ → ℕ
unfolding group_equal
prefix_from zero old new prefix = prefix
prefix_from (suc left) old new prefix =
    let further = prefix_from left old new (suc prefix) in
    if group_equal old prefix new prefix then further else prefix

-- The second loop, from `suffix`; the first argument is `max_common - suffix`.
unfoldable pub suffix_from : ℕ → List ℤ → List ℤ → ℕ → ℕ → ℕ → ℕ
unfolding group_equal
suffix_from zero old new old_groups new_groups suffix = suffix
suffix_from (suc left) old new old_groups new_groups suffix =
    let further = suffix_from left old new old_groups new_groups (suc suffix) in
    if group_equal old (old_groups - 1 - suffix) new (new_groups - 1 - suffix)
    then further
    else suffix

-- The loop that copies the groups, from the group `i`; the first argument counts those to come.
unfoldable pub copy_groups : ℕ → List ℤ → ℕ → List ℤ
copy_groups zero new i = []
copy_groups (suc left) new i =
    get_or new (i * 5) (pos 0)
    ∷ get_or new (i * 5 + 1) (pos 0)
    ∷ get_or new (i * 5 + 2) (pos 0)
    ∷ get_or new (i * 5 + 3) (pos 0)
    ∷ get_or new (i * 5 + 4) (pos 0)
    ∷ copy_groups left new (suc i)

-- A `SemanticTokensEdit`.
pub record TokensEdit : Type 0 where
  pub start : ℕ
  pub delete_count : ℕ
  pub inserted : List ℤ

unfoldable pub max_common : List ℤ → List ℤ → ℕ
max_common old new =
    if ltb (length old / 5) (length new / 5) then length old / 5 else length new / 5

unfoldable pub common_prefix : List ℤ → List ℤ → ℕ
unfolding prefix_from max_common
common_prefix old new = prefix_from (max_common old new) old new 0

unfoldable pub common_suffix : List ℤ → List ℤ → ℕ
unfolding suffix_from max_common common_prefix
common_suffix old new =
    suffix_from (max_common old new - common_prefix old new) old new (length old / 5)
      (length new / 5) 0

unfoldable pub build_edits : List ℤ → List ℤ → TokensEdit
unfolding common_prefix common_suffix copy_groups
build_edits old new = record {
  start = common_prefix old new * 5;
  delete_count = (length old / 5 - common_prefix old new - common_suffix old new) * 5;
  inserted =
      copy_groups (length new / 5 - common_suffix old new - common_prefix old new) new
        (common_prefix old new);
}
