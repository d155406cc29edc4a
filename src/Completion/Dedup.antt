-- ===== src/Completion/Dedup.antt =====
-- The removal of items that stand twice, ext/lsp_server_symbols.c: `lsp_deduplicate_completion_items` with
-- `lsp_completion_dedup_bucket_key`.
use ext_lsparrot.Base.{
  ℕ, zero, suc, Bool, false, ◌&&◌, Option, none, some, Bytes, List, [], ◌∷◌, ◌++◌, length,
  get_elem?, ltb, if◌then◌else◌,
}
use ext_lsparrot.Base.Dict.{Dict, find, put}
use ext_lsparrot.Base.Int.{pos, int_leb}
use ext_lsparrot.Completion.{strip_dollar, item_label, same_label, type_score}
use ext_lsparrot.Zval.{Zval, Items, nil, item, index, arr, is_array, items_count}

unfoldable pub key_of_label : Option Bytes → Option Bytes
unfolding strip_dollar
key_of_label none = none
key_of_label (some label) = some (strip_dollar label)

-- `lsp_completion_dedup_bucket_key`
unfoldable pub bucket_key : Zval → Option Bytes
unfolding key_of_label item_label
bucket_key entry = key_of_label (item_label entry)

-- `label_buckets` and `deduped`; `next_index` is the number of items in the latter.
pub record Deduped : Type 0 where
  pub kept : List Zval
  pub label_buckets : Dict (List ℕ)

-- `existing && Z_TYPE_P(existing) == IS_ARRAY && lsp_completion_same_label(item, existing)`
unfoldable pub merges : Zval → Option Zval → Bool
unfolding same_label
merges entry none = false
merges entry (some existing) = is_array (some existing) && same_label entry existing

-- The loop over a bucket: the index of the item that this one is merged with.
unfoldable pub search_bucket : List ℕ → List Zval → Zval → Option ℕ
unfolding merges
search_bucket [] kept entry = none
search_bucket (i ∷ bucket) kept entry =
    let further = search_bucket bucket kept entry in
    if merges entry (get_elem? kept i) then some i else further

-- The one with the higher score stays.
unfoldable pub better_item : Zval → Zval → Zval
unfolding type_score
better_item entry existing =
    if int_leb (type_score entry) (type_score existing) then existing else entry

unfoldable pub merge_at : List Zval → ℕ → Zval → List Zval
unfolding better_item
merge_at [] i entry = []
merge_at (x ∷ kept) zero entry = better_item entry x ∷ kept
merge_at (x ∷ kept) (suc i) entry = x ∷ merge_at kept i entry

unfoldable pub or_empty : Option (List ℕ) → List ℕ
or_empty none = []
or_empty (some bucket) = bucket

unfoldable pub bucket_of : Option Bytes → Dict (List ℕ) → List ℕ
unfolding or_empty
bucket_of none buckets = []
bucket_of (some key) buckets = or_empty (find key buckets)

-- The item's index goes to the end of its bucket.
unfoldable pub add_to_bucket : Option Bytes → ℕ → Dict (List ℕ) → Dict (List ℕ)
unfolding bucket_of
add_to_bucket none i buckets = buckets
add_to_bucket (some key) i buckets = put key (bucket_of (some key) buckets ++ (i ∷ [])) buckets

unfoldable pub handled : Option ℕ → Zval → Deduped → Deduped
unfolding merge_at add_to_bucket bucket_key
handled (some i) entry d = record d { kept = merge_at (d.kept) i entry }
handled none entry d = record {
  kept = d.kept ++ (entry ∷ []);
  label_buckets = add_to_bucket (bucket_key entry) (length (d.kept)) (d.label_buckets);
}

-- The body of the loop.
unfoldable pub dedup_step : Zval → Deduped → Deduped
unfolding handled search_bucket bucket_of bucket_key
dedup_step entry d =
    if is_array (some entry)
    then handled (search_bucket (bucket_of (bucket_key entry) (d.label_buckets)) (d.kept) entry)
        entry d
    else record d { kept = d.kept ++ (entry ∷ []) }

unfoldable pub dedup_from : List Zval → Deduped → Deduped
unfolding dedup_step
dedup_from [] d = d
dedup_from (entry ∷ rest) d = dedup_from rest (dedup_step entry d)

unfoldable pub values : Items → List Zval
values nil = []
values (item k v rest) = v ∷ values rest

-- An array built by `add_next_index_zval`, from the given index.
unfoldable pub packed : ℕ → List Zval → Items
packed i [] = nil
packed i (v ∷ vs) = item (index (pos i)) v (packed (suc i) vs)

unfoldable pub deduplicated : List Zval → List Zval
unfolding dedup_from
deduplicated entries = (dedup_from entries (record { kept = []; label_buckets = [] })).kept

-- `lsp_deduplicate_completion_items`
unfoldable pub deduplicate_completion_items : Zval → Zval
unfolding values packed deduplicated
deduplicate_completion_items (arr items) =
    if ltb (items_count items) 2 then arr items else arr (packed 0 (deduplicated (values items)))
deduplicate_completion_items entries = entries
