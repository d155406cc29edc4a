-- ===== src/Completion/Positions.antt =====
-- The indexes of the items with a key, and the search among them, ext/lsp_server_symbols.c:
-- `lsp_deduplicate_completion_items`.
use ext_lsparrot.Base.{
  ℕ, zero, suc, ◌+◌, ◌≤◌, ◌≡◌, ◌≢◌, refl, sym, ap, ◌∙◌, inl, inr, Bool, true, false, ◌&&◌, Option,
  none, some, Bytes, List, [], ◌∷◌, ◌++◌, append_assoc, Bool-cases, arith, length, length-append,
  get_elem?, bytes_eq, bytes_eq_refl, bytes_eq→eq, if◌then◌else◌,
}
use ext_lsparrot.Base.Dict.{none≢some}
use ext_lsparrot.Base.Int.{int_leb}
use ext_lsparrot.Completion.{strip_dollar, item_label, same_label, same_label_of, type_score}
use ext_lsparrot.Completion.Dedup.{
  key_of_label, bucket_key, merges, search_bucket, better_item, merge_at,
}
use ext_lsparrot.Zval.{Zval, is_array}

-- The search through all items that are kept.
unfoldable pub search_all : ℕ → List Zval → Zval → Option ℕ
unfolding merges
search_all i [] entry = none
search_all i (x ∷ kept) entry =
    let further = search_all (suc i) kept entry in if merges entry (some x) then some i else further

unfoldable pub keep : Option ℕ → Zval → List Zval → List Zval
unfolding merge_at
keep (some i) entry kept = merge_at kept i entry
keep none entry kept = kept ++ (entry ∷ [])

-- Each item is merged with the first one of those kept that has its label, and kept if there is none.
unfoldable pub merge_all : List Zval → List Zval → List Zval
unfolding search_all keep
merge_all [] kept = kept
merge_all (entry ∷ rest) kept = merge_all rest (
    if is_array (some entry)
    then keep (search_all 0 kept entry) entry kept
    else kept ++ (entry ∷ []))

-- The key of a bucket, if the item has it.
unfoldable pub has_key : Bytes → Option Bytes → Bool
has_key key none = false
has_key key (some k) = bytes_eq k key

-- The indexes of the items that have the key, in order.
unfoldable pub positions : Bytes → ℕ → List Zval → List ℕ
unfolding has_key
positions key i [] = []
positions key i (x ∷ kept) =
    let further = positions key (suc i) kept in
    if has_key key (bucket_key x) then i ∷ further else further

middle_true : (a b c : Bool) → (a && b && c) ≡ true → b ≡ true
middle_true a b c h = ground arith

second_true : (a b : Bool) → (a && b) ≡ true → b ≡ true
second_true a b h = ground arith

-- Items of one label have one key.
same_label_of-key :
    (l r : Option Bytes) (left right : Zval)
    → same_label_of l r left right ≡ true
    → key_of_label l ≡ key_of_label r
unfolding same_label_of key_of_label
same_label_of-key (some l) (some r) left right h =
    ap some (bytes_eq→eq (strip_dollar l) (strip_dollar r) (middle_true _ _ _ h))
same_label_of-key (some l) none left right h = cc
same_label_of-key none (some r) left right h = cc
same_label_of-key none none left right h = cc

merges-key : (entry x : Zval) → merges entry (some x) ≡ true → bucket_key entry ≡ bucket_key x
unfolding merges same_label bucket_key
merges-key entry x h =
    same_label_of-key (item_label entry) (item_label x) entry x (second_true _ _ h)

no_key :
    (l r : Option Bytes) (left right : Zval)
    → key_of_label l ≡ none
    → same_label_of l r left right ≡ false
unfolding same_label_of key_of_label
no_key (some l) r left right h = absurd (none≢some _ (sym h))
no_key none r left right h = refl

and_false : (a b : Bool) → b ≡ false → (a && b) ≡ false
and_false a b h = ground arith

merges-no_key : (entry x : Zval) → bucket_key entry ≡ none → merges entry (some x) ≡ false
unfolding merges same_label bucket_key
merges-no_key entry x h =
    and_false (is_array (some x)) _ (no_key (item_label entry) (item_label x) entry x h)

pub search_all-no_key :
    (i : ℕ) (kept : List Zval) (entry : Zval)
    → bucket_key entry ≡ none
    → search_all i kept entry ≡ none
unfolding search_all
search_all-no_key i [] entry h = refl
search_all-no_key i (x ∷ kept) entry h =
    rw (merges-no_key entry x h) (search_all-no_key (suc i) kept entry h)

get_elem?-append :
    (pre : List Zval) (x : Zval) (rest : List Zval)
    → get_elem? (pre ++ x ∷ rest) (length pre) ≡ some x
get_elem?-append [] x rest = refl
get_elem?-append (y ∷ pre) x rest = get_elem?-append pre x rest

true≢false : true ≢ false
true≢false h = cc

-- An item without the key is not merged with one that has it.
lacks_key :
    (key : Bytes) (entry x : Zval)
    → bucket_key entry ≡ some key
    → has_key key (bucket_key x) ≡ false
    → merges entry (some x) ≡ false
unfolding has_key
lacks_key key entry x h lacks = elim (Bool-cases (merges entry (some x))) [
  | inl merged ↦
      let same : bucket_key x ≡ some key = sym (merges-key entry x merged) ∙ h in
      let has : has_key key (bucket_key x) ≡ true = rw same (bytes_eq_refl key) in
      absurd (true≢false (sym has ∙ lacks))
  | inr apart ↦ apart
]

-- The bucket of the key has every item with which the entry can be merged.
pub search_bucket-positions :
    (key : Bytes) (pre kept : List Zval) (entry : Zval)
    → bucket_key entry ≡ some key
    → search_bucket (positions key (length pre) kept) (pre ++ kept) entry
      ≡ search_all (length pre) kept entry
unfolding search_bucket positions search_all has_key
search_bucket-positions key pre [] entry h = refl
search_bucket-positions key pre (x ∷ kept) entry h =
    let size : length (pre ++ x ∷ []) ≡ suc (length pre) =
      omega (arith, length-append {0} pre (x ∷ [])) in
    let ih = search_bucket-positions key (pre ++ x ∷ []) kept entry h in
    let shifted : search_bucket (positions key (suc (length pre)) kept) (pre ++ x ∷ kept) entry
        ≡ search_all (suc (length pre)) kept entry =
      rw (size, append_assoc pre (x ∷ []) kept) at ih in
    elim (Bool-cases (has_key key (bucket_key x))) [
      | inl has ↦
          rw (has, get_elem?-append pre x kept)
            (ap (λ (r : Option ℕ). if merges entry (some x) then some (length pre) else r) shifted)
      | inr lacks ↦ rw (lacks, lacks_key key entry x h lacks) shifted
    ]

search_all-le :
    (i : ℕ) (kept : List Zval) (entry : Zval) (n : ℕ) → search_all i kept entry ≡ some n → i ≤ n
unfolding search_all
search_all-le i [] entry n h = absurd (none≢some n h)
search_all-le i (x ∷ kept) entry n h = elim (Bool-cases (merges entry (some x))) [
  | inl here ↦ let h' : some i ≡ some n = rw here at h in let e : i ≡ n = cc in omega arith
  | inr later ↦
      let h' : search_all (suc i) kept entry ≡ some n = rw later at h in
      let le = search_all-le (suc i) kept entry n h' in omega arith
]

better_item-key :
    (entry x : Zval)
    → merges entry (some x) ≡ true
    → bucket_key (better_item entry x) ≡ bucket_key x
unfolding better_item
better_item-key entry x h = elim (Bool-cases (int_leb (type_score entry) (type_score x))) [
  | inl old ↦ rw old refl
  | inr new ↦ rw new (merges-key entry x h)
]

-- An item that is merged has the key of the one that it replaces.
pub positions-merge_at :
    (key : Bytes) (i j : ℕ) (kept : List Zval) (entry : Zval)
    → search_all i kept entry ≡ some (i + j)
    → positions key i (merge_at kept j entry) ≡ positions key i kept
unfolding positions merge_at search_all
positions-merge_at key i j [] entry h = refl
positions-merge_at key i zero (x ∷ kept) entry h = elim (Bool-cases (merges entry (some x))) [
  | inl here ↦ rw (better_item-key entry x here) refl
  | inr later ↦
      let h' : search_all (suc i) kept entry ≡ some (i + 0) = rw later at h in
      let le = search_all-le (suc i) kept entry (i + 0) h' in absurd (omega arith)
]
positions-merge_at key i (suc j) (x ∷ kept) entry h = elim (Bool-cases (merges entry (some x))) [
  | inl here ↦
      let h' : some i ≡ some (i + suc j) = rw here at h in
      let e : i ≡ i + suc j = cc in absurd (omega arith)
  | inr later ↦
      let h' : search_all (suc i) kept entry ≡ some (i + suc j) = rw later at h in
      let e : i + suc j ≡ suc i + j = omega arith in
      let ih = positions-merge_at key (suc i) j kept entry (h' ∙ ap some e) in
      ap (λ (r : List ℕ). if has_key key (bucket_key x) then i ∷ r else r) ih
]

pub positions-append :
    (key : Bytes) (i : ℕ) (kept : List Zval) (entry : Zval)
    → positions key i (kept ++ entry ∷ [])
      ≡ positions key i kept
        ++ (if has_key key (bucket_key entry) then (i + length kept) ∷ [] else [])
unfolding positions
positions-append key i [] entry = rw (let e : i + 0 ≡ i = omega arith in e) refl
positions-append key i (x ∷ kept) entry =
    let next : i + suc (length kept) ≡ suc i + length kept = omega arith in
    elim (Bool-cases (has_key key (bucket_key x))) [
      | inl has ↦
          rw (has, next) (ap (λ (r : List ℕ). i ∷ r) (positions-append key (suc i) kept entry))
      | inr lacks ↦ rw (lacks, next) (positions-append key (suc i) kept entry)
    ]
