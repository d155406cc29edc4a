-- ===== src/Completion/Buckets.antt =====
-- The search in buckets of ext/lsp_server_symbols.c (`lsp_deduplicate_completion_items`) keeps what a search
-- through all items would keep.
use ext_lsparrot.Base.{
  ℕ, ◌+◌, ◌≡◌, refl, sym, ap, ◌∙◌, inl, inr, Bool, true, false, Option, none, some, Bytes, List, [],
  ◌∷◌, ◌++◌, append-nil, Bool-cases, arith, length, bytes_eq, bytes_eq→eq, if◌then◌else◌,
}
use ext_lsparrot.Base.Dict.{Dict, find, find-put}
use ext_lsparrot.Completion.{item_label}
use ext_lsparrot.Completion.Dedup.{
  or_empty, key_of_label, bucket_key, Deduped, search_bucket, bucket_of, add_to_bucket, handled,
  dedup_step, dedup_from, deduplicated,
}
use ext_lsparrot.Completion.Positions.{
  search_all, keep, merge_all, has_key, positions, search_all-no_key, search_bucket-positions,
  positions-merge_at, positions-append,
}
use ext_lsparrot.Zval.{
  Zval, undef, null, bool, long, double, str, arr, is_array, array_string, array_find, string_value,
}

-- Every bucket holds the indexes of the items that have its key.
abbrev Indexes : Dict (List ℕ) → List Zval → Type 0
Indexes buckets kept = (key : Bytes) → bucket_of (some key) buckets ≡ positions key 0 kept

add_to_bucket-positions :
    (key : Bytes) (k : Option Bytes) (i : ℕ) (buckets : Dict (List ℕ))
    → bucket_of (some key) (add_to_bucket k i buckets)
      ≡ bucket_of (some key) buckets ++ (if has_key key k then i ∷ [] else [])
unfolding bucket_of add_to_bucket has_key
add_to_bucket-positions key none i buckets = sym (append-nil _)
add_to_bucket-positions key (some k) i buckets =
    let old = or_empty (find k buckets) in
    ap or_empty (find-put k key (old ++ i ∷ []) buckets) ∙ (elim (Bool-cases (bytes_eq k key)) [
      | inl same ↦ rw (same, bytes_eq→eq k key same) refl
      | inr apart ↦ rw apart (sym (append-nil (or_empty (find key buckets))))
    ])

-- One round keeps the indexes, and what it keeps is what the search through all items gives.
handled-keep :
    (o : Option ℕ) (entry : Zval) (d : Deduped) → (handled o entry d).kept ≡ keep o entry (d.kept)
unfolding handled keep
handled-keep none entry d = refl
handled-keep (some i) entry d = refl

search_same :
    (k : Option Bytes) (entry : Zval) (d : Deduped)
    → bucket_key entry ≡ k
    → Indexes (d.label_buckets) (d.kept)
    → search_bucket (bucket_of k (d.label_buckets)) (d.kept) entry ≡ search_all 0 (d.kept) entry
unfolding search_bucket bucket_of
search_same none entry d h inv = sym (search_all-no_key 0 (d.kept) entry h)
search_same (some key) entry d h inv =
    ap (λ (b : List ℕ). search_bucket b (d.kept) entry) (inv key)
    ∙ search_bucket-positions key [] (d.kept) entry h

handled-Indexes :
    (o : Option ℕ) (entry : Zval) (d : Deduped)
    → search_all 0 (d.kept) entry ≡ o
    → Indexes (d.label_buckets) (d.kept)
    → Indexes ((handled o entry d).label_buckets) ((handled o entry d).kept)
unfolding handled
handled-Indexes (some i) entry d found inv key =
    inv key
    ∙ sym (
        positions-merge_at key 0 i (d.kept) entry
          (found ∙ ap some (let e : i ≡ 0 + i = omega arith in e)))
handled-Indexes none entry d found inv key =
    add_to_bucket-positions key (bucket_key entry) (length (d.kept)) (d.label_buckets)
    ∙ ap
        (λ (b : List ℕ). b ++ (if has_key key (bucket_key entry) then length (d.kept) ∷ [] else []))
        (inv key)
    ∙ sym (
        positions-append key 0 (d.kept) entry
        ∙ rw (let e : 0 + length (d.kept) ≡ length (d.kept) = omega arith in e) refl)

plain-no_key : (entry : Zval) → is_array (some entry) ≡ false → bucket_key entry ≡ none
unfolding is_array bucket_key key_of_label item_label array_string array_find string_value
plain-no_key undef h = refl
plain-no_key null h = refl
plain-no_key (bool b) h = refl
plain-no_key (long n) h = refl
plain-no_key (double x) h = refl
plain-no_key (str x) h = refl
plain-no_key (arr items) h = cc

none-Indexes : Indexes [] []
unfolding bucket_of positions find
none-Indexes key = refl

plain-Indexes :
    (entry : Zval) (d : Deduped)
    → is_array (some entry) ≡ false
    → Indexes (d.label_buckets) (d.kept)
    → Indexes (d.label_buckets) (d.kept ++ entry ∷ [])
unfolding has_key
plain-Indexes entry d plain inv key =
    inv key
    ∙ sym (
        positions-append key 0 (d.kept) entry
        ∙ rw (plain-no_key entry plain) (append-nil (positions key 0 (d.kept))))

dedup_step_array :
    (entry : Zval) (d : Deduped)
    → is_array (some entry) ≡ true
    → dedup_step entry d
      ≡ handled
          (search_bucket (bucket_of (bucket_key entry) (d.label_buckets)) (d.kept) entry)
          entry
          d
unfolding dedup_step
dedup_step_array entry d h = rw h refl

dedup_step_plain :
    (entry : Zval) (d : Deduped)
    → is_array (some entry) ≡ false
    → dedup_step entry d ≡ record { kept = d.kept ++ entry ∷ []; label_buckets = d.label_buckets }
unfolding dedup_step
dedup_step_plain entry d h = rw h refl

branch : (b c : Bool) (x y : List Zval) → b ≡ c → (if c then x else y) ≡ (if b then x else y)
branch b c x y h = rw h refl

dedup_from-merge_all :
    (entries : List Zval) (d : Deduped)
    → Indexes (d.label_buckets) (d.kept)
    → (dedup_from entries d).kept ≡ merge_all entries (d.kept)
unfolding dedup_from merge_all
dedup_from-merge_all [] d inv = refl
dedup_from-merge_all (entry ∷ rest) d inv =
    let both = keep (search_all 0 (d.kept) entry) entry (d.kept) in
    let alone = d.kept ++ entry ∷ [] in
    elim (Bool-cases (is_array (some entry))) [
      | inl array ↦
          let o = search_bucket (bucket_of (bucket_key entry) (d.label_buckets)) (d.kept) entry in
          let found : o ≡ search_all 0 (d.kept) entry =
            search_same (bucket_key entry) entry d refl inv in
          ap (λ (x : Deduped). (dedup_from rest x).kept) (dedup_step_array entry d array)
          ∙ dedup_from-merge_all rest (handled o entry d)
              (handled-Indexes o entry d (sym found) inv)
          ∙ ap (merge_all rest) (
              handled-keep o entry d
              ∙ ap (λ (r : Option ℕ). keep r entry (d.kept)) found
              ∙ branch (is_array (some entry)) true both alone array)
      | inr plain ↦
          ap (λ (x : Deduped). (dedup_from rest x).kept) (dedup_step_plain entry d plain)
          ∙ dedup_from-merge_all rest
              (record { kept = d.kept ++ entry ∷ []; label_buckets = d.label_buckets })
              (plain-Indexes entry d plain inv)
          ∙ ap (merge_all rest) (branch (is_array (some entry)) false both alone plain)
    ]

-- The search in buckets gives what the search through all items gives: each item is merged with the
-- first one kept before that has its label, where the higher score stays, and kept if there is none.
pub deduplicated-merge_all : (entries : List Zval) → deduplicated entries ≡ merge_all entries []
unfolding deduplicated
deduplicated-merge_all entries =
    dedup_from-merge_all entries (record { kept = []; label_buckets = [] }) none-Indexes
