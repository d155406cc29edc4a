-- ===== src/Server/Evict.antt =====
-- What is left of the caches: `lsp_did_close`, `lsp_server_evict_document_caches` and
-- `lsp_member_cache_invalidate_path`.
use ext_lsparrot.Base.{
  ◌≡◌, refl, Bool, false, inl, inr, Bool-cases, Option, none, some, [], ◌∷◌, if◌then◌else◌, Bytes,
  codes, bytes_eq, List, ◌||◌, ◌&&◌, true, sym, ◌∙◌, ap, bytes_eq→eq, bytes_eq_iff, arith,
}
use ext_lsparrot.Base.Dict.{Dict, find, find-del, del}
use ext_lsparrot.Zval.{
  Zval, str, arr, undef, null, bool, long, double, is_array, string_value, array_find, array_string,
}
use ext_lsparrot.Server.{Server}
use ext_lsparrot.Server.Caches.{
  mentions, delete_keys, evict_document_caches, built_from, has_path, doomed_keys, delete_all,
  member_cache_invalidate_path,
}
use ext_lsparrot.Server.Sync.{text_document, close_document, did_close}

pub find-delete_keys :
    (test : Bytes → Bool) (k : Bytes) (cache : Dict Zval)
    → find k (delete_keys test cache) ≡ (if test k then none else find k cache)
unfolding find delete_keys
find-delete_keys test k [] = elim (Bool-cases (test k)) [ inl t ↦ rw t refl | inr f ↦ rw f refl ]
find-delete_keys test k ((j, v) ∷ cache) =
    ground (arith, bytes_eq_iff j k, find-delete_keys test k cache)

-- Closing a document takes it off the table, takes every cache entry that mentions it out of the
-- completion cache and the type cache, and leaves every other document and entry as it was.
pub did_close-caches :
    (params : Option Zval) (uri : Bytes) (server : Server)
    → array_string (text_document params) (codes "uri") ≡ some uri
    → (k : Bytes)
    → (find k (did_close params server).documents
        ≡ (if bytes_eq uri k then none else find k server.documents))
      × (find k (did_close params server).completion_cache
          ≡ (if mentions uri k then none else find k server.completion_cache))
      × (find k (did_close params server).type_cache
          ≡ (if mentions uri k then none else find k server.type_cache))
unfolding did_close close_document evict_document_caches
did_close-caches params uri server named k =
    rw (did_close, named)
      (
        find-del uri k server.documents,
        find-delete_keys (mentions uri) k server.completion_cache,
        find-delete_keys (mentions uri) k server.type_cache,
      )

-- The key stands among the keys.
abbrev among : Bytes → List Bytes → Bool
among k [] = false
among k (j ∷ keys) = bytes_eq j k || among k keys

either_none :
    (b : Bool) → let missing : Option Zval = none in (if b then missing else missing) ≡ missing
either_none true = refl
either_none false = refl

find-delete_all :
    (keys : List Bytes) (k : Bytes) (cache : Dict Zval)
    → find k (delete_all keys cache) ≡ (if among k keys then none else find k cache)
unfolding delete_all
find-delete_all [] k cache = refl
find-delete_all (j ∷ keys) k cache =
    let later = find-delete_all keys k (del j cache) in
    later ∙ elim (Bool-cases (bytes_eq j k)) [
      | inl same ↦ rw (find-del j k cache, same) (either_none (among k keys))
      | inr other ↦ rw (find-del j k cache, other) refl
    ]

-- No two entries have the same key, as in every hash table.
abbrev pub HasDistinctKeys : Dict Zval → Type 0
HasDistinctKeys [] = Unit
HasDistinctKeys ((k, entry) ∷ cache) = (find k cache ≡ none) × HasDistinctKeys cache

-- The entry is an array that names the file as its path.
abbrev pub IsBuiltFrom : Bytes → Zval → Type 0
IsBuiltFrom path entry = array_find (some entry) (codes "path") ≡ some (str path)

IsBuiltFrom→built_from :
    (path : Bytes) (entry : Zval) → IsBuiltFrom path entry → built_from path entry ≡ true
unfolding built_from is_array array_string
IsBuiltFrom→built_from path entry h = array_only entry h
  where
    array_only :
        (e : Zval)
        → IsBuiltFrom path e
        → (is_array (some e) && has_path path (array_string (some e) (codes "path"))) ≡ true
    array_only (arr items) h = unfold string_value in rw h ((bytes_eq_iff path path).1 refl)
    array_only undef h = unfold array_find in cc
    array_only null h = unfold array_find in cc
    array_only (bool x) h = unfold array_find in cc
    array_only (long x) h = unfold array_find in cc
    array_only (double x) h = unfold array_find in cc
    array_only (str x) h = unfold array_find in cc

has_path-str :
    (path : Bytes) (value : Option Zval)
    → has_path path (string_value value) ≡ true
    → value ≡ some (str path)
unfolding string_value
has_path-str path (some (str s)) h = ap (λ t. some (str t)) (bytes_eq→eq s path h)
has_path-str path none h = cc
has_path-str path (some undef) h = cc
has_path-str path (some null) h = cc
has_path-str path (some (bool x)) h = cc
has_path-str path (some (long x)) h = cc
has_path-str path (some (double x)) h = cc
has_path-str path (some (arr x)) h = cc

both_hold : (a b : Bool) → (a && b) ≡ true → b ≡ true
both_hold a b h = ground arith

built_from→IsBuiltFrom :
    (path : Bytes) (entry : Zval) → built_from path entry ≡ true → IsBuiltFrom path entry
unfolding built_from array_string
built_from→IsBuiltFrom path entry h =
    has_path-str path (array_find (some entry) (codes "path")) (
      both_hold (is_array (some entry)) (has_path path (array_string (some entry) (codes "path")))
        h)

among-missing :
    (path : Bytes) (cache : Dict Zval) (k : Bytes)
    → find k cache ≡ none
    → among k (doomed_keys path cache) ≡ false
unfolding doomed_keys find
among-missing path [] k missing = refl
among-missing path ((j, entry) ∷ cache) k missing = ground (arith, among-missing path cache k)

among-found :
    (path : Bytes) (cache : Dict Zval) (k : Bytes) (entry : Zval)
    → HasDistinctKeys cache
    → find k cache ≡ some entry
    → among k (doomed_keys path cache) ≡ built_from path entry
unfolding doomed_keys find
among-found path [] k entry distinct found = cc
among-found path ((j, e) ∷ cache) k entry (alone, distinct) found =
    elim (Bool-cases (bytes_eq j k)) [
      | inl same ↦
          let missing : find k cache ≡ none = rw (sym (bytes_eq→eq j k same)) alone in
          let found' = rw same at found in
          let it : e ≡ entry = cc in
          let later = among-missing path cache k missing in
          rw (sym it) (elim (Bool-cases (built_from path e)) [
            | inl built ↦ rw (built, same) refl
            | inr other ↦ rw (other, later) refl
          ])
      | inr apart ↦
          let later = among-found path cache k entry distinct (rw apart at found) in
          elim (Bool-cases (built_from path e)) [
            | inl built ↦ rw (built, apart) later
            | inr other ↦ rw other later
          ]
    ]

-- What is under a key that is not to go.
find-kept :
    (path : Bytes) (cache : Dict Zval) (k : Bytes)
    → HasDistinctKeys cache
    → ((entry : Zval) → find k cache ≡ some entry → ¬ IsBuiltFrom path entry)
    → (now : Option Zval) → find k cache ≡ now
    → among k (doomed_keys path cache) ≡ false
find-kept path cache k distinct stays none e = among-missing path cache k e
find-kept path cache k distinct stays (some entry) e = elim (Bool-cases (built_from path entry)) [
  | inl built ↦ absurd (stays entry e (built_from→IsBuiltFrom path entry built))
  | inr other ↦ among-found path cache k entry distinct e ∙ other
]

-- Of the entries of the member cache, whose keys are distinct, those that were built from the file
-- cannot be found any more, and under every other key there is what was there before.
pub member_cache_invalidate_path_lem :
    (path : Bytes) (server : Server)
    → HasDistinctKeys (server.member_cache)
    → let after = (member_cache_invalidate_path path server).member_cache in
      ((k : Bytes) (entry : Zval)
        → find k server.member_cache ≡ some entry
        → IsBuiltFrom path entry
        → find k after ≡ none)
      × ((k : Bytes)
          → ((entry : Zval) → find k server.member_cache ≡ some entry → ¬ IsBuiltFrom path entry)
          → find k after ≡ find k server.member_cache)
unfolding member_cache_invalidate_path
member_cache_invalidate_path_lem path server distinct =
    let cache = server.member_cache in
    let doomed = doomed_keys path cache in
    (
      λ k entry found built.
          let goes =
            among-found path cache k entry distinct found
            ∙ IsBuiltFrom→built_from path entry built in
          find-delete_all doomed k cache ∙ rw goes refl,
      λ k stays.
          find-delete_all doomed k cache ∙ rw (find-kept path cache k distinct stays _ refl) refl,
    )
