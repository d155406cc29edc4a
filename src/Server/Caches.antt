-- ===== src/Server/Caches.antt =====
-- Cache eviction: `lsp_server_evict_document_caches` (ext/lsp_server_documents.c) and
-- `lsp_member_cache_invalidate_path` (ext/lsp_server_member_cache.c).
use ext_lsparrot.Base.{
  Bool, true, false, ◌&&◌, ◌||◌, Option, none, some, List, [], ◌∷◌, ◌++◌, ◌==◌, if◌then◌else◌,
  Bytes, bytes_eq, codes,
}
use ext_lsparrot.Base.Dict.{Dict, del}
use ext_lsparrot.Zval.{Zval, is_array, array_string}
use ext_lsparrot.Transport.Queue.{until_nul}
use ext_lsparrot.Server.{Server, semantic_tokens_evict}

unfoldable pub is_prefix : Bytes → Bytes → Bool
is_prefix [] text = true
is_prefix (p ∷ prefix) [] = false
is_prefix (p ∷ prefix) (c ∷ text) = p == c && is_prefix prefix text

-- `strstr(text, needle) != NULL`, of texts without a NUL
unfoldable pub contains : Bytes → Bytes → Bool
unfolding is_prefix
contains [] needle = is_prefix needle []
contains (c ∷ text) needle = is_prefix needle (c ∷ text) || contains text needle

-- The key of a cache entry mentions the document: it contains ":uri:".
unfoldable pub mentions : Bytes → Bytes → Bool
unfolding contains until_nul
mentions uri key = contains (until_nul key) (codes ":" ++ (until_nul uri ++ codes ":"))

-- The loop over a table that deletes the entries whose key passes the test.
unfoldable pub delete_keys : (Bytes → Bool) → Dict Zval → Dict Zval
delete_keys test [] = []
delete_keys test ((k, v) ∷ cache) =
    if test k then delete_keys test cache else (k, v) ∷ delete_keys test cache

unfoldable pub evict_document_caches : Bytes → Bool → Server → Server
unfolding delete_keys
evict_document_caches uri include_type_cache server = record server {
  completion_cache = delete_keys (mentions uri) server.completion_cache;
  type_cache =
      if include_type_cache
      then delete_keys (mentions uri) server.type_cache
      else server.type_cache;
  effects =
      if include_type_cache
      then server.effects ++ semantic_tokens_evict uri ∷ []
      else server.effects;
}

abbrev pub has_path : Bytes → Option Bytes → Bool
has_path path none = false
has_path path (some entry_path) = bytes_eq entry_path path

-- An entry that was built from the file.
unfoldable pub built_from : Bytes → Zval → Bool
built_from path entry =
    is_array (some entry) && has_path path (array_string (some entry) (codes "path"))

-- The first loop: the keys of those entries, in their order.
unfoldable pub doomed_keys : Bytes → Dict Zval → List Bytes
unfolding built_from
doomed_keys path [] = []
doomed_keys path ((k, entry) ∷ cache) =
    if built_from path entry then k ∷ doomed_keys path cache else doomed_keys path cache

-- The second loop deletes by key.
unfoldable pub delete_all : List Bytes → Dict Zval → Dict Zval
delete_all [] cache = cache
delete_all (k ∷ keys) cache = delete_all keys (del k cache)

unfoldable pub member_cache_invalidate_path : Bytes → Server → Server
unfolding doomed_keys delete_all
member_cache_invalidate_path path server = record server {
  member_cache = delete_all (doomed_keys path server.member_cache) server.member_cache;
}
