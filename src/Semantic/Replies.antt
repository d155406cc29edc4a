-- ===== src/Semantic/Replies.antt =====
-- The three requests for semantic tokens and the cache of what was replied last for a document,
-- ext/lsp_server_semantic_tokens.c from `lsp_semantic_tokens_cache` on. The cache and the counter of
-- the result ids are file-level variables of the source.
use ext_lsparrot.Base.{
  ℕ, ◌+◌, ◌%◌, ◌^◌, Option, none, some, List, [], Bytes, bytes_eq, codes, if◌then◌else◌,
}
use ext_lsparrot.Base.Dict.{Dict, find, put, del}
use ext_lsparrot.Base.Int.{ℤ, pos, print_nat}
use ext_lsparrot.Semantic.Collect.{Bounds, collect}
use ext_lsparrot.Semantic.Edits.{TokensEdit, build_edits}
use ext_lsparrot.Tokens.{Kind}
use ext_lsparrot.Server.{Document}
use ext_lsparrot.Zval.{Zval, array_find, array_string, array_long}

pub record Snapshot : Type 0 where
  pub result_id : Bytes
  pub tokens : List ℤ

pub record Cache : Type 0 where
  pub entries : Dict Snapshot
  pub counter : ℕ

-- `SemanticTokens` and `SemanticTokensDelta`
pub data TokensReply : Type 0 where
  full_tokens : Bytes → List ℤ → TokensReply
  edits : Bytes → TokensEdit → TokensReply

-- `lsp_semantic_tokens_cache_evict`
unfoldable pub cache_evict : Bytes → Cache → Cache
cache_evict uri c = record c { entries = del uri (c.entries) }

-- `lsp_semantic_tokens_cache_clear`
unfoldable pub cache_clear : Cache → Cache
cache_clear c = record c { entries = [] }

-- `lsp_semantic_tokens_next_result_id`: the counter that is printed, a `zend_ulong`.
unfoldable pub next_counter : Cache → ℕ
next_counter c = (c.counter + 1) % 2 ^ 64

unfoldable pub next_result_id : Cache → Bytes
unfolding next_counter
next_result_id c = print_nat (next_counter c)

-- The snapshot under the next result id replaces that of the document.
unfoldable pub store : Bytes → List ℤ → Cache → Cache
unfolding next_counter next_result_id
store uri tokens c = record {
  entries = put uri (record { result_id = next_result_id c; tokens = tokens }) (c.entries);
  counter = next_counter c;
}

-- The snapshot that the request names as its last one.
unfoldable pub matched_snapshot : Option Bytes → Option Snapshot → Option (List ℤ)
matched_snapshot (some previous) (some s) =
    if bytes_eq (s.result_id) previous then some (s.tokens) else none
matched_snapshot _ _ = none

unfoldable pub delta_reply : Bytes → Option (List ℤ) → List ℤ → TokensReply
delta_reply id none tokens = full_tokens id tokens
delta_reply id (some old) tokens = edits id (build_edits old tokens)

-- `ZEND_LONG_MAX`
abbrev pub long_max : ℤ
long_max = pos 0x7fffffffffffffff

-- The bounds of `lsp_lsparrot_semantic_tokens_range`.
unfoldable pub requested_lines : Option Zval → Bounds
requested_lines params =
    let range = array_find params (codes "range") in
    record {
      line_start = array_long (array_find range (codes "start")) (codes "line") (pos 0);
      line_end = array_long (array_find range (codes "end")) (codes "line") long_max;
    }

module _ (kind_of : ℤ → Kind) where
  -- `lsp_lsparrot_semantic_tokens`
  unfoldable pub semantic_tokens : Document → Cache → TokensReply × Cache
  unfolding store next_result_id
  semantic_tokens d c =
      let tokens = collect kind_of d none in
      (full_tokens (next_result_id c) tokens, store (d.uri) tokens c)

  -- `lsp_lsparrot_semantic_tokens_range`
  unfoldable pub semantic_tokens_range : Document → Option Zval → List ℤ
  unfolding requested_lines
  semantic_tokens_range d params = collect kind_of d (some (requested_lines params))

  -- `lsp_lsparrot_semantic_tokens_full_delta`
  unfoldable pub full_delta : Document → Option Zval → Cache → TokensReply × Cache
  unfolding store next_result_id matched_snapshot delta_reply
  full_delta d params c =
      let old =
        matched_snapshot (array_string params (codes "previousResultId"))
          (find (d.uri) (c.entries)) in
      let tokens = collect kind_of d none in
      (delta_reply (next_result_id c) old tokens, store (d.uri) tokens c)
