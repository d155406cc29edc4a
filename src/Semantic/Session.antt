-- ===== src/Semantic/Session.antt =====
-- A client of the semantic tokens of one document, beside other clients and documents: its use of
-- the requests of ext/lsp_server_semantic_tokens.c, and the evictions of the cache.
use ext_lsparrot.Base.{◌≡◌, Option, none, some, List, [], ◌∷◌, Bytes, codes}
use ext_lsparrot.Base.Int.{ℤ}
use ext_lsparrot.Tokens.{Kind}
use ext_lsparrot.Semantic.Replies.{
  Cache, TokensReply, full_tokens, edits, cache_evict, cache_clear, semantic_tokens, full_delta,
}
use ext_lsparrot.Semantic.Splice.{apply_edit}
use ext_lsparrot.Server.{Document}
use ext_lsparrot.Zval.{Zval, nil, item, name, str, arr}

-- The tokens that a client holds, with their result id.
pub record Held : Type 0 where
  pub id : Bytes
  pub tokens : List ℤ

-- What the client makes of a reply.
unfoldable pub receive : Option Held → TokensReply → Option Held
receive held (full_tokens id tokens) = some (record { id = id; tokens = tokens })
receive none (edits id e) = none
receive (some h) (edits id e) = some (record { id = id; tokens = apply_edit e (h.tokens) })

-- The parameters of its request: it names the result that it holds.
unfoldable pub request_params : Option Held → Option Zval
request_params none = none
request_params (some h) = some (arr (item (name (codes "previousResultId")) (str (h.id)) nil))

-- What happens to the cache: the client's own requests for the document in its present state, and
-- requests of others for any document, closed documents, and the end of the cache.
pub data Action : Type 0 where
  refresh reload : Document → Action
  others_delta : Document → Option Zval → Action
  others_full : Document → Action
  evict : Bytes → Action
  clear : Action

pub record Session : Type 0 where
  pub held : Option Held
  pub cache : Cache

unfoldable pub new_session : Session
new_session = record { held = none; cache = record { entries = []; counter = 0 } }

module _ (kind_of : ℤ → Kind) where
  unfoldable pub answered : Option Held → TokensReply × Cache → Session
  unfolding receive
  answered held (reply, c) = record { held = receive held reply; cache = c }

  unfoldable pub act : Action → Session → Session
  unfolding answered request_params semantic_tokens full_delta cache_evict cache_clear
  act (refresh d) s = answered (s.held) (full_delta kind_of d (request_params (s.held)) (s.cache))
  act (reload d) s = answered (s.held) (semantic_tokens kind_of d (s.cache))
  act (others_delta d params) s = record {
    held = s.held;
    cache = (full_delta kind_of d params (s.cache)).1;
  }
  act (others_full d) s = record { held = s.held; cache = (semantic_tokens kind_of d (s.cache)).1 }
  act (evict uri) s = record { held = s.held; cache = cache_evict uri (s.cache) }
  act clear s = record { held = s.held; cache = cache_clear (s.cache) }

  unfoldable pub run : List Action → Session → Session
  unfolding act
  run [] s = s
  run (a ∷ rest) s = run rest (act a s)

-- The client asks for the tokens of one document only.
abbrev pub AsksFor : Bytes → Action → Type 0
AsksFor uri (refresh d) = d.uri ≡ uri
AsksFor uri (reload d) = d.uri ≡ uri
AsksFor uri (others_delta d params) = Unit {0}
AsksFor uri (others_full d) = Unit {0}
AsksFor uri (evict u) = Unit {0}
AsksFor uri clear = Unit {0}
