-- ===== src/Server/Written.antt =====
-- What the server writes for a reply (ext/lsp_server_documents.c): `lsp_protocol_write`,
-- `lsp_protocol_respond_raw`, `lsp_protocol_respond` and `lsp_protocol_error`. `php_json_encode` is the
-- parameter `encode`, none where it fails. Each text is the body of a frame.
use ext_lsparrot.Base.{
  ◌≡◌, ◌⊎◌, Option, none, some, List, [], ◌∷◌, ◌++◌, ◌==◌, if◌then◌else◌, Bytes, codes,
}
use ext_lsparrot.Zval.{
  Zval, null, long, str, arr, nil, item, name, array_find, array_string, items_count,
}
use ext_lsparrot.Transport.{Transport}
use ext_lsparrot.Server.{Server}
use ext_lsparrot.Server.Loop.{Reply, respond, error}

-- What is written where the payload cannot be encoded; it has no id.
abbrev pub fallback : Bytes
fallback =
    codes
      "{\"jsonrpc\":\"2.0\",\"error\":{\"code\":-32603,\"message\":\"Failed to encode response\"}}"

abbrev pub id_or_null : Option Zval → Zval
id_or_null none = null
id_or_null (some id) = id

abbrev pub envelope : Option Zval → Bytes → Zval → Zval
envelope id key value = arr (
    item (name (codes "jsonrpc")) (str (codes "2.0"))
      (item (name (codes "id")) (id_or_null id) (item (name key) value nil)))

-- The envelope of a result that is encoded already.
abbrev pub raw_body : Bytes → Bytes → Bytes
raw_body id raw =
    codes "{\"jsonrpc\":\"2.0\",\"id\":" ++ (id ++ (codes ",\"result\":" ++ (raw ++ codes "}")))

-- The encoded result that a handler wraps: an array with the one element `__raw_json`.
unfoldable pub raw_json : Zval → Option Bytes
unfolding items_count
raw_json (arr items) =
    if items_count items == 1 then array_string (some (arr items)) (codes "__raw_json") else none
raw_json _ = none

-- The whole body, if there is a result that is encoded already and the id could be encoded.
unfoldable pub raw_answer : Option Bytes → Option Bytes → Option Bytes
raw_answer none id = none
raw_answer (some raw) none = none
raw_answer (some raw) (some id) = some (raw_body id raw)

abbrev body_or : Option Bytes → Bytes → Bytes
body_or none other = other
body_or (some body) other = body

module _ (encode : Zval → Option Bytes) where
  -- `lsp_protocol_write`
  unfoldable pub protocol_write : Zval → Bytes
  protocol_write payload = elim (encode payload) [ none ↦ fallback | some json ↦ json ]

  unfoldable pub id_text : Option Zval → Option Bytes
  id_text none = some (codes "null")
  id_text (some id) = encode id

  -- `lsp_protocol_respond_raw`: none where it returns false.
  unfoldable pub respond_raw : Option Zval → Zval → Option Bytes
  unfolding raw_json id_text raw_answer
  respond_raw id result = raw_answer (raw_json result) (id_text id)

  -- `lsp_protocol_respond` and `lsp_protocol_error`
  unfoldable pub write_reply : Reply → Bytes
  unfolding respond_raw protocol_write
  write_reply (respond id result) =
      body_or (respond_raw id result) (protocol_write (envelope id (codes "result") result))
  write_reply (error id code text) = protocol_write (
      envelope id (codes "error") (
        arr
          (item (name (codes "code")) (long code) (item (name (codes "message")) (str text) nil))))

  -- The payload is one of JSON-RPC 2.0 with the id.
  abbrev pub IsPayloadFor : Zval → Zval → Type 0
  IsPayloadFor id payload =
      (array_find (some payload) (codes "jsonrpc") ≡ some (str (codes "2.0")))
      × (array_find (some payload) (codes "id") ≡ some id)

  -- The body of a reply to the id: a payload with the id as it is encoded, or the envelope around a
  -- result that is encoded already, with the encoded id; or, where the payload cannot be encoded, the
  -- fallback.
  abbrev pub IsBodyFor : Zval → Bytes → Type 0
  IsBodyFor id body =
      ((payload : Zval) × IsPayloadFor id payload
        × ((encode payload ≡ some body) ⊎ ((encode payload ≡ none) × (body ≡ fallback))))
      ⊎ ((text : Bytes) × (raw : Bytes) × (encode id ≡ some text) × (body ≡ raw_body text raw))

  -- A request is answered by one frame, a notification by none.
  abbrev pub IsAnswered : Option Zval → List Bytes → Type 0
  IsAnswered none bodies = bodies ≡ []
  IsAnswered (some id) bodies = (body : Bytes) × (bodies ≡ body ∷ []) × IsBodyFor id body
