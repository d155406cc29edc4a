-- ===== src/Transport/Queue.antt =====
-- The queue of decoded messages (ext/lsp_server_documents.c): `lsp_request_id_key`,
-- `lsp_message_method_equals`, `lsp_register_cancellation`, `lsp_pending_take_cancellation`,
-- `lsp_protocol_request_is_cancelled`, `lsp_protocol_queue_supersedes_change`, `lsp_pending_pop`.
use ext_lsparrot.Base.{
  ℕ, suc, Bool, true, false, not, ◌&&◌, ◌||◌, Option, none, some, List, [], ◌∷◌, ◌++◌, leb, ltb,
  ◌==◌, if◌then◌else◌, Bytes, codes, bytes_eq, length, take, drop,
}
use ext_lsparrot.Base.Int.{print_int}
use ext_lsparrot.Zval.{Zval, null, long, str, is_array, array_find, array_string}
use ext_lsparrot.Transport.{Transport}

-- `%s` stops at a NUL byte.
unfoldable pub until_nul : Bytes → Bytes
until_nul [] = []
until_nul (c ∷ rest) = if c == 0 then [] else c ∷ until_nul rest

unfoldable pub request_id_key : Option Zval → Option Bytes
unfolding until_nul
request_id_key (some (long n)) = some (codes "i:" ++ print_int n)
request_id_key (some (str s)) = some (codes "s:" ++ until_nul s)
request_id_key _ = none

abbrev is_text : Option Bytes → Bytes → Bool
is_text none text = false
is_text (some s) text = bytes_eq s text

unfoldable pub message_method_equals : Zval → Bytes → Bool
message_method_equals message method = is_text (array_string (some message) (codes "method")) method

-- `params.id` of a message, NULL where `params` is no array
unfoldable pub params_id : Zval → Option Zval
params_id message = array_find (array_find (some message) (codes "params")) (codes "id")

abbrev pub cancel_request : Bytes
cancel_request = codes "$/cancelRequest"

-- `zend_hash_exists`, `zend_hash_add_empty_element` and `zend_hash_del` on the set of ids.
unfoldable pub has_id : List Bytes → Bytes → Bool
has_id [] key = false
has_id (k ∷ keys) key = bytes_eq k key || has_id keys key

unfoldable pub add_id : List Bytes → Bytes → List Bytes
unfolding has_id
add_id keys key = if has_id keys key then keys else keys ++ key ∷ []

unfoldable pub del_id : List Bytes → Bytes → List Bytes
del_id [] key = []
del_id (k ∷ keys) key = if bytes_eq k key then del_id keys key else k ∷ del_id keys key

unfoldable pub register_cancellation : Zval → Transport → Transport
unfolding params_id request_id_key
register_cancellation message t = elim (request_id_key (params_id message)) [
  | none ↦ t
  | some key ↦ record t { cancelled_ids = add_id t.cancelled_ids key }
]

-- The tests of one round of `lsp_pending_take_cancellation`.
unfoldable pub cancels : Bytes → Zval → Bool
unfolding message_method_equals params_id request_id_key
cancels key message =
    is_array (some message)
    && message_method_equals message cancel_request
    && is_text (request_id_key (params_id message)) key

-- The loop, on the messages from the head on: the first cancellation of `key` becomes a null.
unfoldable pub take_from : Bytes → List Zval → Option (List Zval)
unfolding cancels
take_from key [] = none
take_from key (message ∷ rest) = elim (cancels key message) [
  | true ↦ some (null ∷ rest)
  | false ↦ elim (take_from key rest) [ none ↦ none | some rest' ↦ some (message ∷ rest') ]
]

unfoldable pub pending_take_cancellation : Bytes → Transport → Bool × Transport
unfolding take_from
pending_take_cancellation key t = elim (take_from key (drop t.pending_head t.pending_messages)) [
  | none ↦ (false, t)
  | some messages ↦
      (true, record t { pending_messages = take t.pending_head t.pending_messages ++ messages })
]

-- An id that is registered is forgotten when it is asked for; else the queue is searched.
unfoldable pub key_is_cancelled : Bytes → Transport → Bool × Transport
unfolding has_id del_id pending_take_cancellation
key_is_cancelled key t =
    if has_id t.cancelled_ids key
    then (true, record t { cancelled_ids = del_id t.cancelled_ids key })
    else pending_take_cancellation key t

unfoldable pub request_is_cancelled : Option Zval → Transport → Bool × Transport
unfolding request_id_key key_is_cancelled
request_is_cancelled id t = elim (request_id_key id) [
  | none ↦ (false, t)
  | some key ↦ key_is_cancelled key t
]

-- A message carries an id, whatever its value.
unfoldable pub has_request_id : Zval → Bool
has_request_id message = elim (array_find (some message) (codes "id")) [
  | none ↦ false
  | some id ↦ true
]

unfoldable pub message_uri : Zval → Option Bytes
message_uri message =
    array_string (array_find (array_find (some message) (codes "params")) (codes "textDocument"))
      (codes "uri")

-- A change or a close of the document.
unfoldable pub replaces : Bytes → Zval → Bool
unfolding message_method_equals message_uri
replaces uri message =
    (message_method_equals message (codes "textDocument/didChange")
      || message_method_equals message (codes "textDocument/didClose"))
    && is_text (message_uri message) uri

unfoldable pub supersedes_from : Bytes → List Zval → Bool
unfolding has_request_id replaces
supersedes_from uri [] = false
supersedes_from uri (message ∷ rest) =
    let later = supersedes_from uri rest in
    if not (is_array (some message))
    then later
    else if has_request_id message
    then false
    else if replaces uri message
    then true
    else later

unfoldable pub queue_supersedes_change : Bytes → Transport → Bool
unfolding supersedes_from
queue_supersedes_change uri t = supersedes_from uri (drop t.pending_head t.pending_messages)

-- The loop of `lsp_pending_pop`, on the messages from `head` on: the message and the new head.
unfoldable pub pop_from : ℕ → List Zval → Option (Zval × ℕ)
pop_from head [] = none
pop_from head (message ∷ rest) = elim (is_array (some message)) [
  | true ↦ some (message, suc head)
  | false ↦ pop_from (suc head) rest
]

abbrev pub clear_pending : Transport → Transport
clear_pending t = record t { pending_messages = []; pending_head = 0 }

-- Past the last entry the queue is cleaned.
unfoldable pub popped : Transport → Option (Zval × ℕ) → Option Zval × Transport
popped t none = (none, if ltb 0 (length t.pending_messages) then clear_pending t else t)
popped t (some (message, head)) = (
  some message,
  if leb (length t.pending_messages) head
      then clear_pending t
      else record t { pending_head = head },
)

unfoldable pub pending_pop : Transport → Option Zval × Transport
unfolding pop_from popped
pending_pop t = popped t (pop_from t.pending_head (drop t.pending_head t.pending_messages))
