-- ===== src/Server/Tests.antt =====
-- Inputs for the theorems about the server, and runs of its definitions.
use ext_lsparrot.Base.{
  ◌≡◌, refl, List, [], ◌∷◌, Bytes, codes, some, none, Option, ◌||◌, true, false, if◌then◌else◌, map,
  arith, bytes_eq,
}
use ext_lsparrot.Base.Dict.{find}
use ext_lsparrot.Base.Int.{pos, print_int, print_from}
use ext_lsparrot.Zval.{
  Zval, arr, nil, item, name, str, long, null, array_find, array_string, is_array, items_count,
}
use ext_lsparrot.Transport.{Transport, transport_shutdown}
use ext_lsparrot.Transport.Queue.{request_id_key, has_id, cancels}
use ext_lsparrot.Server.{Server, new_server}
use ext_lsparrot.Server.Caches.{mentions, member_cache_invalidate_path}
use ext_lsparrot.Server.Sync.{text_document, did_close}
use ext_lsparrot.Server.Cancelled.{is_refusal, serve_message-cancelled}
use ext_lsparrot.Server.Loop.{Program, respond, serve_message, server_loop}
use ext_lsparrot.Server.Lifecycle.{EndsAfterShutdown, server_loop-after_shutdown}
use ext_lsparrot.Server.Written.{write_reply}
use ext_lsparrot.Transport.Cancel.{any, remove_first}
use ext_lsparrot.Transport.Fifo.{queue}
use ext_lsparrot.Server.Fresh.{EachFresh}
use ext_lsparrot.Server.LoopFresh.{KeepsFresh, EndsFresh, server_loop-EachFresh}
use ext_lsparrot.Server.Changes.{
  Edit, whole, ranged, opens, changes, saves_text, closes, Held, held_after_all, Shows, apply_edits,
}
use ext_lsparrot.Server.Editor.{apply_edits-Shows}
use ext_lsparrot.Server.Evict.{
  did_close-caches, HasDistinctKeys, IsBuiltFrom, member_cache_invalidate_path_lem,
}

-- A program whose features answer null.
abbrev parse : Bytes → Bytes → Zval
parse text uri = str text

abbrev program : Program
program = record {
  parse = parse;
  read_file = λ path. codes "<?php";
  run = λ feature params document server. record { server = server; result = null; raised = false };
  configure = λ params server. server;
  change_folders = λ params server. server;
}

abbrev uri : Bytes
uri = codes "file:///a"

abbrev text_document_params : Zval
text_document_params =
    arr (item (name (codes "textDocument")) (arr (item (name (codes "uri")) (str uri) nil)) nil)

abbrev request : Bytes → Zval
request method = arr (
    item (name (codes "id")) (long (pos 7)) (
      item (name (codes "method")) (str method)
        (item (name (codes "params")) text_document_params nil)))

abbrev cancel_seven : Zval
cancel_seven = arr (
    item (name (codes "method")) (str (codes "$/cancelRequest"))
      (item (name (codes "params")) (arr (item (name (codes "id")) (long (pos 7)) nil)) nil))

abbrev cancelling : Transport
cancelling = record transport_shutdown { pending_messages = cancel_seven ∷ [] }

abbrev after_shutdown : Server
after_shutdown = record new_server { saw_shutdown = true }

abbrev busy : Transport
busy = record transport_shutdown {
  pending_messages = request (codes "textDocument/hover") ∷ request (codes "exit") ∷ [];
}

-- A number is encoded, an array too, and nothing else.
abbrev encode : Zval → Option Bytes
encode (long n) = some (print_int n)
encode (arr items) = some (codes "{}")
encode other = none

-- A result that is encoded already is put into the envelope.
raw_reply :
    write_reply encode (
      respond
        (some (long (pos 7)))
        (arr (item (name (codes "__raw_json")) (str (codes "[1]")) nil)))
    ≡ codes "{\"jsonrpc\":\"2.0\",\"id\":7,\"result\":[1]}"
unfolding write_reply items_count array_string bytes_eq print_int print_from
raw_reply = refl

hover_is_named :
    array_string (some (request (codes "textDocument/hover"))) (codes "method")
    ≡ some (codes "textDocument/hover")
unfolding array_string array_find bytes_eq
hover_is_named = refl

hover_has_id :
    array_find (some (request (codes "textDocument/hover"))) (codes "id") ≡ some (long (pos 7))
unfolding array_find bytes_eq
hover_has_id = refl

seven_key : request_id_key (some (long (pos 7))) ≡ some (codes "i:7")
unfolding request_id_key print_int print_from
seven_key = refl

serve_message-cancelled_example :
    let served =
      serve_message program (request (codes "textDocument/hover")) cancelling new_server in
    let registered = has_id cancelling.cancelled_ids (codes "i:7") in
    let asked = registered || any (cancels (codes "i:7")) (queue cancelling) in
    (map is_refusal served.replies ≡ asked ∷ [])
    × (asked ≡ true → served.server ≡ new_server)
    × (queue served.transport ≡ (
        if registered
        then queue cancelling
        else remove_first (cancels (codes "i:7")) (queue cancelling)))
    × (has_id served.transport.cancelled_ids (codes "i:7") ≡ false)
serve_message-cancelled_example =
    serve_message-cancelled program (request (codes "textDocument/hover")) cancelling new_server
      (codes "textDocument/hover") (long (pos 7)) (codes "i:7") hover_is_named hover_has_id
      seven_key (record { head_in_queue = omega arith })

-- It is asked for there.
seven_asked : any (cancels (codes "i:7")) (queue cancelling) ≡ true
unfolding queue cancels array_find bytes_eq is_array array_string print_int print_from
seven_asked = refl

server_loop-after_shutdown_example :
    EndsAfterShutdown after_shutdown (server_loop program str 3 [] busy after_shutdown [])
server_loop-after_shutdown_example =
    server_loop-after_shutdown program str 3 [] busy after_shutdown [] refl

program-KeepsFresh : KeepsFresh program str
program-KeepsFresh = record {
  run_keeps = λ feature params document server each. each;
  configure_keeps = λ params server each. each;
  change_folders_keeps = λ params server each. each;
}

new_server-EachFresh : EachFresh parse str new_server
unfolding find
new_server-EachFresh key document found = cc

server_loop-EachFresh_example :
    EndsFresh parse str (server_loop program str 3 [] busy new_server [])
server_loop-EachFresh_example =
    server_loop-EachFresh program str program-KeepsFresh str 3 [] busy new_server []
      new_server-EachFresh

-- The editor holds nothing at first.
abbrev nothing : Held
nothing j = none

abbrev session : List Edit
session =
    opens uri (codes "php") (pos 1) (codes "<?php")
    ∷ changes uri (pos 2) (whole (codes "<?php 0;") ∷ whole (codes "<?php 1;") ∷ [])
    ∷ changes uri (pos 3) (whole (codes "<?php 3;") ∷ ranged null (codes "4") ∷ [])
    ∷ changes uri (pos 4) []
    ∷ saves_text uri (codes "<?php 2;")
    ∷ opens (codes "file:///b") (codes "php") (pos 1) []
    ∷ closes (codes "file:///b")
    ∷ []

new_server-Shows : Shows parse new_server nothing
unfolding find
new_server-Shows j = refl

apply_edits-Shows_example :
    Shows parse
      (apply_edits parse transport_shutdown session new_server)
      (held_after_all session nothing)
apply_edits-Shows_example =
    apply_edits-Shows parse transport_shutdown session new_server nothing new_server-Shows

-- The editor holds the saved text in the end.
session_text : held_after_all session nothing uri ≡ some (pos 2, codes "<?php 2;")
unfolding bytes_eq
session_text = refl

abbrev cached : Server
cached = record new_server {
  completion_cache = (codes "c:file:///a:1", null) ∷ (codes "c:file:///b:1", null) ∷ [];
  member_cache =
      (codes "a", arr (item (name (codes "path")) (str (codes "/a")) nil)) ∷ (codes "b", null) ∷ [];
}

text_document-uri :
    array_string (text_document (some text_document_params)) (codes "uri") ≡ some uri
unfolding array_string array_find bytes_eq
text_document-uri = refl

did_close-caches_example :
    (find (codes "c:file:///b:1") (did_close (some text_document_params) cached).documents ≡ (
      if bytes_eq uri (codes "c:file:///b:1")
      then none
      else find (codes "c:file:///b:1") cached.documents))
    × (find (codes "c:file:///b:1") (did_close (some text_document_params) cached).completion_cache
        ≡ (if mentions uri (codes "c:file:///b:1")
            then none
            else find (codes "c:file:///b:1") cached.completion_cache))
    × (find (codes "c:file:///b:1") (did_close (some text_document_params) cached).type_cache ≡ (
        if mentions uri (codes "c:file:///b:1")
        then none
        else find (codes "c:file:///b:1") cached.type_cache))
did_close-caches_example =
    did_close-caches (some text_document_params) uri cached text_document-uri
      (codes "c:file:///b:1")

entry_goes : mentions uri (codes "c:file:///a:1") ≡ true
unfolding mentions
entry_goes = refl

cached-HasDistinctKeys : HasDistinctKeys cached.member_cache
unfolding find bytes_eq
cached-HasDistinctKeys = (refl, (refl, tt))

member_cache_invalidate_path_lem_example :
    let after = (member_cache_invalidate_path (codes "/a") cached).member_cache in
    ((k : Bytes) (entry : Zval)
      → find k cached.member_cache ≡ some entry
      → IsBuiltFrom (codes "/a") entry
      → find k after ≡ none)
    × ((k : Bytes)
        → ((entry : Zval)
            → find k cached.member_cache ≡ some entry
            → ¬ IsBuiltFrom (codes "/a") entry)
        → find k after ≡ find k cached.member_cache)
member_cache_invalidate_path_lem_example =
    member_cache_invalidate_path_lem (codes "/a") cached cached-HasDistinctKeys
