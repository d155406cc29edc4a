-- ===== src/Server/Loop.antt =====
-- Requests (ext/lsp_server_protocol.c): the wrappers `lsp_document_request…`, `lsp_server_handle`
-- and one round of `lsp_server_loop`, with its calls of `lsp_protocol_respond` and
-- `lsp_protocol_error`; what these write is in Server.Written. Performance counters and the reaping of
-- analyzer jobs are left out. The features are the parameter `run`.
use ext_lsparrot.Transport.Next.{Wait, Next, delivered, ended, waiting, failed, next_message}
use ext_lsparrot.Base.{
  ℕ, zero, suc, Bool, true, false, not, ◌&&◌, Option, none, some, List, [], ◌∷◌, ◌++◌,
  if◌then◌else◌, Bytes, codes, bytes_eq,
}
use ext_lsparrot.Base.Int.{ℤ, negsuc}
use ext_lsparrot.Zval.{Zval, null, arr, nil, is_array, array_find, array_string}
use ext_lsparrot.Transport.{Transport}
use ext_lsparrot.Transport.Queue.{request_is_cancelled}
use ext_lsparrot.Server.{Document, Server}
use ext_lsparrot.Server.Documents.{document_from_uri}
use ext_lsparrot.Server.Sync.{
  text_document, did_open, did_change, did_save, did_close, did_change_watched_files,
}
use ext_lsparrot.Server.Routes.{
  Feature, Route, initialized, watched_files, document_request, plain_request, configuration,
  folders, route,
}

-- What a handler leaves: the server, the result, and whether a PHP exception is pending.
pub record Outcome : Type 0 where
  pub server : Server
  pub result : Zval
  pub raised : Bool

-- A call of `lsp_protocol_respond`, or of `lsp_protocol_error` with its code.
pub data Reply : Type 0 where
  respond : Option Zval → Zval → Reply
  error : Option Zval → ℤ → Bytes → Reply

abbrev pub invalid_request : ℤ
invalid_request = negsuc 32599

abbrev pub method_not_found : ℤ
method_not_found = negsuc 32600

abbrev pub internal_error : ℤ
internal_error = negsuc 32602

abbrev pub request_cancelled : ℤ
request_cancelled = negsuc 32799

abbrev quiet : Server → Outcome
quiet server = record { server = server; result = null; raised = false }

-- Everything that the loop asks of the rest of the program.
pub record Program : Type 0 where
  pub parse : Bytes → Bytes → Zval
  pub read_file : Bytes → Bytes
  pub run : Feature → Option Zval → Option Document → Server → Outcome
  pub configure : Option Zval → Server → Server
  pub change_folders : Option Zval → Server → Server

pub record Served : Type 0 where
  pub server : Server
  pub transport : Transport
  pub replies : List Reply

abbrev pub refused : Server → Transport → List Reply → Served
refused server transport replies = record {
  server = server;
  transport = transport;
  replies = replies;
}

-- How the loop stands after some rounds: it has stopped, waits for input, has crashed, or goes on.
pub data LoopEnd : Type 0 where
  stopped blocked running : Server → List Reply → LoopEnd
  aborted : LoopEnd

abbrev pub after_next :
    Next → Server → List Reply → (Zval → Transport → List Wait → LoopEnd) → LoopEnd
after_next (delivered message transport waits) server replies go_on = go_on message transport waits
after_next (ended transport) server replies go_on = stopped server replies
after_next (waiting transport) server replies go_on = blocked server replies
after_next failed server replies go_on = aborted

module _ (program : Program) where
  open program use {parse, read_file, run, configure, change_folders}

  abbrev run_on : Feature → Option Zval → Server × Document → Outcome
  run_on feature params (server, document) = run feature params (some document) server

  -- The wrappers: without a URI the result is null.
  unfoldable pub run_document_request : Feature → Option Zval → Server → Outcome
  run_document_request feature params server =
      elim (array_string (text_document params) (codes "uri")) [
        | none ↦ quiet server
        | some uri ↦ run_on feature params (document_from_uri parse read_file server uri)
      ]

  unfoldable pub run_route : Route → Transport → Option Zval → Server → Outcome
  unfolding run_document_request
  run_route initialized transport params server = quiet server
  run_route watched_files transport params server = quiet (did_change_watched_files params server)
  run_route Route.shutdown transport params server = quiet (record server { saw_shutdown = true })
  run_route Route.exit transport params server = quiet (record server { shutdown = true })
  run_route Route.did_open transport params server = quiet (did_open parse params server)
  run_route Route.did_change transport params server =
      quiet (did_change parse transport params server)
  run_route Route.did_save transport params server = quiet (did_save parse params server)
  run_route Route.did_close transport params server = quiet (did_close params server)
  run_route configuration transport params server = quiet (configure params server)
  run_route folders transport params server = quiet (change_folders params server)
  run_route (document_request feature) transport params server =
      run_document_request feature params server
  run_route (plain_request feature) transport params server = run feature params none server

  -- `lsp_server_handle`: no route is the result false.
  unfoldable pub server_handle : Bytes → Transport → Option Zval → Server → Bool × Outcome
  unfolding run_route route
  server_handle method transport params server = elim (route method) [
    | none ↦ (false, quiet server)
    | some r ↦ (true, run_route r transport params server)
  ]

  -- Parameters that are no array are replaced by an empty one.
  unfoldable pub array_or_empty : Option Zval → Option Zval
  array_or_empty params = if is_array params then params else some (arr nil)

  -- The call behind the handler.
  unfoldable pub reply_to : Option Zval → Bool × Outcome → List Reply
  reply_to none handled = []
  reply_to (some id) (handled, outcome) =
      (if outcome.raised
        then error (some id) internal_error (codes "Internal error")
        else if handled
        then respond (some id) outcome.result
        else error (some id) method_not_found (codes "Method not found"))
      ∷ []

  -- A request is refused with a code; a notification is dropped.
  unfoldable pub refuse : Option Zval → ℤ → Bytes → List Reply
  refuse none code text = []
  refuse (some id) code text = error (some id) code text ∷ []

  -- The handler and its reply.
  unfoldable pub serve_handled : Bytes → Option Zval → Option Zval → Transport → Server → Served
  unfolding server_handle array_or_empty reply_to
  serve_handled method id params transport server =
      let handled = server_handle method transport (array_or_empty params) server in
      record { server = handled.1.server; transport = transport; replies = reply_to id handled }

  -- A message with a method, once its cancellation is known: cancelled requests are refused, and
  -- after shutdown everything but exit.
  unfoldable pub serve_method :
      Bytes → Option Zval → Option Zval → Server → Bool × Transport → Served
  unfolding serve_handled refuse
  serve_method method id params server (cancelled, transport) =
      if cancelled
      then refused server transport (refuse id request_cancelled (codes "Request cancelled"))
      else if server.saw_shutdown && not (bytes_eq method (codes "exit"))
      then refused server transport (refuse id invalid_request (codes "Invalid Request"))
      else serve_handled method id params transport server

  -- What a round does with a message, by its method.
  unfoldable pub serve_by_method : Option Bytes → Zval → Transport → Server → Served
  unfolding serve_method refuse
  serve_by_method none message transport server =
      refused server transport
        (refuse (array_find (some message) (codes "id")) invalid_request (codes "Invalid Request"))
  serve_by_method (some method) message transport server =
      serve_method method (array_find (some message) (codes "id"))
        (array_find (some message) (codes "params")) server
        (request_is_cancelled (array_find (some message) (codes "id")) transport)

  -- One round of `lsp_server_loop`. A notification has no id, and no cancellation is looked up.
  unfoldable pub serve_message : Zval → Transport → Server → Served
  unfolding serve_by_method
  serve_message message transport server =
      serve_by_method (array_string (some message) (codes "method")) message transport server

  module _ (decode : Bytes → Zval) where
    -- `lsp_server_loop` for a number of rounds.
    unfoldable pub server_loop : ℕ → List Wait → Transport → Server → List Reply → LoopEnd
    unfolding serve_message
    server_loop zero waits transport server replies = running server replies
    server_loop (suc rounds) waits transport server replies =
        let step =
          after_next (next_message decode waits transport) server replies
            (λ message transport' waits'.
              let served = serve_message message transport' server in
              server_loop rounds waits' served.transport served.server
                (replies ++ served.replies)) in
        if server.shutdown then stopped server replies else step
