-- ===== src/Server/LoopFresh.antt =====
-- The request loop keeps the documents in agreement with what they are derived from
-- (ext/lsp_server_protocol.c, `lsp_server_handle` and `lsp_server_loop`).
use ext_lsparrot.Base.{
  ℕ, zero, suc, Bool, true, false, inl, inr, Bool-cases, Option-cases, not, ◌&&◌, Option, none,
  some, List, if◌then◌else◌, Bytes, codes, bytes_eq,
}
use ext_lsparrot.Zval.{Zval, array_string}
use ext_lsparrot.Transport.{Transport}
use ext_lsparrot.Transport.Next.{Wait, Next, delivered, ended, waiting, failed, next_message}
use ext_lsparrot.Server.{Document, Server}
use ext_lsparrot.Server.Fresh.{EachFresh, document_from_uri-EachFresh}
use ext_lsparrot.Server.Invariant.{
  did_open-EachFresh, did_change-EachFresh, did_save-EachFresh, did_close-EachFresh,
  did_change_watched_files-EachFresh,
}
use ext_lsparrot.Server.Sync.{text_document}
use ext_lsparrot.Server.Routes.{
  Feature, Route, initialized, watched_files, document_request, plain_request, configuration,
  folders, route,
}
use ext_lsparrot.Server.Loop.{
  Program, Reply, run_document_request, run_route, server_handle, serve_handled, serve_method,
  serve_by_method, serve_message, server_loop, LoopEnd, stopped, blocked, running, aborted,
  after_next,
}

-- The features, the configuration and the workspace folders leave the documents in agreement.
pub record KeepsFresh (program : Program) (derive : Bytes → Zval) : Type 0 where
  pub run_keeps :
      (feature : Feature) (params : Option Zval) (document : Option Document) (server : Server)
      → EachFresh program.parse derive server
      → EachFresh program.parse derive (program.run feature params document server).server
  pub configure_keeps :
      (params : Option Zval) (server : Server)
      → EachFresh program.parse derive server
      → EachFresh program.parse derive (program.configure params server)
  pub change_folders_keeps :
      (params : Option Zval) (server : Server)
      → EachFresh program.parse derive server
      → EachFresh program.parse derive (program.change_folders params server)

-- The agreement of the documents in the server that a run of the loop leaves.
abbrev pub EndsFresh : (Bytes → Bytes → Zval) → (Bytes → Zval) → LoopEnd → Type 0
EndsFresh parse derive (stopped server replies) = EachFresh parse derive server
EndsFresh parse derive (blocked server replies) = EachFresh parse derive server
EndsFresh parse derive (running server replies) = EachFresh parse derive server
EndsFresh parse derive aborted = Unit

module _ (program : Program) (derive : Bytes → Zval) (keeps : KeepsFresh program derive) where
  run_document_request-EachFresh :
      (feature : Feature) (params : Option Zval) (server : Server)
      → EachFresh program.parse derive server
      → EachFresh program.parse derive (run_document_request program feature params server).server
  unfolding run_document_request
  run_document_request-EachFresh feature params server each =
      elim (Option-cases (array_string (text_document params) (codes "uri"))) [
        | inl absent ↦ rw (run_document_request, absent) each
        | inr (uri, named) ↦
            rw (run_document_request, named)
              (keeps.run_keeps feature params _ _ (
                (document_from_uri-EachFresh program.parse derive server each program.read_file
                  uri).0))
      ]

  run_route-EachFresh :
      (r : Route) (transport : Transport) (params : Option Zval) (server : Server)
      → EachFresh program.parse derive server
      → EachFresh program.parse derive (run_route program r transport params server).server
  unfolding run_route
  run_route-EachFresh initialized transport params server each = each
  run_route-EachFresh watched_files transport params server each =
      did_change_watched_files-EachFresh program.parse derive params server each
  run_route-EachFresh Route.shutdown transport params server each = each
  run_route-EachFresh Route.exit transport params server each = each
  run_route-EachFresh Route.did_open transport params server each =
      did_open-EachFresh program.parse derive server each params
  run_route-EachFresh Route.did_change transport params server each =
      did_change-EachFresh program.parse derive server each transport params
  run_route-EachFresh Route.did_save transport params server each =
      did_save-EachFresh program.parse derive server each params
  run_route-EachFresh Route.did_close transport params server each =
      did_close-EachFresh program.parse derive server each params
  run_route-EachFresh configuration transport params server each =
      keeps.configure_keeps params server each
  run_route-EachFresh folders transport params server each =
      keeps.change_folders_keeps params server each
  run_route-EachFresh (document_request feature) transport params server each =
      run_document_request-EachFresh feature params server each
  run_route-EachFresh (plain_request feature) transport params server each =
      keeps.run_keeps feature params none server each

  server_handle-EachFresh :
      (method : Bytes) (transport : Transport) (params : Option Zval) (server : Server)
      → EachFresh program.parse derive server
      → EachFresh program.parse derive
          (server_handle program method transport params server).1.server
  unfolding server_handle
  server_handle-EachFresh method transport params server each = elim (Option-cases (route method)) [
    | inl unknown ↦ rw (server_handle, unknown) each
    | inr (r, known) ↦
        rw (server_handle, known) (run_route-EachFresh r transport params server each)
  ]

  serve_method-EachFresh :
      (method : Bytes) (id params : Option Zval) (server : Server) (cancelled : Bool)
      (transport : Transport)
      → EachFresh program.parse derive server
      → EachFresh program.parse derive
          (serve_method program method id params server (cancelled, transport)).server
  unfolding serve_method serve_handled
  serve_method-EachFresh method id params server true transport each = each
  serve_method-EachFresh method id params server false transport each =
      elim (Bool-cases (server.saw_shutdown && not (bytes_eq method (codes "exit")))) [
        | inl refused_now ↦ rw (serve_method, refused_now) each
        | inr served ↦
            rw (serve_method, served) (server_handle-EachFresh method transport _ server each)
      ]

  serve_by_method-EachFresh :
      (method : Option Bytes) (message : Zval) (transport : Transport) (server : Server)
      → EachFresh program.parse derive server
      → EachFresh program.parse derive
          (serve_by_method program method message transport server).server
  unfolding serve_by_method
  serve_by_method-EachFresh none message transport server each = each
  serve_by_method-EachFresh (some method) message transport server each =
      serve_method-EachFresh method _ _ server _ _ each

  serve_message-EachFresh :
      (message : Zval) (transport : Transport) (server : Server)
      → EachFresh program.parse derive server
      → EachFresh program.parse derive (serve_message program message transport server).server
  unfolding serve_message
  serve_message-EachFresh message transport server each =
      serve_by_method-EachFresh (array_string (some message) (codes "method")) message transport
        server each

  module _ (decode : Bytes → Zval) where
    after_next-EachFresh :
        (next : Next) (server : Server) (replies : List Reply)
        (go_on : Zval → Transport → List Wait → LoopEnd)
        → EachFresh program.parse derive server
        → ((message : Zval) (transport' : Transport) (waits : List Wait)
            → EndsFresh program.parse derive (go_on message transport' waits))
        → EndsFresh program.parse derive (after_next next server replies go_on)
    after_next-EachFresh (delivered message transport' waits) server replies go_on each later =
        later message transport' waits
    after_next-EachFresh (ended transport') server replies go_on each later = each
    after_next-EachFresh (waiting transport') server replies go_on each later = each
    after_next-EachFresh failed server replies go_on each later = tt

    if_stopped_fresh :
        (down : Bool) (server : Server) (replies : List Reply) (step : LoopEnd)
        → EachFresh program.parse derive server
        → EndsFresh program.parse derive step
        → EndsFresh program.parse derive (if down then stopped server replies else step)
    if_stopped_fresh true server replies step each later = each
    if_stopped_fresh false server replies step each later = later

    -- Whatever messages arrive and however many rounds the loop runs, the documents stay in
    -- agreement: each stands under its URI, with the path of that URI, the parse result of its
    -- current text and no derived data but those of that text, if the features, the configuration
    -- and the workspace folders keep this.
    pub server_loop-EachFresh :
        (rounds : ℕ) (waits : List Wait) (transport : Transport) (server : Server)
        (replies : List Reply)
        → EachFresh program.parse derive server
        → EndsFresh program.parse derive
            (server_loop program decode rounds waits transport server replies)
    unfolding server_loop
    server_loop-EachFresh zero waits transport server replies each = each
    server_loop-EachFresh (suc rounds) waits transport server replies each =
        if_stopped_fresh server.shutdown server replies _ each (
          after_next-EachFresh (next_message decode waits transport) server replies _ each
            (λ message transport' waits'.
              server_loop-EachFresh rounds waits' _ _ _
                (serve_message-EachFresh message transport' server each)))
