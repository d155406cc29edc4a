-- ===== src/Server/Cancelled.antt =====
-- Cancelled requests (ext/lsp_server_protocol.c, `lsp_server_loop`).
use ext_lsparrot.Base.{
  ◌≡◌, refl, ap, ◌∙◌, Bool, true, false, not, ◌&&◌, ◌||◌, inl, inr, Bool-cases, Option, some, [],
  ◌∷◌, map, if◌then◌else◌, Bytes, codes, bytes_eq,
}
use ext_lsparrot.Base.Int.{int_eq}
use ext_lsparrot.Zval.{Zval, array_find, array_string}
use ext_lsparrot.Transport.{Transport}
use ext_lsparrot.Transport.Queue.{
  request_id_key, request_is_cancelled, key_is_cancelled, has_id, cancels,
}
use ext_lsparrot.Transport.Cancel.{IsWell, any, remove_first, key_is_cancelled_lem}
use ext_lsparrot.Transport.Fifo.{queue}
use ext_lsparrot.Server.{Server}
use ext_lsparrot.Server.Loop.{
  Program, Reply, respond, error, Outcome, request_cancelled, reply_to, refuse, serve_handled,
  server_handle, array_or_empty, serve_method, serve_by_method, serve_message,
}

abbrev pub is_refusal : Reply → Bool
is_refusal (respond id result) = false
is_refusal (error id code text) = int_eq code request_cancelled

reply_to-refusal :
    (program : Program) (id : Zval) (handled : Bool × Outcome)
    → map is_refusal (reply_to program (some id) handled) ≡ false ∷ []
unfolding reply_to int_eq
reply_to-refusal program id (handled, outcome) = elim (Bool-cases outcome.raised) [
  | inl raised ↦ rw raised refl
  | inr fine ↦
      rw fine
        (elim (Bool-cases handled) [ inl found ↦ rw found refl | inr unknown ↦ rw unknown refl ])
]

serve_method-refusal :
    (program : Program) (method : Bytes) (id : Zval) (params : Option Zval) (server : Server)
    (cancelled : Bool) (transport : Transport)
    → let served = serve_method program method (some id) params server (cancelled, transport) in
      (map is_refusal served.replies ≡ cancelled ∷ [])
      × (cancelled ≡ true → served.server ≡ server)
      × (served.transport ≡ transport)
unfolding serve_method serve_handled refuse int_eq
serve_method-refusal program method id params server true transport = (refl, λ e. refl, refl)
serve_method-refusal program method id params server false transport =
    elim (Bool-cases (server.saw_shutdown && not (bytes_eq method (codes "exit")))) [
      | inl down ↦ rw down (refl, λ e. refl, refl)
      | inr up ↦ rw up (
        reply_to-refusal program id
            (server_handle program method transport (array_or_empty program params) server),
        λ e. cc,
        refl,
      )
    ]

request_is_cancelled_keyed :
    (id : Option Zval) (key : Bytes) (transport : Transport)
    → request_id_key id ≡ some key
    → request_is_cancelled id transport ≡ key_is_cancelled key transport
unfolding request_is_cancelled
request_is_cancelled_keyed id key transport keyed = rw (request_is_cancelled, keyed) refl

-- A request whose id is a number or a text is refused with RequestCancelled exactly if its id is
-- registered as cancelled or a cancellation of it is queued, and the server then stays as it is. However
-- it is served, one cancellation is used up: the registered one, and else the first of the queue, where
-- all other messages stay. The head of the queue is not behind its end.
pub serve_message-cancelled :
    (program : Program) (message : Zval) (transport : Transport) (server : Server) (method : Bytes)
    (id : Zval) (key : Bytes)
    → array_string (some message) (codes "method") ≡ some method
    → array_find (some message) (codes "id") ≡ some id
    → request_id_key (some id) ≡ some key
    → IsWell transport
    → let served = serve_message program message transport server in
      let registered = has_id transport.cancelled_ids key in
      let asked = registered || any (cancels key) (queue transport) in
      (map is_refusal served.replies ≡ asked ∷ [])
      × (asked ≡ true → served.server ≡ server)
      × (queue served.transport
          ≡ (if registered then queue transport else remove_first (cancels key) (queue transport)))
      × (has_id served.transport.cancelled_ids key ≡ false)
unfolding serve_message serve_by_method
serve_message-cancelled program message transport server method id key named identified keyed well =
    let (answer, left, gone) = key_is_cancelled_lem key transport well in
    let now = key_is_cancelled key transport in
    let (replies, kept, same) =
      serve_method-refusal program method id (array_find (some message) (codes "params")) server
        now.0 now.1 in
    rw (named, identified, request_is_cancelled_keyed (some id) key transport keyed)
      (
        replies ∙ ap (λ b. b ∷ []) answer,
        λ asked. kept (answer ∙ asked),
        ap queue same ∙ left,
        ap (λ t. has_id (t.cancelled_ids) key) same ∙ gone,
      )
