-- ===== src/Server/Lifecycle.antt =====
-- Replies and the life cycle of the server (ext/lsp_server_protocol.c, `lsp_server_loop`).
use ext_lsparrot.Base.Dict.{find}
use ext_lsparrot.Server.Routes.{route}
use ext_lsparrot.Base.{
  bytes_eq→eq, ◌≡◌, refl, ℕ, zero, suc, Bool, true, false, not, ◌&&◌, inl, inr, ◌⊎◌, Bool-cases,
  Option, none, some, List, [], ◌∷◌, ◌++◌, map, if◌then◌else◌, Bytes, codes, bytes_eq, bytes_eq→eq,
}
use ext_lsparrot.Base.Int.{ℤ}
use ext_lsparrot.Zval.{Zval, array_find, array_string}
use ext_lsparrot.Transport.{Transport}
use ext_lsparrot.Transport.Next.{Wait, Next, delivered, ended, waiting, failed, next_message}
use ext_lsparrot.Server.{Server}
use ext_lsparrot.Server.Loop.{
  run_route, server_handle, serve_by_method, Program, Reply, respond, error, Outcome,
  invalid_request, request_cancelled, reply_to, refuse, serve_handled, serve_method, serve_message,
  server_loop, LoopEnd, stopped, blocked, running, aborted, after_next,
}

-- The id that a reply carries.
abbrev pub reply_id : Reply → Option Zval
reply_id (respond id result) = id
reply_id (error id code text) = id

-- A request gets one reply, with its id; a notification gets none.
abbrev pub expected_ids : Option Zval → List (Option Zval)
expected_ids none = []
expected_ids (some id) = some id ∷ []

refuse-ids :
    (program : Program) (id : Option Zval) (code : ℤ) (text : Bytes)
    → map reply_id (refuse program id code text) ≡ expected_ids id
unfolding refuse
refuse-ids program none code text = refl
refuse-ids program (some id) code text = refl

reply_to-ids :
    (program : Program) (id : Option Zval) (handled : Bool × Outcome)
    → map reply_id (reply_to program id handled) ≡ expected_ids id
unfolding reply_to
reply_to-ids program none handled = refl
reply_to-ids program (some id) (handled, outcome) = elim (Bool-cases outcome.raised) [
  | inl raised ↦ rw raised refl
  | inr fine ↦
      rw fine
        (elim (Bool-cases handled) [ inl found ↦ rw found refl | inr unknown ↦ rw unknown refl ])
]

serve_method-ids :
    (program : Program) (method : Bytes) (id params : Option Zval) (server : Server)
    (cancelled : Bool) (transport : Transport)
    → map reply_id (serve_method program method id params server (cancelled, transport)).replies
      ≡ expected_ids id
unfolding serve_method serve_handled
serve_method-ids program method id params server cancelled transport = elim (Bool-cases cancelled) [
  | inl hit ↦ rw hit (refuse-ids program id request_cancelled (codes "Request cancelled"))
  | inr miss ↦
      rw miss (elim (Bool-cases (server.saw_shutdown && not (bytes_eq method (codes "exit")))) [
        | inl down ↦ rw down (refuse-ids program id invalid_request (codes "Invalid Request"))
        | inr up ↦ rw up (reply_to-ids program id _)
      ])
]

serve_by_method-ids :
    (program : Program) (method : Option Bytes) (message : Zval) (transport : Transport)
    (server : Server)
    → map reply_id (serve_by_method program method message transport server).replies
      ≡ expected_ids (array_find (some message) (codes "id"))
unfolding serve_by_method
serve_by_method-ids program none message transport server =
    refuse-ids program _ invalid_request (codes "Invalid Request")
serve_by_method-ids program (some method) message transport server =
    serve_method-ids program method _ _ server _ _

-- One round of the loop asks for exactly one reply, with the id of the message, or for none where the
-- message has no id.
pub serve_message-ids :
    (program : Program) (message : Zval) (transport : Transport) (server : Server)
    → map reply_id (serve_message program message transport server).replies
      ≡ expected_ids (array_find (some message) (codes "id"))
unfolding serve_message
serve_message-ids program message transport server =
    serve_by_method-ids program (array_string (some message) (codes "method")) message transport
      server

-- What a server that saw shutdown may become: itself, or itself with the loop told to stop.
abbrev pub IsAfterShutdown : Server → Server → Type 0
IsAfterShutdown server later = (later ≡ server) ⊎ (later ≡ record server { shutdown = true })

-- The handler of exit.
serve_handled-exit :
    (program : Program) (id params : Option Zval) (transport : Transport) (server : Server)
    → (serve_handled program (codes "exit") id params transport server).server
      ≡ record server { shutdown = true }
unfolding serve_handled server_handle route run_route find bytes_eq
serve_handled-exit program id params transport server = refl

exit_passes : (saw : Bool) → (saw && not (bytes_eq (codes "exit") (codes "exit"))) ≡ false
unfolding bytes_eq
exit_passes true = refl
exit_passes false = refl

serve_method-exit :
    (program : Program) (id params : Option Zval) (server : Server) (transport : Transport)
    → (serve_method program (codes "exit") id params server (false, transport)).server
      ≡ record server { shutdown = true }
unfolding serve_method
serve_method-exit program id params server transport =
    rw (exit_passes server.saw_shutdown) (serve_handled-exit program id params transport server)

serve_method-IsAfterShutdown :
    (program : Program) (method : Bytes) (id params : Option Zval) (server : Server)
    (cancelled : Bool) (transport : Transport)
    → server.saw_shutdown ≡ true
    → IsAfterShutdown server
        (serve_method program method id params server (cancelled, transport)).server
unfolding serve_method
serve_method-IsAfterShutdown program method id params server cancelled transport saw =
    elim (Bool-cases cancelled) [
      | inl hit ↦ rw hit (inl refl)
      | inr miss ↦ elim (Bool-cases (bytes_eq method (codes "exit"))) [
        | inl is_exit ↦
            rw (miss, bytes_eq→eq method (codes "exit") is_exit)
              (inr (serve_method-exit program id params server transport))
        | inr other ↦ simp (miss, saw, other) (inl refl)
      ]
    ]

serve_by_method-IsAfterShutdown :
    (program : Program) (method : Option Bytes) (message : Zval) (transport : Transport)
    (server : Server)
    → server.saw_shutdown ≡ true
    → IsAfterShutdown server (serve_by_method program method message transport server).server
unfolding serve_by_method
serve_by_method-IsAfterShutdown program none message transport server saw = inl refl
serve_by_method-IsAfterShutdown program (some method) message transport server saw =
    serve_method-IsAfterShutdown program method _ _ server _ _ saw

serve_message-IsAfterShutdown :
    (program : Program) (message : Zval) (transport : Transport) (server : Server)
    → server.saw_shutdown ≡ true
    → IsAfterShutdown server (serve_message program message transport server).server
unfolding serve_message
serve_message-IsAfterShutdown program message transport server saw =
    serve_by_method-IsAfterShutdown program _ message transport server saw

-- A run of the loop has left the server unchanged, or has only told the loop to stop.
abbrev pub EndsAfterShutdown : Server → LoopEnd → Type 0
EndsAfterShutdown server (stopped later replies) = IsAfterShutdown server later
EndsAfterShutdown server (blocked later replies) = later ≡ server
EndsAfterShutdown server (running later replies) = IsAfterShutdown server later
EndsAfterShutdown server aborted = Unit

module _ (program : Program) (decode : Bytes → Zval) where
  loop_after_stop :
      (rounds : ℕ) (waits : List Wait) (transport : Transport) (server : Server)
      (replies : List Reply)
      → EndsAfterShutdown server (
          server_loop program decode rounds waits transport
            (record server { shutdown = true })
            replies)
  unfolding server_loop
  loop_after_stop zero waits transport server replies = inr refl
  loop_after_stop (suc rounds) waits transport server replies = inr refl

  after_next-after_shutdown :
      (rounds : ℕ) (transport : Transport) (server : Server) (replies : List Reply) (next : Next)
      (go_on : Zval → Transport → List Wait → LoopEnd)
      → ((message : Zval) (transport' : Transport) (waits : List Wait)
          → EndsAfterShutdown server (go_on message transport' waits))
      → EndsAfterShutdown server (after_next next server replies go_on)
  after_next-after_shutdown rounds transport server replies (delivered message transport' waits)
        go_on later =
      later message transport' waits
  after_next-after_shutdown rounds transport server replies (ended transport') go_on later =
      inl refl
  after_next-after_shutdown rounds transport server replies (waiting transport') go_on later = refl
  after_next-after_shutdown rounds transport server replies failed go_on later = tt

  if_stopped :
      (down : Bool) (server : Server) (replies : List Reply) (step : LoopEnd)
      → EndsAfterShutdown server step
      → EndsAfterShutdown server (if down then stopped server replies else step)
  if_stopped true server replies step later = inl refl
  if_stopped false server replies step later = later

  -- Once shutdown was seen, the loop handles nothing but exit: however many rounds follow and
  -- whatever messages arrive, the server is at the end what it was, but for the flag that stops
  -- the loop.
  pub server_loop-after_shutdown :
      (rounds : ℕ) (waits : List Wait) (transport : Transport) (server : Server)
      (replies : List Reply)
      → server.saw_shutdown ≡ true
      → EndsAfterShutdown server (server_loop program decode rounds waits transport server replies)
  unfolding server_loop
  server_loop-after_shutdown zero waits transport server replies saw = inl refl
  server_loop-after_shutdown (suc rounds) waits transport server replies saw =
      if_stopped server.shutdown server replies _ (
        after_next-after_shutdown rounds transport server replies
          (next_message decode waits transport)
          (λ message transport' waits'.
            let served = serve_message program message transport' server in
            server_loop program decode rounds waits' served.transport served.server
              (replies ++ served.replies))
          (λ message transport' waits'.
            elim (serve_message-IsAfterShutdown program message transport' server saw) [
              | inl same ↦ rw same (server_loop-after_shutdown rounds waits' _ server _ saw)
              | inr told ↦ rw told (loop_after_stop rounds waits' _ server _)
            ]))
