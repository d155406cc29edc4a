-- ===== src/Transport/Next.antt =====
-- The waiting loop `lsp_protocol_next_message` (ext/lsp_server_documents.c). What the outside does
-- at each wait is a list of rounds: whether SIGTERM has arrived, and what `lsp_transport_fill` gets
-- from the client. The analyzer jobs that an idle round reaps are not part of this state.
use ext_lsparrot.Base.{
  ◌≡◌, Bool, true, Option, none, some, List, [], ◌∷◌, ◌++◌, Bytes, if◌then◌else◌,
}
use ext_lsparrot.Zval.{Zval}
use ext_lsparrot.Transport.{Transport}
use ext_lsparrot.Transport.Frame.{Drained, drained, drain_frames}
use ext_lsparrot.Transport.Queue.{
  message_method_equals, cancel_request, register_cancellation, pending_pop,
}

-- The outcome of `lsp_transport_fill`: bytes (1), a timeout or an interrupted call (0), end of input.
pub data Fill : Type 0 where
  chunk : Bytes → Fill
  idle : Fill
  closed : Fill

pub record Wait : Type 0 where
  pub terminated : Bool
  pub fill : Fill

unfoldable pub transport_fill : Fill → Transport → Transport
transport_fill (chunk bytes) t = record t { rx_buffer = t.rx_buffer ++ bytes }
transport_fill idle t = t
transport_fill closed t = record t { rx_eof = true }

-- `ended` is the result false; `waiting` is a call that still waits when the rounds are over, and
-- `failed` a process that has copied bytes from behind the buffer.
pub data Next : Type 0 where
  delivered : Zval → Transport → List Wait → Next
  ended : Transport → Next
  waiting : Transport → Next
  failed : Next

-- Cancellations are registered as they pass.
unfoldable pub track : Zval → Transport → Transport
track message t =
    if message_method_equals message cancel_request then register_cancellation message t else t

-- One round up to the wait: the frames are drained and the queue is popped.
pub data Polled : Type 0 where
  got : Zval → Transport → Polled
  no_message : Transport → Polled
  broken : Polled

unfoldable pub after_pop : Option Zval × Transport → Polled
unfolding track
after_pop (some message, t) = got message (track message t)
after_pop (none, t) = no_message t

unfoldable pub after_drain : Drained → Polled
unfolding after_pop
after_drain (drained t) = after_pop (pending_pop t)
after_drain _ = broken

module _ (decode : Bytes → Zval) where
  unfoldable pub poll : Transport → Polled
  unfolding after_drain
  poll t = after_drain (drain_frames decode t)

  unfoldable pub next_message : List Wait → Transport → Next
  unfolding poll transport_fill
  next_message [] t = elim (poll t) [
    | got message t' ↦ delivered message t' []
    | no_message t' ↦ if t'.rx_eof then ended t' else waiting t'
    | broken ↦ failed
  ]
  next_message (wait ∷ waits) t = elim (poll t) [
    | got message t' ↦ delivered message t' (wait ∷ waits)
    | no_message t' ↦
        let more = next_message waits (transport_fill wait.fill t') in
        if t'.rx_eof then ended t' else if wait.terminated then ended t' else more
    | broken ↦ failed
  ]

  -- Whatever the rounds are, a message that is queued after the drain is delivered before the loop
  -- ends or waits, also at the end of input and after SIGTERM; the rest of the queue stays.
  pub next_message-got :
      (waits : List Wait) (t t' : Transport) (message : Zval)
      → poll t ≡ got message t'
      → next_message waits t ≡ delivered message t' waits
  unfolding next_message
  next_message-got [] t t' message h = rw (h, next_message)
  next_message-got (wait ∷ waits) t t' message h = rw (h, next_message)
