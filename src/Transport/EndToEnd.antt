-- ===== src/Transport/EndToEnd.antt =====
-- From the bytes on the wire to the messages of the server loop: `lsp_protocol_next_message`
-- (ext/lsp_server_documents.c) on a stream of frames.
use ext_lsparrot.Transport.Cancel.{IsWell}
use ext_lsparrot.Base.{
  drop-append_le, ◌≡◌, refl, ap, ◌∙◌, true, Option, some, none, List, [], ◌∷◌, ◌++◌, Bytes, map,
  drop, All,
}
use ext_lsparrot.Zval.{Zval, is_array}
use ext_lsparrot.Transport.{Transport}
use ext_lsparrot.Transport.Header.{open_ended, scan_headers}
use ext_lsparrot.Transport.Frame.{drained, drain_frames}
use ext_lsparrot.Transport.WriteRead.{rest_of}
use ext_lsparrot.Transport.Stream.{IsSendable, frames, enqueue_all, drain_frames-frames}
use ext_lsparrot.Transport.Queue.{pending_pop}
use ext_lsparrot.Transport.Fifo.{
  messages_of, messages_of-append, queue, dequeue, pending_pop-dequeue,
}
use ext_lsparrot.Transport.Next.{
  Wait, delivered, got, after_pop, after_drain, track, poll, next_message, next_message-got,
}

after_pop-some :
    (r : Option Zval × Transport) (message : Zval)
    → r.0 ≡ some message
    → after_pop r ≡ got message (track message r.1)
unfolding after_pop
after_pop-some (some m, t) message h =
    let e : m ≡ message = cc in ap (λ (x : Zval). got x (track x t)) e
after_pop-some (none, t) message h = cc

-- Every message is an array.
abbrev IsMessage : Zval → Type 0
IsMessage m = is_array (some m) ≡ true

messages_of-messages : (values : List Zval) → All IsMessage values → messages_of values ≡ values
unfolding messages_of
messages_of-messages [] h = refl
messages_of-messages (m ∷ values) h =
    rw h.0 (ap (λ (q : List Zval). m ∷ q) (messages_of-messages values h.1))

module _ (decode : Bytes → Zval) (tail : Bytes)
    (cut : scan_headers [] 0 none tail ≡ open_ended) where
  decoded-IsMessage :
      (bodies : List Bytes) → All (IsSendable decode) bodies → All IsMessage (map decode bodies)
  decoded-IsMessage [] h = tt
  decoded-IsMessage (body ∷ bodies) h = (h.0.decodes, decoded-IsMessage bodies h.1)

  queue-enqueue_all :
      (t : Transport) (values : List Zval)
      → IsWell t
      → All IsMessage values
      → queue (rest_of (enqueue_all t values) tail) ≡ queue t ++ values
  unfolding queue
  queue-enqueue_all t values well h =
      ap messages_of (drop-append_le t.pending_head t.pending_messages values well.head_in_queue)
      ∙ messages_of-append (drop t.pending_head t.pending_messages) values
      ∙ ap (λ (q : List Zval). messages_of (drop t.pending_head t.pending_messages) ++ q)
          (messages_of-messages values h)

  poll-drained :
      (t t' : Transport) (message : Zval)
      → drain_frames decode t ≡ drained t'
      → (pending_pop t').0 ≡ some message
      → poll decode t ≡ got message (track message (pending_pop t').1)
  unfolding poll
  poll-drained t t' message h found =
      ap after_drain h ∙ (unfold after_drain in after_pop-some (pending_pop t') message found)

  popped-oldest :
      (t : Transport) (message : Zval) (others : List Zval)
      → queue t ≡ message ∷ others
      → ((pending_pop t).0 ≡ some message) × (queue (pending_pop t).1 ≡ others)
  popped-oldest t message others h =
      let e : (let r : Option Zval × List Zval = ((pending_pop t).0, queue (pending_pop t).1) in r)
          ≡ dequeue (message ∷ others) =
        pending_pop-dequeue t ∙ ap dequeue h in
      (ap (λ (r : Option Zval × List Zval). r.0) e, ap (λ (r : Option Zval × List Zval). r.1) e)

  -- When frames have arrived, the loop delivers the oldest message of the queue and the frames
  -- together, at once and whatever the waits would bring, and keeps the others in order; the head
  -- of the queue is not behind its end, each frame fits a size_t and its body is not empty and
  -- decodes to an array, and the buffer ends with them or in the headers of another frame.
  pub next_message-frames :
      (waits : List Wait) (t : Transport) (bodies : List Bytes) (message : Zval)
      (others : List Zval)
      → IsWell t
      → All (IsSendable decode) bodies
      → queue t ++ map decode bodies ≡ message ∷ others
      → (t' : Transport) × (next_message decode waits (rest_of t (frames bodies ++ tail))
          ≡ delivered message (track message t') waits)
        × (queue t' ≡ others)
  next_message-frames waits t bodies message others well s oldest =
      let t1 = rest_of (enqueue_all t (map decode bodies)) tail in
      let popped : ((pending_pop t1).0 ≡ some message) × (queue (pending_pop t1).1 ≡ others) =
        popped-oldest t1 message others
          (queue-enqueue_all t (map decode bodies) well (decoded-IsMessage bodies s) ∙ oldest) in
      (
        (pending_pop t1).1,
        next_message-got decode waits (rest_of t (frames bodies ++ tail))
            (track message (pending_pop t1).1) message
            (poll-drained (rest_of t (frames bodies ++ tail)) t1 message
              (drain_frames-frames decode tail cut bodies t s) popped.0),
        popped.1,
      )
