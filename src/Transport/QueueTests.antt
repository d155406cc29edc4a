-- ===== src/Transport/QueueTests.antt =====
-- Inputs for the theorems about the message queue, and runs of the definitions.
use ext_lsparrot.Base.{arith, ◌≡◌, List, [], ◌∷◌, codes, Option, true, false, if◌then◌else◌, ◌↔◌}
use ext_lsparrot.Base.Int.{pos}
use ext_lsparrot.Zval.{Zval, arr, nil, item, name, str, long}
use ext_lsparrot.Transport.{Transport, transport_shutdown}
use ext_lsparrot.Transport.Queue.{
  cancels, has_id, key_is_cancelled, queue_supersedes_change, pending_pop,
}
use ext_lsparrot.Transport.Fifo.{queue, dequeue, pending_pop-dequeue}
use ext_lsparrot.Transport.Cancel.{IsWell, any, remove_first, key_is_cancelled_lem}
use ext_lsparrot.Transport.Supersede.{Supersedes, queue_supersedes_change_iff}

-- A cancellation of request 7, and a change of a document.
abbrev cancel_seven : Zval
cancel_seven = arr (
    item (name (codes "method")) (str (codes "$/cancelRequest"))
      (item (name (codes "params")) (arr (item (name (codes "id")) (long (pos 7)) nil)) nil))

abbrev change : Zval
change = arr (
    item (name (codes "method")) (str (codes "textDocument/didChange")) (
      item (name (codes "params"))
        (arr (
          item (name (codes "textDocument"))
            (arr (item (name (codes "uri")) (str (codes "file:///a")) nil)) nil))
        nil))

-- The first entry is consumed already.
abbrev queued : Transport
queued = record transport_shutdown {
  pending_messages = long (pos 0) ∷ cancel_seven ∷ change ∷ [];
  pending_head = 1;
}

queued-IsWell : IsWell queued
queued-IsWell = omega arith

pending_pop-dequeue_example :
    (let r : Option Zval × List Zval = ((pending_pop queued).0, queue (pending_pop queued).1) in r)
    ≡ dequeue (queue queued)
pending_pop-dequeue_example = pending_pop-dequeue queued

key_is_cancelled_lem_example :
    ((key_is_cancelled (codes "i:7") queued).0 ≡ any (cancels (codes "i:7")) (queue queued))
    × (queue (key_is_cancelled (codes "i:7") queued).1 ≡ (
        if has_id [] (codes "i:7")
        then queue queued
        else remove_first (cancels (codes "i:7")) (queue queued)))
    × (has_id (key_is_cancelled (codes "i:7") queued).1.cancelled_ids (codes "i:7") ≡ false)
unfolding has_id
key_is_cancelled_lem_example = key_is_cancelled_lem (codes "i:7") queued queued-IsWell

queue_supersedes_change_iff_example :
    (queue_supersedes_change (codes "file:///a") queued ≡ true)
    ↔ Supersedes (codes "file:///a") (queue queued)
queue_supersedes_change_iff_example = queue_supersedes_change_iff (codes "file:///a") queued
