-- ===== src/Transport/Supersede.antt =====
-- When the diagnostics of a change are skipped (ext/lsp_server_documents.c):
-- `lsp_protocol_queue_supersedes_change` on the abstract queue.
use ext_lsparrot.Base.{
  ◌∙◌, ◌≡◌, refl, Bool, true, false, inl, inr, Bool-cases, List, [], ◌∷◌, ◌↔◌, some, if◌then◌else◌,
  Bytes, drop, arith,
}
use ext_lsparrot.Zval.{Zval, is_array}
use ext_lsparrot.Transport.{Transport}
use ext_lsparrot.Transport.Queue.{
  has_request_id, replaces, supersedes_from, queue_supersedes_change,
}
use ext_lsparrot.Transport.Fifo.{messages_of, messages_of-array, messages_of-other, queue}

-- A change or close of the document is queued, and no request stands before it.
pub data Supersedes (uri : Bytes) : List Zval → Type 0 where
  now :
      {m : Zval} {q : List Zval}
      → has_request_id m ≡ false
      → replaces uri m ≡ true
      → Supersedes uri (m ∷ q)
  later :
      {m : Zval} {q : List Zval}
      → has_request_id m ≡ false
      → Supersedes uri q
      → Supersedes uri (m ∷ q)

-- The test on a queue that holds messages only.
supersedes_in : Bytes → List Zval → Bool
supersedes_in uri [] = false
supersedes_in uri (m ∷ q) =
    if has_request_id m then false else if replaces uri m then true else supersedes_in uri q

supersedes_from-messages_of :
    (uri : Bytes) (entries : List Zval)
    → supersedes_from uri entries ≡ supersedes_in uri (messages_of entries)
unfolding supersedes_from supersedes_in
supersedes_from-messages_of uri [] = unfold messages_of in refl
supersedes_from-messages_of uri (m ∷ rest) = elim (Bool-cases (is_array (some m))) [
  | inl array ↦
      rw (messages_of-array m rest array) (rw (array, supersedes_from-messages_of uri rest))
  | inr other ↦
      rw (messages_of-other m rest other) (rw other (supersedes_from-messages_of uri rest))
]

supersedes_in→Supersedes :
    (uri : Bytes) (q : List Zval) → supersedes_in uri q ≡ true → Supersedes uri q
unfolding supersedes_in
supersedes_in→Supersedes uri [] h = cc
supersedes_in→Supersedes uri (m ∷ q) h = elim (Bool-cases (has_request_id m)) [
  | inl request ↦ cc (request, h)
  | inr notification ↦ elim (Bool-cases (replaces uri m)) [
    | inl here ↦ now notification here
    | inr other ↦
        later notification (supersedes_in→Supersedes uri q (rw (notification, other) at h))
  ]
]

Supersedes→supersedes_in :
    (uri : Bytes) {q : List Zval} → Supersedes uri q → supersedes_in uri q ≡ true
unfolding supersedes_in
Supersedes→supersedes_in uri (now h r) = rw (h, r)
Supersedes→supersedes_in uri (later {m = m} h s) = ground (arith, Supersedes→supersedes_in uri s)

-- The answer is yes exactly when a change or a close of the document is queued with no request
-- before it.
pub queue_supersedes_change_iff :
    (uri : Bytes) (t : Transport)
    → (queue_supersedes_change uri t ≡ true) ↔ Supersedes uri (queue t)
unfolding queue_supersedes_change queue
queue_supersedes_change_iff uri t =
    let same : supersedes_from uri (drop t.pending_head t.pending_messages)
        ≡ supersedes_in uri (messages_of (drop t.pending_head t.pending_messages)) =
      supersedes_from-messages_of uri (drop t.pending_head t.pending_messages) in
    (
      λ h.
          supersedes_in→Supersedes uri (messages_of (drop t.pending_head t.pending_messages))
            (rw same at h),
      λ s. same ∙ Supersedes→supersedes_in uri s,
    )
