-- ===== src/Transport/Cancel.antt =====
-- Cancellation of queued requests (ext/lsp_server_documents.c): `lsp_protocol_request_is_cancelled`
-- and `lsp_pending_take_cancellation` on the abstract queue.
use ext_lsparrot.Base.{
  drop-take, ◌≤◌, ◌≡◌, refl, sym, ap, ◌∙◌, Bool, true, false, ◌||◌, inl, inr, Bool-cases, Option,
  none, some, List, [], ◌∷◌, ◌++◌, if◌then◌else◌, Bytes, length, take, drop, length-append,
  length-take, arith,
}
use ext_lsparrot.Zval.{Zval, null, is_array}
use ext_lsparrot.Transport.{Transport}
use ext_lsparrot.Transport.Queue.{
  cancels, take_from, pending_take_cancellation, key_is_cancelled, has_id, del_id,
}
use ext_lsparrot.Transport.Fifo.{
  messages_of, messages_of-array, messages_of-other, queue, queue-entries,
}

-- The head never passes the end of the queue.
pub record IsWell (t : Transport) : Type 0 where
  pub head_in_queue : t.pending_head ≤ length t.pending_messages

-- Some message passes the test; the list without the first that does.
abbrev pub any : (Zval → Bool) → List Zval → Bool
any p [] = false
any p (m ∷ ms) = p m || any p ms

abbrev pub remove_first : (Zval → Bool) → List Zval → List Zval
remove_first p [] = []
remove_first p (m ∷ ms) = if p m then ms else m ∷ remove_first p ms

cancels-array : (key : Bytes) (m : Zval) → cancels key m ≡ true → is_array (some m) ≡ true
unfolding cancels
cancels-array key m h = ground arith

abbrev Takes : Bytes → List Zval → Option (List Zval) → Type 0
Takes key entries none = any (cancels key) (messages_of entries) ≡ false
Takes key entries (some rest) =
    (any (cancels key) (messages_of entries) ≡ true)
    × (messages_of rest ≡ remove_first (cancels key) (messages_of entries))
    × (length rest ≡ length entries)

null-other : is_array (some null) ≡ false
unfolding is_array
null-other = refl

Takes-here :
    (key : Bytes) (m : Zval) (rest : List Zval)
    → cancels key m ≡ true
    → Takes key (m ∷ rest) (some (null ∷ rest))
Takes-here key m rest h =
    rw (messages_of-array m rest (cancels-array key m h))
      (rw h (refl, messages_of-other null rest null-other, refl))

Takes-later :
    (key : Bytes) (m : Zval) (rest : List Zval) (r : Option (List Zval))
    → cancels key m ≡ false
    → Takes key rest r
    → Takes key (m ∷ rest) (elim r [ none ↦ none | some rest' ↦ some (m ∷ rest') ])
Takes-later key m rest none h s = elim (Bool-cases (is_array (some m))) [
  | inl array ↦ rw (messages_of-array m rest array) (rw h s)
  | inr other ↦ rw (messages_of-other m rest other) s
]
Takes-later key m rest (some rest') h s = elim (Bool-cases (is_array (some m))) [
  | inl array ↦
      rw (messages_of-array m rest array, messages_of-array m rest' array)
        (rw h (s.0, ap (λ (q : List Zval). m ∷ q) s.1, omega (arith, s.2)))
  | inr other ↦
      rw (messages_of-other m rest other, messages_of-other m rest' other)
        (s.0, s.1, omega (arith, s.2))
]

take_from-Takes : (key : Bytes) (entries : List Zval) → Takes key entries (take_from key entries)
unfolding take_from
take_from-Takes key [] = unfold messages_of in refl
take_from-Takes key (m ∷ rest) = elim (Bool-cases (cancels key m)) [
  | inl here ↦ rw (here, take_from) (Takes-here key m rest here)
  | inr later ↦
      rw (later, take_from)
        (Takes-later key m rest (take_from key rest) later (take_from-Takes key rest))
]

-- The queue with the entries from the head on replaced.
abbrev replaced : Transport → List Zval → Transport
replaced t entries = record t {
  pending_messages = take t.pending_head t.pending_messages ++ entries;
}

replaced-queue :
    (t : Transport) (entries : List Zval)
    → IsWell t
    → queue (replaced t entries) ≡ messages_of entries
unfolding queue
replaced-queue t entries well =
    ap messages_of (drop-take t.pending_head t.pending_messages entries well.head_in_queue)

-- What an answer tells about the queue before and after.
record Answers (key : Bytes) (t : Transport) (r : Bool × Transport) : Type 0 where
  asked : r.0 ≡ any (cancels key) (queue t)
  left : queue r.1 ≡ remove_first (cancels key) (queue t)
  well : IsWell r.1

remove_first-none : (p : Zval → Bool) (q : List Zval) → any p q ≡ false → remove_first p q ≡ q
remove_first-none p [] h = refl
remove_first-none p (m ∷ q) h = elim (Bool-cases (p m)) [
  | inl here ↦ cc (here, h)
  | inr later ↦ rw later (ap (λ (r : List Zval). m ∷ r) (remove_first-none p q (rw later at h)))
]

pending_take_cancellation-Answers :
    (key : Bytes) (t : Transport) → IsWell t → Answers key t (pending_take_cancellation key t)
unfolding pending_take_cancellation
pending_take_cancellation-Answers key t well =
    found (take_from key (drop t.pending_head t.pending_messages))
      (take_from-Takes key (drop t.pending_head t.pending_messages))
  where
    found :
        (r : Option (List Zval))
        → Takes key (drop t.pending_head t.pending_messages) r
        → Answers key t (elim r [ none ↦ (false, t) | some entries ↦ (true, replaced t entries) ])
    found none s = record {
      asked = sym (rw (queue-entries t) s);
      left = sym (remove_first-none (cancels key) (queue t) (rw (queue-entries t) s));
      well = well;
    }
    found (some entries) s = record {
      asked = sym (rw (queue-entries t) s.0);
      left = replaced-queue t entries well ∙ rw (queue-entries t) s.1;
      well = record {
        head_in_queue = omega (
          arith,
          well.head_in_queue,
          length-append {0} (take t.pending_head t.pending_messages) entries,
          length-take {0} t.pending_head t.pending_messages,
        );
      };
    }

has_id-del_id : (keys : List Bytes) (key : Bytes) → has_id (del_id keys key) key ≡ false
unfolding has_id del_id
has_id-del_id [] key = refl
has_id-del_id (k ∷ keys) key = ground (arith, has_id-del_id keys key)

pending_take_cancellation-ids :
    (key : Bytes) (t : Transport)
    → (pending_take_cancellation key t).1.cancelled_ids ≡ t.cancelled_ids
unfolding pending_take_cancellation
pending_take_cancellation-ids key t = found (take_from key (drop t.pending_head t.pending_messages))
  where
    found :
        (r : Option (List Zval))
        → (let s : Bool × Transport = elim r [
          | none ↦ (false, t)
          | some entries ↦ (true, replaced t entries)
        ] in
            s.1.cancelled_ids)
          ≡ t.cancelled_ids
    found none = refl
    found (some entries) = refl

-- A request is cancelled exactly when its id is registered or a cancellation of it is queued. The
-- answer uses one cancellation up: the registered one, and else the first of the queue, where all
-- other messages stay; the id is not registered afterwards. The head of the queue is not behind its
-- end.
pub key_is_cancelled_lem :
    (key : Bytes) (t : Transport)
    → IsWell t
    → ((key_is_cancelled key t).0 ≡ has_id t.cancelled_ids key || any (cancels key) (queue t))
      × (queue (key_is_cancelled key t).1
          ≡ (if has_id t.cancelled_ids key then queue t else remove_first (cancels key) (queue t)))
      × (has_id (key_is_cancelled key t).1.cancelled_ids key ≡ false)
unfolding key_is_cancelled
key_is_cancelled_lem key t well = elim (Bool-cases (has_id t.cancelled_ids key)) [
  | inl registered ↦ rw registered (refl, unfold queue in refl, has_id-del_id t.cancelled_ids key)
  | inr unknown ↦ rw unknown (
    (pending_take_cancellation-Answers key t well).asked,
    (pending_take_cancellation-Answers key t well).left,
    rw (pending_take_cancellation-ids key t) unknown,
  )
]
