-- ===== src/Transport/Fifo.antt =====
-- The message queue of ext/lsp_server_documents.c is a first-in first-out queue: its abstract view
-- forgets the head index, the consumed entries and the entries that cancellations have blanked.
use ext_lsparrot.Base.{
  ℕ, suc, ◌+◌, ◌-◌, ◌≤◌, ◌<◌, ◌≡◌, refl, sym, ap, ◌∙◌, true, false, inl, inr, Bool-cases, Option,
  none, some, List, [], ◌∷◌, ◌++◌, leb, ltb, if◌then◌else◌, length, drop, drop-drop, drop_all,
  drop-append_le, leb→le, arith,
}
use ext_lsparrot.Zval.{Zval, is_array}
use ext_lsparrot.Transport.{Transport}
use ext_lsparrot.Transport.Frame.{enqueue}
use ext_lsparrot.Transport.Queue.{popped, pop_from, pending_pop, clear_pending}

-- The entries that are messages.
unfoldable pub messages_of : List Zval → List Zval
messages_of [] = []
messages_of (entry ∷ rest) =
    if is_array (some entry) then entry ∷ messages_of rest else messages_of rest

-- The abstract queue.
unfoldable pub queue : Transport → List Zval
unfolding messages_of
queue t = messages_of (drop t.pending_head t.pending_messages)

-- What a first-in first-out queue gives.
abbrev pub dequeue : List Zval → Option Zval × List Zval
dequeue [] = (none, [])
dequeue (message ∷ rest) = (some message, rest)

pub messages_of-array :
    (entry : Zval) (rest : List Zval)
    → is_array (some entry) ≡ true
    → messages_of (entry ∷ rest) ≡ entry ∷ messages_of rest
unfolding messages_of
messages_of-array entry rest h = rw h

pub messages_of-other :
    (entry : Zval) (rest : List Zval)
    → is_array (some entry) ≡ false
    → messages_of (entry ∷ rest) ≡ messages_of rest
unfolding messages_of
messages_of-other entry rest h = rw h

pub messages_of-append :
    (xs ys : List Zval) → messages_of (xs ++ ys) ≡ messages_of xs ++ messages_of ys
unfolding messages_of
messages_of-append [] ys = refl
messages_of-append (entry ∷ xs) ys = elim (Bool-cases (is_array (some entry))) [
  | inl array ↦ rw array (ap (λ (q : List Zval). entry ∷ q) (messages_of-append xs ys))
  | inr other ↦ rw other (messages_of-append xs ys)
]

-- What the loop has found, from index `head` on.
abbrev Pops : List Zval → ℕ → Option (Zval × ℕ) → Type 0
Pops entries head none = messages_of entries ≡ []
Pops entries head (some (message, next)) =
    (head < next) × (messages_of entries ≡ message ∷ messages_of (drop (next - head) entries))

Pops-skip :
    (entry : Zval) (rest : List Zval) (head : ℕ) (r : Option (Zval × ℕ))
    → is_array (some entry) ≡ false
    → Pops rest (suc head) r
    → Pops (entry ∷ rest) head r
Pops-skip entry rest head none h p = messages_of-other entry rest h ∙ p
Pops-skip entry rest head (some (message, next)) h p = (
  omega arith,
  messages_of-other entry rest h
      ∙ p.1
      ∙ ap (λ (k : ℕ). message ∷ messages_of (drop k (entry ∷ rest)))
          (let e : suc (next - suc head) ≡ next - head = omega (arith, p.0) in e),
)

pop_from-Pops : (entries : List Zval) (head : ℕ) → Pops entries head (pop_from head entries)
unfolding pop_from
pop_from-Pops [] head = unfold messages_of in refl
pop_from-Pops (entry ∷ rest) head = elim (Bool-cases (is_array (some entry))) [
  | inl array ↦
      rw (array, pop_from)
        (
          omega arith,
          messages_of-array entry rest array
              ∙ ap (λ (k : ℕ). entry ∷ messages_of (drop k (entry ∷ rest)))
                  (let e : 1 ≡ suc head - head = omega arith in e),
        )
  | inr other ↦
      rw (other, pop_from)
        (Pops-skip entry rest head (pop_from (suc head) rest) other (pop_from-Pops rest (suc head)))
]

queue-clear : (t : Transport) → queue (clear_pending t) ≡ []
unfolding queue
queue-clear t = refl

queue-head :
    (t : Transport) (head : ℕ)
    → queue (record t { pending_head = head }) ≡ messages_of (drop head t.pending_messages)
unfolding queue
queue-head t head = refl

-- Behind the entries that were found, whether the queue was cleaned or not.
queue-behind :
    (t : Transport) (head : ℕ)
    → queue (
        if leb (length t.pending_messages) head
        then clear_pending t
        else record t { pending_head = head })
      ≡ messages_of (drop head t.pending_messages)
queue-behind t head = elim (Bool-cases (leb (length t.pending_messages) head)) [
  | inl past ↦ rw past (
      queue-clear t
      ∙ rw (drop_all head t.pending_messages (leb→le (length t.pending_messages) head past))
          (unfold messages_of in refl))
  | inr inside ↦ rw inside (queue-head t head)
]

abbrev view : Option Zval × Transport → Option Zval × List Zval
view r = (r.0, queue r.1)

abbrev pair : Option Zval → List Zval → Option Zval × List Zval
pair found q = (found, q)

pub queue-entries : (t : Transport) → queue t ≡ messages_of (drop t.pending_head t.pending_messages)
unfolding queue
queue-entries t = refl

queue-after_none :
    (t : Transport)
    → messages_of (drop t.pending_head t.pending_messages) ≡ []
    → queue (if ltb 0 (length t.pending_messages) then clear_pending t else t) ≡ []
queue-after_none t p = elim (Bool-cases (ltb 0 (length t.pending_messages))) [
  | inl some_there ↦ rw some_there (queue-clear t)
  | inr none_there ↦ rw none_there (queue-entries t ∙ p)
]

popped-dequeue :
    (t : Transport) (r : Option (Zval × ℕ))
    → Pops (drop t.pending_head t.pending_messages) t.pending_head r
    → view (popped t r) ≡ dequeue (queue t)
unfolding popped
popped-dequeue t none p =
    ap (λ (q : List Zval). pair none q) (queue-after_none t p)
    ∙ ap dequeue (sym (queue-entries t ∙ p))
popped-dequeue t (some (message, next)) p =
    ap (λ (q : List Zval). pair (some message) q)
      (queue-behind t next
        ∙ ap (λ (k : ℕ). messages_of (drop k t.pending_messages))
            (let e : next ≡ t.pending_head + (next - t.pending_head) = omega (arith, p.0) in e)
        ∙ ap messages_of (drop-drop t.pending_head (next - t.pending_head) t.pending_messages))
    ∙ ap dequeue (sym (queue-entries t ∙ p.1))

-- Popping the queue is the first-in first-out operation on its view: the oldest message that has
-- not been blanked, and the queue without it, or nothing from an empty queue.
pub pending_pop-dequeue :
    (t : Transport)
    → (let r : Option Zval × List Zval = ((pending_pop t).0, queue (pending_pop t).1) in r)
      ≡ dequeue (queue t)
unfolding pending_pop
pending_pop-dequeue t =
    popped-dequeue t (pop_from t.pending_head (drop t.pending_head t.pending_messages))
      (pop_from-Pops (drop t.pending_head t.pending_messages) t.pending_head)

-- A decoded message that is added is the youngest of the queue.
pub queue-enqueue :
    (t : Transport) (message : Zval)
    → t.pending_head ≤ length t.pending_messages
    → is_array (some message) ≡ true
    → queue (enqueue t message) ≡ queue t ++ message ∷ []
unfolding queue
queue-enqueue t message h array =
    rw (drop-append_le t.pending_head t.pending_messages (message ∷ []) h) (
      messages_of-append (drop t.pending_head t.pending_messages) (message ∷ [])
      ∙ ap (λ (q : List Zval). messages_of (drop t.pending_head t.pending_messages) ++ q)
          (messages_of-array message [] array
            ∙ ap (λ (q : List Zval). message ∷ q) (unfold messages_of in refl)))
