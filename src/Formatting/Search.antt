-- ===== src/Formatting/Search.antt =====
-- The binary search of ext/lsp_server_formatting.c (`lsp_format_line_of_offset`) finds the line that
-- `lsp_offset_to_position` counts.
use mathlib.Core.Path.{subst}
use ext_lsparrot.Base.{
  ℕ, zero, suc, ◌+◌, ◌-◌, ◌/◌, ◌<◌, ◌≤◌, ◌≡◌, refl, sym, ap, ◌∙◌, false, Bytes, List, [], ◌∷◌,
  Bool-cases, inl, inr, arith, ltb, ltb→lt, ltb→ge, leb, leb→le, ◌==◌, length, take, get_or,
  if◌then◌else◌,
}
use ext_lsparrot.Formatting.Lines.{
  line_starts, starts_behind, search_line, line_of_offset, count_newlines,
}
use ext_lsparrot.Position.{position_loop, offset_to_position}

leb→gt : (a b : ℕ) → leb a b ≡ false → b < a
leb→gt a b h = ground arith

-- The search keeps a line that starts at or before the offset, and an end that does not.
search_line_lem :
    (fuel : ℕ) (starts : List ℕ) (offset low high : ℕ)
    → high - low ≤ fuel
    → low < high
    → high ≤ length starts
    → get_or starts low 0 ≤ offset
    → (high < length starts → offset < get_or starts high 0)
    → let r = search_line fuel starts offset low high in
      (r < length starts)
      × (get_or starts r 0 ≤ offset)
      × (r + 1 < length starts → offset < get_or starts (r + 1) 0)
unfolding search_line
search_line_lem zero starts offset low high f a b before behind = absurd (omega arith)
search_line_lem (suc fuel) starts offset low high f a b before behind =
    let mid = low + (high - low) / 2 in
    elim (Bool-cases (ltb (low + 1) high)) [
      | inl wide ↦
          let gap = ltb→lt (low + 1) high wide in
          elim (Bool-cases (leb (get_or starts mid 0) offset)) [
            | inl here ↦
                rw (wide, here)
                  (search_line_lem fuel starts offset mid high (omega arith) (omega arith) b
                    (leb→le (get_or starts mid 0) offset here) behind)
            | inr later ↦
                rw (wide, later)
                  (search_line_lem fuel starts offset low mid (omega arith) (omega arith)
                    (omega arith) before (λ _. leb→gt (get_or starts mid 0) offset later))
          ]
      | inr narrow ↦
          let next = ltb→ge (low + 1) high narrow in
          let end : low + 1 ≡ high = omega arith in
          rw narrow (omega arith, before, λ h. rw end (behind (omega arith)))
    ]

starts_behind-gt :
    (o : ℕ) (text : Bytes) (i : ℕ)
    → i < length (starts_behind o text)
    → o < get_or (starts_behind o text) i 0
unfolding starts_behind
starts_behind-gt o [] i h = absurd (omega arith)
starts_behind-gt o (c ∷ text) zero h = elim (Bool-cases (c == b'\n')) [
  | inl newline ↦ rw newline (omega arith)
  | inr inside ↦
      let later = starts_behind-gt (suc o) text zero (rw inside at h) in rw inside (omega arith)
]
starts_behind-gt o (c ∷ text) (suc i) h = elim (Bool-cases (c == b'\n')) [
  | inl newline ↦
      let h' : suc i < length (suc o ∷ starts_behind (suc o) text) = rw newline at h in
      let later = starts_behind-gt (suc o) text i (omega arith) in rw newline (omega arith)
  | inr inside ↦
      let later = starts_behind-gt (suc o) text (suc i) (rw inside at h) in rw inside (omega arith)
]

-- A line starts at or before an offset exactly if so many newlines stand before it.
starts_behind-count :
    (o : ℕ) (text : Bytes) (k i : ℕ)
    → i < length (starts_behind o text)
    → (get_or (starts_behind o text) i 0 ≤ o + k → i < count_newlines (take k text))
      × (o + k < get_or (starts_behind o text) i 0 → count_newlines (take k text) ≤ i)
unfolding starts_behind count_newlines
starts_behind-count o [] k i h = absurd (omega arith)
starts_behind-count o (c ∷ text) zero i h =
    let behind = starts_behind-gt o (c ∷ text) i h in (λ e. absurd (omega arith), λ e. omega arith)
starts_behind-count o (c ∷ text) (suc k) zero h = elim (Bool-cases (c == b'\n')) [
  | inl newline ↦ rw newline (λ e. omega arith, λ e. absurd (omega arith))
  | inr inside ↦
      let (before, behind) = starts_behind-count (suc o) text k zero (rw inside at h) in
      rw inside (λ e. before (omega arith), λ e. behind (omega arith))
]
starts_behind-count o (c ∷ text) (suc k) (suc i) h = elim (Bool-cases (c == b'\n')) [
  | inl newline ↦
      let h' : suc i < length (suc o ∷ starts_behind (suc o) text) = rw newline at h in
      let (before, behind) = starts_behind-count (suc o) text k i (omega arith) in
      rw newline (
        λ e. let b = before (omega arith) in omega arith,
        λ e. let b = behind (omega arith) in omega arith,
      )
  | inr inside ↦
      let (before, behind) = starts_behind-count (suc o) text k (suc i) (rw inside at h) in
      rw inside (λ e. before (omega arith), λ e. behind (omega arith))
]

count-le :
    (o : ℕ) (text : Bytes) (k : ℕ) → count_newlines (take k text) ≤ length (starts_behind o text)
unfolding starts_behind count_newlines
count-le o text zero = omega arith
count-le o [] (suc k) = omega arith
count-le o (c ∷ text) (suc k) = elim (Bool-cases (c == b'\n')) [
  | inl newline ↦ rw newline (omega (arith, count-le (suc o) text k))
  | inr inside ↦ rw inside (count-le (suc o) text k)
]

position_loop-count :
    (i line start : ℕ) (text : Bytes)
    → (position_loop i line start text).0 ≡ line + count_newlines text
unfolding position_loop count_newlines
position_loop-count i line start [] = omega arith
position_loop-count i line start (c ∷ text) = ground (
  arith,
  position_loop-count (suc i) (suc line) (suc i) text,
  position_loop-count (suc i) line start text,
)

take_all : (k : ℕ) (text : Bytes) → length text ≤ k → take k text ≡ text
take_all zero [] h = refl
take_all zero (c ∷ text) h = elim h [ ]
take_all (suc k) [] h = refl
take_all (suc k) (c ∷ text) h = ap (λ (t : Bytes). c ∷ t) (take_all k text (omega arith))

take_clamped :
    (k : ℕ) (text : Bytes)
    → take (if ltb (length text) k then length text else k) text ≡ take k text
take_clamped k text = elim (Bool-cases (ltb (length text) k)) [
  | inl short ↦
      let past = ltb→lt (length text) k short in
      rw short (take_all (length text) text (omega arith) ∙ sym (take_all k text (omega arith)))
  | inr long ↦ rw long refl
]

pub line_starts-pos : (text : Bytes) → 0 < length (line_starts text)
unfolding line_starts
line_starts-pos text = omega arith

first_start : (text : Bytes) → get_or (line_starts text) 0 0 ≡ 0
unfolding line_starts
first_start text = refl

-- The line that the search is about is the count.
at_most_count :
    (text : Bytes) (offset r : ℕ)
    → r < length (line_starts text)
    → get_or (line_starts text) r 0 ≤ offset
    → r ≤ count_newlines (take offset text)
unfolding line_starts
at_most_count text offset zero h before = omega arith
at_most_count text offset (suc i) h before =
    (starts_behind-count 0 text offset i (omega arith)).0 (omega arith)

at_least_count :
    (text : Bytes) (offset r : ℕ)
    → (r + 1 < length (line_starts text) → offset < get_or (line_starts text) (r + 1) 0)
    → count_newlines (take offset text) ≤ r
unfolding line_starts
at_least_count text offset r behind = elim (Bool-cases (ltb r (length (starts_behind 0 text)))) [
  | inl more ↦
      let next : r + 1 ≡ suc r = omega arith in
      let inside = ltb→lt r (length (starts_behind 0 text)) more in
      let later : offset < get_or (line_starts text) (suc r) 0 =
        subst (λ (k : ℕ). offset < get_or (line_starts text) k 0) next (behind (omega arith)) in
      (starts_behind-count 0 text offset r inside).1 (omega arith)
  | inr over ↦
      let past = ltb→ge r (length (starts_behind 0 text)) over in
      let bound = count-le 0 text offset in omega arith
]

-- The binary search gives, for every offset, the line that the count of the newlines before the
-- offset gives as its position.
pub line_of_offset-position :
    (text : Bytes) (offset : ℕ)
    → line_of_offset (line_starts text) offset ≡ (offset_to_position text offset).line
unfolding line_of_offset offset_to_position
line_of_offset-position text offset =
    let starts = line_starts text in
    let (inside, before, behind) =
      search_line_lem (length starts) starts offset 0 (length starts) (omega arith)
        (line_starts-pos text) (omega arith) (rw (first_start text) (omega arith))
        (λ h. absurd (omega arith)) in
    let below = at_most_count text offset _ inside before in
    let above = at_least_count text offset _ behind in
    let counted : search_line (length starts) starts offset 0 (length starts)
        ≡ count_newlines (take offset text) =
      omega arith in
    counted
    ∙ sym
        (position_loop-count 0 0 0 _ ∙ omega (arith, ap count_newlines (take_clamped offset text)))
