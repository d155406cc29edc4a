-- ===== src/Formatting/Split.antt =====
-- The lines of a text, and the offsets at which ext/lsp_server_formatting.c (`lsp_format_line_starts`,
-- `lsp_format_emit`) cuts it.
use ext_lsparrot.Base.{
  ℕ, zero, suc, ◌+◌, ◌-◌, ◌<◌, ◌≡◌, refl, sym, ap, ◌∙◌, true, false, Bytes, List, [], ◌∷◌, ◌++◌,
  map, Bool-cases, inl, inr, arith, ltb, lt→ltb, ◌==◌, length, take, drop, drop-nil, get_or,
  if◌then◌else◌,
}
use ext_lsparrot.Formatting.Emit.{line_slice}
use ext_lsparrot.Formatting.Lines.{line_starts, starts_behind}

-- A byte in front of the first line.
unfoldable pub cons_first : ℕ → List Bytes → List Bytes
cons_first c [] = (c ∷ []) ∷ []
cons_first c (line ∷ lines) = (c ∷ line) ∷ lines

-- The lines of a text, each with its newline; behind the last newline there is one more.
unfoldable pub split_lines : Bytes → List Bytes
unfolding cons_first
split_lines [] = [] ∷ []
split_lines (c ∷ text) =
    let lines = split_lines text in if c == b'\n' then (c ∷ []) ∷ lines else cons_first c lines

unfoldable pub join : List Bytes → Bytes
join [] = []
join (line ∷ lines) = line ++ join lines

join-cons_first : (c : ℕ) (lines : List Bytes) → join (cons_first c lines) ≡ c ∷ join lines
unfolding join cons_first
join-cons_first c [] = refl
join-cons_first c (line ∷ lines) = refl

pub join-split_lines : (text : Bytes) → join (split_lines text) ≡ text
unfolding join split_lines
join-split_lines [] = refl
join-split_lines (c ∷ text) = elim (Bool-cases (c == b'\n')) [
  | inl newline ↦ rw newline (ap (λ (t : Bytes). c ∷ t) (join-split_lines text))
  | inr inside ↦
      rw inside
        (join-cons_first c (split_lines text) ∙ ap (λ (t : Bytes). c ∷ t) (join-split_lines text))
]

-- The pieces of a text between offsets.
unfoldable pub slices : Bytes → List ℕ → List Bytes
slices text [] = []
slices text (s ∷ []) = take (length text - s) (drop s text) ∷ []
slices text (s ∷ t ∷ starts) = take (t - s) (drop s text) ∷ slices text (t ∷ starts)

line_slice-cons :
    (text : Bytes) (s : ℕ) (starts : List ℕ) (i : ℕ)
    → line_slice text (s ∷ starts) (suc i) ≡ line_slice text starts i
unfolding line_slice
line_slice-cons text s starts i =
    let next : suc i + 1 ≡ suc (i + 1) = omega arith in
    rw next (
      rw
        (let e : ltb (suc (i + 1)) (suc (length starts)) ≡ ltb (i + 1) (length starts) =
            ground arith in
          e)
        refl)

line_slice-slices :
    (text : Bytes) (starts : List ℕ) (i : ℕ)
    → i < length starts
    → line_slice text starts i ≡ get_or (slices text starts) i []
unfolding line_slice slices
line_slice-slices text [] i h = elim h [ ]
line_slice-slices text (s ∷ []) zero h = refl
line_slice-slices text (s ∷ []) (suc i) h = absurd (omega arith)
line_slice-slices text (s ∷ t ∷ starts) zero h =
    rw (lt→ltb (0 + 1) (length (s ∷ t ∷ starts)) (omega arith)) refl
line_slice-slices text (s ∷ t ∷ starts) (suc i) h =
    line_slice-cons text s (t ∷ starts) i ∙ line_slice-slices text (t ∷ starts) i (omega arith)

starts_behind-suc :
    (o : ℕ) (text : Bytes) → starts_behind (suc o) text ≡ map suc (starts_behind o text)
unfolding starts_behind
starts_behind-suc o [] = refl
starts_behind-suc o (c ∷ text) = elim (Bool-cases (c == b'\n')) [
  | inl newline ↦ rw newline (ap (λ (t : List ℕ). suc (suc o) ∷ t) (starts_behind-suc (suc o) text))
  | inr inside ↦ rw inside (starts_behind-suc (suc o) text)
]

slices-map-suc :
    (c : ℕ) (text : Bytes) (starts : List ℕ)
    → slices (c ∷ text) (map suc starts) ≡ slices text starts
unfolding slices
slices-map-suc c text [] = refl
slices-map-suc c text (s ∷ []) =
    rw (let e : suc (length text) - suc s ≡ length text - s = omega arith in e) refl
slices-map-suc c text (s ∷ t ∷ starts) =
    rw (let e : suc t - suc s ≡ t - s = omega arith in e)
      (ap (λ (r : List Bytes). take (t - s) (drop s text) ∷ r) (slices-map-suc c text (t ∷ starts)))

-- A byte that is no newline goes to the first line.
slices-cons_first :
    (c : ℕ) (text : Bytes) (starts : List ℕ)
    → slices (c ∷ text) (0 ∷ map suc starts) ≡ cons_first c (slices text (0 ∷ starts))
unfolding slices cons_first
slices-cons_first c text [] =
    rw (let e : suc (length text) - 0 ≡ suc (length text - 0) = omega arith in e) refl
slices-cons_first c text (s ∷ starts) =
    rw (let e : suc s - 0 ≡ suc (s - 0) = omega arith in e)
      (ap (λ (r : List Bytes). (c ∷ take (s - 0) text) ∷ r) (slices-map-suc c text (s ∷ starts)))

pub slices-line_starts : (text : Bytes) → slices text (line_starts text) ≡ split_lines text
unfolding line_starts starts_behind split_lines slices
slices-line_starts [] = refl
slices-line_starts (c ∷ text) = elim (Bool-cases (c == b'\n')) [
  | inl newline ↦ rw newline (
      rw (starts_behind-suc 0 text) (
        ap (λ (r : List Bytes). (c ∷ []) ∷ r)
          (slices-map-suc c text (0 ∷ starts_behind 0 text) ∙ slices-line_starts text)))
  | inr inside ↦ rw inside (
      rw (starts_behind-suc 0 text) (
        slices-cons_first c text (starts_behind 0 text)
        ∙ ap (cons_first c) (slices-line_starts text)))
]

length-slices : (text : Bytes) (starts : List ℕ) → length (slices text starts) ≡ length starts
unfolding slices
length-slices text [] = refl
length-slices text (s ∷ []) = refl
length-slices text (s ∷ t ∷ starts) = ap suc (length-slices text (t ∷ starts))

pub length-split_lines : (text : Bytes) → length (split_lines text) ≡ length (line_starts text)
length-split_lines text =
    ap length (sym (slices-line_starts text)) ∙ length-slices text (line_starts text)

-- A line of the text lies between the offset at which it starts and the next one.
pub line_slice-split_lines :
    (text : Bytes) (i : ℕ)
    → i < length (line_starts text)
    → line_slice text (line_starts text) i ≡ get_or (split_lines text) i []
line_slice-split_lines text i h =
    line_slice-slices text (line_starts text) i h
    ∙ ap (λ (r : List Bytes). get_or r i []) (slices-line_starts text)

get_or-map-suc :
    (xs : List ℕ) (i : ℕ) → i < length xs → get_or (map suc xs) i 0 ≡ suc (get_or xs i 0)
get_or-map-suc [] i h = elim h [ ]
get_or-map-suc (x ∷ xs) zero h = refl
get_or-map-suc (x ∷ xs) (suc i) h = get_or-map-suc xs i (omega arith)

length-map-suc : (xs : List ℕ) → length (map suc xs) ≡ length xs
length-map-suc [] = refl
length-map-suc (x ∷ xs) = ap suc (length-map-suc xs)

take-nil : (n : ℕ) → take n (let lines : List Bytes = [] in lines) ≡ []
take-nil zero = refl
take-nil (suc n) = refl

join-take_cons :
    (c i : ℕ) (lines : List Bytes)
    → join (take (suc i) (cons_first c lines)) ≡ c ∷ join (take (suc i) lines)
unfolding join cons_first
join-take_cons c i [] = ap (λ (t : List Bytes). c ∷ join t) (take-nil i)
join-take_cons c i (line ∷ lines) = refl

drop-cons_first :
    (c i : ℕ) (lines : List Bytes) → drop (suc i) (cons_first c lines) ≡ drop (suc i) lines
unfolding cons_first
drop-cons_first c i [] = drop-nil i
drop-cons_first c i (line ∷ lines) = refl

start_behind_newline :
    (c : ℕ) (text : Bytes) (i : ℕ)
    → c == b'\n' ≡ true
    → suc i < length (line_starts (c ∷ text))
    → (get_or (line_starts (c ∷ text)) (suc i) 0 ≡ suc (get_or (line_starts text) i 0))
      × (i < length (line_starts text))
unfolding line_starts starts_behind
start_behind_newline c text i newline h =
    let starts : starts_behind 0 (c ∷ text) ≡ map suc (0 ∷ starts_behind 0 text) =
      rw newline (ap (λ (r : List ℕ). 1 ∷ r) (starts_behind-suc 0 text)) in
    let size : length (starts_behind 0 (c ∷ text)) ≡ length (0 ∷ starts_behind 0 text) =
      ap length starts ∙ length-map-suc (0 ∷ starts_behind 0 text) in
    let inside : i < length (0 ∷ starts_behind 0 text) = omega (arith, size) in
    (
      ap (λ (r : List ℕ). get_or r i 0) starts ∙ get_or-map-suc (0 ∷ starts_behind 0 text) i inside,
      inside,
    )

start_inside :
    (c : ℕ) (text : Bytes) (i : ℕ)
    → c == b'\n' ≡ false
    → suc i < length (line_starts (c ∷ text))
    → (get_or (line_starts (c ∷ text)) (suc i) 0 ≡ suc (get_or (line_starts text) (suc i) 0))
      × (suc i < length (line_starts text))
unfolding line_starts starts_behind
start_inside c text i inside h =
    let starts : starts_behind 0 (c ∷ text) ≡ map suc (starts_behind 0 text) =
      rw inside (starts_behind-suc 0 text) in
    let size : length (starts_behind 0 (c ∷ text)) ≡ length (starts_behind 0 text) =
      ap length starts ∙ length-map-suc (starts_behind 0 text) in
    let bound : i < length (starts_behind 0 text) = omega (arith, size) in
    (
      ap (λ (r : List ℕ). get_or r i 0) starts ∙ get_or-map-suc (starts_behind 0 text) i bound,
      omega arith,
    )

first_start-join :
    (text : Bytes)
    → (take (get_or (line_starts text) 0 0) text ≡ join (take 0 (split_lines text)))
      × (drop (get_or (line_starts text) 0 0) text ≡ join (drop 0 (split_lines text)))
unfolding line_starts join
first_start-join text = (refl, sym (join-split_lines text))

one_start : (i : ℕ) → suc i < length (line_starts []) → ⊥
unfolding line_starts starts_behind
one_start i h = omega arith

split_newline :
    (c : ℕ) (text : Bytes)
    → c == b'\n' ≡ true
    → split_lines (c ∷ text) ≡ (c ∷ []) ∷ split_lines text
unfolding split_lines
split_newline c text newline = rw newline refl

split_inside :
    (c : ℕ) (text : Bytes)
    → c == b'\n' ≡ false
    → split_lines (c ∷ text) ≡ cons_first c (split_lines text)
unfolding split_lines
split_inside c text inside = rw inside refl

later_start :
    (c : ℕ) (text : Bytes) (i : ℕ)
    → (take (get_or (line_starts text) i 0) text ≡ join (take i (split_lines text)))
      × (drop (get_or (line_starts text) i 0) text ≡ join (drop i (split_lines text)))
    → (c ∷ take (get_or (line_starts text) i 0) text ≡ join ((c ∷ []) ∷ take i (split_lines text)))
      × (drop (get_or (line_starts text) i 0) text ≡ join (drop i (split_lines text)))
unfolding join
later_start c text i (before, behind) = (ap (λ (t : Bytes). c ∷ t) before, behind)

-- The lines before an offset at which a line starts, and those from there on.
pub line_start-join :
    (text : Bytes) (i : ℕ)
    → i < length (line_starts text)
    → (take (get_or (line_starts text) i 0) text ≡ join (take i (split_lines text)))
      × (drop (get_or (line_starts text) i 0) text ≡ join (drop i (split_lines text)))
line_start-join text zero h = first_start-join text
line_start-join [] (suc i) h = absurd (one_start i h)
line_start-join (c ∷ text) (suc i) h = elim (Bool-cases (c == b'\n')) [
  | inl newline ↦
      let (start, bound) = start_behind_newline c text i newline h in
      rw start
        (rw (split_newline c text newline) (later_start c text i (line_start-join text i bound)))
  | inr inside ↦
      let (start, bound) = start_inside c text i inside h in
      let (before, behind) = line_start-join text (suc i) bound in
      rw start (
        rw (split_inside c text inside) (
          ap (λ (t : Bytes). c ∷ t) before ∙ sym (join-take_cons c i (split_lines text)),
          behind ∙ ap join (sym (drop-cons_first c i (split_lines text))),
        ))
]
