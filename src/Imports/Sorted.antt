-- ===== src/Imports/Sorted.antt =====
-- What the insertion of a line (`lsp_refactor_sorted_line_insert`, ext/lsp_server_refactor.c) keeps: the
-- order, every line that was there, and nothing else but the new one.
use ext_lsparrot.Base.{
  ◌≡◌, ◌≢◌, refl, ◌⊎◌, inl, inr, Bool, true, false, ◌||◌, Bytes, List, [], ◌∷◌, Bool-cases, arith,
}
use ext_lsparrot.Imports.{casecmp, is_lt, is_eq, contains_ci, insert_line, sorted_line_insert}
use Prim.Native.Nat.{Ordering, lt, eq, gt}

-- A line is less than the first of the list.
abbrev pub Heads : Bytes → List Bytes → Type 0
Heads l [] = Unit {0}
Heads l (m ∷ lines) = casecmp l m ≡ lt

-- Each line is less than the one behind it, in lower case; so no two are the same.
abbrev pub Increasing : List Bytes → Type 0
Increasing [] = Unit {0}
Increasing (l ∷ lines) = Heads l lines × Increasing lines

-- A line of the list is the same in lower case.
abbrev pub Covers : List Bytes → Bytes → Type 0
Covers [] line = ⊥
Covers (l ∷ lines) line = (casecmp l line ≡ eq) ⊎ Covers lines line

-- The line is one of the list.
abbrev pub OneOf : List Bytes → Bytes → Type 0
OneOf [] line = ⊥
OneOf (l ∷ lines) line = (l ≡ line) ⊎ OneOf lines line

false≢true : false ≢ true
false≢true h = cc

casecmp_refl : (l : Bytes) → casecmp l l ≡ eq
unfolding casecmp
casecmp_refl [] = refl
casecmp_refl (c ∷ l) = ground (arith, casecmp_refl l)

casecmp-gt : (l m : Bytes) → casecmp l m ≡ gt → casecmp m l ≡ lt
unfolding casecmp
casecmp-gt [] [] h = cc
casecmp-gt [] (d ∷ m) h = cc
casecmp-gt (c ∷ l) [] h = refl
casecmp-gt (c ∷ l) (d ∷ m) h = ground (arith, casecmp-gt l m)

is_lt_lem : (o : Ordering) → is_lt o ≡ true → o ≡ lt
is_lt_lem lt h = refl
is_lt_lem eq h = cc
is_lt_lem gt h = cc

is_eq_lem : (o : Ordering) → is_eq o ≡ true → o ≡ eq
is_eq_lem lt h = cc
is_eq_lem eq h = refl
is_eq_lem gt h = cc

neither : (o : Ordering) → is_lt o ≡ false → is_eq o ≡ false → o ≡ gt
neither lt h k = cc
neither eq h k = cc
neither gt h k = refl

either_false : (a b : Bool) → (a || b) ≡ false → (a ≡ false) × (b ≡ false)
either_false true b h = (cc, cc)
either_false false b h = (refl, h)

insert_line-Heads :
    (lines : List Bytes) (l line : Bytes)
    → Heads l lines
    → casecmp l line ≡ lt
    → Heads l (insert_line lines line)
unfolding insert_line
insert_line-Heads [] l line h less = less
insert_line-Heads (m ∷ lines) l line h less = elim (Bool-cases (is_lt (casecmp m line))) [
  | inl later ↦ rw later h
  | inr now ↦ rw now less
]

-- Where a line that is not there goes, the order stays.
insert_line-Increasing :
    (lines : List Bytes) (line : Bytes)
    → contains_ci lines line ≡ false
    → Increasing lines
    → Increasing (insert_line lines line)
unfolding contains_ci insert_line
insert_line-Increasing [] line absent h = (tt, tt)
insert_line-Increasing (l ∷ lines) line absent (heads, h) =
    let (other, absent') = either_false (is_eq (casecmp l line)) (contains_ci lines line) absent in
    elim (Bool-cases (is_lt (casecmp l line))) [
      | inl later ↦ rw later (
        insert_line-Heads lines l line heads (is_lt_lem (casecmp l line) later),
        insert_line-Increasing lines line absent' h,
      )
      | inr now ↦ rw now (casecmp-gt l line (neither (casecmp l line) now other), (heads, h))
    ]

pub sorted_line_insert-Increasing :
    (lines : List Bytes) (line : Bytes)
    → Increasing lines
    → Increasing (sorted_line_insert lines line)
unfolding sorted_line_insert
sorted_line_insert-Increasing lines line h = elim (Bool-cases (contains_ci lines line)) [
  | inl present ↦ rw present h
  | inr absent ↦ rw absent (insert_line-Increasing lines line absent h)
]

contains_ci-Covers :
    (lines : List Bytes) (line : Bytes) → contains_ci lines line ≡ true → Covers lines line
unfolding contains_ci
contains_ci-Covers [] line h = absurd (false≢true h)
contains_ci-Covers (l ∷ lines) line h = elim (Bool-cases (is_eq (casecmp l line))) [
  | inl same ↦ inl (is_eq_lem (casecmp l line) same)
  | inr other ↦ inr (contains_ci-Covers lines line (rw other at h))
]

insert_line-Covers_self : (lines : List Bytes) (line : Bytes) → Covers (insert_line lines line) line
unfolding insert_line
insert_line-Covers_self [] line = inl (casecmp_refl line)
insert_line-Covers_self (l ∷ lines) line = elim (Bool-cases (is_lt (casecmp l line))) [
  | inl later ↦ rw later (inr (insert_line-Covers_self lines line))
  | inr now ↦ rw now (inl (casecmp_refl line))
]

insert_line-Covers :
    (lines : List Bytes) (line m : Bytes) → Covers lines m → Covers (insert_line lines line) m
unfolding insert_line
insert_line-Covers [] line m h = absurd h
insert_line-Covers (l ∷ lines) line m h = elim (Bool-cases (is_lt (casecmp l line))) [
  | inl later ↦
      rw later
        (elim h [ inl same ↦ inl same | inr more ↦ inr (insert_line-Covers lines line m more) ])
  | inr now ↦ rw now (inr h)
]

pub sorted_line_insert-Covers_self :
    (lines : List Bytes) (line : Bytes) → Covers (sorted_line_insert lines line) line
unfolding sorted_line_insert
sorted_line_insert-Covers_self lines line = elim (Bool-cases (contains_ci lines line)) [
  | inl present ↦ rw present (contains_ci-Covers lines line present)
  | inr absent ↦ rw absent (insert_line-Covers_self lines line)
]

pub sorted_line_insert-Covers :
    (lines : List Bytes) (line m : Bytes)
    → Covers lines m
    → Covers (sorted_line_insert lines line) m
unfolding sorted_line_insert
sorted_line_insert-Covers lines line m h = elim (Bool-cases (contains_ci lines line)) [
  | inl present ↦ rw present h
  | inr absent ↦ rw absent (insert_line-Covers lines line m h)
]

insert_line-OneOf :
    (lines : List Bytes) (line m : Bytes)
    → OneOf (insert_line lines line) m
    → (line ≡ m) ⊎ OneOf lines m
unfolding insert_line
insert_line-OneOf [] line m h = h
insert_line-OneOf (l ∷ lines) line m h = elim (Bool-cases (is_lt (casecmp l line))) [
  | inl later ↦
      let h' : OneOf (l ∷ insert_line lines line) m = rw later at h in
      elim h' [
        | inl same ↦ inr (inl same)
        | inr more ↦ elim (insert_line-OneOf lines line m more) [
          | inl new ↦ inl new
          | inr old ↦ inr (inr old)
        ]
      ]
  | inr now ↦ let h' : OneOf (line ∷ l ∷ lines) m = rw now at h in h'
]

pub sorted_line_insert-OneOf :
    (lines : List Bytes) (line m : Bytes)
    → OneOf (sorted_line_insert lines line) m
    → (line ≡ m) ⊎ OneOf lines m
unfolding sorted_line_insert
sorted_line_insert-OneOf lines line m h = elim (Bool-cases (contains_ci lines line)) [
  | inl present ↦ inr (rw present at h)
  | inr absent ↦ insert_line-OneOf lines line m (rw absent at h)
]
