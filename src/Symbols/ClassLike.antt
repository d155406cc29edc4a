-- ===== src/Symbols/ClassLike.antt =====
-- The lookup of a class: of the four class-like kinds, the earliest record is taken
-- (ext/lsp_server_symbols.c, `lsp_symbol_index_lookup`).
use ext_lsparrot.Base.{
  ◌≡◌, refl, ℕ, ◌+◌, ◌≤◌, ◌<◌, Bool, true, false, ◌||◌, inl, inr, Bool-cases, Option, none, some,
  List, [], ◌∷◌, ◌==◌, ltb, if◌then◌else◌, All, arith, lt→ltb, ge→ltb,
}
use ext_lsparrot.Symbols.{tombstone}
use ext_lsparrot.Symbols.Records.{Found, record_size}
use ext_lsparrot.Symbols.Encoding.{live, AreAt}
use ext_lsparrot.Symbols.Lookup.{first_such}

-- The earlier one of the best record so far and a new one.
abbrev pub pick : Option Found → Option Found → Option Found
pick best none = best
pick none (some r) = some r
pick (some b) (some r) = if ltb r.offset b.offset then some r else some b

-- Records in the order of their offsets.
abbrev pub Increasing : List Found → Type 0
Increasing [] = Unit
Increasing (r ∷ rs) = All (λ x. r.offset < x.offset) rs × Increasing rs

All-weaken :
    (n m : ℕ) (rs : List Found) → n ≤ m → All (λ x. m ≤ x.offset) rs → All (λ x. n ≤ x.offset) rs
All-weaken n m [] h all = tt
All-weaken n m (r ∷ rs) h all = (omega (arith, all.0), All-weaken n m rs h all.1)

All-strict :
    (n m : ℕ) (rs : List Found) → n < m → All (λ x. m ≤ x.offset) rs → All (λ x. n < x.offset) rs
All-strict n m [] h all = tt
All-strict n m (r ∷ rs) h all = (omega (arith, all.0), All-strict n m rs h all.1)

live-from :
    (offset : ℕ) (rs : List Found) → AreAt offset rs → All (λ x. offset ≤ x.offset) (live rs)
live-from offset [] at = tt
live-from offset (r ∷ rs) at =
    let later =
      All-weaken offset (offset + record_size r) (live rs) (omega arith)
        (live-from (offset + record_size r) rs at.1) in
    elim (Bool-cases (r.kind == tombstone)) [
      | inl gone ↦ rw gone later
      | inr there ↦ rw there (omega (arith, at.0), later)
    ]

pub live-Increasing : (offset : ℕ) (rs : List Found) → AreAt offset rs → Increasing (live rs)
live-Increasing offset [] at = tt
live-Increasing offset (r ∷ rs) at =
    let later = live-Increasing (offset + record_size r) rs at.1 in
    elim (Bool-cases (r.kind == tombstone)) [
      | inl gone ↦ rw gone later
      | inr there ↦ rw there (
        All-strict r.offset (offset + record_size r) (live rs) (omega (arith, at.0))
            (live-from (offset + record_size r) rs at.1),
        later,
      )
    ]

-- An earlier record stays the best one, and takes the place of a later one.
pick_keeps :
    (r : Found) (test : Found → Bool) (rs : List Found)
    → All (λ x. r.offset < x.offset) rs
    → pick (some r) (first_such test rs) ≡ some r
pick_keeps r test [] all = refl
pick_keeps r test (x ∷ rs) all = elim (Bool-cases (test x)) [
  | inl hit ↦
      let not_before : ltb x.offset r.offset ≡ false =
        ge→ltb x.offset r.offset (omega (arith, all.0)) in
      rw (hit, not_before) refl
  | inr miss ↦ rw miss (pick_keeps r test rs all.1)
]

pick_replaces :
    (r : Found) (test : Found → Bool) (rs : List Found)
    → All (λ x. r.offset < x.offset) rs
    → pick (first_such test rs) (some r) ≡ some r
pick_replaces r test [] all = refl
pick_replaces r test (x ∷ rs) all = elim (Bool-cases (test x)) [
  | inl hit ↦
      let before : ltb r.offset x.offset ≡ true = lt→ltb r.offset x.offset all.0 in
      rw (hit, before) refl
  | inr miss ↦ rw miss (pick_replaces r test rs all.1)
]

pub pick_first :
    (p q : Found → Bool) (rs : List Found)
    → Increasing rs
    → pick (first_such p rs) (first_such q rs) ≡ first_such (λ r. p r || q r) rs
pick_first p q [] sorted = refl
pick_first p q (r ∷ rs) sorted = elim (Bool-cases (p r)) [
  | inl hit ↦ elim (Bool-cases (q r)) [
    | inl both ↦
        let not_before : ltb r.offset r.offset ≡ false = ge→ltb r.offset r.offset (omega arith) in
        rw (hit, both, not_before) refl
    | inr one ↦ rw (hit, one) (pick_keeps r q rs sorted.0)
  ]
  | inr miss ↦ elim (Bool-cases (q r)) [
    | inl hit ↦ rw (miss, hit) (pick_replaces r p rs sorted.0)
    | inr neither ↦ rw (miss, neither) (pick_first p q rs sorted.1)
  ]
]
