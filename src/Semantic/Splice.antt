-- ===== src/Semantic/Splice.antt =====
-- The edit of ext/lsp_server_semantic_tokens.c (`lsp_semantic_tokens_build_edits`), applied to the table
-- before, gives the table after.
use mathlib.Core.Path.{subst}
use ext_lsparrot.Base.{
  take-append-drop, drop_all, ℕ, zero, suc, ◌+◌, ◌-◌, ◌*◌, ◌/◌, ◌<◌, ◌≤◌, ◌≡◌, refl, sym, ap, ◌∙◌,
  Bool, true, ◌&&◌, Option, none, some, List, [], ◌∷◌, ◌++◌, Bool-cases, inl, inr, arith, length,
  get_elem?, get_or, take, drop, drop-drop,
}
use ext_lsparrot.Base.Dict.{none≢some}
use ext_lsparrot.Base.Int.{ℤ, pos, int_eq→eq}
use ext_lsparrot.Semantic.Edits.{
  TokensEdit, longs_equal, group_equal, prefix_from, suffix_from, copy_groups, max_common,
  common_prefix, common_suffix, build_edits,
}

-- What the protocol makes of an edit.
unfoldable pub apply_edit : TokensEdit → List ℤ → List ℤ
apply_edit e old = take (e.start) old ++ (e.inserted ++ drop (e.start + e.delete_count) old)

-- The two tables have the same number at these places.
abbrev SameAt : List ℤ → ℕ → List ℤ → ℕ → Type 0
SameAt xs i ys j = (v : ℤ) × (get_elem? xs i ≡ some v) × (get_elem? ys j ≡ some v)

longs_equal-SameAt :
    (a b : Option ℤ) → longs_equal a b ≡ true → (v : ℤ) × (a ≡ some v) × (b ≡ some v)
unfolding longs_equal
longs_equal-SameAt (some a) (some b) h = (b, ap some (int_eq→eq a b h), refl)
longs_equal-SameAt (some a) none h = cc
longs_equal-SameAt none (some b) h = cc
longs_equal-SameAt none none h = cc

five_true :
    (a b c d e : Bool)
    → (a && b && c && d && e) ≡ true
    → (a ≡ true) × (b ≡ true) × (c ≡ true) × (d ≡ true) × (e ≡ true)
five_true a b c d e h = (ground arith, ground arith, ground arith, ground arith, ground arith)

abbrev SameGroup : List ℤ → ℕ → List ℤ → ℕ → Type 0
SameGroup xs i ys j =
    SameAt xs i ys j
    × SameAt xs (i + 1) ys (j + 1)
    × SameAt xs (i + 2) ys (j + 2)
    × SameAt xs (i + 3) ys (j + 3)
    × SameAt xs (i + 4) ys (j + 4)

group_equal-SameGroup :
    (xs : List ℤ) (g : ℕ) (ys : List ℤ) (h : ℕ)
    → group_equal xs g ys h ≡ true
    → SameGroup xs (g * 5) ys (h * 5)
unfolding group_equal
group_equal-SameGroup xs g ys h e =
    let (p, q, r, s, t) = five_true _ _ _ _ _ e in
    (
      longs_equal-SameAt _ _ p,
      longs_equal-SameAt _ _ q,
      longs_equal-SameAt _ _ r,
      longs_equal-SameAt _ _ s,
      longs_equal-SameAt _ _ t,
    )

take_step :
    (n : ℕ) (xs ys : List ℤ)
    → take n xs ≡ take n ys
    → SameAt xs n ys n
    → take (suc n) xs ≡ take (suc n) ys
take_step n [] ys e (v, a, b) = absurd (none≢some v a)
take_step n (x ∷ xs) [] e (v, a, b) = absurd (none≢some v b)
take_step zero (x ∷ xs) (y ∷ ys) e (v, a, b) = cc
take_step (suc n) (x ∷ xs) (y ∷ ys) e s =
    let heads : x ≡ y = cc in
    let tails : take n xs ≡ take n ys = cc in let more = take_step n xs ys tails s in cc

drop_step :
    (i : ℕ) (xs : List ℤ) (v : ℤ) → get_elem? xs i ≡ some v → drop i xs ≡ v ∷ drop (suc i) xs
drop_step i [] v e = cc
drop_step zero (x ∷ xs) v e = cc
drop_step (suc i) (x ∷ xs) v e = drop_step i xs v e

take_next :
    (n m : ℕ) (xs ys : List ℤ)
    → n + 1 ≡ m
    → take n xs ≡ take n ys
    → SameAt xs n ys n
    → take m xs ≡ take m ys
take_next n m xs ys e h s =
    let next : suc n ≡ m = omega arith in
    subst (λ (k : ℕ). take k xs ≡ take k ys) next (take_step n xs ys h s)

drop_next :
    (i i' j j' : ℕ) (xs ys : List ℤ)
    → i + 1 ≡ i'
    → j + 1 ≡ j'
    → drop i' xs ≡ drop j' ys
    → SameAt xs i ys j
    → drop i xs ≡ drop j ys
drop_next i i' j j' xs ys e f h (v, a, b) =
    let left : i' ≡ suc i = omega arith in
    let right : j' ≡ suc j = omega arith in
    let h' : drop (suc i) xs ≡ drop (suc j) ys =
      subst (λ (k : ℕ). drop k xs ≡ drop (suc j) ys) left
        (subst (λ (k : ℕ). drop i' xs ≡ drop k ys) right h) in
    drop_step i xs v a ∙ ap (λ (r : List ℤ). v ∷ r) h' ∙ sym (drop_step j ys v b)

take_group :
    (i : ℕ) (xs ys : List ℤ)
    → take i xs ≡ take i ys
    → SameGroup xs i ys i
    → take (i + 5) xs ≡ take (i + 5) ys
take_group i xs ys e (a, b, c, d, f) =
    take_next (i + 4) (i + 5) xs ys (omega arith)
      (take_next (i + 3) (i + 4) xs ys (omega arith)
        (take_next (i + 2) (i + 3) xs ys (omega arith)
          (take_next (i + 1) (i + 2) xs ys (omega arith) (take_next i (i + 1) xs ys refl e a) b) c)
        d)
      f

drop_group :
    (i j : ℕ) (xs ys : List ℤ)
    → drop (i + 5) xs ≡ drop (j + 5) ys
    → SameGroup xs i ys j
    → drop i xs ≡ drop j ys
drop_group i j xs ys e (a, b, c, d, f) =
    drop_next i (i + 1) j (j + 1) xs ys refl refl
      (drop_next (i + 1) (i + 2) (j + 1) (j + 2) xs ys (omega arith) (omega arith)
        (drop_next (i + 2) (i + 3) (j + 2) (j + 3) xs ys (omega arith) (omega arith)
          (drop_next (i + 3) (i + 4) (j + 3) (j + 4) xs ys (omega arith) (omega arith)
            (drop_next (i + 4) (i + 5) (j + 4) (j + 5) xs ys (omega arith) (omega arith) e f) d)
          c)
        b)
      a

-- The first loop stops behind a common prefix.
prefix_from-take :
    (left : ℕ) (old new : List ℤ) (p : ℕ)
    → take (p * 5) old ≡ take (p * 5) new
    → take (prefix_from left old new p * 5) old ≡ take (prefix_from left old new p * 5) new
unfolding prefix_from
prefix_from-take zero old new p h = h
prefix_from-take (suc left) old new p h = elim (Bool-cases (group_equal old p new p)) [
  | inl same ↦
      let next : p * 5 + 5 ≡ suc p * 5 = omega arith in
      let grown = take_group (p * 5) old new h (group_equal-SameGroup old p new p same) in
      rw same (
        prefix_from-take left old new (suc p)
          (subst (λ (k : ℕ). take k old ≡ take k new) next grown))
  | inr apart ↦ rw apart h
]

prefix_from-le : (left : ℕ) (old new : List ℤ) (p : ℕ) → prefix_from left old new p ≤ p + left
unfolding prefix_from
prefix_from-le zero old new p = omega arith
prefix_from-le (suc left) old new p = elim (Bool-cases (group_equal old p new p)) [
  | inl same ↦ rw same (omega (arith, prefix_from-le left old new (suc p)))
  | inr apart ↦ rw apart (omega arith)
]

-- The second loop stops before a common suffix.
suffix_from-drop :
    (left : ℕ) (old new : List ℤ) (n m s : ℕ)
    → s + left ≤ n
    → s + left ≤ m
    → drop ((n - s) * 5) old ≡ drop ((m - s) * 5) new
    → drop ((n - suffix_from left old new n m s) * 5) old
      ≡ drop ((m - suffix_from left old new n m s) * 5) new
unfolding suffix_from
suffix_from-drop zero old new n m s a b h = h
suffix_from-drop (suc left) old new n m s a b h =
    elim (Bool-cases (group_equal old (n - 1 - s) new (m - 1 - s))) [
      | inl same ↦
          let i : (n - s) * 5 ≡ (n - 1 - s) * 5 + 5 = omega arith in
          let j : (m - s) * 5 ≡ (m - 1 - s) * 5 + 5 = omega arith in
          let k : n - 1 - s ≡ n - suc s = omega arith in
          let l : m - 1 - s ≡ m - suc s = omega arith in
          let h' : drop ((n - 1 - s) * 5 + 5) old ≡ drop ((m - 1 - s) * 5 + 5) new =
            rw (sym i, sym j) h in
          let grown =
            drop_group ((n - 1 - s) * 5) ((m - 1 - s) * 5) old new h'
              (group_equal-SameGroup old (n - 1 - s) new (m - 1 - s) same) in
          rw same (
            suffix_from-drop left old new n m (suc s) (omega arith) (omega arith)
              (rw (sym k, sym l) grown))
      | inr apart ↦ rw apart h
    ]

suffix_from-le :
    (left : ℕ) (old new : List ℤ) (n m s : ℕ) → suffix_from left old new n m s ≤ s + left
unfolding suffix_from
suffix_from-le zero old new n m s = omega arith
suffix_from-le (suc left) old new n m s =
    elim (Bool-cases (group_equal old (n - 1 - s) new (m - 1 - s))) [
      | inl same ↦ rw same (omega (arith, suffix_from-le left old new n m (suc s)))
      | inr apart ↦ rw apart (omega arith)
    ]

drop-get_or :
    (i j : ℕ) (xs : List ℤ) (v : ℤ)
    → suc i ≡ j
    → i < length xs
    → drop i xs ≡ get_or xs i v ∷ drop j xs
drop-get_or i j [] v e h = elim h [ ]
drop-get_or zero j (x ∷ xs) v e h = rw (sym e) refl
drop-get_or (suc i) j (x ∷ xs) v e h = rw (sym e) (drop-get_or i (suc i) xs v refl (omega arith))

copy_groups-take :
    (left : ℕ) (new : List ℤ) (i : ℕ)
    → (i + left) * 5 ≤ length new
    → copy_groups left new i ≡ take (left * 5) (drop (i * 5) new)
unfolding copy_groups
copy_groups-take zero new i h = refl
copy_groups-take (suc left) new i h =
    let five : suc left * 5 ≡ suc (suc (suc (suc (suc (left * 5))))) = omega arith in
    let rest = copy_groups-take left new (suc i) (omega arith) in
    let end : i * 5 + 5 ≡ suc i * 5 = omega arith in
    rw (five, rest)
      (rw (drop-get_or (i * 5) (i * 5 + 1) new (pos 0) (omega arith) (omega arith)) (
        rw (drop-get_or (i * 5 + 1) (i * 5 + 2) new (pos 0) (omega arith) (omega arith)) (
          rw (drop-get_or (i * 5 + 2) (i * 5 + 3) new (pos 0) (omega arith) (omega arith)) (
            rw (drop-get_or (i * 5 + 3) (i * 5 + 4) new (pos 0) (omega arith) (omega arith)) (
              rw (drop-get_or (i * 5 + 4) (i * 5 + 5) new (pos 0) (omega arith) (omega arith))
                (rw end refl))))))

rejoin : (a b : ℕ) (xs : List ℤ) → take a xs ++ (take b (drop a xs) ++ drop (a + b) xs) ≡ xs
rejoin a b xs = rw (drop-drop a b xs, take-append-drop b (drop a xs)) (take-append-drop a xs)

max_common-le :
    (old new : List ℤ)
    → (max_common old new ≤ length old / 5) × (max_common old new ≤ length new / 5)
unfolding max_common
max_common-le old new = ground arith

splice :
    (p s n m : ℕ) (old new : List ℤ)
    → length new ≡ m * 5
    → p + s ≤ n
    → p + s ≤ m
    → take (p * 5) old ≡ take (p * 5) new
    → drop ((n - s) * 5) old ≡ drop ((m - s) * 5) new
    → take (p * 5) old ++ (copy_groups (m - s - p) new p ++ drop (p * 5 + (n - p - s) * 5) old)
      ≡ new
splice p s n m old new em a b front back =
    let cut : p * 5 + (n - p - s) * 5 ≡ (n - s) * 5 = omega arith in
    let cut' : (m - s) * 5 ≡ p * 5 + (m - s - p) * 5 = omega arith in
    rw (front, cut, back, cut', copy_groups-take (m - s - p) new p (omega arith))
      (rejoin (p * 5) ((m - s - p) * 5) new)

-- Applied to the tokens of the reply before, the edit that the server sends gives the new tokens;
-- both tables hold five numbers for each token.
pub apply_edit-build_edits :
    (old new : List ℤ) (n m : ℕ)
    → length old ≡ n * 5
    → length new ≡ m * 5
    → apply_edit (build_edits old new) old ≡ new
unfolding apply_edit build_edits common_prefix common_suffix
apply_edit-build_edits old new n m en em =
    let o = length old / 5 in
    let w = length new / 5 in
    let c = max_common old new in
    let (co, cw) = max_common-le old new in
    let p = prefix_from c old new 0 in
    let pc : p ≤ 0 + c = prefix_from-le c old new 0 in
    let s = suffix_from (c - p) old new o w 0 in
    let sc : s ≤ 0 + (c - p) = suffix_from-le (c - p) old new o w 0 in
    let all : drop ((o - 0) * 5) old ≡ drop ((w - 0) * 5) new =
      drop_all ((o - 0) * 5) old (omega (arith, en))
      ∙ sym (drop_all ((w - 0) * 5) new (omega (arith, em))) in
    splice p s o w old new (omega (arith, em)) (omega arith) (omega arith)
      (prefix_from-take c old new 0 refl)
      (suffix_from-drop (c - p) old new o w 0 (omega arith) (omega arith) all)
