-- ===== src/Scan/Fuzzy.antt =====
-- The loose match of a name with a typed prefix (ext/lsp_server_symbols.c, `lsp_symbol_fuzzy_match`).
use ext_lsparrot.Base.{
  ◌≡◌, ◌≤◌, ◌↔◌, refl, sym, ap, ◌∙◌, ℕ, Bool, true, false, ◌||◌, inl, inr, Bool-cases, [], ◌∷◌,
  ◌==◌, ==→eq, ==_refl, ltb, if◌then◌else◌, Bytes, length, to_lower, arith,
}

-- The loop over the value, with what is left of the prefix for `prefix_index`.
unfoldable pub fuzzy_rest : Bytes → Bytes → Bytes
fuzzy_rest value [] = []
fuzzy_rest [] (p ∷ prefix) = p ∷ prefix
fuzzy_rest (c ∷ value) (p ∷ prefix) =
    let on = fuzzy_rest value prefix in
    let stay = fuzzy_rest value (p ∷ prefix) in if to_lower c == to_lower p then on else stay

unfoldable pub symbol_fuzzy_match : Bytes → Bytes → Bool
unfolding fuzzy_rest
symbol_fuzzy_match value prefix =
    if ltb (length prefix) 2 || length value == 0
    then false
    else length (fuzzy_rest value prefix) == 0

-- The bytes of the prefix stand in the value in their order, in some case, with others between them.
pub data IsSubsequence : Bytes → Bytes → Type 0 where
  done : {value : Bytes} → IsSubsequence [] value
  skip :
      {prefix value : Bytes} {c : ℕ} → IsSubsequence prefix value → IsSubsequence prefix (c ∷ value)
  keep :
      {prefix value : Bytes} {c p : ℕ}
      → to_lower c ≡ to_lower p
      → IsSubsequence prefix value
      → IsSubsequence (p ∷ prefix) (c ∷ value)

shorten :
    {p : ℕ} {prefix value : Bytes} → IsSubsequence (p ∷ prefix) value → IsSubsequence prefix value
shorten (skip s) = skip (shorten s)
shorten (keep e s) = skip s

module _ (value prefix : Bytes) (c p : ℕ) where
  fuzzy_rest-on :
      (to_lower c == to_lower p) ≡ true
      → fuzzy_rest (c ∷ value) (p ∷ prefix) ≡ fuzzy_rest value prefix
  unfolding fuzzy_rest
  fuzzy_rest-on same = rw same refl

  fuzzy_rest-stay :
      (to_lower c == to_lower p) ≡ false
      → fuzzy_rest (c ∷ value) (p ∷ prefix) ≡ fuzzy_rest value (p ∷ prefix)
  unfolding fuzzy_rest
  fuzzy_rest-stay other = rw other refl

fuzzy_rest→IsSubsequence :
    (value prefix : Bytes) → length (fuzzy_rest value prefix) ≡ 0 → IsSubsequence prefix value
unfolding fuzzy_rest
fuzzy_rest→IsSubsequence value [] h = done
fuzzy_rest→IsSubsequence [] (p ∷ prefix) h = absurd (omega (arith, h))
fuzzy_rest→IsSubsequence (c ∷ value) (p ∷ prefix) h = elim (Bool-cases (to_lower c == to_lower p)) [
  | inl same ↦ keep (==→eq (to_lower c) (to_lower p) same) (
      fuzzy_rest→IsSubsequence value prefix
        (ap length (sym (fuzzy_rest-on value prefix c p same)) ∙ h))
  | inr other ↦ skip (
      fuzzy_rest→IsSubsequence value (p ∷ prefix)
        (ap length (sym (fuzzy_rest-stay value prefix c p other)) ∙ h))
]

IsSubsequence→fuzzy_rest :
    (value prefix : Bytes) → IsSubsequence prefix value → length (fuzzy_rest value prefix) ≡ 0
unfolding fuzzy_rest
IsSubsequence→fuzzy_rest value [] s = refl
IsSubsequence→fuzzy_rest [] (p ∷ prefix) s = elim s [ ]
IsSubsequence→fuzzy_rest (c ∷ value) (p ∷ prefix) (skip s) =
    elim (Bool-cases (to_lower c == to_lower p)) [
      | inl same ↦ rw same (IsSubsequence→fuzzy_rest value prefix (shorten s))
      | inr other ↦ rw other (IsSubsequence→fuzzy_rest value (p ∷ prefix) s)
    ]
IsSubsequence→fuzzy_rest (c ∷ value) (p ∷ prefix) (keep e s) =
    rw (e, ==_refl (to_lower p)) (IsSubsequence→fuzzy_rest value prefix s)

IsSubsequence_length :
    {prefix value : Bytes} → IsSubsequence prefix value → length prefix ≤ length value
IsSubsequence_length done = omega arith
IsSubsequence_length (skip s) = omega (arith, IsSubsequence_length s)
IsSubsequence_length (keep e s) = omega (arith, IsSubsequence_length s)

abbrev too_short : Bytes → Bytes → Bool
too_short value prefix = ltb (length prefix) 2 || length value == 0

long_enough : (value prefix : Bytes) → too_short value prefix ≡ false → 2 ≤ length prefix
long_enough value prefix enough = ground arith

not_short :
    (value prefix : Bytes)
    → 2 ≤ length prefix
    → length prefix ≤ length value
    → too_short value prefix ≡ false
not_short value prefix long le = ground arith

-- A name matches a prefix exactly when the prefix has two bytes or more and they stand in the name in
-- their order, in some case, with other bytes between them.
pub symbol_fuzzy_match_iff :
    (value prefix : Bytes)
    → (symbol_fuzzy_match value prefix ≡ true) ↔ ((2 ≤ length prefix) × IsSubsequence prefix value)
unfolding symbol_fuzzy_match
symbol_fuzzy_match_iff value prefix = elim (Bool-cases (too_short value prefix)) [
  | inl short ↦ rw short (
    λ h. absurd (false≢true h),
    λ (long, s).
        absurd (false≢true (sym (not_short value prefix long (IsSubsequence_length s)) ∙ short)),
  )
  | inr enough ↦ rw enough (
    λ h. (
      long_enough value prefix enough,
      fuzzy_rest→IsSubsequence value prefix (==→eq (length (fuzzy_rest value prefix)) 0 h),
    ),
    λ (long, s). rw (IsSubsequence→fuzzy_rest value prefix s) refl,
  )
]
  where
    false≢true : false ≡ true → ⊥
    false≢true e = cc
