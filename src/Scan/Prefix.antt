-- ===== src/Scan/Prefix.antt =====
-- Matching a label with a typed prefix (ext/lsp_server_core.c, `lsp_matches_prefix_string`).
use ext_lsparrot.Base.{
  ◌≡◌, ◌↔◌, ℕ, refl, sym, ap, suc, ◌<◌, ltb→lt, ◌&&◌, Bool, true, false, inl, inr, Bool-cases, [],
  ◌∷◌, ◌++◌, ◌==◌, ==→eq, ==_refl, ltb, if◌then◌else◌, Bytes, length, length-append, map, to_lower,
  arith,
}
use ext_lsparrot.Scan.{bare_name, agrees, matches_prefix_string}

abbrev pub lower : Bytes → Bytes
lower = map to_lower

-- The label starts with the prefix, both in lower case.
abbrev pub Extends : Bytes → Bytes → Type 0
Extends label prefix = (rest : Bytes) × (lower label ≡ lower prefix ++ rest)

both_true : (a b : Bool) → (a && b) ≡ true → (a ≡ true) × (b ≡ true)
both_true true b h = (refl, h)
both_true false b h = (h, cc)

agrees→Extends : (label prefix : Bytes) → agrees label prefix ≡ true → Extends label prefix
unfolding agrees
agrees→Extends label [] h = (lower label, refl)
agrees→Extends [] (p ∷ prefix) h = absurd (false≢true h)
  where
    false≢true : false ≡ true → ⊥
    false≢true e = cc
agrees→Extends (c ∷ label) (p ∷ prefix) h =
    let parts = both_true (to_lower c == to_lower p) (agrees label prefix) h in
    let more = agrees→Extends label prefix parts.1 in
    (more.0, rw (==→eq (to_lower c) (to_lower p) parts.0, more.1) refl)

Extends→agrees :
    (label prefix rest : Bytes) → lower label ≡ lower prefix ++ rest → agrees label prefix ≡ true
unfolding agrees
Extends→agrees label [] rest e = refl
Extends→agrees [] (p ∷ prefix) rest e = cc
Extends→agrees (c ∷ label) (p ∷ prefix) rest e =
    let heads : to_lower c ≡ to_lower p = cc in
    let tails : lower label ≡ lower prefix ++ rest = cc in
    rw (heads, ==_refl (to_lower p), Extends→agrees label prefix rest tails) refl

length-lower : (text : Bytes) → length (lower text) ≡ length text
length-lower [] = refl
length-lower (c ∷ text) = ap suc (length-lower text)

-- A label that is shorter than the prefix does not agree with it.
agrees_short : (label prefix : Bytes) → length label < length prefix → agrees label prefix ≡ false
agrees_short label prefix short = elim (Bool-cases (agrees label prefix)) [
  | inl yes_ ↦
      let extends = agrees→Extends label prefix yes_ in
      let size : length (lower label) ≡ length (lower prefix ++ extends.0) = ap length extends.1 in
      absurd (
        omega (
          arith,
          short,
          size,
          length-append (lower prefix) extends.0,
          length-lower label,
          length-lower prefix,
        ))
  | inr no_ ↦ no_
]

guard_redundant :
    (label prefix : Bytes)
    → (if length prefix == 0
        then true
        else if ltb (length label) (length prefix)
        then false
        else agrees label prefix)
      ≡ agrees label prefix
unfolding agrees
guard_redundant label [] = refl
guard_redundant label (p ∷ prefix) =
    let filled : (suc (length prefix) == 0) ≡ false = ground arith in
    elim (Bool-cases (ltb (length label) (suc (length prefix)))) [
      | inl short ↦
          rw (filled, short)
            (sym
              (agrees_short label (p ∷ prefix) (ltb→lt (length label) (suc (length prefix)) short)))
      | inr long ↦ rw (filled, long) refl
    ]

abbrev StartsOtherwise : ℕ → Bytes → Type 0
StartsOtherwise mark [] = Unit
StartsOtherwise mark (c ∷ text) = (c == mark) ≡ false

-- A name, and what is left of it without the marks before it: a backslash and, behind it or alone, a
-- dollar sign.
pub data IsBare : Bytes → Bytes → Type 0 where
  both : (rest : Bytes) → IsBare (92 ∷ b'$' ∷ rest) rest
  backslash : (rest : Bytes) → StartsOtherwise b'$' rest → IsBare (92 ∷ rest) rest
  dollar : (rest : Bytes) → IsBare (b'$' ∷ rest) rest
  neither : (name : Bytes) → StartsOtherwise 92 name → StartsOtherwise b'$' name → IsBare name name

IsBare→bare_name : {name bare : Bytes} → IsBare name bare → bare_name name ≡ bare
unfolding bare_name
IsBare→bare_name (both rest) = refl
IsBare→bare_name (backslash [] h) = refl
IsBare→bare_name (backslash (c ∷ rest) h) = rw h refl
IsBare→bare_name (dollar rest) = refl
IsBare→bare_name (neither [] h k) = refl
IsBare→bare_name (neither (c ∷ name) h k) = simp (h, k) refl

behind_backslash : (rest : Bytes) → IsBare (92 ∷ rest) (bare_name (92 ∷ rest))
unfolding bare_name
behind_backslash [] = backslash [] tt
behind_backslash (c ∷ rest) = elim (Bool-cases (c == b'$')) [
  | inl marked ↦ rw (==→eq c b'$' marked) (both rest)
  | inr other ↦ rw other (backslash (c ∷ rest) other)
]

bare_name-IsBare : (name : Bytes) → IsBare name (bare_name name)
unfolding bare_name
bare_name-IsBare [] = neither [] tt tt
bare_name-IsBare (c ∷ rest) = elim (Bool-cases (c == 92)) [
  | inl marked ↦ rw (==→eq c 92 marked) (behind_backslash rest)
  | inr other ↦ elim (Bool-cases (c == b'$')) [
    | inl variable ↦ rw (==→eq c b'$' variable) (dollar rest)
    | inr plain ↦ simp (other, plain) (neither (c ∷ rest) other plain)
  ]
]

-- Both texts without their marks, the one of the label longer by what follows the prefix.
abbrev pub ExtendsBare : Bytes → Bytes → Type 0
ExtendsBare label prefix =
    (bare_label : Bytes) × (bare_prefix : Bytes) × IsBare label bare_label
    × IsBare prefix bare_prefix
    × Extends bare_label bare_prefix

-- A label matches exactly when, in lower case and both without a leading backslash and a dollar sign
-- behind it, it starts with the prefix.
pub matches_prefix_string_iff :
    (label prefix : Bytes) → (matches_prefix_string label prefix ≡ true) ↔ ExtendsBare label prefix
unfolding matches_prefix_string
matches_prefix_string_iff label prefix = rw (guard_redundant (bare_name label) (bare_name prefix)) (
  λ h. (
    bare_name label,
    bare_name prefix,
    bare_name-IsBare label,
    bare_name-IsBare prefix,
    agrees→Extends (bare_name label) (bare_name prefix) h,
  ),
  λ (l, p, bare_l, bare_p, e).
      rw (IsBare→bare_name bare_l, IsBare→bare_name bare_p) (Extends→agrees l p e.0 e.1),
)
