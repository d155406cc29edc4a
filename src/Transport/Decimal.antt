-- ===== src/Transport/Decimal.antt =====
-- `%zu` and `strtoull` are inverse: the length that `lsp_protocol_write_frame` prints is the length
-- that `lsp_transport_parse_frame` reads (ext/lsp_server_documents.c).
use ext_lsparrot.Base.{
  Bool-cases, inl, inr, ltb→lt, lt→ltb, ℕ, zero, suc, ◌+◌, ◌-◌, ◌*◌, ◌/◌, ◌%◌, ◌^◌, ◌<◌, ◌≡◌, refl,
  true, false, [], ◌∷◌, ◌++◌, ltb, ◌∙◌, ap, Bytes, All, within, arith,
}
use ext_lsparrot.Base.Int.{print_from, print_nat}
use ext_lsparrot.Transport.Header.{read_digits, read_signed, strtoull, size_mod}
use native.Mathlib.Nat.{pow-suc}

-- The first byte is a digit; for the text behind a number it is none.
abbrev StartsWithDigit : Bytes → Type 0
StartsWithDigit [] = ⊥
StartsWithDigit (c ∷ rest) = within b'0' b'9' c ≡ true

abbrev pub EndsNumber : Bytes → Type 0
EndsNumber [] = Unit
EndsNumber (c ∷ rest) = within b'0' b'9' c ≡ false

read_digits-end : (n : ℕ) (rest : Bytes) → EndsNumber rest → read_digits n rest ≡ n
unfolding read_digits
read_digits-end n [] h = refl
read_digits-end n (c ∷ rest) h = rw (h, read_digits)

read_digits-digit :
    (a d : ℕ) (rest : Bytes)
    → d < 10
    → read_digits a ((48 + d) ∷ rest) ≡ read_digits (a * 10 + d) rest
unfolding read_digits
read_digits-digit a d rest h =
    rw (let e : within 48 57 (48 + d) ≡ true = ground arith in e, read_digits)
      (rw (let e : 48 + d - 48 ≡ d = omega arith in e))

last_digit :
    (n : ℕ) (rest : Bytes) → read_digits (n / 10) ((48 + n % 10) ∷ rest) ≡ read_digits n rest
last_digit n rest =
    read_digits-digit (n / 10) (n % 10) rest (omega arith)
    ∙ ap (λ (m : ℕ). read_digits m rest) (omega arith)

only_digit :
    (n : ℕ) (rest : Bytes) → n < 10 → read_digits 0 ((48 + n % 10) ∷ rest) ≡ read_digits n rest
only_digit n rest h =
    read_digits-digit 0 (n % 10) rest (omega arith)
    ∙ ap (λ (m : ℕ). read_digits m rest) (omega arith)

-- Whatever digits stand behind the printed number are read after it.
read_digits-print_from :
    (fuel n : ℕ) (rest : Bytes)
    → n < 10 ^ suc fuel
    → read_digits 0 (print_from (suc fuel) n rest) ≡ read_digits n rest
unfolding print_from
read_digits-print_from zero n rest h = rw (lt→ltb n 10 h) (only_digit n rest h)
read_digits-print_from (suc fuel) n rest h = elim (Bool-cases (ltb n 10)) [
  | inl small ↦ rw small (only_digit n rest (ltb→lt n 10 small))
  | inr large ↦ rw large (
      read_digits-print_from fuel (n / 10) ((48 + n % 10) ∷ rest) (
        let bound : 10 ^ suc (suc fuel) ≡ 10 ^ suc fuel * 10 = pow-suc 10 (suc fuel) in omega arith)
      ∙ last_digit n rest)
]

print_from-append :
    (fuel n : ℕ) (acc rest : Bytes)
    → print_from fuel n acc ++ rest ≡ print_from fuel n (acc ++ rest)
unfolding print_from
print_from-append zero n acc rest = refl
print_from-append (suc fuel) n acc rest =
    ground (arith, print_from-append fuel (n / 10) ((48 + n % 10) ∷ acc) rest)

leading : (n : ℕ) → within 48 57 (48 + n % 10) ≡ true
leading n = ground arith

print_from-StartsWithDigit :
    (fuel n : ℕ) (acc : Bytes) → StartsWithDigit acc → StartsWithDigit (print_from fuel n acc)
unfolding print_from
print_from-StartsWithDigit zero n acc h = h
print_from-StartsWithDigit (suc fuel) n acc h = elim (Bool-cases (ltb n 10)) [
  | inl small ↦ rw small (leading n)
  | inr large ↦
      rw large (print_from-StartsWithDigit fuel (n / 10) ((48 + n % 10) ∷ acc) (leading n))
]

pub print_from-All :
    (P : ℕ → Type 0) (fuel n : ℕ) (acc : Bytes)
    → ((d : ℕ) → d < 10 → P (48 + d))
    → All P acc
    → All P (print_from fuel n acc)
unfolding print_from
print_from-All P zero n acc digits h = h
print_from-All P (suc fuel) n acc digits h = elim (Bool-cases (ltb n 10)) [
  | inl small ↦ rw small (digits (n % 10) (omega arith), h)
  | inr large ↦ rw large (
      print_from-All P fuel (n / 10) ((48 + n % 10) ∷ acc) digits
        (digits (n % 10) (omega arith), h))
]

strtoull-space : (text : Bytes) → strtoull (32 ∷ text) ≡ strtoull text
unfolding strtoull
strtoull-space text = refl

strtoull-digits :
    (text : Bytes)
    → StartsWithDigit text
    → read_digits 0 text < size_mod
    → strtoull text ≡ read_digits 0 text
unfolding strtoull read_signed
strtoull-digits [] h lt = absurd h
strtoull-digits (c ∷ rest) h lt = ground arith

print_from-digits : (fuel n : ℕ) (rest : Bytes) → StartsWithDigit (print_from (suc fuel) n rest)
unfolding print_from
print_from-digits fuel n rest = elim (Bool-cases (ltb n 10)) [
  | inl small ↦ rw small (leading n)
  | inr large ↦
      rw large (print_from-StartsWithDigit fuel (n / 10) ((48 + n % 10) ∷ rest) (leading n))
]

-- A space, a printed size and a text that does not begin with a digit: the size is read.
pub strtoull-print_nat :
    (n : ℕ) (rest : Bytes)
    → n < size_mod
    → EndsNumber rest
    → strtoull (32 ∷ (print_nat n ++ rest)) ≡ n
unfolding print_nat
strtoull-print_nat n rest lt stop =
    let read : read_digits 0 (print_from 20 n rest) ≡ n =
      read_digits-print_from 19 n rest (omega arith) ∙ read_digits-end n rest stop in
    rw (print_from-append 20 n [] rest) (
      strtoull-space (print_from 20 n rest)
      ∙ strtoull-digits (print_from 20 n rest) (print_from-digits 19 n rest) (rw read lt)
      ∙ read)
