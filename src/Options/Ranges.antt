-- ===== src/Options/Ranges.antt =====
-- The ranges that the single options of ext/lsp_server_core.c stay in.
use ext_lsparrot.Base.{
  ℕ, zero, suc, ◌≤◌, ◌≡◌, refl, leb, Bool, true, false, not, ◌&&◌, Option, ap, Bool-cases, inl, inr,
  arith, if◌then◌else◌,
}
use ext_lsparrot.Base.Int.{ℤ, pos, negsuc, is_neg, clamp_zero, int_leb}
use ext_lsparrot.Formatting.{Settings, options_resolve, client_size, tab_size_or_four}
use ext_lsparrot.Options.{
  PsalmOptions, is_negative, is_at_least_zero, is_nan, at_least_zero_or, parse_level, parse_psalm,
  parse_formatting, indent_size_or,
}
use ext_lsparrot.Options.Runtime.{timeout_or, new_timeout}
use ext_lsparrot.Zval.{Zval, Double, is_array, array_find, array_long}
use ext_lsparrot.Base.{codes}

pub at_least_zero_or_lem :
    (n old : ℤ) → is_neg old ≡ false → is_neg (at_least_zero_or n old) ≡ false
unfolding at_least_zero_or
at_least_zero_or_lem (pos n) old h = refl
at_least_zero_or_lem (negsuc n) old h = h

pub parse_level_lem :
    (value : Option Zval) (level : ℤ)
    → is_neg level ≡ false
    → is_neg (parse_level value level) ≡ false
unfolding parse_level
parse_level_lem value level h = elim (Bool-cases (is_array value)) [
  | inl array ↦ rw array (at_least_zero_or_lem (array_long value (codes "level") level) level h)
  | inr other ↦ rw other h
]

pub timeout_or_lem :
    (given default : Double)
    → is_negative default ≡ false
    → is_negative (timeout_or given default) ≡ false
unfolding timeout_or
timeout_or_lem given default h = elim (Bool-cases (is_negative given)) [
  | inl negative ↦ rw negative h
  | inr fine ↦ rw fine fine
]

not_negative : (a b : Bool) → (not a && not b) ≡ true → b ≡ false
not_negative a b h = ground arith

pub new_timeout_lem :
    (given old : Double) → is_negative old ≡ false → is_negative (new_timeout given old) ≡ false
unfolding new_timeout is_at_least_zero
new_timeout_lem given old h = elim (Bool-cases (is_at_least_zero given)) [
  | inl fine ↦ rw fine (not_negative (is_nan given) (is_negative given) fine)
  | inr other ↦ rw other h
]

abbrev pub IsIndent : ℤ → Type 0
IsIndent size = (n : ℕ) × (size ≡ pos n) × (n ≤ 16)

indent_size_or-IsIndent : (size old : ℤ) → IsIndent old → IsIndent (indent_size_or size old)
unfolding indent_size_or int_leb
indent_size_or-IsIndent (negsuc n) old h = h
indent_size_or-IsIndent (pos n) old h = elim (Bool-cases (leb 0 n && leb n 16)) [
  | inl fits ↦ rw fits (n, refl, ground arith)
  | inr other ↦ rw other h
]

pub parse_formatting-IsIndent :
    (value : Option Zval) (s : Settings)
    → IsIndent (s.indent_size)
    → IsIndent ((parse_formatting value s).indent_size)
unfolding parse_formatting
parse_formatting-IsIndent value s h = elim (Bool-cases (is_array value)) [
  | inl array ↦ rw array (indent_size_or-IsIndent _ (s.indent_size) h)
  | inr other ↦ rw other h
]

pub parse_psalm_lem :
    (value : Option Zval) (o : PsalmOptions)
    → is_neg (o.on_change_debounce_ms) ≡ false
    → is_neg (o.max_response_wait_ms) ≡ false
    → (is_neg ((parse_psalm value o).on_change_debounce_ms) ≡ false)
      × (is_neg ((parse_psalm value o).max_response_wait_ms) ≡ false)
unfolding parse_psalm
parse_psalm_lem value o h k = elim (Bool-cases (is_array value)) [
  | inl array ↦ rw array (
    at_least_zero_or_lem (array_long value (codes "onChangeDebounceMs") (o.on_change_debounce_ms))
        (o.on_change_debounce_ms) h,
    at_least_zero_or_lem (array_long value (codes "maxResponseWaitMs") (o.max_response_wait_ms))
        (o.max_response_wait_ms) k,
  )
  | inr other ↦ rw other (h, k)
]

tab_size_or_four_bounds : (size : ℤ) → (1 ≤ tab_size_or_four size) × (tab_size_or_four size ≤ 16)
unfolding tab_size_or_four int_leb
tab_size_or_four_bounds (negsuc n) = (omega arith, omega arith)
tab_size_or_four_bounds (pos n) = elim (Bool-cases (leb 1 n && leb n 16)) [
  | inl fits ↦ rw fits (ground arith, ground arith)
  | inr other ↦ rw other (omega arith, omega arith)
]

client_size_bounds : (asked : Option Zval) → (1 ≤ client_size asked) × (client_size asked ≤ 16)
unfolding client_size
client_size_bounds asked = elim (Bool-cases (is_array asked)) [
  | inl array ↦ rw array (tab_size_or_four_bounds (array_long asked (codes "tabSize") (pos 4)))
  | inr other ↦ rw other (omega arith, omega arith)
]

abbrev size_or_client : ℤ → Option Zval → ℕ
size_or_client size asked = if int_leb size (pos 0) then client_size asked else clamp_zero size

size_or_client_bounds :
    (size : ℤ) (asked : Option Zval)
    → IsIndent size
    → (1 ≤ size_or_client size asked) × (size_or_client size asked ≤ 16)
unfolding int_leb
size_or_client_bounds (pos zero) asked h = client_size_bounds asked
size_or_client_bounds (negsuc n) asked h = client_size_bounds asked
size_or_client_bounds (pos (suc n)) asked (m, same, le) =
    let eq : suc n ≡ m = ap clamp_zero same in
    let positive : leb (suc n) 0 ≡ false = ground arith in rw positive (omega arith, omega arith)

-- The size of an indent that the formatter takes from valid options.
pub options_resolve_bounds :
    (s : Settings) (params : Option Zval)
    → IsIndent (s.indent_size)
    → (1 ≤ (options_resolve s params).indent_size) × ((options_resolve s params).indent_size ≤ 16)
unfolding options_resolve
options_resolve_bounds s params h =
    size_or_client_bounds (s.indent_size) (array_find params (codes "options")) h
