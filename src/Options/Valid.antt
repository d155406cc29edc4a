-- ===== src/Options/Valid.antt =====
-- The options of ext/lsp_server_core.c stay in their ranges, whatever the configuration holds.
use ext_lsparrot.Base.{
  ℕ, ◌≤◌, ◌≡◌, refl, false, Option, Bytes, List, [], ◌∷◌, Bool-cases, inl, inr, arith,
}
use ext_lsparrot.Base.Int.{pos, is_neg}
use ext_lsparrot.Formatting.{options_resolve}
use ext_lsparrot.Options.{Options, is_negative, at_least_zero_or}
use ext_lsparrot.Options.Runtime.{
  default_options, parse_workers, with_settings, apply_runtime, given_options, options_from_zval,
}
use ext_lsparrot.Zval.{Zval, Double, of_long, is_array, array_find, array_long, array_double}
use ext_lsparrot.Base.{codes}
use ext_lsparrot.Options.Ranges.{
  at_least_zero_or_lem, parse_level_lem, timeout_or_lem, new_timeout_lem, parse_formatting-IsIndent,
  parse_psalm_lem, options_resolve_bounds,
}

-- No count, level or delay is negative, nor is a timeout; the indent size is 0, which stands for the
-- client's, or one of 1 to 16.
pub record IsValid (o : Options) : Type 0 where
  workers : is_neg (o.worker_count) ≡ false
  phpstan : is_neg (o.phpstan_level) ≡ false
  psalm : is_neg (o.psalm_level) ≡ false
  debounce : is_neg (o.psalm.on_change_debounce_ms) ≡ false
  wait : is_neg (o.psalm.max_response_wait_ms) ≡ false
  diagnostics : is_negative (o.diagnostics_timeout) ≡ false
  type_query : is_negative (o.type_query_timeout) ≡ false
  pub indent : (n : ℕ) × (o.formatting.indent_size ≡ pos n) × (n ≤ 16)

default-IsValid : IsValid default_options
unfolding default_options is_negative
default-IsValid = record {
  workers = refl;
  phpstan = refl;
  psalm = refl;
  debounce = refl;
  wait = refl;
  diagnostics = refl;
  type_query = refl;
  indent = (0, refl, omega arith);
}

parse_workers_lem :
    (value : Option Zval) (o : Options)
    → is_neg (o.worker_count) ≡ false
    → is_negative (o.diagnostics_timeout) ≡ false
    → is_negative (o.type_query_timeout) ≡ false
    → (is_neg ((parse_workers value o).worker_count) ≡ false)
      × (is_negative ((parse_workers value o).diagnostics_timeout) ≡ false)
      × (is_negative ((parse_workers value o).type_query_timeout) ≡ false)
unfolding parse_workers is_negative
parse_workers_lem value o h k l = elim (Bool-cases (is_array value)) [
  | inl array ↦ rw array (
    at_least_zero_or_lem (array_long value (codes "count") (pos 0)) (pos 0) refl,
    timeout_or_lem (array_double value (codes "analyzerDiagnosticsTimeout") (of_long (pos 60)))
        (of_long (pos 60)) refl,
    timeout_or_lem (array_double value (codes "analyzerTypeQueryTimeout") (of_long (pos 5)))
        (of_long (pos 5)) refl,
  )
  | inr other ↦ rw other (h, k, l)
]

with_settings-IsValid :
    (settings : Option Zval) (o : Options) → IsValid o → IsValid (with_settings settings o)
unfolding with_settings
with_settings-IsValid settings o v = record {
  workers = v.workers;
  phpstan =
      at_least_zero_or_lem (array_long settings (codes "phpstanLevel") (o.phpstan_level))
        (o.phpstan_level) (v.phpstan);
  psalm =
      at_least_zero_or_lem (array_long settings (codes "psalmLevel") (o.psalm_level))
        (o.psalm_level) (v.psalm);
  debounce = v.debounce;
  wait = v.wait;
  diagnostics =
      new_timeout_lem
        (array_double settings (codes "analyzerDiagnosticsTimeout") (o.diagnostics_timeout))
        (o.diagnostics_timeout) (v.diagnostics);
  type_query =
      new_timeout_lem
        (array_double settings (codes "analyzerTypeQueryTimeout") (o.type_query_timeout))
        (o.type_query_timeout) (v.type_query);
  indent = parse_formatting-IsIndent _ (o.formatting) (v.indent);
}

apply_runtime-IsValid :
    (params : Option Zval) (o : Options) → IsValid o → IsValid (apply_runtime params o)
unfolding apply_runtime
apply_runtime-IsValid params o v =
    elim (Bool-cases (is_array (array_find params (codes "settings")))) [
      | inl array ↦ rw array (with_settings-IsValid _ o v)
      | inr other ↦ rw other v
    ]

-- The configurations that come while the server runs, one after the other.
unfoldable pub apply_all : List (Option Zval) → Options → Options
unfolding apply_runtime
apply_all [] o = o
apply_all (params ∷ rest) o = apply_all rest (apply_runtime params o)

apply_all-IsValid :
    (updates : List (Option Zval)) (o : Options) → IsValid o → IsValid (apply_all updates o)
unfolding apply_all
apply_all-IsValid [] o v = v
apply_all-IsValid (params ∷ rest) o v =
    apply_all-IsValid rest (apply_runtime params o) (apply_runtime-IsValid params o v)

-- What stays as it was at the start: the size of the index, the workers, the analyzers and their
-- transport.
pub record IsAsStarted (o start : Options) : Type 0 where
  size : o.symbol_index_size ≡ start.symbol_index_size
  count : o.worker_count ≡ start.worker_count
  args : o.worker_php_args ≡ start.worker_php_args
  kinds : o.analyzers ≡ start.analyzers
  pub psalm_ls : o.psalm ≡ start.psalm

as_started : {start : Options} → IsAsStarted start start
as_started = record { size = refl; count = refl; args = refl; kinds = refl; psalm_ls = refl }

apply_runtime-IsAsStarted :
    (params : Option Zval) (o start : Options)
    → IsAsStarted o start
    → IsAsStarted (apply_runtime params o) start
unfolding apply_runtime with_settings
apply_runtime-IsAsStarted params o start s =
    elim (Bool-cases (is_array (array_find params (codes "settings")))) [
      | inl array ↦ rw array (record {
        size = s.size;
        count = s.count;
        args = s.args;
        kinds = s.kinds;
        psalm_ls = s.psalm_ls;
      })
      | inr other ↦ rw other s
    ]

apply_all-IsAsStarted :
    (updates : List (Option Zval)) (o start : Options)
    → IsAsStarted o start
    → IsAsStarted (apply_all updates o) start
unfolding apply_all
apply_all-IsAsStarted [] o start s = s
apply_all-IsAsStarted (params ∷ rest) o start s =
    apply_all-IsAsStarted rest (apply_runtime params o) start
      (apply_runtime-IsAsStarted params o start s)

module _ (strtod : Bytes → Option (Double × Bytes)) (scaled : Double → ℕ → ℕ) where
  given_options-IsValid : (value : Option Zval) → IsValid (given_options strtod scaled value)
  unfolding given_options
  given_options-IsValid value =
      let d = default-IsValid in
      let workers = array_find value (codes "workers") in
      let (count, diagnostics, type_query) =
        parse_workers_lem workers default_options (d.workers) (d.diagnostics) (d.type_query) in
      let (debounce, wait) =
        parse_psalm_lem (array_find value (codes "psalm")) (default_options.psalm) (d.debounce)
          (d.wait) in
      record {
        workers = count;
        phpstan =
            parse_level_lem (array_find value (codes "phpstan"))
              (at_least_zero_or (array_long value (codes "phpstanLevel") (pos 6)) (pos 6))
              (at_least_zero_or_lem (array_long value (codes "phpstanLevel") (pos 6)) (pos 6) refl);
        psalm =
            parse_level_lem (array_find value (codes "psalm"))
              (at_least_zero_or (array_long value (codes "psalmLevel") (pos 6)) (pos 6))
              (at_least_zero_or_lem (array_long value (codes "psalmLevel") (pos 6)) (pos 6) refl);
        debounce = debounce;
        wait = wait;
        diagnostics = diagnostics;
        type_query = type_query;
        indent =
            parse_formatting-IsIndent (array_find value (codes "formatting"))
              (default_options.formatting) (d.indent);
      }

  options_from_zval-IsValid :
      (value : Option Zval) → IsValid (options_from_zval strtod scaled value)
  unfolding options_from_zval
  options_from_zval-IsValid value = elim (Bool-cases (is_array value)) [
    | inl array ↦ rw array (given_options-IsValid value)
    | inr other ↦ rw other default-IsValid
  ]

  -- Whatever the server is started with and whatever configurations come while it runs: no level,
  -- count, delay or timeout is negative, the indent that is set is 0 to 16, and the one that the
  -- formatter uses 1 to 16, whatever the client asks; the size of the index, the workers, the
  -- analyzers and the options of the Psalm server stay as they were at the start.
  pub apply_all-bounds :
      (value : Option Zval) (updates : List (Option Zval)) (params : Option Zval)
      → let start = options_from_zval strtod scaled value in
        let o = apply_all updates start in
        IsValid o
        × IsAsStarted o start
        × (1 ≤ (options_resolve (o.formatting) params).indent_size)
        × ((options_resolve (o.formatting) params).indent_size ≤ 16)
  apply_all-bounds value updates params =
      let start = options_from_zval strtod scaled value in
      let v = apply_all-IsValid updates start (options_from_zval-IsValid value) in
      let (low, high) =
        options_resolve_bounds ((apply_all updates start).formatting) params (v.indent) in
      (v, apply_all-IsAsStarted updates start start as_started, low, high)
