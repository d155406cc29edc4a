-- ===== src/Options.antt =====
-- The options of the server, ext/lsp_server_core.c: `lsp_options_from_zval`, `lsp_options_apply_runtime` and
-- the functions that they call. `strtod` and the product of a double and a factor are parameters.
pub mod Runtime
pub mod Ranges
pub mod Valid
mod Tests
use ext_lsparrot.Base.{
  ℕ, ◌*◌, ◌%◌, ◌^◌, Bool, true, false, not, ◌&&◌, ◌||◌, Option, none, some, Bytes, List, [], ◌∷◌,
  codes, length, bytes_eq, is_space, ltb, leb, ◌==◌, if◌then◌else◌,
}
use ext_lsparrot.Base.Int.{ℤ, pos, is_neg, int_leb, size_cast}
use ext_lsparrot.Formatting.{Settings, IndentStyle, client, space, tab}
use ext_lsparrot.Tokens.{equals_ci}
use ext_lsparrot.Zval.{
  Zval, Items, Double, bits, of_long, nil, item, long, str, arr, array_find, array_string,
  array_long, array_bool, array_double, is_array, string_value,
}

-- `LSP_PSALM_TRANSPORT_...`
pub data PsalmTransport : Type 0 where
  auto_transport cli language_server : PsalmTransport

-- The analyzers that are asked for.
pub record Analyzers : Type 0 where
  pub auto : Bool
  pub phpstan : Bool
  pub psalm : Bool
  pub psalm_ls : Bool

-- The fields `psalm_...`, but the level.
pub record PsalmOptions : Type 0 where
  pub transport : PsalmTransport
  pub on_change : Bool
  pub enable_autocomplete : Bool
  pub enable_diagnostics : Bool
  pub enable_hover : Bool
  pub enable_definition : Bool
  pub enable_signature_help : Bool
  pub show_info : Bool
  pub live_dead_code_diagnostics : Bool
  pub in_memory : Bool
  pub on_change_debounce_ms : ℤ
  pub max_response_wait_ms : ℤ

-- `lsp_options`
pub record Options : Type 0 where
  pub symbol_index_size : ℕ
  pub worker_count : ℤ
  pub phpstan_level : ℤ
  pub psalm_level : ℤ
  pub formatting : Settings
  pub diagnostics_timeout : Double
  pub type_query_timeout : Double
  pub analyzers : Analyzers
  pub psalm : PsalmOptions
  pub memory_limit : Bytes
  pub worker_php_args : List Bytes

-- A double from its bits: the magnitude is below 2^63, and a NaN's is above that of infinity.
unfoldable pub magnitude : ℕ → ℕ
magnitude b = b % 2 ^ 63

unfoldable pub is_nan : Double → Bool
unfolding magnitude
is_nan (of_long n) = false
is_nan (bits b) = ltb 0x7ff0000000000000 (magnitude b)

-- `x < 0.0`
unfoldable pub is_negative : Double → Bool
unfolding magnitude is_nan
is_negative (of_long n) = is_neg n
is_negative (bits b) = leb (2 ^ 63) b && not (magnitude b == 0) && not (is_nan (bits b))

-- `x >= 0.0`
unfoldable pub is_at_least_zero : Double → Bool
unfolding is_nan is_negative
is_at_least_zero x = not (is_nan x) && not (is_negative x)

-- `n >= 0 ? n : fallback`
unfoldable pub at_least_zero_or : ℤ → ℤ → ℤ
at_least_zero_or n fallback = if is_neg n then fallback else n

-- `lsp_zval_string_equals_literal`
unfoldable pub string_equals : Option Bytes → Bytes → Bool
string_equals none literal = false
string_equals (some text) literal = bytes_eq text literal

unfoldable pub skip_white : Bytes → Bytes
skip_white [] = []
skip_white (c ∷ text) = if is_space c then skip_white text else c ∷ text

unfoldable pub multiplier : Bytes → ℕ
multiplier [] = 1
multiplier (c ∷ text) =
    if c == b'k' || c == b'K'
    then 1024
    else if c == b'm' || c == b'M'
    then 1024 * 1024
    else if c == b'g' || c == b'G'
    then 1024 * 1024 * 1024
    else 1

-- The analyzers of a list.
unfoldable pub note_analyzer : Option Bytes → Analyzers → Analyzers
unfolding string_equals
note_analyzer name a =
    if string_equals name (codes "phpstan")
    then record a { phpstan = true }
    else if string_equals name (codes "psalm")
    then record a { psalm = true }
    else if string_equals name (codes "psalm-ls")
    then record a { psalm_ls = true }
    else a

unfoldable pub note_analyzers : Items → Analyzers → Analyzers
unfolding note_analyzer
note_analyzers nil a = a
note_analyzers (item k v rest) a = note_analyzers rest (note_analyzer (string_value (some v)) a)

abbrev pub auto_analyzers : Analyzers
auto_analyzers = record { auto = true; phpstan = false; psalm = false; psalm_ls = false }

abbrev pub no_analyzers : Analyzers
no_analyzers = record { auto = false; phpstan = false; psalm = false; psalm_ls = false }

unfoldable pub named_analyzer : Bytes → Analyzers
unfolding note_analyzer
named_analyzer name =
    if bytes_eq name (codes "auto")
    then auto_analyzers
    else if bytes_eq name (codes "lsparrot")
    then no_analyzers
    else if bytes_eq name (codes "phpstan")
        || bytes_eq name (codes "psalm")
        || bytes_eq name (codes "psalm-ls")
    then note_analyzer (some name) no_analyzers
    else auto_analyzers

-- `lsp_options_parse_analyzer`
unfoldable pub parse_analyzer : Option Zval → Analyzers
unfolding named_analyzer note_analyzers
parse_analyzer (some (str name)) = named_analyzer name
parse_analyzer (some (arr items)) = note_analyzers items no_analyzers
parse_analyzer _ = auto_analyzers

unfoldable pub cons_text : Option Bytes → List Bytes → List Bytes
cons_text (some (c ∷ text)) rest = (c ∷ text) ∷ rest
cons_text _ rest = rest

unfoldable pub texts : Items → List Bytes
unfolding cons_text
texts nil = []
texts (item k v rest) = cons_text (string_value (some v)) (texts rest)

-- `lsp_options_parse_worker_php_args`
unfoldable pub parse_worker_php_args : Option Zval → List Bytes
unfolding texts
parse_worker_php_args (some (arr items)) = texts items
parse_worker_php_args _ = []

-- `lsp_options_parse_phpstan` and `lsp_options_parse_psalm_cli`: what is no array changes nothing.
unfoldable pub parse_level : Option Zval → ℤ → ℤ
unfolding at_least_zero_or
parse_level value level =
    if is_array value
    then at_least_zero_or (array_long value (codes "level") level) level
    else level

-- `lsp_parse_psalm_transport`
unfoldable pub parse_psalm_transport : Option Zval → PsalmTransport → PsalmTransport
parse_psalm_transport (some (str name)) fallback =
    if bytes_eq name (codes "cli")
    then cli
    else if bytes_eq name (codes "languageServer")
        || bytes_eq name (codes "language-server")
        || bytes_eq name (codes "lsp")
    then language_server
    else auto_transport
parse_psalm_transport _ fallback = fallback

-- `lsp_options_parse_psalm`
unfoldable pub parse_psalm : Option Zval → PsalmOptions → PsalmOptions
unfolding parse_psalm_transport at_least_zero_or
parse_psalm value o =
    if is_array value
    then record {
      transport = parse_psalm_transport (array_find value (codes "transport")) (o.transport);
      on_change = array_bool value (codes "onChange") (o.on_change);
      enable_autocomplete = array_bool value (codes "enableAutocomplete") (o.enable_autocomplete);
      enable_diagnostics = array_bool value (codes "enableDiagnostics") (o.enable_diagnostics);
      enable_hover = array_bool value (codes "enableHover") (o.enable_hover);
      enable_definition = array_bool value (codes "enableDefinition") (o.enable_definition);
      enable_signature_help =
          array_bool value (codes "enableSignatureHelp") (o.enable_signature_help);
      show_info = array_bool value (codes "showInfo") (o.show_info);
      live_dead_code_diagnostics =
          array_bool value (codes "liveDeadCodeDiagnostics") (o.live_dead_code_diagnostics);
      in_memory = array_bool value (codes "inMemory") (o.in_memory);
      on_change_debounce_ms =
          at_least_zero_or (array_long value (codes "onChangeDebounceMs") (o.on_change_debounce_ms))
            (o.on_change_debounce_ms);
      max_response_wait_ms =
          at_least_zero_or (array_long value (codes "maxResponseWaitMs") (o.max_response_wait_ms))
            (o.max_response_wait_ms);
    }
    else o

unfoldable pub parse_style : Option Bytes → IndentStyle → IndentStyle
parse_style none style = style
parse_style (some name) style =
    if equals_ci name (codes "space") || equals_ci name (codes "spaces")
    then space
    else if equals_ci name (codes "tab") || equals_ci name (codes "tabs")
    then tab
    else if equals_ci name (codes "client")
    then client
    else style

unfoldable pub indent_size_or : ℤ → ℤ → ℤ
indent_size_or size old = if int_leb (pos 0) size && int_leb size (pos 16) then size else old

-- `lsp_options_parse_formatting`
unfoldable pub parse_formatting : Option Zval → Settings → Settings
unfolding parse_style indent_size_or
parse_formatting value s =
    if is_array value
    then record {
      enabled = array_bool value (codes "enabled") (s.enabled);
      reindent = array_bool value (codes "reindent") (s.reindent);
      trim_trailing_whitespace =
          array_bool value (codes "trimTrailingWhitespace") (s.trim_trailing_whitespace);
      insert_final_newline = array_bool value (codes "insertFinalNewline") (s.insert_final_newline);
      indent_size =
          indent_size_or (array_long value (codes "indentSize") (s.indent_size)) (s.indent_size);
      indent_style = parse_style (array_string value (codes "indentStyle")) (s.indent_style);
    }
    else s
