-- ===== src/Options/Runtime.antt =====
-- The options at the start and their change at run time, ext/lsp_server_core.c: `lsp_parse_size_value`,
-- `lsp_options_from_zval` and `lsp_options_apply_runtime`.
use ext_lsparrot.Base.{
  ℕ, zero, suc, ◌*◌, true, false, Option, none, some, Bytes, [], ◌∷◌, codes, if◌then◌else◌,
}
use ext_lsparrot.Base.Int.{pos}
use ext_lsparrot.Formatting.{client}
use ext_lsparrot.Options.{
  Options, auto_transport, auto_analyzers, is_negative, is_at_least_zero, at_least_zero_or,
  skip_white, multiplier, parse_analyzer, parse_worker_php_args, parse_level, parse_psalm,
  parse_formatting,
}
use ext_lsparrot.Zval.{
  Zval, Double, of_long, long, str, array_find, array_string, array_long, array_double, is_array,
}

unfoldable pub default_options : Options
default_options = record {
  symbol_index_size = 64 * 1024 * 1024;
  worker_count = pos 0;
  phpstan_level = pos 6;
  psalm_level = pos 6;
  formatting = record {
    enabled = true;
    reindent = true;
    trim_trailing_whitespace = true;
    insert_final_newline = true;
    indent_style = client;
    indent_size = pos 0;
  };
  diagnostics_timeout = of_long (pos 60);
  type_query_timeout = of_long (pos 5);
  analyzers = auto_analyzers;
  psalm = record {
    transport = auto_transport;
    on_change = true;
    enable_autocomplete = true;
    enable_diagnostics = true;
    enable_hover = true;
    enable_definition = true;
    enable_signature_help = true;
    show_info = false;
    live_dead_code_diagnostics = false;
    in_memory = false;
    on_change_debounce_ms = pos 500;
    max_response_wait_ms = pos 200;
  };
  memory_limit = codes "-1";
  worker_php_args = [];
}

-- A limit that is given and not empty.
unfoldable pub memory_limit_or : Option Bytes → Bytes → Bytes
memory_limit_or (some (c ∷ limit)) old = c ∷ limit
memory_limit_or _ old = old

-- A timeout of the workers: a negative one is the default.
unfoldable pub timeout_or : Double → Double → Double
unfolding is_negative
timeout_or given default = if is_negative given then default else given

-- A timeout that is given at run time: one that is no number, or negative, changes nothing.
unfoldable pub new_timeout : Double → Double → Double
unfolding is_at_least_zero
new_timeout given old = if is_at_least_zero given then given else old

unfoldable pub parse_workers : Option Zval → Options → Options
unfolding timeout_or at_least_zero_or
parse_workers workers o =
    if is_array workers
    then record o {
      worker_count = at_least_zero_or (array_long workers (codes "count") (pos 0)) (pos 0);
      diagnostics_timeout =
          timeout_or (array_double workers (codes "analyzerDiagnosticsTimeout") (of_long (pos 60)))
            (of_long (pos 60));
      type_query_timeout =
          timeout_or (array_double workers (codes "analyzerTypeQueryTimeout") (of_long (pos 5)))
            (of_long (pos 5));
    }
    else o

-- The settings at the top level, or nested under `lsparrot`.
unfoldable pub scoped_settings : Option Zval → Option Zval
scoped_settings settings =
    let scoped = array_find settings (codes "lsparrot") in
    if is_array scoped then scoped else settings

unfoldable pub with_settings : Option Zval → Options → Options
unfolding parse_formatting at_least_zero_or memory_limit_or new_timeout
with_settings settings o = record o {
  formatting = parse_formatting (array_find settings (codes "formatting")) (o.formatting);
  phpstan_level =
      at_least_zero_or (array_long settings (codes "phpstanLevel") (o.phpstan_level))
        (o.phpstan_level);
  psalm_level =
      at_least_zero_or (array_long settings (codes "psalmLevel") (o.psalm_level)) (o.psalm_level);
  memory_limit = memory_limit_or (array_string settings (codes "memoryLimit")) (o.memory_limit);
  diagnostics_timeout =
      new_timeout
        (array_double settings (codes "analyzerDiagnosticsTimeout") (o.diagnostics_timeout))
        (o.diagnostics_timeout);
  type_query_timeout =
      new_timeout (array_double settings (codes "analyzerTypeQueryTimeout") (o.type_query_timeout))
        (o.type_query_timeout);
}

-- `lsp_options_apply_runtime`
unfoldable pub apply_runtime : Option Zval → Options → Options
unfolding with_settings scoped_settings
apply_runtime params o =
    let settings = array_find params (codes "settings") in
    if is_array settings then with_settings (scoped_settings settings) o else o

-- `strtod` gives the number and the text behind it, and none where it sets `errno` or the number is
-- not above 0; `scaled` is the product, as a `size_t`.
module _ (strtod : Bytes → Option (Double × Bytes)) (scaled : Double → ℕ → ℕ) where
  unfoldable pub parse_size_text : Option (Double × Bytes) → ℕ → ℕ
  unfolding skip_white multiplier
  parse_size_text none fallback = fallback
  parse_size_text (some (number, behind)) fallback = scaled number (multiplier (skip_white behind))

  -- `lsp_parse_size_value`
  unfoldable pub parse_size_value : Option Zval → ℕ → ℕ
  unfolding parse_size_text
  parse_size_value (some (long (pos n))) fallback = elim n [ zero ↦ fallback | suc m ↦ suc m ]
  parse_size_value (some (str text)) fallback = parse_size_text (strtod text) fallback
  parse_size_value _ fallback = fallback

  unfoldable pub given_options : Option Zval → Options
  unfolding default_options parse_workers parse_formatting parse_level parse_psalm parse_analyzer
      parse_worker_php_args memory_limit_or at_least_zero_or parse_size_value
  given_options value =
      let phpstan = array_find value (codes "phpstan") in
      let psalm = array_find value (codes "psalm") in
      let phpstan_level =
        at_least_zero_or (array_long value (codes "phpstanLevel") (pos 6)) (pos 6) in
      let psalm_level = at_least_zero_or (array_long value (codes "psalmLevel") (pos 6)) (pos 6) in
      record (parse_workers (array_find value (codes "workers")) default_options) {
        symbol_index_size =
            parse_size_value (array_find (array_find value (codes "symbolIndex")) (codes "size"))
              (64 * 1024 * 1024);
        phpstan_level = parse_level phpstan phpstan_level;
        psalm_level = parse_level psalm psalm_level;
        formatting =
            parse_formatting (array_find value (codes "formatting")) (default_options.formatting);
        analyzers = parse_analyzer (array_find value (codes "analyzer"));
        psalm = parse_psalm psalm (default_options.psalm);
        memory_limit = memory_limit_or (array_string value (codes "memoryLimit")) (codes "-1");
        worker_php_args = parse_worker_php_args (array_find value (codes "workerPhpArgs"));
      }

  -- `lsp_options_from_zval`
  unfoldable pub options_from_zval : Option Zval → Options
  unfolding given_options default_options
  options_from_zval value = if is_array value then given_options value else default_options
