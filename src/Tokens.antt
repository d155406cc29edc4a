-- ===== src/Tokens.antt =====
-- The token ids of the PHP lexer that ext/lsp_server_semantic_tokens.c and ext/lsp_server_formatting.c
-- distinguish, the tests of the former on them, and the tokens as they are read. The numbers of the ids come from a header that the PHP build
-- generates (Zend/zend_language_parser.h), so the decoding of a number is a parameter, `kind_of`.
pub mod Samples
use ext_lsparrot.Base.{
  ℕ, zero, suc, ◌+◌, ◌-◌, Bool, true, false, not, ◌&&◌, ◌||◌, Option, none, some, Bytes, codes,
  bytes_eq, ◌==◌, if◌then◌else◌,
}
use ext_lsparrot.Base.Int.{ℤ, pos}
use ext_lsparrot.Scan.Prefix.{lower}
use ext_lsparrot.Zval.{Zval, Items, items_index, is_array, array_long, array_string}

-- `char c` is a token of one byte; `char 0` is also the id of a token that has none.
pub data Kind : Type 0 where
  char : ℕ → Kind
  other : Kind
  t_abstract t_array t_as t_attribute t_break t_callable t_case t_catch t_class t_class_c t_clone
        t_close_tag t_comment t_const t_constant_encapsed_string t_continue t_curly_open t_declare
        t_default t_dir t_dnumber t_do t_doc_comment t_dollar_open_curly_braces t_echo t_else
        t_elseif t_empty t_encapsed_and_whitespace t_enddeclare t_endfor t_endforeach t_endif
        t_endswitch t_endwhile t_end_heredoc t_enum t_exit t_extends t_file t_final t_finally t_fn
        t_for t_foreach t_function t_func_c t_global t_goto t_if t_implements t_include
        t_include_once t_inline_html t_instanceof t_insteadof t_interface t_isset t_line t_list
        t_lnumber t_match t_method_c t_namespace t_name_fully_qualified t_name_qualified
        t_name_relative t_new t_ns_c t_nullsafe_object_operator t_object_operator t_open_tag
        t_open_tag_with_echo t_paamayim_nekudotayim t_print t_private t_protected t_public
        t_readonly t_require t_require_once t_return t_start_heredoc t_static t_string t_switch
        t_throw t_trait t_try t_unset t_use t_var t_variable t_while t_whitespace t_yield
        t_yield_from :
      Kind

abbrev pub is_char : ℕ → Kind → Bool
is_char c (char d) = c == d
is_char c _ = false

unfoldable pub id_is_keyword : Kind → Bool
id_is_keyword t_abstract = true
id_is_keyword t_array = true
id_is_keyword t_as = true
id_is_keyword t_break = true
id_is_keyword t_callable = true
id_is_keyword t_case = true
id_is_keyword t_catch = true
id_is_keyword t_class = true
id_is_keyword t_class_c = true
id_is_keyword t_clone = true
id_is_keyword t_const = true
id_is_keyword t_continue = true
id_is_keyword t_declare = true
id_is_keyword t_default = true
id_is_keyword t_dir = true
id_is_keyword t_do = true
id_is_keyword t_echo = true
id_is_keyword t_else = true
id_is_keyword t_elseif = true
id_is_keyword t_empty = true
id_is_keyword t_enddeclare = true
id_is_keyword t_endfor = true
id_is_keyword t_endforeach = true
id_is_keyword t_endif = true
id_is_keyword t_endswitch = true
id_is_keyword t_endwhile = true
id_is_keyword t_enum = true
id_is_keyword t_exit = true
id_is_keyword t_extends = true
id_is_keyword t_file = true
id_is_keyword t_final = true
id_is_keyword t_finally = true
id_is_keyword t_fn = true
id_is_keyword t_for = true
id_is_keyword t_foreach = true
id_is_keyword t_function = true
id_is_keyword t_func_c = true
id_is_keyword t_global = true
id_is_keyword t_goto = true
id_is_keyword t_if = true
id_is_keyword t_implements = true
id_is_keyword t_include = true
id_is_keyword t_include_once = true
id_is_keyword t_instanceof = true
id_is_keyword t_insteadof = true
id_is_keyword t_interface = true
id_is_keyword t_isset = true
id_is_keyword t_line = true
id_is_keyword t_list = true
id_is_keyword t_match = true
id_is_keyword t_method_c = true
id_is_keyword t_namespace = true
id_is_keyword t_new = true
id_is_keyword t_ns_c = true
id_is_keyword t_print = true
id_is_keyword t_private = true
id_is_keyword t_protected = true
id_is_keyword t_public = true
id_is_keyword t_readonly = true
id_is_keyword t_require = true
id_is_keyword t_require_once = true
id_is_keyword t_return = true
id_is_keyword t_static = true
id_is_keyword t_switch = true
id_is_keyword t_throw = true
id_is_keyword t_trait = true
id_is_keyword t_try = true
id_is_keyword t_unset = true
id_is_keyword t_use = true
id_is_keyword t_var = true
id_is_keyword t_while = true
id_is_keyword t_yield = true
id_is_keyword t_yield_from = true
id_is_keyword _ = false

unfoldable pub id_is_string : Kind → Bool
id_is_string t_constant_encapsed_string = true
id_is_string t_encapsed_and_whitespace = true
id_is_string t_start_heredoc = true
id_is_string t_end_heredoc = true
id_is_string _ = false

-- `zend_string_equals_literal_ci`
abbrev pub equals_ci : Bytes → Bytes → Bool
equals_ci text literal = bytes_eq (lower text) literal

unfoldable pub text_is_keyword_literal : Bytes → Bool
text_is_keyword_literal text =
    equals_ci text (codes "true")
    || equals_ci text (codes "false")
    || equals_ci text (codes "null")
    || equals_ci text (codes "self")
    || equals_ci text (codes "parent")

unfoldable pub id_is_significant : Kind → Bool
id_is_significant t_whitespace = false
id_is_significant t_comment = false
id_is_significant t_doc_comment = false
id_is_significant t_open_tag = false
id_is_significant t_close_tag = false
id_is_significant t_open_tag_with_echo = false
id_is_significant _ = true

-- `zend_hash_index_find` and the test for an array: none where the loops of the source continue.
unfoldable pub token_at : Items → ℕ → Option Zval
token_at tokens i = let token = items_index tokens i in if is_array token then token else none

module _ (kind_of : ℤ → Kind) where
  -- `lsp_token_long(token, "id", 0)`
  unfoldable pub token_id : Zval → Kind
  token_id token = kind_of (array_long (some token) (codes "id") (pos 0))

  -- The loop of `lsp_semantic_next_significant_id`; the first argument is `count - i`.
  unfoldable pub next_significant_from : ℕ → Items → ℕ → Kind
  unfolding token_at token_id id_is_significant
  next_significant_from zero tokens i = char 0
  next_significant_from (suc left) tokens i =
      let further = next_significant_from left tokens (suc i) in
      elim (token_at tokens i) [
        | none ↦ further
        | some token ↦ if id_is_significant (token_id token) then token_id token else further
      ]

  unfoldable pub next_significant_id : Items → ℕ → ℕ → Kind
  unfolding next_significant_from
  next_significant_id tokens start count = next_significant_from (count - start) tokens start

  unfoldable pub next_is_open_paren : Items → ℕ → ℕ → Bool
  unfolding next_significant_id
  next_is_open_paren tokens start count = is_char b'(' (next_significant_id tokens start count)
