-- ===== src/Semantic/Classify.antt =====
-- The classification of one token, ext/lsp_server_semantic_tokens.c: the body of the loop of
-- `lsp_semantic_tokens_collect` up to the type and the modifiers.
use Prim.Native.String.{String}
use ext_lsparrot.Base.{
  List, ℕ, suc, ◌+◌, ◌-◌, Bool, true, false, not, ◌&&◌, Option, none, some, Bytes, [], ◌∷◌, codes,
  bytes_eq, ltb, ◌==◌, if◌then◌else◌,
}
use ext_lsparrot.Base.Int.{ℤ, pos, negsuc}
use ext_lsparrot.Tokens.{
  Kind, char, is_char, id_is_keyword, text_is_keyword_literal, equals_ci, next_significant_id,
  next_is_open_paren, t_class, t_const, t_dnumber, t_enum, t_extends, t_function, t_implements,
  t_instanceof, t_interface, t_lnumber, t_name_fully_qualified, t_name_qualified, t_name_relative,
  t_namespace, t_new, t_nullsafe_object_operator, t_object_operator, t_paamayim_nekudotayim,
  t_string, t_trait, t_use, t_variable,
}
use ext_lsparrot.Semantic.Modifiers.{DeclInfo, scan_declaration_modifiers}
use ext_lsparrot.Zval.{Items}

-- `lsp_semantic_token_legend`: the names that the numbers below stand for.
pub record Legend : Type 0 where
  pub token_types : List String
  pub token_modifiers : List String

unfoldable pub token_legend : Legend
token_legend = record {
  token_types =
      "namespace" ∷ "class" ∷ "interface" ∷ "enum" ∷ "function" ∷ "method" ∷ "property" ∷ "variable"
      ∷ "parameter" ∷ "keyword" ∷ "comment" ∷ "string" ∷ "number" ∷ "operator" ∷ "enumMember" ∷ [];
  token_modifiers = "static" ∷ "readonly" ∷ "deprecated" ∷ "declaration" ∷ [];
}

-- The `LSP_SEM_` types. `none_type` is `LSP_SEM_NONE`.
abbrev pub none_type : ℤ
none_type = negsuc 0

abbrev pub sem_namespace : ℤ
sem_namespace = pos 0

abbrev pub sem_class : ℤ
sem_class = pos 1

abbrev pub sem_interface : ℤ
sem_interface = pos 2

abbrev pub sem_enum : ℤ
sem_enum = pos 3

abbrev pub sem_function : ℤ
sem_function = pos 4

abbrev pub sem_method : ℤ
sem_method = pos 5

abbrev pub sem_property : ℤ
sem_property = pos 6

abbrev pub sem_variable : ℤ
sem_variable = pos 7

abbrev pub sem_keyword : ℤ
sem_keyword = pos 9

abbrev pub sem_number : ℤ
sem_number = pos 12

abbrev pub sem_enum_member : ℤ
sem_enum_member = pos 14

-- `LSP_SEM_MOD_...`, where the flag is set. No bit is set twice, so `|=` adds it.
abbrev pub flag : ℕ → Bool → ℕ
flag bit set = if set then bit else 0

abbrev pub mod_static : ℕ
mod_static = 1

abbrev pub mod_readonly : ℕ
mod_readonly = 2

abbrev pub mod_deprecated : ℕ
mod_deprecated = 4

abbrev pub mod_declaration : ℕ
mod_declaration = 8

-- The variables of the loop. `class_depth` and `context_keyword_index` are none where they are -1.
pub record Pass : Type 0 where
  pub depth : ℕ
  pub class_depth : Option ℕ
  pub previous_id : Kind
  pub context_id : Kind
  pub context_keyword_index : Option ℕ
  pub paren_depth : ℕ
  pub pending_class_body : Bool

unfoldable pub first_pass : Pass
first_pass = record {
  depth = 0;
  class_depth = none;
  previous_id = char 0;
  context_id = char 0;
  context_keyword_index = none;
  paren_depth = 0;
  pending_class_body = false;
}

-- `depth == class_depth`, which no depth is where `class_depth` is -1
unfoldable pub at_class_depth : Pass → Bool
at_class_depth p = elim (p.class_depth) [ none ↦ false | some d ↦ p.depth == d ]

unfoldable pub in_class : Pass → Bool
in_class p = elim (p.class_depth) [ none ↦ false | some d ↦ true ]

-- The parentheses and braces.
unfoldable pub track_parens : Kind → Pass → Pass
track_parens id p =
    if is_char b'(' id
    then record p { paren_depth = suc (p.paren_depth) }
    else if is_char b')' id
    then record p { paren_depth = p.paren_depth - 1 }
    else p

unfoldable pub open_brace : Pass → Pass
open_brace p =
    if p.pending_class_body
    then record p {
      depth = suc (p.depth);
      class_depth = some (suc (p.depth));
      pending_class_body = false;
    }
    else record p { depth = suc (p.depth) }

unfoldable pub close_brace : Pass → Pass
unfolding at_class_depth
close_brace p = record p {
  class_depth = if at_class_depth p then none else p.class_depth;
  depth = p.depth - 1;
}

unfoldable pub track_braces : Kind → Pass → Pass
unfolding open_brace close_brace
track_braces id p =
    if is_char b'{' id then open_brace p else if is_char b'}' id then close_brace p else p

-- The type and the modifiers of a token, and the loop's variables behind it.
pub record Verdict : Type 0 where
  pub pass : Pass
  pub type : ℤ
  pub modifiers : ℕ

unfoldable pub verdict : Pass → ℤ → ℕ → Verdict
verdict p type modifiers = record { pass = p; type = type; modifiers = modifiers }

unfoldable pub is_object_operator : Kind → Bool
is_object_operator t_object_operator = true
is_object_operator t_nullsafe_object_operator = true
is_object_operator _ = false

unfoldable pub is_double_colon : Kind → Bool
is_double_colon t_paamayim_nekudotayim = true
is_double_colon _ = false

unfoldable pub class_like_type : Kind → ℤ
class_like_type t_interface = sem_interface
class_like_type t_enum = sem_enum
class_like_type _ = sem_class

unfoldable pub text_equals : Option Bytes → Bytes → Bool
text_equals none literal = false
text_equals (some text) literal = bytes_eq text literal

-- The modifiers of a property declaration.
unfoldable pub property_modifiers : DeclInfo → ℕ
property_modifiers info =
    if info.has_modifier
    then mod_declaration
      + flag mod_static (info.is_static)
      + flag mod_readonly (info.is_readonly)
      + flag mod_deprecated (info.is_deprecated)
    else 0

-- The context that a keyword opens.
unfoldable pub keyword_context : Kind → ℕ → Pass → Pass
keyword_context t_class i p = record p { context_id = t_class; context_keyword_index = some i }
keyword_context t_interface i p = record p {
  context_id = t_interface;
  context_keyword_index = some i;
}
keyword_context t_trait i p = record p { context_id = t_trait; context_keyword_index = some i }
keyword_context t_enum i p = record p { context_id = t_enum; context_keyword_index = some i }
keyword_context t_function i p = record p {
  context_id = t_function;
  context_keyword_index = some i;
}
keyword_context t_const i p = record p { context_id = t_const }
keyword_context t_namespace i p = record p { context_id = t_namespace }
keyword_context t_use i p = record p { context_id = t_use }
keyword_context t_new i p = record p { context_id = t_new }
keyword_context t_extends i p = record p { context_id = t_extends }
keyword_context t_implements i p = record p { context_id = t_implements }
keyword_context t_instanceof i p = record p { context_id = t_instanceof }
keyword_context _ i p = p

-- A name behind `extends`, `implements` or a comma is not the declared one.
unfoldable pub names_parent : Kind → Bool
names_parent t_extends = true
names_parent t_implements = true
names_parent id = is_char b',' id

unfoldable pub is_plain_string : Kind → Bool
is_plain_string t_string = true
is_plain_string _ = false

unfoldable pub is_variable : Kind → Bool
is_variable t_variable = true
is_variable _ = false

module _ (kind_of : ℤ → Kind) (tokens : Items) (count : ℕ) where
  -- The branch of `T_VARIABLE`.
  unfoldable pub classify_variable : ℕ → Option Bytes → Pass → Verdict
  unfolding verdict text_equals at_class_depth property_modifiers scan_declaration_modifiers
      is_double_colon
  classify_variable i text p =
      verdict p (if is_double_colon (p.previous_id) then sem_property else sem_variable) (
        if not (text_equals text (codes "$this")) && at_class_depth p
        then property_modifiers
            (scan_declaration_modifiers kind_of tokens i (ltb 0 (p.paren_depth)))
        else 0)

  -- The declaration that the keyword at `context_keyword_index` opens.
  unfoldable pub keyword_info : Pass → (DeclInfo → ℕ) → ℕ
  unfolding scan_declaration_modifiers
  keyword_info p read = elim (p.context_keyword_index) [
    | none ↦ 0
    | some k ↦ read (scan_declaration_modifiers kind_of tokens k false)
  ]

  -- A name behind `class`, `interface`, `trait` or `enum`.
  unfoldable pub classify_class_like : Pass → Verdict
  unfolding verdict class_like_type names_parent keyword_info
  classify_class_like p =
      if names_parent (p.previous_id)
      then verdict p (class_like_type (p.context_id)) 0
      else verdict (record p { pending_class_body = true }) (class_like_type (p.context_id))
          (mod_declaration + keyword_info p (λ info. flag mod_deprecated (info.is_deprecated)))

  -- A name behind `function`.
  unfoldable pub classify_function : Pass → Verdict
  unfolding verdict in_class keyword_info
  classify_function p = verdict p (if in_class p then sem_method else sem_function) (
      mod_declaration
      + keyword_info p
          (λ info. flag mod_static (info.is_static) + flag mod_deprecated (info.is_deprecated)))

  -- A name in no such context: what stands before and behind it tells.
  unfoldable pub classify_use : Kind → ℕ → Option Bytes → Pass → ℤ
  unfolding is_object_operator is_double_colon next_is_open_paren next_significant_id
      is_plain_string is_variable
  classify_use id i text p =
      let next_is_paren = next_is_open_paren kind_of tokens (suc i) count in
      let next = next_significant_id kind_of tokens (suc i) count in
      if is_object_operator (p.previous_id)
      then if next_is_paren then sem_method else sem_property
      else if is_double_colon (p.previous_id)
      then if elim text [ none ↦ false | some t ↦ equals_ci t (codes "class") ]
        then sem_keyword
        else if next_is_paren
        then sem_method
        else sem_enum_member
      else if is_double_colon next
      then sem_class
      else if next_is_paren
      then sem_function
      else if not (is_plain_string id)
      then sem_class
      else if is_variable next
      then sem_class
      else none_type

  -- A name, by its context.
  unfoldable pub classify_in_context : Kind → Kind → ℕ → Option Bytes → Pass → Verdict
  unfolding verdict classify_class_like classify_function classify_use
  classify_in_context t_namespace id i text p = verdict p sem_namespace 0
  classify_in_context t_use id i text p = verdict p sem_class 0
  classify_in_context t_class id i text p = classify_class_like p
  classify_in_context t_interface id i text p = classify_class_like p
  classify_in_context t_trait id i text p = classify_class_like p
  classify_in_context t_enum id i text p = classify_class_like p
  classify_in_context t_new id i text p = verdict p sem_class 0
  classify_in_context t_extends id i text p = verdict p sem_class 0
  classify_in_context t_implements id i text p = verdict p sem_class 0
  classify_in_context t_instanceof id i text p = verdict p sem_class 0
  classify_in_context t_function id i text p = classify_function p
  classify_in_context t_const id i text p = verdict p sem_enum_member 0
  classify_in_context _ id i text p = verdict p (classify_use id i text p) 0

  -- `true`, `false`, `null`, `self` and `parent`
  unfoldable pub is_literal_name : ℕ → Option Bytes → Pass → Bool
  unfolding text_is_keyword_literal is_object_operator is_double_colon next_significant_id
  is_literal_name i none p = false
  is_literal_name i (some text) p =
      text_is_keyword_literal text
      && not (is_object_operator (p.previous_id))
      && not (is_double_colon (next_significant_id kind_of tokens (suc i) count))

  unfoldable pub classify_name : Kind → ℕ → Option Bytes → Pass → Verdict
  unfolding verdict is_literal_name classify_in_context
  classify_name id i text p =
      if is_literal_name i text p
      then verdict p sem_keyword 0
      else classify_in_context (p.context_id) id i text p

  -- The chain of the token's id. The names are no keywords.
  unfoldable pub classify : Kind → ℕ → Option Bytes → Pass → Verdict
  unfolding verdict classify_variable classify_name id_is_keyword keyword_context
  classify t_lnumber i text p = verdict p sem_number 0
  classify t_dnumber i text p = verdict p sem_number 0
  classify t_variable i text p = classify_variable i text p
  classify t_string i text p = classify_name t_string i text p
  classify t_name_qualified i text p = classify_name t_name_qualified i text p
  classify t_name_fully_qualified i text p = classify_name t_name_fully_qualified i text p
  classify t_name_relative i text p = classify_name t_name_relative i text p
  classify id i text p =
      if id_is_keyword id
      then verdict (keyword_context id i p) sem_keyword 0
      else verdict p none_type 0
