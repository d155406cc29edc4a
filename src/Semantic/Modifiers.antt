-- ===== src/Semantic/Modifiers.antt =====
-- The modifiers of a declaration, ext/lsp_server_semantic_tokens.c:
-- `lsp_semantic_scan_declaration_modifiers`, and the column of a token.
use ext_lsparrot.Base.{
  ℕ, zero, suc, Bool, true, false, ◌&&◌, ◌||◌, Option, none, some, Bytes, [], ◌∷◌, codes, length,
  get_or, ltb, ◌==◌, if◌then◌else◌,
}
use ext_lsparrot.Base.Int.{ℤ}
use ext_lsparrot.Position.{byte_offset_to_utf16_units}
use ext_lsparrot.Tokens.{
  Kind, is_char, token_at, token_id, t_static, t_readonly, t_public, t_protected, t_private, t_var,
  t_doc_comment,
}
use ext_lsparrot.Zval.{Items, array_string}

pub record DeclInfo : Type 0 where
  pub is_static : Bool
  pub is_readonly : Bool
  pub is_deprecated : Bool
  pub has_modifier : Bool

unfoldable pub no_info : DeclInfo
no_info = record {
  is_static = false;
  is_readonly = false;
  is_deprecated = false;
  has_modifier = false;
}

unfoldable pub starts_with : Bytes → Bytes → Bool
starts_with text [] = true
starts_with [] (c ∷ prefix) = false
starts_with (d ∷ text) (c ∷ prefix) = c == d && starts_with text prefix

-- `zend_memnstr` and `strstr`
unfoldable pub occurs_in : Bytes → Bytes → Bool
unfolding starts_with
occurs_in needle [] = starts_with [] needle
occurs_in needle (c ∷ text) = starts_with (c ∷ text) needle || occurs_in needle text

unfoldable pub doc_comment_is_deprecated : Option Bytes → Bool
unfolding occurs_in
doc_comment_is_deprecated none = false
doc_comment_is_deprecated (some text) = occurs_in (codes "@deprecated") text

-- What one token adds to the modifiers; `text` is the token's text.
unfoldable pub note_modifier : Kind → Option Bytes → DeclInfo → DeclInfo
unfolding doc_comment_is_deprecated
note_modifier t_static text info = record info { is_static = true; has_modifier = true }
note_modifier t_readonly text info = record info { is_readonly = true; has_modifier = true }
note_modifier t_public text info = record info { has_modifier = true }
note_modifier t_protected text info = record info { has_modifier = true }
note_modifier t_private text info = record info { has_modifier = true }
note_modifier t_var text info = record info { has_modifier = true }
note_modifier t_doc_comment text info =
    if doc_comment_is_deprecated text then record info { is_deprecated = true } else info
note_modifier _ text info = info

-- The tokens at which the scan breaks off.
unfoldable pub ends_declaration : Bool → Kind → Bool
ends_declaration param_context id =
    param_context && (is_char b'(' id || is_char b',' id)
    || is_char b';' id
    || is_char b'{' id
    || is_char b'}' id

module _ (kind_of : ℤ → Kind) where
  -- The loop, from the token before the first argument down to 0.
  unfoldable pub scan_modifiers_from : ℕ → Items → Bool → DeclInfo → DeclInfo
  unfolding token_at token_id note_modifier ends_declaration
  scan_modifiers_from zero tokens param_context info = info
  scan_modifiers_from (suc i) tokens param_context info = elim (token_at tokens i) [
    | none ↦ scan_modifiers_from i tokens param_context info
    | some token ↦
        let id = token_id kind_of token in
        let further =
          scan_modifiers_from i tokens param_context
            (note_modifier id (array_string (some token) (codes "text")) info) in
        if ends_declaration param_context id then info else further
  ]

  unfoldable pub scan_declaration_modifiers : Items → ℕ → Bool → DeclInfo
  unfolding scan_modifiers_from no_info
  scan_declaration_modifiers tokens start_index param_context =
      scan_modifiers_from start_index tokens param_context no_info

-- The loop of `lsp_semantic_token_column`: back to behind the newline.
unfoldable pub line_start_of : Bytes → ℕ → ℕ
line_start_of text zero = 0
line_start_of text (suc k) =
    let further = line_start_of text k in if get_or text k 0 == b'\n' then suc k else further

unfoldable pub token_column : Bytes → ℕ → ℕ
unfolding line_start_of
token_column text offset =
    if ltb (length text) offset
    then 0
    else byte_offset_to_utf16_units text (line_start_of text offset) offset
