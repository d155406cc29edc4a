-- ===== src/Formatting.antt =====
-- Formatting, ext/lsp_server_formatting.c. The lines of a document (Lines), the plan that one pass over
-- the tokens makes for them (Plan), the text that is written by the plan (Emit) and the two
-- requests (Requests).
pub mod Lines
pub mod Plan
pub mod Emit
pub mod Requests
pub mod Search
pub mod Split
pub mod Reflow
pub mod Contents
mod Tests
use ext_lsparrot.Base.{Bool, true, false, ◌&&◌, Option, none, some, codes, ltb, if◌then◌else◌}
use ext_lsparrot.Base.Int.{ℤ, pos, clamp_zero, int_leb}
use ext_lsparrot.Zval.{Zval, is_array, array_find, array_bool, array_long}
use ext_lsparrot.Base.{ℕ, Bytes}

-- `LSP_INDENT_STYLE_...`
pub data IndentStyle : Type 0 where
  client space tab : IndentStyle

-- The fields `formatting_...` of the server's options.
pub record Settings : Type 0 where
  pub enabled : Bool
  pub reindent : Bool
  pub trim_trailing_whitespace : Bool
  pub insert_final_newline : Bool
  pub indent_style : IndentStyle
  pub indent_size : ℤ

-- `lsp_format_options`
pub record FormatOptions : Type 0 where
  pub reindent : Bool
  pub trim_trailing : Bool
  pub final_newline : Bool
  pub insert_spaces : Bool
  pub indent_size : ℕ

-- `lsp_format_array_bool`
unfoldable pub format_array_bool : Option Zval → Bytes → Bool → Bool
unfolding array_bool
format_array_bool array key fallback = array_bool array key fallback

-- What the client asks for: spaces or tabs, and their number.
unfoldable pub client_spaces : Option Zval → Bool
unfolding format_array_bool
client_spaces asked =
    if is_array asked then format_array_bool asked (codes "insertSpaces") true else true

unfoldable pub tab_size_or_four : ℤ → ℕ
tab_size_or_four size = if int_leb (pos 1) size && int_leb size (pos 16) then clamp_zero size else 4

unfoldable pub client_size : Option Zval → ℕ
unfolding tab_size_or_four
client_size asked =
    if is_array asked then tab_size_or_four (array_long asked (codes "tabSize") (pos 4)) else 4

unfoldable pub styled : IndentStyle → Bool → Bool
styled space asked = true
styled tab asked = false
styled client asked = asked

-- `lsp_format_options_resolve`
unfoldable pub options_resolve : Settings → Option Zval → FormatOptions
unfolding client_spaces client_size styled
options_resolve settings params =
    let asked = array_find params (codes "options") in
    record {
      reindent = settings.reindent;
      trim_trailing = settings.trim_trailing_whitespace;
      final_newline = settings.insert_final_newline;
      insert_spaces = styled (settings.indent_style) (client_spaces asked);
      indent_size =
          if int_leb (settings.indent_size) (pos 0)
          then client_size asked
          else clamp_zero (settings.indent_size);
    }
