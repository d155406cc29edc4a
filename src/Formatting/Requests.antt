-- ===== src/Formatting/Requests.antt =====
-- The requests for formatting, ext/lsp_server_formatting.c: `lsp_format_document_lines`,
-- `lsp_format_reply_edit`, `lsp_lsparrot_formatting` and `lsp_lsparrot_range_formatting`.
-- The tokens of a text (`lsp_lsparrot_tokens_to_zval`) come from the PHP lexer, the parameter
-- `tokenize`.
use ext_lsparrot.Base.{
  ℕ, zero, suc, ◌+◌, ◌-◌, ◌^◌, Bool, true, false, ◌&&◌, Option, none, some, Bytes, List, [], ◌∷◌,
  codes, length, take, drop, get_or, ltb, leb, ◌==◌, bytes_eq, if◌then◌else◌,
}
use ext_lsparrot.Base.Int.{ℤ, pos, negsuc, clamp_zero}
use ext_lsparrot.Formatting.{Settings, FormatOptions, options_resolve}
use ext_lsparrot.Formatting.Emit.{format_emit}
use ext_lsparrot.Formatting.Lines.{Line, line_starts}
use ext_lsparrot.Formatting.Plan.{no_line, plan_lines}
use ext_lsparrot.Position.{Range, range_from_offsets}
use ext_lsparrot.Server.{Document}
use ext_lsparrot.Tokens.{Kind}
use ext_lsparrot.Zval.{Zval, array_find, array_long}

pub record TextEdit : Type 0 where
  pub range : Range
  pub new_text : Bytes

-- The reply: null, or edits.
pub data FormatReply : Type 0 where
  no_reply : FormatReply
  text_edits : List TextEdit → FormatReply

-- The lines before the plan.
unfoldable pub unset_lines : ℕ → List Line
unset_lines zero = []
unset_lines (suc n) = no_line ∷ unset_lines n

-- `lsp_format_reply_edit`
unfoldable pub reply_edit : Bytes → Bytes → ℕ → ℕ → FormatReply
reply_edit text formatted start_offset end_offset =
    if length formatted == end_offset - start_offset
      && bytes_eq formatted (take (length formatted) (drop start_offset text))
    then text_edits []
    else text_edits (
        record { range = range_from_offsets text start_offset end_offset; new_text = formatted }
        ∷ [])

-- The last line of the range, and the first.
unfoldable pub last_line : ℕ → ℕ → ℕ
last_line line_count to_line = if leb line_count to_line then line_count - 1 else to_line

unfoldable pub first_line : ℕ → ℕ → ℕ
first_line from_line to_line = if ltb to_line from_line then to_line else from_line

-- The end of the line in the text.
unfoldable pub end_of_line : Bytes → List ℕ → ℕ → ℕ
end_of_line text starts line =
    if ltb (line + 1) (length starts) then get_or starts (line + 1) 0 else length text

module _ (kind_of : ℤ → Kind) (tokenize : Bytes → Zval) (settings : Settings) where
  -- The plan of a text, with the decision on the indentation.
  unfoldable pub plan_of : Bytes → FormatOptions → List Line × Bool
  unfolding plan_lines unset_lines line_starts
  plan_of text options =
      let starts = line_starts text in
      let (lines, supported) =
        plan_lines kind_of (tokenize text) starts (unset_lines (length starts)) in
      (lines, supported && options.reindent)

  -- `lsp_format_document_lines`: the text, and the offsets of the lines that it replaces.
  unfoldable pub document_lines : Bytes → Option Zval → ℕ → ℕ → Bool → Bytes × ℕ × ℕ
  unfolding options_resolve plan_of last_line first_line end_of_line format_emit line_starts
  document_lines text params from_line to_line whole_document =
      let options = options_resolve settings params in
      let starts = line_starts text in
      let (lines, reindent) = plan_of text options in
      let last = last_line (length starts) to_line in
      let first = first_line from_line last in
      (
        format_emit text starts lines options reindent first last whole_document,
        get_or starts first 0,
        end_of_line text starts last,
      )

  -- `lsp_lsparrot_formatting`
  unfoldable pub formatting : Document → Option Zval → FormatReply
  unfolding document_lines reply_edit
  formatting d params =
      if settings.enabled
      then reply_edit (d.text) (document_lines (d.text) params 0 (2 ^ 64 - 2) true).0 0
          (length (d.text))
      else no_reply

  -- The lines that a range asks for: one that ends at column 0 leaves its last line out.
  unfoldable pub requested_end : ℕ → ℤ → ℤ → ℕ
  requested_end start_line (negsuc n) character = start_line
  requested_end start_line (pos line) (pos zero) =
      if ltb start_line line then line - 1 else start_line
  requested_end start_line (pos line) character = if ltb line start_line then start_line else line

  unfoldable pub format_range : Bytes → Option Zval → Option Zval → Option Zval → FormatReply
  unfolding document_lines reply_edit requested_end
  format_range text params start finish =
      let start_line = clamp_zero (array_long start (codes "line") (pos 0)) in
      let end_line =
        requested_end start_line (array_long finish (codes "line") (pos 0))
          (array_long finish (codes "character") (pos 0)) in
      let (formatted, start_offset, end_offset) =
        document_lines text params start_line end_line false in
      reply_edit text formatted start_offset end_offset

  -- `lsp_lsparrot_range_formatting`
  unfoldable pub range_formatting : Document → Option Zval → FormatReply
  unfolding format_range
  range_formatting d params =
      let range = array_find params (codes "range") in
      if settings.enabled
      then elim (array_find range (codes "start")) [
        | none ↦ text_edits []
        | some start ↦ elim (array_find range (codes "end")) [
          | none ↦ text_edits []
          | some finish ↦ format_range (d.text) params (some start) (some finish)
        ]
      ]
      else no_reply
