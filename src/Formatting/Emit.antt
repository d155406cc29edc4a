-- ===== src/Formatting/Emit.antt =====
-- The text that the plan of the lines gives, ext/lsp_server_formatting.c: `lsp_format_append_indent` and
-- `lsp_format_emit`.
use ext_lsparrot.Base.{
  ℕ, zero, suc, ◌+◌, ◌-◌, Bool, true, false, not, ◌&&◌, ◌||◌, Bytes, List, [], ◌∷◌, ◌++◌, reverse,
  length, take, drop, get_or, ltb, leb, ◌==◌, if◌then◌else◌,
}
use ext_lsparrot.Base.Int.{ℤ, pos, negsuc, is_neg}
use ext_lsparrot.Formatting.{FormatOptions}
use ext_lsparrot.Formatting.Lines.{LineKind, Line, unset, code, locked, blank, comment}

unfoldable pub repeated : ℕ → ℕ → Bytes
repeated zero c = []
repeated (suc n) c = c ∷ repeated n c

-- The indentation of so many units.
unfoldable pub indent_bytes : FormatOptions → ℕ → Bytes
unfolding repeated
indent_bytes options zero = []
indent_bytes options (suc units) =
    (if options.insert_spaces
      then repeated (if leb (options.indent_size) 16 then options.indent_size else 16) b' '
      else b'\t' ∷ [])
    ++ indent_bytes options units

-- `lsp_format_append_indent`: what it appends.
unfoldable pub append_indent : FormatOptions → ℤ → Bytes
unfolding indent_bytes
append_indent options (pos units) = indent_bytes options units
append_indent options (negsuc n) = []

abbrev pub is_blank : ℕ → Bool
is_blank c = c == b' ' || c == b'\t'

-- `content_start`: the line from its first byte that is no blank.
unfoldable pub skip_blanks : Bytes → Bytes
skip_blanks [] = []
skip_blanks (c ∷ rest) = if is_blank c then skip_blanks rest else c ∷ rest

-- A line read backwards, less the carriage return at its end.
unfoldable pub skip_return : Bytes → Bytes
skip_return [] = []
skip_return (c ∷ rest) = if c == b'\r' then rest else c ∷ rest

-- Is the tail trimmed of blanks too?
unfoldable pub trims : FormatOptions → LineKind → Bool
trims options unset = true
trims options blank = true
trims options kind = options.trim_trailing

-- `trim_end`: the line, without its newline, up to there.
unfoldable pub trimmed : FormatOptions → LineKind → Bytes → Bytes
unfolding skip_return skip_blanks trims
trimmed options kind line =
    let back = skip_return (reverse line) in
    reverse (if trims options kind then skip_blanks back else back)

abbrev pub starts_with_star : Bytes → Bool
starts_with_star [] = false
starts_with_star (c ∷ rest) = c == b'*'

-- The line with its indentation, by its kind.
unfoldable pub indented_as : FormatOptions → LineKind → ℤ → Bytes → Bytes → Bytes
unfolding append_indent
indented_as options code indent trimmed_line content = append_indent options indent ++ content
indented_as options comment indent trimmed_line content =
    if starts_with_star content
    then append_indent options indent ++ (b' ' ∷ content)
    else trimmed_line
indented_as options kind indent trimmed_line content = trimmed_line

-- The line as it is written again.
unfoldable pub reindented : FormatOptions → Bool → Line → Bytes → Bytes → Bytes
unfolding indented_as
reindented options reindent l trimmed_line content =
    if reindent && not (is_neg (l.indent))
    then indented_as options (l.kind) (l.indent) trimmed_line content
    else trimmed_line

-- What is written for a line that is not locked, from its trimmed part and that without the blanks
-- at its front.
unfoldable pub written_line : FormatOptions → Bool → Line → Bytes → Bytes → Bytes
unfolding reindented
written_line options reindent l trimmed_line [] = if options.trim_trailing then [] else trimmed_line
written_line options reindent l trimmed_line (c ∷ content) =
    reindented options reindent l trimmed_line (c ∷ content)

-- A locked line is copied.
unfoldable pub unless_locked : LineKind → Bytes → Bytes → Bytes
unless_locked locked line out = line
unless_locked kind line out = out

-- One line, without its newline.
unfoldable pub emit_content : FormatOptions → Bool → Line → Bytes → Bytes
unfolding trimmed skip_blanks written_line unless_locked
emit_content options reindent l line = unless_locked (l.kind) line (
    written_line options reindent l (trimmed options (l.kind) line)
      (skip_blanks (trimmed options (l.kind) line)))

-- The line's content and newline, from the bytes up to the next line: `has_newline`.
unfoldable pub cut_newline : Bytes → Bytes × Bytes
cut_newline [] = ([], [])
cut_newline (c ∷ []) = if c == b'\n' then ([], c ∷ []) else (c ∷ [], [])
cut_newline (c ∷ d ∷ rest) =
    let (content, newline) = cut_newline (d ∷ rest) in (c ∷ content, newline)

unfoldable pub emit_line : FormatOptions → Bool → Line → Bytes → Bytes
unfolding cut_newline emit_content
emit_line options reindent l line =
    let (content, newline) = cut_newline line in emit_content options reindent l content ++ newline

abbrev pub plain_line : Line
plain_line = record { kind = unset; indent = negsuc 0 }

-- The bytes of a line with its newline.
unfoldable pub line_slice : Bytes → List ℕ → ℕ → Bytes
line_slice text starts i =
    let start = get_or starts i 0 in
    let next = if ltb (i + 1) (length starts) then get_or starts (i + 1) 0 else length text in
    take (next - start) (drop start text)

-- The loop of `lsp_format_emit`; the first argument counts the lines to come.
unfoldable pub emit_from : ℕ → FormatOptions → Bool → List Line → Bytes → List ℕ → ℕ → Bytes
unfolding line_slice emit_line
emit_from zero options reindent lines text starts i = []
emit_from (suc left) options reindent lines text starts i =
    let further = emit_from left options reindent lines text starts (suc i) in
    if ltb i (length starts)
    then emit_line options reindent (get_or lines i plain_line) (line_slice text starts i)
      ++ further
    else []

unfoldable pub ends_with_newline : Bytes → Bool
ends_with_newline [] = false
ends_with_newline (c ∷ []) = c == b'\n'
ends_with_newline (c ∷ d ∷ rest) = ends_with_newline (d ∷ rest)

unfoldable pub closing_newline : FormatOptions → Bool → Bytes → Bytes
unfolding ends_with_newline
closing_newline options whole_document out =
    if whole_document && options.final_newline && not (ends_with_newline out)
    then b'\n' ∷ []
    else []

-- `lsp_format_emit`
unfoldable pub format_emit :
    Bytes → List ℕ → List Line → FormatOptions → Bool → ℕ → ℕ → Bool → Bytes
unfolding emit_from closing_newline
format_emit text starts lines options reindent from_line to_line whole_document =
    let out = emit_from (to_line + 1 - from_line) options reindent lines text starts from_line in
    out ++ closing_newline options whole_document out
