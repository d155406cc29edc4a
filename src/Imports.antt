-- ===== src/Imports.antt =====
-- The organisation of imports, ext/lsp_server_refactor.c: the `use` lines before the first declaration are
-- sorted, each kept once, and written in place of the text from the first to the last of them.
pub mod Sorted
pub mod Scan
mod Tests
use ext_lsparrot.Base.{
  ℕ, zero, suc, ◌+◌, ◌-◌, Bool, true, false, not, ◌&&◌, ◌||◌, Option, none, some, Bytes, List, [],
  ◌∷◌, ◌++◌, map, reverse, codes, length, take, drop, is_space, to_lower, ltb, leb, ◌==◌, bytes_eq,
  if◌then◌else◌,
}
use ext_lsparrot.Formatting.Split.{cons_first}
use ext_lsparrot.Position.{range_from_offsets}
use ext_lsparrot.Formatting.Requests.{TextEdit}
use ext_lsparrot.Scan.Prefix.{lower}
use Prim.Native.Nat.{Ordering, lt, eq, gt}

-- `lsp_refactor_zstr_casecmp`: -1, 0 and 1.
unfoldable pub casecmp : Bytes → Bytes → Ordering
casecmp [] [] = eq
casecmp [] (d ∷ right) = lt
casecmp (c ∷ left) [] = gt
casecmp (c ∷ left) (d ∷ right) =
    let further = casecmp left right in
    if ltb (to_lower c) (to_lower d)
    then lt
    else if ltb (to_lower d) (to_lower c)
    then gt
    else further

abbrev pub is_lt : Ordering → Bool
is_lt lt = true
is_lt _ = false

abbrev pub is_eq : Ordering → Bool
is_eq eq = true
is_eq _ = false

unfoldable pub skip_spaces : Bytes → Bytes
skip_spaces [] = []
skip_spaces (c ∷ line) = if is_space c then skip_spaces line else c ∷ line

-- `lsp_refactor_trim_line`
unfoldable pub trim_line : Bytes → Bytes
unfolding skip_spaces
trim_line line = reverse (skip_spaces (reverse (skip_spaces line)))

-- Nothing or a space stands behind the keyword.
unfoldable pub ends_word : Bytes → Bool
ends_word [] = true
ends_word (c ∷ rest) = is_space c

-- `lsp_refactor_trimmed_line_starts_with`
unfoldable pub trimmed_line_starts_with : Bytes → Bytes → Bool
unfolding skip_spaces ends_word
trimmed_line_starts_with line keyword =
    let trimmed = skip_spaces line in
    leb (length keyword) (length trimmed)
    && bytes_eq (lower (take (length keyword) trimmed)) keyword
    && ends_word (drop (length keyword) trimmed)

-- `lsp_refactor_line_contains_semicolon`
unfoldable pub line_contains_semicolon : Bytes → Bool
line_contains_semicolon [] = false
line_contains_semicolon (c ∷ line) = c == b';' || line_contains_semicolon line

-- `lsp_refactor_line_starts_declaration`
unfoldable pub line_starts_declaration : Bytes → Bool
unfolding trimmed_line_starts_with
line_starts_declaration line =
    trimmed_line_starts_with line (codes "class")
    || trimmed_line_starts_with line (codes "interface")
    || trimmed_line_starts_with line (codes "trait")
    || trimmed_line_starts_with line (codes "enum")
    || trimmed_line_starts_with line (codes "function")
    || trimmed_line_starts_with line (codes "final")
    || trimmed_line_starts_with line (codes "abstract")

-- The first loop of `lsp_refactor_sorted_line_insert`: is the line there, in any case?
unfoldable pub contains_ci : List Bytes → Bytes → Bool
unfolding casecmp
contains_ci [] line = false
contains_ci (l ∷ lines) line = is_eq (casecmp l line) || contains_ci lines line

-- The others: the line goes in front of the first one that is not less.
unfoldable pub insert_line : List Bytes → Bytes → List Bytes
unfolding casecmp
insert_line [] line = line ∷ []
insert_line (l ∷ lines) line =
    let later = l ∷ insert_line lines line in
    if is_lt (casecmp l line) then later else line ∷ l ∷ lines

-- `lsp_refactor_sorted_line_insert`
unfoldable pub sorted_line_insert : List Bytes → Bytes → List Bytes
unfolding contains_ci insert_line
sorted_line_insert lines line = if contains_ci lines line then lines else insert_line lines line

-- The lines that the loop of `lsp_refactor_organize_imports_edit` visits, each with its newline.
unfoldable pub text_lines : Bytes → List Bytes
unfolding cons_first
text_lines [] = []
text_lines (c ∷ text) =
    let lines = text_lines text in if c == b'\n' then (c ∷ []) ∷ lines else cons_first c lines

-- The line up to `line_end`.
unfoldable pub before_newline : Bytes → Bytes
before_newline [] = []
before_newline (c ∷ line) = if c == b'\n' then [] else c ∷ before_newline line

-- `first_use_offset` is none where it is `(size_t) -1`.
pub record Imports : Type 0 where
  pub lines : List Bytes
  pub first_use : Option ℕ
  pub last_use_end : ℕ

unfoldable pub no_imports : Imports
no_imports = record { lines = []; first_use = none; last_use_end = 0 }

unfoldable pub or_else : Option ℕ → ℕ → Option ℕ
or_else none offset = some offset
or_else (some first) offset = some first

-- An import: `use` and a semicolon on the line.
unfoldable pub is_import : Bytes → Bool
unfolding trimmed_line_starts_with line_contains_semicolon
is_import line = trimmed_line_starts_with line (codes "use") && line_contains_semicolon line

unfoldable pub note_import : Bytes → ℕ → ℕ → Imports → Imports
unfolding or_else trim_line sorted_line_insert
note_import line offset next s = record {
  lines = sorted_line_insert (s.lines) (trim_line line);
  first_use = or_else (s.first_use) offset;
  last_use_end = next;
}

-- The loop.
unfoldable pub scan_imports : List Bytes → ℕ → Imports → Imports
unfolding before_newline is_import note_import line_starts_declaration
scan_imports [] offset s = s
scan_imports (l ∷ rest) offset s =
    let line = before_newline l in
    let next = offset + length l in
    let noted = scan_imports rest next (note_import line offset next s) in
    let passed = scan_imports rest next s in
    if is_import line then noted else if line_starts_declaration line then s else passed

-- The new text: a line for each import.
unfoldable pub import_text : List Bytes → Bytes
import_text [] = []
import_text (line ∷ lines) = line ++ b'\n' ∷ import_text lines

unfoldable pub edit_between : Bytes → List Bytes → ℕ → ℕ → Option TextEdit
unfolding import_text
edit_between text lines first last =
    if length lines == 0 || leb last first
    then none
    else if length (import_text lines) == last - first
        && bytes_eq (import_text lines) (take (last - first) (drop first text))
    then none
    else some (record { range = range_from_offsets text first last; new_text = import_text lines })

unfoldable pub edit_from : Bytes → List Bytes → Option ℕ → ℕ → Option TextEdit
unfolding edit_between
edit_from text lines none last = none
edit_from text lines (some first) last = edit_between text lines first last

-- `lsp_refactor_organize_imports_edit`
unfoldable pub organize_imports_edit : Bytes → Option TextEdit
unfolding scan_imports text_lines no_imports edit_from
organize_imports_edit text =
    let s = scan_imports (text_lines text) 0 no_imports in
    edit_from text (s.lines) (s.first_use) (s.last_use_end)
