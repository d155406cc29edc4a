-- ===== src/Imports/Scan.antt =====
-- The imports that ext/lsp_server_refactor.c writes (`lsp_refactor_organize_imports_edit`) are sorted, each
-- stands once, and none is lost.
use ext_lsparrot.Base.{◌⊎◌, Bytes, List, [], ◌∷◌, if◌then◌else◌}
use ext_lsparrot.Imports.{trim_line, before_newline, is_import, line_starts_declaration, Imports}
use ext_lsparrot.Imports.Sorted.{Increasing, Covers, OneOf}

-- The trimmed imports before the first declaration, in order.
unfoldable pub import_lines : List Bytes → List Bytes
import_lines [] = []
import_lines (l ∷ rest) =
    let line = before_newline l in
    let more = import_lines rest in
    if is_import line
    then trim_line line ∷ more
    else if line_starts_declaration line
    then []
    else more

-- What the loop keeps, from the lines that it had to those that it has.
record Collected (before imports after : List Bytes) : Type 0 where
  increasing : Increasing before → Increasing after
  kept : (m : Bytes) → Covers before m → Covers after m
  covered : (m : Bytes) → OneOf imports m → Covers after m
  no_other : (m : Bytes) → OneOf after m → OneOf before m ⊎ OneOf imports m
