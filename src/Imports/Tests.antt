-- ===== src/Imports/Tests.antt =====
-- Runs of the organisation of imports of ext/lsp_server_refactor.c.
use ext_lsparrot.Base.{Bytes, codes}
use ext_lsparrot.Formatting.Requests.{TextEdit}
use ext_lsparrot.Position.{range_from_offsets}

-- Three imports, one of them twice, and a comment between them.
abbrev source : Bytes
source = codes "<?php\nuse B;\n// c\nuse A;\nUSE a;\nclass C {}\nuse T;\n"

-- The comment is not in the text that replaces the lines.
abbrev edit : TextEdit
edit = record { range = range_from_offsets source 6 32; new_text = codes "use A;\nuse B;\n" }
