-- ===== src/Formatting/Tests.antt =====
-- Runs of the formatter of ext/lsp_server_formatting.c on a small document.
use ext_lsparrot.Base.{
  ◌+◌, ◌-◌, ◌≡◌, refl, true, false, none, Bytes, List, [], ◌∷◌, ◌++◌, codes, ◌⊎◌, length, take,
  drop, bytes_eq,
}
use ext_lsparrot.Base.Int.{pos, size_cast, ◌+ℤ◌, ◌-ℤ◌, int_leb}
use ext_lsparrot.Formatting.{Settings, space, options_resolve}
use ext_lsparrot.Formatting.Contents.{Reformatted, edited, document_lines-Reformatted}
use ext_lsparrot.Formatting.Lines.{line_starts, line_of_offset}
use ext_lsparrot.Formatting.Requests.{document_lines, plan_of, last_line, first_line}
use ext_lsparrot.Formatting.Search.{line_of_offset-position}
use ext_lsparrot.Formatting.Split.{split_lines, join}
use ext_lsparrot.Position.{offset_to_position}
use ext_lsparrot.Tokens.Samples.{test_kind, token, numbered}
use ext_lsparrot.Zval.{Zval, arr, items_count, is_array, items_index, array_long, array_string}

abbrev settings : Settings
settings = record {
  enabled = true;
  reindent = true;
  trim_trailing_whitespace = true;
  insert_final_newline = true;
  indent_style = space;
  indent_size = pos 2;
}

-- `A{`, a line with a statement, and `}`
abbrev source : Bytes
source = codes "A{\n$b=  \n  7;\n }"

abbrev tokens : Bytes → Zval
tokens text = arr (
    numbered 0 (
      token 5 0 1 1 "A"
      ∷ token 123 1 1 1 "{"
      ∷ token 2 2 1 1 "\n"
      ∷ token 1 3 2 2 "$b"
      ∷ token 61 5 1 2 "="
      ∷ token 2 6 5 2 "  \n  "
      ∷ token 3 11 1 3 "7"
      ∷ token 59 12 1 3 ";"
      ∷ token 2 13 2 3 "\n "
      ∷ token 125 15 1 4 "}"
      ∷ []))

formatted_source :
    (document_lines test_kind tokens settings source none 0 100 true).0
    ≡ codes "A{\n  $b=\n    7;\n}\n"
unfolding document_lines test_kind items_count is_array items_index array_long bytes_eq size_cast
    array_string ◌+ℤ◌ int_leb ◌-ℤ◌
formatted_source = refl

line_of_offset-position_example :
    line_of_offset (line_starts source) 12 ≡ (offset_to_position source 12).line
line_of_offset-position_example = line_of_offset-position source 12

document_lines-Reformatted_example :
    let lines = split_lines source in
    let last = last_line (length (line_starts source)) 2 in
    let first = first_line 1 last in
    (outs : List Bytes) × (newline : Bytes) × (edited test_kind tokens settings source none 1 2
        false
      ≡ join (take first lines) ++ ((join outs ++ newline) ++ join (drop (last + 1) lines)))
    × (length outs ≡ last + 1 - first)
    × Reformatted
        (plan_of test_kind tokens settings source (options_resolve settings none)).0
        lines
        first
        outs
    × ((newline ≡ []) ⊎ ((false ≡ true) × (newline ≡ b'\n' ∷ [])))
document_lines-Reformatted_example =
    document_lines-Reformatted test_kind tokens settings source none 1 2 false
