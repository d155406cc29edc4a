-- ===== src/Completion/Tests.antt =====
-- Runs of the deduplication of completion items of ext/lsp_server_symbols.c.
use Prim.Native.String.{String}
use ext_lsparrot.Base.{◌≡◌, refl, List, [], ◌∷◌, codes, bytes_eq}
use ext_lsparrot.Base.Dict.{find, put}
use ext_lsparrot.Base.Int.{pos, ◌+ℤ◌, ◌-ℤ◌, int_eq, int_leb}
use ext_lsparrot.Completion.Buckets.{deduplicated-merge_all}
use ext_lsparrot.Completion.Dedup.{deduplicated}
use ext_lsparrot.Completion.Positions.{merge_all}
use ext_lsparrot.Zval.{Zval, item, nil, name, str, long, arr, array_string, array_long, is_array}

abbrev entry : String → String → Zval
entry label detail = arr (
    item (name (codes "label")) (str (codes label)) (
      item (name (codes "kind")) (long (pos 6))
        (item (name (codes "detail")) (str (codes detail)) nil)))

-- `$a` and `a` are one variable; the more telling type stays.
abbrev entries : List Zval
entries = entry "$a" "int" ∷ entry "b" "int" ∷ entry "a" "array<int>" ∷ []

deduplicated-entries : deduplicated entries ≡ entry "a" "array<int>" ∷ entry "b" "int" ∷ []
unfolding deduplicated is_array array_string bytes_eq find put int_eq array_long int_leb ◌+ℤ◌ ◌-ℤ◌
deduplicated-entries = refl

deduplicated-merge_all_example : deduplicated entries ≡ merge_all entries []
deduplicated-merge_all_example = deduplicated-merge_all entries
