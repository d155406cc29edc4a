-- ===== src/Symbols/Segments/Tests.antt =====
-- A run of the search for a prefix (ext/lsp_server_symbols.c, `lsp_symbol_match_prefix`).
use ext_lsparrot.Base.{◌≡◌, refl, true, false, ◌||◌, List, [], ◌∷◌, codes, length, ◌==◌, arith}
use ext_lsparrot.Scan.Fuzzy.{symbol_fuzzy_match}
use ext_lsparrot.Symbols.Segments.{
  Name, collect_segments, is_marked, without_backslash, match_prefix,
}
use ext_lsparrot.Symbols.Segments.Marked.{has_segment, matches_loosely, match_prefix_lem}

abbrev names : List Name
names =
    record { fqcn = codes "App\\Http\\Client"; class_like = true }
    ∷ record { fqcn = codes "http_build_query"; class_like = false }
    ∷ record { fqcn = codes "Has_Two_Parts"; class_like = true }
    ∷ []

-- The function by its first segment, the first class by a segment behind a backslash.
names-http : match_prefix names (codes "\\http") ≡ 0 ∷ 1 ∷ []
unfolding match_prefix symbol_fuzzy_match
names-http = refl

-- The last class by bytes in their order only.
names-hto : match_prefix names (codes "hto") ≡ 2 ∷ []
unfolding match_prefix symbol_fuzzy_match
names-hto = refl

match_prefix_lem_example : is_marked 1 (match_prefix names (codes "\\http")) ≡ (
    length (without_backslash (codes "\\http")) == 0
    || has_segment 1 (without_backslash (codes "\\http")) (collect_segments 0 names)
    || matches_loosely 1 (without_backslash (codes "\\http")) names)
match_prefix_lem_example = match_prefix_lem names (codes "\\http") 1 (omega arith)
