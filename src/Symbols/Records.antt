-- ===== src/Symbols/Records.antt =====
-- Keys, and the walk over the records of the arena (ext/lsp_server_symbols.c:
-- `lsp_symbol_index_key`, `lsp_symbol_index_table_ensure`), with `lsp_path_value_contains_segment` of
-- ext/lsp_portability.h.
use ext_lsparrot.Base.{
  ℕ, zero, suc, ◌+◌, ◌%◌, ◌^◌, Bool, true, false, ◌&&◌, ◌||◌, Option, none, some, List, [], ◌∷◌,
  ◌==◌, if◌then◌else◌, Bytes, codes, length, drop, to_lower, map,
}
use ext_lsparrot.Server.Caches.{is_prefix}
use ext_lsparrot.Symbols.{Entry, tombstone}

abbrev without_separator : Bytes → Bytes
without_separator [] = []
without_separator (c ∷ name) = if c == 92 then name else c ∷ name

-- The kind, then the name in lower case without the leading separator.
unfoldable pub symbol_index_key : ℕ → Bytes → Bytes
symbol_index_key kind fqcn = kind ∷ map to_lower (without_separator fqcn)

abbrev at_separator : Bytes → Bool
at_separator [] = true
at_separator (c ∷ rest) = c == b'/'

-- The loop over the path; `start_ok` is known from the byte before.
unfoldable pub segment_from : Bytes → Bool → Bytes → Bool
unfolding is_prefix
segment_from segment start_ok [] = false
segment_from segment start_ok (c ∷ path) =
    start_ok && is_prefix segment (c ∷ path) && at_separator (drop (length segment) (c ∷ path))
    || segment_from segment (c == b'/') path

unfoldable pub contains_segment : Bytes → Bytes → Bool
unfolding segment_from
contains_segment path segment = segment_from segment true path

-- `strlen` and the step behind the NUL; `none` where no NUL is among the bytes.
unfoldable pub read_string : Bytes → Option (Bytes × Bytes)
read_string [] = none
read_string (c ∷ bytes) =
    if c == 0
    then some ([], bytes)
    else elim (read_string bytes) [ none ↦ none | some (text, rest) ↦ some (c ∷ text, rest) ]

-- One record of the arena.
pub record Found : Type 0 where
  pub offset : ℕ
  pub kind : ℕ
  pub fqcn : Bytes
  pub path : Bytes

-- A record at an offset, and what follows it.
unfoldable pub read_record : ℕ → Bytes → Option (Found × Bytes)
unfolding read_string
read_record offset [] = none
read_record offset (kind ∷ bytes) = elim (read_string bytes) [
  | none ↦ none
  | some (fqcn, behind) ↦ elim (read_string behind) [
    | none ↦ none
    | some (path, rest) ↦
        some (record { offset = offset; kind = kind; fqcn = fqcn; path = path }, rest)
  ]
]

-- The bytes of a record.
abbrev pub record_size : Found → ℕ
record_size r = 3 + length r.fqcn + length r.path

-- The records that are no tombstones; the loop stops at the first that is not whole.
unfoldable pub walk : ℕ → ℕ → Bytes → List Found
unfolding read_record
walk zero offset bytes = []
walk (suc count) offset bytes = elim (read_record offset bytes) [
  | none ↦ []
  | some (r, rest) ↦
      let more = walk count (offset + record_size r) rest in
      if r.kind == tombstone then more else r ∷ more
]

-- The fields are 32 bits wide.
unfoldable pub entry_of : Found → Entry
unfolding contains_segment
entry_of r = record {
  record_offset = r.offset % 2 ^ 32;
  fqcn_length = length r.fqcn % 2 ^ 32;
  path_length = length r.path % 2 ^ 32;
  kind = r.kind;
  vendor = contains_segment r.path (codes "vendor");
  deleted = false;
}
