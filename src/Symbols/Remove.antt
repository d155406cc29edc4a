-- ===== src/Symbols/Remove.antt =====
-- `lsp_symbol_index_remove_path` (ext/lsp_server_symbols.c): the records of a file become tombstones
-- in place, their keys go, and their entries are hidden.
use ext_lsparrot.Base.{
  ℕ, zero, suc, ◌+◌, ◌-◌, Bool, true, not, ◌&&◌, none, some, List, [], ◌∷◌, if◌then◌else◌, Bytes,
  bytes_eq, take, drop,
}
use ext_lsparrot.Base.Dict.{del}
use ext_lsparrot.Symbols.{Entry, SymbolIndex, header_size, tombstone}
use ext_lsparrot.Symbols.Records.{symbol_index_key}
use ext_lsparrot.Symbols.Arena.{table_ensure}

-- The bytes of the arena from an offset on.
abbrev pub from_offset : SymbolIndex → ℕ → Bytes
from_offset index offset = drop (offset - header_size) index.records

unfoldable pub entry_fqcn : SymbolIndex → Entry → Bytes
entry_fqcn index entry = take entry.fqcn_length (from_offset index (entry.record_offset + 1))

unfoldable pub entry_path : SymbolIndex → Entry → Bytes
entry_path index entry =
    take entry.path_length (from_offset index (entry.record_offset + 1 + entry.fqcn_length + 1))

-- `base[i] = byte`
unfoldable pub set_byte : ℕ → ℕ → Bytes → Bytes
set_byte i byte [] = []
set_byte zero byte (c ∷ bytes) = byte ∷ bytes
set_byte (suc i) byte (c ∷ bytes) = c ∷ set_byte i byte bytes

unfoldable pub is_of_path : Bytes → SymbolIndex → Entry → Bool
unfolding entry_path
is_of_path path index entry = not entry.deleted && bytes_eq (entry_path index entry) path

-- One entry of the file goes: its key and the kind in its record.
unfoldable pub remove_entry : Entry → SymbolIndex → SymbolIndex
unfolding entry_fqcn set_byte symbol_index_key
remove_entry entry index = record index {
  symbol_keys =
      if index.keys_initialized
      then del (symbol_index_key entry.kind (entry_fqcn index entry)) index.symbol_keys
      else index.symbol_keys;
  records = set_byte (entry.record_offset - header_size) tombstone index.records;
}

-- The loop over the entries: what is left of them, the index, and the number of those removed.
unfoldable pub remove_entries : Bytes → List Entry → SymbolIndex → List Entry × SymbolIndex × ℕ
unfolding is_of_path remove_entry
remove_entries path [] index = ([], index, 0)
remove_entries path (entry ∷ entries) index =
    let removed = remove_entries path entries (remove_entry entry index) in
    let left = remove_entries path entries index in
    if is_of_path path index entry
    then (record entry { deleted = true } ∷ removed.0, removed.1, suc removed.2)
    else (entry ∷ left.0, left.1, left.2)

abbrev pub entries_of : SymbolIndex → List Entry
entries_of index = elim index.table [ none ↦ [] | some entries ↦ entries ]

unfoldable pub remove_path : Bytes → SymbolIndex → SymbolIndex × ℕ
unfolding remove_entries table_ensure
remove_path path index =
    if not index.available
    then (index, 0)
    else let ensured = table_ensure index in
      let r = remove_entries path (entries_of ensured) ensured in
      (record r.1 { table = some r.0 }, r.2)
