-- ===== src/Symbols.antt =====
-- The symbol index (ext/lsp_server_symbols.c, `lsp_symbol_index` of ext/lsp_internal.h): an arena of
-- records kind, name, NUL, path, NUL behind a header of 40 bytes, the hash table of lookup keys, and
-- the entry table that is derived from the arena on demand. Offsets count from the start of the arena.
-- The sorted array of name segments, which only completion reads, is derived in Segments and not kept.
pub mod Records
pub mod Arena
pub mod Remove
pub mod Encoding
pub mod Adding
pub mod Rebuild
pub mod Lookup
pub mod Removing
pub mod Burying
pub mod Removed
pub mod ClassLike
pub mod Earliest
pub mod Segments
mod Tests
use ext_lsparrot.Base.{ℕ, Bool, Bytes, List, Option, ◌+◌, length}
use ext_lsparrot.Base.Dict.{Dict}

-- `lsp_symbol_entry`; the two flags are Booleans.
pub record Entry : Type 0 where
  pub record_offset : ℕ
  pub fqcn_length : ℕ
  pub path_length : ℕ
  pub kind : ℕ
  pub vendor : Bool
  pub deleted : Bool

-- `available` includes that there is an arena. `records` are the bytes between the header and
-- `used`, which is not kept apart; what lies behind is not read. `table` is `none` where
-- `table_valid` is false.
pub record SymbolIndex : Type 0 where
  pub size : ℕ
  pub available : Bool
  pub keys_initialized : Bool
  pub symbol_keys : Dict ℕ
  pub magic : ℕ
  pub generation : ℕ
  pub capacity : ℕ
  pub symbol_count : ℕ
  pub records : Bytes
  pub table : Option (List Entry)

abbrev pub index_magic : ℕ
index_magic = 1515407704

-- `sizeof(lsp_symbol_index_header)`
abbrev pub header_size : ℕ
header_size = 40

abbrev pub used : SymbolIndex → ℕ
used index = header_size + length index.records

abbrev pub tombstone : ℕ
tombstone = b'!'
