-- ===== src/Symbols/Arena.antt =====
-- The operations of the symbol index (ext/lsp_server_symbols.c: init, reset, add_symbol_kind,
-- table_ensure, rebuild_keys, lookup).
use ext_lsparrot.Base.{
  ℕ, ◌+◌, ◌-◌, ◌%◌, ◌^◌, Bool, true, false, not, ◌&&◌, ◌||◌, Option, none, some, List, [], ◌∷◌,
  ◌++◌, ◌==◌, leb, ltb, if◌then◌else◌, Bytes, codes, length, drop, map,
}
use ext_lsparrot.Base.Dict.{Dict, find, put}
use ext_lsparrot.Symbols.{SymbolIndex, index_magic, header_size, used}
use ext_lsparrot.Symbols.Records.{
  symbol_index_key, contains_segment, read_record, Found, walk, entry_of,
}

unfoldable pub table_invalidate : SymbolIndex → SymbolIndex
table_invalidate index = record index { table = none }

-- `lsp_symbol_index_init` and `lsp_symbol_index_header_init`, for the size of the options; the memory
-- that is asked for is given.
unfoldable pub index_init : ℕ → SymbolIndex
index_init symbol_index_size =
    let size = if ltb symbol_index_size 1064 then 1064 else symbol_index_size in
    record {
      size = size;
      available = true;
      keys_initialized = true;
      symbol_keys = [];
      magic = index_magic;
      generation = 1;
      capacity = size;
      symbol_count = 0;
      records = [];
      table = none;
    }

unfoldable pub index_reset : SymbolIndex → SymbolIndex
unfolding table_invalidate
index_reset index =
    if index.available
    then table_invalidate (record index {
      magic = index_magic;
      generation = (index.generation + 1) % 2 ^ 64;
      capacity = index.size;
      symbol_count = 0;
      records = [];
      symbol_keys = if index.keys_initialized then [] else index.symbol_keys;
    })
    else index

-- `lsp_symbol_index_destroy`: everything is zero.
abbrev pub index_destroy : SymbolIndex
index_destroy = record {
  size = 0;
  available = false;
  keys_initialized = false;
  symbol_keys = [];
  magic = 0;
  generation = 0;
  capacity = 0;
  symbol_count = 0;
  records = [];
  table = none;
}

-- `zend_hash_add`: a key that is there keeps its value.
unfoldable pub add_new : Bytes → ℕ → Dict ℕ → Dict ℕ
add_new key offset keys = elim (find key keys) [ none ↦ put key offset keys | some there ↦ keys ]

unfoldable pub add_key : ℕ → Bytes → ℕ → SymbolIndex → SymbolIndex
unfolding add_new symbol_index_key
add_key kind fqcn offset index = record index {
  symbol_keys =
      if index.keys_initialized
      then add_new (symbol_index_key kind fqcn) offset index.symbol_keys
      else index.symbol_keys;
}

abbrev pub is_found : Option ℕ → Bool
is_found none = false
is_found (some offset) = true

unfoldable pub has_key : ℕ → Bytes → SymbolIndex → Bool
unfolding symbol_index_key
has_key kind fqcn index =
    index.keys_initialized && is_found (find (symbol_index_key kind fqcn) index.symbol_keys)

abbrev pub path_bytes : Option Bytes → Bytes
path_bytes none = []
path_bytes (some path) = path

-- The bytes that are written for a symbol.
unfoldable pub record_bytes : ℕ → Bytes → Bytes → Bytes
record_bytes kind fqcn path = kind ∷ (fqcn ++ 0 ∷ (path ++ 0 ∷ []))

-- A symbol is not stored twice, not from a helper directory, and only where its record fits.
unfoldable pub is_refused : ℕ → Bytes → Option Bytes → SymbolIndex → Bool
unfolding has_key contains_segment
is_refused kind fqcn path index =
    not index.available
    || not (index.magic == index_magic)
    || contains_segment (path_bytes path) (codes ".lsparrot")
    || has_key kind fqcn index
    || not
        (leb ((used index + (3 + length fqcn + length (path_bytes path))) % 2 ^ 64) index.capacity)

unfoldable pub add_symbol_kind : ℕ → Bytes → Option Bytes → SymbolIndex → Bool × SymbolIndex
unfolding is_refused record_bytes add_key table_invalidate
add_symbol_kind kind fqcn path index =
    if is_refused kind fqcn path index
    then (false, index)
    else let keyed = add_key kind fqcn (used index) index in
      (
        true,
        table_invalidate (record keyed {
          records = index.records ++ record_bytes kind fqcn (path_bytes path);
          symbol_count = (index.symbol_count + 1) % 2 ^ 32;
        }),
      )

-- Whether the header can be trusted.
abbrev pub is_sound : SymbolIndex → Bool
is_sound index = index.magic == index_magic && leb (used index) index.capacity

unfoldable pub index_walk : SymbolIndex → List Found
unfolding walk
index_walk index = walk index.symbol_count header_size index.records

unfoldable pub table_ensure : SymbolIndex → SymbolIndex
unfolding index_walk entry_of
table_ensure index = elim index.table [
  | some entries ↦ index
  | none ↦ record index {
    table =
        some (if index.available && is_sound index then map entry_of (index_walk index) else []);
  }
]

unfoldable pub keys_of : List Found → Dict ℕ → Dict ℕ
unfolding add_new symbol_index_key
keys_of [] keys = keys
keys_of (r ∷ rs) keys = keys_of rs (add_new (symbol_index_key r.kind r.fqcn) r.offset keys)

unfoldable pub rebuild_keys : SymbolIndex → SymbolIndex
unfolding index_walk keys_of table_invalidate
rebuild_keys index =
    if index.available && index.keys_initialized
    then table_invalidate (record index {
      symbol_keys = if is_sound index then keys_of (index_walk index) [] else [];
    })
    else index

abbrev probe_kinds : ℕ → List ℕ
probe_kinds kind = if kind == b'C' then b'C' ∷ b'I' ∷ b'T' ∷ b'E' ∷ [] else kind ∷ []

abbrev is_before : ℕ → Option Found → Bool
is_before offset none = true
is_before offset (some best) = ltb offset best.offset

abbrev better : Option (Found × Bytes) → Option Found → Option Found
better none best = best
better (some (r, rest)) best = some r

-- One candidate of the lookup: an earlier record that can be read replaces the best one. The source
-- does not look whether the path ends within the used bytes; in a damaged arena, where it does not, it
-- reads on behind them, and here there is no record.
unfoldable pub take_candidate : SymbolIndex → Option ℕ → Option Found → Option Found
unfolding read_record
take_candidate index none best = best
take_candidate index (some offset) best =
    if ltb (offset + 1) (used index) && is_before offset best
    then better (read_record offset (drop (offset - header_size) index.records)) best
    else best

unfoldable pub lookup_from : SymbolIndex → Bytes → List ℕ → Option Found → Option Found
unfolding take_candidate symbol_index_key
lookup_from index fqcn [] best = best
lookup_from index fqcn (kind ∷ kinds) best =
    lookup_from index fqcn kinds
      (take_candidate index (find (symbol_index_key kind fqcn) index.symbol_keys) best)

-- The record that a name stands for, with its kind, its stored name and its path.
unfoldable pub index_lookup : ℕ → Bytes → SymbolIndex → Option Found
unfolding lookup_from
index_lookup kind fqcn index =
    if index.available && index.keys_initialized && is_sound index
    then lookup_from index fqcn (probe_kinds kind) none
    else none
