-- ===== src/Symbols/Rebuild.antt =====
-- The keys that `lsp_symbol_index_rebuild_keys` makes (ext/lsp_server_symbols.c).
use ext_lsparrot.Base.{◌≡◌, refl, [], ℕ, ◌≤◌, true, List, leb, arith}
use ext_lsparrot.Symbols.{SymbolIndex, header_size, used}
use ext_lsparrot.Symbols.Records.{Found}
use ext_lsparrot.Symbols.Arena.{rebuild_keys, keys_of, index_walk, is_sound, table_invalidate}
use ext_lsparrot.Symbols.Encoding.{live, walk-encode}
use ext_lsparrot.Symbols.Adding.{IsIndex}

le→leb : (a b : ℕ) → a ≤ b → leb a b ≡ true
le→leb a b h = ground arith

pub holds_sound : (index : SymbolIndex) (rs : List Found) → IsIndex index rs → is_sound index ≡ true
holds_sound index rs holds = rw (holds.known, le→leb (used index) index.capacity holds.fits) refl

-- Walking the arena of an index gives the records that are no tombstones.
pub index_walk-live :
    (index : SymbolIndex) (rs : List Found) → IsIndex index rs → index_walk index ≡ live rs
unfolding index_walk
index_walk-live index rs holds =
    rw (index_walk, holds.counted, holds.written)
      (walk-encode header_size rs holds.placed holds.texts)

-- Rebuilding makes the keys of the records that are no tombstones.
pub rebuild_keys-keys_of :
    (index : SymbolIndex) (rs : List Found)
    → IsIndex index rs
    → (rebuild_keys index).symbol_keys ≡ keys_of (live rs) []
unfolding rebuild_keys table_invalidate
rebuild_keys-keys_of index rs holds =
    rw
      (
        rebuild_keys,
        holds.ready,
        holds.keyed,
        holds_sound index rs holds,
        index_walk-live index rs holds,
      )
      refl
