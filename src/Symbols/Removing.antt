-- ===== src/Symbols/Removing.antt =====
-- Removing the records of a file (ext/lsp_server_symbols.c, `lsp_symbol_index_remove_path`).
use ext_lsparrot.Base.{
  ◌≡◌, refl, sym, ap, ◌∙◌, ℕ, suc, ◌+◌, ◌-◌, ◌%◌, ◌^◌, ◌<◌, inl, inr, Bool-cases, List, [], ◌∷◌,
  ◌++◌, ◌==◌, if◌then◌else◌, Bytes, bytes_eq, length, take-length, drop-length, append_assoc,
  length-append, arith,
}
use ext_lsparrot.Symbols.{Entry, SymbolIndex, header_size, tombstone}
use ext_lsparrot.Symbols.Records.{Found, entry_of}
use ext_lsparrot.Symbols.Arena.{record_bytes}
use ext_lsparrot.Symbols.Remove.{entry_path, set_byte, is_of_path, remove_entry, remove_entries}
use ext_lsparrot.Symbols.Encoding.{bytes_of, record_bytes_append}

-- A record of the file becomes a tombstone.
abbrev pub bury : Bytes → Found → Found
bury path r =
    if r.kind == tombstone
    then r
    else if bytes_eq r.path path
    then record r { kind = tombstone }
    else r

abbrev pub bury_all : Bytes → List Found → List Found
bury_all path [] = []
bury_all path (r ∷ rs) = bury path r ∷ bury_all path rs

set_byte-length : (b c : ℕ) (xs ys : Bytes) → set_byte (length xs) b (xs ++ c ∷ ys) ≡ xs ++ b ∷ ys
unfolding set_byte
set_byte-length b c [] ys = refl
set_byte-length b c (x ∷ xs) ys = rw (set_byte-length b c xs ys) refl

-- The path of an entry is read off the arena as it was written.
pub entry_path-entry_of :
    (index : SymbolIndex) (pre rest : Bytes) (r : Found)
    → index.records ≡ pre ++ (bytes_of r ++ rest)
    → r.offset ≡ header_size + length pre
    → header_size + length index.records < 2 ^ 32
    → entry_path index (entry_of r) ≡ r.path
unfolding entry_path entry_of record_bytes
entry_path-entry_of index pre rest r written at small =
    let front : Bytes = pre ++ (r.kind ∷ (r.fqcn ++ 0 ∷ [])) in
    let split : index.records ≡ front ++ (r.path ++ 0 ∷ rest) =
      written
      ∙ ap (λ b. pre ++ b) (record_bytes_append r.kind r.fqcn r.path rest)
      ∙ sym (
          append_assoc pre (r.kind ∷ (r.fqcn ++ 0 ∷ [])) (r.path ++ 0 ∷ rest)
          ∙ ap (λ b. pre ++ r.kind ∷ b) (append_assoc r.fqcn (0 ∷ []) (r.path ++ 0 ∷ rest))) in
    let whole : length index.records ≡ length (front ++ (r.path ++ 0 ∷ rest)) = ap length split in
    let size : length index.records ≡ length front + (length r.path + suc (length rest)) =
      omega
        (arith, whole, length-append front (r.path ++ 0 ∷ rest), length-append r.path (0 ∷ rest)) in
    let far : length front ≡ length pre + (2 + length r.fqcn) =
      omega
        (arith, length-append pre (r.kind ∷ (r.fqcn ++ 0 ∷ [])), length-append r.fqcn (0 ∷ [])) in
    let place : r.offset % 2 ^ 32 + 1 + length r.fqcn % 2 ^ 32 + 1 - header_size ≡ length front =
      omega (arith, size, far) in
    let long : length r.path % 2 ^ 32 ≡ length r.path = omega (arith, size) in
    rw (place, long, split, drop-length front (r.path ++ 0 ∷ rest), take-length r.path (0 ∷ rest))
      refl

-- What removing leaves alone.
pub record SameHeader (index later : SymbolIndex) : Type 0 where
  pub same_available : later.available ≡ index.available
  pub same_keyed : later.keys_initialized ≡ index.keys_initialized
  pub same_magic : later.magic ≡ index.magic
  pub same_capacity : later.capacity ≡ index.capacity
  pub same_count : later.symbol_count ≡ index.symbol_count

pub remove_entries-SameHeader :
    (path : Bytes) (entries : List Entry) (index : SymbolIndex)
    → SameHeader index (remove_entries path entries index).1
unfolding remove_entries remove_entry
remove_entries-SameHeader path [] index = record {
  same_available = refl;
  same_keyed = refl;
  same_magic = refl;
  same_capacity = refl;
  same_count = refl;
}
remove_entries-SameHeader path (entry ∷ entries) index =
    elim (Bool-cases (is_of_path path index entry)) [
      | inl goes ↦
          let later = remove_entries-SameHeader path entries (remove_entry entry index) in
          rw (remove_entries, goes)
            (record {
              same_available = later.same_available;
              same_keyed = later.same_keyed;
              same_magic = later.same_magic;
              same_capacity = later.same_capacity;
              same_count = later.same_count;
            })
      | inr stays ↦ rw (remove_entries, stays) (remove_entries-SameHeader path entries index)
    ]

pub remove_entry-records :
    (index : SymbolIndex) (pre rest : Bytes) (r : Found)
    → index.records ≡ pre ++ (bytes_of r ++ rest)
    → r.offset ≡ header_size + length pre
    → header_size + length index.records < 2 ^ 32
    → (remove_entry (entry_of r) index).records
      ≡ pre ++ (bytes_of (record r { kind = tombstone }) ++ rest)
unfolding remove_entry entry_of record_bytes
remove_entry-records index pre rest r written at small =
    let whole : length index.records ≡ length (pre ++ (bytes_of r ++ rest)) = ap length written in
    let place : r.offset % 2 ^ 32 - header_size ≡ length pre =
      omega (arith, whole, length-append pre (bytes_of r ++ rest)) in
    rw (place, written) (set_byte-length tombstone r.kind pre _)
