-- ===== src/Symbols/Burying.antt =====
-- What is in the arena after the records of a file were removed (ext/lsp_server_symbols.c,
-- `lsp_symbol_index_remove_path`).
use ext_lsparrot.Base.{
  ◌≡◌, refl, sym, ap, ◌∙◌, ℕ, suc, ◌+◌, ◌^◌, ◌<◌, inl, inr, Bool-cases, true, false, List, [], ◌∷◌,
  ◌++◌, ◌==◌, if◌then◌else◌, Bytes, bytes_eq, length, append_assoc, length-append, arith, map,
}
use ext_lsparrot.Symbols.{Entry, SymbolIndex, header_size, tombstone}
use ext_lsparrot.Symbols.Records.{Found, record_size, entry_of}
use ext_lsparrot.Symbols.Remove.{is_of_path, remove_entry, remove_entries}
use ext_lsparrot.Symbols.Encoding.{bytes_of, encode, AreAt, live}
use ext_lsparrot.Symbols.Adding.{length-bytes_of}
use ext_lsparrot.Symbols.Removing.{bury_all, entry_path-entry_of, remove_entry-records}

-- The number of records of the file, and the other records.
abbrev pub of_file : Bytes → List Found → ℕ
of_file path [] = 0
of_file path (r ∷ rs) = if bytes_eq r.path path then suc (of_file path rs) else of_file path rs

abbrev pub without_file : Bytes → List Found → List Found
without_file path [] = []
without_file path (r ∷ rs) =
    if bytes_eq r.path path then without_file path rs else r ∷ without_file path rs

-- The entries are those of the records: each live record has its entry, and a tombstone has none, or
-- one that is hidden, with the kind that it had.
pub data IsTable : List Entry → List Found → Type 0 where
  empty : IsTable [] []
  skipped :
      {entries : List Entry} {rs : List Found} (r : Found)
      → (r.kind == tombstone) ≡ true
      → IsTable entries rs
      → IsTable entries (r ∷ rs)
  hidden :
      {entries : List Entry} {rs : List Found} (r : Found) (kind : ℕ)
      → (r.kind == tombstone) ≡ true
      → IsTable entries rs
      → IsTable (record (entry_of r) { kind = kind; deleted = true } ∷ entries) (r ∷ rs)
  shown :
      {entries : List Entry} {rs : List Found} (r : Found)
      → (r.kind == tombstone) ≡ false
      → IsTable entries rs
      → IsTable (entry_of r ∷ entries) (r ∷ rs)

-- An entry is hidden as its record becomes a tombstone.
newly_hidden :
    {entries : List Entry} {rs : List Found} (r : Found)
    → IsTable entries rs
    → IsTable
        (record (entry_of r) { deleted = true } ∷ entries)
        (record r { kind = tombstone } ∷ rs)
unfolding entry_of
newly_hidden r t = hidden (record r { kind = tombstone }) (r.kind) refl t

-- The table that is built anew.
pub entry_of-IsTable : (rs : List Found) → IsTable (map entry_of (live rs)) rs
entry_of-IsTable [] = empty
entry_of-IsTable (r ∷ rs) = elim (Bool-cases (r.kind == tombstone)) [
  | inl gone ↦ rw gone (skipped r gone (entry_of-IsTable rs))
  | inr there ↦ rw there (shown r there (entry_of-IsTable rs))
]

abbrev pub Buried : Bytes → List Entry → List Found → SymbolIndex → Bytes → Type 0
Buried path entries rs index pre =
    ((remove_entries path entries index).1.records ≡ pre ++ encode (bury_all path rs))
    × ((remove_entries path entries index).2 ≡ of_file path (live rs))
    × IsTable (remove_entries path entries index).0 (bury_all path rs)

-- The step from a record to those behind it.
behind_written :
    (b : Bytes) (pre bytes rest : Bytes) → b ≡ pre ++ (bytes ++ rest) → b ≡ (pre ++ bytes) ++ rest
behind_written b pre bytes rest e = e ∙ sym (append_assoc pre bytes rest)

behind_AreAt :
    (pre : Bytes) (r x : Found) (rs : List Found)
    → length (bytes_of x) ≡ record_size r
    → AreAt (header_size + length pre + record_size r) rs
    → AreAt (header_size + length (pre ++ bytes_of x)) rs
behind_AreAt pre r x rs long at =
    let e : header_size + length (pre ++ bytes_of x) ≡ header_size + length pre + record_size r =
      omega (arith, length-append pre (bytes_of x)) in
    rw e at

is_of_path-entry_of :
    (path : Bytes) (index : SymbolIndex) (pre rest : Bytes) (r : Found)
    → index.records ≡ pre ++ (bytes_of r ++ rest)
    → r.offset ≡ header_size + length pre
    → header_size + length index.records < 2 ^ 32
    → is_of_path path index (entry_of r) ≡ bytes_eq r.path path
unfolding is_of_path entry_of
is_of_path-entry_of path index pre rest r written at small =
    ap (λ p. bytes_eq p path) (entry_path-entry_of index pre rest r written at small)

-- What removing one record leaves is not longer.
remove_entry-small :
    (index : SymbolIndex) (pre rest : Bytes) (r : Found)
    → index.records ≡ pre ++ (bytes_of r ++ rest)
    → (remove_entry (entry_of r) index).records
      ≡ pre ++ (bytes_of (record r { kind = tombstone }) ++ rest)
    → header_size + length index.records < 2 ^ 32
    → header_size + length (remove_entry (entry_of r) index).records < 2 ^ 32
remove_entry-small index pre rest r written now small =
    let x : Found = record r { kind = tombstone } in
    let length_then : length index.records ≡ length (pre ++ (bytes_of r ++ rest)) =
      ap length written in
    let length_now : length (remove_entry (entry_of r) index).records
        ≡ length (pre ++ (bytes_of x ++ rest)) =
      ap length now in
    omega (
      arith,
      length_now,
      length_then,
      length-append pre (bytes_of r ++ rest),
      length-append pre (bytes_of x ++ rest),
      length-append (bytes_of r) rest,
      length-append (bytes_of x) rest,
      length-bytes_of r,
      length-bytes_of x,
      small,
    )

pub remove_entries-Buried :
    {entries : List Entry} {rs : List Found} (path : Bytes) (index : SymbolIndex) (pre : Bytes)
    → IsTable entries rs
    → index.records ≡ pre ++ encode rs
    → AreAt (header_size + length pre) rs
    → header_size + length index.records < 2 ^ 32
    → Buried path entries rs index pre
unfolding remove_entries
remove_entries-Buried path index pre empty written at small = (written, refl, empty)
remove_entries-Buried path index pre (skipped {entries} {rs} r gone t) written at small =
    let (records, count, table) =
      remove_entries-Buried path index (pre ++ bytes_of r) t
        (behind_written index.records pre (bytes_of r) (encode rs) written)
        (behind_AreAt pre r r rs (length-bytes_of r) at.1) small in
    rw gone (
      records ∙ append_assoc pre (bytes_of r) (encode (bury_all path rs)),
      count,
      skipped r gone table,
    )
remove_entries-Buried path index pre (hidden {entries} {rs} r kind gone t) written at small =
    let (records, count, table) =
      remove_entries-Buried path index (pre ++ bytes_of r) t
        (behind_written index.records pre (bytes_of r) (encode rs) written)
        (behind_AreAt pre r r rs (length-bytes_of r) at.1) small in
    rw gone (
      records ∙ append_assoc pre (bytes_of r) (encode (bury_all path rs)),
      count,
      hidden r kind gone table,
    )
remove_entries-Buried path index pre (shown {entries} {rs} r there t) written at small =
    let of_path = is_of_path-entry_of path index pre (encode rs) r written at.0 small in
    elim (Bool-cases (bytes_eq r.path path)) [
      | inl goes ↦
          let x : Found = record r { kind = tombstone } in
          let now = remove_entry-records index pre (encode rs) r written at.0 small in
          let (records, count, table) =
            remove_entries-Buried path (remove_entry (entry_of r) index) (pre ++ bytes_of x) t
              (behind_written (remove_entry (entry_of r) index).records pre (bytes_of x) (encode rs)
                now)
              (behind_AreAt pre r x rs (length-bytes_of x) at.1)
              (remove_entry-small index pre (encode rs) r written now small) in
          rw (there, of_path, goes)
            (
              records ∙ append_assoc pre (bytes_of x) (encode (bury_all path rs)),
              ap suc count,
              newly_hidden r table,
            )
      | inr stays ↦
          let (records, count, table) =
            remove_entries-Buried path index (pre ++ bytes_of r) t
              (behind_written index.records pre (bytes_of r) (encode rs) written)
              (behind_AreAt pre r r rs (length-bytes_of r) at.1) small in
          rw (there, of_path, stays)
            (
              records ∙ append_assoc pre (bytes_of r) (encode (bury_all path rs)),
              count,
              shown r there table,
            )
    ]
