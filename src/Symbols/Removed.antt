-- ===== src/Symbols/Removed.antt =====
-- The index after the records of a file were removed (ext/lsp_server_symbols.c,
-- `lsp_symbol_index_remove_path`).
use mathlib.Core.Path.{subst}
use ext_lsparrot.Base.{
  ◌≡◌, refl, sym, ap, ◌∙◌, ◌⊎◌, ℕ, suc, ◌+◌, Bool, true, not, inl, inr, Bool-cases, none, some,
  List, [], ◌∷◌, ◌==◌, if◌then◌else◌, Bytes, bytes_eq, length, All, length-append, arith, map,
}
use ext_lsparrot.Symbols.{Entry, SymbolIndex, header_size, tombstone}
use ext_lsparrot.Symbols.Records.{Found, record_size, entry_of}
use ext_lsparrot.Symbols.Arena.{index_walk, table_ensure}
use ext_lsparrot.Symbols.Remove.{remove_entries, remove_path, entries_of}
use ext_lsparrot.Symbols.Encoding.{bytes_of, IsRecord, IsText, encode, AreAt, live}
use ext_lsparrot.Symbols.Adding.{IsIndex, length-bytes_of}
use ext_lsparrot.Symbols.Rebuild.{index_walk-live, holds_sound}
use ext_lsparrot.Symbols.Removing.{bury, bury_all, remove_entries-SameHeader}
use ext_lsparrot.Symbols.Burying.{
  of_file, without_file, IsTable, entry_of-IsTable, Buried, remove_entries-Buried,
}

-- A tombstone takes the place of its record.
record SamePlace (r s : Found) : Type 0 where
  same_offset : s.offset ≡ r.offset
  same_fqcn : s.fqcn ≡ r.fqcn
  same_path : s.path ≡ r.path

bury-SamePlace : (path : Bytes) (r : Found) → SamePlace r (bury path r)
bury-SamePlace path r = elim (Bool-cases (r.kind == tombstone)) [
  | inl gone ↦ record {
    same_offset = rw gone refl;
    same_fqcn = rw gone refl;
    same_path = rw gone refl;
  }
  | inr there ↦ elim (Bool-cases (bytes_eq r.path path)) [
    | inl goes ↦ record {
      same_offset = rw (there, goes) refl;
      same_fqcn = rw (there, goes) refl;
      same_path = rw (there, goes) refl;
    }
    | inr stays ↦ record {
      same_offset = rw (there, stays) refl;
      same_fqcn = rw (there, stays) refl;
      same_path = rw (there, stays) refl;
    }
  ]
]

record_size-same : (r s : Found) → SamePlace r s → record_size s ≡ record_size r
record_size-same r s same =
    omega (arith, ap (λ t. length t) same.same_fqcn, ap (λ t. length t) same.same_path)

length-bury_all : (path : Bytes) (rs : List Found) → length (bury_all path rs) ≡ length rs
length-bury_all path [] = refl
length-bury_all path (r ∷ rs) = ap suc (length-bury_all path rs)

length-encode :
    (path : Bytes) (rs : List Found) → length (encode (bury_all path rs)) ≡ length (encode rs)
length-encode path [] = refl
length-encode path (r ∷ rs) = omega (
  arith,
  length-append (bytes_of (bury path r)) (encode (bury_all path rs)),
  length-append (bytes_of r) (encode rs),
  length-bytes_of (bury path r),
  length-bytes_of r,
  record_size-same r (bury path r) (bury-SamePlace path r),
  length-encode path rs,
)

bury_all-AreAt :
    (path : Bytes) (offset : ℕ) (rs : List Found)
    → AreAt offset rs
    → AreAt offset (bury_all path rs)
bury_all-AreAt path offset [] at = tt
bury_all-AreAt path offset (r ∷ rs) at =
    let same = bury-SamePlace path r in
    (
      same.same_offset ∙ at.0,
      subst (λ size. AreAt (offset + size) (bury_all path rs))
          (sym (record_size-same r (bury path r) same))
          (bury_all-AreAt path (offset + record_size r) rs at.1),
    )

bury_all-IsRecord :
    (path : Bytes) (rs : List Found) → All IsRecord rs → All IsRecord (bury_all path rs)
bury_all-IsRecord path [] texts = tt
bury_all-IsRecord path (r ∷ rs) texts =
    let same = bury-SamePlace path r in
    (
      (
        subst (λ t. IsText t) (sym same.same_fqcn) texts.0.0,
        subst (λ t. IsText t) (sym same.same_path) texts.0.1,
      ),
      bury_all-IsRecord path rs texts.1,
    )

live-bury_all :
    (path : Bytes) (rs : List Found) → live (bury_all path rs) ≡ without_file path (live rs)
live-bury_all path [] = refl
live-bury_all path (r ∷ rs) = elim (Bool-cases (r.kind == tombstone)) [
  | inl gone ↦ rw (gone, live-bury_all path rs) (rw gone refl)
  | inr there ↦ elim (Bool-cases (bytes_eq r.path path)) [
    | inl goes ↦ rw (there, goes, live-bury_all path rs) refl
    | inr stays ↦ rw (there, stays, live-bury_all path rs) (rw there refl)
  ]
]

-- The entry table is not built, or is one of the records; an earlier removal leaves hidden entries.
abbrev pub HasTableOf : SymbolIndex → List Found → Type 0
HasTableOf index rs =
    (index.table ≡ none)
    ⊎ ((entries : List Entry) × (index.table ≡ some entries) × IsTable entries rs)

table_ensure-table :
    (index : SymbolIndex) (rs : List Found)
    → IsIndex index rs
    → HasTableOf index rs
    → (entries : List Entry) × IsTable entries rs
      × (table_ensure index ≡ record index { table = some entries })
unfolding table_ensure
table_ensure-table index rs holds (inl missing) = (
  map entry_of (live rs),
  entry_of-IsTable rs,
  rw
      (
        table_ensure,
        missing,
        holds.ready,
        holds_sound index rs holds,
        index_walk-live index rs holds,
      )
      refl,
)
table_ensure-table index rs holds (inr (entries, there, t)) =
    (entries, t, rw (table_ensure, there) (ap (λ o. record index { table = o }) there))

if_available :
    (available : Bool) (x y : SymbolIndex × ℕ)
    → available ≡ true
    → (if not available then x else y) ≡ y
if_available available x y ready = rw ready refl

module _ (path : Bytes) (index : SymbolIndex) (rs : List Found) (holds : IsIndex index rs) where
  module _ (entries : List Entry) (t : IsTable entries rs) where
    abbrev ensured : SymbolIndex
    ensured = record index { table = some entries }

    abbrev loop : List Entry × SymbolIndex × ℕ
    loop = remove_entries path entries ensured

    loop-Buried : Buried path entries rs ensured []
    loop-Buried =
        remove_entries-Buried path ensured [] t holds.written
          (subst (λ n. AreAt n rs) (omega arith) holds.placed)
          (omega (arith, holds.fits, holds.small))

    loop-IsIndex : IsIndex (record loop.1 { table = some loop.0 }) (bury_all path rs)
    loop-IsIndex =
        let same = remove_entries-SameHeader path entries ensured in
        let now : length loop.1.records ≡ length (encode (bury_all path rs)) =
          ap length loop-Buried.0 in
        let then_ : length index.records ≡ length (encode rs) = ap length holds.written in
        record {
          written = loop-Buried.0;
          counted = same.same_count ∙ holds.counted ∙ sym (length-bury_all path rs);
          placed = bury_all-AreAt path header_size rs holds.placed;
          texts = bury_all-IsRecord path rs holds.texts;
          ready = same.same_available ∙ holds.ready;
          keyed = same.same_keyed ∙ holds.keyed;
          known = same.same_magic ∙ holds.known;
          fits = omega (arith, now, then_, length-encode path rs, holds.fits, same.same_capacity);
          small = omega (arith, same.same_capacity, holds.small);
        }

    remove_path-loop :
        table_ensure index ≡ ensured
        → remove_path path index ≡ (record loop.1 { table = some loop.0 }, loop.2)
    unfolding remove_path
    remove_path-loop e =
        if_available index.available (index, 0)
          (let r = remove_entries path (entries_of (table_ensure index)) (table_ensure index) in
            (record r.1 { table = some r.0 }, r.2))
          holds.ready
        ∙ ap
            (λ i.
              let r = remove_entries path (entries_of i) i in
              (record r.1 { table = some r.0 }, r.2))
            e

  -- Removing a file from an index that holds the records of a list gives back how many of them are
  -- live and of the file, and leaves an index whose walk gives the other live records, in order, with
  -- every record in its place. The entry table is not built or is that of the records, which a removal
  -- before may have left with hidden entries, and is so afterwards, too. The capacity is below 2^32,
  -- so that every offset fits an entry.
  pub remove_path_lem :
      HasTableOf index rs
      → ((remove_path path index).1 ≡ of_file path (live rs))
        × (index_walk (remove_path path index).0 ≡ without_file path (live rs))
        × IsIndex (remove_path path index).0 (bury_all path rs)
        × HasTableOf (remove_path path index).0 (bury_all path rs)
  remove_path_lem table =
      let (entries, t, e) = table_ensure-table index rs holds table in
      let r = loop entries t in
      let (records, count, left) = loop-Buried entries t in
      let later = loop-IsIndex entries t in
      rw (remove_path-loop entries t e) (
        count,
        index_walk-live (record r.1 { table = some r.0 }) (bury_all path rs) later
            ∙ live-bury_all path rs,
        later,
        inr (r.0, refl, left),
      )
