-- ===== src/Symbols/Lookup.antt =====
-- What the lookup finds (ext/lsp_server_symbols.c, `lsp_symbol_index_lookup`).
use ext_lsparrot.Base.{
  Bool, ◌≡◌, ◌≢◌, refl, sym, ap, ◌∙◌, ℕ, ◌+◌, ◌-◌, ◌≤◌, true, false, inl, inr, Bool-cases, Option,
  none, some, List, [], ◌∷◌, ◌++◌, ◌==◌, ltb, if◌then◌else◌, Bytes, bytes_eq, bytes_eq→eq, length,
  drop, drop-length, drop-drop, All, arith, lt→ltb, length-append,
}
use ext_lsparrot.Base.Dict.{none≢some, Dict, find, find-put}
use ext_lsparrot.Symbols.{SymbolIndex, header_size, used, tombstone}
use ext_lsparrot.Symbols.Records.{Found, symbol_index_key, record_size}
use ext_lsparrot.Symbols.Arena.{
  rebuild_keys, index_lookup, lookup_from, take_candidate, keys_of, add_new,
}
use ext_lsparrot.Symbols.Encoding.{encode, live, bytes_of, IsRecord, AreAt, read_record-bytes}
use ext_lsparrot.Symbols.Adding.{IsIndex, HasKeysOf, length-bytes_of}
use ext_lsparrot.Symbols.Rebuild.{holds_sound, rebuild_keys-keys_of}

-- The first record that passes a test, and the first one with a key.
abbrev pub first_such : (Found → Bool) → List Found → Option Found
first_such test [] = none
first_such test (r ∷ rs) = if test r then some r else first_such test rs

abbrev pub has_this_key : Bytes → Found → Bool
has_this_key key r = bytes_eq (symbol_index_key r.kind r.fqcn) key

abbrev pub first_with : Bytes → List Found → Option Found
first_with key = first_such (has_this_key key)

abbrev pub offset_of : Option Found → Option ℕ
offset_of none = none
offset_of (some r) = some r.offset

find-add_new_there :
    (key j : Bytes) (offset o : ℕ) (keys : Dict ℕ)
    → find key keys ≡ some o
    → find key (add_new j offset keys) ≡ some o
unfolding add_new
find-add_new_there key j offset o keys there = elim (Bool-cases (bytes_eq j key)) [
  | inl same ↦
      let at : find j keys ≡ some o = rw (bytes_eq→eq j key same) there in rw (add_new, at) there
  | inr apart ↦ added (find j keys) refl apart
]
  where
    added :
        (now : Option ℕ)
        → find j keys ≡ now
        → bytes_eq j key ≡ false
        → find key (add_new j offset keys) ≡ some o
    added none e apart = rw (add_new, e, find-put j key offset keys, apart) there
    added (some p) e apart = rw (add_new, e) there

find-add_new_missing :
    (key j : Bytes) (offset : ℕ) (keys : Dict ℕ)
    → find key keys ≡ none
    → find key (add_new j offset keys) ≡ (if bytes_eq j key then some offset else none)
unfolding add_new
find-add_new_missing key j offset keys missing = added (find j keys) refl
  where
    added :
        (now : Option ℕ)
        → find j keys ≡ now
        → find key (add_new j offset keys) ≡ (if bytes_eq j key then some offset else none)
    added none e = rw (add_new, e, find-put j key offset keys, missing) refl
    added (some p) e = elim (Bool-cases (bytes_eq j key)) [
      | inl same ↦
          let at : find j keys ≡ none = rw (bytes_eq→eq j key same) missing in
          absurd (none≢some p (sym at ∙ e))
      | inr apart ↦ rw (add_new, e, missing, apart) refl
    ]

find-keys_of_there :
    (key : Bytes) (o : ℕ) (rs : List Found) (keys : Dict ℕ)
    → find key keys ≡ some o
    → find key (keys_of rs keys) ≡ some o
unfolding keys_of
find-keys_of_there key o [] keys there = there
find-keys_of_there key o (r ∷ rs) keys there =
    find-keys_of_there key o rs _
      (find-add_new_there key (symbol_index_key r.kind r.fqcn) r.offset o keys there)

pub find-keys_of :
    (key : Bytes) (rs : List Found) (keys : Dict ℕ)
    → find key keys ≡ none
    → find key (keys_of rs keys) ≡ offset_of (first_with key rs)
unfolding keys_of
find-keys_of key [] keys missing = missing
find-keys_of key (r ∷ rs) keys missing =
    let step = find-add_new_missing key (symbol_index_key r.kind r.fqcn) r.offset keys missing in
    elim (Bool-cases (bytes_eq (symbol_index_key r.kind r.fqcn) key)) [
      | inl same ↦ rw same (find-keys_of_there key r.offset rs _ (step ∙ rw same refl))
      | inr apart ↦ rw apart (find-keys_of key rs _ (step ∙ rw apart refl))
    ]

-- Where a record of the list stands in the arena.
abbrev pub StandsIn : ℕ → List Found → Found → Type 0
StandsIn offset rs r =
    (rest : Bytes) × (drop (r.offset - offset) (encode rs) ≡ bytes_of r ++ rest)
    × IsRecord r
    × (offset ≤ r.offset)
    × (r.offset + record_size r ≤ offset + length (encode rs))

StandsIn-later :
    (offset : ℕ) (x r : Found) (rs : List Found)
    → StandsIn (offset + record_size x) rs r
    → StandsIn offset (x ∷ rs) r
StandsIn-later offset x r rs (rest, at, texts, low, high) =
    let m = r.offset - (offset + record_size x) in
    let e : r.offset - offset ≡ length (bytes_of x) + m = omega (arith, length-bytes_of x, low) in
    (
      rest,
      rw
          (
            e,
            drop-drop (length (bytes_of x)) m (bytes_of x ++ encode rs),
            drop-length (bytes_of x) (encode rs),
          )
          at,
      texts,
      omega arith,
      omega (arith, length-append (bytes_of x) (encode rs), length-bytes_of x),
    )

StandsIn-first :
    (offset : ℕ) (x : Found) (rs : List Found)
    → x.offset ≡ offset
    → IsRecord x
    → StandsIn offset (x ∷ rs) x
StandsIn-first offset x rs at texts =
    let e : x.offset - offset ≡ 0 = omega arith in
    (
      encode rs,
      rw e refl,
      texts,
      omega arith,
      omega (arith, length-append (bytes_of x) (encode rs), length-bytes_of x),
    )

pub some_of : (a b : Found) → some a ≡ some b → a ≡ b
some_of a b e = cc

pub none_found : (r : Found) → none ≢ some r
none_found r e = cc

pub first_with-StandsIn :
    (key : Bytes) (offset : ℕ) (rs : List Found) (r : Found)
    → AreAt offset rs
    → All IsRecord rs
    → first_with key (live rs) ≡ some r
    → StandsIn offset rs r
first_with-StandsIn key offset [] r at texts found = absurd (none_found r found)
first_with-StandsIn key offset (x ∷ rs) r at texts found =
    let later = first_with-StandsIn key (offset + record_size x) rs r at.1 texts.1 in
    elim (Bool-cases (x.kind == tombstone)) [
      | inl gone ↦
          let e : live (x ∷ rs) ≡ live rs = rw gone refl in
          StandsIn-later offset x r rs (later (ap (first_with key) (sym e) ∙ found))
      | inr there ↦
          let e : live (x ∷ rs) ≡ x ∷ live rs = rw there refl in
          let found' : first_with key (x ∷ live rs) ≡ some r =
            ap (first_with key) (sym e) ∙ found in
          elim (Bool-cases (bytes_eq (symbol_index_key x.kind x.fqcn) key)) [
            | inl same ↦
                let f : first_with key (x ∷ live rs) ≡ some x = rw same refl in
                rw (sym (some_of x r (sym f ∙ found'))) (StandsIn-first offset x rs at.0 texts.0)
            | inr apart ↦
                let f : first_with key (x ∷ live rs) ≡ first_with key (live rs) = rw apart refl in
                StandsIn-later offset x r rs (later (sym f ∙ found'))
          ]
    ]

-- The candidate at the offset of a record is that record.
candidate :
    (index : SymbolIndex) (rs : List Found) (r : Found)
    → index.records ≡ encode rs
    → StandsIn header_size rs r
    → take_candidate index (some r.offset) none ≡ some r
unfolding take_candidate
candidate index rs r written (rest, at, texts, low, high) =
    let size : length index.records ≡ length (encode rs) = ap length written in
    let inside : ltb (r.offset + 1) (used index) ≡ true =
      lt→ltb (r.offset + 1) (used index) (omega (arith, size)) in
    rw (inside, written, at, read_record-bytes r rest texts) refl

by_first :
    (key : Bytes) (index : SymbolIndex) (rs : List Found)
    → IsIndex index rs
    → HasKeysOf index rs
    → (first : Option Found) → first_with key (live rs) ≡ first
    → take_candidate index (find key index.symbol_keys) none ≡ first
unfolding take_candidate find
by_first key index rs holds keys first found =
    let at : find key index.symbol_keys ≡ offset_of first =
      ap (find key) keys ∙ find-keys_of key (live rs) [] refl ∙ ap offset_of found in
    rw at (taken first found)
  where
    taken :
        (f : Option Found)
        → first_with key (live rs) ≡ f
        → take_candidate index (offset_of f) none ≡ f
    taken none e = refl
    taken (some r) e =
        candidate index rs r holds.written
          (first_with-StandsIn key header_size rs r holds.placed holds.texts e)

-- In an index that holds the records of a list, and their keys, a symbol of any kind but class is
-- looked up as the first record with its key that is no tombstone, and is not found where no record
-- has it.
pub index_lookup-first_with :
    (kind : ℕ) (fqcn : Bytes) (index : SymbolIndex) (rs : List Found)
    → IsIndex index rs
    → HasKeysOf index rs
    → kind == b'C' ≡ false
    → index_lookup kind fqcn index ≡ first_with (symbol_index_key kind fqcn) (live rs)
unfolding index_lookup lookup_from
index_lookup-first_with kind fqcn index rs holds keys not_class =
    rw (index_lookup, holds.ready, holds.keyed, holds_sound index rs holds, not_class)
      (by_first (symbol_index_key kind fqcn) index rs holds keys _ refl)

-- Whatever keys an index has that holds the records of a list: once they are rebuilt, each key leads to
-- the offset of the first record with it that is no tombstone, and a key that no such record has is not
-- there.
pub rebuild_keys-first_with :
    (index : SymbolIndex) (rs : List Found)
    → IsIndex index rs
    → (key : Bytes)
    → find key (rebuild_keys index).symbol_keys ≡ offset_of (first_with key (live rs))
unfolding find
rebuild_keys-first_with index rs holds key =
    ap (find key) (rebuild_keys-keys_of index rs holds) ∙ find-keys_of key (live rs) [] refl
