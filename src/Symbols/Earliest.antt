-- ===== src/Symbols/Earliest.antt =====
-- The lookup over several kinds (ext/lsp_server_symbols.c, `lsp_symbol_index_lookup`).
use ext_lsparrot.Base.{
  ◌≡◌, refl, ap, ◌∙◌, ℕ, ◌+◌, ◌-◌, Bool, true, ◌&&◌, ◌||◌, inl, inr, Bool-cases, Option, none, some,
  List, [], ltb, if◌then◌else◌, Bytes, length, drop, arith, lt→ltb,
}
use ext_lsparrot.Base.Dict.{find}
use ext_lsparrot.Symbols.{SymbolIndex, header_size, used}
use ext_lsparrot.Symbols.Records.{Found, symbol_index_key, read_record}
use ext_lsparrot.Symbols.Arena.{index_lookup, lookup_from, take_candidate, is_sound}
use ext_lsparrot.Symbols.Encoding.{encode, live, read_record-bytes}
use ext_lsparrot.Symbols.Adding.{IsIndex, HasKeysOf}
use ext_lsparrot.Symbols.Rebuild.{holds_sound}
use ext_lsparrot.Symbols.Lookup.{
  first_such, has_this_key, first_with, offset_of, StandsIn, first_with-StandsIn, find-keys_of,
}
use ext_lsparrot.Symbols.ClassLike.{pick, live-Increasing, pick_first}

candidate_after :
    (index : SymbolIndex) (rs : List Found) (r : Found) (best : Option Found)
    → index.records ≡ encode rs
    → StandsIn header_size rs r
    → take_candidate index (some r.offset) best ≡ pick best (some r)
unfolding take_candidate
candidate_after index rs r best written (rest, at, texts, low, high) =
    let size : length index.records ≡ length (encode rs) = ap length written in
    let inside : ltb (r.offset + 1) (used index) ≡ true =
      lt→ltb (r.offset + 1) (used index) (omega (arith, size)) in
    let read : read_record r.offset (drop (r.offset - header_size) index.records) ≡ some (r, rest) =
      rw (written, at) (read_record-bytes r rest texts) in
    by_best best inside read
  where
    by_best :
        (best : Option Found)
        → ltb (r.offset + 1) (used index) ≡ true
        → read_record r.offset (drop (r.offset - header_size) index.records) ≡ some (r, rest)
        → take_candidate index (some r.offset) best ≡ pick best (some r)
    by_best none inside read = rw (take_candidate, inside, read) refl
    by_best (some b) inside read = elim (Bool-cases (ltb r.offset b.offset)) [
      | inl before ↦ rw (take_candidate, inside, before, read) refl
      | inr behind ↦ rw (take_candidate, inside, behind) refl
    ]

-- The record has the key of the name as this kind.
abbrev pub is_of : Bytes → ℕ → Found → Bool
is_of fqcn kind = has_this_key (symbol_index_key kind fqcn)

guarded :
    (a b c : Bool) (x : Option Found)
    → a ≡ true
    → b ≡ true
    → c ≡ true
    → (if a && b && c then x else none) ≡ x
guarded a b c x ha hb hc = rw (ha, hb, hc) refl

module _ (index : SymbolIndex) (rs : List Found) (holds : IsIndex index rs)
    (keys : HasKeysOf index rs) where
  candidate_of :
      (key : Bytes) (best : Option Found)
      → take_candidate index (find key index.symbol_keys) best
        ≡ pick best (first_with key (live rs))
  unfolding take_candidate find
  candidate_of key best =
      let at : find key index.symbol_keys ≡ offset_of (first_with key (live rs)) =
        ap (find key) keys ∙ find-keys_of key (live rs) [] refl in
      rw at (taken (first_with key (live rs)) refl)
    where
      taken :
          (f : Option Found)
          → first_with key (live rs) ≡ f
          → take_candidate index (offset_of f) best ≡ pick best f
      taken none e = refl
      taken (some r) e =
          candidate_after index rs r best holds.written
            (first_with-StandsIn key header_size rs r holds.placed holds.texts e)

  pick-none : (f : Option Found) → pick none f ≡ f
  pick-none none = refl
  pick-none (some r) = refl

  -- One more kind that is probed.
  probe :
      (fqcn : Bytes) (kind : ℕ) (test : Found → Bool) (best : Option Found)
      → best ≡ first_such test (live rs)
      → take_candidate index (find (symbol_index_key kind fqcn) index.symbol_keys) best
        ≡ first_such (λ r. test r || is_of fqcn kind r) (live rs)
  probe fqcn kind test best e =
      candidate_of (symbol_index_key kind fqcn) best
      ∙ ap (λ b. pick b (first_with (symbol_index_key kind fqcn) (live rs))) e
      ∙ pick_first test (is_of fqcn kind) (live rs) (live-Increasing header_size rs holds.placed)

  -- In an index that holds the records of a list, and their keys, a class is looked up as the first
  -- record, tombstones left out, that has its key as a class, an interface, a trait or an enum, and
  -- is not found where there is none.
  pub index_lookup-class :
      (fqcn : Bytes)
      → index_lookup b'C' fqcn index
        ≡ first_such
            (λ r.
              ((is_of fqcn b'C' r || is_of fqcn b'I' r) || is_of fqcn b'T' r) || is_of fqcn b'E' r)
            (live rs)
  unfolding index_lookup lookup_from
  index_lookup-class fqcn =
      let found_class =
        candidate_of (symbol_index_key b'C' fqcn) none
        ∙ pick-none (first_with (symbol_index_key b'C' fqcn) (live rs)) in
      let found_interface = probe fqcn b'I' (is_of fqcn b'C') _ found_class in
      let found_trait =
        probe fqcn b'T' (λ r. is_of fqcn b'C' r || is_of fqcn b'I' r) _ found_interface in
      guarded index.available index.keys_initialized (is_sound index) _ holds.ready holds.keyed
        (holds_sound index rs holds)
      ∙ probe fqcn b'E' (λ r. (is_of fqcn b'C' r || is_of fqcn b'I' r) || is_of fqcn b'T' r) _
          found_trait
