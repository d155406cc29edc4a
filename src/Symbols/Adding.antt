-- ===== src/Symbols/Adding.antt =====
-- Adding a symbol (ext/lsp_server_symbols.c, `lsp_symbol_index_add_symbol_kind`).
use ext_lsparrot.Base.{
  ◌≡◌, ◌≢◌, refl, sym, ap, ◌∙◌, ℕ, ◌+◌, ◌*◌, ◌%◌, ◌^◌, ◌≤◌, ◌<◌, Bool, true, false, not, ◌||◌, ◌⊎◌,
  inl, inr, Bool-cases, Option, List, [], ◌∷◌, ◌++◌, ◌==◌, Bytes, codes, length, All, All-append,
  append_assoc, append-nil, length-append, arith, leb, leb→le,
}
use ext_lsparrot.Symbols.{SymbolIndex, header_size, used, tombstone, index_magic}
use ext_lsparrot.Symbols.Records.{Found, record_size, contains_segment}
use ext_lsparrot.Symbols.Arena.{
  record_bytes, add_symbol_kind, is_refused, path_bytes, add_key, has_key, keys_of,
  table_invalidate,
}
use ext_lsparrot.Symbols.Encoding.{IsText, bytes_of, IsRecord, encode, AreAt, live}

-- The arena holds the records of the list, and the index is in use.
pub record IsIndex (index : SymbolIndex) (rs : List Found) : Type 0 where
  pub written : index.records ≡ encode rs
  pub counted : index.symbol_count ≡ length rs
  pub placed : AreAt header_size rs
  pub texts : All IsRecord rs
  pub ready : index.available ≡ true
  pub keyed : index.keys_initialized ≡ true
  pub known : index.magic ≡ index_magic
  pub fits : used index ≤ index.capacity
  pub small : index.capacity < 2 ^ 32

-- The keys are those of the live records, each with the offset of the first record that has it.
abbrev pub HasKeysOf : SymbolIndex → List Found → Type 0
HasKeysOf index rs = index.symbol_keys ≡ keys_of (live rs) []

-- The record that is written for a symbol.
abbrev pub new_record : SymbolIndex → ℕ → Bytes → Bytes → Found
new_record index kind fqcn path = record {
  offset = used index;
  kind = kind;
  fqcn = fqcn;
  path = path;
}

pub length-bytes_of : (r : Found) → length (bytes_of r) ≡ record_size r
unfolding record_bytes
length-bytes_of r =
    omega (arith, length-append r.fqcn (0 ∷ (r.path ++ 0 ∷ [])), length-append r.path (0 ∷ []))

encode-append : (rs : List Found) (r : Found) → encode (rs ++ r ∷ []) ≡ encode rs ++ bytes_of r
encode-append [] r = append-nil (bytes_of r)
encode-append (x ∷ rs) r =
    rw (encode-append rs r, append_assoc (bytes_of x) (encode rs) (bytes_of r)) refl

AreAt-append :
    (offset : ℕ) (rs : List Found) (r : Found)
    → AreAt offset rs
    → r.offset ≡ offset + length (encode rs)
    → AreAt offset (rs ++ r ∷ [])
AreAt-append offset [] r at e = (omega arith, tt)
AreAt-append offset (x ∷ rs) r at e = (
  at.0,
  AreAt-append (offset + record_size x) rs r at.1
      (omega (arith, length-append (bytes_of x) (encode rs), length-bytes_of x)),
)

pub live-append : (rs ss : List Found) → live (rs ++ ss) ≡ live rs ++ live ss
live-append [] ss = refl
live-append (r ∷ rs) ss = elim (Bool-cases (r.kind == tombstone)) [
  | inl gone ↦ rw (gone, live-append rs ss) refl
  | inr there ↦ rw (there, live-append rs ss) refl
]

pub keys_of-append :
    (rs ss : List Found) (keys : _) → keys_of (rs ++ ss) keys ≡ keys_of ss (keys_of rs keys)
unfolding keys_of
keys_of-append [] ss keys = refl
keys_of-append (r ∷ rs) ss keys = keys_of-append rs ss _

three_each : (rs : List Found) → 3 * length rs ≤ length (encode rs)
three_each [] = omega arith
three_each (r ∷ rs) =
    omega (arith, three_each rs, length-append (bytes_of r) (encode rs), length-bytes_of r)

true≢false : true ≢ false
true≢false e = cc

-- The last of the tests that refuse.
last_false : (a b c d e : Bool) → (a || b || c || d || not e) ≡ false → e ≡ true
last_false false false false false true h = refl
last_false false false false false false h = sym h
last_false false false false true e h = absurd (true≢false h)
last_false false false true d e h = absurd (true≢false h)
last_false false true c d e h = absurd (true≢false h)
last_false true b c d e h = absurd (true≢false h)

-- What is stored fits.
refused_fits :
    (kind : ℕ) (fqcn : Bytes) (path : Option Bytes) (index : SymbolIndex)
    → used index ≤ index.capacity
    → index.capacity < 2 ^ 32
    → length fqcn + length (path_bytes path) < 2 ^ 62
    → is_refused kind fqcn path index ≡ false
    → used index + (3 + length fqcn + length (path_bytes path)) ≤ index.capacity
unfolding is_refused
refused_fits kind fqcn path index fits small short h =
    let need = used index + (3 + length fqcn + length (path_bytes path)) in
    let e : leb (need % 2 ^ 64) index.capacity ≡ true =
      last_false (not index.available) (not (index.magic == index_magic))
        (contains_segment (path_bytes path) (codes ".lsparrot")) (has_key kind fqcn index)
        (leb (need % 2 ^ 64) index.capacity) h in
    omega (arith, leb→le (need % 2 ^ 64) index.capacity e)

module _ (kind : ℕ) (fqcn : Bytes) (path : Option Bytes) (index : SymbolIndex) (rs : List Found)
    (holds : IsIndex index rs) (not_tombstone : (kind == tombstone) ≡ false)
    (name_is_text : IsText fqcn) (path_is_text : IsText (path_bytes path))
    (short : length fqcn + length (path_bytes path) < 2 ^ 62) where
  abbrev pub added : List Found
  added = rs ++ new_record index kind fqcn (path_bytes path) ∷ []

  stored-IsIndex :
      is_refused kind fqcn path index ≡ false
      → IsIndex (add_symbol_kind kind fqcn path index).1 added
  unfolding add_symbol_kind add_key table_invalidate
  stored-IsIndex taken =
      let r = new_record index kind fqcn (path_bytes path) in
      let room = refused_fits kind fqcn path index holds.fits holds.small short taken in
      let size : length index.records ≡ length (encode rs) = ap length holds.written in
      rw (add_symbol_kind, taken)
        (record {
          written = ap (λ b. b ++ bytes_of r) holds.written ∙ sym (encode-append rs r);
          counted = omega (
            arith,
            size,
            three_each rs,
            holds.counted,
            holds.fits,
            holds.small,
            length-append rs (r ∷ []),
          );
          placed = AreAt-append header_size rs r holds.placed (omega (arith, size));
          texts = All-append IsRecord rs (r ∷ []) holds.texts ((name_is_text, path_is_text), tt);
          ready = holds.ready;
          keyed = holds.keyed;
          known = holds.known;
          fits = omega (arith, room, length-append index.records (bytes_of r), length-bytes_of r);
          small = holds.small;
        })

  stored-HasKeysOf :
      is_refused kind fqcn path index ≡ false
      → HasKeysOf index rs
      → HasKeysOf (add_symbol_kind kind fqcn path index).1 added
  unfolding add_symbol_kind add_key table_invalidate keys_of
  stored-HasKeysOf taken keys =
      let r = new_record index kind fqcn (path_bytes path) in
      rw
        (
          add_symbol_kind,
          taken,
          add_key,
          holds.keyed,
          live-append rs (r ∷ []),
          not_tombstone,
          keys_of-append (live rs) (r ∷ []) [],
          sym keys,
        )
        refl

  -- An index that holds the records of a list, and their keys, is unchanged where a symbol is
  -- refused, and else holds those records and behind them the symbol's, with the keys of all of
  -- them; the kind is no tombstone, the name and the path hold no NUL and are together shorter than
  -- 2^62 bytes.
  pub add_symbol_kind_lem :
      HasKeysOf index rs
      → (is_refused kind fqcn path index ≡ true
          × (add_symbol_kind kind fqcn path index ≡ (false, index)))
        ⊎ (((add_symbol_kind kind fqcn path index).0 ≡ true)
            × IsIndex (add_symbol_kind kind fqcn path index).1 added
            × HasKeysOf (add_symbol_kind kind fqcn path index).1 added)
  unfolding add_symbol_kind
  add_symbol_kind_lem keys = elim (Bool-cases (is_refused kind fqcn path index)) [
    | inl taken ↦ inl (taken, rw (add_symbol_kind, taken) refl)
    | inr free ↦
        inr (rw (add_symbol_kind, free) refl, stored-IsIndex free, stored-HasKeysOf free keys)
  ]
