-- ===== src/Symbols/Tests.antt =====
-- Inputs for the theorems about the symbol index, and runs of its definitions.
use ext_lsparrot.Base.Dict.{put, find}
use ext_lsparrot.Base.{
  ◌||◌, ◌&&◌, not, bytes_eq, arith, ◌≡◌, ◌⊎◌, refl, List, [], ◌∷◌, ◌++◌, Bytes, codes, some, none,
  true, false, Bool, length, All, ◌==◌,
}
use ext_lsparrot.Symbols.{SymbolIndex, header_size}
use ext_lsparrot.Symbols.Records.{entry_of, read_string, read_record, Found, walk, symbol_index_key}
use ext_lsparrot.Symbols.Arena.{
  add_new, table_ensure, record_bytes, keys_of, index_init, add_symbol_kind, is_refused,
  rebuild_keys, index_lookup, index_walk,
}
use ext_lsparrot.Symbols.Remove.{entry_path, remove_path}
use ext_lsparrot.Symbols.Encoding.{IsText, IsRecord, encode, AreAt, live, walk-encode}
use ext_lsparrot.Symbols.Adding.{IsIndex, HasKeysOf, new_record, add_symbol_kind_lem}
use ext_lsparrot.Symbols.Lookup.{first_such}
use ext_lsparrot.Symbols.Earliest.{is_of, index_lookup-class}
use ext_lsparrot.Symbols.Removing.{bury_all}
use ext_lsparrot.Symbols.Burying.{of_file, without_file, empty, hidden, shown}
use ext_lsparrot.Symbols.Removed.{HasTableOf, remove_path_lem}
use mathlib.Core.Logic.{inr}
use ext_lsparrot.Symbols.Lookup.{
  first_with, offset_of, index_lookup-first_with, rebuild_keys-first_with,
}

-- A function, and a record that was removed.
abbrev run_it : Found
run_it = record { offset = 40; kind = b'F'; fqcn = codes "App\\run"; path = codes "/a.php" }

abbrev removed : Found
removed = record { offset = 56; kind = b'!'; fqcn = codes "App\\old"; path = codes "/b.php" }

pair_AreAt : AreAt header_size (run_it ∷ removed ∷ [])
pair_AreAt = (refl, (refl, tt))

abbrev pair : List Found
pair = run_it ∷ removed ∷ []

abbrev no_nul : Bytes → Bool
no_nul [] = true
no_nul (c ∷ text) = not (c == 0) && no_nul text

no_nul-IsText : (text : Bytes) → no_nul text ≡ true → IsText text
no_nul-IsText [] h = tt
no_nul-IsText (c ∷ text) h = ground (arith, no_nul-IsText text)

pair_texts : All IsRecord pair
pair_texts = (
  (no_nul-IsText (codes "App\\run") refl, no_nul-IsText (codes "/a.php") refl),
  ((no_nul-IsText (codes "App\\old") refl, no_nul-IsText (codes "/b.php") refl), tt),
)

walk-encode_example : walk (length pair) header_size (encode pair) ≡ live pair
walk-encode_example = walk-encode header_size pair pair_AreAt pair_texts

abbrev holder : SymbolIndex
holder = record (index_init 0) {
  symbol_keys = (codes "Fapp\\run", 40) ∷ [];
  symbol_count = 2;
  records = encode pair;
  table = some (entry_of run_it ∷ record (entry_of removed) { kind = b'C'; deleted = true } ∷ []);
}

-- The table that an earlier removal leaves.
holder-HasTableOf : HasTableOf holder pair
holder-HasTableOf = inr (
  entry_of run_it ∷ record (entry_of removed) { kind = b'C'; deleted = true } ∷ [],
  refl,
  shown run_it refl (hidden removed b'C' refl empty),
)

holder-IsIndex : IsIndex holder pair
unfolding index_init record_bytes
holder-IsIndex = record {
  written = refl;
  counted = refl;
  placed = pair_AreAt;
  texts = pair_texts;
  ready = refl;
  keyed = refl;
  known = refl;
  fits = omega arith;
  small = omega arith;
}

holder-HasKeysOf : HasKeysOf holder pair
unfolding keys_of add_new find put symbol_index_key
holder-HasKeysOf = refl

add_symbol_kind_lem_example :
    (is_refused b'F' (codes "go") none holder ≡ true
      × (add_symbol_kind b'F' (codes "go") none holder ≡ (false, holder)))
    ⊎ (((add_symbol_kind b'F' (codes "go") none holder).0 ≡ true)
        × IsIndex
            (add_symbol_kind b'F' (codes "go") none holder).1
            (pair ++ new_record holder b'F' (codes "go") [] ∷ [])
        × HasKeysOf
            (add_symbol_kind b'F' (codes "go") none holder).1
            (pair ++ new_record holder b'F' (codes "go") [] ∷ []))
add_symbol_kind_lem_example =
    add_symbol_kind_lem b'F' (codes "go") none holder pair holder-IsIndex refl
      (no_nul-IsText (codes "go") refl) tt (omega arith) holder-HasKeysOf

rebuild_keys-first_with_example :
    find (codes "Fapp\\run") (rebuild_keys holder).symbol_keys
    ≡ offset_of (first_with (codes "Fapp\\run") (live pair))
rebuild_keys-first_with_example =
    rebuild_keys-first_with holder pair holder-IsIndex (codes "Fapp\\run")

index_lookup-first_with_example :
    index_lookup b'F' (codes "App\\Run") holder
    ≡ first_with (symbol_index_key b'F' (codes "App\\Run")) (live pair)
index_lookup-first_with_example =
    index_lookup-first_with b'F' (codes "App\\Run") holder pair holder-IsIndex holder-HasKeysOf refl

-- The name is found whatever its case.
run_is_found : first_with (symbol_index_key b'F' (codes "App\\Run")) (live pair) ≡ some run_it
unfolding symbol_index_key bytes_eq
run_is_found = refl

-- Removing a file removes its record only.
removal : (remove_path (codes "/a.php") holder).1 ≡ 1
unfolding remove_path table_ensure index_walk walk read_record read_string bytes_eq index_init
    entry_path record_bytes
removal = refl

remove_path_lem_example :
    ((remove_path (codes "/a.php") holder).1 ≡ of_file (codes "/a.php") (live pair))
    × (index_walk (remove_path (codes "/a.php") holder).0
        ≡ without_file (codes "/a.php") (live pair))
    × IsIndex (remove_path (codes "/a.php") holder).0 (bury_all (codes "/a.php") pair)
    × HasTableOf (remove_path (codes "/a.php") holder).0 (bury_all (codes "/a.php") pair)
remove_path_lem_example =
    remove_path_lem (codes "/a.php") holder pair holder-IsIndex holder-HasTableOf

index_lookup-class_example :
    index_lookup b'C' (codes "App\\Run") holder
    ≡ first_such
        (λ r.
          ((is_of (codes "App\\Run") b'C' r || is_of (codes "App\\Run") b'I' r)
            || is_of (codes "App\\Run") b'T' r)
          || is_of (codes "App\\Run") b'E' r)
        (live pair)
index_lookup-class_example =
    index_lookup-class holder pair holder-IsIndex holder-HasKeysOf (codes "App\\Run")
