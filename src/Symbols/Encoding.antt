-- ===== src/Symbols/Encoding.antt =====
-- The walk over an arena that holds the records of a list (ext/lsp_server_symbols.c).
use ext_lsparrot.Base.{
  ◌≡◌, ◌≢◌, refl, sym, ℕ, ◌+◌, some, List, [], ◌∷◌, ◌++◌, ◌==◌, if◌then◌else◌, Bytes, length, All,
  append_assoc, arith,
}
use ext_lsparrot.Symbols.{tombstone}
use ext_lsparrot.Symbols.Records.{read_string, read_record, Found, walk, record_size}
use ext_lsparrot.Symbols.Arena.{record_bytes}

-- A string that C can hold.
abbrev pub IsText : Bytes → Type 0
IsText = All (λ c. c ≢ 0)

abbrev pub bytes_of : Found → Bytes
bytes_of r = record_bytes r.kind r.fqcn r.path

abbrev pub IsRecord : Found → Type 0
IsRecord r = IsText r.fqcn × IsText r.path

abbrev pub encode : List Found → Bytes
encode [] = []
encode (r ∷ rs) = bytes_of r ++ encode rs

-- The records stand one behind the other from the offset on.
abbrev pub AreAt : ℕ → List Found → Type 0
AreAt offset [] = Unit
AreAt offset (r ∷ rs) = (r.offset ≡ offset) × AreAt (offset + record_size r) rs

abbrev pub live : List Found → List Found
live [] = []
live (r ∷ rs) = if r.kind == tombstone then live rs else r ∷ live rs

read_string-text :
    (text rest : Bytes) → IsText text → read_string (text ++ 0 ∷ rest) ≡ some (text, rest)
unfolding read_string
read_string-text [] rest h = refl
read_string-text (c ∷ text) rest h = ground (arith, read_string-text text rest h.1)

pub record_bytes_append :
    (kind : ℕ) (fqcn path rest : Bytes)
    → record_bytes kind fqcn path ++ rest ≡ kind ∷ (fqcn ++ 0 ∷ (path ++ 0 ∷ rest))
unfolding record_bytes
record_bytes_append kind fqcn path rest =
    rw (append_assoc fqcn (0 ∷ (path ++ 0 ∷ [])) rest, append_assoc path (0 ∷ []) rest) refl

pub read_record-bytes :
    (r : Found) (rest : Bytes)
    → IsRecord r
    → read_record r.offset (bytes_of r ++ rest) ≡ some (r, rest)
unfolding read_record
read_record-bytes r rest h =
    rw
      (
        record_bytes_append r.kind r.fqcn r.path rest,
        read_record,
        read_string-text r.fqcn (r.path ++ 0 ∷ rest) h.0,
        read_string-text r.path rest h.1,
      )
      refl

-- Walking over the records of a list as they are written gives back exactly those that are no
-- tombstones, with their offsets, in order; names and paths hold no NUL, and the offsets are those
-- of records one behind the other.
pub walk-encode :
    (offset : ℕ) (rs : List Found)
    → AreAt offset rs
    → All IsRecord rs
    → walk (length rs) offset (encode rs) ≡ live rs
unfolding walk
walk-encode offset [] at texts = refl
walk-encode offset (r ∷ rs) at texts =
    let read : read_record offset (bytes_of r ++ encode rs) ≡ some (r, encode rs) =
      rw (sym at.0) (read_record-bytes r (encode rs) texts.0) in
    rw (walk, read, walk-encode (offset + record_size r) rs at.1 texts.1) refl
