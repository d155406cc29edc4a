-- ===== src/Semantic/Decode.antt =====
-- What a client reads off the tokens that ext/lsp_server_semantic_tokens.c collects: decoding them
-- gives back the marks of the document's tokens.
use ext_lsparrot.Base.{
  ℕ, zero, suc, ◌≡◌, refl, sym, ap, ◌∙◌, true, false, Option, none, some, Bytes, List, [], ◌∷◌,
  ◌++◌, append_assoc, append-nil, Bool-cases, inl, inr, length, ◌*◌, arith, if◌then◌else◌,
}
use ext_lsparrot.Base.Int.{ℤ, pos, ◌+ℤ◌, int_eq, add-sub}
use ext_lsparrot.Semantic.Classify.{Pass, first_pass}
use ext_lsparrot.Semantic.Collect.{
  Mark, Emitter, Bounds, semantic_emit, is_emitted, delta_line, delta_column, emit_in_bounds,
  in_bounds, collect_from, collect_tokens, collect, step, first_emitter, document_tokens,
}
use ext_lsparrot.Tokens.{Kind}
use ext_lsparrot.Server.{Document}
use ext_lsparrot.Zval.{Zval, Items, items_count, undef, null, bool, long, double, str, arr}

-- The protocol's reading of the flat table: each line is relative to the one before, and the column
-- too where the line is the same.
unfoldable pub read_deltas : ℤ → ℤ → List ℤ → List Mark
read_deltas line column (dl ∷ dc ∷ size ∷ type ∷ modifiers ∷ rest) =
    let line' = line +ℤ dl in
    let column' = if int_eq dl (pos 0) then column +ℤ dc else dc in
    record { line = line'; column = column'; size = size; type = type; modifiers = modifiers }
    ∷ read_deltas line' column' rest
read_deltas line column _ = []

abbrev pub decode : List ℤ → List Mark
decode = read_deltas (pos 0) (pos 0)

-- The marks of a document's tokens, in order.
unfoldable pub cons_mark : Option Mark → List Mark → List Mark
cons_mark none ms = ms
cons_mark (some m) ms = m ∷ ms

module _ (kind_of : ℤ → Kind) (text : Bytes) (tokens : Items) (count : ℕ) where
  unfoldable pub marks_from : ℕ → ℕ → Pass → List Mark
  unfolding cons_mark
  marks_from zero i p = []
  marks_from (suc left) i p =
      let (p', mark) = step kind_of text tokens count i p in
      cons_mark mark (marks_from left (suc i) p')

-- The marks within the bounds.
unfoldable pub within_bounds : Option Bounds → List Mark → List Mark
within_bounds bounds [] = []
within_bounds bounds (m ∷ ms) =
    let rest = within_bounds bounds ms in if in_bounds bounds (m.line) then m ∷ rest else rest

-- The marks that are emitted behind a position.
unfoldable pub emitted : ℤ → ℤ → List Mark → List Mark
emitted line column [] = []
emitted line column (m ∷ ms) =
    let here = m ∷ emitted (m.line) (m.column) ms in
    let later = emitted line column ms in if is_emitted line column m then here else later

unfoldable pub emit_all : List Mark → Emitter → Emitter
emit_all [] e = e
emit_all (m ∷ ms) e = emit_all ms (semantic_emit m e)

emit_all-emit_in_bounds :
    (bounds : Option Bounds) (mark : Option Mark) (ms : List Mark) (e : Emitter)
    → emit_all (within_bounds bounds ms) (emit_in_bounds bounds mark e)
      ≡ emit_all (within_bounds bounds (cons_mark mark ms)) e
unfolding emit_all within_bounds cons_mark emit_in_bounds
emit_all-emit_in_bounds bounds none ms e = refl
emit_all-emit_in_bounds bounds (some m) ms e = elim (Bool-cases (in_bounds bounds (m.line))) [
  | inl inside ↦ rw inside refl
  | inr outside ↦ rw outside refl
]

collect_from-emit_all :
    (kind_of : ℤ → Kind) (text : Bytes) (tokens : Items) (count : ℕ) (bounds : Option Bounds)
    (left i : ℕ) (p : Pass) (e : Emitter)
    → collect_from kind_of text tokens count bounds left i p e
      ≡ emit_all (within_bounds bounds (marks_from kind_of text tokens count left i p)) e
unfolding collect_from emit_all within_bounds marks_from
collect_from-emit_all kind_of text tokens count bounds zero i p e = refl
collect_from-emit_all kind_of text tokens count bounds (suc left) i p e =
    let (p', mark) = step kind_of text tokens count i p in
    collect_from-emit_all kind_of text tokens count bounds left (suc i) p'
      (emit_in_bounds bounds mark e)
    ∙ emit_all-emit_in_bounds bounds mark (marks_from kind_of text tokens count left (suc i) p') e

-- The numbers that are written for the marks behind a position.
unfoldable pub encode : ℤ → ℤ → List Mark → List ℤ
encode line column [] = []
encode line column (m ∷ ms) =
    let here =
      delta_line line m
      ∷ delta_column line column m
      ∷ m.size
      ∷ m.type
      ∷ m.modifiers
      ∷ encode (m.line) (m.column) ms in
    let later = encode line column ms in if is_emitted line column m then here else later

emit_here :
    (m : Mark) (e : Emitter)
    → is_emitted (e.previous_line) (e.previous_column) m ≡ true
    → semantic_emit m e ≡ record {
      flat =
          e.flat
          ++ (delta_line (e.previous_line) m
              ∷ delta_column (e.previous_line) (e.previous_column) m
              ∷ m.size
              ∷ m.type
              ∷ m.modifiers
              ∷ []);
      previous_line = m.line;
      previous_column = m.column;
    }
unfolding semantic_emit
emit_here m e here = rw here refl

emit_not :
    (m : Mark) (e : Emitter)
    → is_emitted (e.previous_line) (e.previous_column) m ≡ false
    → semantic_emit m e ≡ e
unfolding semantic_emit
emit_not m e later = rw later refl

emit_all-encode :
    (ms : List Mark) (e : Emitter)
    → (emit_all ms e).flat ≡ e.flat ++ encode (e.previous_line) (e.previous_column) ms
unfolding emit_all encode
emit_all-encode [] e = sym (append-nil (e.flat))
emit_all-encode (m ∷ ms) e =
    elim (Bool-cases (is_emitted (e.previous_line) (e.previous_column) m)) [
      | inl here ↦ rw here (
          emit_all-encode ms (semantic_emit m e)
          ∙ rw (emit_here m e here) (append_assoc (e.flat) _ (encode (m.line) (m.column) ms)))
      | inr later ↦
          ap (λ (e' : Emitter). (emit_all ms e').flat) (emit_not m e later)
          ∙ (rw later (emit_all-encode ms e))
    ]

column_back :
    (line column : ℤ) (m : Mark)
    → (if int_eq (delta_line line m) (pos 0)
        then column +ℤ delta_column line column m
        else delta_column line column m)
      ≡ m.column
unfolding delta_column
column_back line column m = elim (Bool-cases (int_eq (delta_line line m) (pos 0))) [
  | inl same ↦ rw same (add-sub column (m.column))
  | inr apart ↦ rw apart refl
]

line_back : (line : ℤ) (m : Mark) → line +ℤ delta_line line m ≡ m.line
unfolding delta_line
line_back line m = add-sub line (m.line)

-- Decoding what is written for the marks gives those that are emitted.
read_deltas-encode :
    (line column : ℤ) (ms : List Mark)
    → read_deltas line column (encode line column ms) ≡ emitted line column ms
unfolding read_deltas encode emitted
read_deltas-encode line column [] = refl
read_deltas-encode line column (m ∷ ms) = elim (Bool-cases (is_emitted line column m)) [
  | inl here ↦ rw here (
      rw (line_back line m, column_back line column m)
        (ap (λ (rest : List Mark). m ∷ rest) (read_deltas-encode (m.line) (m.column) ms)))
  | inr later ↦ rw later (read_deltas-encode line column ms)
]

-- The marks of a document.
unfoldable pub token_marks : (ℤ → Kind) → Bytes → Option Zval → List Mark
unfolding marks_from
token_marks kind_of text (some (arr tokens)) =
    marks_from kind_of text tokens (items_count tokens) (items_count tokens) 0 first_pass
token_marks kind_of text _ = []

unfoldable pub document_marks : (ℤ → Kind) → Document → List Mark
unfolding token_marks
document_marks kind_of d = token_marks kind_of (d.text) (document_tokens d)

collect_tokens-encode :
    (kind_of : ℤ → Kind) (text : Bytes) (tokens : Option Zval) (bounds : Option Bounds)
    → collect_tokens kind_of text tokens bounds
      ≡ encode (pos 0) (pos 0) (within_bounds bounds (token_marks kind_of text tokens))
unfolding collect_tokens token_marks within_bounds encode
collect_tokens-encode kind_of text (some (arr tokens)) bounds =
    ap (λ (e : Emitter). e.flat)
      (collect_from-emit_all kind_of text tokens (items_count tokens) bounds (items_count tokens) 0
        first_pass first_emitter)
    ∙ emit_all-encode _ first_emitter
collect_tokens-encode kind_of text (some undef) bounds = refl
collect_tokens-encode kind_of text (some null) bounds = refl
collect_tokens-encode kind_of text (some (bool b)) bounds = refl
collect_tokens-encode kind_of text (some (long n)) bounds = refl
collect_tokens-encode kind_of text (some (double x)) bounds = refl
collect_tokens-encode kind_of text (some (str x)) bounds = refl
collect_tokens-encode kind_of text none bounds = refl

-- The tokens that a client decodes from a reply are the marks of the document within the bounds,
-- less those without length or type and those that stand before the one emitted last.
pub decode-collect :
    (kind_of : ℤ → Kind) (d : Document) (bounds : Option Bounds)
    → decode (collect kind_of d bounds)
      ≡ emitted (pos 0) (pos 0) (within_bounds bounds (document_marks kind_of d))
unfolding collect document_marks
decode-collect kind_of d bounds =
    ap decode (collect_tokens-encode kind_of (d.text) (document_tokens d) bounds)
    ∙ read_deltas-encode (pos 0) (pos 0) _

encode-groups :
    (line column : ℤ) (ms : List Mark) → (n : ℕ) × (length (encode line column ms) ≡ n * 5)
unfolding encode
encode-groups line column [] = (0, refl)
encode-groups line column (m ∷ ms) = elim (Bool-cases (is_emitted line column m)) [
  | inl here ↦
      let (n, e) = encode-groups (m.line) (m.column) ms in (suc n, rw here (omega (arith, e)))
  | inr later ↦ let (n, e) = encode-groups line column ms in (n, rw later e)
]

-- A reply holds five numbers for each token.
pub collect-groups :
    (kind_of : ℤ → Kind) (d : Document) (bounds : Option Bounds)
    → (n : ℕ) × (length (collect kind_of d bounds) ≡ n * 5)
unfolding collect
collect-groups kind_of d bounds =
    let (n, e) =
      encode-groups (pos 0) (pos 0)
        (within_bounds bounds (token_marks kind_of (d.text) (document_tokens d))) in
    (n, ap length (collect_tokens-encode kind_of (d.text) (document_tokens d) bounds) ∙ e)
