-- ===== src/Semantic/Collect.antt =====
-- The loop over the tokens of a document, ext/lsp_server_semantic_tokens.c:
-- `lsp_semantic_tokens_collect` and `lsp_semantic_emit`.
use ext_lsparrot.Base.{
  ℕ, zero, suc, Bool, true, false, not, ◌&&◌, ◌||◌, Option, none, some, Bytes, List, [], ◌∷◌, ◌++◌,
  codes, length, leb, if◌then◌else◌,
}
use ext_lsparrot.Base.Int.{ℤ, pos, is_neg, ◌+ℤ◌, ◌-ℤ◌, int_eq, int_leb, size_cast}
use ext_lsparrot.Position.{byte_offset_to_utf16_units}
use ext_lsparrot.Semantic.Classify.{
  Pass, Verdict, none_type, first_pass, track_parens, track_braces, classify,
}
use ext_lsparrot.Tokens.{
  Kind, char, is_char, id_is_string, id_is_significant, token_at, token_id, t_comment,
  t_doc_comment, t_whitespace, t_open_tag, t_close_tag, t_inline_html,
}
use ext_lsparrot.Semantic.Modifiers.{token_column}
use ext_lsparrot.Server.{Document}
use ext_lsparrot.Zval.{Zval, Items, arr, items_count, array_find, array_long, array_string}

-- The arguments of `lsp_semantic_emit`.
pub record Mark : Type 0 where
  pub line : ℤ
  pub column : ℤ
  pub size : ℤ
  pub type : ℤ
  pub modifiers : ℤ

pub record Emitter : Type 0 where
  pub flat : List ℤ
  pub previous_line : ℤ
  pub previous_column : ℤ

unfoldable pub first_emitter : Emitter
first_emitter = record { flat = []; previous_line = pos 0; previous_column = pos 0 }

unfoldable pub delta_line : ℤ → Mark → ℤ
delta_line previous_line m = m.line -ℤ previous_line

unfoldable pub delta_column : ℤ → ℤ → Mark → ℤ
unfolding delta_line
delta_column previous_line previous_column m =
    if int_eq (delta_line previous_line m) (pos 0) then m.column -ℤ previous_column else m.column

-- The two early returns: no length or no type, or a position before the last one.
unfoldable pub is_emitted : ℤ → ℤ → Mark → Bool
unfolding delta_line delta_column
is_emitted previous_line previous_column m =
    not (int_leb (m.size) (pos 0) || int_eq (m.type) none_type)
    && not (
        is_neg (delta_line previous_line m)
        || is_neg (delta_column previous_line previous_column m))

-- `lsp_semantic_emit`
unfoldable pub semantic_emit : Mark → Emitter → Emitter
unfolding is_emitted
semantic_emit m e =
    if is_emitted (e.previous_line) (e.previous_column) m
    then record {
      flat =
          e.flat
          ++ (delta_line (e.previous_line) m
              ∷ delta_column (e.previous_line) (e.previous_column) m
              ∷ m.size
              ∷ m.type
              ∷ m.modifiers
              ∷ []);
      previous_line = m.line;
      previous_column = m.column;
    }
    else e

-- The tokens that the loop passes over at once.
unfoldable pub is_skipped : Kind → Bool
is_skipped t_comment = true
is_skipped t_doc_comment = true
is_skipped t_whitespace = true
is_skipped t_open_tag = true
is_skipped t_close_tag = true
is_skipped t_inline_html = true
is_skipped _ = false

-- The delimiters at which a context ends.
unfoldable pub ends_context : Kind → Bool
ends_context id =
    is_char b';' id || is_char b'{' id || is_char b'(' id || is_char b')' id || is_char b'=' id

-- The length in UTF-16 units, if the token lies in the text.
unfoldable pub token_length : Bytes → ℤ → ℤ → ℤ
token_length text offset size =
    if leb (size_cast (offset +ℤ size)) (length text)
    then pos (byte_offset_to_utf16_units text (size_cast offset) (size_cast (offset +ℤ size)))
    else size

-- `has_bounds`, `line_start` and `line_end`
pub record Bounds : Type 0 where
  pub line_start : ℤ
  pub line_end : ℤ

unfoldable pub in_bounds : Option Bounds → ℤ → Bool
in_bounds none line = true
in_bounds (some b) line = int_leb (b.line_start) line && int_leb line (b.line_end)

unfoldable pub emit_in_bounds : Option Bounds → Option Mark → Emitter → Emitter
unfolding in_bounds semantic_emit
emit_in_bounds bounds none e = e
emit_in_bounds bounds (some m) e = if in_bounds bounds (m.line) then semantic_emit m e else e

unfoldable pub end_statement : Kind → Pass → Pass
unfolding ends_context
end_statement id p = if ends_context id then record p { context_id = char 0 } else p

unfoldable pub remember : Kind → Pass → Pass
unfolding id_is_significant
remember id p = if id_is_significant id then record p { previous_id = id } else p

-- What the token asks to be emitted: nothing where it has no type.
unfoldable pub mark_of : Bytes → Zval → Verdict → Option Mark
unfolding token_length token_column
mark_of text token v =
    let offset = array_long (some token) (codes "offset") (pos 0) in
    if int_eq (v.type) none_type
    then none
    else some (record {
      line = array_long (some token) (codes "line") (pos 1) -ℤ pos 1;
      column = pos (token_column text (size_cast offset));
      size = token_length text offset (array_long (some token) (codes "length") (pos 0));
      type = v.type;
      modifiers = pos (v.modifiers);
    })

module _ (kind_of : ℤ → Kind) (text : Bytes) (tokens : Items) (count : ℕ) where
  -- The body of the loop at a token that is not passed over.
  unfoldable pub visit : Kind → Zval → ℕ → Pass → Pass × Option Mark
  unfolding end_statement remember mark_of classify track_parens track_braces
  visit id token i p =
      let v =
        classify kind_of tokens count id i (array_string (some token) (codes "text"))
          (track_braces id (track_parens id p)) in
      (remember id (end_statement id (v.pass)), mark_of text token v)

  -- The body of the loop.
  unfoldable pub step : ℕ → Pass → Pass × Option Mark
  unfolding token_at token_id visit is_skipped id_is_string
  step i p = elim (token_at tokens i) [
    | none ↦ (p, none)
    | some token ↦
        let id = token_id kind_of token in
        if is_skipped id
        then (p, none)
        else if id_is_string id
        then (record p { previous_id = id }, none)
        else visit id token i p
  ]

  -- The loop; the first argument is `count - i`.
  unfoldable pub collect_from : Option Bounds → ℕ → ℕ → Pass → Emitter → Emitter
  unfolding step emit_in_bounds
  collect_from bounds zero i p e = e
  collect_from bounds (suc left) i p e =
      let (p', mark) = step i p in
      collect_from bounds left (suc i) p' (emit_in_bounds bounds mark e)

-- The `tokens` of the document's parse result; what is no array has none.
unfoldable pub document_tokens : Document → Option Zval
document_tokens d = array_find (some (d.lsparrot)) (codes "tokens")

unfoldable pub collect_tokens : (ℤ → Kind) → Bytes → Option Zval → Option Bounds → List ℤ
unfolding collect_from first_pass first_emitter
collect_tokens kind_of text (some (arr tokens)) bounds =
    (collect_from kind_of text tokens (items_count tokens) bounds (items_count tokens) 0 first_pass
      first_emitter).flat
collect_tokens kind_of text _ bounds = []

-- `lsp_semantic_tokens_collect`
unfoldable pub collect : (ℤ → Kind) → Document → Option Bounds → List ℤ
unfolding document_tokens collect_tokens
collect kind_of d bounds = collect_tokens kind_of (d.text) (document_tokens d) bounds
