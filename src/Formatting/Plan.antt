-- ===== src/Formatting/Plan.antt =====
-- The plan of the lines, ext/lsp_server_formatting.c: `lsp_format_plan_lines` and the tests on tokens
-- that it uses. Counts of tokens are below 2^31, so the indent units fit their type.
use ext_lsparrot.Base.{
  ℕ, zero, suc, ◌+◌, ◌-◌, Bool, true, false, not, ◌&&◌, ◌||◌, Option, none, some, Bytes, List, [],
  ◌∷◌, codes, length, get_or, ltb, leb, ◌==◌, bytes_eq, if◌then◌else◌,
}
use ext_lsparrot.Base.Int.{ℤ, pos, negsuc, is_neg, ◌+ℤ◌, ◌-ℤ◌, int_eq, int_leb, size_cast}
use ext_lsparrot.Formatting.Lines.{
  LineKind, Line, unset, code, locked, comment, is_unset, is_code, line_of_offset, mark_interior,
  set_line, count_newlines,
}
use ext_lsparrot.Tokens.{
  Kind, char, is_char, equals_ci, token_at, token_id, t_attribute, t_case, t_comment,
  t_constant_encapsed_string, t_curly_open, t_default, t_doc_comment, t_dollar_open_curly_braces,
  t_encapsed_and_whitespace, t_enddeclare, t_endfor, t_endforeach, t_endif, t_endswitch, t_endwhile,
  t_end_heredoc, t_inline_html, t_start_heredoc, t_switch, t_whitespace,
}
use ext_lsparrot.Zval.{Zval, Items, arr, items_count, array_long, array_string}
use Prim.Native.String.{String}

unfoldable pub is_whitespace : Kind → Bool
is_whitespace t_whitespace = true
is_whitespace _ = false

unfoldable pub is_comment : Kind → Bool
is_comment t_comment = true
is_comment t_doc_comment = true
is_comment _ = false

unfoldable pub locks_interior : Kind → Bool
locks_interior t_constant_encapsed_string = true
locks_interior t_encapsed_and_whitespace = true
locks_interior t_inline_html = true
locks_interior _ = false

unfoldable pub disables_reindent : Kind → Bool
disables_reindent t_endif = true
disables_reindent t_endfor = true
disables_reindent t_endforeach = true
disables_reindent t_endwhile = true
disables_reindent t_endswitch = true
disables_reindent t_enddeclare = true
disables_reindent _ = false

abbrev pub continuation_ops : List String
continuation_ops =
    "->" ∷ "?->" ∷ "::" ∷ "." ∷ "=>" ∷ "??" ∷ "&&" ∷ "||" ∷ "=" ∷ ".=" ∷ "+=" ∷ "-=" ∷ "*=" ∷ "/="
    ∷ "%=" ∷ "**=" ∷ "??=" ∷ "|=" ∷ "&=" ∷ "^=" ∷ "<<=" ∷ ">>=" ∷ "+" ∷ "-" ∷ "*" ∷ "/" ∷ "%" ∷ "**"
    ∷ "==" ∷ "===" ∷ "!=" ∷ "!==" ∷ "<=>" ∷ "<=" ∷ ">=" ∷ "?" ∷ "and" ∷ "or" ∷ "xor" ∷ "instanceof"
    ∷ []

unfoldable pub equals_one_of : List String → Bytes → Bool
equals_one_of [] text = false
equals_one_of (op ∷ ops) text = equals_ci text (codes op) || equals_one_of ops text

-- `lsp_format_text_is_continuation_op`
unfoldable pub is_continuation_op : Option Bytes → Bool → Bool
unfolding equals_one_of
is_continuation_op none line_start = false
is_continuation_op (some text) line_start =
    not (length text == 0)
    && leb (length text) 10
    && (equals_one_of continuation_ops text || line_start && bytes_eq text (codes ":"))

unfoldable pub is_opener : Kind → Bool
is_opener id = is_char b'(' id || is_char b'[' id || is_char b'{' id

unfoldable pub is_closer : Kind → Bool
is_closer id = is_char b')' id || is_char b']' id || is_char b'}' id

-- The variables of the loop. The stack of switches has its top first; `prev_code_line` and `seen_line`
-- are none where they are `(size_t) -1`.
pub record PlanState : Type 0 where
  pub lines : List Line
  pub depth : ℤ
  pub curly : ℤ
  pub paren : ℤ
  pub switch_stack : List ℤ
  pub pending_switch : Bool
  pub pending_switch_paren : ℤ
  pub prev_code_text : Option Bytes
  pub prev_code_line : Option ℕ
  pub seen_line : Option ℕ
  pub reindent_supported : Bool

unfoldable pub first_state : List Line → PlanState
first_state lines = record {
  lines = lines;
  depth = pos 0;
  curly = pos 0;
  paren = pos 0;
  switch_stack = [];
  pending_switch = false;
  pending_switch_paren = pos 0;
  prev_code_text = none;
  prev_code_line = none;
  seen_line = none;
  reindent_supported = true;
}

-- `switch_size > 0 && switch_stack[switch_size - 1] == curly`
unfoldable pub in_switch : List ℤ → ℤ → Bool
in_switch [] curly = false
in_switch (top ∷ stack) curly = int_eq top curly

-- The stack behind a closing brace.
unfoldable pub leave_switch : List ℤ → ℤ → List ℤ
leave_switch [] curly = []
leave_switch (top ∷ stack) curly = if int_eq top curly then stack else top ∷ stack

unfoldable pub clamp_units : ℤ → ℤ
clamp_units units = if is_neg units then pos 0 else if int_leb units (pos 64) then units else pos 64

-- `i < count`: the line's kind, where it has one
unfoldable pub kind_at : List Line → ℕ → Option LineKind
kind_at [] i = none
kind_at (l ∷ lines) zero = some (l.kind)
kind_at (l ∷ lines) (suc i) = kind_at lines i

unfoldable pub is_unset_at : List Line → ℕ → Bool
unfolding kind_at
is_unset_at lines i = elim (kind_at lines i) [ none ↦ false | some kind ↦ is_unset kind ]

unfoldable pub is_code_at : List Line → ℕ → Bool
unfolding kind_at
is_code_at lines i = elim (kind_at lines i) [ none ↦ false | some kind ↦ is_code kind ]

abbrev pub no_line : Line
no_line = record { kind = unset; indent = negsuc 0 }

unfoldable pub is_line : Option ℕ → ℕ → Bool
is_line none line = false
is_line (some seen) line = seen == line

unfoldable pub is_before : Option ℕ → ℕ → Bool
is_before none line = false
is_before (some earlier) line = ltb earlier line

-- `case` and `default`
unfoldable pub is_label : Kind → Bool
is_label t_case = true
is_label t_default = true
is_label _ = false

unfoldable pub starts_heredoc : Kind → Bool
starts_heredoc t_start_heredoc = true
starts_heredoc _ = false

unfoldable pub ends_heredoc : Kind → Bool
ends_heredoc t_end_heredoc = true
ends_heredoc _ = false

unfoldable pub is_inline_html : Kind → Bool
is_inline_html t_inline_html = true
is_inline_html _ = false

-- The second byte is a star: a comment of several lines.
unfoldable pub is_block_comment : Bytes → Bool
is_block_comment (c ∷ d ∷ rest) = d == b'*'
is_block_comment _ = false

unfoldable pub token_offset : Zval → ℕ
token_offset token = size_cast (array_long (some token) (codes "offset") (pos 0))

-- The state updates at the end of the loop's body.
unfoldable pub note_switch : Kind → PlanState → PlanState
note_switch t_switch s = record s { pending_switch = true; pending_switch_paren = s.paren }
note_switch id s =
    if s.pending_switch && is_char b';' id then record s { pending_switch = false } else s

unfoldable pub open_curly : Bool → PlanState → PlanState
open_curly is_brace s =
    let curly = s.curly +ℤ pos 1 in
    if s.pending_switch && is_brace && int_eq (s.paren) (s.pending_switch_paren)
    then record s {
      curly = curly;
      depth = s.depth +ℤ pos 1;
      switch_stack = curly ∷ s.switch_stack;
      pending_switch = false;
    }
    else record s { curly = curly; depth = s.depth +ℤ pos 1 }

unfoldable pub close_curly : PlanState → PlanState
unfolding leave_switch
close_curly s = record s {
  switch_stack = leave_switch (s.switch_stack) (s.curly);
  curly = s.curly -ℤ pos 1;
  depth = s.depth -ℤ pos 1;
}

unfoldable pub track_char : ℕ → PlanState → PlanState
unfolding open_curly close_curly
track_char c s =
    if c == b'('
    then record s { paren = s.paren +ℤ pos 1; depth = s.depth +ℤ pos 1 }
    else if c == b')'
    then record s { paren = s.paren -ℤ pos 1; depth = s.depth -ℤ pos 1 }
    else if c == b'['
    then record s { depth = s.depth +ℤ pos 1 }
    else if c == b']'
    then record s { depth = s.depth -ℤ pos 1 }
    else if c == b'{'
    then open_curly true s
    else if c == b'}'
    then close_curly s
    else s

unfoldable pub track_brackets : Kind → PlanState → PlanState
unfolding track_char open_curly
track_brackets (char c) s = track_char c s
track_brackets t_attribute s = record s { depth = s.depth +ℤ pos 1 }
track_brackets t_curly_open s = open_curly false s
track_brackets t_dollar_open_curly_braces s = open_curly false s
track_brackets _ s = s

unfoldable pub remember_code : Kind → Option Bytes → ℕ → PlanState → PlanState
unfolding is_comment
remember_code id text line s =
    if is_comment id then s else record s { prev_code_text = text; prev_code_line = some line }

-- A statement goes on from the line before, or onto this one.
unfoldable pub continues : Kind → Option Bytes → ℕ → PlanState → Bool
unfolding is_before is_continuation_op is_comment
continues id text line s = is_before (s.prev_code_line) line && elim (s.prev_code_text) [
  | none ↦ false
  | some prev ↦
      is_continuation_op (some prev) false || not (is_comment id) && is_continuation_op text true
]

-- The units of a line that no closing bracket starts.
unfoldable pub plain_units : Kind → Option Bytes → ℕ → PlanState → ℤ
unfolding is_label in_switch continues
plain_units id text line s =
    let units = s.depth +ℤ pos (length (s.switch_stack)) in
    if is_label id && in_switch (s.switch_stack) (s.curly)
    then units -ℤ pos 1
    else if continues id text line s
    then units +ℤ pos 1
    else units

module _ (kind_of : ℤ → Kind) (tokens : Items) (count : ℕ) (starts : List ℕ) where
  -- The loop over the closing brackets that start a line; the first argument is `count - j`.
  unfoldable pub closing_units : ℕ → ℕ → ℕ → ℤ → ℤ → List ℤ → ℤ
  unfolding token_at token_id is_whitespace is_closer token_offset line_of_offset leave_switch
  closing_units zero j line depth curly stack = depth +ℤ pos (length stack)
  closing_units (suc left) j line depth curly stack = elim (token_at tokens j) [
    | none ↦ closing_units left (suc j) line depth curly stack
    | some peek ↦
        let id = token_id kind_of peek in
        let skipped = closing_units left (suc j) line depth curly stack in
        let brace =
          closing_units left (suc j) line (depth -ℤ pos 1) (curly -ℤ pos 1)
            (leave_switch stack curly) in
        let bracket = closing_units left (suc j) line (depth -ℤ pos 1) curly stack in
        if is_whitespace id
        then skipped
        else if not (line_of_offset starts (token_offset peek) == line) || not (is_closer id)
        then depth +ℤ pos (length stack)
        else if is_char b'}' id
        then brace
        else bracket
  ]

  -- The indent of a line by its first token.
  unfoldable pub line_units : Kind → Option Bytes → ℕ → ℕ → PlanState → ℤ
  unfolding closing_units plain_units is_closer
  line_units id text i line s =
      if is_closer id
      then closing_units (count - i) i line (s.depth) (s.curly) (s.switch_stack)
      else plain_units id text line s

  unfoldable pub plan_line : Kind → Option Bytes → ℕ → ℕ → PlanState → PlanState
  unfolding is_line is_unset_at set_line line_units clamp_units
  plan_line id text i line s =
      if is_line (s.seen_line) line
      then s
      else if is_unset_at (s.lines) line
      then record s {
        seen_line = some line;
        lines =
            set_line (s.lines) line
              (record { kind = code; indent = clamp_units (line_units id text i line s) });
      }
      else record s { seen_line = some line }

  -- What a token of several lines does to the lines it covers.
  unfoldable pub cover_lines : Kind → Option Bytes → ℕ → List Line → List Line
  unfolding count_newlines is_comment is_block_comment mark_interior is_code_at locks_interior
  cover_lines id none line lines = lines
  cover_lines id (some text) line lines =
      let newlines = count_newlines text in
      if newlines == 0
      then lines
      else if is_comment id && is_block_comment text
      then mark_interior lines (line + 1) (line + newlines) comment
          (if is_code_at lines line then (get_or lines line no_line).indent else negsuc 0)
      else if locks_interior id
      then mark_interior lines (line + 1) (line + newlines) locked (negsuc 0)
      else lines

  -- The search for the end of a heredoc; the first argument is `count - j`.
  unfoldable pub heredoc_lines : ℕ → ℕ → ℕ → List Line → List Line
  unfolding token_at token_id ends_heredoc token_offset line_of_offset mark_interior
  heredoc_lines zero j line lines = lines
  heredoc_lines (suc left) j line lines =
      let further = heredoc_lines left (suc j) line lines in
      elim (token_at tokens j) [
        | none ↦ further
        | some peek ↦
            if ends_heredoc (token_id kind_of peek)
            then mark_interior lines (line + 1) (line_of_offset starts (token_offset peek)) locked
                (negsuc 0)
            else further
      ]

  unfoldable pub lock_lines : Kind → Option Bytes → ℕ → ℕ → List Line → List Line
  unfolding cover_lines heredoc_lines starts_heredoc is_inline_html is_code_at set_line
  lock_lines id text i line lines =
      let covered = cover_lines id text line lines in
      let heredoc =
        if starts_heredoc id
        then heredoc_lines (count - (i + 1)) (i + 1) line covered
        else covered in
      if is_inline_html id && is_code_at heredoc line
      then set_line heredoc line (record { kind = locked; indent = negsuc 0 })
      else heredoc

  unfoldable pub note_syntax : Kind → PlanState → PlanState
  unfolding disables_reindent
  note_syntax id s = if disables_reindent id then record s { reindent_supported = false } else s

  unfoldable pub locking : Kind → Option Bytes → ℕ → ℕ → PlanState → PlanState
  unfolding lock_lines
  locking id text i line s = record s { lines = lock_lines id text i line (s.lines) }

  -- The body of the loop at a token that is no white space.
  unfoldable pub plan_token : Kind → Option Bytes → ℕ → ℕ → PlanState → PlanState
  unfolding note_syntax plan_line locking note_switch track_brackets remember_code
  plan_token id text i line s = remember_code id text line (
      track_brackets id
        (note_switch id (locking id text i line (plan_line id text i line (note_syntax id s)))))

  unfoldable pub plan_step : ℕ → PlanState → PlanState
  unfolding token_at token_id is_whitespace token_offset line_of_offset plan_token
  plan_step i s = elim (token_at tokens i) [
    | none ↦ s
    | some token ↦
        let id = token_id kind_of token in
        if is_whitespace id
        then s
        else plan_token id (array_string (some token) (codes "text")) i
            (line_of_offset starts (token_offset token)) s
  ]

  -- The loop; the first argument is `count - i`.
  unfoldable pub plan_from : ℕ → ℕ → PlanState → PlanState
  unfolding plan_step
  plan_from zero i s = s
  plan_from (suc left) i s = plan_from left (suc i) (plan_step i s)

-- `lsp_format_plan_lines`: the lines, and whether they may be indented anew. The tokens are those of
-- the text; where there are none, the lines stay as they are.
unfoldable pub plan_lines : (ℤ → Kind) → Zval → List ℕ → List Line → List Line × Bool
unfolding plan_from first_state
plan_lines kind_of (arr tokens) starts lines =
    let s =
      plan_from kind_of tokens (items_count tokens) starts (items_count tokens) 0
        (first_state lines) in
    (s.lines, s.reindent_supported)
plan_lines kind_of _ starts lines = (lines, false)
