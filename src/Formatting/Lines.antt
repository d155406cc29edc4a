-- ===== src/Formatting/Lines.antt =====
-- The lines of a document, ext/lsp_server_formatting.c: `lsp_format_line_starts`,
-- `lsp_format_line_of_offset`, `lsp_format_mark_interior` and `lsp_format_count_newlines`.
use ext_lsparrot.Base.{
  ℕ, zero, suc, ◌+◌, ◌-◌, ◌/◌, Bool, true, false, ◌&&◌, Bytes, List, [], ◌∷◌, length, get_or, ltb,
  leb, ◌==◌, if◌then◌else◌,
}
use ext_lsparrot.Base.Int.{ℤ}

-- `LSP_FORMAT_LINE_...`
pub data LineKind : Type 0 where
  unset code locked blank comment : LineKind

-- `lsp_format_line`
pub record Line : Type 0 where
  pub indent : ℤ
  pub kind : LineKind

abbrev pub is_unset : LineKind → Bool
is_unset unset = true
is_unset _ = false

abbrev pub is_code : LineKind → Bool
is_code code = true
is_code _ = false

-- The offsets behind the newlines of the bytes from the given offset on.
unfoldable pub starts_behind : ℕ → Bytes → List ℕ
starts_behind offset [] = []
starts_behind offset (c ∷ rest) =
    let further = starts_behind (suc offset) rest in
    if c == b'\n' then suc offset ∷ further else further

-- `lsp_format_line_starts`; its `line_count` is the length.
unfoldable pub line_starts : Bytes → List ℕ
unfolding starts_behind
line_starts text = 0 ∷ starts_behind 0 text

-- The binary search of `lsp_format_line_of_offset`, on fuel: `high - low` gets smaller.
unfoldable pub search_line : ℕ → List ℕ → ℕ → ℕ → ℕ → ℕ
search_line zero starts offset low high = low
search_line (suc fuel) starts offset low high =
    let mid = low + (high - low) / 2 in
    let right = search_line fuel starts offset mid high in
    let left = search_line fuel starts offset low mid in
    if ltb (low + 1) high then if leb (get_or starts mid 0) offset then right else left else low

unfoldable pub line_of_offset : List ℕ → ℕ → ℕ
unfolding search_line
line_of_offset starts offset = search_line (length starts) starts offset 0 (length starts)

-- The loop of `lsp_format_mark_interior`, over the lines from the index `i` on.
unfoldable pub mark_from : ℕ → List Line → ℕ → ℕ → LineKind → ℤ → List Line
mark_from i [] from_line to_line kind indent = []
mark_from i (l ∷ lines) from_line to_line kind indent =
    (if leb from_line i && leb i to_line && is_unset (l.kind)
      then record { kind = kind; indent = indent }
      else l)
    ∷ mark_from (suc i) lines from_line to_line kind indent

unfoldable pub mark_interior : List Line → ℕ → ℕ → LineKind → ℤ → List Line
unfolding mark_from
mark_interior lines from_line to_line kind indent = mark_from 0 lines from_line to_line kind indent

-- `lines[i] = l`, for a line that is there
unfoldable pub set_line : List Line → ℕ → Line → List Line
set_line [] i l = []
set_line (k ∷ lines) zero l = l ∷ lines
set_line (k ∷ lines) (suc i) l = k ∷ set_line lines i l

unfoldable pub count_newlines : Bytes → ℕ
count_newlines [] = 0
count_newlines (c ∷ text) = if c == b'\n' then suc (count_newlines text) else count_newlines text
