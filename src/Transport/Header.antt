-- ===== src/Transport/Header.antt =====
-- Frame headers: the loop over header lines in `lsp_transport_parse_frame`
-- (ext/lsp_server_documents.c), with the C library's `strncasecmp` and `strtoull` that it calls.
use ext_lsparrot.Base.{
  ℕ, suc, ◌+◌, ◌-◌, ◌*◌, ◌%◌, ◌^◌, Bool, true, false, ◌&&◌, Option, some, [], ◌∷◌, ◌++◌, ltb, ◌==◌,
  if◌then◌else◌, Bytes, codes, length, drop, is_space, to_lower, within,
}

abbrev pub size_mod : ℕ
size_mod = 2 ^ 64

-- The digits of `strtoull` from the value read so far; it saturates at ULLONG_MAX.
unfoldable pub read_digits : ℕ → Bytes → ℕ
read_digits n [] = n
read_digits n (c ∷ rest) = elim (within b'0' b'9' c) [
  | true ↦ read_digits (n * 10 + (c - b'0')) rest
  | false ↦ n
]

abbrev saturate : ℕ → ℕ
saturate n = if ltb n size_mod then n else size_mod - 1

-- An unsigned conversion of a text with a minus sign negates modulo 2 ^ 64, unless it overflows.
abbrev negate : ℕ → ℕ
negate n = if ltb n size_mod then (size_mod - n) % size_mod else size_mod - 1

unfoldable pub read_signed : Bytes → ℕ
unfolding read_digits
read_signed [] = 0
read_signed (c ∷ rest) =
    if c == b'-'
    then negate (read_digits 0 rest)
    else if c == b'+'
    then saturate (read_digits 0 rest)
    else saturate (read_digits 0 (c ∷ rest))

-- `strtoull(text, NULL, 10)`. It is not bounded by the end of the line, as in the source; the bytes
-- behind the end of the buffer count as the end of the text.
unfoldable pub strtoull : Bytes → ℕ
unfolding read_signed
strtoull [] = 0
strtoull (c ∷ rest) = if is_space c then strtoull rest else read_signed (c ∷ rest)

abbrev pub content_length_name : Bytes
content_length_name = codes "Content-Length:"

-- `strncasecmp(line, prefix, strlen(prefix)) == 0`
unfoldable pub starts_with_ci : Bytes → Bytes → Bool
starts_with_ci [] line = true
starts_with_ci (p ∷ prefix) [] = false
starts_with_ci (p ∷ prefix) (c ∷ line) = to_lower p == to_lower c && starts_with_ci prefix line

unfoldable pub is_length_line : Bytes → Bool
unfolding starts_with_ci
is_length_line line = ltb 15 (length line) && starts_with_ci content_length_name line

-- An empty line, or a lone carriage return.
unfoldable pub is_end_line : Bytes → Bool
is_end_line [] = true
is_end_line (c ∷ []) = c == b'\r'
is_end_line _ = false

-- `ended size length body`: the headers take `size` bytes, and `body` follows them.
pub data Headers : Type 0 where
  open_ended : Headers
  ended : ℕ → Option ℕ → Bytes → Headers

-- The loop over the lines of the headers. `line` is what has been read of the current line, `size`
-- counts the bytes before `rest`, and `found` is the content length so far (`has_length`).
unfoldable pub scan_headers : Bytes → ℕ → Option ℕ → Bytes → Headers
unfolding is_length_line is_end_line strtoull
scan_headers line size found [] = open_ended
scan_headers line size found (c ∷ rest) = elim (c == b'\n') [
  | false ↦ scan_headers (line ++ c ∷ []) (suc size) found rest
  | true ↦ elim (is_end_line line) [
    | true ↦ ended (suc size) found rest
    | false ↦
        scan_headers [] (suc size)
          (if is_length_line line then some (strtoull (drop 15 (line ++ c ∷ rest))) else found) rest
  ]
]
