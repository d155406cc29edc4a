-- ===== src/Scan.antt =====
-- Scans over the text of a document: words (ext/lsp_server_core.c, `lsp_prefix_at`, `lsp_word_at`,
-- `lsp_matches_prefix_string`) and brackets (ext/lsp_server_phpdoc.c, `lsp_find_matching_open_paren`,
-- `lsp_find_matching_open_bracket`). The loose match of a name with a prefix is in Fuzzy.
pub mod Words
pub mod Brackets
pub mod Prefix
pub mod Fuzzy
mod Tests
use ext_lsparrot.Base.{
  to_lower, ◌&&◌, ℕ, zero, suc, ◌+◌, ◌-◌, Bool, true, false, ◌||◌, Option, none, some, List, [],
  ◌∷◌, ◌==◌, leb, ltb, if◌then◌else◌, Bytes, is_alnum, length, get_or, take, drop,
}

unfoldable pub is_word_char : ℕ → Bool
is_word_char c = is_alnum c || c == b'_' || c == b'$' || c == 92 || leb 128 c

-- `while (start > 0 && lsp_is_word_char(value[start - 1])) start--`
unfoldable pub word_start : Bytes → ℕ → ℕ
unfolding is_word_char
word_start text zero = zero
word_start text (suc start) =
    let before = word_start text start in
    if is_word_char (get_or text start 0) then before else suc start

-- The number of word bytes at the start of what follows the offset.
unfoldable pub word_length : Bytes → ℕ
unfolding is_word_char
word_length [] = zero
word_length (c ∷ rest) = if is_word_char c then suc (word_length rest) else zero

abbrev pub clamp : Bytes → ℕ → ℕ
clamp text offset = if ltb (length text) offset then length text else offset

unfoldable pub prefix_at : Bytes → ℕ → Bytes
unfolding word_start
prefix_at text offset =
    let end = clamp text offset in
    take (end - word_start text end) (drop (word_start text end) text)

unfoldable pub word_at : Bytes → ℕ → Bytes
unfolding word_start word_length
word_at text offset =
    let middle = clamp text offset in
    let end = middle + word_length (drop middle text) in
    take (end - word_start text middle) (drop (word_start text middle) text)

module _ (open_byte close_byte : ℕ) (text : Bytes) where
  -- The loop to the left, with the number of closing brackets that are not matched.
  unfoldable pub scan_open : ℕ → ℕ → Option ℕ
  scan_open zero depth = none
  scan_open (suc i) depth =
      let deeper = scan_open i (suc depth) in
      let same = scan_open i depth in
      let shallower = scan_open i (depth - 1) in
      if get_or text i 0 == close_byte
      then deeper
      else if get_or text i 0 == open_byte
      then (if depth == 0 then none else if depth == 1 then some i else shallower)
      else same

  unfoldable pub find_matching_open : ℕ → Option ℕ
  unfolding scan_open
  find_matching_open close_offset =
      if leb (length text) close_offset
      then none
      else if get_or text close_offset 0 == close_byte
      then scan_open (suc close_offset) 0
      else none

unfoldable pub find_matching_open_paren : Bytes → ℕ → Option ℕ
unfolding find_matching_open
find_matching_open_paren = find_matching_open b'(' b')'

unfoldable pub find_matching_open_bracket : Bytes → ℕ → Option ℕ
unfolding find_matching_open
find_matching_open_bracket = find_matching_open b'[' b']'

abbrev without_byte : ℕ → Bytes → Bytes
without_byte byte [] = []
without_byte byte (c ∷ text) = if c == byte then text else c ∷ text

-- A name without the leading `\` and, behind it, without a leading `$`.
unfoldable pub bare_name : Bytes → Bytes
bare_name name = without_byte b'$' (without_byte 92 name)

-- The loop over the prefix, which is no longer than the label.
unfoldable pub agrees : Bytes → Bytes → Bool
agrees label [] = true
agrees [] (p ∷ prefix) = false
agrees (c ∷ label) (p ∷ prefix) = to_lower c == to_lower p && agrees label prefix

unfoldable pub matches_prefix_string : Bytes → Bytes → Bool
unfolding bare_name agrees
matches_prefix_string label prefix =
    if length (bare_name prefix) == 0
    then true
    else if ltb (length (bare_name label)) (length (bare_name prefix))
    then false
    else agrees (bare_name label) (bare_name prefix)
