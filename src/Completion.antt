-- ===== src/Completion.antt =====
-- The labels and scores of completion items, ext/lsp_server_symbols.c: `lsp_completion_same_label`,
-- `lsp_completion_detail_score` and `lsp_completion_type_score`.
pub mod Dedup
pub mod Positions
pub mod Buckets
mod Tests
use Prim.Native.String.{String}
use ext_lsparrot.Base.{
  ℕ, ◌+◌, Bool, true, false, not, ◌&&◌, ◌||◌, Option, none, some, Bytes, List, [], ◌∷◌, codes,
  length, ◌==◌, bytes_eq, if◌then◌else◌,
}
use ext_lsparrot.Base.Int.{ℤ, pos, ◌+ℤ◌, ◌-ℤ◌, int_eq}
use ext_lsparrot.Semantic.Modifiers.{starts_with, occurs_in}
use ext_lsparrot.Transport.Queue.{until_nul}
use ext_lsparrot.Zval.{Zval, long, array_find, array_string, array_long}

-- A variable's label without its dollar sign.
unfoldable pub strip_dollar : Bytes → Bytes
strip_dollar [] = []
strip_dollar (c ∷ label) = if c == b'$' then label else c ∷ label

unfoldable pub first_of : Option Bytes → Option Bytes → Option Bytes
first_of none other = other
first_of (some name) other = some name

-- At the top of an entry that is encoded already, and else under `data`.
unfoldable pub qualified_name : Zval → Option Bytes
unfolding first_of
qualified_name item =
    first_of (array_string (some item) (codes "qualifiedName"))
      (array_string (array_find (some item) (codes "data")) (codes "qualifiedName"))

-- Class, interface, module and enum.
unfoldable pub is_class_like : ℤ → Bool
is_class_like kind =
    int_eq kind (pos 7) || int_eq kind (pos 8) || int_eq kind (pos 9) || int_eq kind (pos 13)

unfoldable pub same_names : Option Bytes → Option Bytes → ℤ → Bool
unfolding is_class_like
same_names (some left) (some right) kind = bytes_eq left right
same_names none none kind = true
same_names _ _ kind = not (is_class_like kind)

unfoldable pub item_kind : Zval → ℤ
item_kind item = array_long (some item) (codes "kind") (pos 0)

unfoldable pub kinds_differ : ℤ → ℤ → Bool
kinds_differ left right =
    not (int_eq left (pos 0)) && not (int_eq right (pos 0)) && not (int_eq left right)

unfoldable pub same_label_of : Option Bytes → Option Bytes → Zval → Zval → Bool
unfolding strip_dollar qualified_name same_names item_kind kinds_differ
same_label_of (some left_label) (some right_label) left right =
    not (kinds_differ (item_kind left) (item_kind right))
    && bytes_eq (strip_dollar left_label) (strip_dollar right_label)
    && same_names (qualified_name left) (qualified_name right)
        (if int_eq (item_kind left) (pos 0) then item_kind right else item_kind left)
same_label_of _ _ left right = false

unfoldable pub item_label : Zval → Option Bytes
item_label item = array_string (some item) (codes "label")

-- `lsp_completion_same_label`
unfoldable pub same_label : Zval → Zval → Bool
unfolding same_label_of item_label
same_label left right = same_label_of (item_label left) (item_label right) left right

unfoldable pub starts_with_one_of : List String → Bytes → Bool
unfolding starts_with
starts_with_one_of [] detail = false
starts_with_one_of (prefix ∷ prefixes) detail =
    starts_with detail (codes prefix) || starts_with_one_of prefixes detail

-- The bytes that make a type look complex.
unfoldable pub is_type_mark : ℕ → Bool
is_type_mark c =
    c == b'\\'
    || c == b'<'
    || c == b'>'
    || c == b'|'
    || c == b'&'
    || c == b'{'
    || c == b'}'
    || c == b'['
    || c == b']'
    || c == b':'

unfoldable pub mark_score : Bytes → ℕ
unfolding is_type_mark
mark_score [] = 0
mark_score (c ∷ detail) = if is_type_mark c then 25 + mark_score detail else mark_score detail

-- `strstr` reads up to the first NUL.
unfoldable pub mentions_text : Bytes → String → Bool
unfolding occurs_in until_nul
mentions_text detail word = occurs_in (codes word) (until_nul detail)

unfoldable pub prefix_penalty : Bytes → ℕ
unfolding starts_with_one_of
prefix_penalty detail =
    if starts_with detail (codes "keyword")
    then 1000
    else if starts_with_one_of
        ("variable " ∷ "function " ∷ "class " ∷ "interface " ∷ "trait " ∷ "enum " ∷ "property "
          ∷ [])
        detail
    then 200
    else 0

-- `lsp_completion_detail_score`
unfoldable pub detail_score : Bytes → ℤ
unfolding prefix_penalty mark_score mentions_text
detail_score detail =
    pos (length detail)
    -ℤ pos (prefix_penalty detail)
    +ℤ pos (
        mark_score detail
        + (if mentions_text detail "array" || mentions_text detail "list" then 75 else 0)
        + (if mentions_text detail "non-empty" || mentions_text detail "positive-" then 100 else 0)
        + (if mentions_text detail "..." then 25 else 0))

-- An analyzer knows more than the others.
unfoldable pub source_score : Option Bytes → ℤ
source_score none = pos 0
source_score (some source) =
    if bytes_eq source (codes "phpstan")
      || bytes_eq source (codes "psalm")
      || bytes_eq source (codes "psalm-ls")
    then pos 10000
    else pos 0

unfoldable pub sort_score : Option Bytes → ℤ → ℤ
sort_score (some (c ∷ d ∷ rest)) score =
    if d == b':'
    then if c == b'0' then score +ℤ pos 5000 else if c == b'1' then score -ℤ pos 5000 else score
    else score
sort_score _ score = score

unfoldable pub with_detail : Option Bytes → ℤ → ℤ
unfolding detail_score
with_detail none score = score
with_detail (some detail) score = score +ℤ detail_score detail

-- The score that an entry carries, and else the one that is computed.
unfoldable pub score_or : Option Zval → ℤ → ℤ
score_or (some (long n)) computed = n
score_or _ computed = computed

-- `lsp_completion_type_score`
unfoldable pub type_score : Zval → ℤ
unfolding score_or source_score sort_score with_detail
type_score item = score_or (array_find (some item) (codes "score")) (
    with_detail (array_string (some item) (codes "detail")) (
      sort_score (array_string (some item) (codes "sortText"))
        (source_score (array_string (array_find (some item) (codes "data")) (codes "source")))))
