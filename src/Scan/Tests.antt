-- ===== src/Scan/Tests.antt =====
-- Inputs for the theorems about the scans, and runs of the definitions.
use ext_lsparrot.Base.{
  ◌↔◌, ◌≤◌, length, true, ◌≡◌, refl, some, none, inr, codes, ◌++◌, ◌∷◌, [], Bytes,
}
use ext_lsparrot.Scan.{
  matches_prefix_string, prefix_at, word_at, find_matching_open_paren, find_matching_open,
  is_word_char,
}
use ext_lsparrot.Scan.Words.{EndsOutside, AllWord, StartsOutside, prefix_at-word, word_at-word}
use ext_lsparrot.Scan.Fuzzy.{IsSubsequence, symbol_fuzzy_match, symbol_fuzzy_match_iff}
use ext_lsparrot.Scan.Prefix.{ExtendsBare, matches_prefix_string_iff}
use ext_lsparrot.Scan.Brackets.{Balanced, nothing, other, nested, find_matching_open-Balanced}

abbrev blank : Bytes
blank = codes "= "

blank-EndsOutside : EndsOutside blank
unfolding is_word_char
blank-EndsOutside = inr (codes "=", 32, refl, refl)

name-AllWord : AllWord (codes "$a")
unfolding is_word_char
name-AllWord = (refl, (refl, tt))

rest-AllWord : AllWord (codes "b")
unfolding is_word_char
rest-AllWord = (refl, tt)

semicolon-StartsOutside : StartsOutside (codes ";")
unfolding is_word_char
semicolon-StartsOutside = refl

prefix_at-word_example : prefix_at (blank ++ (codes "$a" ++ codes "b;")) 4 ≡ codes "$a"
prefix_at-word_example =
    prefix_at-word blank (codes "$a") (codes "b;") blank-EndsOutside name-AllWord

word_at-word_example : word_at (blank ++ (codes "$a" ++ (codes "b" ++ codes ";"))) 4 ≡ codes "$ab"
word_at-word_example =
    word_at-word blank (codes "$a") (codes "b") (codes ";") blank-EndsOutside name-AllWord
      rest-AllWord semicolon-StartsOutside

-- `x(y)`
abbrev call : Bytes
call = codes "x(y)"

call-Balanced : Balanced b'(' b')' call
call-Balanced =
    other b'x' (codes "(y)") refl refl
      (nested (codes "y") [] (other b'y' [] refl refl nothing) nothing)

find_matching_open-Balanced_example :
    find_matching_open b'(' b')' (codes "f" ++ b'(' ∷ (call ++ b')' ∷ codes ";")) 6 ≡ some 1
find_matching_open-Balanced_example =
    find_matching_open-Balanced b'(' b')' (codes "f") call (codes ";") refl call-Balanced

-- An offset without a closing bracket has no match.
no_bracket : find_matching_open_paren call 0 ≡ none
unfolding find_matching_open_paren
no_bracket = refl

matches_prefix_string_iff_example :
    (matches_prefix_string (codes "$Name") (codes "na") ≡ true)
    ↔ ExtendsBare (codes "$Name") (codes "na")
matches_prefix_string_iff_example = matches_prefix_string_iff (codes "$Name") (codes "na")

symbol_fuzzy_match_iff_example :
    (symbol_fuzzy_match (codes "App\\HttpClient") (codes "hc") ≡ true)
    ↔ ((2 ≤ length (codes "hc")) × IsSubsequence (codes "hc") (codes "App\\HttpClient"))
symbol_fuzzy_match_iff_example = symbol_fuzzy_match_iff (codes "App\\HttpClient") (codes "hc")
