-- ===== src/Scan/Words.antt =====
-- What the word scans return (ext/lsp_server_core.c, `lsp_prefix_at`, `lsp_word_at`).
use ext_lsparrot.Base.{
  drop-drop, ◌≡◌, refl, sym, ap, ◌∙◌, ◌⊎◌, inl, inr, ℕ, suc, ◌+◌, ◌-◌, true, false, [], ◌∷◌, ◌++◌,
  Bytes, length, get_or, drop, length-append, append_assoc, drop-length, take-length, All, arith,
  ltb, ge→ltb,
}
use ext_lsparrot.Scan.{is_word_char, word_start, word_length, prefix_at, word_at}

abbrev pub AllWord : Bytes → Type 0
AllWord = All (λ c. is_word_char c ≡ true)

-- No word goes on to the left, or to the right.
abbrev pub EndsOutside : Bytes → Type 0
EndsOutside before =
    (before ≡ [])
    ⊎ ((front : Bytes) × (c : ℕ) × (before ≡ front ++ c ∷ []) × (is_word_char c ≡ false))

abbrev pub StartsOutside : Bytes → Type 0
StartsOutside [] = Unit
StartsOutside (c ∷ rest) = is_word_char c ≡ false

pub get_or-length :
    (text pre rest : Bytes) (c : ℕ) → text ≡ pre ++ c ∷ rest → get_or text (length pre) 0 ≡ c
get_or-length text pre rest c e = rw e (there pre)
  where
    there : (pre : Bytes) → get_or (pre ++ c ∷ rest) (length pre) 0 ≡ c
    there [] = refl
    there (x ∷ pre) = there pre

word_start-outside :
    (text before rest : Bytes)
    → text ≡ before ++ rest
    → EndsOutside before
    → word_start text (length before) ≡ length before
unfolding word_start
word_start-outside text before rest e (inl empty) = rw empty refl
word_start-outside text before rest e (inr (front, c, at, outside)) =
    let long : length before ≡ suc (length front) =
      omega (arith, ap (λ b. length b) at, length-append front (c ∷ [])) in
    let here : get_or text (length front) 0 ≡ c =
      get_or-length text front rest c
        (e ∙ ap (λ b. b ++ rest) at ∙ append_assoc front (c ∷ []) rest) in
    rw (long, here, outside) refl

-- The loop goes over the word to its start.
word_start-word :
    (text before word rest : Bytes)
    → text ≡ before ++ (word ++ rest)
    → AllWord word
    → word_start text (length before + length word) ≡ word_start text (length before)
unfolding word_start
word_start-word text before [] rest e all =
    ap (word_start text) (let z : length before + 0 ≡ length before = omega arith in z)
word_start-word text before (c ∷ word) rest e all =
    let on : length before + suc (length word) ≡ length (before ++ c ∷ []) + length word =
      omega (arith, length-append before (c ∷ [])) in
    let one : length (before ++ c ∷ []) ≡ suc (length before) =
      omega (arith, length-append before (c ∷ [])) in
    let here : get_or text (length before) 0 ≡ c = get_or-length text before (word ++ rest) c e in
    ap (word_start text) on
    ∙ word_start-word text (before ++ c ∷ []) word rest
        (e ∙ sym (append_assoc before (c ∷ []) (word ++ rest))) all.1
    ∙ ap (word_start text) one
    ∙ rw (here, all.0) refl

word_length-append :
    (word after : Bytes)
    → AllWord word
    → StartsOutside after
    → word_length (word ++ after) ≡ length word
unfolding word_length
word_length-append [] [] all outside = refl
word_length-append [] (c ∷ after) all outside = rw outside refl
word_length-append (c ∷ word) after all outside =
    rw (all.0, word_length-append word after all.1 outside) refl

-- The prefix at an offset is the run of word bytes that ends there; what stands before the run is
-- empty or ends with another byte.
pub prefix_at-word :
    (before word after : Bytes)
    → EndsOutside before
    → AllWord word
    → prefix_at (before ++ (word ++ after)) (length before + length word) ≡ word
unfolding prefix_at
prefix_at-word before word after ends all =
    let text = before ++ (word ++ after) in
    let size : length text ≡ length before + (length word + length after) =
      omega (arith, length-append before (word ++ after), length-append word after) in
    let inside : ltb (length text) (length before + length word) ≡ false =
      ge→ltb (length text) (length before + length word) (omega (arith, size)) in
    let start : word_start text (length before + length word) ≡ length before =
      word_start-word text before word after refl all
      ∙ word_start-outside text before (word ++ after) refl ends in
    let long : length before + length word - length before ≡ length word = omega arith in
    rw (prefix_at, inside, start, long, drop-length before (word ++ after), take-length word after)
      refl

-- The word at an offset is the run of word bytes around it; what stands before and behind the run is
-- empty, or ends or starts with another byte.
pub word_at-word :
    (before left right after : Bytes)
    → EndsOutside before
    → AllWord left
    → AllWord right
    → StartsOutside after
    → word_at (before ++ (left ++ (right ++ after))) (length before + length left) ≡ left ++ right
unfolding word_at
word_at-word before left right after ends all_left all_right starts =
    let text = before ++ (left ++ (right ++ after)) in
    let size : length text ≡ length before + (length left + (length right + length after)) = omega (
      arith,
      length-append before (left ++ (right ++ after)),
      length-append left (right ++ after),
      length-append right after,
    ) in
    let inside : ltb (length text) (length before + length left) ≡ false =
      ge→ltb (length text) (length before + length left) (omega (arith, size)) in
    let start : word_start text (length before + length left) ≡ length before =
      word_start-word text before left (right ++ after) refl all_left
      ∙ word_start-outside text before (left ++ (right ++ after)) refl ends in
    let split : drop (length before + length left) text ≡ right ++ after =
      drop-drop (length before) (length left) text
      ∙ ap (drop (length left)) (drop-length before (left ++ (right ++ after)))
      ∙ drop-length left (right ++ after) in
    let long : length before + length left + length right - length before ≡ length (left ++ right) =
      omega (arith, length-append left right) in
    rw
      (
        word_at,
        inside,
        split,
        word_length-append right after all_right starts,
        start,
        long,
        drop-length before (left ++ (right ++ after)),
        sym (append_assoc left right after),
        take-length (left ++ right) after,
      )
      refl
