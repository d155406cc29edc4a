-- ===== src/Scan/Brackets.antt =====
-- Matching brackets (ext/lsp_server_phpdoc.c, `lsp_find_matching_open_paren`,
-- `lsp_find_matching_open_bracket`).
use ext_lsparrot.Base.{
  ◌≡◌, refl, sym, ap, ◌∙◌, ℕ, suc, ◌+◌, ◌-◌, ◌<◌, false, some, [], ◌∷◌, ◌++◌, ◌==◌, ==_refl, Bytes,
  length, length-append, append_assoc, arith, leb,
}
use ext_lsparrot.Scan.{scan_open, find_matching_open}
use ext_lsparrot.Scan.Words.{get_or-length}

lt→leb_false : (a b : ℕ) → a < b → leb b a ≡ false
lt→leb_false a b h = ground arith

module _ (open_byte close_byte : ℕ) where
  -- A text whose brackets match.
  pub data Balanced : Bytes → Type 0 where
    nothing : Balanced []
    other :
        (c : ℕ) (s : Bytes)
        → (c == close_byte) ≡ false
        → (c == open_byte) ≡ false
        → Balanced s
        → Balanced (c ∷ s)
    nested : (s t : Bytes) → Balanced s → Balanced t → Balanced (open_byte ∷ (s ++ close_byte ∷ t))

  module _ (apart : (open_byte == close_byte) ≡ false) (text : Bytes) where
    step_other :
        (pre rest : Bytes) (c depth : ℕ)
        → text ≡ pre ++ c ∷ rest
        → (c == close_byte) ≡ false
        → (c == open_byte) ≡ false
        → scan_open open_byte close_byte text (suc (length pre)) depth
          ≡ scan_open open_byte close_byte text (length pre) depth
    unfolding scan_open
    step_other pre rest c depth e not_close not_open =
        rw (get_or-length text pre rest c e, not_close, not_open) refl

    step_close :
        (pre rest : Bytes) (depth : ℕ)
        → text ≡ pre ++ close_byte ∷ rest
        → scan_open open_byte close_byte text (suc (length pre)) depth
          ≡ scan_open open_byte close_byte text (length pre) (suc depth)
    unfolding scan_open
    step_close pre rest depth e =
        rw (get_or-length text pre rest close_byte e, ==_refl close_byte) refl

    step_open :
        (pre rest : Bytes) (depth : ℕ)
        → text ≡ pre ++ open_byte ∷ rest
        → scan_open open_byte close_byte text (suc (length pre)) (suc (suc depth))
          ≡ scan_open open_byte close_byte text (length pre) (suc depth)
    unfolding scan_open
    step_open pre rest depth e =
        let some_left : (suc (suc depth) == 0) ≡ false = ground arith in
        let more_left : (suc (suc depth) == 1) ≡ false = ground arith in
        let one_less : suc (suc depth) - 1 ≡ suc depth = omega arith in
        rw
          (
            get_or-length text pre rest open_byte e,
            apart,
            ==_refl open_byte,
            some_left,
            more_left,
            one_less,
          )
          refl

    step_found :
        (pre rest : Bytes)
        → text ≡ pre ++ open_byte ∷ rest
        → scan_open open_byte close_byte text (suc (length pre)) 1 ≡ some (length pre)
    unfolding scan_open
    step_found pre rest e =
        rw (get_or-length text pre rest open_byte e, apart, ==_refl open_byte) refl

    longer : (pre : Bytes) (c : ℕ) → length (pre ++ c ∷ []) ≡ suc (length pre)
    longer pre c = omega (arith, length-append pre (c ∷ []))

    -- The scan goes over a balanced text as if it were not there.
    scan_open-Balanced :
        (pre s rest : Bytes) (depth : ℕ)
        → Balanced s
        → text ≡ pre ++ (s ++ rest)
        → scan_open open_byte close_byte text (length pre + length s) (suc depth)
          ≡ scan_open open_byte close_byte text (length pre) (suc depth)
    scan_open-Balanced pre s rest depth nothing e =
        ap (λ n. scan_open open_byte close_byte text n (suc depth))
          (let z : length pre + 0 ≡ length pre = omega arith in z)
    scan_open-Balanced pre s rest depth (other c s' not_close not_open inner) e =
        let on : length pre + suc (length s') ≡ length (pre ++ c ∷ []) + length s' =
          omega (arith, longer pre c) in
        ap (λ n. scan_open open_byte close_byte text n (suc depth)) on
        ∙ scan_open-Balanced (pre ++ c ∷ []) s' rest depth inner
            (e ∙ sym (append_assoc pre (c ∷ []) (s' ++ rest)))
        ∙ ap (λ n. scan_open open_byte close_byte text n (suc depth)) (longer pre c)
        ∙ step_other pre (s' ++ rest) c (suc depth) e not_close not_open
    scan_open-Balanced pre s rest depth (nested i t inner behind) e =
        let f : Bytes = pre ++ open_byte ∷ [] in
        let g : Bytes = f ++ i in
        let h : Bytes = g ++ close_byte ∷ [] in
        let at_f : text ≡ f ++ (i ++ close_byte ∷ (t ++ rest)) =
          e
          ∙ ap (λ b. pre ++ open_byte ∷ b) (append_assoc i (close_byte ∷ t) rest)
          ∙ sym (append_assoc pre (open_byte ∷ []) (i ++ close_byte ∷ (t ++ rest))) in
        let at_g : text ≡ g ++ close_byte ∷ (t ++ rest) =
          at_f ∙ sym (append_assoc f i (close_byte ∷ (t ++ rest))) in
        let at_h : text ≡ h ++ (t ++ rest) =
          at_g ∙ sym (append_assoc g (close_byte ∷ []) (t ++ rest)) in
        let on : length pre + suc (length (i ++ close_byte ∷ t)) ≡ length h + length t = omega (
          arith,
          longer pre open_byte,
          length-append f i,
          longer g close_byte,
          length-append i (close_byte ∷ t),
        ) in
        ap (λ n. scan_open open_byte close_byte text n (suc depth)) on
        ∙ scan_open-Balanced h t rest depth behind at_h
        ∙ ap (λ n. scan_open open_byte close_byte text n (suc depth)) (longer g close_byte)
        ∙ step_close g (t ++ rest) (suc depth) at_g
        ∙ ap (λ n. scan_open open_byte close_byte text n (suc (suc depth))) (length-append f i)
        ∙ scan_open-Balanced f i (close_byte ∷ (t ++ rest)) (suc depth) inner at_f
        ∙ ap (λ n. scan_open open_byte close_byte text n (suc (suc depth))) (longer pre open_byte)
        ∙ step_open pre (i ++ close_byte ∷ (t ++ rest)) depth
            (e ∙ ap (λ b. pre ++ open_byte ∷ b) (append_assoc i (close_byte ∷ t) rest))

  -- The bracket that matches a closing one is the opening one before the balanced text between them,
  -- whatever stands before and behind; the two brackets are different bytes.
  pub find_matching_open-Balanced :
      (before inner behind : Bytes)
      → (open_byte == close_byte) ≡ false
      → Balanced inner
      → find_matching_open open_byte close_byte
          (before ++ open_byte ∷ (inner ++ close_byte ∷ behind))
          (suc (length before) + length inner)
        ≡ some (length before)
  unfolding find_matching_open
  find_matching_open-Balanced before inner behind apart balanced =
      let text = before ++ open_byte ∷ (inner ++ close_byte ∷ behind) in
      let f : Bytes = before ++ open_byte ∷ [] in
      let at_f : text ≡ f ++ (inner ++ close_byte ∷ behind) =
        sym (append_assoc before (open_byte ∷ []) (inner ++ close_byte ∷ behind)) in
      let at_g : text ≡ (f ++ inner) ++ close_byte ∷ behind =
        at_f ∙ sym (append_assoc f inner (close_byte ∷ behind)) in
      let place : suc (length before) + length inner ≡ length (f ++ inner) =
        omega (arith, longer apart text before open_byte, length-append f inner) in
      let size : length text ≡ length (f ++ inner) + suc (length behind) =
        ap length at_g ∙ length-append (f ++ inner) (close_byte ∷ behind) in
      let inside : leb (length text) (length (f ++ inner)) ≡ false =
        lt→leb_false (length (f ++ inner)) (length text) (omega (arith, size)) in
      let here = get_or-length text (f ++ inner) behind close_byte at_g in
      let loop : scan_open open_byte close_byte text (length (f ++ inner)) 1
          ≡ some (length before) =
        ap (λ n. scan_open open_byte close_byte text n 1) (length-append f inner)
        ∙ scan_open-Balanced apart text f inner (close_byte ∷ behind) 0 balanced at_f
        ∙ ap (λ n. scan_open open_byte close_byte text n 1) (longer apart text before open_byte)
        ∙ step_found apart text before (inner ++ close_byte ∷ behind) refl in
      rw (place, inside, here, ==_refl close_byte) loop
