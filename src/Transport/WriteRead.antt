-- ===== src/Transport/WriteRead.antt =====
-- What `lsp_protocol_write_frame` writes, `lsp_transport_parse_frame` reads
-- (ext/lsp_server_documents.c).
use ext_lsparrot.Zval.{Zval}
use ext_lsparrot.Transport.{Transport}
use ext_lsparrot.Base.{
  drop-length, take-length, ge→ltb, ◌%◌, drop-drop, ◌==◌, append_assoc, ℕ, suc, ◌+◌, ◌<◌, ◌≡◌, refl,
  sym, ap, ◌∙◌, true, false, none, some, [], ◌∷◌, ◌++◌, ltb, Bytes, codes, length, drop, All,
  All-append, length-append, lt→ltb, arith,
}
use ext_lsparrot.Base.Int.{print_nat}
use ext_lsparrot.Position.Utf8.{IsNotNewline}
use ext_lsparrot.Transport.Header.{
  size_mod, ended, scan_headers, is_end_line, is_length_line, strtoull,
}
use ext_lsparrot.Transport.Lines.{parse_frame-headers, scan-end_line, scan-length_line}
use ext_lsparrot.Transport.Decimal.{print_from-All, strtoull-print_nat}
use ext_lsparrot.Transport.Frame.{
  take_frame, deliver, take_body, parse_frame, advance, rx_compact, write_frame,
}

-- The header line without its newline, and the size of the headers.
abbrev length_line : ℕ → Bytes
length_line n = codes "Content-Length: " ++ (print_nat n ++ 13 ∷ [])

abbrev headers_size : ℕ → ℕ
headers_size n = length (length_line n) + 3

print_nat-IsNotNewline : (n : ℕ) → All IsNotNewline (print_nat n)
unfolding print_nat
print_nat-IsNotNewline n = print_from-All IsNotNewline 20 n [] (λ d h. omega arith) tt

length_line-IsNotNewline : (n : ℕ) → All IsNotNewline (length_line n)
length_line-IsNotNewline n =
    All-append IsNotNewline (codes "Content-Length: ") (print_nat n ++ 13 ∷ []) (omega arith)
      (All-append IsNotNewline (print_nat n) (13 ∷ []) (print_nat-IsNotNewline n) (omega arith))

length_line-is_length : (n : ℕ) → is_length_line (length_line n) ≡ true
unfolding is_length_line
length_line-is_length n = rw (
    let e : ltb 15 (length (length_line n)) ≡ true =
      lt→ltb 15 (length (length_line n)) (omega arith) in
    e)

length_line-is_no_end : (n : ℕ) → is_end_line (length_line n) ≡ false
unfolding is_end_line
length_line-is_no_end n = refl

length_line-strtoull :
    (n : ℕ) (rest : Bytes) → n < size_mod → strtoull (drop 15 (length_line n ++ 10 ∷ rest)) ≡ n
length_line-strtoull n rest h =
    rw (append_assoc (print_nat n) (13 ∷ []) (10 ∷ rest))
      (strtoull-print_nat n (13 ∷ 10 ∷ rest) h refl)

length_end : is_end_line (13 ∷ []) ≡ true
unfolding is_end_line
length_end = refl

-- The headers of a written frame, whatever stands behind them.
scan-write_frame :
    (n : ℕ) (rest : Bytes)
    → n < size_mod
    → scan_headers [] 0 none (length_line n ++ 10 ∷ 13 ∷ 10 ∷ rest)
      ≡ ended (headers_size n) (some n) rest
scan-write_frame n rest h =
    scan-length_line (length_line n) (13 ∷ 10 ∷ rest) 0 none (length_line-IsNotNewline n)
      (length_line-is_no_end n) (length_line-is_length n)
    ∙ rw (length_line-strtoull n (13 ∷ 10 ∷ rest) h) (
        scan-end_line (13 ∷ []) rest (suc (0 + length (length_line n))) (some n) (omega arith)
          length_end
        ∙ ap (λ (k : ℕ). ended k (some n) rest) (omega arith))

headers_size-le :
    (n : ℕ) (body : Bytes) → length body ≡ n → headers_size n + n ≡ length (write_frame body)
unfolding write_frame
headers_size-le n body e = rw (sym e) (
    omega (
      arith,
      length-append {0} (print_nat (length body)) (13 ∷ []),
      length-append {0} (print_nat (length body)) (codes "\r\n\r\n" ++ body),
    ))

write_frame-lines :
    (body rest : Bytes)
    → write_frame body ++ rest ≡ length_line (length body) ++ 10 ∷ 13 ∷ 10 ∷ (body ++ rest)
unfolding write_frame
write_frame-lines body rest =
    ap (λ (s : Bytes). codes "Content-Length: " ++ s)
      (append_assoc (print_nat (length body)) (codes "\r\n\r\n" ++ body) rest
        ∙ sym (append_assoc (print_nat (length body)) (13 ∷ []) (10 ∷ 13 ∷ 10 ∷ (body ++ rest))))

-- The state behind the frame: the bytes that follow it, at the start of the buffer.
abbrev pub rest_of : Transport → Bytes → Transport
rest_of t rest = record t { rx_buffer = rest; rx_offset = 0 }

rx_compact-advance :
    (t : Transport) (k : ℕ)
    → 0 < k
    → rx_compact (advance t k) ≡ rest_of t (drop k (drop t.rx_offset t.rx_buffer))
unfolding rx_compact
rx_compact-advance t k h =
    rw (let e : t.rx_offset + k == 0 ≡ false = ground arith in e)
      (ap (rest_of t) (drop-drop t.rx_offset k t.rx_buffer))

module _ (decode : Bytes → Zval) where
  take_body_complete :
      (t : Transport) (size : ℕ) (body rest : Bytes)
      → 0 < length body
      → size + length body < size_mod
      → take_body decode t (size + length (body ++ rest)) size (length body) (body ++ rest)
        ≡ deliver (decode body) (rx_compact (advance t (size + length body)))
  unfolding take_body
  take_body_complete t size body rest h small =
      rw (let e : length body == 0 ≡ false = ground arith in e) (
        rw
          (let e : ltb (size + length (body ++ rest)) ((size + length body) % size_mod) ≡ false =
              ge→ltb (size + length (body ++ rest)) ((size + length body) % size_mod)
                (omega (arith, length-append {0} body rest)) in
            e)
          (rw
            (let e : ltb (length (body ++ rest)) (length body) ≡ false =
                ge→ltb (length (body ++ rest)) (length body)
                  (omega (arith, length-append {0} body rest)) in
              e)
            (rw (take-length body rest))))

  take_frame_complete :
      (t : Transport) (body rest : Bytes)
      → drop t.rx_offset t.rx_buffer ≡ write_frame body ++ rest
      → 0 < length body
      → length (write_frame body) < size_mod
      → take_frame decode t
          (headers_size (length body) + length (body ++ rest))
          (ended (headers_size (length body)) (some (length body)) (body ++ rest))
        ≡ deliver (decode body) (rest_of t rest)
  unfolding take_frame
  take_frame_complete t body rest unread h small =
      take_body_complete t (headers_size (length body)) body rest h
        (omega (arith, headers_size-le (length body) body refl))
      ∙ ap (deliver (decode body)) (
          rx_compact-advance t (headers_size (length body) + length body) (omega arith)
          ∙ ap (rest_of t) (
              rw (headers_size-le (length body) body refl)
                (rw unread (drop-length (write_frame body) rest))))

  -- A frame at the head of the unread bytes is delivered as the decoded body, and the bytes behind
  -- it are left in the buffer. The body is not empty, and the frame's size fits a `size_t`.
  pub parse_frame-write_frame :
      (t : Transport) (body rest : Bytes)
      → drop t.rx_offset t.rx_buffer ≡ write_frame body ++ rest
      → 0 < length body
      → length (write_frame body) < size_mod
      → parse_frame decode t ≡ deliver (decode body) (rest_of t rest)
  parse_frame-write_frame t body rest unread h small =
      parse_frame-headers decode t (length_line (length body) ++ 10 ∷ 13 ∷ 10 ∷ (body ++ rest))
        (ended (headers_size (length body)) (some (length body)) (body ++ rest))
        (unread ∙ write_frame-lines body rest)
        (scan-write_frame (length body) (body ++ rest)
          (omega (arith, headers_size-le (length body) body refl)))
      ∙ ap
          (λ (k : ℕ).
            take_frame decode t k
              (ended (headers_size (length body)) (some (length body)) (body ++ rest)))
          (omega
            (arith, length-append {0} (length_line (length body)) (10 ∷ 13 ∷ 10 ∷ (body ++ rest))))
      ∙ take_frame_complete t body rest unread h small
