-- ===== src/Transport/Overrun.antt =====
-- When `lsp_transport_parse_frame` (ext/lsp_server_documents.c) copies bytes from behind its buffer:
-- the sum of header size and announced length wraps around a `size_t`.
use ext_lsparrot.Base.{
  ge→ltb, take, ℕ, ◌+◌, ◌-◌, ◌%◌, ◌<◌, ◌≡◌, ◌≢◌, refl, false, inl, inr, Bool-cases, some, none, [],
  ◌++◌, Bytes, codes, arith, length, drop, ltb, ◌==◌, ltb→ge, ◌∙◌, lt→ltb,
}
use mathlib.Core.Path.{ap₂}
use ext_lsparrot.Zval.{Zval, is_array}
use ext_lsparrot.Transport.{Transport}
use ext_lsparrot.Transport.Header.{
  Headers, open_ended, ended, scan_headers, size_mod, is_end_line, is_length_line, strtoull,
}
use ext_lsparrot.Transport.Lines.{parse_frame-headers}
use ext_lsparrot.Transport.Frame.{
  advance, rx_compact, overrun, deliver, take_body, take_frame, parse_frame,
}
use ext_lsparrot.Transport.Progress.{Splits, scan_headers-Splits, unread}

-- The length that the headers announce does not wrap around with their size.
abbrev pub IsSmall : Headers → Type 0
IsSmall open_ended = Unit
IsSmall (ended size none rest) = Unit
IsSmall (ended size (some content_length) rest) = size + content_length < size_mod

deliver-ne-overrun : (value : Zval) (t : Transport) → deliver value t ≢ overrun
unfolding deliver
deliver-ne-overrun value t = elim (Bool-cases (is_array (some value))) [
  | inl array ↦ rw array (λ e. cc)
  | inr other ↦ rw other (λ e. cc)
]

module _ (decode : Bytes → Zval) (t : Transport) where
  take_body-in_buffer :
      (available size content_length : ℕ) (rest : Bytes)
      → size + length rest ≡ available
      → size + content_length < size_mod
      → take_body decode t available size content_length rest ≢ overrun
  unfolding take_body
  take_body-in_buffer available size content_length rest e small =
      elim (Bool-cases (content_length == 0)) [
        | inl none_there ↦ rw none_there (λ p. cc)
        | inr some_there ↦
            rw some_there (elim (Bool-cases (ltb available ((size + content_length) % size_mod))) [
              | inl short ↦ rw short (λ p. cc)
              | inr enough ↦ rw enough (
                  rw
                    (let fits : ltb (length rest) content_length ≡ false =
                        ge→ltb (length rest) content_length (
                          omega (
                            arith,
                            ltb→ge available ((size + content_length) % size_mod) enough,
                          )) in
                      fits)
                    (deliver-ne-overrun (decode (take content_length rest))
                      (rx_compact (advance t (size + content_length)))))
            ])
      ]

  take_frame-in_buffer :
      (available : ℕ) (headers : Headers)
      → Splits available headers
      → IsSmall headers
      → take_frame decode t available headers ≢ overrun
  unfolding take_frame
  take_frame-in_buffer available open_ended s h = λ e. cc
  take_frame-in_buffer available (ended size none rest) s h = λ e. cc
  take_frame-in_buffer available (ended size (some content_length) rest) s h =
      take_body-in_buffer available size content_length rest s.1 h

  -- A frame whose announced length does not wrap around is copied from inside the buffer.
  pub parse_frame-in_buffer :
      IsSmall (scan_headers [] 0 none (drop t.rx_offset t.rx_buffer))
      → parse_frame decode t ≢ overrun
  unfolding parse_frame
  parse_frame-in_buffer =
      take_frame-in_buffer (unread t) (scan_headers [] 0 none (drop t.rx_offset t.rx_buffer)) (
        rw (let e : 0 + unread t ≡ unread t = omega arith in e) at
          (scan_headers-Splits [] 0 none (drop t.rx_offset t.rx_buffer)))

-- A header that announces minus one byte.
abbrev pub minus_one : Bytes
minus_one = codes "Content-Length: -1\r\n\r\n"

scan-minus_one :
    (rest : Bytes)
    → scan_headers [] 0 none (minus_one ++ rest) ≡ ended 22 (some (size_mod - 1)) rest
unfolding scan_headers is_end_line is_length_line strtoull
scan-minus_one rest = refl

take_body-minus_one :
    (decode : Bytes → Zval) (t : Transport) (rest : Bytes)
    → length rest < size_mod - 1
    → take_body decode t (22 + length rest) 22 (size_mod - 1) rest ≡ overrun
unfolding take_body
take_body-minus_one decode t rest h =
    rw (let e : ltb (22 + length rest) 21 ≡ false = ge→ltb (22 + length rest) 21 (omega arith) in e)
      (rw (lt→ltb (length rest) (size_mod - 1) h))

-- Whatever follows such a header, the copy of the body leaves the buffer: the sum of 22 and
-- 2 ^ 64 - 1 is 21 in a `size_t`, so the frame looks complete.
pub parse_frame-minus_one :
    (decode : Bytes → Zval) (t : Transport) (rest : Bytes)
    → t.rx_offset ≡ 0
    → t.rx_buffer ≡ minus_one ++ rest
    → length rest < size_mod - 1
    → parse_frame decode t ≡ overrun
parse_frame-minus_one decode t rest start buffer h =
    parse_frame-headers decode t (minus_one ++ rest) (ended 22 (some (size_mod - 1)) rest)
      (ap₂ drop start buffer) (scan-minus_one rest)
    ∙ (unfold take_frame in
        rw (let e : length (minus_one ++ rest) ≡ 22 + length rest = omega arith in e)
          (take_body-minus_one decode t rest h))
