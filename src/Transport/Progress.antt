-- ===== src/Transport/Progress.antt =====
-- The loop of `lsp_transport_drain_frames` ends, and copies no byte from outside the buffer unless
-- the announced length wraps around (ext/lsp_server_documents.c).
use ext_lsparrot.Base.{
  take, ◌++◌, ℕ, zero, suc, ◌+◌, ◌%◌, ◌≤◌, ◌<◌, ◌≡◌, ◌≢◌, refl, inl, inr, Bool-cases, Option, some,
  none, [], ◌∷◌, Bytes, arith, length, drop, length-drop, ltb, ◌==◌, if◌then◌else◌, ltb→ge,
}
use ext_lsparrot.Zval.{Zval, is_array}
use ext_lsparrot.Transport.{transport_shutdown, Transport}
use ext_lsparrot.Transport.Header.{
  is_end_line, strtoull, is_length_line, Headers, open_ended, ended, scan_headers, size_mod,
}
use ext_lsparrot.Transport.Frame.{
  enqueue, advance, FrameResult, incomplete, message, skipped, overrun, Drained, drained, crashed,
  out_of_fuel, deliver, take_body, take_frame, parse_frame, drain_from, drain_frames, rx_compact,
}

-- The headers are not empty, and they and the rest make up the text.
abbrev pub Splits : ℕ → Headers → Type 0
Splits total open_ended = Unit
Splits total (ended size found rest) = (0 < size) × (size + length rest ≡ total)

pub scan_headers-Splits :
    (line : Bytes) (size : ℕ) (found : Option ℕ) (text : Bytes)
    → Splits (size + length text) (scan_headers line size found text)
unfolding scan_headers
scan_headers-Splits line size found [] = tt
scan_headers-Splits line size found (c ∷ rest) =
    rw (let e : size + suc (length rest) ≡ suc size + length rest = omega arith in e)
      (elim (Bool-cases (c == 10)) [
        | inr inside ↦
            rw (inside, scan_headers) (scan_headers-Splits (line ++ c ∷ []) (suc size) found rest)
        | inl newline ↦ elim (Bool-cases (is_end_line line)) [
          | inl last ↦ rw (newline, scan_headers) (rw last (omega arith, refl))
          | inr field ↦
              rw (newline, scan_headers)
                (rw field (
                  scan_headers-Splits [] (suc size)
                    (if is_length_line line
                      then some (strtoull (drop 15 (line ++ c ∷ rest)))
                      else found)
                    rest))
        ]
      ])

-- How much of the buffer is not read yet.
abbrev pub unread : Transport → ℕ
unread t = length (drop t.rx_offset t.rx_buffer)

-- A round that is not the last one leaves less than `n` bytes.
abbrev Shrinks : ℕ → FrameResult → Type 0
Shrinks n incomplete = Unit
Shrinks n (message value t) = unread t < n
Shrinks n (skipped t) = unread t < n
Shrinks n overrun = Unit

rx_compact-unread : (t : Transport) → unread (rx_compact t) ≡ unread t
unfolding rx_compact
rx_compact-unread t = elim (Bool-cases (t.rx_offset == 0)) [
  | inl start ↦ rw start
  | inr further ↦ rw further
]

deliver-Shrinks :
    (n : ℕ) (value : Zval) (t : Transport) → unread t < n → Shrinks n (deliver value t)
unfolding deliver
deliver-Shrinks n value t h = elim (Bool-cases (is_array (some value))) [
  | inl array ↦ rw array h
  | inr other ↦ rw other h
]

advance-unread : (t : Transport) (k : ℕ) → 0 < k → k ≤ unread t → unread (advance t k) < unread t
advance-unread t k h le =
    omega (
      arith,
      length-drop {0} t.rx_offset t.rx_buffer,
      length-drop {0} (t.rx_offset + k) t.rx_buffer,
    )

module _ (decode : Bytes → Zval) where
  take_body-Shrinks :
      (t : Transport) (available size content_length : ℕ) (rest : Bytes)
      → 0 < size
      → size + length rest ≡ unread t
      → Shrinks (unread t) (take_body decode t available size content_length rest)
  unfolding take_body
  take_body-Shrinks t available size content_length rest h e =
      elim (Bool-cases (content_length == 0)) [
        | inl none_there ↦ rw none_there (advance-unread t size h (omega arith))
        | inr some_there ↦
            rw some_there (elim (Bool-cases (ltb available ((size + content_length) % size_mod))) [
              | inl short ↦ rw short tt
              | inr enough ↦ rw enough (elim (Bool-cases (ltb (length rest) content_length)) [
                | inl over ↦ rw over tt
                | inr fits ↦ rw fits (
                    deliver-Shrinks (unread t) (decode (take content_length rest))
                      (rx_compact (advance t (size + content_length)))
                      (rw (rx_compact-unread (advance t (size + content_length))) (
                        advance-unread t (size + content_length) (omega arith)
                          (omega (arith, ltb→ge (length rest) content_length fits)))))
              ])
            ])
      ]

  take_frame-Shrinks :
      (t : Transport) (available : ℕ) (headers : Headers)
      → Splits (unread t) headers
      → Shrinks (unread t) (take_frame decode t available headers)
  unfolding take_frame
  take_frame-Shrinks t available open_ended h = tt
  take_frame-Shrinks t available (ended size none rest) h = advance-unread t size h.0 (omega arith)
  take_frame-Shrinks t available (ended size (some content_length) rest) h =
      take_body-Shrinks t available size content_length rest h.0 h.1

  parse_frame-Shrinks : (t : Transport) → Shrinks (unread t) (parse_frame decode t)
  unfolding parse_frame
  parse_frame-Shrinks t =
      take_frame-Shrinks t (unread t) (scan_headers [] 0 none (drop t.rx_offset t.rx_buffer)) (
        rw (let e : 0 + unread t ≡ unread t = omega arith in e) at
          (scan_headers-Splits [] 0 none (drop t.rx_offset t.rx_buffer)))

  abbrev drain_after : ℕ → FrameResult → Drained
  drain_after fuel incomplete = drained transport_shutdown
  drain_after fuel (message value t) = drain_from decode fuel (enqueue t value)
  drain_after fuel (skipped t) = drain_from decode fuel t
  drain_after fuel overrun = crashed

  -- Only a round that goes on can run out of fuel.
  drain_from-step :
      (fuel : ℕ) (t : Transport) (r : FrameResult)
      → parse_frame decode t ≡ r
      → drain_from decode (suc fuel) t ≡ out_of_fuel
      → drain_after fuel r ≡ out_of_fuel
  unfolding drain_from
  drain_from-step fuel t incomplete e h = ground arith
  drain_from-step fuel t (message value t') e h = ground arith
  drain_from-step fuel t (skipped t') e h = ground arith
  drain_from-step fuel t overrun e h = ground arith

  drain_from-total :
      (fuel : ℕ) (t : Transport) → unread t < fuel → drain_from decode fuel t ≢ out_of_fuel
  drain_from-total zero t h = absurd (omega arith)
  drain_from-total (suc fuel) t h = λ empty.
      after (parse_frame decode t) (parse_frame-Shrinks t) (drain_from-total fuel)
        (drain_from-step fuel t (parse_frame decode t) refl empty)
    where
      after :
          (r : FrameResult)
          → Shrinks (unread t) r
          → ((t' : Transport) → unread t' < fuel → drain_from decode fuel t' ≢ out_of_fuel)
          → drain_after fuel r ≡ out_of_fuel
          → ⊥
      after incomplete s total e = cc
      after (message value t') s total e = total (enqueue t' value) (omega arith) e
      after (skipped t') s total e = total t' (omega arith) e
      after overrun s total e = cc

  -- Draining ends: the rounds that the unread bytes allow are never used up.
  pub drain_frames-total : (t : Transport) → drain_frames decode t ≢ out_of_fuel
  unfolding drain_frames
  drain_frames-total t = drain_from-total (suc (unread t)) t (omega arith)
