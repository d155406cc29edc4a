-- ===== src/Transport/Lines.antt =====
-- What the header loop of `lsp_transport_parse_frame` (ext/lsp_server_documents.c) does with one
-- whole line.
use ext_lsparrot.Base.{
  ap, none, ℕ, suc, ◌+◌, ◌≡◌, ◌∙◌, refl, sym, true, false, Option, some, [], ◌∷◌, ◌++◌, Bytes, All,
  arith, length, drop, if◌then◌else◌, append_assoc, ◌==◌, append-nil,
}
use ext_lsparrot.Position.Utf8.{IsNotNewline}
use ext_lsparrot.Zval.{Zval}
use ext_lsparrot.Transport.{Transport}
use ext_lsparrot.Transport.Frame.{parse_frame, take_frame}
use ext_lsparrot.Transport.Header.{
  Headers, open_ended, ended, scan_headers, is_end_line, is_length_line, strtoull,
}

scan-byte :
    (acc rest : Bytes) (c size : ℕ) (found : Option ℕ)
    → IsNotNewline c
    → scan_headers acc size found (c ∷ rest) ≡ scan_headers (acc ++ c ∷ []) (suc size) found rest
unfolding scan_headers
scan-byte acc rest c size found h = rw (let e : c == 10 ≡ false = ground arith in e, scan_headers)

-- Up to the newline the loop collects the line.
scan-collect :
    (acc line rest : Bytes) (size : ℕ) (found : Option ℕ)
    → All IsNotNewline line
    → scan_headers acc size found (line ++ rest)
      ≡ scan_headers (acc ++ line) (size + length line) found rest
scan-collect acc [] rest size found h =
    rw (append-nil acc) (rw (let e : size + 0 ≡ size = omega arith in e))
scan-collect acc (c ∷ line) rest size found h =
    scan-byte acc (line ++ rest) c size found h.0
    ∙ scan-collect (acc ++ c ∷ []) line rest (suc size) found h.1
    ∙ rw (append_assoc acc (c ∷ []) line)
        (rw (let e : suc size + length line ≡ size + suc (length line) = omega arith in e))

scan-newline_end :
    (line rest : Bytes) (size : ℕ) (found : Option ℕ)
    → is_end_line line ≡ true
    → scan_headers line size found (10 ∷ rest) ≡ ended (suc size) found rest
unfolding scan_headers
scan-newline_end line rest size found h = rw (h, scan_headers)

scan-newline_field :
    (line rest : Bytes) (size : ℕ) (found : Option ℕ)
    → is_end_line line ≡ false
    → scan_headers line size found (10 ∷ rest)
      ≡ scan_headers []
          (suc size)
          (if is_length_line line then some (strtoull (drop 15 (line ++ 10 ∷ rest))) else found)
          rest
unfolding scan_headers
scan-newline_field line rest size found h = rw (h, scan_headers)

-- The empty line ends the headers.
pub scan-end_line :
    (line rest : Bytes) (size : ℕ) (found : Option ℕ)
    → All IsNotNewline line
    → is_end_line line ≡ true
    → scan_headers [] size found (line ++ 10 ∷ rest) ≡ ended (suc (size + length line)) found rest
scan-end_line line rest size found h e =
    scan-collect [] line (10 ∷ rest) size found h
    ∙ scan-newline_end line rest (size + length line) found e

-- A content length line sets the length.
pub scan-length_line :
    (line rest : Bytes) (size : ℕ) (found : Option ℕ)
    → All IsNotNewline line
    → is_end_line line ≡ false
    → is_length_line line ≡ true
    → scan_headers [] size found (line ++ 10 ∷ rest)
      ≡ scan_headers []
          (suc (size + length line))
          (some (strtoull (drop 15 (line ++ 10 ∷ rest))))
          rest
scan-length_line line rest size found h e l =
    scan-collect [] line (10 ∷ rest) size found h
    ∙ scan-newline_field line rest (size + length line) found e
    ∙ rw l

-- Without a newline nothing is decided.
pub scan-open :
    (line : Bytes) (size : ℕ) (found : Option ℕ)
    → All IsNotNewline line
    → scan_headers [] size found line ≡ open_ended
scan-open line size found h =
    rw (sym (append-nil line))
      (scan-collect [] line [] size found h ∙ (unfold scan_headers in refl))

-- A frame is taken by what its headers are.
pub parse_frame-headers :
    (decode : Bytes → Zval) (t : Transport) (text : Bytes) (headers : Headers)
    → drop t.rx_offset t.rx_buffer ≡ text
    → scan_headers [] 0 none text ≡ headers
    → parse_frame decode t ≡ take_frame decode t (length text) headers
unfolding parse_frame
parse_frame-headers decode t text headers unread scanned =
    ap (λ (u : Bytes). take_frame decode t (length u) (scan_headers [] 0 none u)) unread
    ∙ ap (take_frame decode t (length text)) scanned
