-- ===== src/Transport/Frame.antt =====
-- `lsp_rx_compact`, `lsp_transport_parse_frame`, `lsp_transport_drain_frames`, and the frame writer
-- `lsp_protocol_write_frame` (ext/lsp_server_documents.c). PHP's JSON decoder is the parameter
-- `decode`; it leaves `undef` where it fails.
use ext_lsparrot.Base.{
  ℕ, zero, suc, ◌+◌, ◌%◌, none, some, [], ◌∷◌, ◌++◌, ltb, ◌==◌, if◌then◌else◌, Bytes, codes, length,
  take, drop,
}
use ext_lsparrot.Base.Int.{print_nat}
use ext_lsparrot.Zval.{Zval, is_array}
use ext_lsparrot.Transport.{Transport}
use ext_lsparrot.Transport.Header.{size_mod, Headers, open_ended, ended, scan_headers}

-- `lsp_protocol_write_frame`
unfoldable pub write_frame : Bytes → Bytes
unfolding print_nat
write_frame body =
    codes "Content-Length: " ++ (print_nat (length body) ++ (codes "\r\n\r\n" ++ body))

unfoldable pub rx_compact : Transport → Transport
rx_compact t =
    if t.rx_offset == 0
    then t
    else record t { rx_buffer = drop t.rx_offset t.rx_buffer; rx_offset = 0 }

-- `overrun`: the copy of the body would read behind the end of the buffer.
pub data FrameResult : Type 0 where
  incomplete : FrameResult
  message : Zval → Transport → FrameResult
  skipped : Transport → FrameResult
  overrun : FrameResult

-- `lsp_rx_offset += n`
abbrev pub advance : Transport → ℕ → Transport
advance t n = record t { rx_offset = t.rx_offset + n }

unfoldable pub deliver : Zval → Transport → FrameResult
unfolding is_array
deliver value t = if is_array (some value) then message value t else skipped t

-- How the loop of `lsp_transport_drain_frames` ends.
pub data Drained : Type 0 where
  drained : Transport → Drained
  crashed : Drained
  out_of_fuel : Drained

-- `add_next_index_zval(&lsp_pending_messages, &message)`
abbrev pub enqueue : Transport → Zval → Transport
enqueue t value = record t { pending_messages = t.pending_messages ++ value ∷ [] }

module _ (decode : Bytes → Zval) where
  -- A frame of `content_length` bytes behind headers of `size` bytes.
  unfoldable pub take_body : Transport → ℕ → ℕ → ℕ → Bytes → FrameResult
  unfolding deliver rx_compact
  take_body t available size content_length rest =
      if content_length == 0
      then skipped (advance t size)
      else if ltb available ((size + content_length) % size_mod)
      then incomplete
      else if ltb (length rest) content_length
      then overrun
      else deliver (decode (take content_length rest))
          (rx_compact (advance t (size + content_length)))

  unfoldable pub take_frame : Transport → ℕ → Headers → FrameResult
  unfolding take_body
  take_frame t available open_ended = incomplete
  take_frame t available (ended size none rest) = skipped (advance t size)
  take_frame t available (ended size (some content_length) rest) =
      take_body t available size content_length rest

  unfoldable pub parse_frame : Transport → FrameResult
  unfolding take_frame scan_headers
  parse_frame t =
      let unread = drop t.rx_offset t.rx_buffer in
      take_frame t (length unread) (scan_headers [] 0 none unread)

  unfoldable pub drain_from : ℕ → Transport → Drained
  unfolding parse_frame
  drain_from zero t = out_of_fuel
  drain_from (suc fuel) t = elim (parse_frame t) [
    | incomplete ↦ drained t
    | message value t' ↦ drain_from fuel (enqueue t' value)
    | skipped t' ↦ drain_from fuel t'
    | overrun ↦ crashed
  ]

  -- A frame takes at least one byte, so the number of bytes that are not read bounds the rounds.
  unfoldable pub drain_frames : Transport → Drained
  unfolding drain_from
  drain_frames t = drain_from (suc (length (drop t.rx_offset t.rx_buffer))) t
