-- ===== src/Transport/Stream.antt =====
-- A stream of frames becomes the queue of their messages: `lsp_transport_drain_frames`
-- (ext/lsp_server_documents.c).
use ext_lsparrot.Base.{
  append_assoc, append-nil, ℕ, zero, suc, ◌≤◌, ◌<◌, ◌≡◌, refl, sym, ap, ◌∙◌, true, some, none, List,
  [], ◌∷◌, ◌++◌, Bytes, map, length, All, length-append, arith,
}
use ext_lsparrot.Zval.{Zval, is_array}
use ext_lsparrot.Transport.{Transport}
use ext_lsparrot.Transport.Header.{open_ended, scan_headers, size_mod}
use ext_lsparrot.Transport.Lines.{parse_frame-headers}
use ext_lsparrot.Transport.Frame.{
  write_frame, incomplete, message, drained, enqueue, deliver, take_frame, parse_frame, drain_from,
  drain_frames,
}
use ext_lsparrot.Transport.WriteRead.{rest_of, parse_frame-write_frame}

module _ (decode : Bytes → Zval) where
  -- Bodies that a sender may frame, each of them an array of JSON.
  pub record IsSendable (body : Bytes) : Type 0 where
    pub not_empty : 0 < length body
    pub fits : length (write_frame body) < size_mod
    pub decodes : is_array (some (decode body)) ≡ true

-- Frames, one behind the other.
unfoldable pub frames : List Bytes → Bytes
unfolding write_frame
frames [] = []
frames (body ∷ bodies) = write_frame body ++ frames bodies

length-frames : (bodies : List Bytes) → length bodies ≤ length (frames bodies)
unfolding frames
length-frames [] = omega arith
length-frames (body ∷ bodies) =
    omega (arith, length-frames bodies, length-append {0} (write_frame body) (frames bodies))

-- The queue with the messages added.
abbrev pub enqueue_all : Transport → List Zval → Transport
enqueue_all t values = record t { pending_messages = t.pending_messages ++ values }

deliver-array :
    (value : Zval) (t : Transport)
    → is_array (some value) ≡ true
    → deliver value t ≡ message value t
unfolding deliver
deliver-array value t h = rw h

module _ (decode : Bytes → Zval) (tail : Bytes)
    (cut : scan_headers [] 0 none tail ≡ open_ended) where
  parse_frame-cut : (t : Transport) → parse_frame decode (rest_of t tail) ≡ incomplete
  parse_frame-cut t =
      parse_frame-headers decode (rest_of t tail) tail open_ended refl cut
      ∙ unfold take_frame in refl

  drain_from-cut :
      (fuel : ℕ) (t : Transport)
      → drain_from decode (suc fuel) (rest_of t tail) ≡ drained (rest_of t tail)
  unfolding drain_from
  drain_from-cut fuel t = rw (parse_frame-cut t, drain_from)

  drain_from-frame :
      (fuel : ℕ) (t : Transport) (body rest : Bytes)
      → IsSendable decode body
      → drain_from decode (suc fuel) (rest_of t (write_frame body ++ rest))
        ≡ drain_from decode fuel (rest_of (enqueue t (decode body)) rest)
  unfolding drain_from
  drain_from-frame fuel t body rest s =
      rw
        (
          parse_frame-write_frame decode (rest_of t (write_frame body ++ rest)) body rest refl
              s.not_empty s.fits,
          drain_from,
        )
        (rw (deliver-array (decode body) (rest_of t rest) s.decodes))

  drain_from-frames :
      (bodies : List Bytes) (fuel : ℕ) (t : Transport)
      → All (IsSendable decode) bodies
      → length bodies < fuel
      → drain_from decode fuel (rest_of t (frames bodies ++ tail))
        ≡ drained (rest_of (enqueue_all t (map decode bodies)) tail)
  unfolding frames
  drain_from-frames bodies zero t s h = absurd (omega arith)
  drain_from-frames [] (suc fuel) t s h =
      drain_from-cut fuel t
      ∙ ap
          (λ (q : List Zval).
            drained (record t { rx_buffer = tail; rx_offset = 0; pending_messages = q }))
          (sym (append-nil t.pending_messages))
  drain_from-frames (body ∷ bodies) (suc fuel) t s h =
      rw (append_assoc (write_frame body) (frames bodies) tail) (
        drain_from-frame fuel t body (frames bodies ++ tail) s.0
        ∙ drain_from-frames bodies fuel (enqueue t (decode body)) s.1 (omega arith)
        ∙ ap
            (λ (q : List Zval).
              drained (record t { rx_buffer = tail; rx_offset = 0; pending_messages = q }))
            (append_assoc t.pending_messages (decode body ∷ []) (map decode bodies)))

  -- All the frames that have arrived are taken off the buffer, their messages stand in the queue in
  -- the order of arrival behind those that were there, and the cut headers of a frame that is still
  -- under way stay in the buffer; each frame fits a size_t, and its body is not empty and decodes to
  -- an array.
  pub drain_frames-frames :
      (bodies : List Bytes) (t : Transport)
      → All (IsSendable decode) bodies
      → drain_frames decode (rest_of t (frames bodies ++ tail))
        ≡ drained (rest_of (enqueue_all t (map decode bodies)) tail)
  unfolding drain_frames
  drain_frames-frames bodies t s =
      drain_from-frames bodies (suc (length (frames bodies ++ tail))) t s
        (omega (arith, length-append {0} (frames bodies) tail, length-frames bodies))
