-- ===== src/Transport/Tests.antt =====
-- Inputs for the theorems about the receive buffer, and runs of the definitions.

use ext_lsparrot.Transport.EndToEnd.{next_message-frames}
use ext_lsparrot.Transport.Fifo.{messages_of, queue}
use ext_lsparrot.Transport.Next.{track, delivered, next_message}
use ext_lsparrot.Base.{
  ◌==◌, ◌≡◌, ◌≢◌, ◌++◌, refl, List, [], ◌∷◌, Bytes, All, arith, codes, drop, map, none,
  if◌then◌else◌,
}
use ext_lsparrot.Base.Int.{print_nat, print_from}
use ext_lsparrot.Zval.{Zval, undef, arr, nil, item, name, str, is_array}
use ext_lsparrot.Transport.{Transport, transport_shutdown}
use ext_lsparrot.Transport.Header.{open_ended, scan_headers}
use ext_lsparrot.Transport.Frame.{
  write_frame, overrun, deliver, drained, out_of_fuel, parse_frame, drain_frames,
}
use ext_lsparrot.Transport.WriteRead.{rest_of, parse_frame-write_frame}
use ext_lsparrot.Transport.Stream.{IsSendable, frames, enqueue_all, drain_frames-frames}
use ext_lsparrot.Transport.Progress.{drain_frames-total}
use ext_lsparrot.Transport.Overrun.{
  minus_one, IsSmall, parse_frame-in_buffer, parse_frame-minus_one,
}

-- A decoder for the tests: a text in braces is an object that holds it.
abbrev toy_decode : Bytes → Zval
toy_decode [] = undef
toy_decode (c ∷ rest) = if c == b'{' then arr (item (name (codes "text")) (str rest) nil) else undef

abbrev bodies : List Bytes
bodies = codes "{one}" ∷ codes "{}" ∷ []

bodies-IsSendable : All (IsSendable toy_decode) bodies
unfolding is_array write_frame print_nat print_from
bodies-IsSendable = (
  record { not_empty = omega arith; fits = omega arith; decodes = refl },
  (record { not_empty = omega arith; fits = omega arith; decodes = refl }, tt),
)

write_frame-one : write_frame (codes "{one}") ≡ codes "Content-Length: 5\r\n\r\n{one}"
unfolding write_frame print_nat print_from
write_frame-one = refl

cut_headers : scan_headers [] 0 none (codes "Content-Le") ≡ open_ended
unfolding scan_headers
cut_headers = refl

drain_frames-frames_example :
    drain_frames toy_decode (rest_of transport_shutdown (frames bodies ++ codes "Content-Le"))
    ≡ drained
        (rest_of (enqueue_all transport_shutdown (map toy_decode bodies)) (codes "Content-Le"))
drain_frames-frames_example =
    drain_frames-frames toy_decode (codes "Content-Le") cut_headers bodies transport_shutdown
      bodies-IsSendable

-- A frame behind four bytes that are read already.
abbrev later : Transport
later = record transport_shutdown {
  rx_buffer = codes "done" ++ (write_frame (codes "{one}") ++ codes "Cont");
  rx_offset = 4;
}

parse_frame-write_frame_example :
    parse_frame toy_decode later
    ≡ deliver (toy_decode (codes "{one}")) (rest_of later (codes "Cont"))
parse_frame-write_frame_example =
    parse_frame-write_frame toy_decode later (codes "{one}") (codes "Cont") refl (omega arith)
      bodies-IsSendable.0.fits

drain_frames-total_example : drain_frames toy_decode later ≢ out_of_fuel
drain_frames-total_example = drain_frames-total toy_decode later

later-IsSmall : IsSmall (scan_headers [] 0 none (drop 4 later.rx_buffer))
unfolding scan_headers write_frame print_nat print_from
later-IsSmall = omega arith

parse_frame-in_buffer_example : parse_frame toy_decode later ≢ overrun
parse_frame-in_buffer_example = parse_frame-in_buffer toy_decode later later-IsSmall

abbrev hostile : Transport
hostile = record transport_shutdown { rx_buffer = minus_one ++ codes "{}" }

parse_frame-minus_one_example : parse_frame toy_decode hostile ≡ overrun
parse_frame-minus_one_example =
    parse_frame-minus_one toy_decode hostile (codes "{}") refl refl (omega arith)

next_message-frames_example :
    (t' : Transport) × (next_message toy_decode []
        (rest_of transport_shutdown (frames bodies ++ codes "Content-Le"))
      ≡ delivered (toy_decode (codes "{one}")) (track (toy_decode (codes "{one}")) t') [])
    × (queue t' ≡ toy_decode (codes "{}") ∷ [])
next_message-frames_example =
    next_message-frames toy_decode (codes "Content-Le") cut_headers [] transport_shutdown bodies
      (toy_decode (codes "{one}")) (toy_decode (codes "{}") ∷ []) (omega arith) bodies-IsSendable
      (unfold queue messages_of in refl)
