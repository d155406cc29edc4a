-- ===== src/Transport.antt =====
-- The receive side of the protocol (ext/lsp_server_documents.c): the buffer of received bytes, the
-- queue of decoded messages and the set of cancelled request ids, which are file-level variables
-- there and one record here. `Transport.Header` scans frame headers, `Transport.Frame` takes frames
-- off the buffer, `Transport.Queue` is the message queue, `Transport.Next` the waiting loop.
pub mod Header
pub mod Frame
pub mod Decimal
pub mod Lines
pub mod WriteRead
pub mod Progress
pub mod Overrun
pub mod Stream
pub mod Queue
pub mod Cancel
pub mod Next
pub mod Fifo
pub mod Supersede
pub mod EndToEnd
mod QueueTests
mod Tests
use ext_lsparrot.Base.{ℕ, Bool, List, Bytes, false, []}
use ext_lsparrot.Zval.{Zval}

-- `lsp_rx_buffer`, `lsp_rx_offset`, `lsp_rx_eof`, `lsp_pending_messages`, `lsp_pending_head` and the
-- keys of `lsp_cancelled_ids`. A buffer that is NULL is the empty one: both hold no frame. The two
-- `_initialized` flags are not kept: a queue or a set that is not there is empty.
pub record Transport : Type 0 where
  pub rx_buffer : Bytes
  pub rx_offset : ℕ
  pub rx_eof : Bool
  pub pending_messages : List Zval
  pub pending_head : ℕ
  pub cancelled_ids : List Bytes

-- `lsp_transport_shutdown`, and the state in which the process starts.
abbrev pub transport_shutdown : Transport
transport_shutdown = record {
  rx_buffer = [];
  rx_offset = 0;
  rx_eof = false;
  pending_messages = [];
  pending_head = 0;
  cancelled_ids = [];
}
