-- ===== src/Server/Params.antt =====
-- What the handlers make of the parameters of a document notification (ext/lsp_server_protocol.c,
-- `lsp_did_open`, `lsp_did_change`, `lsp_did_save`, `lsp_did_close`).
use ext_lsparrot.Base.{
  ◌≡◌, ℕ, suc, ◌+◌, ◌==◌, length, true, false, arith, refl, ap, Option, none, some, List, [], ◌∷◌,
  Bytes, bytes_eq,
}
use ext_lsparrot.Base.Dict.{find}
use ext_lsparrot.Base.Int.{ℤ}
use ext_lsparrot.Zval.{
  key_is_index, long_value, items_index, items_count, array_long, key_is, items_find, string_value,
  array_find, array_string, Zval, arr,
}
use ext_lsparrot.Transport.{Transport}
use ext_lsparrot.Server.{Document, Server}
use ext_lsparrot.Server.Sync.{
  open_document, change_document, save_document, close_document, did_open, did_change, did_save,
  did_close, last_change,
}
use ext_lsparrot.Server.Changes.{
  Event, whole, ranged, events_from, event_value, last_text, opens, changes, saves, saves_text,
  closes, params_of,
}

items_count-events_from :
    (i : ℕ) (events : List Event) → items_count (events_from i events) ≡ length events
unfolding items_count
items_count-events_from i [] = refl
items_count-events_from i (event ∷ events) = ap suc (items_count-events_from (suc i) events)

abbrev last_of : Event → List Event → Event
last_of event [] = event
last_of event (next ∷ events) = last_of next events

abbrev text_of : Event → Option Bytes
text_of (whole text) = some text
text_of (ranged range text) = none

items_index-last_of :
    (i m : ℕ) (event : Event) (events : List Event)
    → m ≡ i + length events
    → items_index (events_from i (event ∷ events)) m ≡ some (event_value (last_of event events))
unfolding items_index key_is_index
items_index-last_of i m event [] e = let here : (i == m) ≡ true = ground arith in rw here refl
items_index-last_of i m event (next ∷ events) e =
    let apart : (i == m) ≡ false = ground arith in
    rw apart (items_index-last_of (suc i) m next events (omega arith))

-- The event that counts is the last one.
last_change-last_of :
    (event : Event) (events : List Event)
    → last_change (some (arr (events_from 0 (event ∷ events))))
      ≡ some (event_value (last_of event events))
unfolding last_change items_count
last_change-last_of event events =
    rw (items_count-events_from 1 events)
      (items_index-last_of 0 (length events) event events (omega arith))

last_text_of :
    (event : Event) (events : List Event)
    → last_text (event ∷ events) ≡ text_of (last_of event events)
last_text_of (whole text) [] = refl
last_text_of (ranged range text) [] = refl
last_text_of event (next ∷ events) = last_text_of next events

module _ (parse : Bytes → Bytes → Zval) where
  -- What the handler does with the event that counts.
  abbrev pub after_event : Transport → Bytes → ℤ → Option Bytes → Server → Server
  after_event transport uri version none server = server
  after_event transport uri version (some text) server =
      change_document parse transport uri version text server

  did_change_last :
      (transport : Transport) (server : Server) (uri : Bytes) (version : ℤ) (events : List Event)
      (last : Event)
      → last_change (some (arr (events_from 0 events))) ≡ some (event_value last)
      → did_change parse transport (some (params_of (changes uri version events))) server
        ≡ after_event transport uri version (text_of last) server
  unfolding did_change array_string array_find string_value items_find key_is array_long long_value
      bytes_eq
  did_change_last transport server uri version events (whole text) e = rw e refl
  did_change_last transport server uri version events (ranged range text) e = rw e refl

  pub did_change_params :
      (transport : Transport) (server : Server) (uri : Bytes) (version : ℤ) (events : List Event)
      → did_change parse transport (some (params_of (changes uri version events))) server
        ≡ after_event transport uri version (last_text events) server
  unfolding did_change last_change items_count array_string array_find string_value items_find
      key_is array_long long_value bytes_eq
  did_change_params transport server uri version [] = refl
  did_change_params transport server uri version (event ∷ events) = rw (last_text_of event events) (
      did_change_last transport server uri version (event ∷ events) (last_of event events)
        (last_change-last_of event events))

  pub did_open_params :
      (server : Server) (uri language : Bytes) (version : ℤ) (text : Bytes)
      → did_open parse (some (params_of (opens uri language version text))) server
        ≡ open_document parse uri version text server
  unfolding did_open array_string array_find string_value items_find key_is array_long long_value
      bytes_eq
  did_open_params server uri language version text = refl

  pub did_close_params :
      (server : Server) (uri : Bytes)
      → did_close (some (params_of (closes uri))) server ≡ close_document uri server
  unfolding did_close array_string array_find string_value items_find key_is bytes_eq
  did_close_params server uri = refl

  -- A save looks the document up and takes the text that came along, if any.
  pub did_save_closed :
      (server : Server) (uri : Bytes)
      → find uri server.documents ≡ none
      → did_save parse (some (params_of (saves uri))) server ≡ server
  unfolding did_save array_string array_find string_value items_find key_is bytes_eq
  did_save_closed server uri closed = rw (did_save, closed) refl

  pub did_save_closed_text :
      (server : Server) (uri text : Bytes)
      → find uri server.documents ≡ none
      → did_save parse (some (params_of (saves_text uri text))) server ≡ server
  unfolding did_save array_string array_find string_value items_find key_is bytes_eq
  did_save_closed_text server uri text closed = rw (did_save, closed) refl

  pub did_save_open :
      (server : Server) (uri : Bytes) (document : Document)
      → find uri server.documents ≡ some document
      → did_save parse (some (params_of (saves uri))) server
        ≡ save_document parse uri none document server
  unfolding did_save array_string array_find string_value items_find key_is bytes_eq
  did_save_open server uri document open_now = rw (did_save, open_now) refl

  pub did_save_open_text :
      (server : Server) (uri text : Bytes) (document : Document)
      → find uri server.documents ≡ some document
      → did_save parse (some (params_of (saves_text uri text))) server
        ≡ save_document parse uri (some text) document server
  unfolding did_save array_string array_find string_value items_find key_is bytes_eq
  did_save_open_text server uri text document open_now = rw (did_save, open_now) refl
