-- ===== src/Server/Changes.antt =====
-- What the document table promises the editor: after any sequence of document notifications it holds
-- exactly the texts that the editor holds (ext/lsp_server_protocol.c, `lsp_did_open`, `lsp_did_change`,
-- `lsp_did_save`, `lsp_did_close`).
use ext_lsparrot.Base.{
  ◌≡◌, refl, ap, inl, inr, ℕ, suc, Bool-cases, Option, none, some, List, [], ◌∷◌, if◌then◌else◌,
  Bytes, codes, bytes_eq, bytes_eq→eq,
}
use ext_lsparrot.Base.Dict.{Dict, find, put, del, find-put, find-del}
use ext_lsparrot.Base.Int.{ℤ, pos}
use ext_lsparrot.Zval.{Zval, long, str, arr, Items, nil, item, index, name}
use ext_lsparrot.Transport.{Transport}
use ext_lsparrot.Server.{Document, Server}
use ext_lsparrot.Server.Caches.{evict_document_caches}
use ext_lsparrot.Server.Documents.{
  new_document, opened, open_or_change, change_existing, document_analyze,
}
use ext_lsparrot.Server.Sync.{did_open, did_change, did_save, did_close}

-- One event of a change: a whole text, or a text for a range, which the server does not announce to
-- take.
pub data Event : Type 0 where
  whole : Bytes → Event
  ranged : Zval → Bytes → Event

-- The document notifications as an editor sends them; a change has any number of events.
pub data Edit : Type 0 where
  opens : (uri language : Bytes) → (version : ℤ) → (text : Bytes) → Edit
  changes : (uri : Bytes) → (version : ℤ) → (events : List Event) → Edit
  saves : (uri : Bytes) → Edit
  saves_text : (uri text : Bytes) → Edit
  closes : (uri : Bytes) → Edit

abbrev field : Bytes → Zval → Items → Items
field key value rest = item (name key) value rest

abbrev about : Items → Items → Zval
about members rest = arr (field (codes "textDocument") (arr members) rest)

abbrev pub event_value : Event → Zval
event_value (whole text) = arr (field (codes "text") (str text) nil)
event_value (ranged range text) =
    arr (field (codes "range") range (field (codes "text") (str text) nil))

abbrev pub events_from : ℕ → List Event → Items
events_from i [] = nil
events_from i (event ∷ events) =
    item (index (pos i)) (event_value event) (events_from (suc i) events)

abbrev pub params_of : Edit → Zval
params_of (opens uri language version text) =
    about
      (field (codes "uri") (str uri) (
        field (codes "languageId") (str language)
          (field (codes "version") (long version) (field (codes "text") (str text) nil))))
      nil
params_of (changes uri version events) =
    about (field (codes "uri") (str uri) (field (codes "version") (long version) nil))
      (field (codes "contentChanges") (arr (events_from 0 events)) nil)
params_of (saves uri) = about (field (codes "uri") (str uri) nil) nil
params_of (saves_text uri text) =
    about (field (codes "uri") (str uri) nil) (field (codes "text") (str text) nil)
params_of (closes uri) = about (field (codes "uri") (str uri) nil) nil

-- What the editor holds under a URI: the version and the text.
abbrev pub Held : Type 0
Held = Bytes → Option (ℤ × Bytes)

abbrev pub with_saved : Bytes → Option (ℤ × Bytes) → Option (ℤ × Bytes)
with_saved text none = none
with_saved text (some (version, old)) = some (version, text)

-- The text of the last event; none where there is no event, or where the last one is for a range.
abbrev pub last_text : List Event → Option Bytes
last_text [] = none
last_text (whole text ∷ []) = some text
last_text (ranged range text ∷ []) = none
last_text (event ∷ next ∷ events) = last_text (next ∷ events)

abbrev pub with_change : ℤ → Option Bytes → Option (ℤ × Bytes) → Option (ℤ × Bytes)
with_change version none now = now
with_change version (some text) now = some (version, text)

abbrev pub held_after : Edit → Held → Held
held_after (opens uri language version text) held j =
    if bytes_eq uri j then some (version, text) else held j
held_after (changes uri version events) held j =
    if bytes_eq uri j then with_change version (last_text events) (held j) else held j
held_after (saves uri) held j = held j
held_after (saves_text uri text) held j =
    if bytes_eq uri j then with_saved text (held j) else held j
held_after (closes uri) held j = if bytes_eq uri j then none else held j

abbrev pub held_after_all : List Edit → Held → Held
held_after_all [] held = held
held_after_all (edit ∷ edits) held = held_after_all edits (held_after edit held)

module _ (parse : Bytes → Bytes → Zval) where
  abbrev pub document_of : Bytes → Option (ℤ × Bytes) → Option Document
  document_of uri none = none
  document_of uri (some (version, text)) = some (new_document parse uri version text)

  -- The table holds what the editor holds, each document as if it had just been opened.
  abbrev pub Shows : Server → Held → Type 0
  Shows server held = (uri : Bytes) → find uri server.documents ≡ document_of uri (held uri)

  abbrev pub apply_edit : Transport → Edit → Server → Server
  apply_edit transport (opens uri language version text) server =
      did_open parse (some (params_of (opens uri language version text))) server
  apply_edit transport (changes uri version events) server =
      did_change parse transport (some (params_of (changes uri version events))) server
  apply_edit transport (saves uri) server = did_save parse (some (params_of (saves uri))) server
  apply_edit transport (saves_text uri text) server =
      did_save parse (some (params_of (saves_text uri text))) server
  apply_edit transport (closes uri) server = did_close (some (params_of (closes uri))) server

  abbrev pub apply_edits : Transport → List Edit → Server → Server
  apply_edits transport [] server = server
  apply_edits transport (edit ∷ edits) server =
      apply_edits transport edits (apply_edit transport edit server)

  pub put_shows :
      (documents : Dict Document) (held : Held) (uri : Bytes) (version : ℤ) (text : Bytes)
      → ((j : Bytes) → find j documents ≡ document_of j (held j))
      → (j : Bytes)
      → find j (put uri (new_document parse uri version text) documents)
        ≡ document_of j (if bytes_eq uri j then some (version, text) else held j)
  put_shows documents held uri version text shows j = elim (Bool-cases (bytes_eq uri j)) [
    | inl same ↦
        rw (find-put uri j (new_document parse uri version text) documents, same)
          (ap (λ u. some (new_document parse u version text)) (bytes_eq→eq uri j same))
    | inr apart ↦
        rw (find-put uri j (new_document parse uri version text) documents, apart) (shows j)
  ]

  pub del_shows :
      (documents : Dict Document) (held : Held) (uri : Bytes)
      → ((j : Bytes) → find j documents ≡ document_of j (held j))
      → (j : Bytes)
      → find j (del uri documents) ≡ document_of j (if bytes_eq uri j then none else held j)
  del_shows documents held uri shows j = elim (Bool-cases (bytes_eq uri j)) [
    | inl same ↦ rw (find-del uri j documents, same) refl
    | inr apart ↦ rw (find-del uri j documents, apart) (shows j)
  ]

  -- Whatever the table holds under the URI, the new text takes its place.
  opened_documents :
      (server : Server) (held : Option (ℤ × Bytes)) (uri : Bytes) (version : ℤ) (text : Bytes)
      → (opened parse server uri version text (document_of uri held)).0.documents
        ≡ put uri (new_document parse uri version text) server.documents
  unfolding opened change_existing evict_document_caches new_document document_analyze
  opened_documents server none uri version text = refl
  opened_documents server (some (old_version, old)) uri version text = refl

  pub open_or_change_documents :
      (server : Server) (held : Held) (uri : Bytes) (version : ℤ) (text : Bytes)
      → Shows server held
      → (open_or_change parse server uri version text).0.documents
        ≡ put uri (new_document parse uri version text) server.documents
  unfolding open_or_change
  open_or_change_documents server held uri version text shows =
      rw (shows uri) (opened_documents server (held uri) uri version text)
