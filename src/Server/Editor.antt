-- ===== src/Server/Editor.antt =====
-- The refinement of the editor's texts by the document table, one notification at a time
-- (ext/lsp_server_protocol.c).
use ext_lsparrot.Base.{
  ◌≡◌, refl, sym, ap, ◌∙◌, inl, inr, Bool-cases, Option, none, some, List, [], ◌∷◌, if◌then◌else◌,
  Bytes, bytes_eq, bytes_eq→eq,
}
use ext_lsparrot.Base.Dict.{find}
use ext_lsparrot.Base.Int.{ℤ}
use ext_lsparrot.Zval.{Zval}
use ext_lsparrot.Transport.{Transport}
use ext_lsparrot.Transport.Queue.{queue_supersedes_change}
use ext_lsparrot.Server.{Server}
use ext_lsparrot.Server.Caches.{evict_document_caches, member_cache_invalidate_path}
use ext_lsparrot.Server.Documents.{new_document, open_or_change, document_analyze}
use ext_lsparrot.Server.Sync.{
  open_document, change_document, save_document, close_document, did_save, with_text,
}
use ext_lsparrot.Server.Changes.{
  Edit, last_text, with_change, opens, changes, saves, saves_text, closes, Held, held_after,
  held_after_all, document_of, Shows, apply_edit, apply_edits, put_shows, del_shows,
  open_or_change_documents, with_saved, params_of,
}
use ext_lsparrot.Server.Params.{
  after_event, did_change_params, did_open_params, did_close_params, did_save_closed,
  did_save_closed_text, did_save_open, did_save_open_text,
}

module _ (parse : Bytes → Bytes → Zval) where
  change_document_documents :
      (transport : Transport) (uri : Bytes) (version : ℤ) (text : Bytes) (server : Server)
      → (change_document parse transport uri version text server).documents
        ≡ (open_or_change parse server uri version text).0.documents
  unfolding change_document
  change_document_documents transport uri version text server =
      elim (Bool-cases (queue_supersedes_change uri transport)) [
        | inl newer ↦ rw newer refl
        | inr last ↦ rw last refl
      ]

  -- Saving a document that was as new puts it back with the text that came along.
  save_document-Shows :
      (server : Server) (held : Held) (uri : Bytes) (text : Option Bytes) (version : ℤ)
      (old new : Bytes)
      → Shows parse server held
      → with_text parse text (new_document parse uri version old)
        ≡ record (new_document parse uri version old) { text = new }
      → (j : Bytes)
      → find j (save_document parse uri text (new_document parse uri version old) server).documents
        ≡ document_of parse j (if bytes_eq uri j then some (version, new) else held j)
  unfolding save_document evict_document_caches member_cache_invalidate_path document_analyze
      new_document
  save_document-Shows server held uri text version old new shows e j =
      rw e (put_shows parse server.documents held uri version new shows j)

  open_or_change-Shows :
      (server : Server) (held : Held) (uri : Bytes) (version : ℤ) (text : Bytes)
      → Shows parse server held
      → (j : Bytes)
      → find j (open_or_change parse server uri version text).0.documents
        ≡ document_of parse j (if bytes_eq uri j then some (version, text) else held j)
  open_or_change-Shows server held uri version text shows j =
      rw (open_or_change_documents parse server held uri version text shows)
        (put_shows parse server.documents held uri version text shows j)

  after_event-Shows :
      (transport : Transport) (server : Server) (held : Held) (uri : Bytes) (version : ℤ)
      (text : Option Bytes)
      → Shows parse server held
      → (j : Bytes)
      → find j (after_event parse transport uri version text server).documents
        ≡ document_of parse j (if bytes_eq uri j then with_change version text (held j) else held j)
  after_event-Shows transport server held uri version none shows j =
      elim (Bool-cases (bytes_eq uri j)) [
        | inl same ↦ rw same (shows j)
        | inr apart ↦ rw apart (shows j)
      ]
  after_event-Shows transport server held uri version (some text) shows j =
      rw (change_document_documents transport uri version text server)
        (open_or_change-Shows server held uri version text shows j)

  unchanged :
      (uri j : Bytes) (held : Held)
      → held uri ≡ none
      → (text : Bytes) → (if bytes_eq uri j then with_saved text (held j) else held j) ≡ held j
  unchanged uri j held closed text = elim (Bool-cases (bytes_eq uri j)) [
    | inl same ↦ rw (same, sym (bytes_eq→eq uri j same), closed) refl
    | inr apart ↦ rw apart refl
  ]

  replaced :
      (uri j : Bytes) (held : Held) (version : ℤ) (old text : Bytes)
      → held uri ≡ some (version, old)
      → (if bytes_eq uri j then some (version, text) else held j)
        ≡ (if bytes_eq uri j then with_saved text (held j) else held j)
  replaced uri j held version old text there = elim (Bool-cases (bytes_eq uri j)) [
    | inl same ↦ rw (same, sym (bytes_eq→eq uri j same), there) refl
    | inr apart ↦ rw apart refl
  ]

  kept :
      (uri j : Bytes) (held : Held) (version : ℤ) (old : Bytes)
      → held uri ≡ some (version, old)
      → (if bytes_eq uri j then some (version, old) else held j) ≡ held j
  kept uri j held version old there = elim (Bool-cases (bytes_eq uri j)) [
    | inl same ↦ rw (same, sym (bytes_eq→eq uri j same), there) refl
    | inr apart ↦ rw apart refl
  ]

  did_save-Shows :
      (server : Server) (held : Held) (uri : Bytes)
      → Shows parse server held
      → (now : Option (ℤ × Bytes)) → held uri ≡ now
      → Shows parse (did_save parse (some (params_of (saves uri))) server) held
  unfolding new_document document_analyze
  did_save-Shows server held uri shows none closed j =
      rw (did_save_closed parse server uri (shows uri ∙ ap (document_of parse uri) closed))
        (shows j)
  did_save-Shows server held uri shows (some (version, old)) there j =
      rw
        (
          did_save_open parse server uri (new_document parse uri version old)
              (shows uri ∙ ap (document_of parse uri) there),
          sym (kept uri j held version old there),
        )
        (save_document-Shows server held uri none version old old shows refl j)

  did_save_text-Shows :
      (server : Server) (held : Held) (uri text : Bytes)
      → Shows parse server held
      → (now : Option (ℤ × Bytes)) → held uri ≡ now
      → Shows parse
          (did_save parse (some (params_of (saves_text uri text))) server)
          (held_after (saves_text uri text) held)
  unfolding new_document document_analyze
  did_save_text-Shows server held uri text shows none closed j =
      rw
        (
          did_save_closed_text parse server uri text
              (shows uri ∙ ap (document_of parse uri) closed),
          unchanged uri j held closed text,
        )
        (shows j)
  did_save_text-Shows server held uri text shows (some (version, old)) there j =
      rw
        (
          did_save_open_text parse server uri text (new_document parse uri version old)
              (shows uri ∙ ap (document_of parse uri) there),
          sym (replaced uri j held version old text there),
        )
        (save_document-Shows server held uri (some text) version old text shows refl j)

  apply_edit-Shows :
      (transport : Transport) (edit : Edit) (server : Server) (held : Held)
      → Shows parse server held
      → Shows parse (apply_edit parse transport edit server) (held_after edit held)
  unfolding open_document close_document evict_document_caches
  apply_edit-Shows transport (opens uri language version text) server held shows j =
      rw (did_open_params parse server uri language version text)
        (open_or_change-Shows server held uri version text shows j)
  apply_edit-Shows transport (changes uri version events) server held shows j =
      rw (did_change_params parse transport server uri version events)
        (after_event-Shows transport server held uri version (last_text events) shows j)
  apply_edit-Shows transport (saves uri) server held shows j =
      did_save-Shows server held uri shows _ refl j
  apply_edit-Shows transport (saves_text uri text) server held shows j =
      did_save_text-Shows server held uri text shows _ refl j
  apply_edit-Shows transport (closes uri) server held shows j =
      rw (did_close_params parse server uri) (del_shows parse server.documents held uri shows j)

  -- After any sequence of document notifications, the table holds for every URI what the editor
  -- holds there: no document where it is closed, and else the last text with its version, in a
  -- document that is the same as a newly opened one; if this was so before. The text of a change is
  -- that of its last event; a change without events, or whose last event is for a range, changes
  -- nothing.
  pub apply_edits-Shows :
      (transport : Transport) (edits : List Edit) (server : Server) (held : Held)
      → Shows parse server held
      → Shows parse (apply_edits parse transport edits server) (held_after_all edits held)
  apply_edits-Shows transport [] server held shows = shows
  apply_edits-Shows transport (edit ∷ edits) server held shows =
      apply_edits-Shows transport edits (apply_edit parse transport edit server)
        (held_after edit held) (apply_edit-Shows transport edit server held shows)
