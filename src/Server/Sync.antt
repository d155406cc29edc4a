-- ===== src/Server/Sync.antt =====
-- Document synchronisation (ext/lsp_server_protocol.c): `lsp_did_open`, `lsp_did_change`,
-- `lsp_did_save`, `lsp_did_change_watched_files` and `lsp_did_close`.
use ext_lsparrot.Base.{
  zero, suc, Bool, true, false, not, Option, none, some, List, [], ◌∷◌, ◌++◌, if◌then◌else◌, Bytes,
  codes,
}
use ext_lsparrot.Base.Dict.{find, put, del}
use ext_lsparrot.Base.Int.{ℤ, pos}
use ext_lsparrot.Uri.{uri_to_path}
use ext_lsparrot.Zval.{
  Zval, arr, Items, nil, item, array_find, array_string, array_long, items_count, items_index,
}
use ext_lsparrot.Transport.{Transport}
use ext_lsparrot.Transport.Queue.{queue_supersedes_change}
use ext_lsparrot.Server.{
  Document, Server, Effect, psalm_ls_open, psalm_ls_change, psalm_ls_save, psalm_ls_close,
  index_refresh_file, reschedule_analyzers, publish_diagnostics, publish_empty_diagnostics,
}
use ext_lsparrot.Server.Caches.{evict_document_caches, member_cache_invalidate_path}
use ext_lsparrot.Server.Documents.{document_analyze, open_or_change}

abbrev pub emit : Server → List Effect → Server
emit server effects = record server { effects = server.effects ++ effects }

abbrev pub text_document : Option Zval → Option Zval
text_document params = array_find params (codes "textDocument")

-- The last event of the batch, NULL where `contentChanges` is no array or is empty.
unfoldable pub last_change : Option Zval → Option Zval
unfolding items_count items_index
last_change (some (arr items)) = elim (items_count items) [
  | zero ↦ none
  | suc n ↦ items_index items n
]
last_change _ = none

abbrev pub is_there : Option Zval → Bool
is_there none = false
is_there (some v) = true

-- `lsp_did_close`, from the URI on
unfoldable pub close_document : Bytes → Server → Server
close_document uri server =
    let evicted = evict_document_caches uri true (emit server (psalm_ls_close uri ∷ [])) in
    emit (record evicted { documents = del uri evicted.documents })
      (publish_empty_diagnostics uri ∷ [])

unfoldable pub did_close : Option Zval → Server → Server
unfolding close_document
did_close params server = elim (array_string (text_document params) (codes "uri")) [
  | none ↦ server
  | some uri ↦ close_document uri server
]

-- One changed file of the watcher.
unfoldable pub file_changed : Zval → Server → Server
file_changed change server = elim (array_string (some change) (codes "uri")) [
  | none ↦ server
  | some uri ↦
      emit (member_cache_invalidate_path (uri_to_path uri) server)
        (index_refresh_file (uri_to_path uri) ∷ [])
]

unfoldable pub files_changed : Items → Server → Server
unfolding file_changed
files_changed nil server = server
files_changed (item key change rest) server = files_changed rest (file_changed change server)

-- The loop over the changed files; without a list of them the whole cache goes.
unfoldable pub changed_files : Option Zval → Server → Server
unfolding files_changed
changed_files (some (arr changes)) server = files_changed changes server
changed_files _ server = record server { member_cache = [] }

unfoldable pub did_change_watched_files : Option Zval → Server → Server
unfolding changed_files
did_change_watched_files params server = changed_files (array_find params (codes "changes")) server

module _ (parse : Bytes → Bytes → Zval) where
  unfoldable pub open_document : Bytes → ℤ → Bytes → Server → Server
  open_document uri version text server =
      let (opened, document) = open_or_change parse server uri version text in
      emit opened (psalm_ls_open document ∷ publish_diagnostics document ∷ [])

  unfoldable pub did_open : Option Zval → Server → Server
  unfolding open_document
  did_open params server = elim (array_string (text_document params) (codes "uri")) [
    | none ↦ server
    | some uri ↦ elim (array_string (text_document params) (codes "text")) [
      | none ↦ server
      | some text ↦
          open_document uri (array_long (text_document params) (codes "version") (pos 0)) text
            server
    ]
  ]

  -- `lsp_did_change`, from the document on. Diagnostics are left to a newer change that is queued.
  unfoldable pub change_document : Transport → Bytes → ℤ → Bytes → Server → Server
  change_document transport uri version text server =
      let (changed, document) = open_or_change parse server uri version text in
      let told = emit changed (psalm_ls_change document ∷ []) in
      if not (queue_supersedes_change uri transport)
      then emit told (publish_diagnostics document ∷ [])
      else told

  unfoldable pub did_change : Transport → Option Zval → Server → Server
  unfolding last_change change_document
  did_change transport params server =
      let change = last_change (array_find params (codes "contentChanges")) in
      if is_there (array_find change (codes "range"))
      then server
      else elim (array_string (text_document params) (codes "uri")) [
        | none ↦ server
        | some uri ↦ elim (array_string change (codes "text")) [
          | none ↦ server
          | some text ↦
              change_document transport uri
                (array_long (text_document params) (codes "version") (pos 0)) text server
        ]
      ]

  abbrev pub with_text : Option Bytes → Document → Document
  with_text none document = document
  with_text (some text) document = record document { text = text }

  unfoldable pub save_document : Bytes → Option Bytes → Document → Server → Server
  unfolding document_analyze
  save_document uri text document server =
      let saved = document_analyze parse (with_text text document) in
      let evicted =
        evict_document_caches uri true
          (record server { documents = put uri saved server.documents }) in
      emit (member_cache_invalidate_path saved.path evicted) (
        index_refresh_file saved.path
        ∷ psalm_ls_save saved
        ∷ reschedule_analyzers saved
        ∷ publish_diagnostics saved
        ∷ [])

  unfoldable pub did_save : Option Zval → Server → Server
  unfolding save_document
  did_save params server = elim (array_string (text_document params) (codes "uri")) [
    | none ↦ server
    | some uri ↦ elim (find uri server.documents) [
      | none ↦ server
      | some document ↦ save_document uri (array_string params (codes "text")) document server
    ]
  ]
