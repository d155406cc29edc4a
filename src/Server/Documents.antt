-- ===== src/Server/Documents.antt =====
-- The document table (ext/lsp_server_documents.c): `lsp_document_open_or_change`,
-- `lsp_document_from_uri`, `lsp_document_analyze`, `lsp_document_derived_invalidate` and
-- `lsp_document_derived_ensure`. PHP's parser is the parameter `parse` (text and URI), the derived
-- data of a text is `derive`, and the file system is `read_file`.
use ext_lsparrot.Base.{Option, none, some, false, Bytes}
use ext_lsparrot.Base.Dict.{find, put}
use ext_lsparrot.Base.Int.{ℤ, pos}
use ext_lsparrot.Uri.{uri_to_path}
use ext_lsparrot.Zval.{Zval, undef}
use ext_lsparrot.Server.{Document, Server}
use ext_lsparrot.Server.Caches.{evict_document_caches}

unfoldable pub derived_invalidate : Document → Document
derived_invalidate document = record document { derived = none }

module _ (derive : Bytes → Zval) where
  unfoldable pub derived_ensure : Document → Document
  derived_ensure document = elim document.derived [
    | some data_of_text ↦ document
    | none ↦ record document { derived = some (derive document.text) }
  ]

module _ (parse : Bytes → Bytes → Zval) where
  unfoldable pub document_analyze : Document → Document
  unfolding derived_invalidate
  document_analyze document = record (derived_invalidate document) {
    lsparrot = parse document.text document.uri;
  }

  unfoldable pub new_document : Bytes → ℤ → Bytes → Document
  unfolding document_analyze
  new_document uri version text = document_analyze (record {
    uri = uri;
    path = uri_to_path uri;
    text = text;
    version = version;
    lsparrot = undef;
    derived = none;
  })

  -- The document is shared with the table, which holds it under its URI.
  unfoldable pub change_existing : Server → Bytes → Document → ℤ → Bytes → Server × Document
  unfolding document_analyze
  change_existing server uri document version text =
      let changed = document_analyze (record document { text = text; version = version }) in
      (
        evict_document_caches uri false
            (record server { documents = put uri changed server.documents }),
        changed,
      )

  -- By what the table holds under the URI.
  unfoldable pub opened : Server → Bytes → ℤ → Bytes → Option Document → Server × Document
  unfolding change_existing new_document
  opened server uri version text none =
      let document = new_document uri version text in
      (record server { documents = put uri document server.documents }, document)
  opened server uri version text (some document) = change_existing server uri document version text

  unfoldable pub open_or_change : Server → Bytes → ℤ → Bytes → Server × Document
  unfolding opened
  open_or_change server uri version text =
      opened server uri version text (find uri server.documents)

  module _ (read_file : Bytes → Bytes) where
    -- By what the table holds under the URI: a document that is not open is read from its file.
    unfoldable pub looked_up : Server → Bytes → Option Document → Server × Document
    unfolding open_or_change
    looked_up server uri none = open_or_change server uri (pos 0) (read_file (uri_to_path uri))
    looked_up server uri (some document) = (server, document)

    unfoldable pub document_from_uri : Server → Bytes → Server × Document
    unfolding looked_up
    document_from_uri server uri = looked_up server uri (find uri server.documents)
