-- ===== src/Server/Fresh.antt =====
-- The documents agree with what they are derived from: the invariant of the document table
-- (ext/lsp_server_documents.c, ext/lsp_server_protocol.c).
use ext_lsparrot.Base.{◌≡◌, refl, ap, ◌⊎◌, inl, inr, Option, none, some, Bytes}
use ext_lsparrot.Base.Dict.{find, Each, put-Each}
use ext_lsparrot.Base.Int.{ℤ}
use ext_lsparrot.Uri.{uri_to_path}
use ext_lsparrot.Zval.{Zval}
use ext_lsparrot.Server.{Document, Server}
use ext_lsparrot.Server.Documents.{
  looked_up, opened, derived_invalidate, document_analyze, derived_ensure, new_document,
  change_existing, open_or_change, document_from_uri,
}
use ext_lsparrot.Server.Caches.{evict_document_caches}

module _ (parse : Bytes → Bytes → Zval) (derive : Bytes → Zval) where
  -- The document stands under its URI, its path is the URI's, its parse result is that of its text,
  -- and data derived from the text are those of this text.
  abbrev pub IsFresh : Bytes → Document → Type 0
  IsFresh key document =
      (document.uri ≡ key)
      × (document.path ≡ uri_to_path key)
      × (document.lsparrot ≡ parse document.text key)
      × ((document.derived ≡ none) ⊎ (document.derived ≡ some (derive document.text)))

  abbrev pub EachFresh : Server → Type 0
  EachFresh server = Each IsFresh server.documents

  new_document-IsFresh :
      (uri : Bytes) (version : ℤ) (text : Bytes) → IsFresh uri (new_document parse uri version text)
  unfolding new_document document_analyze derived_invalidate
  new_document-IsFresh uri version text = (refl, refl, refl, inl refl)

  pub document_analyze-IsFresh :
      (uri : Bytes) (document : Document)
      → document.uri ≡ uri
      → document.path ≡ uri_to_path uri
      → IsFresh uri (document_analyze parse document)
  unfolding document_analyze derived_invalidate
  document_analyze-IsFresh uri document at_uri at_path =
      (at_uri, at_path, ap (parse document.text) at_uri, inl refl)

  pub derived_ensure-IsFresh :
      (uri : Bytes) (document : Document)
      → IsFresh uri document
      → IsFresh uri (derived_ensure derive document)
  unfolding derived_ensure
  derived_ensure-IsFresh uri document fresh = elim fresh.3 [
    | inl missing ↦ rw missing (fresh.0, fresh.1, fresh.2, inr refl)
    | inr there ↦ rw there (fresh.0, fresh.1, fresh.2, inr refl)
  ]

  module _ (server : Server) (each : EachFresh server) where
    found-IsFresh :
        (uri : Bytes) (found : Option Document)
        → find uri server.documents ≡ found
        → (version : ℤ) (text : Bytes)
        → EachFresh (opened parse server uri version text found).0
          × IsFresh uri (opened parse server uri version text found).1
    unfolding opened change_existing evict_document_caches
    found-IsFresh uri none at version text =
        let fresh = new_document-IsFresh uri version text in
        (put-Each IsFresh uri _ server.documents each fresh, fresh)
    found-IsFresh uri (some document) at version text =
        let fresh =
          document_analyze-IsFresh uri (record document { text = text; version = version })
            (each uri document at).0 (each uri document at).1 in
        (put-Each IsFresh uri _ server.documents each fresh, fresh)

    pub open_or_change-EachFresh :
        (uri : Bytes) (version : ℤ) (text : Bytes)
        → EachFresh (open_or_change parse server uri version text).0
          × IsFresh uri (open_or_change parse server uri version text).1
    unfolding open_or_change
    open_or_change-EachFresh uri version text = found-IsFresh uri _ refl version text

    looked_up-EachFresh :
        (read_file : Bytes → Bytes) (uri : Bytes) (found : Option Document)
        → find uri server.documents ≡ found
        → EachFresh (looked_up parse read_file server uri found).0
          × IsFresh uri (looked_up parse read_file server uri found).1
    unfolding looked_up
    looked_up-EachFresh read_file uri none at = open_or_change-EachFresh uri _ _
    looked_up-EachFresh read_file uri (some document) at = (each, each uri document at)

    pub document_from_uri-EachFresh :
        (read_file : Bytes → Bytes) (uri : Bytes)
        → EachFresh (document_from_uri parse read_file server uri).0
          × IsFresh uri (document_from_uri parse read_file server uri).1
    unfolding document_from_uri
    document_from_uri-EachFresh read_file uri = looked_up-EachFresh read_file uri _ refl
