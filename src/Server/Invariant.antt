-- ===== src/Server/Invariant.antt =====
-- Every document operation of the protocol keeps the documents in agreement with what they are
-- derived from, and with it the whole request loop (ext/lsp_server_protocol.c).
use ext_lsparrot.Base.{
  ◌≡◌, refl, ◌∙◌, inl, inr, Bool-cases, Option-cases, Option, none, some, Bytes, codes,
}
use ext_lsparrot.Base.Dict.{find, put-Each, del-Each}
use ext_lsparrot.Base.Int.{ℤ}
use ext_lsparrot.Zval.{
  Zval, undef, null, bool, long, double, str, arr, Items, nil, item, array_find, array_string,
}
use ext_lsparrot.Transport.{Transport}
use ext_lsparrot.Transport.Queue.{queue_supersedes_change}
use ext_lsparrot.Server.{Document, Server}
use ext_lsparrot.Server.Caches.{evict_document_caches, member_cache_invalidate_path}
use ext_lsparrot.Server.Fresh.{
  IsFresh, EachFresh, document_analyze-IsFresh, open_or_change-EachFresh,
}
use ext_lsparrot.Server.Sync.{
  text_document, last_change, is_there, with_text, open_document, change_document, save_document,
  close_document, did_open, did_change, did_save, did_close, file_changed, files_changed,
  changed_files, did_change_watched_files,
}

module _ (parse : Bytes → Bytes → Zval) (derive : Bytes → Zval) where
  with_text-at :
      (text : Option Bytes) (document : Document)
      → ((with_text parse text document).uri ≡ document.uri)
        × ((with_text parse text document).path ≡ document.path)
  with_text-at none document = (refl, refl)
  with_text-at (some text) document = (refl, refl)

module _ (parse : Bytes → Bytes → Zval) (derive : Bytes → Zval) (server : Server)
    (each : EachFresh parse derive server) where
  pub did_open-EachFresh :
      (params : Option Zval) → EachFresh parse derive (did_open parse params server)
  unfolding did_open open_document
  did_open-EachFresh params =
      elim (Option-cases (array_string (text_document params) (codes "uri"))) [
        | inl absent ↦ rw (did_open, absent) each
        | inr (uri, named) ↦
            elim (Option-cases (array_string (text_document params) (codes "text"))) [
              | inl absent ↦ rw (did_open, named, absent) each
              | inr (text, given) ↦
                  rw (did_open, named, given)
                    ((open_or_change-EachFresh parse derive server each uri _ text).0)
            ]
      ]

  change_document-EachFresh :
      (transport : Transport) (uri : Bytes) (version : ℤ) (text : Bytes)
      → EachFresh parse derive (change_document parse transport uri version text server)
  unfolding change_document
  change_document-EachFresh transport uri version text =
      elim (Bool-cases (queue_supersedes_change uri transport)) [
        | inl newer ↦
            rw newer ((open_or_change-EachFresh parse derive server each uri version text).0)
        | inr last ↦
            rw last ((open_or_change-EachFresh parse derive server each uri version text).0)
      ]

  pub did_change-EachFresh :
      (transport : Transport) (params : Option Zval)
      → EachFresh parse derive (did_change parse transport params server)
  unfolding did_change
  did_change-EachFresh transport params =
      let change = last_change (array_find params (codes "contentChanges")) in
      elim (Bool-cases (is_there (array_find change (codes "range")))) [
        | inl ranged ↦ rw ranged each
        | inr whole ↦ elim (Option-cases (array_string (text_document params) (codes "uri"))) [
          | inl absent ↦ rw (whole, absent) each
          | inr (uri, named) ↦ elim (Option-cases (array_string change (codes "text"))) [
            | inl absent ↦ rw (whole, named, absent) each
            | inr (text, given) ↦
                rw (whole, named, given) (change_document-EachFresh transport uri _ text)
          ]
        ]
      ]

  pub did_save-EachFresh :
      (params : Option Zval) → EachFresh parse derive (did_save parse params server)
  unfolding did_save save_document evict_document_caches member_cache_invalidate_path
  did_save-EachFresh params =
      elim (Option-cases (array_string (text_document params) (codes "uri"))) [
        | inl absent ↦ rw (did_save, absent) each
        | inr (uri, named) ↦ elim (Option-cases (find uri server.documents)) [
          | inl closed ↦ rw (did_save, named, closed) each
          | inr (document, at) ↦
              let text = array_string params (codes "text") in
              rw (did_save, named, at)
                (put-Each (IsFresh parse derive) uri _ server.documents each (
                  document_analyze-IsFresh parse derive uri (with_text parse text document)
                    ((with_text-at parse derive text document).0 ∙ (each uri document at).0)
                    ((with_text-at parse derive text document).1 ∙ (each uri document at).1)))
        ]
      ]

  pub did_close-EachFresh :
      (params : Option Zval) → EachFresh parse derive (did_close params server)
  unfolding did_close close_document evict_document_caches
  did_close-EachFresh params =
      elim (Option-cases (array_string (text_document params) (codes "uri"))) [
        | inl absent ↦ rw (did_close, absent) each
        | inr (uri, named) ↦
            rw (did_close, named) (del-Each (IsFresh parse derive) uri server.documents each)
      ]

module _ (parse : Bytes → Bytes → Zval) (derive : Bytes → Zval) where
  files_changed-EachFresh :
      (changes : Items) (server : Server)
      → EachFresh parse derive server
      → EachFresh parse derive (files_changed changes server)
  unfolding files_changed file_changed member_cache_invalidate_path
  files_changed-EachFresh nil server each = each
  files_changed-EachFresh (item key change rest) server each =
      files_changed-EachFresh rest (file_changed change server)
        (elim (Option-cases (array_string (some change) (codes "uri"))) [
          | inl absent ↦ rw (file_changed, absent) each
          | inr (uri, named) ↦ rw (file_changed, named) each
        ])

  changed_files-EachFresh :
      (changes : Option Zval) (server : Server)
      → EachFresh parse derive server
      → EachFresh parse derive (changed_files changes server)
  unfolding changed_files
  changed_files-EachFresh (some (arr changes)) server each =
      files_changed-EachFresh changes server each
  changed_files-EachFresh none server each = each
  changed_files-EachFresh (some undef) server each = each
  changed_files-EachFresh (some null) server each = each
  changed_files-EachFresh (some (bool b)) server each = each
  changed_files-EachFresh (some (long n)) server each = each
  changed_files-EachFresh (some (double d)) server each = each
  changed_files-EachFresh (some (str s)) server each = each

  pub did_change_watched_files-EachFresh :
      (params : Option Zval) (server : Server)
      → EachFresh parse derive server
      → EachFresh parse derive (did_change_watched_files params server)
  unfolding did_change_watched_files
  did_change_watched_files-EachFresh params server each =
      changed_files-EachFresh (array_find params (codes "changes")) server each
