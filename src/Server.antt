-- ===== src/Server.antt =====
-- The server's state (`lsp_server` and `lsp_document` of ext/lsp_internal.h), as far as document
-- synchronisation and the request loop change it. Analyzer jobs, the symbol index, the options and
-- the workspace roots are not part of this record; what the handlers ask of those components is the
-- list `effects`, in order.
pub mod Caches
pub mod Documents
pub mod Sync
pub mod Routes
pub mod Loop
pub mod Fresh
pub mod Changes
pub mod Evict
pub mod Lifecycle
pub mod Written
pub mod Cancelled
pub mod Invariant
pub mod LoopFresh
pub mod Params
pub mod Editor
mod Tests
use ext_lsparrot.Base.{Bool, Option, List, Bytes, [], false}
use ext_lsparrot.Base.Dict.{Dict}
use ext_lsparrot.Base.Int.{ℤ}
use ext_lsparrot.Zval.{Zval}

-- `lsparrot` is the parse result of the text; `derived` stands for the fields that
-- `lsp_document_derived_ensure` computes, and is `none` where `derived_valid` is false.
pub record Document : Type 0 where
  pub uri : Bytes
  pub path : Bytes
  pub text : Bytes
  pub version : ℤ
  pub lsparrot : Zval
  pub derived : Option Zval

-- Calls of the components that are not modelled here.
pub data Effect : Type 0 where
  semantic_tokens_evict : Bytes → Effect
  psalm_ls_open psalm_ls_change psalm_ls_save : Document → Effect
  psalm_ls_close : Bytes → Effect
  index_refresh_file : Bytes → Effect
  reschedule_analyzers : Document → Effect
  publish_diagnostics : Document → Effect
  publish_empty_diagnostics : Bytes → Effect

pub record Server : Type 0 where
  pub documents : Dict Document
  pub completion_cache : Dict Zval
  pub type_cache : Dict Zval
  pub member_cache : Dict Zval
  pub shutdown : Bool
  pub saw_shutdown : Bool
  pub effects : List Effect

abbrev pub new_server : Server
new_server = record {
  documents = [];
  completion_cache = [];
  type_cache = [];
  member_cache = [];
  shutdown = false;
  saw_shutdown = false;
  effects = [];
}
