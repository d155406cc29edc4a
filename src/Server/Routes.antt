-- ===== src/Server/Routes.antt =====
-- The dispatch by method name in `lsp_server_handle` (ext/lsp_server_protocol.c), as the table of its
-- tests in their order. The features themselves (completion, hover and so on) are not modelled here.
use ext_lsparrot.Base.{Option, [], ◌∷◌, Bytes, codes}
use ext_lsparrot.Base.Dict.{Dict, find}

pub data Feature : Type 0 where
  completion hover definition type_definition folding_range : Feature
  semantic_tokens_range semantic_tokens_full_delta selection_range document_link : Feature
  prepare_call_hierarchy call_hierarchy_incoming call_hierarchy_outgoing : Feature
  prepare_type_hierarchy type_hierarchy_supertypes type_hierarchy_subtypes : Feature
  will_rename_files references document_highlight implementation code_action : Feature
  prepare_rename rename formatting range_formatting inlay_hint code_lens : Feature
  semantic_tokens signature_help document_symbols workspace_symbols : Feature
  server_status initialize_server : Feature

-- `document_request` stands for the five wrappers `lsp_document_request…`, which look the document
-- up first and differ in the arguments they pass on; `plain_request` gets the parameters alone;
-- `configuration` and `folders` change components that are not modelled here.
pub data Route : Type 0 where
  initialized watched_files shutdown exit : Route
  did_open did_change did_save did_close : Route
  configuration folders : Route
  document_request : Feature → Route
  plain_request : Feature → Route

abbrev routes : Dict Route
routes =
    (codes "initialize", plain_request initialize_server)
    ∷ (codes "initialized", initialized)
    ∷ (codes "lsparrot.php/status", plain_request server_status)
    ∷ (codes "workspace/didChangeWatchedFiles", watched_files)
    ∷ (codes "shutdown", shutdown)
    ∷ (codes "exit", exit)
    ∷ (codes "textDocument/didOpen", did_open)
    ∷ (codes "textDocument/didChange", did_change)
    ∷ (codes "textDocument/didSave", did_save)
    ∷ (codes "textDocument/didClose", did_close)
    ∷ (codes "textDocument/completion", document_request completion)
    ∷ (codes "textDocument/hover", document_request hover)
    ∷ (codes "textDocument/definition", document_request definition)
    ∷ (codes "textDocument/declaration", document_request definition)
    ∷ (codes "textDocument/typeDefinition", document_request type_definition)
    ∷ (codes "textDocument/foldingRange", document_request folding_range)
    ∷ (codes "textDocument/semanticTokens/range", document_request semantic_tokens_range)
    ∷ (codes "textDocument/semanticTokens/full/delta", document_request semantic_tokens_full_delta)
    ∷ (codes "textDocument/selectionRange", document_request selection_range)
    ∷ (codes "textDocument/documentLink", document_request document_link)
    ∷ (codes "textDocument/prepareCallHierarchy", document_request prepare_call_hierarchy)
    ∷ (codes "callHierarchy/incomingCalls", plain_request call_hierarchy_incoming)
    ∷ (codes "callHierarchy/outgoingCalls", plain_request call_hierarchy_outgoing)
    ∷ (codes "textDocument/prepareTypeHierarchy", document_request prepare_type_hierarchy)
    ∷ (codes "typeHierarchy/supertypes", plain_request type_hierarchy_supertypes)
    ∷ (codes "typeHierarchy/subtypes", plain_request type_hierarchy_subtypes)
    ∷ (codes "workspace/didChangeConfiguration", configuration)
    ∷ (codes "workspace/didChangeWorkspaceFolders", folders)
    ∷ (codes "workspace/willRenameFiles", plain_request will_rename_files)
    ∷ (codes "textDocument/references", document_request references)
    ∷ (codes "textDocument/documentHighlight", document_request document_highlight)
    ∷ (codes "textDocument/implementation", document_request implementation)
    ∷ (codes "textDocument/codeAction", document_request code_action)
    ∷ (codes "textDocument/prepareRename", document_request prepare_rename)
    ∷ (codes "textDocument/rename", document_request rename)
    ∷ (codes "textDocument/formatting", document_request formatting)
    ∷ (codes "textDocument/rangeFormatting", document_request range_formatting)
    ∷ (codes "textDocument/inlayHint", document_request inlay_hint)
    ∷ (codes "textDocument/codeLens", document_request code_lens)
    ∷ (codes "textDocument/semanticTokens/full", document_request semantic_tokens)
    ∷ (codes "textDocument/signatureHelp", document_request signature_help)
    ∷ (codes "textDocument/documentSymbol", document_request document_symbols)
    ∷ (codes "workspace/symbol", plain_request workspace_symbols)
    ∷ []

unfoldable pub route : Bytes → Option Route
route method = find method routes
