-- ===== src/Semantic/Client.antt =====
-- A client that asks for the changes of the semantic tokens (ext/lsp_server_semantic_tokens.c) always
-- holds those of the document.
use mathlib.Core.Path.{subst}
use ext_lsparrot.Base.{
  ℕ, ◌+◌, ◌*◌, ◌^◌, ◌<◌, ◌≤◌, ◌≡◌, refl, sym, ap, ◌∙◌, Option, none, some, List, [], ◌∷◌,
  Bool-cases, Option-cases, inl, inr, arith, length, All, Bytes, bytes_eq, bytes_eq→eq, codes,
}
use ext_lsparrot.Base.Dict.{find}
use ext_lsparrot.Base.Int.{ℤ}
use ext_lsparrot.Semantic.Collect.{collect}
use ext_lsparrot.Semantic.Decode.{collect-groups}
use ext_lsparrot.Semantic.Edits.{build_edits}
use ext_lsparrot.Tokens.{Kind}
use ext_lsparrot.Semantic.Replies.{
  Cache, cache_evict, cache_clear, next_result_id, store, matched_snapshot, delta_reply,
  semantic_tokens, full_delta,
}
use ext_lsparrot.Semantic.Splice.{apply_edit, apply_edit-build_edits}
use ext_lsparrot.Semantic.Agreement.{
  AllAgree, store-Agrees, store-Agrees_other, evict-Agrees, clear-Agrees, AllAgree-kept,
  next_counter_lem,
}
use ext_lsparrot.Semantic.Session.{
  Held, receive, request_params, Action, refresh, reload, others_delta, others_full, evict, clear,
  Session, new_session, answered, act, run, AsksFor,
}
use ext_lsparrot.Server.{Document}
use ext_lsparrot.Zval.{array_string, items_find, key_is}

-- The reply to a client that names what it holds leaves it with the new tokens.
receive-delta_reply :
    (uri id : Bytes) (held : Option Held) (tokens : List ℤ) (c : Cache)
    → AllAgree uri held c
    → (n : ℕ) × (length tokens ≡ n * 5)
    → receive held (
        delta_reply id
          (matched_snapshot
            (array_string (request_params held) (codes "previousResultId"))
            (find uri (c.entries)))
          tokens)
      ≡ some (record { id = id; tokens = tokens })
unfolding receive request_params array_string matched_snapshot delta_reply items_find key_is
    bytes_eq
receive-delta_reply uri id none tokens c a groups = refl
receive-delta_reply uri id (some h) tokens c a (n, e) = elim (Option-cases (find uri (c.entries))) [
  | inl absent ↦ rw absent refl
  | inr (s, found) ↦ elim (Bool-cases (bytes_eq (s.result_id) (h.id))) [
    | inl matched ↦
        let same = a.same s found (bytes_eq→eq (s.result_id) (h.id) matched) in
        let (k, held_groups) = a.groups in
        let patched : apply_edit (build_edits (s.tokens) tokens) (h.tokens) ≡ tokens =
          ap (apply_edit (build_edits (s.tokens) tokens)) (sym same)
          ∙ apply_edit-build_edits (s.tokens) tokens k n (ap length same ∙ held_groups) e in
        rw found (rw matched (ap (λ (t : List ℤ). some (record { id = id; tokens = t })) patched))
    | inr other ↦ rw found (rw other refl)
  ]
]

module _ (kind_of : ℤ → Kind) where
  refresh_held :
      (d : Document) (s : Session)
      → AllAgree (d.uri) (s.held) (s.cache)
      → (act kind_of (refresh d) s).held
        ≡ some (record { id = next_result_id (s.cache); tokens = collect kind_of d none })
  unfolding act answered full_delta
  refresh_held d s a =
      receive-delta_reply (d.uri) (next_result_id (s.cache)) (s.held) (collect kind_of d none)
        (s.cache) a (collect-groups kind_of d none)

  refresh-AllAgree :
      (uri : Bytes) (d : Document) (s : Session)
      → d.uri ≡ uri
      → s.cache.counter + 1 < 2 ^ 64
      → AllAgree uri (s.held) (s.cache)
      → AllAgree uri ((act kind_of (refresh d) s).held) ((act kind_of (refresh d) s).cache)
  unfolding act answered full_delta
  refresh-AllAgree uri d s asks bound agrees =
      let before = subst (λ (u : Bytes). AllAgree u (s.held) (s.cache)) (sym asks) agrees in
      let stored =
        store-Agrees (d.uri) (collect kind_of d none) (s.cache) bound
          (collect-groups kind_of d none) in
      subst
        (λ (u : Bytes).
          AllAgree u ((act kind_of (refresh d) s).held) ((act kind_of (refresh d) s).cache))
        asks
        (subst (λ (h : Option Held). AllAgree (d.uri) h ((act kind_of (refresh d) s).cache))
          (sym (refresh_held d s before)) stored)

  act-AllAgree :
      (uri : Bytes) (a : Action) (s : Session)
      → AsksFor uri a
      → s.cache.counter + 1 < 2 ^ 64
      → AllAgree uri (s.held) (s.cache)
      → AllAgree uri ((act kind_of a s).held) ((act kind_of a s).cache)
  unfolding act answered full_delta semantic_tokens receive
  act-AllAgree uri (refresh d) s asks bound agrees = refresh-AllAgree uri d s asks bound agrees
  act-AllAgree uri (reload d) s asks bound agrees =
      subst
        (λ (u : Bytes).
          AllAgree u ((act kind_of (reload d) s).held) ((act kind_of (reload d) s).cache))
        asks
        (store-Agrees (d.uri) (collect kind_of d none) (s.cache) bound
          (collect-groups kind_of d none))
  act-AllAgree uri (others_delta d params) s asks bound agrees =
      AllAgree-kept uri (s.held) (s.cache) (store (d.uri) (collect kind_of d none) (s.cache))
        (λ h. store-Agrees_other uri (d.uri) (collect kind_of d none) (s.cache) h bound) agrees
  act-AllAgree uri (others_full d) s asks bound agrees =
      AllAgree-kept uri (s.held) (s.cache) (store (d.uri) (collect kind_of d none) (s.cache))
        (λ h. store-Agrees_other uri (d.uri) (collect kind_of d none) (s.cache) h bound) agrees
  act-AllAgree uri (evict u) s asks bound agrees =
      AllAgree-kept uri (s.held) (s.cache) (cache_evict u (s.cache)) (evict-Agrees uri u (s.cache))
        agrees
  act-AllAgree uri clear s asks bound agrees =
      AllAgree-kept uri (s.held) (s.cache) (cache_clear (s.cache)) (clear-Agrees uri (s.cache))
        agrees

  act-counter :
      (a : Action) (s : Session)
      → s.cache.counter + 1 < 2 ^ 64
      → (act kind_of a s).cache.counter ≤ s.cache.counter + 1
  unfolding act answered full_delta semantic_tokens store cache_evict cache_clear
  act-counter (refresh d) s bound = omega (arith, next_counter_lem (s.cache) bound)
  act-counter (reload d) s bound = omega (arith, next_counter_lem (s.cache) bound)
  act-counter (others_delta d params) s bound = omega (arith, next_counter_lem (s.cache) bound)
  act-counter (others_full d) s bound = omega (arith, next_counter_lem (s.cache) bound)
  act-counter (evict u) s bound = omega arith
  act-counter clear s bound = omega arith

  run-AllAgree :
      (uri : Bytes) (actions : List Action) (s : Session)
      → All (AsksFor uri) actions
      → s.cache.counter + length actions < 2 ^ 64
      → AllAgree uri (s.held) (s.cache)
      → AllAgree uri ((run kind_of actions s).held) ((run kind_of actions s).cache)
  unfolding run
  run-AllAgree uri [] s asks bound agrees = agrees
  run-AllAgree uri (a ∷ rest) s asks bound agrees =
      let small : s.cache.counter + 1 < 2 ^ 64 = omega arith in
      run-AllAgree uri rest (act kind_of a s) (asks.1) (omega (arith, act-counter a s small))
        (act-AllAgree uri a s (asks.0) small agrees)

  -- Whatever was asked for any document and evicted since the server started, a client that asks
  -- with the result id it holds, or with none, holds afterwards the tokens of the document as it
  -- is now, whether the reply is full or an edit; fewer than 2^64 actions came before, and the
  -- client asked for this document only.
  pub run-refresh :
      (d : Document) (actions : List Action)
      → All (AsksFor (d.uri)) actions
      → length actions < 2 ^ 64
      → (act kind_of (refresh d) (run kind_of actions new_session)).held
        ≡ some (record {
          id = next_result_id ((run kind_of actions new_session).cache);
          tokens = collect kind_of d none;
        })
  unfolding new_session
  run-refresh d actions asks bound =
      refresh_held d (run kind_of actions new_session)
        (run-AllAgree (d.uri) actions new_session asks (omega arith) tt)
