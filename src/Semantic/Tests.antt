-- ===== src/Semantic/Tests.antt =====
-- Runs of the semantic tokens of ext/lsp_server_semantic_tokens.c on small documents.
use Prim.Native.String.{String}
use ext_lsparrot.Base.{
  bytes_eq, ◌≡◌, refl, Option, none, some, List, [], ◌∷◌, ◌++◌, codes, get_elem?, arith, inl, inr,
}
use ext_lsparrot.Base.Int.{ℤ, pos, clamp_zero, int_eq, int_leb, size_cast, ◌+ℤ◌, ◌-ℤ◌}
use ext_lsparrot.Position.{byte_offset_to_utf16_units, units_from, lead_units, lead_step}
use ext_lsparrot.Semantic.Classify.{token_legend, sem_keyword, sem_number, sem_enum_member}
use ext_lsparrot.Semantic.Client.{run-refresh}
use ext_lsparrot.Semantic.Collect.{Bounds, collect, document_tokens, step}
use ext_lsparrot.Semantic.Decode.{decode, document_marks, within_bounds}
use ext_lsparrot.Semantic.Edits.{build_edits}
use ext_lsparrot.Semantic.Range.{collect-range, InOrder}
use ext_lsparrot.Semantic.Replies.{next_result_id}
use ext_lsparrot.Semantic.Session.{Action, refresh, others_full, evict, act, run, new_session}
use ext_lsparrot.Semantic.Splice.{apply_edit, apply_edit-build_edits}
use ext_lsparrot.Server.{Document}
use ext_lsparrot.Tokens.Samples.{test_kind, token, numbered}
use ext_lsparrot.Zval.{
  array_find, items_count, is_array, items_index, array_long, array_string, Zval, nil, item, name,
  arr,
}

abbrev document : String → List Zval → Document
document text tokens = record {
  uri = codes "file:///a.php";
  path = codes "/a.php";
  text = codes text;
  version = pos 1;
  lsparrot = arr (item (name (codes "tokens")) (arr (numbered 0 tokens)) nil);
  derived = none;
}

-- `class A{`, then `public $b` and `7` on a line of their own
abbrev sample : Document
sample = document "class A{\npublic $b=\n7" (
    token 4 0 5 1 "class"
    ∷ token 2 5 1 1 " "
    ∷ token 5 6 1 1 "A"
    ∷ token 123 7 1 1 "{"
    ∷ token 2 8 1 1 " "
    ∷ token 6 9 6 2 "public"
    ∷ token 2 15 1 2 " "
    ∷ token 1 16 2 2 "$b"
    ∷ token 61 18 1 2 "="
    ∷ token 3 20 1 3 "7"
    ∷ [])

abbrev sample_tokens : List ℤ
sample_tokens =
    pos 0
    ∷ pos 0
    ∷ pos 5
    ∷ pos 9
    ∷ pos 0
    ∷ pos 0
    ∷ pos 6
    ∷ pos 1
    ∷ pos 1
    ∷ pos 8
    ∷ pos 1
    ∷ pos 0
    ∷ pos 6
    ∷ pos 9
    ∷ pos 0
    ∷ pos 0
    ∷ pos 7
    ∷ pos 2
    ∷ pos 7
    ∷ pos 8
    ∷ pos 1
    ∷ pos 0
    ∷ pos 1
    ∷ pos 12
    ∷ pos 0
    ∷ []

sample-collect : collect test_kind sample none ≡ sample_tokens
unfolding collect test_kind array_find bytes_eq items_count is_array items_index array_long int_eq
    int_leb size_cast ◌+ℤ◌ byte_offset_to_utf16_units units_from lead_units ◌-ℤ◌ lead_step
    array_string
sample-collect = refl

sample-InOrder : InOrder 0 0 (document_marks test_kind sample)
unfolding document_marks document_tokens step test_kind array_find bytes_eq items_count is_array
    items_index array_long int_eq int_leb size_cast ◌+ℤ◌ byte_offset_to_utf16_units units_from
    lead_units ◌-ℤ◌ lead_step array_string
sample-InOrder = (
  0,
  0,
  4,
  9,
  refl,
  refl,
  refl,
  refl,
  inr (refl, omega arith),
  (
    0,
    6,
    0,
    1,
    refl,
    refl,
    refl,
    refl,
    inr (refl, omega arith),
    (
      1,
      0,
      5,
      9,
      refl,
      refl,
      refl,
      refl,
      inl (omega arith),
      (
        1,
        7,
        1,
        7,
        refl,
        refl,
        refl,
        refl,
        inr (refl, omega arith),
        (2, 0, 0, 12, refl, refl, refl, refl, inl (omega arith), tt),
      ),
    ),
  ),
)

abbrev second_line : Option Bounds
second_line = some (record { line_start = pos 1; line_end = pos 1 })

collect-range_example :
    decode (collect test_kind sample second_line)
    ≡ within_bounds second_line (decode (collect test_kind sample none))
collect-range_example = collect-range test_kind sample second_line sample-InOrder

-- The same document with one more line, a number behind the others.
abbrev longer_tokens : List ℤ
longer_tokens = sample_tokens ++ (pos 1 ∷ pos 0 ∷ pos 2 ∷ pos 12 ∷ pos 0 ∷ [])

apply_edit-build_edits_example :
    apply_edit (build_edits sample_tokens longer_tokens) sample_tokens ≡ longer_tokens
apply_edit-build_edits_example = apply_edit-build_edits sample_tokens longer_tokens 5 6 refl refl

sample_edit : build_edits sample_tokens longer_tokens ≡ record {
  start = 25;
  delete_count = 0;
  inserted = pos 1 ∷ pos 0 ∷ pos 2 ∷ pos 12 ∷ pos 0 ∷ [];
}
unfolding build_edits int_eq
sample_edit = refl

-- The client asks first, another one does, the document is closed and opened again.
abbrev sample_actions : List Action
sample_actions = refresh sample ∷ others_full sample ∷ evict (sample.uri) ∷ refresh sample ∷ []

run-refresh_example :
    (act test_kind (refresh sample) (run test_kind sample_actions new_session)).held
    ≡ some (record {
      id = next_result_id ((run test_kind sample_actions new_session).cache);
      tokens = collect test_kind sample none;
    })
run-refresh_example =
    run-refresh test_kind sample sample_actions (refl, (tt, (tt, (refl, tt)))) (omega arith)

-- The numbers and the legend agree.
legend_types :
    (get_elem? (token_legend.token_types) (clamp_zero sem_keyword) ≡ some "keyword")
    × (get_elem? (token_legend.token_types) (clamp_zero sem_number) ≡ some "number")
    × (get_elem? (token_legend.token_types) (clamp_zero sem_enum_member) ≡ some "enumMember")
unfolding token_legend
legend_types = (refl, refl, refl)
