-- ===== src/Semantic/Agreement.antt =====
-- The snapshot in the cache of ext/lsp_server_semantic_tokens.c and the tokens that a client holds:
-- under the same result id they are the same.
use ext_lsparrot.Base.{
  ℕ, ◌+◌, ◌*◌, ◌^◌, ◌<◌, ◌≤◌, ◌≡◌, refl, sym, ap, ◌∙◌, Option, none, some, List, [], ◌∷◌, ◌++◌,
  Bool-cases, inl, inr, arith, length, Bytes, bytes_eq, bytes_eq_refl,
}
use ext_lsparrot.Base.Dict.{find, put, del, find-put, find-del, none≢some}
use ext_lsparrot.Base.Int.{ℤ, print_nat}
use ext_lsparrot.Semantic.Replies.{
  Snapshot, Cache, cache_evict, cache_clear, next_counter, next_result_id, store,
}
use ext_lsparrot.Semantic.Session.{Held}
use ext_lsparrot.Transport.Decimal.{strtoull-print_nat}
use ext_lsparrot.Transport.Header.{strtoull}

-- A snapshot under the id that the client holds has the client's tokens, and that id was given out.
pub record Agrees (uri : Bytes) (h : Held) (c : Cache) : Type 0 where
  pub number : ℕ
  pub printed : h.id ≡ print_nat number
  pub given : number ≤ c.counter
  pub groups : (n : ℕ) × (length (h.tokens) ≡ n * 5)
  pub same :
      (s : Snapshot) → find uri (c.entries) ≡ some s → s.result_id ≡ h.id → s.tokens ≡ h.tokens

abbrev pub AllAgree : Bytes → Option Held → Cache → Type 0
AllAgree uri none c = Unit {0}
AllAgree uri (some h) c = Agrees uri h c

print_nat_inj : (n m : ℕ) → n < 2 ^ 64 → m < 2 ^ 64 → print_nat n ≡ print_nat m → n ≡ m
print_nat_inj n m a b e =
    sym (strtoull-print_nat n [] a tt)
    ∙ ap (λ (t : Bytes). strtoull (32 ∷ (t ++ []))) e
    ∙ strtoull-print_nat m [] b tt

pub next_counter_lem : (c : Cache) → c.counter + 1 < 2 ^ 64 → next_counter c ≡ c.counter + 1
unfolding next_counter
next_counter_lem c h = omega arith

-- The snapshot that is stored is the one of the reply.
pub store-Agrees :
    (uri : Bytes) (tokens : List ℤ) (c : Cache)
    → c.counter + 1 < 2 ^ 64
    → (n : ℕ) × (length tokens ≡ n * 5)
    → Agrees uri (record { id = next_result_id c; tokens = tokens }) (store uri tokens c)
unfolding store next_result_id
store-Agrees uri tokens c h groups = record {
  number = next_counter c;
  printed = refl;
  given = omega arith;
  groups = groups;
  same = λ s found e.
      let new : Snapshot = record { result_id = next_result_id c; tokens = tokens } in
      let stored : find uri (put uri new (c.entries)) ≡ some new =
        rw (find-put uri uri new (c.entries), bytes_eq_refl uri) refl in
      ap (λ (o : Option Snapshot). tokens_of o) (sym found ∙ stored);
}
  where
    tokens_of : Option Snapshot → List ℤ
    tokens_of none = []
    tokens_of (some s) = s.tokens

some_inj : (s t : Snapshot) → some s ≡ some t → s ≡ t
some_inj s t e = cc

-- Another reply takes another id.
pub store-Agrees_other :
    (uri u : Bytes) (tokens : List ℤ) (c : Cache) (h : Held)
    → c.counter + 1 < 2 ^ 64
    → Agrees uri h c
    → Agrees uri h (store u tokens c)
unfolding store next_result_id
store-Agrees_other uri u tokens c h bound a = record {
  number = a.number;
  printed = a.printed;
  given = omega (arith, next_counter_lem c bound, a.given);
  groups = a.groups;
  same = λ s found e.
      let new : Snapshot = record { result_id = next_result_id c; tokens = tokens } in
      elim (Bool-cases (bytes_eq u uri)) [
        | inl replaced ↦
            let stored : find uri (put u new (c.entries)) ≡ some new =
              rw (find-put u uri new (c.entries), replaced) refl in
            let ids : print_nat (next_counter c) ≡ print_nat (a.number) =
              ap (λ (t : Snapshot). t.result_id) (sym (some_inj s new (sym found ∙ stored)))
              ∙ e
              ∙ a.printed in
            let given = a.given in
            let equal : next_counter c ≡ a.number =
              print_nat_inj (next_counter c) (a.number) (omega (arith, next_counter_lem c bound))
                (omega arith) ids in
            absurd (omega (arith, next_counter_lem c bound))
        | inr kept ↦
            let stored : find uri (put u new (c.entries)) ≡ find uri (c.entries) =
              rw (find-put u uri new (c.entries), kept) refl in
            a.same s (sym stored ∙ found) e
      ];
}

pub evict-Agrees :
    (uri u : Bytes) (c : Cache) (h : Held) → Agrees uri h c → Agrees uri h (cache_evict u c)
unfolding cache_evict
evict-Agrees uri u c h a = record {
  number = a.number;
  printed = a.printed;
  given = a.given;
  groups = a.groups;
  same = λ s found e. elim (Bool-cases (bytes_eq u uri)) [
    | inl gone ↦
        let none' : find uri (del u (c.entries)) ≡ none =
          rw (find-del u uri (c.entries), gone) refl in
        absurd (none≢some s (sym none' ∙ found))
    | inr kept ↦
        let kept' : find uri (del u (c.entries)) ≡ find uri (c.entries) =
          rw (find-del u uri (c.entries), kept) refl in
        a.same s (sym kept' ∙ found) e
  ];
}

pub clear-Agrees :
    (uri : Bytes) (c : Cache) (h : Held) → Agrees uri h c → Agrees uri h (cache_clear c)
unfolding cache_clear find
clear-Agrees uri c h a = record {
  number = a.number;
  printed = a.printed;
  given = a.given;
  groups = a.groups;
  same = λ s found e. absurd (none≢some s found);
}

pub AllAgree-kept :
    (uri : Bytes) (held : Option Held) (c c' : Cache)
    → ((h : Held) → Agrees uri h c → Agrees uri h c')
    → AllAgree uri held c
    → AllAgree uri held c'
AllAgree-kept uri none c c' keeps a = tt
AllAgree-kept uri (some h) c c' keeps a = keeps h a
