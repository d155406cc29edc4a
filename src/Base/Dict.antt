-- ===== src/Base/Dict.antt =====
-- The string-keyed hash tables of the source, as association lists. A key stands once in a table
-- that `put` builds; iteration goes in the order of insertion, as PHP's does.
use mathlib.Core.List.{List, [], ◌∷◌}
use mathlib.Core.Option.{Option, none, some}
use mathlib.Core.Path.{◌≡◌, refl, sym, ◌∙◌}
use native.Mathlib.Omega.{arith}
use ext_lsparrot.Base.ByteText.{Bytes, bytes_eq, bytes_eq_iff, bytes_eq→eq}
use mathlib.Core.Logic.{◌≢◌, inl, inr}
use ext_lsparrot.Base.Tests.{Bool-cases, if◌then◌else◌}

abbrev pub Dict {ℓ} : Type ℓ → Type ℓ
Dict V = List (Bytes × V)

module _ {ℓ} {V : Type ℓ} where
  -- `zend_hash_find`
  unfoldable pub find : Bytes → Dict V → Option V
  find k [] = none
  find k ((j, v) ∷ d) = if bytes_eq j k then some v else find k d

  -- `zend_hash_update`
  unfoldable pub put : Bytes → V → Dict V → Dict V
  put k v [] = (k, v) ∷ []
  put k v ((j, w) ∷ d) = if bytes_eq j k then (j, v) ∷ d else (j, w) ∷ put k v d

  -- `zend_hash_del`
  unfoldable pub del : Bytes → Dict V → Dict V
  del k [] = []
  del k ((j, w) ∷ d) = if bytes_eq j k then del k d else (j, w) ∷ del k d

  pub find-put :
      (k j : Bytes) (v : V) (d : Dict V)
      → find j (put k v d) ≡ (if bytes_eq k j then some v else find j d)
  unfolding find put
  find-put k j v [] = refl
  find-put k j v ((i, w) ∷ d) =
      ground (arith, bytes_eq_iff k j, bytes_eq_iff i k, bytes_eq_iff i j, find-put k j v d)

  pub find-del :
      (k j : Bytes) (d : Dict V) → find j (del k d) ≡ (if bytes_eq k j then none else find j d)
  unfolding find del
  find-del k j [] = ground arith
  find-del k j ((i, w) ∷ d) =
      ground (arith, bytes_eq_iff k j, bytes_eq_iff i k, bytes_eq_iff i j, find-del k j d)

  -- Every entry that can be found has the property.
  abbrev pub Each {κ} : (Bytes → V → Type κ) → Dict V → Type (ℓ ⊔ κ)
  Each P d = (k : Bytes) (v : V) → find k d ≡ some v → P k v

  pub none≢some : (w : V) → none ≢ some w
  none≢some w e = cc

  some_inj : (v w : V) → some v ≡ some w → v ≡ w
  some_inj v w e = cc

  pub put-Each {κ} :
      (P : Bytes → V → Type κ) (k : Bytes) (v : V) (d : Dict V)
      → Each P d
      → P k v
      → Each P (put k v d)
  put-Each P k v d each new j w found = elim (Bool-cases (bytes_eq k j)) [
    | inl same ↦
        let e : find j (put k v d) ≡ some v = rw (find-put k j v d, same) refl in
        rw (sym (bytes_eq→eq k j same), sym (some_inj v w (sym e ∙ found))) new
    | inr apart ↦
        let e : find j (put k v d) ≡ find j d = rw (find-put k j v d, apart) refl in
        each j w (sym e ∙ found)
  ]

  pub del-Each {κ} : (P : Bytes → V → Type κ) (k : Bytes) (d : Dict V) → Each P d → Each P (del k d)
  del-Each P k d each j w found = elim (Bool-cases (bytes_eq k j)) [
    | inl same ↦
        let e : find j (del k d) ≡ none = rw (find-del k j d, same) refl in
        absurd (none≢some w (sym e ∙ found))
    | inr apart ↦
        let e : find j (del k d) ≡ find j d = rw (find-del k j d, apart) refl in
        each j w (sym e ∙ found)
  ]
