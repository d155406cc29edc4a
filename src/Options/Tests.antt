-- ===== src/Options/Tests.antt =====
-- Runs of the options of ext/lsp_server_core.c.
use ext_lsparrot.Base.{
  ℕ, ◌*◌, ◌≤◌, ◌≡◌, refl, Option, none, some, Bytes, [], ◌∷◌, codes, bytes_eq, ltb, ◌&&◌, ◌-◌,
  if◌then◌else◌,
}
use ext_lsparrot.Base.Int.{pos, negsuc, int_leb}
use ext_lsparrot.Formatting.{options_resolve}
use ext_lsparrot.Options.{Options}
use ext_lsparrot.Options.Runtime.{options_from_zval, given_options, apply_runtime}
use ext_lsparrot.Options.Valid.{IsValid, IsAsStarted, apply_all, apply_all-bounds}
use ext_lsparrot.Zval.{
  Zval, Double, of_long, nil, item, long, str, arr, array_find, is_array, array_long, name,
}

-- A number of one digit, and its product with the factor.
abbrev strtod : Bytes → Option (Double × Bytes)
strtod [] = none
strtod (c ∷ text) = if ltb 48 c && ltb c 58 then some (of_long (pos (c - 48)), text) else none

abbrev scaled : Double → ℕ → ℕ
scaled (of_long (pos n)) factor = n * factor
scaled _ factor = 0

abbrev entry : Bytes → Zval → Option Zval
entry key value = some (arr (item (name key) value nil))

-- `{"symbolIndex": {"size": "8 M"}, "psalmLevel": -1, "formatting": {"indentSize": 17}}`
abbrev configuration : Option Zval
configuration = some (
    arr (
      item (name (codes "symbolIndex")) (arr (item (name (codes "size")) (str (codes "8 M")) nil)) (
        item (name (codes "psalmLevel")) (long (negsuc 0)) (
          item (name (codes "formatting"))
            (arr (item (name (codes "indentSize")) (long (pos 17)) nil)) nil))))

-- `{"settings": {"lsparrot": {"formatting": {"indentSize": 2}}}}`
abbrev update : Option Zval
update = entry (codes "settings") (
    arr (
      item (name (codes "lsparrot"))
        (arr (
          item (name (codes "formatting"))
            (arr (item (name (codes "indentSize")) (long (pos 2)) nil)) nil))
        nil))

configured : Options
unfolding options_from_zval
configured = options_from_zval strtod scaled configuration

configured_size : (configured.symbol_index_size ≡ 8388608) × (configured.psalm_level ≡ pos 6)
unfolding configured options_from_zval given_options array_find bytes_eq is_array array_long
configured_size = (refl, refl)

updated_indent :
    (configured.formatting.indent_size ≡ pos 0)
    × ((apply_all (update ∷ []) configured).formatting.indent_size ≡ pos 2)
unfolding configured options_from_zval given_options apply_all apply_runtime array_find bytes_eq
    is_array array_long int_leb
updated_indent = (refl, refl)

apply_all-bounds_example :
    let start = options_from_zval strtod scaled configuration in
    let o = apply_all (update ∷ []) start in
    IsValid o
    × IsAsStarted o start
    × (1 ≤ (options_resolve (o.formatting) none).indent_size)
    × ((options_resolve (o.formatting) none).indent_size ≤ 16)
apply_all-bounds_example = apply_all-bounds strtod scaled configuration (update ∷ []) none
