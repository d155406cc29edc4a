-- ===== src/Zval.antt =====
-- PHP values (`zval`), as far as the server looks into them, and the readers of ext/lsp_internal.h:
-- `lsp_array_find`, `lsp_array_string`, `lsp_array_long`, `lsp_array_bool` and `lsp_array_double`
-- (the last two of ext/lsp_server_core.c), and `lsp_position_from_zval`. A `zval *` is an `Option`.
use ext_lsparrot.Base.{
  ◌==◌, suc, ℕ, Bool, true, false, Option, none, some, Bytes, bytes_eq, codes, if◌then◌else◌,
}
use ext_lsparrot.Base.Int.{ℤ, pos, clamp_zero}
use ext_lsparrot.Position.{Position}

-- A `double`: an IEEE 754 bit pattern, or the conversion of a `zend_long`.
pub data Double : Type 0 where
  bits : ℕ → Double
  of_long : ℤ → Double

pub data Key : Type 0 where
  index : ℤ → Key
  name : Bytes → Key

mutual
  pub data Zval : Type 0 where
    undef null : Zval
    bool : Bool → Zval
    long : ℤ → Zval
    double : Double → Zval
    str : Bytes → Zval
    arr : Items → Zval

  -- The elements of an array, in order.
  pub data Items : Type 0 where
    nil : Items
    item : Key → Zval → Items → Items

unfoldable pub key_is : Key → Bytes → Bool
key_is (index i) k = false
key_is (name s) k = bytes_eq s k

-- `zend_hash_str_find`
unfoldable pub items_find : Items → Bytes → Option Zval
unfolding key_is
items_find nil k = none
items_find (item j v rest) k = if key_is j k then some v else items_find rest k

-- `lsp_array_find`: NULL, or no array, has no members.
unfoldable pub array_find : Option Zval → Bytes → Option Zval
unfolding items_find
array_find (some (arr items)) k = items_find items k
array_find _ k = none

unfoldable pub string_value : Option Zval → Option Bytes
string_value (some (str s)) = some s
string_value _ = none

unfoldable pub array_string : Option Zval → Bytes → Option Bytes
unfolding array_find string_value
array_string array k = string_value (array_find array k)

unfoldable pub long_value : Option Zval → ℤ → ℤ
long_value (some (long n)) fallback = n
long_value _ fallback = fallback

unfoldable pub array_long : Option Zval → Bytes → ℤ → ℤ
unfolding array_find long_value
array_long array k fallback = long_value (array_find array k) fallback

unfoldable pub bool_value : Option Zval → Bool → Bool
bool_value (some (bool b)) fallback = b
bool_value _ fallback = fallback

unfoldable pub array_bool : Option Zval → Bytes → Bool → Bool
unfolding array_find bool_value
array_bool array k fallback = bool_value (array_find array k) fallback

unfoldable pub double_value : Option Zval → Double → Double
double_value (some (double d)) fallback = d
double_value (some (long n)) fallback = of_long n
double_value _ fallback = fallback

unfoldable pub array_double : Option Zval → Bytes → Double → Double
unfolding array_find double_value
array_double array k fallback = double_value (array_find array k) fallback

-- `Z_TYPE_P(value) == IS_ARRAY`, of a pointer that may be NULL
unfoldable pub is_array : Option Zval → Bool
is_array (some (arr items)) = true
is_array _ = false

-- `lsp_position_from_zval`: what is absent or negative is 0.
unfoldable pub position_from_zval : Option Zval → Position
unfolding is_array array_long
position_from_zval position =
    if is_array position
    then record {
      line = clamp_zero (array_long position (codes "line") (pos 0));
      character = clamp_zero (array_long position (codes "character") (pos 0));
    }
    else record { line = 0; character = 0 }

-- `zend_hash_num_elements`
unfoldable pub items_count : Items → ℕ
items_count nil = 0
items_count (item j v rest) = suc (items_count rest)

unfoldable pub key_is_index : Key → ℕ → Bool
key_is_index (index (pos i)) n = i == n
key_is_index _ n = false

-- `zend_hash_index_find`
unfoldable pub items_index : Items → ℕ → Option Zval
unfolding key_is_index
items_index nil n = none
items_index (item j v rest) n = if key_is_index j n then some v else items_index rest n
