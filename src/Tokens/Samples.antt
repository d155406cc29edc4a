-- ===== src/Tokens/Samples.antt =====
-- Tokens of the PHP lexer for the runs on small documents, as ext/lsp_server_semantic_tokens.c and
-- ext/lsp_server_formatting.c read them.
use Prim.Native.String.{String}
use ext_lsparrot.Base.{ℕ, zero, suc, List, [], ◌∷◌, codes}
use ext_lsparrot.Base.Int.{ℤ, pos, negsuc}
use ext_lsparrot.Tokens.{
  Kind, char, other, t_variable, t_whitespace, t_lnumber, t_class, t_string, t_public,
}
use ext_lsparrot.Zval.{Zval, Items, nil, item, index, name, long, str, arr}

-- Ids of the test: 1 is a variable, 2 white space, 3 a number, 4 `class`, 5 a name, 6 `public`.
unfoldable pub test_kind : ℤ → Kind
test_kind (pos (suc zero)) = t_variable
test_kind (pos (suc (suc zero))) = t_whitespace
test_kind (pos (suc (suc (suc zero)))) = t_lnumber
test_kind (pos (suc (suc (suc (suc zero))))) = t_class
test_kind (pos (suc (suc (suc (suc (suc zero)))))) = t_string
test_kind (pos (suc (suc (suc (suc (suc (suc zero))))))) = t_public
test_kind (pos n) = char n
test_kind (negsuc n) = other

abbrev pub token : ℕ → ℕ → ℕ → ℕ → String → Zval
token id offset size line text = arr (
    item (name (codes "id")) (long (pos id)) (
      item (name (codes "offset")) (long (pos offset)) (
        item (name (codes "length")) (long (pos size)) (
          item (name (codes "line")) (long (pos line))
            (item (name (codes "text")) (str (codes text)) nil)))))

abbrev pub numbered : ℕ → List Zval → Items
numbered i [] = nil
numbered i (t ∷ ts) = item (index (pos i)) t (numbered (suc i) ts)
