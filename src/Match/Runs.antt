-- ===== src/Match/Runs.antt =====
-- Concrete runs, and the theorems at concrete inputs.
use wmbm_16brandnew.Prelude.{
  ◌≡◌, ◌⊎◌, ◌↔◌, refl, true, false, some, List, [], ◌∷◌, ◌++◌, arith, Bytes, codes,
}
use wmbm_16brandnew.Match.{
  is_valid_match_expression, does_id_match_expression, does_id_match_expressions,
  does_ids_match_expressions, match_loop, match_rest, has_wild_card, match_one, match_all,
  match_verdict, is_valid_match_expressions,
}
use wmbm_16brandnew.Match.Rules.{
  Some, Excludes, Includes, IncludesExactly, does_id_match_expressions_lem,
  does_ids_match_expressions_lem,
}
use wmbm_16brandnew.Match.Validity.{Expression, is_valid_match_expression_lem}
use wmbm_16brandnew.Match.Splitting.{is_valid_match_expressions_long}

abbrev id : Bytes
id = codes "12345678"

-- A star, and one excluded meter.
abbrev rules : List Bytes
rules = codes "12*" ∷ codes "!12345679" ∷ []

rules_run :
    (does_id_match_expressions id rules ≡ (true, true))
    × (does_id_match_expressions (codes "12345679") rules ≡ (false, false))
unfolding does_id_match_expressions match_all match_one match_verdict does_id_match_expression
    match_loop match_rest has_wild_card
rules_run = (refl, refl)

does_id_match_expressions_lem_example :
    (((does_id_match_expressions id rules).0 ≡ true)
      ↔ ((¬ Some (Excludes id) rules) × Some (Includes id) rules))
    × (((does_id_match_expressions id rules).1 ≡ true)
        ↔ (((does_id_match_expressions id rules).0 ≡ true) × (¬ Some (IncludesExactly id) rules)))
does_id_match_expressions_lem_example = does_id_match_expressions_lem id rules

does_ids_match_expressions_lem_example :
    (((does_ids_match_expressions (id ∷ codes "99" ∷ []) rules false).0 ≡ true)
      ↔ Some (λ i. (does_id_match_expressions i rules).0 ≡ true) (id ∷ codes "99" ∷ []))
    × ((does_ids_match_expressions (id ∷ codes "99" ∷ []) rules false).1
        ≡ (does_id_match_expressions (codes "99") rules).1)
does_ids_match_expressions_lem_example =
    does_ids_match_expressions_lem (id ∷ []) rules (codes "99") false

is_valid_match_expression_lem_example : (is_valid_match_expression (codes "!12*") false ≡ true) ↔ (
    Expression false (codes "!12*")
    ⊎ ((e : Bytes) × (codes "!12*" ≡ b'!' ∷ e) × Expression false e))
is_valid_match_expression_lem_example = is_valid_match_expression_lem false (codes "!12*")

is_valid_match_expressions_long_example :
    is_valid_match_expressions (codes "1234567890123456" ++ b'7' ∷ codes ",nonsense") false
    ≡ some true
is_valid_match_expressions_long_example =
    is_valid_match_expressions_long (codes "1234567890123456") (codes ",nonsense") b'7' false refl
      (omega arith) (omega arith)
