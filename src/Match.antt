-- ===== src/Match.antt =====
-- src/util.cc: match expressions over meter ids (`isValidMatchExpression` to
-- `doesIdMatchExpressions`, `isValidId`, `splitMatchExpressions`). A string is the list of its bytes.
pub mod Validity
pub mod Single
pub mod Rules
pub mod Splitting
mod Runs
use wmbm_16brandnew.Prelude.{
  ℕ, zero, suc, ◌+◌, ◌-◌, ◌*◌, ◌/◌, ◌%◌, ◌^◌, ◌≤◌, ◌<◌, ◌≡◌, ◌≢◌, refl, ap, sym, ◌∙◌, ◌⊎◌, ◌↔◌, inl,
  inr, Bool, true, false, not, ◌&&◌, ◌||◌, Option, none, some, List, [], ◌∷◌, ◌++◌, map, arith,
  Bytes, IsByte, All, codes, get_or, get_elem?, take, drop, replicate, length, length-append,
  length-take, length-drop, take-append-drop, take-append_length, drop-append_length,
  length-replicate, within, ltb, leb, ◌==◌, if◌then◌else◌, all_below, all_below_sound, agree_below,
  Bool-cases, Option-cases, flag_cases, ==_iff, u8, u16, u32, bit_set,
}
use mathlib.Core.List.{append-nil, append_assoc}
use wmbm_16brandnew.Text.{Eaten, eat_to_bytes, trim_whitespace, is_empty}

unfoldable pub is_id_digit : Bool → ℕ → Bool
is_id_digit non_compliant c = within b'0' b'9' c || (non_compliant && within b'a' b'f' c)

-- Both loops that eat digits: what is left, and the count.
unfoldable pub eat_digits : Bool → Bytes → ℕ → Bytes × ℕ
eat_digits nc [] count = ([], count)
eat_digits nc (c ∷ me) count =
    let more = eat_digits nc me (count + 1) in if is_id_digit nc c then more else (c ∷ me, count)

-- Behind the digits: an optional star, then nothing; eight digits without the star, at most seven
-- with it.
unfoldable pub check_tail : Bytes → ℕ → Bool
check_tail [] count = count == 8
check_tail (c ∷ []) count = (c == b'*') && leb count 7
check_tail (c ∷ d ∷ me) count = false

unfoldable pub check_digits : Bool → Bytes → Bool
check_digits nc [] = false
check_digits nc (c ∷ me) = let (rest, count) = eat_digits nc (c ∷ me) 0 in check_tail rest count

unfoldable pub is_valid_match_expression : Bytes → Bool → Bool
is_valid_match_expression [] nc = false
is_valid_match_expression (c ∷ me) nc = check_digits nc (if c == b'!' then me else c ∷ me)

-- `isValidId` accepts upper case digits too, for meters that do not comply.
unfoldable pub is_valid_id : Bytes → Bool → Bool
is_valid_id [] nc = true
is_valid_id (c ∷ id) nc =
    (within b'0' b'9' c || (nc && (within b'a' b'f' c || within b'A' b'F' c))) && is_valid_id id nc

-- What the loop of `doesIdMatchExpression` leaves of the id and of the expression, and `can_match`.
unfoldable pub match_loop : Bytes → Bytes → Bool × Bytes × Bytes
match_loop [] match = (true, [], match)
match_loop (i ∷ id) [] = (true, i ∷ id, [])
match_loop (i ∷ id) (m ∷ match) =
    let more = match_loop id match in
    if m == b'*'
    then (true, i ∷ id, m ∷ match)
    else if i == m
    then more
    else (false, i ∷ id, m ∷ match)

-- `wildcard_used`: the star is erased, and then the expression has to be used up; without it the id
-- has to be used up too.
unfoldable pub match_rest : Bytes → Bytes → Bool
match_rest id [] = is_empty id
match_rest id (m ∷ match) = if m == b'*' then is_empty match else false

unfoldable pub does_id_match_expression : Bytes → Bytes → Bool
does_id_match_expression [] match = false
does_id_match_expression (i ∷ id) match =
    let (can_match, id', match') = match_loop (i ∷ id) match in can_match && match_rest id' match'

unfoldable pub has_wild_card : Bytes → Bool
has_wild_card [] = false
has_wild_card (c ∷ mes) = (c == b'*') || has_wild_card mes

-- The three flags of `doesIdMatchExpressions`.
pub record Matches : Type 0 where
  pub found_match : Bool
  pub found_negative_match : Bool
  pub exact_match : Bool

-- The body of the loop, for one expression.
unfoldable pub match_one : Bytes → Bytes → Matches → Matches
match_one id [] f =
    if does_id_match_expression id []
    then record f { found_match = true; exact_match = true }
    else f
match_one id (c ∷ me) f =
    let negative = record f { found_negative_match = true } in
    let positive = record f {
      found_match = true;
      exact_match = f.exact_match || not (has_wild_card (c ∷ me));
    } in
    if c == b'!'
    then (if does_id_match_expression id me then negative else f)
    else if does_id_match_expression id (c ∷ me)
    then positive
    else f

unfoldable pub match_all : Bytes → List Bytes → Matches → Matches
match_all id [] f = f
match_all id (me ∷ mes) f = match_all id mes (match_one id me f)

abbrev no_match : Matches
no_match = record { found_match = false; found_negative_match = false; exact_match = false }

-- The verdict behind the loop, with `*used_wildcard`.
unfoldable pub match_verdict : Matches → Bool × Bool
match_verdict f =
    if f.found_negative_match
    then (false, false)
    else if f.found_match
    then (true, not f.exact_match)
    else (false, false)

-- The result and `*used_wildcard`.
unfoldable pub does_id_match_expressions : Bytes → List Bytes → Bool × Bool
does_id_match_expressions id mes = match_verdict (match_all id mes no_match)

-- The loop of `doesIdsMatchExpressions`. Each call writes `*used_wildcard` anew.
unfoldable pub ids_loop : List Bytes → List Bytes → Bool → Bool → Bool × Bool
ids_loop [] mes match used = (match, used)
ids_loop (id ∷ ids) mes match used =
    let (m, used') = does_id_match_expressions id mes in ids_loop ids mes (match || m) used'

unfoldable pub does_ids_match_expressions : List Bytes → List Bytes → Bool → Bool × Bool
does_ids_match_expressions ids mes used = ids_loop ids mes false used

-- The loop of `splitMatchExpressions` over what is left. Each round passes over a byte at least or
-- is the last, so one round more than there are bytes is enough fuel: `none` is no result.
unfoldable pub split_match_loop : ℕ → Bytes → List Bytes → Option (List Bytes)
split_match_loop zero v r = none
split_match_loop (suc fuel) v r =
    let e = eat_to_bytes v (some b',') 16 in
    let r' = r ++ trim_whitespace e.token ∷ [] in
    let more = split_match_loop fuel e.rest r' in
    if e.err then some r else if e.eof then some r' else more

unfoldable pub split_match_expressions : Bytes → Option (List Bytes)
split_match_expressions mes = split_match_loop (length mes + 1) mes []

unfoldable pub all_valid : List Bytes → Bool → Bool
all_valid [] nc = true
all_valid (me ∷ v) nc = is_valid_match_expression me nc && all_valid v nc

unfoldable pub is_valid_match_expressions : Bytes → Bool → Option Bool
is_valid_match_expressions mes nc = elim (split_match_expressions mes) [
  | none ↦ none
  | some v ↦ some (all_valid v nc)
]
