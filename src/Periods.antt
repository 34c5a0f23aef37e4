-- ===== src/Periods.antt =====
-- src/util.cc: the periods of the week in which the program does something, like `mon-fri(08-17)`.
-- The broken-down local time is a parameter, as the day and the hour that `localtime_r` gives.
pub mod Tokens
pub mod Single
pub mod Accepted
pub mod Documented
pub mod Valid
mod Runs
use wmbm_16brandnew.Prelude.{
  ℕ, zero, suc, ◌+◌, ◌-◌, ◌*◌, Bool, true, false, not, ◌&&◌, ◌||◌, Option, none, some, List, [],
  ◌∷◌, ◌++◌, Bytes, codes, get_or, take, drop, length, ltb, leb, ◌==◌, if◌then◌else◌,
}
use wmbm_16brandnew.Text.{equal, is_empty}
use wmbm_16brandnew.Hex.{c_str}

pub record TimePeriod : Type 0 where
  pub day_in_week_from : ℕ
  pub day_in_week_to : ℕ
  pub hour_from : ℕ
  pub hour_to : ℕ

infixl 5 ◌>>=◌
abbrev pub ◌>>=◌ : {A B : Type 0} → Option A → (A → Option B) → Option B
none >>= f = none
some a >>= f = f a

-- `tm_wday` counts from Sunday, the days of a period from Monday.
unfoldable pub is_inside : ℕ → ℕ → TimePeriod → Bool
is_inside wday hour tp =
    let day = if wday == 0 then 6 else wday - 1 in
    leb tp.day_in_week_from day
    && (leb day tp.day_in_week_to && (leb tp.hour_from hour && leb hour tp.hour_to))

-- `p[i]-48`, if it is between 0 and 9
unfoldable pub digit : ℕ → Option ℕ
digit c = if leb b'0' c && leb c b'9' then some (c - b'0') else none

-- Two digits, if the number is an hour
unfoldable pub hour_of : ℕ → ℕ → Option ℕ
hour_of a b = do x ← digit a; y ← digit b; if leb (x * 10 + y) 23 then some (x * 10 + y) else none

-- The hours of "(00-23)"; the last character is tested by the caller, and the first one is the
-- parenthesis that it looked for.
unfoldable pub extract_times : Bytes → Option (ℕ × ℕ)
extract_times (_ ∷ fa ∷ fb ∷ minus ∷ ta ∷ tb ∷ _ ∷ []) =
    if not (minus == b'-')
    then none
    else do from ← hour_of fa fb; to ← hour_of ta tb; if ltb to from then none else some (from, to)
extract_times _ = none

unfoldable pub day_name_to_nr : Bytes → Option ℕ
day_name_to_nr name =
    if equal name (codes "mon")
    then some 0
    else if equal name (codes "tue")
    then some 1
    else if equal name (codes "wed")
    then some 2
    else if equal name (codes "thu")
    then some 3
    else if equal name (codes "fri")
    then some 4
    else if equal name (codes "say")
    then some 5
    else if equal name (codes "sun")
    then some 6
    else none

unfoldable pub extract_days : Bytes → Option (ℕ × ℕ)
extract_days (a ∷ b ∷ c ∷ []) = do d ← day_name_to_nr (a ∷ b ∷ c ∷ []); some (d, d)
extract_days (a ∷ b ∷ c ∷ minus ∷ d ∷ e ∷ f ∷ []) = if not (minus == b'-') then none else do
  from ← day_name_to_nr (a ∷ b ∷ c ∷ [])
  to ← day_name_to_nr (d ∷ e ∷ f ∷ [])
  if leb to from then none else some (from, to)
extract_days _ = none

-- `strchr(tok, '(')`: what is before the parenthesis, and what begins with it.
unfoldable pub find_paren : Bytes → Option (Bytes × Bytes)
find_paren [] = none
find_paren (c ∷ tok) =
    if c == b'('
    then some ([], c ∷ tok)
    else do (days, times) ← find_paren tok; some (c ∷ days, times)

unfoldable pub extract_single_period : Bytes → Option TimePeriod
extract_single_period tok = if ltb (length tok) 8 then none else do
  (days, times) ← find_paren tok
  if not (get_or tok (length tok - 1) 0 == b')') then none else do
    (hour_from, hour_to) ← extract_times times
    (day_from, day_to) ← extract_days days
    some (record {
      day_in_week_from = day_from;
      day_in_week_to = day_to;
      hour_from = hour_from;
      hour_to = hour_to;
    })

-- The tokens that `strtok_r` finds between commas, none of which is empty; `token` is the part of one
-- that was passed over.
unfoldable pub tokens : Bytes → Bytes → List Bytes
tokens token [] = if is_empty token then [] else token ∷ []
tokens token (c ∷ s) =
    if c == b','
    then if is_empty token then tokens [] s else token ∷ tokens [] s
    else tokens (token ++ c ∷ []) s

pub data Extracted : Type 0 where
  periods : List TimePeriod → Extracted
  -- The result is false.
  bad_period : Extracted
  -- The null pointer is read.
  null_token : Extracted

unfoldable pub add_period : Option TimePeriod → Extracted → Extracted
add_period (some tp) (periods tps) = periods (tp ∷ tps)
add_period (some tp) e = e
add_period none e = bad_period

unfoldable pub extract_tokens : List Bytes → Extracted
extract_tokens [] = periods []
extract_tokens (tok ∷ toks) = add_period (extract_single_period tok) (extract_tokens toks)

-- Where there is no token, `extract_single_period` is called with the null pointer.
unfoldable pub extract_first : List Bytes → Extracted
extract_first [] = null_token
extract_first (tok ∷ toks) = extract_tokens (tok ∷ toks)

unfoldable pub extract_periods : Bytes → Extracted
extract_periods s = if length s == 0 then bad_period else extract_first (tokens [] (c_str s))

-- Whether the text could be read; `none` where the null pointer is read.
unfoldable pub is_extracted : Extracted → Option Bool
is_extracted (periods _) = some true
is_extracted bad_period = some false
is_extracted null_token = none

unfoldable pub is_valid_time_period : Bytes → Option Bool
is_valid_time_period s = is_extracted (extract_periods s)

unfoldable pub is_inside_any : ℕ → ℕ → List TimePeriod → Bool
is_inside_any wday hour [] = false
is_inside_any wday hour (tp ∷ tps) =
    if is_inside wday hour tp then true else is_inside_any wday hour tps

unfoldable pub is_inside_time_period : ℕ → ℕ → Bytes → Option Bool
is_inside_time_period wday hour s = elim (extract_periods s) [
  | periods tps ↦ some (is_inside_any wday hour tps)
  | bad_period ↦ some false
  | null_token ↦ none
]
