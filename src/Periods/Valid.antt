-- ===== src/Periods/Valid.antt =====
-- src/util.cc: the texts for the periods that the documentation has, in `isValidTimePeriod`.
use wmbm_16brandnew.Prelude.{
  ℕ, zero, suc, ◌≤◌, ◌<◌, Bool, true, false, not, ◌||◌, none, some, List, [], ◌∷◌, ◌++◌, Bytes, All,
  All-append, length, length-append, ◌==◌, if◌then◌else◌, ◌≡◌, refl, sym, ap, ◌∙◌, inl, inr,
  Bool-cases, arith,
}
use mathlib.Core.List.{append-nil, append_assoc}
use wmbm_16brandnew.Hex.{c_str}
use wmbm_16brandnew.Periods.{
  TimePeriod, tokens, Extracted, periods, bad_period, null_token, add_period, extract_tokens,
  extract_first, extract_periods, is_extracted, is_valid_time_period,
}
use wmbm_16brandnew.Periods.Single.{day_name, two_digits, print_days, print_times, print_period}
use wmbm_16brandnew.Periods.Documented.{
  documented, IsDocumented, is_refused, extract_single_period-documented,
}

-- Not a comma, and not the end of a C string
abbrev IsText : ℕ → Type 0
IsText c = ((c == b',') ≡ false) × ((c == 0) ≡ false)

two_digits-IsText : (n : ℕ) → All IsText (two_digits n)
unfolding two_digits
two_digits-IsText n = ((ground arith, ground arith), ((ground arith, ground arith), tt))

day_name-IsText : (d : ℕ) → d ≤ 6 → All IsText (day_name documented d)
unfolding day_name
day_name-IsText zero le = ((refl, refl), ((refl, refl), ((refl, refl), tt)))
day_name-IsText (suc zero) le = ((refl, refl), ((refl, refl), ((refl, refl), tt)))
day_name-IsText (suc (suc zero)) le = ((refl, refl), ((refl, refl), ((refl, refl), tt)))
day_name-IsText (suc (suc (suc zero))) le = ((refl, refl), ((refl, refl), ((refl, refl), tt)))
day_name-IsText (suc (suc (suc (suc zero)))) le = ((refl, refl), ((refl, refl), ((refl, refl), tt)))
day_name-IsText (suc (suc (suc (suc (suc zero))))) le =
    ((refl, refl), ((refl, refl), ((refl, refl), tt)))
day_name-IsText (suc (suc (suc (suc (suc (suc zero)))))) le =
    ((refl, refl), ((refl, refl), ((refl, refl), tt)))
day_name-IsText (suc (suc (suc (suc (suc (suc (suc n))))))) le = absurd (omega (arith, le))

print_days-IsText : (from to : ℕ) → from ≤ 6 → to ≤ 6 → All IsText (print_days documented from to)
unfolding print_days
print_days-IsText from to hf ht = elim (Bool-cases (from == to)) [
  | inl same ↦ rw same (day_name-IsText from hf)
  | inr other ↦ rw other (
      All-append IsText (day_name documented from) (b'-' ∷ day_name documented to)
        (day_name-IsText from hf) ((refl, refl), day_name-IsText to ht))
]

print_times-IsText : (from to : ℕ) → All IsText (print_times from to)
unfolding print_times two_digits
print_times-IsText from to = (
  (refl, refl),
  All-append IsText (two_digits from) (b'-' ∷ two_digits to ++ b')' ∷ []) (two_digits-IsText from) (
    (refl, refl),
    All-append IsText (two_digits to) (b')' ∷ []) (two_digits-IsText to) ((refl, refl), tt),
  ),
)

print_period-IsText : (tp : TimePeriod) → IsDocumented tp → All IsText (print_period documented tp)
unfolding print_period
print_period-IsText tp h =
    let days = h.days in
    let week = h.week in
    All-append IsText (print_days documented tp.day_in_week_from tp.day_in_week_to)
      (print_times tp.hour_from tp.hour_to)
      (print_days-IsText tp.day_in_week_from tp.day_in_week_to (omega (arith, days, week)) week)
      (print_times-IsText tp.hour_from tp.hour_to)

period_text-ne-nil : (tp : TimePeriod) → 0 < length (print_period documented tp)
unfolding print_period print_times
period_text-ne-nil tp =
    let days = print_days documented tp.day_in_week_from tp.day_in_week_to in
    omega (arith, length-append days (print_times tp.hour_from tp.hour_to))

-- Texts with commas between them
unfoldable pub joined : List Bytes → Bytes
joined [] = []
joined (w ∷ []) = w
joined (w ∷ v ∷ ws) = w ++ b',' ∷ joined (v ∷ ws)

abbrev IsToken : Bytes → Type 0
IsToken w = All IsText w × (0 < length w)

tokens-append : (token w s : Bytes) → All IsText w → tokens token (w ++ s) ≡ tokens (token ++ w) s
unfolding tokens
tokens-append token [] s h = ap (λ t. tokens t s) (sym (append-nil token))
tokens-append token (c ∷ w) s h =
    rw h.0.0 (
      tokens-append (token ++ c ∷ []) w s h.1
      ∙ ap (λ t. tokens t s) (append_assoc token (c ∷ []) w))

token_last : (w : Bytes) → 0 < length w → tokens w [] ≡ w ∷ []
unfolding tokens
token_last [] h = absurd (omega (arith, h))
token_last (c ∷ w) h = refl

token_first : (w s : Bytes) → 0 < length w → tokens w (b',' ∷ s) ≡ w ∷ tokens [] s
unfolding tokens
token_first [] s h = absurd (omega (arith, h))
token_first (c ∷ w) s h = refl

tokens-joined : (ws : List Bytes) → All IsToken ws → tokens [] (joined ws) ≡ ws
unfolding joined tokens
tokens-joined [] h = refl
tokens-joined (w ∷ []) h =
    ap (tokens []) (sym (append-nil w)) ∙ tokens-append [] w [] h.0.0 ∙ token_last w h.0.1
tokens-joined (w ∷ v ∷ ws) h =
    tokens-append [] w (b',' ∷ joined (v ∷ ws)) h.0.0
    ∙ token_first w (joined (v ∷ ws)) h.0.1
    ∙ ap (λ t. w ∷ t) (tokens-joined (v ∷ ws) h.1)

c_str-append : (w s : Bytes) → All IsText w → c_str (w ++ s) ≡ w ++ c_str s
unfolding c_str
c_str-append [] s h = refl
c_str-append (c ∷ w) s h = rw h.0.1 (ap (λ t. c ∷ t) (c_str-append w s h.1))

c_str-joined : (ws : List Bytes) → All IsToken ws → c_str (joined ws) ≡ joined ws
unfolding joined c_str
c_str-joined [] h = refl
c_str-joined (w ∷ []) h = ap c_str (sym (append-nil w)) ∙ c_str-append w [] h.0.0 ∙ append-nil w
c_str-joined (w ∷ v ∷ ws) h =
    c_str-append w (b',' ∷ joined (v ∷ ws)) h.0.0
    ∙ ap (λ t. w ++ b',' ∷ t) (c_str-joined (v ∷ ws) h.1)

length-joined :
    (w : Bytes) (ws : List Bytes) → 0 < length w → (length (joined (w ∷ ws)) == 0) ≡ false
unfolding joined
length-joined w [] h = ground (arith, h)
length-joined w (v ∷ ws) h = ground (arith, h, length-append w (b',' ∷ joined (v ∷ ws)))

is_extracted-joined :
    (w : Bytes) (ws : List Bytes)
    → All IsToken (w ∷ ws)
    → is_valid_time_period (joined (w ∷ ws)) ≡ is_extracted (extract_tokens (w ∷ ws))
unfolding is_valid_time_period extract_periods extract_first
is_extracted-joined w ws h =
    rw (length-joined w ws h.0.1, c_str-joined (w ∷ ws) h, tokens-joined (w ∷ ws) h) refl

-- The texts of the periods, as the documentation has them
abbrev pub texts : List TimePeriod → List Bytes
texts [] = []
texts (tp ∷ tps) = print_period documented tp ∷ texts tps

abbrev pub any_refused : List TimePeriod → Bool
any_refused [] = false
any_refused (tp ∷ tps) = is_refused tp || any_refused tps

texts-IsToken : (tps : List TimePeriod) → All IsDocumented tps → All IsToken (texts tps)
texts-IsToken [] h = tt
texts-IsToken (tp ∷ tps) h =
    ((print_period-IsText tp h.0, period_text-ne-nil tp), texts-IsToken tps h.1)

add_read :
    (tp : TimePeriod) (e : Extracted) → is_extracted (add_period (some tp) e) ≡ is_extracted e
unfolding is_extracted add_period
add_read tp (periods tps) = refl
add_read tp bad_period = refl
add_read tp null_token = refl

add_refused : (e : Extracted) → is_extracted (add_period none e) ≡ some false
unfolding is_extracted add_period
add_refused e = refl

add_documented :
    (b rest : Bool) (tp : TimePeriod) (e : Extracted)
    → is_extracted e ≡ some (not rest)
    → is_extracted (add_period (if b then none else some tp) e) ≡ some (not (b || rest))
add_documented true rest tp e h = add_refused e
add_documented false rest tp e h = add_read tp e ∙ h

extract_tokens-texts :
    (tps : List TimePeriod)
    → All IsDocumented tps
    → is_extracted (extract_tokens (texts tps)) ≡ some (not (any_refused tps))
unfolding extract_tokens is_extracted
extract_tokens-texts [] h = refl
extract_tokens-texts (tp ∷ tps) h =
    ap (λ o. is_extracted (add_period o (extract_tokens (texts tps))))
      (extract_single_period-documented tp h.0)
    ∙ add_documented (is_refused tp) (any_refused tps) tp (extract_tokens (texts tps))
        (extract_tokens-texts tps h.1)

-- Texts of periods as the documentation has them, at least one, with commas between them, the days and
-- the hours in order, and where Saturday is `sat` and the hours go up to 24: such a text is valid exactly if no period names Saturday
-- and none has the hour 24. So the documented `mon-fri(08-17),sat-sun(09-12)` and `mon-sun(00-24)` are
-- no valid texts.
pub is_valid_time_period-documented :
    (tp : TimePeriod) (tps : List TimePeriod)
    → All IsDocumented (tp ∷ tps)
    → is_valid_time_period (joined (texts (tp ∷ tps))) ≡ some (not (any_refused (tp ∷ tps)))
is_valid_time_period-documented tp tps h =
    is_extracted-joined (print_period documented tp) (texts tps) (texts-IsToken (tp ∷ tps) h)
    ∙ extract_tokens-texts (tp ∷ tps) h
