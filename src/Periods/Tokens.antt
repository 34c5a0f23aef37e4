-- ===== src/Periods/Tokens.antt =====
-- src/util.cc: `extract_periods` over the tokens of its text.
use wmbm_16brandnew.Prelude.{
  ℕ, ◌<◌, true, false, Option, none, some, List, [], ◌∷◌, ◌++◌, Bytes, All, length, ◌==◌, ◌≡◌, ◌≢◌,
  refl, ap, ◌∙◌, ◌↔◌, inl, inr, Bool-cases, ==_iff, arith,
}
use wmbm_16brandnew.Hex.{c_str}
use wmbm_16brandnew.Periods.{
  TimePeriod, Extracted, periods, bad_period, null_token, tokens, add_period, extract_tokens,
  extract_first, extract_periods, extract_single_period, is_extracted, is_valid_time_period,
}
use wmbm_16brandnew.Periods.Single.{misspelt, IsPeriod, print_period}
use wmbm_16brandnew.Periods.Accepted.{extract_single_period_iff}

pub IsComma : ℕ → Type 0
IsComma c = c ≡ b','

-- A token that was begun is found.
tokens_begun : (b : ℕ) (token s : Bytes) → tokens (b ∷ token) s ≢ []
unfolding tokens
tokens_begun b token [] q = cc
tokens_begun b token (c ∷ s) q = elim (Bool-cases (c == b',')) [
  | inl comma ↦ let q' = rw comma at q in cc
  | inr other ↦ tokens_begun b (token ++ c ∷ []) s (rw other at q)
]

tokens_nil_iff : (s : Bytes) → (tokens [] s ≡ []) ↔ All IsComma s
unfolding tokens IsComma
tokens_nil_iff [] = (λ q. tt, λ h. refl)
tokens_nil_iff (c ∷ s) = elim (Bool-cases (c == b',')) [
  | inl comma ↦
      let p = (==_iff c b',').0 comma in
      rw comma (λ q. (p, (tokens_nil_iff s).0 q), λ h. (tokens_nil_iff s).1 h.1)
  | inr other ↦ (
    λ q. absurd (tokens_begun c [] s (rw other at q)),
    λ h. absurd (let p = h.0 in ground (arith, other, p)),
  )
]

add_period_not_null :
    (o : Option TimePeriod) (e : Extracted) → e ≢ null_token → add_period o e ≢ null_token
unfolding add_period
add_period_not_null (some tp) (periods tps) h q = cc
add_period_not_null (some tp) bad_period h q = cc
add_period_not_null (some tp) null_token h q = h refl
add_period_not_null none e h q = cc

extract_tokens_not_null : (toks : List Bytes) → extract_tokens toks ≢ null_token
unfolding extract_tokens
extract_tokens_not_null [] q = cc
extract_tokens_not_null (tok ∷ toks) q =
    add_period_not_null (extract_single_period tok) (extract_tokens toks)
      (extract_tokens_not_null toks) q

extract_first_null_iff : (toks : List Bytes) → (extract_first toks ≡ null_token) ↔ (toks ≡ [])
unfolding extract_first
extract_first_null_iff [] = (λ q. refl, λ h. refl)
extract_first_null_iff (tok ∷ toks) =
    (λ q. absurd (extract_tokens_not_null (tok ∷ toks) q), λ h. cc)

-- A text for the periods makes the program read the null pointer exactly if it is not empty and has
-- no character but commas, up to its first zero byte.
pub extract_periods_null_iff :
    (s : Bytes) → (extract_periods s ≡ null_token) ↔ ((0 < length s) × All IsComma (c_str s))
unfolding extract_periods
extract_periods_null_iff s = elim (Bool-cases (length s == 0)) [
  | inl empty ↦ rw empty (λ q. cc, λ h. absurd (let l = h.0 in ground (arith, empty, l)))
  | inr some_left ↦ rw some_left (
    λ q. (ground (arith, some_left), (tokens_nil_iff (c_str s)).0 ((extract_first_null_iff _).0 q)),
    λ h. (extract_first_null_iff _).1 ((tokens_nil_iff (c_str s)).1 h.1),
  )
]

-- The token is the text of a period.
pub IsAccepted : Bytes → Type 0
IsAccepted tok = (tp : TimePeriod) × IsPeriod tp × (tok ≡ print_period misspelt tp)

add_period_sound :
    (o : Option TimePeriod) (e : Extracted) (tps : List TimePeriod)
    → add_period o e ≡ periods tps
    → ((tp : TimePeriod) × (o ≡ some tp)) × ((others : List TimePeriod) × (e ≡ periods others))
unfolding add_period
add_period_sound (some tp) (periods others) tps h = ((tp, refl), (others, refl))
add_period_sound (some tp) bad_period tps h = cc
add_period_sound (some tp) null_token tps h = cc
add_period_sound none e tps h = cc

extract_tokens_sound :
    (toks : List Bytes) (tps : List TimePeriod)
    → extract_tokens toks ≡ periods tps
    → All IsAccepted toks
unfolding extract_tokens IsAccepted
extract_tokens_sound [] tps h = tt
extract_tokens_sound (tok ∷ toks) tps h =
    let ((tp, first), (others, behind)) = add_period_sound _ _ tps h in
    let (in_week, text) = (extract_single_period_iff tok tp).0 first in
    ((tp, in_week, text), extract_tokens_sound toks others behind)

extract_tokens_read :
    (toks : List Bytes)
    → All IsAccepted toks
    → (tps : List TimePeriod) × (extract_tokens toks ≡ periods tps)
unfolding extract_tokens add_period IsAccepted
extract_tokens_read [] h = ([], refl)
extract_tokens_read (tok ∷ toks) h =
    let (tp, in_week, text) = h.0 in
    let (others, behind) = extract_tokens_read toks h.1 in
    (tp ∷ others, rw ((extract_single_period_iff tok tp).1 (in_week, text), behind) refl)

valid_of :
    (e : Extracted) → is_extracted e ≡ some true → (tps : List TimePeriod) × (e ≡ periods tps)
unfolding is_extracted
valid_of (periods tps) h = (tps, refl)
valid_of bad_period h = cc
valid_of null_token h = cc

not_empty_text : (s : Bytes) → tokens [] (c_str s) ≢ [] → (length s == 0) ≡ false
unfolding tokens c_str
not_empty_text [] ne = absurd (ne refl)
not_empty_text (c ∷ s) ne = ground arith

extract_periods_some :
    (s : Bytes) → tokens [] (c_str s) ≢ [] → extract_periods s ≡ extract_first (tokens [] (c_str s))
unfolding extract_periods
extract_periods_some s ne = rw (not_empty_text s ne) refl

first_sound :
    (toks : List Bytes) (tps : List TimePeriod)
    → extract_first toks ≡ periods tps
    → (toks ≢ []) × All IsAccepted toks
unfolding extract_first
first_sound [] tps h = cc
first_sound (tok ∷ toks) tps h = ((λ q. cc), extract_tokens_sound (tok ∷ toks) tps h)

first_read :
    (toks : List Bytes)
    → toks ≢ []
    → All IsAccepted toks
    → (tps : List TimePeriod) × (extract_first toks ≡ periods tps)
unfolding extract_first
first_read [] ne h = absurd (ne refl)
first_read (tok ∷ toks) ne h = extract_tokens_read (tok ∷ toks) h

-- A text for the periods is valid exactly if it has a token at all, and each of its tokens, between
-- commas and up to the first zero byte of the text, is the text of a period, in which Saturday is
-- written `say` and the hours go from 00 to 23.
pub is_valid_time_period_iff :
    (s : Bytes)
    → let toks = tokens [] (c_str s) in
      (is_valid_time_period s ≡ some true) ↔ ((toks ≢ []) × All IsAccepted toks)
unfolding is_valid_time_period is_extracted extract_periods
is_valid_time_period_iff s = (
  (λ h.
      let (tps, e) = valid_of (extract_periods s) h in
      elim (Bool-cases (length s == 0)) [
        | inl empty ↦ let e' = rw empty at e in cc
        | inr some_left ↦ first_sound _ tps (rw some_left at e)
      ]),
  (λ h.
      let (tps, e) = first_read (tokens [] (c_str s)) h.0 h.1 in
      ap is_extracted (extract_periods_some s h.0 ∙ e)),
)
