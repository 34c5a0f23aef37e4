-- ===== src/Match/Splitting.antt =====
-- src/util.cc: `splitMatchExpressions` takes a list of rules apart as it was put together, and leaves
-- out what is behind a token of more than 16 bytes.
use wmbm_16brandnew.Prelude.{
  ℕ, zero, suc, ◌+◌, ◌≤◌, ◌<◌, ◌≡◌, ◌≢◌, refl, ap, ◌∙◌, ◌⊎◌, inl, inr, Bool, true, false, Option,
  some, List, [], ◌∷◌, ◌++◌, map, arith, Bytes, All, drop, length, length-append, Bool-cases,
}
use native.Mathlib.Numerals.{add-one}
use mathlib.Core.List.{append-nil, append_assoc}
use wmbm_16brandnew.Text.{
  eat_loop, eat_finish, bytes_err, eat_to_bytes, is_empty, trim_whitespace, to_ids_comma_separated,
}
use wmbm_16brandnew.Text.Splitting.{Lacks, eat_loop_takes, eat_loop_cuts, eat_loop_append}
use wmbm_16brandnew.Match.{
  split_match_loop, split_match_expressions, all_valid, is_valid_match_expressions,
}

shorter :
    (token rest v : Bytes)
    → token ++ rest ≡ v
    → (is_empty (drop 1 rest) ≡ true) ⊎ (length (drop 1 rest) < length v)
shorter token [] v e = inl refl
shorter token (x ∷ rest) v e =
    inr (omega (arith, ap (λ (t : Bytes). length t) e, length-append token (x ∷ rest)))

-- A round that ends well hands on fewer bytes than it was given, unless it is the last.
eat_to_bytes_shorter :
    (v : Bytes) (c : Option ℕ) (max : ℕ)
    → ((eat_to_bytes v c max).eof ≡ true) ⊎ (length (eat_to_bytes v c max).rest < length v)
unfolding eat_to_bytes eat_finish
eat_to_bytes_shorter v c max =
    shorter (eat_loop max c v).0 (eat_loop max c v).1 v (eat_loop_append max c v).0

split_match_loop_total :
    (fuel : ℕ) (v : Bytes) (r : List Bytes)
    → length v < fuel
    → (r' : List Bytes) × (split_match_loop fuel v r ≡ some r')
unfolding split_match_loop
split_match_loop_total zero v r h = elim h [ ]
split_match_loop_total (suc fuel) v r h =
    let e = eat_to_bytes v (some b',') 16 in
    elim (Bool-cases e.err) [
      | inl bad ↦ (r, rw bad)
      | inr fine ↦ elim (Bool-cases e.eof) [
        | inl last ↦ (r ++ trim_whitespace e.token ∷ [], rw (fine, last))
        | inr more ↦ elim (eat_to_bytes_shorter v (some b',') 16) [
          | inl last ↦ cc (last, more)
          | inr less ↦
              let (r', eq) =
                split_match_loop_total fuel e.rest (r ++ trim_whitespace e.token ∷ [])
                  (omega arith) in
              (r', rw (fine, more) eq)
        ]
      ]
    ]

-- However long the text, `splitMatchExpressions` comes to an end.
pub split_match_expressions_total :
    (mes : Bytes) → (r : List Bytes) × (split_match_expressions mes ≡ some r)
unfolding split_match_expressions
split_match_expressions_total mes = split_match_loop_total (length mes + 1) mes [] (omega arith)

eaten_more :
    (token rest : Bytes) (x : ℕ)
    → length token ≤ 16
    → Lacks b',' token
    → eat_to_bytes (token ++ b',' ∷ x ∷ rest) (some b',') 16
      ≡ record { token = token; rest = x ∷ rest; eof = false; err = false }
unfolding eat_to_bytes eat_finish bytes_err
eaten_more token rest x h lacks = rw (eat_loop_takes 16 b',' token (b',' ∷ x ∷ rest) lacks h refl)

eaten_last :
    (token : Bytes)
    → length token ≤ 16
    → Lacks b',' token
    → eat_to_bytes token (some b',') 16
      ≡ record { token = token; rest = []; eof = true; err = false }
unfolding eat_to_bytes eat_finish bytes_err
eaten_last token h lacks =
    let taken : eat_loop 16 (some b',') token ≡ (token, []) =
      rw append-nil at (eat_loop_takes 16 b',' token [] lacks h tt) in
    rw taken

eaten_long :
    (token rest : Bytes) (x : ℕ)
    → length token ≡ 16
    → Lacks b',' token
    → x ≢ b','
    → (eat_to_bytes (token ++ x ∷ rest) (some b',') 16).err ≡ true
unfolding eat_to_bytes eat_finish bytes_err
eaten_long token rest x h lacks other =
    rw (eat_loop_cuts 16 b',' x token rest lacks h) (ground (arith, other))

to_ids_cons :
    (r s : Bytes) (rs : List Bytes)
    → to_ids_comma_separated (r ∷ s ∷ rs) ≡ r ++ b',' ∷ to_ids_comma_separated (s ∷ rs)
unfolding to_ids_comma_separated
to_ids_cons r s rs = refl

to_ids_one : (r : Bytes) → to_ids_comma_separated (r ∷ []) ≡ r
unfolding to_ids_comma_separated
to_ids_one r = refl

-- Rules that are joined start with the first byte of the first one.
to_ids_starts :
    (r : Bytes) (rs : List Bytes)
    → r ≢ []
    → (x : ℕ) × (rest : Bytes) × (to_ids_comma_separated (r ∷ rs) ≡ x ∷ rest)
unfolding to_ids_comma_separated
to_ids_starts [] rs h = absurd (h refl)
to_ids_starts (x ∷ r) [] h = (x, r, refl)
to_ids_starts (x ∷ r) (s ∷ rs) h = (x, r ++ b',' ∷ to_ids_comma_separated (s ∷ rs), refl)

split_loop_more :
    (fuel : ℕ) (token rest : Bytes) (x : ℕ) (acc : List Bytes)
    → length token ≤ 16
    → Lacks b',' token
    → split_match_loop (suc fuel) (token ++ b',' ∷ x ∷ rest) acc
      ≡ split_match_loop fuel (x ∷ rest) (acc ++ trim_whitespace token ∷ [])
unfolding split_match_loop
split_loop_more fuel token rest x acc h lacks = rw (eaten_more token rest x h lacks)

split_loop_last :
    (fuel : ℕ) (token : Bytes) (acc : List Bytes)
    → length token ≤ 16
    → Lacks b',' token
    → split_match_loop (suc fuel) token acc ≡ some (acc ++ trim_whitespace token ∷ [])
unfolding split_match_loop
split_loop_last fuel token acc h lacks = rw (eaten_last token h lacks)

-- A rule that can be written in a list: not empty, of at most 16 bytes, without a comma.
abbrev pub IsRule : Bytes → Type 0
IsRule r = (r ≢ []) × (length r ≤ 16) × Lacks b',' r

split_loop-join :
    (fuel : ℕ) (r : Bytes) (rs acc : List Bytes)
    → All IsRule (r ∷ rs)
    → length (to_ids_comma_separated (r ∷ rs)) < fuel
    → split_match_loop fuel (to_ids_comma_separated (r ∷ rs)) acc
      ≡ some (acc ++ map trim_whitespace (r ∷ rs))
split_loop-join zero r rs acc h k = elim k [ ]
split_loop-join (suc fuel) r [] acc h k = rw to_ids_one (split_loop_last fuel r acc h.0.1 h.0.2)
split_loop-join (suc fuel) r (s ∷ rs) acc h k =
    let (x, rest, starts) = to_ids_starts s rs h.1.0.0 in
    let size = length-append r (b',' ∷ to_ids_comma_separated (s ∷ rs)) in
    let split = to_ids_cons r s rs in
    let smaller : length (to_ids_comma_separated (s ∷ rs)) < fuel =
      omega (arith, ap (λ (t : Bytes). length t) split, size) in
    let ih = split_loop-join fuel s rs (acc ++ trim_whitespace r ∷ []) h.1 smaller in
    rw (split, starts)
      (split_loop_more fuel r rest x acc h.0.1 h.0.2
        ∙ rw starts at ih
        ∙ ap some (append_assoc acc (trim_whitespace r ∷ []) (map trim_whitespace (s ∷ rs))))

-- `splitMatchExpressions` gives back the rules that were joined by commas, each trimmed.
pub split_match_expressions-join :
    (r : Bytes) (rs : List Bytes)
    → All IsRule (r ∷ rs)
    → split_match_expressions (to_ids_comma_separated (r ∷ rs))
      ≡ some (map trim_whitespace (r ∷ rs))
unfolding split_match_expressions
split_match_expressions-join r rs h =
    split_loop-join (length (to_ids_comma_separated (r ∷ rs)) + 1) r rs [] h (omega arith)

split_loop_long :
    (fuel : ℕ) (token rest : Bytes) (x : ℕ) (acc : List Bytes)
    → (eat_to_bytes (token ++ x ∷ rest) (some b',') 16).err ≡ true
    → split_match_loop (suc fuel) (token ++ x ∷ rest) acc ≡ some acc
unfolding split_match_loop
split_loop_long fuel token rest x acc e = rw e

split_expressions_long :
    (token rest : Bytes) (x : ℕ)
    → length token ≡ 16
    → Lacks b',' token
    → x ≢ b','
    → split_match_expressions (token ++ x ∷ rest) ≡ some []
unfolding split_match_expressions
split_expressions_long token rest x h lacks other = rw add-one (
    split_loop_long (length (token ++ x ∷ rest)) token rest x []
      (eaten_long token rest x h lacks other))

-- A token of more than 16 bytes, and all that stands behind it, is left out without a complaint: a
-- list of rules that starts with such a token is called valid, whatever it says.
pub is_valid_match_expressions_long :
    (token rest : Bytes) (x : ℕ) (nc : Bool)
    → length token ≡ 16
    → Lacks b',' token
    → x ≢ b','
    → is_valid_match_expressions (token ++ x ∷ rest) nc ≡ some true
unfolding is_valid_match_expressions all_valid
is_valid_match_expressions_long token rest x nc h lacks other =
    rw (split_expressions_long token rest x h lacks other, is_valid_match_expressions)
