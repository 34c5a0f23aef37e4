-- ===== src/Match/Rules.antt =====
-- src/util.cc: what `doesIdMatchExpressions` and `doesIdsMatchExpressions` decide over all the rules.
use wmbm_16brandnew.Prelude.{
  ◌≡◌, refl, ◌⊎◌, ◌↔◌, inl, inr, Bool, true, false, ◌||◌, List, [], ◌∷◌, ◌++◌, arith, Bytes,
}
use wmbm_16brandnew.Match.{
  does_id_match_expression, has_wild_card, Matches, match_one, match_all, match_verdict,
  does_id_match_expressions, no_match, ids_loop, does_ids_match_expressions,
}

-- Some member of the list has the property.
abbrev pub Some : (Bytes → Type 0) → List Bytes → Type 0
Some P [] = ⊥
Some P (x ∷ xs) = P x ⊎ Some P xs

-- A rule is negative if it starts with an exclamation mark, which is no part of the expression.
abbrev IsNegative : Bytes → Type 0
IsNegative [] = ⊥
IsNegative (c ∷ me) = c ≡ b'!'

abbrev pub Excludes : Bytes → Bytes → Type 0
Excludes id [] = ⊥
Excludes id (c ∷ me) = (c ≡ b'!') × (does_id_match_expression id me ≡ true)

abbrev pub Includes : Bytes → Bytes → Type 0
Includes id me = (¬ IsNegative me) × (does_id_match_expression id me ≡ true)

abbrev pub IncludesExactly : Bytes → Bytes → Type 0
IncludesExactly id me = Includes id me × (has_wild_card me ≡ false)

-- What one rule does to each flag.
match_one_negative :
    (id me : Bytes) (f : Matches)
    → ((match_one id me f).found_negative_match ≡ true)
      ↔ ((f.found_negative_match ≡ true) ⊎ Excludes id me)
unfolding match_one
match_one_negative id [] f = ground arith
match_one_negative id (c ∷ me) f = ground arith

match_one_positive :
    (id me : Bytes) (f : Matches)
    → ((match_one id me f).found_match ≡ true) ↔ ((f.found_match ≡ true) ⊎ Includes id me)
unfolding match_one
match_one_positive id [] f = ground arith
match_one_positive id (c ∷ me) f = ground arith

match_one_exact :
    (id me : Bytes) (f : Matches)
    → ((match_one id me f).exact_match ≡ true) ↔ ((f.exact_match ≡ true) ⊎ IncludesExactly id me)
unfolding match_one
match_one_exact id [] f = unfold has_wild_card in ground arith
match_one_exact id (c ∷ me) f = ground arith

-- The flags after the loop: each is set from the start, or by some rule.
match_all_negative :
    (id : Bytes) (mes : List Bytes) (f : Matches)
    → ((match_all id mes f).found_negative_match ≡ true)
      ↔ ((f.found_negative_match ≡ true) ⊎ Some (Excludes id) mes)
unfolding match_all
match_all_negative id [] f = (λ e. inl e, λ s. elim s [ inl e ↦ e | inr e ↦ absurd e ])
match_all_negative id (me ∷ mes) f =
    let one = match_one_negative id me f in
    let ih = match_all_negative id mes (match_one id me f) in ground (arith, one, ih)

match_all_positive :
    (id : Bytes) (mes : List Bytes) (f : Matches)
    → ((match_all id mes f).found_match ≡ true) ↔ ((f.found_match ≡ true) ⊎ Some (Includes id) mes)
unfolding match_all
match_all_positive id [] f = (λ e. inl e, λ s. elim s [ inl e ↦ e | inr e ↦ absurd e ])
match_all_positive id (me ∷ mes) f =
    let one = match_one_positive id me f in
    let ih = match_all_positive id mes (match_one id me f) in
    (
      λ e. elim (ih.0 e) [
        | inl a ↦ elim (one.0 a) [ inl b ↦ inl b | inr b ↦ inr (inl b) ]
        | inr a ↦ inr (inr a)
      ],
      λ s. elim s [
        | inl a ↦ ih.1 (inl (one.1 (inl a)))
        | inr r ↦ elim r [ inl b ↦ ih.1 (inl (one.1 (inr b))) | inr b ↦ ih.1 (inr b) ]
      ],
    )

match_all_exact :
    (id : Bytes) (mes : List Bytes) (f : Matches)
    → ((match_all id mes f).exact_match ≡ true)
      ↔ ((f.exact_match ≡ true) ⊎ Some (IncludesExactly id) mes)
unfolding match_all
match_all_exact id [] f = (λ e. inl e, λ s. elim s [ inl e ↦ e | inr e ↦ absurd e ])
match_all_exact id (me ∷ mes) f =
    let one = match_one_exact id me f in
    let ih = match_all_exact id mes (match_one id me f) in
    (
      λ e. elim (ih.0 e) [
        | inl a ↦ elim (one.0 a) [ inl b ↦ inl b | inr b ↦ inr (inl b) ]
        | inr a ↦ inr (inr a)
      ],
      λ s. elim s [
        | inl a ↦ ih.1 (inl (one.1 (inl a)))
        | inr r ↦ elim r [ inl b ↦ ih.1 (inl (one.1 (inr b))) | inr b ↦ ih.1 (inr b) ]
      ],
    )

-- Flags that start out unset.
from_false : {b : Bool} {P : Type 0} → (b ≡ true) ↔ ((false ≡ true) ⊎ P) → (b ≡ true) ↔ P
from_false h = (λ e. elim (h.0 e) [ inl x ↦ cc | inr p ↦ p ], λ p. h.1 (inr p))

module _ {N P E : Type 0} where
  verdict_lem :
      (n p x : Bool)
      → (n ≡ true) ↔ N
      → (p ≡ true) ↔ P
      → (x ≡ true) ↔ E
      → let v =
          match_verdict (record { found_match = p; found_negative_match = n; exact_match = x }) in
        ((v.0 ≡ true) ↔ ((¬ N) × P)) × ((v.1 ≡ true) ↔ ((v.0 ≡ true) × (¬ E)))
  unfolding match_verdict
  verdict_lem true p x hn hp hx =
      ((λ e. cc, λ s. absurd (s.0 (hn.0 refl))), (λ e. cc, λ s. cc (s.0)))
  verdict_lem false false x hn hp hx = ((λ e. cc, λ s. hp.1 s.1), (λ e. cc, λ s. cc (s.0)))
  verdict_lem false true true hn hp hx =
      ((λ e. (λ k. cc (hn.1 k), hp.0 refl), λ s. refl), (λ e. cc, λ s. absurd (s.1 (hx.0 refl))))
  verdict_lem false true false hn hp hx =
      ((λ e. (λ k. cc (hn.1 k), hp.0 refl), λ s. refl), (λ e. (refl, λ k. cc (hx.1 k)), λ s. refl))

-- An id is accepted by a list of rules exactly when no negative rule matches it and some positive
-- rule does. It is then reported as matched by a wildcard exactly when no positive rule that
-- matches it is free of stars. An id that is not accepted is not reported so.
pub does_id_match_expressions_lem :
    (id : Bytes) (mes : List Bytes)
    → (((does_id_match_expressions id mes).0 ≡ true)
        ↔ ((¬ Some (Excludes id) mes) × Some (Includes id) mes))
      × (((does_id_match_expressions id mes).1 ≡ true)
          ↔ (((does_id_match_expressions id mes).0 ≡ true) × (¬ Some (IncludesExactly id) mes)))
unfolding does_id_match_expressions
does_id_match_expressions_lem id mes =
    let f = match_all id mes no_match in
    verdict_lem f.found_negative_match f.found_match f.exact_match
      (from_false (match_all_negative id mes no_match))
      (from_false (match_all_positive id mes no_match))
      (from_false (match_all_exact id mes no_match))

ids_loop_match :
    (ids mes : List Bytes) (m used : Bool)
    → ((ids_loop ids mes m used).0 ≡ true)
      ↔ ((m ≡ true) ⊎ Some (λ id. (does_id_match_expressions id mes).0 ≡ true) ids)
unfolding ids_loop
ids_loop_match [] mes m used = (λ e. inl e, λ s. elim s [ inl e ↦ e | inr e ↦ absurd e ])
ids_loop_match (id ∷ ids) mes m used =
    let ih =
      ids_loop_match ids mes (m || (does_id_match_expressions id mes).0)
        (does_id_match_expressions id mes).1 in
    ground (arith, ih)

ids_loop_used :
    (ids : List Bytes) (last : Bytes) (mes : List Bytes) (m used : Bool)
    → (ids_loop (ids ++ last ∷ []) mes m used).1 ≡ (does_id_match_expressions last mes).1
unfolding ids_loop
ids_loop_used [] last mes m used = refl
ids_loop_used (id ∷ ids) last mes m used = ids_loop_used ids last mes _ _

-- A telegram with several ids is accepted exactly when one of them is. Whether a wildcard was used
-- is told by its last id alone, also where the last id is not the one that was accepted.
pub does_ids_match_expressions_lem :
    (ids mes : List Bytes) (last : Bytes) (used : Bool)
    → (((does_ids_match_expressions (ids ++ last ∷ []) mes used).0 ≡ true)
        ↔ Some (λ id. (does_id_match_expressions id mes).0 ≡ true) (ids ++ last ∷ []))
      × ((does_ids_match_expressions (ids ++ last ∷ []) mes used).1
          ≡ (does_id_match_expressions last mes).1)
unfolding does_ids_match_expressions
does_ids_match_expressions_lem ids mes last used = (
  from_false (ids_loop_match (ids ++ last ∷ []) mes false used),
  ids_loop_used ids last mes false used,
)
