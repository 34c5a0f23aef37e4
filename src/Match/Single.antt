-- ===== src/Match/Single.antt =====
-- src/util.cc: what `doesIdMatchExpression` decides, with and without a star.
use wmbm_16brandnew.Prelude.{
  ℕ, ◌≡◌, ◌≢◌, refl, sym, ◌∙◌, ◌↔◌, Bool, true, false, ◌&&◌, [], ◌∷◌, ◌++◌, arith, Bytes, All, ◌==◌,
}
use wmbm_16brandnew.Match.{match_loop, match_rest, does_id_match_expression}

abbrev pub NoStar : Bytes → Type 0
NoStar m = All (λ c. c ≢ b'*') m

-- Loop and end together.
matches : Bytes → Bytes → Bool
matches id m = let (ok, id', m') = match_loop id m in ok && match_rest id' m'

does_id_match-matches :
    (i : ℕ) (id m : Bytes) → does_id_match_expression (i ∷ id) m ≡ matches (i ∷ id) m
unfolding does_id_match_expression matches
does_id_match-matches i id m = refl

matches_cons :
    (i m : ℕ) (id me : Bytes) → m ≢ b'*' → matches (i ∷ id) (m ∷ me) ≡ (i == m) && matches id me
unfolding matches match_loop match_rest
matches_cons i m id me h = ground (arith, h)

matches_nil : (i : ℕ) (id : Bytes) → matches (i ∷ id) [] ≡ false
unfolding matches match_loop match_rest
matches_nil i id = refl

nil_matches : (c : ℕ) (m : Bytes) → c ≢ b'*' → matches [] (c ∷ m) ≡ false
unfolding matches match_loop match_rest
nil_matches c m h = ground (arith, h)

matches_exact : (id m : Bytes) → NoStar m → (matches id m ≡ true) ↔ (id ≡ m)
matches_exact [] [] h = (λ e. refl, λ e. unfold matches match_loop match_rest in refl)
matches_exact [] (c ∷ m) h = (λ e. cc (nil_matches c m h.0), λ e. cc)
matches_exact (i ∷ id) [] h = (λ e. cc (matches_nil i id), λ e. cc)
matches_exact (i ∷ id) (c ∷ m) h =
    let ih = matches_exact id m h.1 in
    (
      λ e. ground (arith, matches_cons i c id m h.0, ih.0),
      λ e. ground (arith, matches_cons i c id m h.0, ih.1),
    )

matches_lone_star : (id : Bytes) → matches id (b'*' ∷ []) ≡ true
unfolding matches match_loop match_rest
matches_lone_star [] = refl
matches_lone_star (i ∷ id) = refl

matches_star :
    (id m : Bytes)
    → NoStar m
    → (matches id (m ++ b'*' ∷ []) ≡ true) ↔ ((rest : Bytes) × (id ≡ m ++ rest))
matches_star id [] h = (λ e. (id, refl), λ r. matches_lone_star id)
matches_star [] (c ∷ m) h = (λ e. cc (nil_matches c (m ++ b'*' ∷ []) h.0), λ (rest, e). cc)
matches_star (i ∷ id) (c ∷ m) h =
    let ih = matches_star id m h.1 in
    let step = matches_cons i c id (m ++ b'*' ∷ []) h.0 in
    (
      λ e.
          let same : i ≡ c = ground (arith, step) in
          let (rest, tail) = ih.0 (ground (arith, step)) in (rest, cc),
      λ (rest, e).
          let tail : matches id (m ++ b'*' ∷ []) ≡ true = ih.1 (rest, ground (arith, e)) in
          ground (arith, step),
    )

-- Without a star, an id matches an expression exactly when it is that expression and not empty.
-- With a star behind it, exactly when it starts with what stands before the star, and is not empty.
pub does_id_match_expression_lem :
    (id m : Bytes)
    → NoStar m
    → ((does_id_match_expression id m ≡ true) ↔ ((id ≢ []) × (id ≡ m)))
      × ((does_id_match_expression id (m ++ b'*' ∷ []) ≡ true)
          ↔ ((id ≢ []) × (rest : Bytes) × (id ≡ m ++ rest)))
does_id_match_expression_lem [] m h =
    unfold does_id_match_expression in
    ((λ e. cc, λ r. absurd (r.0 refl)), (λ e. cc, λ r. absurd (r.0 refl)))
does_id_match_expression_lem (i ∷ id) m h =
    let exact = matches_exact (i ∷ id) m h in
    let star = matches_star (i ∷ id) m h in
    (
      (
        λ e. (λ n. cc, exact.0 (sym (does_id_match-matches i id m) ∙ e)),
        λ r. does_id_match-matches i id m ∙ exact.1 r.1,
      ),
      (
        λ e. let (rest, q) = star.0 (sym (does_id_match-matches i id _) ∙ e) in (λ n. cc, rest, q),
        λ r. does_id_match-matches i id _ ∙ star.1 (r.1, r.2),
      ),
    )
