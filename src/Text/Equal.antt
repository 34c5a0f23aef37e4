-- ===== src/Text/Equal.antt =====
-- The equality test of byte vectors and strings decides their equality.
use wmbm_16brandnew.Prelude.{Bool, true, false, ◌&&◌, [], ◌∷◌, Bytes, ◌==◌, ==_iff, ◌≡◌, refl, ◌↔◌}
use wmbm_16brandnew.Text.{equal}

both_true : (a b : Bool) → (a && b) ≡ true → (a ≡ true) × (b ≡ true)
both_true true b h = (refl, h)
both_true false b h = cc

pub equal_same : (v : Bytes) → equal v v ≡ true
unfolding equal
equal_same [] = refl
equal_same (b ∷ v) = rw ((==_iff b b).1 refl, equal_same v) refl

pub equal_sound : (v w : Bytes) → equal v w ≡ true → v ≡ w
unfolding equal
equal_sound [] [] h = refl
equal_sound [] (_ ∷ _) h = cc
equal_sound (_ ∷ _) [] h = cc
equal_sound (b ∷ v) (c ∷ w) h =
    let (first, others) = both_true (b == c) (equal v w) h in
    let p = (==_iff b c).0 first in let q = equal_sound v w others in rw (p, q) refl

pub equal_iff : (v w : Bytes) → (equal v w ≡ true) ↔ (v ≡ w)
equal_iff v w = (equal_sound v w, λ e. rw e (equal_same w))
