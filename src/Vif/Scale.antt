-- ===== src/Vif/Scale.antt =====
-- src/wmbus.cc: how the tables of the VIF bytes fit together.
use wmbm_16brandnew.Prelude.{
  ℕ, ◌+◌, ◌*◌, ◌<◌, ◌≡◌, ◌≢◌, refl, inl, inr, Bool, true, false, not, ◌&&◌, ◌||◌, Option, none,
  some, [], ◌∷◌, Bytes, codes, ltb, ◌==◌, ==_iff, all_below, all_below_sound, arith, Bool-cases,
}
use wmbm_16brandnew.Text.{equal}
use wmbm_16brandnew.Vif.{switch, switch_range, vif_scale, or_unknown, vif_key, vif_unit}

-- The first factor is ten times the second one.
pub data TenTimes : Option (ℕ × ℕ) → Option (ℕ × ℕ) → Type 0 where
  tenfold :
      {a b c d : ℕ}
      → 0 < b
      → 0 < c
      → 0 < d
      → a * d ≡ 10 * (c * b)
      → TenTimes (some (a, b)) (some (c, d))

is_ten_times : Option (ℕ × ℕ) → Option (ℕ × ℕ) → Bool
is_ten_times (some (a, b)) (some (c, d)) =
    ltb 0 b && (ltb 0 c && (ltb 0 d && (a * d == 10 * (c * b))))
is_ten_times _ _ = false

is_ten_times-TenTimes : (x y : Option (ℕ × ℕ)) → is_ten_times x y ≡ true → TenTimes x y
unfolding is_ten_times
is_ten_times-TenTimes none y e = cc
is_ten_times-TenTimes (some x) none e = cc
is_ten_times-TenTimes (some (a, b)) (some (c, d)) e =
    tenfold (ground arith) (ground arith) (ground arith) (ground arith)

equal_refl : (s : Bytes) → equal s s ≡ true
unfolding equal
equal_refl [] = refl
equal_refl (x ∷ s) = rw ((==_iff x x).1 refl) (equal_refl s)

equal_sound : (s t : Bytes) → equal s t ≡ true → s ≡ t
unfolding equal
equal_sound [] [] e = refl
equal_sound [] (y ∷ t) e = cc
equal_sound (x ∷ s) [] e = cc
equal_sound (x ∷ s) (y ∷ t) e = elim (Bool-cases (x == y)) [
  | inl same ↦
      let tail = equal_sound s t (rw same at e) in
      let head : x ≡ y = (==_iff x y).0 same in rw (head, tail)
  | inr other ↦ cc (rw other at e)
]

is_scaled : Option (ℕ × ℕ) → Bool
is_scaled none = false
is_scaled (some x) = true

is_scaled_lem : (x : Option (ℕ × ℕ)) → x ≢ none → is_scaled x ≡ true
unfolding is_scaled
is_scaled_lem none ne = absurd (ne refl)
is_scaled_lem (some x) ne = refl

not_true : {b : Bool} → (b ≢ true) → b ≡ false
not_true {b = true} ne = absurd (ne refl)
not_true {b = false} ne = refl

step_holds : ℕ → Bool
step_holds t =
    not (is_scaled (vif_scale t))
    || ((t == 0x47)
        || (equal (vif_unit t) (codes "h")
            || (not (equal (vif_key t) (vif_key (t + 1)))
                || (not (equal (vif_unit t) (vif_unit (t + 1)))
                    || is_ten_times (vif_scale t) (vif_scale (t + 1))))))

table : all_below 127 step_holds ≡ true
unfolding all_below step_holds is_scaled is_ten_times equal vif_scale vif_key vif_unit switch
    switch_range or_unknown
table = refl

-- Two neighbouring VIF codes with the same key and the same unit, which is not the hour, and with a
-- factor, differ by ten in their factors: a step of one in the code moves the decimal point by one
-- digit. The one exception is 0x47, behind which the flow is counted by the second.
pub vif_scale_step :
    (t : ℕ)
    → t < 127
    → t ≢ 0x47
    → vif_scale t ≢ none
    → vif_unit t ≢ codes "h"
    → vif_key t ≡ vif_key (t + 1)
    → vif_unit t ≡ vif_unit (t + 1)
    → TenTimes (vif_scale t) (vif_scale (t + 1))
unfolding step_holds is_scaled
vif_scale_step t lt ne scaled hour key unit =
    let e = all_below_sound 127 step_holds t table lt in
    let other : (t == 0x47) ≡ false = ground arith in
    let no_hour : equal (vif_unit t) (codes "h") ≡ false =
      not_true (λ h. hour (equal_sound _ _ h)) in
    let same_key : equal (vif_key t) (vif_key (t + 1)) ≡ true =
      rw (← key) (equal_refl (vif_key t)) in
    let same_unit : equal (vif_unit t) (vif_unit (t + 1)) ≡ true =
      rw (← unit) (equal_refl (vif_unit t)) in
    is_ten_times-TenTimes (vif_scale t) (vif_scale (t + 1))
      (rw (is_scaled_lem (vif_scale t) scaled, other, no_hour, same_key, same_unit) at e)
