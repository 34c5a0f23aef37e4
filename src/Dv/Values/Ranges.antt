-- ===== src/Dv/Values/Ranges.antt =====
-- src/dvparser.cc: the two readings of the table of value types.
use mathlib.Core.Path.{subst}
use wmbm_16brandnew.Prelude.{
  ℕ, Bool-cases, inl, inr, ◌≤◌, ◌≡◌, ◌≢◌, ◌↔◌, refl, within, if◌then◌else◌, arith,
}
use wmbm_16brandnew.Dv.Values.{
  ValueInformation, no_information, volume, operating_time, volume_flow, flow_temperature,
  return_temperature, temperature_difference, external_temperature, heat_cost_allocation, date,
  date_time, energy_mj, energy_wh, power_w, actuality_duration, value_info_range,
  to_value_information,
}

-- The code is in the range of the type, unless that is none.
data InRange (i : ℕ) : ValueInformation → Type 0 where
  none_at_all : InRange i no_information
  inside :
      {v : ValueInformation} → (value_info_range v).0 ≤ i → i ≤ (value_info_range v).1 → InRange i v

InRange-if :
    (i : ℕ) (v w : ValueInformation)
    → InRange i w
    → InRange i (if within (value_info_range v).0 (value_info_range v).1 i then v else w)
InRange-if i v w later =
    elim (Bool-cases (within (value_info_range v).0 (value_info_range v).1 i)) [
      | inl hit ↦ rw hit (inside (ground arith) (ground arith))
      | inr miss ↦ rw miss later
    ]

to_value_information-InRange : (i : ℕ) → InRange i (to_value_information i)
unfolding to_value_information value_info_range
to_value_information-InRange i = InRange-if i volume _ (
    InRange-if i operating_time _ (
      InRange-if i volume_flow _ (
        InRange-if i flow_temperature _ (
          InRange-if i return_temperature _ (
            InRange-if i temperature_difference _ (
              InRange-if i external_temperature _ (
                InRange-if i heat_cost_allocation _ (
                  InRange-if i date _ (
                    InRange-if i date_time _ (
                      InRange-if i energy_mj _ (
                        InRange-if i energy_wh _ (
                          InRange-if i power_w _
                            (InRange-if i actuality_duration _ (none_at_all))))))))))))))

InRange-bounds :
    (i : ℕ) (v : ValueInformation)
    → v ≢ no_information
    → InRange i v
    → ((value_info_range v).0 ≤ i) × (i ≤ (value_info_range v).1)
InRange-bounds i v ne none_at_all = absurd (ne refl)
InRange-bounds i v ne (inside h k) = (h, k)

in_range :
    (v : ValueInformation) (i : ℕ)
    → v ≢ no_information
    → (value_info_range v).0 ≤ i
    → i ≤ (value_info_range v).1
    → to_value_information i ≡ v
unfolding to_value_information value_info_range
in_range no_information i ne h k = absurd (ne refl)
in_range volume i ne h k = ground arith
in_range operating_time i ne h k = ground arith
in_range volume_flow i ne h k = ground arith
in_range flow_temperature i ne h k = ground arith
in_range return_temperature i ne h k = ground arith
in_range temperature_difference i ne h k = ground arith
in_range external_temperature i ne h k = ground arith
in_range heat_cost_allocation i ne h k = ground arith
in_range date i ne h k = ground arith
in_range date_time i ne h k = ground arith
in_range energy_mj i ne h k = ground arith
in_range energy_wh i ne h k = ground arith
in_range power_w i ne h k = ground arith
in_range actuality_duration i ne h k = ground arith

-- `toValueInformation` and `valueInfoRange` agree: a code has a type, other than none, exactly when
-- it lies in the range of that type. So no two ranges of the table meet.
pub to_value_information_lem :
    (v : ValueInformation) (i : ℕ)
    → v ≢ no_information
    → (to_value_information i ≡ v) ↔ (((value_info_range v).0 ≤ i) × (i ≤ (value_info_range v).1))
to_value_information_lem v i ne = (
  λ e. InRange-bounds i v ne (subst (InRange i) e (to_value_information-InRange i)),
  λ b. in_range v i ne b.0 b.1,
)
