-- ===== src/Vif/Runs.antt =====
-- Concrete runs, and the theorems at concrete inputs.
use wmbm_16brandnew.Prelude.{◌≡◌, ◌≢◌, refl, none, some, codes}
use wmbm_16brandnew.Vif.{switch, switch_range, vif_scale, or_unknown, vif_key, vif_unit}

litre_run :
    (vif_scale 0x13 ≡ some (1000, 1))
    × (vif_scale 0x14 ≡ some (100, 1))
    × (vif_unit 0x13 ≡ codes "m3")
    × (vif_unit 0x14 ≡ codes "m3")
    × (vif_key 0x13 ≡ codes "volume")
    × (vif_key 0x14 ≡ codes "volume")
unfolding vif_scale vif_key vif_unit switch switch_range or_unknown
litre_run = (refl, refl, refl, refl, refl, refl)

litre_scaled : vif_scale 0x13 ≢ none
unfolding vif_scale switch
litre_scaled e = cc

litre_not_hours : vif_unit 0x13 ≢ codes "h"
unfolding vif_unit switch_range or_unknown
litre_not_hours e = cc
