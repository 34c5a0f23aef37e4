-- ===== src/Vif.antt =====
-- src/wmbus.cc: `vifScale`, `vifKey` and `vifUnit`, the tables of what a VIF byte says.
pub mod Scale
mod Runs
use wmbm_16brandnew.Prelude.{
  ℕ, ◌-◌, ◌*◌, ◌%◌, ◌≤◌, ◌<◌, ◌≡◌, Bool, true, false, Option, none, some, List, [], ◌∷◌, Bytes,
  codes, within, ◌==◌, if◌then◌else◌,
}

-- `switch`: the value behind the case that is met first, if any.
module _ {A : Type 0} where
  unfoldable pub switch : ℕ → List (ℕ × A) → Option A
  switch t [] = none
  switch t ((c, a) ∷ cases) = if t == c then some a else switch t cases

  unfoldable pub switch_range : ℕ → List (ℕ × ℕ × A) → Option A
  switch_range t [] = none
  switch_range t ((low, high, a) ∷ cases) =
      if within low high t then some a else switch_range t cases

-- The factor of each type as a fraction.
abbrev vif_scale_cases : List (ℕ × (ℕ × ℕ))
vif_scale_cases =
    (0x00, (1000000, 1))
    ∷ (0x01, (100000, 1))
    ∷ (0x02, (10000, 1))
    ∷ (0x03, (1000, 1))
    ∷ (0x04, (100, 1))
    ∷ (0x05, (10, 1))
    ∷ (0x06, (1, 1))
    ∷ (0x07, (1, 10))
    ∷ (0x08, (1000000, 1))
    ∷ (0x09, (100000, 1))
    ∷ (0x0a, (10000, 1))
    ∷ (0x0b, (1000, 1))
    ∷ (0x0c, (100, 1))
    ∷ (0x0d, (10, 1))
    ∷ (0x0e, (1, 1))
    ∷ (0x0f, (1, 10))
    ∷ (0x10, (1000000, 1))
    ∷ (0x11, (100000, 1))
    ∷ (0x12, (10000, 1))
    ∷ (0x13, (1000, 1))
    ∷ (0x14, (100, 1))
    ∷ (0x15, (10, 1))
    ∷ (0x16, (1, 1))
    ∷ (0x17, (1, 10))
    ∷ (0x18, (1000, 1))
    ∷ (0x19, (100, 1))
    ∷ (0x1a, (10, 1))
    ∷ (0x1b, (1, 1))
    ∷ (0x1c, (1, 10))
    ∷ (0x1d, (1, 100))
    ∷ (0x1e, (1, 1000))
    ∷ (0x1f, (1, 10000))
    ∷ (0x20, (3600, 1))
    ∷ (0x21, (60, 1))
    ∷ (0x22, (1, 1))
    ∷ (0x23, (1, 24))
    ∷ (0x24, (3600, 1))
    ∷ (0x25, (60, 1))
    ∷ (0x26, (1, 1))
    ∷ (0x27, (1, 24))
    ∷ (0x28, (1000000, 1))
    ∷ (0x29, (100000, 1))
    ∷ (0x2a, (10000, 1))
    ∷ (0x2b, (1000, 1))
    ∷ (0x2c, (100, 1))
    ∷ (0x2d, (10, 1))
    ∷ (0x2e, (1, 1))
    ∷ (0x2f, (1, 10))
    ∷ (0x30, (1000000, 1))
    ∷ (0x31, (100000, 1))
    ∷ (0x32, (10000, 1))
    ∷ (0x33, (1000, 1))
    ∷ (0x34, (100, 1))
    ∷ (0x35, (10, 1))
    ∷ (0x36, (1, 1))
    ∷ (0x37, (1, 10))
    ∷ (0x38, (1000000, 1))
    ∷ (0x39, (100000, 1))
    ∷ (0x3a, (10000, 1))
    ∷ (0x3b, (1000, 1))
    ∷ (0x3c, (100, 1))
    ∷ (0x3d, (10, 1))
    ∷ (0x3e, (1, 1))
    ∷ (0x3f, (1, 10))
    ∷ (0x40, (600000000, 1))
    ∷ (0x41, (60000000, 1))
    ∷ (0x42, (6000000, 1))
    ∷ (0x43, (600000, 1))
    ∷ (0x44, (60000, 1))
    ∷ (0x45, (6000, 1))
    ∷ (0x46, (600, 1))
    ∷ (0x47, (60, 1))
    ∷ (0x48, (3600000000000, 1))
    ∷ (0x49, (360000000000, 1))
    ∷ (0x4a, (36000000000, 1))
    ∷ (0x4b, (3600000000, 1))
    ∷ (0x4c, (360000000, 1))
    ∷ (0x4d, (36000000, 1))
    ∷ (0x4e, (3600000, 1))
    ∷ (0x4f, (360000, 1))
    ∷ (0x50, (1000, 1))
    ∷ (0x51, (100, 1))
    ∷ (0x52, (10, 1))
    ∷ (0x53, (1, 1))
    ∷ (0x54, (1, 10))
    ∷ (0x55, (1, 100))
    ∷ (0x56, (1, 1000))
    ∷ (0x57, (1, 10000))
    ∷ (0x58, (1000, 1))
    ∷ (0x59, (100, 1))
    ∷ (0x5a, (10, 1))
    ∷ (0x5b, (1, 1))
    ∷ (0x5c, (1000, 1))
    ∷ (0x5d, (100, 1))
    ∷ (0x5e, (10, 1))
    ∷ (0x5f, (1, 1))
    ∷ (0x60, (1000, 1))
    ∷ (0x61, (100, 1))
    ∷ (0x62, (10, 1))
    ∷ (0x63, (1, 1))
    ∷ (0x64, (1000, 1))
    ∷ (0x65, (100, 1))
    ∷ (0x66, (10, 1))
    ∷ (0x67, (1, 1))
    ∷ (0x68, (1000, 1))
    ∷ (0x69, (100, 1))
    ∷ (0x6a, (10, 1))
    ∷ (0x6b, (1, 1))
    ∷ (0x6e, (1, 1))
    ∷ (0x70, (3600, 1))
    ∷ (0x71, (60, 1))
    ∷ (0x72, (1, 1))
    ∷ (0x73, (1, 24))
    ∷ (0x74, (3600, 1))
    ∷ (0x75, (60, 1))
    ∷ (0x76, (1, 1))
    ∷ (0x77, (1, 24))
    ∷ []

-- `vifScale`: `none` stands for -1, where there is nothing to scale.
unfoldable pub vif_scale : ℕ → Option (ℕ × ℕ)
vif_scale vif = switch (vif % 128) vif_scale_cases

-- The key of each type; neighbouring cases with one result are a range.
abbrev vif_key_cases : List (ℕ × ℕ × Bytes)
vif_key_cases =
    (0x00, 0x07, codes "energy")
    ∷ (0x08, 0x0f, codes "energy")
    ∷ (0x10, 0x17, codes "volume")
    ∷ (0x18, 0x1f, codes "mass")
    ∷ (0x20, 0x23, codes "on_time")
    ∷ (0x24, 0x27, codes "operating_time")
    ∷ (0x28, 0x2f, codes "power")
    ∷ (0x30, 0x37, codes "power")
    ∷ (0x38, 0x3f, codes "volume_flow")
    ∷ (0x40, 0x47, codes "volume_flow_ext")
    ∷ (0x48, 0x4f, codes "volume_flow_ext")
    ∷ (0x50, 0x57, codes "mass_flow")
    ∷ (0x58, 0x5b, codes "flow_temperature")
    ∷ (0x5c, 0x5f, codes "return_temperature")
    ∷ (0x60, 0x63, codes "temperature_difference")
    ∷ (0x64, 0x67, codes "external_temperature")
    ∷ (0x68, 0x6b, codes "pressure")
    ∷ (0x6c, 0x6c, codes "date")
    ∷ (0x6e, 0x6e, codes "hca")
    ∷ (0x6f, 0x6f, codes "reserved")
    ∷ (0x70, 0x73, codes "average_duration")
    ∷ (0x74, 0x77, codes "actual_duration")
    ∷ (0x78, 0x78, codes "fabrication_no")
    ∷ (0x79, 0x79, codes "enhanced_identification")
    ∷ []

unfoldable pub or_unknown : Option Bytes → Bytes
or_unknown none = codes "unknown"
or_unknown (some s) = s

unfoldable pub vif_key : ℕ → Bytes
vif_key vif = or_unknown (switch_range (vif % 128) vif_key_cases)

-- The unit of each type.
abbrev vif_unit_cases : List (ℕ × ℕ × Bytes)
vif_unit_cases =
    (0x00, 0x07, codes "kwh")
    ∷ (0x08, 0x0f, codes "MJ")
    ∷ (0x10, 0x17, codes "m3")
    ∷ (0x18, 0x1f, codes "kg")
    ∷ (0x20, 0x27, codes "h")
    ∷ (0x28, 0x2f, codes "kw")
    ∷ (0x30, 0x37, codes "MJ")
    ∷ (0x38, 0x3f, codes "m3/h")
    ∷ (0x40, 0x47, codes "m3/h")
    ∷ (0x48, 0x4f, codes "m3/h")
    ∷ (0x50, 0x57, codes "kg/h")
    ∷ (0x58, 0x5b, codes "c")
    ∷ (0x5c, 0x5f, codes "c")
    ∷ (0x60, 0x63, codes "k")
    ∷ (0x64, 0x67, codes "c")
    ∷ (0x68, 0x6b, codes "bar")
    ∷ (0x6c, 0x6c, codes "")
    ∷ (0x6d, 0x6d, codes "")
    ∷ (0x6e, 0x6e, codes "")
    ∷ (0x6f, 0x6f, codes "")
    ∷ (0x70, 0x73, codes "h")
    ∷ (0x74, 0x77, codes "h")
    ∷ (0x78, 0x78, codes "")
    ∷ (0x79, 0x79, codes "")
    ∷ []

unfoldable pub vif_unit : ℕ → Bytes
vif_unit vif = or_unknown (switch_range (vif % 128) vif_unit_cases)
