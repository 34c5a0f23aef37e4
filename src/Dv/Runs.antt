-- ===== src/Dv/Runs.antt =====
-- Concrete runs, and the theorems at concrete inputs.
use wmbm_16brandnew.Prelude.{◌≢◌, none, [], ◌∷◌, Bytes, codes}
use wmbm_16brandnew.Crc.{crc16_en13757}
use wmbm_16brandnew.Dv.{Telegram, out_of_fuel, parse_dv, parse_dv_format, instantaneous}
use wmbm_16brandnew.Dv.Ending.{parse_dv_ends}

abbrev empty_telegram : Telegram
empty_telegram = record { parsed_bytes = []; dv_values = []; mfct_index = none; formats = [] }

-- A volume of two bytes with a skip code before it.
abbrev volume : Bytes
volume = 0x2f ∷ 0x02 ∷ 0x13 ∷ 0x34 ∷ 0x12 ∷ []

abbrev parsed_volume : Telegram
parsed_volume = record {
  parsed_bytes = volume;
  dv_values =
      (
        codes "0213",
        (
          3,
          record {
            kind = instantaneous;
            value_information = 0x13;
            storagenr = 0;
            tariff = 0;
            subunit = 0;
            value = codes "3412";
          },
        ),
      )
      ∷ [];
  mfct_index = none;
  formats = (crc16_en13757 (0x02 ∷ 0x13 ∷ []), codes "0213") ∷ [];
}

parse_dv_ends_example :
    (parse_dv empty_telegram volume ≢ out_of_fuel)
    × (parse_dv_format empty_telegram volume (0x02 ∷ 0x13 ∷ []) ≢ out_of_fuel)
parse_dv_ends_example = parse_dv_ends empty_telegram volume (0x02 ∷ 0x13 ∷ [])
