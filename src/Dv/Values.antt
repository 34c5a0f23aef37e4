-- ===== src/Dv/Values.antt =====
-- src/dvparser.cc: what the meters ask of the values that were parsed: to find a key (`findKey`),
-- and to extract the value of a key as a number, a text or a date. The text of a value is
-- hexadecimal, as `parseDV` stores it.
pub mod Ranges
pub mod Keys
pub mod Numbers
pub mod Formats
pub mod Dates
mod Runs
use wmbm_16brandnew.Prelude.{
  ℕ, zero, suc, ◌+◌, ◌-◌, ◌*◌, ◌/◌, ◌%◌, ◌≤◌, ◌<◌, ◌≡◌, Bool, true, false, not, ◌&&◌, ◌||◌, Option,
  none, some, List, [], ◌∷◌, ◌++◌, Bytes, get_elem?, take, length, within, ltb, leb, ◌==◌,
  if◌then◌else◌, u32, bit_set,
}
use wmbm_16brandnew.Text.{is_empty}
use wmbm_16brandnew.Hex.{hex2bin}
use wmbm_16brandnew.Vif.{vif_scale}
use wmbm_16brandnew.Dv.{
  MeasurementType, unknown, instantaneous, minimum, maximum, at_error, DvEntry, fetch,
}

-- `no_information` is the source's `None`.
pub data ValueInformation : Type 0 where
  no_information volume operating_time volume_flow flow_temperature return_temperature :
      ValueInformation
  temperature_difference external_temperature heat_cost_allocation date date_time : ValueInformation
  energy_mj energy_wh power_w actuality_duration : ValueInformation

unfoldable pub value_info_range : ValueInformation → ℕ × ℕ
value_info_range no_information = (0, 0)
value_info_range volume = (0x10, 0x17)
value_info_range operating_time = (0x24, 0x27)
value_info_range volume_flow = (0x38, 0x3F)
value_info_range flow_temperature = (0x58, 0x5B)
value_info_range return_temperature = (0x5C, 0x5F)
value_info_range temperature_difference = (0x60, 0x63)
value_info_range external_temperature = (0x64, 0x67)
value_info_range heat_cost_allocation = (0x6E, 0x6E)
value_info_range date = (0x6C, 0x6C)
value_info_range date_time = (0x6D, 0x6D)
value_info_range energy_mj = (0x0E, 0x0F)
value_info_range energy_wh = (0x00, 0x07)
value_info_range power_w = (0x28, 0x2f)
value_info_range actuality_duration = (0x74, 0x77)

unfoldable pub to_value_information : ℕ → ValueInformation
to_value_information i =
    if within 0x10 0x17 i
    then volume
    else if within 0x24 0x27 i
    then operating_time
    else if within 0x38 0x3F i
    then volume_flow
    else if within 0x58 0x5B i
    then flow_temperature
    else if within 0x5C 0x5F i
    then return_temperature
    else if within 0x60 0x63 i
    then temperature_difference
    else if within 0x64 0x67 i
    then external_temperature
    else if within 0x6E 0x6E i
    then heat_cost_allocation
    else if within 0x6C 0x6C i
    then date
    else if within 0x6D 0x6D i
    then date_time
    else if within 0x0E 0x0F i
    then energy_mj
    else if within 0x00 0x07 i
    then energy_wh
    else if within 0x28 0x2f i
    then power_w
    else if within 0x74 0x77 i
    then actuality_duration
    else no_information

abbrev pub Values : Type 0
Values = List (Bytes × (ℕ × DvEntry))

unfoldable pub has_key : Values → Bytes → Bool
has_key values key = elim (fetch key values) [ none ↦ false | some e ↦ true ]

-- `mit == ty`
unfoldable pub same_type : MeasurementType → MeasurementType → Bool
same_type unknown unknown = true
same_type instantaneous instantaneous = true
same_type minimum minimum = true
same_type maximum maximum = true
same_type at_error at_error = true
same_type _ _ = false

-- A number that is asked for, where `none` is `ANY_STORAGENR` or `ANY_TARIFFNR`.
unfoldable pub same_number : Option ℕ → ℕ → Bool
same_number none n = true
same_number (some m) n = m == n

unfoldable pub entry_matches :
    MeasurementType → ValueInformation → Option ℕ → Option ℕ → DvEntry → Bool
entry_matches mit vif storagenr tariffnr e =
    within (value_info_range vif).0 (value_info_range vif).1 e.value_information
    && ((same_type mit unknown || same_type mit e.kind)
        && (same_number storagenr e.storagenr && same_number tariffnr e.tariff))

-- The key of the first entry that matches.
unfoldable pub find_key :
    MeasurementType → ValueInformation → Option ℕ → Option ℕ → Values → Option Bytes
find_key mit vif storagenr tariffnr [] = none
find_key mit vif storagenr tariffnr ((key, (offset, e)) ∷ values) =
    if entry_matches mit vif storagenr tariffnr e
    then some key
    else find_key mit vif storagenr tariffnr values

-- Behind the DIF: passes over its extension bytes to the VIF. `none` is a read past the end.
unfoldable pub extract_vif : Bool → Bytes → Option ℕ
extract_vif false [] = none
extract_vif false (vif ∷ bytes) = some vif
extract_vif true [] = some 0
extract_vif true (dife ∷ bytes) = extract_vif (bit_set dife 7) bytes

-- The DIF and the VIF of a key.
unfoldable pub extract_dv : Bytes → Option (ℕ × ℕ)
extract_dv s = elim (hex2bin s []).1 [
  | [] ↦ none
  | dif ∷ bytes ↦ elim (extract_vif (bit_set dif 7) bytes) [
    | none ↦ none
    | some vif ↦ some (dif, vif)
  ]
]

-- What an extraction comes to: the offset and the value, with the result true (`found`) or false
-- (`missing`). The offset `none` is -1. `breaks_down` is a failed assertion, a read past the end of
-- the value or an overflow of an int, and `exits` is a call of `error`.
pub data Extracted (A : Type 0) : Type 0 where
  found missing : Option ℕ → A → Extracted A
  breaks_down exits : Extracted A

-- The bytes of a value
unfoldable pub value_bytes : DvEntry → Bytes
value_bytes e = (hex2bin e.value []).1

unfoldable pub extract_bytes : Values → Bytes → (Bytes → Option ℕ) → Extracted ℕ
extract_bytes values key read = elim (fetch key values) [
  | none ↦ missing none 0
  | some (offset, e) ↦ elim (extract_dv key) [
    | none ↦ breaks_down
    | some dv ↦ elim (read (value_bytes e)) [ none ↦ breaks_down | some n ↦ found (some offset) n ]
  ]
]

-- `v[i] << 8*i`, put together for the first `n` bytes: `none` where there are not so many.
unfoldable pub read_uint : ℕ → Bytes → Option ℕ
read_uint zero v = some 0
read_uint (suc n) [] = none
read_uint (suc n) (b ∷ v) = elim (read_uint n v) [ none ↦ none | some m ↦ some (b + 256 * m) ]

unfoldable pub extract_dv_uint8 : Values → Bytes → Extracted ℕ
extract_dv_uint8 values key = extract_bytes values key (read_uint 1)

unfoldable pub extract_dv_uint16 : Values → Bytes → Extracted ℕ
extract_dv_uint16 values key = extract_bytes values key (read_uint 2)

unfoldable pub extract_dv_uint24 : Values → Bytes → Extracted ℕ
extract_dv_uint24 values key = extract_bytes values key (read_uint 3)

unfoldable pub extract_dv_uint32 : Values → Bytes → Extracted ℕ
extract_dv_uint32 values key = extract_bytes values key (read_uint 4)

-- The raw number of a value.
pub data Raw : Type 0 where
  raw : ℕ → Raw
  broken unsupported : Raw

unfoldable pub little_endian : Bytes → ℕ
little_endian [] = 0
little_endian (b ∷ v) = b + 256 * little_endian v

-- Asserts the number of bytes.
unfoldable pub read_binary : ℕ → DvEntry → Raw
read_binary width e =
    if length (value_bytes e) == width then raw (little_endian (value_bytes e)) else broken

-- The sum of the digits with their weights, the two digits of the lowest byte first.
unfoldable pub bcd_sum : Bytes → ℕ
bcd_sum [] = 0
bcd_sum (hi ∷ []) = 0
bcd_sum (hi ∷ lo ∷ v) = (hi - b'0') * 10 + (lo - b'0') + 100 * bcd_sum v

-- The sum is taken in an int. No summand is negative, so that one of them or a partial sum overflows
-- exactly if the whole sum would.
unfoldable pub read_bcd : ℕ → DvEntry → Raw
read_bcd digits e =
    if length e.value == digits
    then (if ltb (bcd_sum e.value) 2147483648 then raw (bcd_sum e.value) else broken)
    else broken

-- By the low four bits of the DIF.
unfoldable pub read_raw : ℕ → DvEntry → Raw
read_raw t e =
    if t == 0x1
    then read_binary 1 e
    else if t == 0x2
    then read_binary 2 e
    else if t == 0x3
    then read_binary 3 e
    else if t == 0x4
    then read_binary 4 e
    else if t == 0x6
    then read_binary 6 e
    else if t == 0x7
    then read_binary 8 e
    else if t == 0x9
    then read_bcd 2 e
    else if t == 0xA
    then read_bcd 4 e
    else if t == 0xB
    then read_bcd 6 e
    else if t == 0xC
    then read_bcd 8 e
    else if t == 0xE
    then read_bcd 12 e
    else unsupported

unfoldable pub extracted_raw : {A : Type 0} → ℕ → Raw → (ℕ → A) → Extracted A
extracted_raw offset (raw n) f = found (some offset) (f n)
extracted_raw offset broken f = breaks_down
extracted_raw offset unsupported f = exits

-- What the number extractions share: the value of a key, read by its DIF, and made a result by its
-- VIF. Where there is no key or no data the offset is 0.
unfoldable pub extract_number : {A : Type 0} → Values → Bytes → A → (ℕ → ℕ → A) → Extracted A
extract_number values key nothing make = elim (fetch key values) [
  | none ↦ missing (some 0) nothing
  | some (offset, e) ↦ elim (extract_dv key) [
    | none ↦ breaks_down
    | some (dif, vif) ↦
        if is_empty e.value
        then missing (some 0) nothing
        else extracted_raw offset (read_raw (dif % 16) e) (make vif)
  ]
]

unfoldable pub extract_dv_long : Values → Bytes → Extracted ℕ
extract_dv_long values key = extract_number values key 0 (λ vif n. n)

-- The double `raw / scale`, for a scale that is a fraction; `none` is the scale -1.
pub record Scaled : Type 0 where
  pub raw_value : ℕ
  pub scale : Option (ℕ × ℕ)

unfoldable pub make_double : Bool → ℕ → ℕ → Scaled
make_double auto_scale vif n = record {
  raw_value = u32 n;
  scale = if auto_scale then vif_scale vif else some (1, 1);
}

-- `raw` is an unsigned int here.
unfoldable pub extract_dv_double : Values → Bytes → Bool → Extracted Scaled
extract_dv_double values key auto_scale =
    extract_number values key (record { raw_value = 0; scale = some (1, 1) })
      (make_double auto_scale)

unfoldable pub extract_dv_string : Values → Bytes → Extracted Bytes
extract_dv_string values key = elim (fetch key values) [
  | none ↦ missing none []
  | some (offset, e) ↦ found (some offset) e.value
]

-- `struct tm`, as far as the source sets it: the month counted from 1 (`tm_mon + 1`) and the year
-- from the birth of Christ (`tm_year + 1900`).
pub record Tm : Type 0 where
  pub mday : ℕ
  pub month : ℕ
  pub year : ℕ
  pub hour : ℕ
  pub min : ℕ
  pub sec : ℕ

abbrev pub zero_tm : Tm
zero_tm = record { mday = 0; month = 1; year = 1900; hour = 0; min = 0; sec = 0 }

unfoldable pub extract_date : ℕ → ℕ → Tm → Bool × Tm
extract_date hi lo tm = (
  leb (hi % 16) 12,
  record tm { mday = lo % 32; month = hi % 16; year = 2000 + lo / 32 % 8 + hi / 16 % 16 * 8 },
)

unfoldable pub extract_time : ℕ → ℕ → Tm → Bool × Tm
extract_time hi lo tm =
    (leb (lo % 64) 59 && leb (hi % 32) 23, record tm { min = lo % 64; hour = hi % 32 })

-- The date and the time, by the number of bytes.
unfoldable pub read_tm : Bytes → Bool × Tm
read_tm (v0 ∷ v1 ∷ []) = extract_date v1 v0 zero_tm
read_tm (v0 ∷ v1 ∷ v2 ∷ v3 ∷ []) =
    let d = extract_date v3 v2 zero_tm in let t = extract_time v1 v0 d.1 in (d.0 && t.0, t.1)
read_tm (v0 ∷ v1 ∷ v2 ∷ v3 ∷ v4 ∷ v5 ∷ []) =
    let d = extract_date v4 v3 zero_tm in
    let t = extract_time v2 v1 d.1 in (d.0 && t.0, record t.1 { sec = v0 % 64 })
read_tm _ = (true, zero_tm)

unfoldable pub dated : ℕ → Bool × Tm → Extracted Tm
dated offset (true, tm) = found (some offset) tm
dated offset (false, tm) = missing (some offset) tm

unfoldable pub extract_dv_date : Values → Bytes → Extracted Tm
extract_dv_date values key = elim (fetch key values) [
  | none ↦ missing none zero_tm
  | some (offset, e) ↦ elim (extract_dv key) [
    | none ↦ breaks_down
    | some dv ↦ dated offset (read_tm (value_bytes e))
  ]
]
