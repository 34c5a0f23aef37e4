-- ===== src/Diehl.antt =====
-- src/manufacturer_specificities.cc: telegrams of Diehl meters, whose address field is coded in
-- another way and whose content can be encrypted by a shift register.
pub mod Bits
pub mod Register
pub mod Address
pub mod Runs
use Prim.Native.Nat.{bit_xor, bit_and}
use wmbm_16brandnew.Prelude.{
  ℕ, zero, suc, ◌+◌, ◌-◌, ◌*◌, ◌/◌, ◌%◌, Bool, true, false, not, ◌&&◌, ◌||◌, Option, none, some,
  List, [], ◌∷◌, ◌++◌, Bytes, codes, get_or, take, drop, length, ltb, leb, within, ◌==◌,
  if◌then◌else◌, u32, bit_set,
}
use wmbm_16brandnew.Hex.{hex2bin}
use wmbm_16brandnew.Text.{is_empty}

-- `MANFCODE` of three letters, as src/manufacturers.h has it.
abbrev pub manfcode : ℕ → ℕ → ℕ → ℕ
manfcode a b c = (a - 64) * 1024 + (b - 64) * 32 + (c - 64)

abbrev manufacturer_sap : ℕ
manufacturer_sap = manfcode b'S' b'A' b'P'

unfoldable pub is_diehl_manufacturer : ℕ → Bool
is_diehl_manufacturer m =
    (m == manfcode b'D' b'M' b'E')
    || ((m == manfcode b'E' b'W' b'T')
        || ((m == manfcode b'H' b'Y' b'D')
            || ((m == manufacturer_sap) || (m == manfcode b'S' b'P' b'L'))))

pub data Interpretation : Type 0 where
  not_diehl real_data oms prios sap_prios sap_prios_std prios_scr reserved : Interpretation

-- The switch on the CI field.
unfoldable pub interpret_ci : ℕ → ℕ → ℕ → Interpretation
interpret_ci m_field ci_field tpl_cfg =
    if ci_field == 0x71
    then real_data
    else if ci_field == 0x7A
    then (if tpl_cfg / 4096 % 2 == 1 then real_data else oms)
    else if within 0xA0 0xA7 ci_field
    then (if m_field == manufacturer_sap then sap_prios else prios)
    else if ci_field == 0xB0
    then (if m_field == manufacturer_sap then sap_prios_std else reserved)
    else if within 0xA8 0xAF ci_field || within 0xB4 0xB7 ci_field
    then reserved
    else if within 0xB1 0xB3 ci_field
    then prios_scr
    else oms

unfoldable pub interpret_fields : ℕ → ℕ → ℕ → ℕ → Interpretation
interpret_fields c_field m_field ci_field tpl_cfg =
    if is_diehl_manufacturer m_field && ((c_field == 0x44) || (c_field == 0x46))
    then interpret_ci m_field ci_field tpl_cfg
    else not_diehl

-- `detectDiehlFrameInterpretation` of a frame
unfoldable pub detect_interpretation : Bytes → Interpretation
detect_interpretation frame =
    if ltb (length frame) 15
    then not_diehl
    else interpret_fields (get_or frame 1 0) (get_or frame 3 0 * 256 + get_or frame 2 0)
        (get_or frame 10 0) (get_or frame 14 0 * 256 + get_or frame 13 0)

-- `untouched` is the source's `NONE`.
pub data AddressTransform : Type 0 where
  untouched swapping set_water_meter standard : AddressTransform

unfoldable pub transform_of : Interpretation → AddressTransform
transform_of prios = swapping
transform_of prios_scr = swapping
transform_of real_data = swapping
transform_of sap_prios = set_water_meter
transform_of sap_prios_std = standard
transform_of reserved = untouched
transform_of oms = untouched
transform_of not_diehl = untouched

unfoldable pub must_transform_address : Bytes → AddressTransform
must_transform_address frame = transform_of (detect_interpretation frame)

-- `frame[i] = b`
unfoldable pub set_byte : ℕ → ℕ → Bytes → Bytes
set_byte i b [] = []
set_byte zero b (x ∷ v) = b ∷ v
set_byte (suc i) b (x ∷ v) = x ∷ set_byte i b v

-- `frame[i] = frame[i+2]` for `count` indices from `i` on
unfoldable pub move_down : ℕ → ℕ → Bytes → Bytes
move_down zero i frame = frame
move_down (suc count) i frame = move_down count (i + 1) (set_byte i (get_or frame (i + 2) 0) frame)

-- The transformation that is not implemented leaves the frame.
unfoldable pub transform_address : Bytes → AddressTransform → Bytes
transform_address frame swapping =
    set_byte 9 (get_or frame 5 0) (set_byte 8 (get_or frame 4 0) (move_down 4 4 frame))
transform_address frame set_water_meter = set_byte 9 0x07 (set_byte 8 0x00 frame)
transform_address frame standard = frame
transform_address frame untouched = frame

-- `Telegram::preProcess`: the frame, and the part of it that is kept as `original`.
unfoldable pub pre_process : Bytes → Bytes × Bytes
pre_process frame = elim (must_transform_address frame) [
  | untouched ↦ (frame, [])
  | m ↦ (transform_address frame m, take 10 frame)
]

-- `none` is a read past the end.
unfoldable pub uint32_from_bytes : Bytes → ℕ → Option ℕ
uint32_from_bytes v offset =
    if leb (offset + 4) (length v)
    then some (
        ((get_or v offset 0 * 256 + get_or v (offset + 1) 0) * 256 + get_or v (offset + 2) 0) * 256
        + get_or v (offset + 3) 0)
    else none

unfoldable pub xor_options : Option ℕ → Option ℕ → Option ℕ
xor_options (some a) (some b) = some (bit_xor a b)
xor_options (some a) none = none
xor_options none b = none

unfoldable pub convert_key : Bytes → Option ℕ
convert_key bytes = xor_options (uint32_from_bytes bytes 0) (uint32_from_bytes bytes 4)

-- One shift of the register: the new bit is the exclusive or of four bits.
unfoldable pub shift_register : ℕ → ℕ
shift_register key =
    u32 (key * 2) + (key / 2 % 2 + key / 4 % 2 + key / 2048 % 2 + key / 2147483648 % 2) % 2

unfoldable pub shifts : ℕ → ℕ → ℕ
shifts zero key = key
shifts (suc n) key = shifts n (shift_register key)

-- The loop over the content, each byte of which takes eight shifts.
unfoldable pub decode_loop : ℕ → Bytes → Bytes
decode_loop key [] = []
decode_loop key (b ∷ content) =
    let key' = shifts 8 key in bit_xor b (key' % 256) ∷ decode_loop key' content

pub data CheckMethod : Type 0 where
  checksum_and_0xef header_1_byte : CheckMethod

unfoldable pub sum_bytes : Bytes → ℕ
sum_bytes [] = 0
sum_bytes (b ∷ v) = u32 (b + sum_bytes v)

-- What the checks inside the loop come to: the first byte is that of the first round in every later
-- one, and the checksum is taken in the last round. Without content there is no round.
unfoldable pub passes : CheckMethod → ℕ → Bytes → Bool
passes header_1_byte check_value [] = true
passes header_1_byte check_value (b ∷ decoded) = b == 0x4B
passes checksum_and_0xef check_value [] = true
passes checksum_and_0xef check_value (b ∷ decoded) =
    bit_and (sum_bytes (b ∷ decoded)) 0xEF == check_value

unfoldable pub seed : Bytes → Bytes → ℕ → Option ℕ
seed origin frame key =
    xor_options
      (xor_options (xor_options (some key) (uint32_from_bytes origin 2))
        (uint32_from_bytes origin 6))
      (uint32_from_bytes frame 10)

-- `decodeDiehlLfsr`: `none` where it reads past an end, or where the frame is too short to have
-- content. An empty result says that the check failed.
unfoldable pub decode_diehl_lfsr : Bytes → Bytes → ℕ → CheckMethod → ℕ → Option Bytes
decode_diehl_lfsr origin frame key method check_value = elim (seed origin frame key) [
  | none ↦ none
  | some k ↦
      let decoded = decode_loop k (drop 15 frame) in
      if ltb (length frame) 15
      then none
      else if passes method check_value decoded
      then some decoded
      else some []
]

abbrev pub prios_default_key1 : Bytes
prios_default_key1 = codes "39BC8A10E66D83F8"

abbrev pub prios_default_key2 : Bytes
prios_default_key2 = codes "51728910E66D83F8"

-- `initializeDiehlDefaultKeySupport`, for keys that are empty before
unfoldable pub default_keys : Bytes → Option (List ℕ)
default_keys confidentiality_key =
    if is_empty confidentiality_key
    then elim (convert_key (hex2bin prios_default_key1 []).1) [
      | none ↦ none
      | some k1 ↦ elim (convert_key (hex2bin prios_default_key2 []).1) [
        | none ↦ none
        | some k2 ↦ some (k1 ∷ k2 ∷ [])
      ]
    ]
    else elim (convert_key confidentiality_key) [ none ↦ none | some k ↦ some (k ∷ []) ]

-- The first key whose result is not empty
unfoldable pub try_keys : Bytes → Bytes → List ℕ → Option Bytes
try_keys origin frame [] = some []
try_keys origin frame (k ∷ keys) =
    elim (decode_diehl_lfsr origin frame k checksum_and_0xef (bit_and (get_or frame 14 0) 0xEF)) [
      | none ↦ none
      | some [] ↦ try_keys origin frame keys
      | some (b ∷ decoded) ↦ some (b ∷ decoded)
    ]

-- `decryptDielhRealData`: the result and the frame, for a frame that has a byte 14.
unfoldable pub decrypt_diehl_real_data : Bytes → Bytes → ℕ → Bytes → Option (Bool × Bytes)
decrypt_diehl_real_data original frame pos confidentiality_key =
    elim (default_keys confidentiality_key) [
      | none ↦ none
      | some keys ↦ elim (try_keys (if is_empty original then frame else original) frame keys) [
        | none ↦ none
        | some [] ↦ some (false, frame)
        | some (b ∷ decoded) ↦ some (true, take pos frame ++ b ∷ decoded)
      ]
    ]

-- `addDefaultManufacturerKeyIfAny`, where `is_cbc_iv` says that the security mode is AES-CBC with an
-- initial vector
unfoldable pub add_default_key : Bytes → Bool → Bytes → Bytes
add_default_key frame is_cbc_iv confidentiality_key = elim (detect_interpretation frame) [
  | oms ↦
      let half = (hex2bin prios_default_key2 []).1 in
      if is_empty confidentiality_key && is_cbc_iv then half ++ half else confidentiality_key
  | _ ↦ confidentiality_key
]
