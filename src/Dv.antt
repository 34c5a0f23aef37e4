-- ===== src/Dv.antt =====
-- src/dvparser.cc and the DIF tables of src/wmbus.cc: the parser `parseDV` of the values in a
-- telegram. What it writes for people (explanations, debug lines) is left out, but not the bytes
-- that it marks as parsed. In every call `data_end` is the end of the frame.
pub mod Ending
pub mod Conservation
pub mod Values
mod Runs
use Prim.Native.Nat.{bit_or}
use wmbm_16brandnew.Prelude.{
  ℕ, zero, suc, ◌+◌, ◌-◌, ◌*◌, ◌/◌, ◌%◌, ◌^◌, ◌≤◌, ◌<◌, ◌≡◌, ◌≢◌, refl, ap, sym, ◌∙◌, ◌⊎◌, ◌↔◌, inl,
  inr, Bool, true, false, not, ◌&&◌, ◌||◌, Option, none, some, List, [], ◌∷◌, ◌++◌, map, arith,
  Bytes, IsByte, All, codes, get_or, get_elem?, take, drop, replicate, length, length-append,
  length-take, length-drop, take-append-drop, take-append_length, drop-append_length,
  length-replicate, within, ltb, leb, ◌==◌, if◌then◌else◌, all_below, all_below_sound, agree_below,
  Bool-cases, Option-cases, flag_cases, ==_iff, u8, u16, u32, bit_set,
}
use mathlib.Core.List.{append-nil, append_assoc}
use wmbm_16brandnew.Text.{is_empty, equal}
use wmbm_16brandnew.Hex.{bin2hex}
use wmbm_16brandnew.Crc.{crc16_en13757}

pub data MeasurementType : Type 0 where
  unknown instantaneous minimum maximum at_error : MeasurementType

-- The result of `difLenBytes`: a number of bytes, -1 (`variable`) or -2 (`special`).
pub data DifLength : Type 0 where
  fixed : ℕ → DifLength
  variable special : DifLength

unfoldable pub dif_len_bytes : ℕ → DifLength
dif_len_bytes dif =
    let t = dif % 16 in
    if t == 0x0
    then fixed 0
    else if t == 0x1
    then fixed 1
    else if t == 0x2
    then fixed 2
    else if t == 0x3
    then fixed 3
    else if t == 0x4
    then fixed 4
    else if t == 0x5
    then fixed 4
    else if t == 0x6
    then fixed 6
    else if t == 0x7
    then fixed 8
    else if t == 0x8
    then fixed 0
    else if t == 0x9
    then fixed 1
    else if t == 0xA
    then fixed 2
    else if t == 0xB
    then fixed 3
    else if t == 0xC
    then fixed 4
    else if t == 0xD
    then variable
    else if t == 0xE
    then fixed 6
    else if dif == 0x2f
    then fixed 1
    else special

-- `dif & 0x30`
unfoldable pub dif_measurement_type : ℕ → MeasurementType
dif_measurement_type dif =
    let t = dif / 16 % 4 in
    if t == 0
    then instantaneous
    else if t == 1
    then maximum
    else if t == 2
    then minimum
    else at_error

pub record DvEntry : Type 0 where
  pub kind : MeasurementType
  pub value_information : ℕ
  pub storagenr : ℕ
  pub tariff : ℕ
  pub subunit : ℕ
  pub value : Bytes

-- `std::string` order
unfoldable pub before : Bytes → Bytes → Bool
before [] [] = false
before [] (y ∷ ys) = true
before (x ∷ xs) [] = false
before (x ∷ xs) (y ∷ ys) = if x == y then before xs ys else ltb x y

-- A `std::map` over strings is kept in the order of its keys; `m[k] = v` replaces or adds.
module _ {ℓ} {V : Type ℓ} where
  unfoldable pub store : Bytes → V → List (Bytes × V) → List (Bytes × V)
  store k v [] = (k, v) ∷ []
  store k v ((j, w) ∷ m) =
      let later = (j, w) ∷ store k v m in
      if equal j k then (k, v) ∷ m else if before k j then (k, v) ∷ (j, w) ∷ m else later

  unfoldable pub fetch : Bytes → List (Bytes × V) → Option V
  fetch k [] = none
  fetch k ((j, w) ∷ m) = if equal j k then some w else fetch k m

-- The digits of a number, for `%d`: a number has fewer digits than its size and one.
unfoldable pub decimal_loop : ℕ → ℕ → Bytes → Bytes
decimal_loop zero n out = out
decimal_loop (suc fuel) n out =
    let more = decimal_loop fuel (n / 10) ((b'0' + n % 10) ∷ out) in
    if ltb n 10 then (b'0' + n) ∷ out else more

unfoldable pub decimal : ℕ → Bytes
decimal n = decimal_loop (n + 1) n []

-- What the extension bytes of a DIF add up to.
pub record Numbers : Type 0 where
  pub storage_nr : ℕ
  pub tariff_nr : ℕ
  pub subunit_nr : ℕ

-- `bits << k` on a signed int: `none` where C++ leaves it undefined.
unfoldable pub shift_int : ℕ → ℕ → Option ℕ
shift_int bits k = if ltb k 32 && ltb (bits * 2 ^ k) 2147483648 then some (bits * 2 ^ k) else none

unfoldable pub add_dife : Option ℕ → Option ℕ → Option ℕ → Numbers → Option Numbers
add_dife (some st) (some ta) (some su) n = some (record {
  storage_nr = bit_or n.storage_nr st;
  tariff_nr = bit_or n.tariff_nr ta;
  subunit_nr = bit_or n.subunit_nr su;
})
add_dife _ _ _ n = none

-- The loop over the extension bytes of a DIF: those that it passes over, and the numbers. It ends at
-- a byte without the top bit, or where the format ends.
unfoldable pub read_difes : Bool → Bytes → ℕ → Numbers → Option (Bytes × Numbers)
read_difes false bytes difenr n = some ([], n)
read_difes true [] difenr n = some ([], n)
read_difes true (dife ∷ bytes) difenr n =
    elim (add_dife (shift_int (dife % 16) (1 + difenr * 4)) (shift_int (dife / 16 % 4) (difenr * 2))
      (shift_int (dife / 64 % 2) difenr) n) [
        | none ↦ none
        | some n' ↦ elim (read_difes (bit_set dife 7) bytes (difenr + 1) n') [
          | none ↦ none
          | some (difes, n'') ↦ some (dife ∷ difes, n'')
        ]
      ]

-- The loop over the extension bytes of a VIF.
unfoldable pub read_vifes : Bool → Bytes → Bytes
read_vifes false bytes = []
read_vifes true [] = []
read_vifes true (vife ∷ bytes) = vife ∷ read_vifes (bit_set vife 7) bytes

-- `data_has_difvifs`, and where the parsing starts: `t->parsed.size()` and the length of the data.
pub record Setup : Type 0 where
  pub has_difvifs : Bool
  pub start : ℕ
  pub data_len : ℕ

-- What is left of the data and of a format that was supplied, the bytes marked as parsed, and what
-- was gathered.
pub record State : Type 0 where
  pub rest : Bytes
  pub format : Bytes
  pub parsed : Bytes
  pub format_bytes : Bytes
  pub counts : List (Bytes × ℕ)
  pub values : List (Bytes × (ℕ × DvEntry))
  pub mfct_0f_index : Option ℕ

-- `*format` and `format_end`: the data itself, unless a format was supplied.
unfoldable pub front : Bool → State → Bytes
front true s = s.rest
front false s = s.format

-- Passes over the bytes `b` at the front.
unfoldable pub consume : Bool → State → Bytes → State
consume true s b = record s {
  rest = drop (length b) s.rest;
  parsed = s.parsed ++ b;
  format_bytes = s.format_bytes ++ b;
}
consume false s b = record s { format = drop (length b) s.format }

-- The skip code 0x2f is marked as parsed, and is no part of the format.
unfoldable pub skip : Bool → State → State
skip true s = record s { rest = drop 1 s.rest; parsed = s.parsed ++ 0x2f ∷ [] }
skip false s = record s { format = drop 1 s.format; parsed = s.parsed ++ 0x2f ∷ [] }

-- From the byte 0x0f on all data is the manufacturer's.
unfoldable pub mfct_data : Setup → State → State
mfct_data u s = record s {
  rest = [];
  parsed = s.parsed ++ s.rest;
  mfct_0f_index = some (1 + (u.data_len - length s.rest));
}

-- What a round of the loop comes to: another round, the end of the loop, or a step that C++ leaves
-- undefined. `stuck` is no result: the fuel ran out.
pub data Next : Type 0 where
  go stop : State → Next
  fault stuck : Next

-- `++dv_count[dv]`, and the key of this occurrence.
unfoldable pub next_count : Bytes → List (Bytes × ℕ) → ℕ
next_count dv counts = elim (fetch dv counts) [ none ↦ 1 | some n ↦ n + 1 ]

unfoldable pub numbered_key : Bytes → ℕ → Bytes
numbered_key dv count = if ltb 1 count then dv ++ (b'_' ∷ decimal count) else dv

unfoldable pub wanted_length : DifLength → Bytes → ℕ
wanted_length (fixed n) rest = n
wanted_length variable rest = if ltb 2 (length rest) then get_or rest 0 0 else length rest
wanted_length special rest = 0

-- The value, `datalen` bytes at the front of `rest`, is stored with its offset. To pass over it marks
-- its bytes as parsed.
unfoldable pub store_value : Setup → State → (Bytes → DvEntry) → Bytes → Bytes → ℕ → State
store_value u s entry key rest datalen =
    let offset = u.start + (u.data_len - length rest) in
    record s {
      values = store key (offset, entry (bin2hex (take datalen rest))) s.values;
      rest = rest;
    }

unfoldable pub pass_value : State → Bytes → ℕ → State
pass_value s rest datalen = record s {
  rest = drop datalen rest;
  parsed = s.parsed ++ take datalen rest;
}

-- `last` says that `datalen` bytes were all that was left. To pass over more bytes than there are
-- reads past the end.
unfoldable pub take_value : Setup → State → (Bytes → DvEntry) → Bytes → Bytes → ℕ → Bool → Next
take_value u s entry key rest datalen last =
    let stored = store_value u s entry key rest datalen in
    let passed = pass_value stored rest datalen in
    if is_empty (take datalen rest)
    then (if last || is_empty rest then stop stored else go stored)
    else if ltb (length rest) datalen
    then fault
    else if last || is_empty (drop datalen rest)
    then stop passed
    else go passed

-- The length byte of a value of variable length is passed over.
unfoldable pub take_data : Setup → State → (Bytes → DvEntry) → Bytes → DifLength → ℕ → Bool → Next
take_data u s entry key variable datalen last = elim s.rest [
  | [] ↦ fault
  | b ∷ rest ↦ take_value u (record s { parsed = s.parsed ++ b ∷ [] }) entry key rest datalen last
]
take_data u s entry key (fixed n) datalen last = take_value u s entry key s.rest datalen last
take_data u s entry key special datalen last = take_value u s entry key s.rest datalen last

-- Behind the DIF and the VIF, whose bytes are `id_bytes`. Where too few bytes are left `datalen`
-- becomes one less than these.
unfoldable pub read_data : Setup → State → ℕ → ℕ → Numbers → Bytes → DifLength → Next
read_data u s dif vif n id_bytes len =
    let dv = bin2hex id_bytes in
    let count = next_count dv s.counts in
    let counted = record s { counts = store dv count s.counts } in
    let entry : (Bytes → DvEntry) = λ value. record {
      kind = dif_measurement_type dif;
      value_information = vif % 128;
      storagenr = n.storage_nr;
      tariff = n.tariff_nr;
      subunit = n.subunit_nr;
      value = value;
    } in
    let remaining = length s.rest in
    let wanted = wanted_length len s.rest in
    if ltb remaining wanted
    then take_data u counted entry (numbered_key dv count) len (remaining - 1) false
    else take_data u counted entry (numbered_key dv count) len wanted (remaining == wanted)

unfoldable pub read_vif : Setup → State → ℕ → Numbers → Bytes → DifLength → Next
read_vif u s dif n id_bytes len = elim (front u.has_difvifs s) [
  | [] ↦ stop s
  | vif ∷ more ↦
      let s' = consume u.has_difvifs s (vif ∷ []) in
      let vifes = read_vifes (bit_set vif 7) more in
      read_data u (consume u.has_difvifs s' vifes) dif vif n (id_bytes ++ (vif ∷ vifes)) len
]

-- Behind a DIF that announces a value.
unfoldable pub read_entry : Setup → State → ℕ → DifLength → Next
read_entry u s dif len =
    let s' = consume u.has_difvifs s (dif ∷ []) in
    let lsb : Numbers = record { storage_nr = dif / 64 % 2; tariff_nr = 0; subunit_nr = 0 } in
    elim (read_difes (bit_set dif 7) (front u.has_difvifs s') 0 lsb) [
      | none ↦ fault
      | some (difes, n) ↦ read_vif u (consume u.has_difvifs s' difes) dif n (dif ∷ difes) len
    ]

-- One round of the loop, on the DIF byte at the front.
unfoldable pub read_dif : Setup → State → ℕ → DifLength → Next
read_dif u s dif special = if dif == 0x0f then stop (mfct_data u s) else stop s
read_dif u s dif variable = read_entry u s dif variable
read_dif u s dif (fixed n) =
    if dif == 0x2f then go (skip u.has_difvifs s) else read_entry u s dif (fixed n)

unfoldable pub round : Setup → State → Next
round u s = elim (front u.has_difvifs s) [
  | [] ↦ stop s
  | dif ∷ more ↦ read_dif u s dif (dif_len_bytes dif)
]

unfoldable pub rounds : ℕ → Setup → State → Next
rounds zero u s = stuck
rounds (suc fuel) u s = elim (round u s) [ go s' ↦ rounds fuel u s' | r ↦ r ]

-- The formats seen so far, by their hash: `hash_to_format_`.
unfoldable pub format_of : ℕ → List (ℕ × Bytes) → Option Bytes
format_of h [] = none
format_of h ((k, f) ∷ m) = if k == h then some f else format_of h m

unfoldable pub remember : Bool → Bytes → List (ℕ × Bytes) → List (ℕ × Bytes)
remember has format_bytes formats =
    let h = crc16_en13757 format_bytes in
    elim (format_of h formats) [
      | none ↦ if has then formats ++ (h, bin2hex format_bytes) ∷ [] else formats
      | some f ↦ formats
    ]

-- The fields of the telegram that the parser works on, and the formats.
pub record Telegram : Type 0 where
  pub parsed_bytes : Bytes
  pub dv_values : List (Bytes × (ℕ × DvEntry))
  pub mfct_index : Option ℕ
  pub formats : List (ℕ × Bytes)

pub data Parsed : Type 0 where
  done : Telegram → Parsed
  undefined out_of_fuel : Parsed

unfoldable pub finish : Bool → List (ℕ × Bytes) → Next → Parsed
finish has formats (stop s) = done (record {
  parsed_bytes = s.parsed;
  dv_values = s.values;
  mfct_index = s.mfct_0f_index;
  formats = remember has s.format_bytes formats;
})
finish has formats (go s) = out_of_fuel
finish has formats fault = undefined
finish has formats stuck = out_of_fuel

abbrev pub initial : Telegram → Bytes → Bytes → State
initial t bytes format = record {
  rest = bytes;
  format = format;
  parsed = t.parsed_bytes;
  format_bytes = [];
  counts = [];
  values = t.dv_values;
  mfct_0f_index = t.mfct_index;
}

-- `parseDV` with no format: each round passes over a byte at least.
unfoldable pub parse_dv : Telegram → Bytes → Parsed
parse_dv t bytes =
    let u : Setup = record {
      has_difvifs = true;
      start = length t.parsed_bytes;
      data_len = length bytes;
    } in
    finish true t.formats (rounds (length bytes + 1) u (initial t bytes []))

-- `parseDV` with a format that was supplied.
unfoldable pub parse_dv_format : Telegram → Bytes → Bytes → Parsed
parse_dv_format t bytes format =
    let u : Setup = record {
      has_difvifs = false;
      start = length t.parsed_bytes;
      data_len = length bytes;
    } in
    finish false t.formats (rounds (length format + 1) u (initial t bytes format))
