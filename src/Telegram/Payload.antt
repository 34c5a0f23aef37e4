-- ===== src/Telegram/Payload.antt =====
-- src/wmbus.cc: `parse_TPL_72`, `parse_TPL_78`, `parse_TPL_79`, `parse_TPL_7A` and `parseTPL`, with
-- `findFormatBytesFromKnownMeterSignatures`, and `loadFormatBytesFromSignature` of src/dvparser.cc.
use wmbm_16brandnew.Prelude.{
  ℕ, Bool, true, false, ◌||◌, Option, none, some, [], Bytes, codes, length, ◌==◌, if◌then◌else◌,
}
use wmbm_16brandnew.Hex.{hex2bin}
use wmbm_16brandnew.Dv
use wmbm_16brandnew.Dv.{parse_dv, parse_dv_format, format_of}
use wmbm_16brandnew.Telegram.Modes.{tpl, is_ci_field_of_type}
use wmbm_16brandnew.Telegram.ExtendedLink.{too_short}
use wmbm_16brandnew.Telegram.Transport.{parse_short_tpl, parse_long_tpl}
use wmbm_16brandnew.Telegram.Decryption.{potentially_decrypt}
use wmbm_16brandnew.Telegram.{
  Telegram, ok, stops, faults, Action, stop, ◌>>=◌, ◌>>◌, gets, modify, remaining, check, peek,
  take_byte, take_bytes, word,
}

-- Whether the part returns true
abbrev pub attempt : Action (Unit {0}) → Action Bool
attempt m t = elim (m t) [ ok _ t' ↦ ok true t' | stops t' ↦ ok false t' | faults ↦ faults ]

-- `header_size` is the distance to the position, and `suffix_size` is 0.
unfoldable pub set_sizes : Telegram → Telegram
set_sizes t = record t { header_size = length t.before; suffix_size = 0 }

abbrev pub dv_telegram : Telegram → Dv.Telegram
dv_telegram t = record {
  parsed_bytes = t.parsed;
  dv_values = t.values;
  mfct_index = t.mfct_0f_index;
  formats = t.formats;
}

-- What `parseDV` leaves in the telegram. It works on a copy of the position.
unfoldable pub keep_values : Dv.Parsed → Action (Unit {0})
keep_values (Dv.done d) t = ok tt (record t {
  parsed = d.parsed_bytes;
  values = d.dv_values;
  mfct_0f_index = d.mfct_index;
  formats = d.formats;
})
keep_values Dv.undefined t = faults
keep_values Dv.out_of_fuel t = faults

unfoldable pub parse_values : Action (Unit {0})
parse_values t = keep_values (parse_dv (dv_telegram t) t.rest) t

unfoldable pub parse_values_format : Bytes → Action (Unit {0})
parse_values_format format t = keep_values (parse_dv_format (dv_telegram t) t.rest format) t

-- What `parse_TPL_72` and `parse_TPL_7A` do behind their headers
unfoldable pub decrypt_and_parse :
    (Bytes → Bytes → Bytes) → (Bytes → Bytes → Bytes → Bytes) → Action (Unit {0})
decrypt_and_parse ecb cbc = do
  decrypt_ok ← attempt (potentially_decrypt ecb cbc)
  modify set_sizes
  if decrypt_ok then parse_values else modify (λ t. record t { decryption_failed = true })

unfoldable pub parse_tpl_72 :
    (Bytes → Bytes → Bytes) → (Bytes → Bytes → Bytes → Bytes) → Action (Unit {0})
parse_tpl_72 ecb cbc = parse_long_tpl ecb >> decrypt_and_parse ecb cbc

unfoldable pub parse_tpl_78 : Action (Unit {0})
parse_tpl_78 = do modify set_sizes; parse_values

-- `findFormatBytesFromKnownMeterSignatures`
unfoldable pub known_meter_format : ℕ → Option Bytes
known_meter_format signature =
    if signature == 0xa8ed
    then some (hex2bin (codes "02FF2004134413615B6167") []).1
    else if signature == 0xc412
    then some (hex2bin (codes "02FF20041392013BA1015B8101E7FF0F") []).1
    else if signature == 0x61eb
    then some (hex2bin (codes "02FF2004134413A1015B8101E7FF0F") []).1
    else if signature == 0xd2f7
    then some (hex2bin (codes "02FF2004134413615B5167") []).1
    else if signature == 0xdd34
    then some (hex2bin (codes "02FF2004134413") []).1
    else none

-- `loadFormatBytesFromSignature`, and the formats that are built in where it fails.
unfoldable pub load_format : ℕ → Telegram → Option Bytes
load_format signature t = elim (format_of signature t.formats) [
  | some format ↦ some (hex2bin format []).1
  | none ↦ known_meter_format signature
]

-- The part behind the signature, when there is a format for it
unfoldable pub parse_compact : Option Bytes → Action (Unit {0})
parse_compact none = stop
parse_compact (some format) = do
  check 2
  _ ← take_bytes 2
  modify set_sizes
  parse_values_format format

unfoldable pub parse_tpl_79 : Action (Unit {0})
parse_tpl_79 = do
  check 2
  ecrc ← take_bytes 2
  modify (λ t. record t { tpl = record t.tpl { format_signature = word ecrc } })
  format ← gets (load_format (word ecrc))
  parse_compact format

unfoldable pub parse_tpl_7a :
    (Bytes → Bytes → Bytes) → (Bytes → Bytes → Bytes → Bytes) → Action (Unit {0})
parse_tpl_7a ecb cbc = parse_short_tpl ecb >> decrypt_and_parse ecb cbc

-- The switch over `tpl_ci`
unfoldable pub parse_tpl_fields :
    (Bytes → Bytes → Bytes) → (Bytes → Bytes → Bytes → Bytes) → ℕ → Action (Unit {0})
parse_tpl_fields ecb cbc ci =
    if ci == 0x72
    then parse_tpl_72 ecb cbc
    else if ci == 0x78
    then parse_tpl_78
    else if ci == 0x79
    then parse_tpl_79
    else if ci == 0x7A
    then parse_tpl_7a ecb cbc
    else if (ci == 0xA1) || ((ci == 0xA0) || ((ci == 0xA2) || (ci == 0xA3)))
    then modify set_sizes
    else modify set_sizes >> stop

-- The part behind the test of the CI field; `short` is the test of the length.
unfoldable pub parse_tpl_header :
    (Bytes → Bytes → Bytes) → (Bytes → Bytes → Bytes → Bytes) → ℕ → Bool → Action (Unit {0})
parse_tpl_header ecb cbc ci short = do
  modify (λ t. record t { tpl = record t.tpl { ci = ci; start = length t.before } })
  _ ← take_byte
  if short then stop else parse_tpl_fields ecb cbc ci

unfoldable pub parse_tpl :
    (Bytes → Bytes → Bytes) → (Bytes → Bytes → Bytes → Bytes) → Action (Unit {0})
parse_tpl ecb cbc = do
  n ← remaining
  if n == 0 then stop else do
    ci ← peek
    if is_ci_field_of_type ci tpl then parse_tpl_header ecb cbc ci (too_short n ci 1) else stop
