-- ===== src/Telegram/Runs.antt =====
-- Concrete runs, and the theorems at concrete inputs.
use wmbm_16brandnew.Prelude.{
  ◌≤◌, ◌<◌, ◌≡◌, ◌≢◌, ◌↔◌, refl, true, false, none, some, [], ◌∷◌, ◌++◌, Bytes, IsByte, All, codes,
  take, replicate, length, arith,
}
use wmbm_16brandnew.Crc.Detection.{crc16_en13757-lt}
use wmbm_16brandnew.Cipher.{ctr_iv, decrypt_ell_aes_ctr, aes_cmac}
use wmbm_16brandnew.Cipher.Runs.{mixed, mixed-IsBlockCipher, raised}
use wmbm_16brandnew.Telegram.Modes.{ell_no_security, no_security}
use wmbm_16brandnew.Telegram.{Telegram, Dll, Ell, Afl, Tpl, ok, faults}
use wmbm_16brandnew.Telegram.DataLink.{parse_dll, parse_mbus_dll}
use wmbm_16brandnew.Telegram.ExtendedLink.{parse_ell}
use wmbm_16brandnew.Telegram.Authentication.{check_mac}
use wmbm_16brandnew.Telegram.Parsing.{parse_wmbus, parse_wmbus_header}
use wmbm_16brandnew.Telegram.Headers.{parse_dll_faults, parse_mbus_dll_faults}
use wmbm_16brandnew.Telegram.Bounds.{parse_ell_safe}
use wmbm_16brandnew.Telegram.Relation.{After}
use wmbm_16brandnew.Telegram.Order.Final.{BecomesInOrder, parse_wmbus_in_order}
use wmbm_16brandnew.Telegram.Mac.{check_mac_lem}
use wmbm_16brandnew.Telegram.Decrypted.{checked, parse_ell_decrypts}

abbrev no_dll : Dll
no_dll = record {
  len = 0;
  c = 0;
  mfct_b = 0 ∷ 0 ∷ [];
  mfct = 0;
  mbus_primary_address = 0;
  a = [];
  id_b = replicate 4 0;
  id = [];
  version = 0;
  type_ = 0;
}

abbrev no_ell : Ell
no_ell = record {
  ci = 0;
  cc = 0;
  acc = 0;
  mfct_b = 0 ∷ 0 ∷ [];
  mfct = 0;
  id_found = false;
  id_b = replicate 4 0;
  version = 0;
  type_ = 0;
  sn_b = replicate 4 0;
  sn = 0;
  sn_session = 0;
  sn_time = 0;
  sn_sec = 0;
  sec_mode = ell_no_security;
  pl_crc_b = 0 ∷ 0 ∷ [];
  pl_crc = 0;
}

abbrev no_afl : Afl
no_afl = record {
  ci = 0;
  len = 0;
  fc_b = 0 ∷ 0 ∷ [];
  fc = 0;
  mcl = 0;
  ki_b = 0 ∷ 0 ∷ [];
  ki = 0;
  counter_b = replicate 4 0;
  counter = 0;
  must_check_mac = false;
  mac_b = [];
}

abbrev no_tpl : Tpl
no_tpl = record {
  start = 0;
  ci = 0;
  acc = 0;
  sts = 0;
  cfg = 0;
  sec_mode = no_security;
  num_encr_blocks = 0;
  cfg_ext = 0;
  kdf_selection = 0;
  generated_key = [];
  generated_mac_key = [];
  id_found = false;
  a = [];
  id_b = replicate 4 0;
  mfct_b = 0 ∷ 0 ∷ [];
  mfct = 0;
  version = 0;
  type_ = 0;
  format_signature = 0;
}

-- A telegram before anything was parsed, at the start of a frame
abbrev fresh : Bytes → Telegram
fresh input = record {
  before = [];
  rest = input;
  parsed = [];
  original = [];
  ids = [];
  idsc = [];
  decryption_failed = false;
  dll = no_dll;
  ell = no_ell;
  afl = no_afl;
  tpl = no_tpl;
  header_size = 0;
  suffix_size = 0;
  values = [];
  mfct_0f_index = none;
  meter_keys = none;
  is_simulated = false;
  formats = [];
}

abbrev meter_key : Bytes
meter_key = replicate 16 7

-- A frame that is no more than a data link layer
abbrev dll_frame : Bytes
dll_frame = 0x09 ∷ 0x44 ∷ 0x2D ∷ 0x2C ∷ 0x78 ∷ 0x56 ∷ 0x34 ∷ 0x12 ∷ 0x1B ∷ 0x16 ∷ []

parse_dll_faults_example :
    (parse_dll (fresh (3 ∷ 0x44 ∷ 0x2D ∷ [])) ≡ faults) ↔ ((0 < 3) × (3 ≤ 3) × (3 < 10))
parse_dll_faults_example = parse_dll_faults (fresh (3 ∷ 0x44 ∷ 0x2D ∷ []))

parse_mbus_dll_faults_example : parse_mbus_dll (fresh (3 ∷ 0x08 ∷ 0x05 ∷ [])) ≡ faults
parse_mbus_dll_faults_example =
    parse_mbus_dll_faults (fresh (3 ∷ 0x08 ∷ 0x05 ∷ [])) refl (omega arith) (omega arith)

-- The shortest header of the kind II, with a checksum
parse_ell_safe_example : parse_ell mixed (fresh (0x8D ∷ replicate 8 0x20)) ≢ faults
parse_ell_safe_example =
    parse_ell_safe mixed (fresh (0x8D ∷ replicate 8 0x20)) mixed-IsBlockCipher (omega arith)

check_mac_lem_example : (check_mac mixed no_afl (1 ∷ 2 ∷ []) (codes "ab") meter_key ≡ true) ↔ (
    (length meter_key ≡ 16)
    × (0 < length (codes "ab"))
    × (take 2 (aes_cmac mixed meter_key (0 ∷ 0 ∷ 0 ∷ 0 ∷ 0 ∷ 1 ∷ 2 ∷ [])) ≡ codes "ab"))
check_mac_lem_example =
    check_mac_lem mixed no_afl (1 ∷ 2 ∷ []) (codes "ab") meter_key mixed-IsBlockCipher
      (omega arith, (omega arith, tt))

-- The frame with a layer for transport behind it, of the CI field 0x78 and two idle bytes
abbrev plain_frame : Bytes
plain_frame = dll_frame ++ 0x78 ∷ 0x2F ∷ 0x2F ∷ []

parse_wmbus_in_order_example :
    After BecomesInOrder
      (fresh [])
      (parse_wmbus mixed raised plain_frame (replicate 16 7) (fresh []))
    × After BecomesInOrder (fresh []) (parse_wmbus_header mixed raised plain_frame (fresh []))
parse_wmbus_in_order_example =
    parse_wmbus_in_order mixed raised plain_frame (replicate 16 7) (fresh [])

abbrev payload : Bytes
payload = 0x78 ∷ 0x2F ∷ []

-- The header of the kind II in front of the encrypted payload, with a session of mode 1
abbrev encrypted : Bytes
encrypted =
    0x8D
    ∷ 0x20
    ∷ 0x01
    ∷ 0x10
    ∷ 0x00
    ∷ 0x00
    ∷ 0x20
    ∷ decrypt_ell_aes_ctr mixed (ctr_iv (0 ∷ 0 ∷ []) [] 0x20 (0x10 ∷ 0x00 ∷ 0x00 ∷ 0x20 ∷ []))
        (checked payload) 0 meter_key

abbrev keyed : Telegram
keyed = record (fresh encrypted) { meter_keys = some meter_key }

payload_bytes : All IsByte (checked payload)
payload_bytes =
    let lt = crc16_en13757-lt payload in
    (omega arith, (omega (arith, lt), (omega arith, (omega arith, tt))))

parse_ell_decrypts_example :
    (t' : Telegram) × (parse_ell mixed keyed ≡ ok tt t')
    × (t'.rest ≡ payload)
    × (t'.decryption_failed ≡ false)
parse_ell_decrypts_example =
    parse_ell_decrypts mixed keyed 0x20 0x01 0x10 0x00 0x00 0x20 meter_key payload
      mixed-IsBlockCipher payload_bytes refl refl (omega arith) (omega arith) (omega arith) refl
