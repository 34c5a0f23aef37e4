-- ===== src/Telegram/Transport.antt =====
-- src/wmbus.cc: `parseTPLConfig`, `parseShortTPL` and `parseLongTPL`. `ecb` is `AES_ECB_encrypt`.
use wmbm_16brandnew.Prelude.{
  ℕ, ◌/◌, ◌%◌, Bool, true, false, Option, none, some, [], ◌∷◌, ◌++◌, Bytes, replicate, length, ◌==◌,
  if◌then◌else◌,
}
use wmbm_16brandnew.Cipher.{aes_cmac}
use wmbm_16brandnew.Telegram.Modes.{
  TplSecurityMode, aes_cbc_iv, aes_cbc_no_iv, to_tpl_security_mode,
}
use wmbm_16brandnew.Telegram.Authentication.{when}
use wmbm_16brandnew.Telegram.{
  Telegram, Action, pure, stop, ◌>>=◌, ◌>>◌, gets, modify, check, take_bytes, take_byte, word,
  id_text, add_id,
}

-- The security mode, which stays as it is where the five bits are zero.
unfoldable pub set_config : ℕ → Telegram → Telegram
set_config cfg t = record t {
  tpl = record t.tpl {
    cfg = cfg;
    sec_mode =
        if cfg / 256 % 32 == 0 then t.tpl.sec_mode else to_tpl_security_mode (cfg / 256 % 32);
  };
}

-- The two modes of AES-CBC
unfoldable pub has_blocks : TplSecurityMode → Bool
has_blocks aes_cbc_iv = true
has_blocks aes_cbc_no_iv = true
has_blocks _ = false

unfoldable pub set_blocks : TplSecurityMode → Telegram → Telegram
set_blocks mode t = record t {
  tpl = record t.tpl {
    num_encr_blocks = if has_blocks mode then t.tpl.cfg / 16 % 16 else t.tpl.num_encr_blocks;
  };
}

unfoldable pub has_cfg_ext : TplSecurityMode → Bool
has_cfg_ext aes_cbc_no_iv = true
has_cfg_ext _ = false

-- The input of the key derivation: the constant, the counter, the id, and seven bytes that pad it.
unfoldable pub kdf_input : ℕ → Telegram → Bytes
kdf_input dc t =
    dc
    ∷ (t.afl.counter_b ++ ((if t.tpl.id_found then t.tpl.id_b else t.dll.id_b) ++ replicate 7 0x07))

-- The keys for the payload and for its authentication
unfoldable pub set_generated_keys : (Bytes → Bytes → Bytes) → Bytes → Telegram → Telegram
set_generated_keys ecb key t = record t {
  tpl = record t.tpl {
    generated_key = aes_cmac ecb key (kdf_input 0x00 t);
    generated_mac_key = aes_cmac ecb key (kdf_input 0x01 t);
  };
}

-- Without a key of 16 bytes the parser goes on only if the telegram is simulated.
unfoldable pub without_key : Action (Unit {0})
without_key = do simulated ← gets (λ t. t.is_simulated); if simulated then pure tt else stop

unfoldable pub derive_keys_from : (Bytes → Bytes → Bytes) → Option Bytes → Action (Unit {0})
derive_keys_from ecb none = without_key
derive_keys_from ecb (some key) =
    if length key == 16 then modify (set_generated_keys ecb key) else without_key

unfoldable pub derive_keys : (Bytes → Bytes → Bytes) → Action (Unit {0})
derive_keys ecb = do keys ← gets (λ t. t.meter_keys); derive_keys_from ecb keys

-- The byte that extends the configuration, in mode 7 only
unfoldable pub parse_tpl_config_ext : (Bytes → Bytes → Bytes) → Action (Unit {0})
parse_tpl_config_ext ecb = do
  check 1
  ext ← take_byte
  modify (λ t. record t { tpl = record t.tpl { cfg_ext = ext; kdf_selection = ext / 16 % 4 } })
  when (ext / 16 % 4 == 1) (derive_keys ecb)

unfoldable pub parse_tpl_config : (Bytes → Bytes → Bytes) → Action (Unit {0})
parse_tpl_config ecb = do
  check 2
  cfg_b ← take_bytes 2
  modify (set_config (word cfg_b))
  mode ← gets (λ t. t.tpl.sec_mode)
  modify (set_blocks mode)
  when (has_cfg_ext mode) (parse_tpl_config_ext ecb)

unfoldable pub parse_short_tpl : (Bytes → Bytes → Bytes) → Action (Unit {0})
parse_short_tpl ecb = do
  check 1
  acc ← take_byte
  modify (λ t. record t { tpl = record t.tpl { acc = acc } })
  check 1
  sts ← take_byte
  modify (λ t. record t { tpl = record t.tpl { sts = sts } })
  parse_tpl_config ecb

-- The id, the manufacturer, the version and the type
unfoldable pub parse_tpl_address : Action (Unit {0})
parse_tpl_address = do
  check 4
  id_b ← take_bytes 4
  modify (λ t.
      add_id (id_text id_b) (record t { tpl = record t.tpl { id_found = true; id_b = id_b } }))
  check 2
  mfct_b ← take_bytes 2
  modify (λ t. record t { tpl = record t.tpl { mfct_b = mfct_b; mfct = word mfct_b } })
  check 1
  version ← take_byte
  check 1
  type_ ← take_byte
  modify (λ t. record t {
    tpl = record t.tpl { version = version; type_ = type_; a = id_b ++ version ∷ type_ ∷ [] };
  })

unfoldable pub parse_long_tpl : (Bytes → Bytes → Bytes) → Action (Unit {0})
parse_long_tpl ecb = parse_tpl_address >> parse_short_tpl ecb
