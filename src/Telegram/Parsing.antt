-- ===== src/Telegram/Parsing.antt =====
-- src/wmbus.cc: `parseWMBUSHeader`, `parseWMBUS`, `parseMBUSHeader`, `parseMBUS`, `parseHANHeader`,
-- `parseHAN`, `parse`, `parseHeader`, `extractMfctData` and `extractPayload`. `ecb` is
-- `AES_ECB_encrypt` and `cbc` is `AES_CBC_decrypt_buffer`.
use wmbm_16brandnew.Prelude.{
  ◌+◌, ◌-◌, false, none, some, [], Bytes, drop, take, length, if◌then◌else◌,
}
use wmbm_16brandnew.Diehl.{AddressTransform, untouched, must_transform_address, pre_process}
use wmbm_16brandnew.Telegram.DataLink.{parse_dll, parse_mbus_dll}
use wmbm_16brandnew.Telegram.ExtendedLink.{parse_ell, parse_nwl}
use wmbm_16brandnew.Telegram.Authentication.{parse_afl}
use wmbm_16brandnew.Telegram.Payload.{attempt, parse_tpl}
use wmbm_16brandnew.Telegram.{Telegram, frame, Action, pure, stop, ◌>>=◌, ◌>>◌, gets, modify}

pub data FrameType : Type 0 where
  wmbus mbus han : FrameType

-- The frame is copied, and nothing of it is parsed yet.
unfoldable pub start_frame : Bytes → Telegram → Telegram
start_frame input t = record t { before = []; rest = input; parsed = []; decryption_failed = false }

-- `preProcess`: without a transformation `original` stays as it is.
unfoldable pub pre_process_with : AddressTransform → Telegram → Telegram
pre_process_with untouched t = t
pre_process_with _ t = record t {
  before = [];
  rest = (pre_process (frame t)).0;
  original = (pre_process (frame t)).1;
}

unfoldable pub pre_process_telegram : Telegram → Telegram
pre_process_telegram t = pre_process_with (must_transform_address (frame t)) t

-- The layers behind the data link layer. It stops if the payload could not be decrypted.
unfoldable pub parse_layers :
    (Bytes → Bytes → Bytes) → (Bytes → Bytes → Bytes → Bytes) → Action (Unit {0})
parse_layers ecb cbc = do
  parse_ell ecb
  failed ← gets (λ t. t.decryption_failed)
  if failed then stop else do parse_nwl; parse_afl; parse_tpl ecb cbc

unfoldable pub parse_wmbus_header :
    (Bytes → Bytes → Bytes) → (Bytes → Bytes → Bytes → Bytes) → Bytes → Action (Unit {0})
parse_wmbus_header ecb cbc input = do
  modify (start_frame input)
  modify pre_process_telegram
  parse_dll
  _ ← attempt (parse_layers ecb cbc)
  pure tt

-- `key` is the confidentiality key of the keys, which must not be the null pointer.
unfoldable pub parse_wmbus :
    (Bytes → Bytes → Bytes) → (Bytes → Bytes → Bytes → Bytes) → Bytes → Bytes → Action (Unit {0})
parse_wmbus ecb cbc input key = do
  modify (λ t. record t { meter_keys = some key })
  modify (start_frame input)
  modify pre_process_telegram
  parse_dll
  parse_layers ecb cbc
  failed ← gets (λ t. t.decryption_failed)
  if failed then stop else pure tt

unfoldable pub parse_mbus_header : Bytes → Action (Unit {0})
parse_mbus_header input = do modify (start_frame input); parse_mbus_dll

unfoldable pub parse_mbus : Bytes → Bytes → Action (Unit {0})
parse_mbus input key = do
  modify (λ t. record t { meter_keys = some key })
  modify (start_frame input)
  modify pre_process_telegram
  parse_mbus_dll

unfoldable pub parse :
    (Bytes → Bytes → Bytes)
    → (Bytes → Bytes → Bytes → Bytes)
    → FrameType
    → Bytes
    → Bytes
    → Action (Unit {0})
parse ecb cbc wmbus input key = parse_wmbus ecb cbc input key
parse ecb cbc mbus input key = parse_mbus input key
parse ecb cbc han input key = stop

unfoldable pub parse_header :
    (Bytes → Bytes → Bytes)
    → (Bytes → Bytes → Bytes → Bytes)
    → FrameType
    → Bytes
    → Action (Unit {0})
parse_header ecb cbc wmbus input = parse_wmbus_header ecb cbc input
parse_header ecb cbc mbus input = parse_mbus_header input
parse_header ecb cbc han input = stop

-- `extractPayload`, where the header and the suffix are no longer than the frame
unfoldable pub extract_payload : Telegram → Bytes
extract_payload t = let f = frame t in drop t.header_size (take (length f - t.suffix_size) f)

unfoldable pub extract_mfct_data : Telegram → Bytes
extract_mfct_data t = elim t.mfct_0f_index [
  | none ↦ []
  | some i ↦ let f = frame t in drop (t.header_size + i) (take (length f - t.suffix_size) f)
]
