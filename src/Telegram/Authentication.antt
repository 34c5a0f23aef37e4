-- ===== src/Telegram/Authentication.antt =====
-- src/wmbus.cc: `parseAFL`, and `checkMAC`. `ecb` is `AES_ECB_encrypt`.
use wmbm_16brandnew.Prelude.{
  ℕ, ◌%◌, Bool, true, false, not, ◌∷◌, ◌++◌, Bytes, take, length, ◌==◌, if◌then◌else◌, bit_set,
}
use wmbm_16brandnew.Text.{equal, is_empty}
use wmbm_16brandnew.Hex.{bin2hex}
use wmbm_16brandnew.Cipher.{aes_cmac}
use wmbm_16brandnew.Telegram.Modes.{afl, is_ci_field_of_type, mac_length}
use wmbm_16brandnew.Telegram.ExtendedLink.{too_short}
use wmbm_16brandnew.Telegram.{
  Afl, ok, Action, pure, stop, ◌>>=◌, ◌>>◌, gets, modify, remaining, peek, take_bytes, take_byte,
  word, long_word,
}

abbrev pub when : Bool → Action (Unit {0}) → Action (Unit {0})
when b m t = if b then m t else ok tt t

unfoldable pub parse_afl_control : Action (Unit {0})
parse_afl_control = do mcl ← take_byte; modify (λ t. record t { afl = record t.afl { mcl = mcl } })

unfoldable pub parse_afl_key_info : Action (Unit {0})
parse_afl_key_info = do
  ki_b ← take_bytes 2
  modify (λ t. record t { afl = record t.afl { ki_b = ki_b; ki = word ki_b } })

unfoldable pub parse_afl_counter : Action (Unit {0})
parse_afl_counter = do
  counter_b ← take_bytes 4
  modify (λ t. record t {
    afl = record t.afl { counter_b = counter_b; counter = long_word counter_b };
  })

-- The length of the code is that of the last kind of authentication that was read.
unfoldable pub parse_afl_mac : Action (Unit {0})
parse_afl_mac = do
  mcl ← gets (λ t. t.afl.mcl)
  let len = mac_length (mcl % 16)
  if len == 0 then stop else do
    mac_b ← take_bytes len
    modify (λ t. record t { afl = record t.afl { mac_b = mac_b; must_check_mac = true } })

-- The fields behind the fragmentation control
unfoldable pub parse_afl_fields : ℕ → Action (Unit {0})
parse_afl_fields fc = do
  when (bit_set fc 13) parse_afl_control
  when (bit_set fc 9) parse_afl_key_info
  when (bit_set fc 11) parse_afl_counter
  when (bit_set fc 10) parse_afl_mac

-- The part behind the test of the CI field; `short` is the test of the length.
unfoldable pub parse_afl_header : ℕ → Bool → Action (Unit {0})
parse_afl_header ci short = do
  _ ← take_byte
  modify (λ t. record t { afl = record t.afl { ci = ci } })
  len ← take_byte
  modify (λ t. record t { afl = record t.afl { len = len } })
  if short then stop else do
    fc_b ← take_bytes 2
    modify (λ t. record t { afl = record t.afl { fc_b = fc_b; fc = word fc_b } })
    parse_afl_fields (word fc_b)

unfoldable pub parse_afl : Action (Unit {0})
parse_afl = do
  n ← remaining
  if n == 0 then stop else do
    ci ← peek
    if is_ci_field_of_type ci afl then parse_afl_header ci (too_short n ci 0) else pure tt

-- `checkMAC`, of the bytes from `tpl_start` to the end of the frame
unfoldable pub check_mac : (Bytes → Bytes → Bytes) → Afl → Bytes → Bytes → Bytes → Bool
check_mac ecb a message inmac mackey =
    let calculated = bin2hex (aes_cmac ecb mackey (a.mcl ∷ (a.counter_b ++ message))) in
    let received = bin2hex inmac in
    if not (length mackey == 16)
    then false
    else if is_empty inmac
    then false
    else equal (take (length received) calculated) received
