-- ===== src/Cipher.antt =====
-- src/wmbus_utils.cc: the decryption of the payload behind a header, and src/aescmac.cc: AES-CMAC,
-- with the byte vector helpers of src/util.cc that they use. AES is a parameter: `ecb block key` is
-- `AES_ECB_encrypt`, and `cbc data key iv` is `AES_CBC_decrypt_buffer`.
pub mod Words
pub mod Subkeys
pub mod Ctr
pub mod Cbc
pub mod Mac
pub mod Runs
use Prim.Native.Nat.{bit_xor}
use wmbm_16brandnew.Prelude.{
  ℕ, zero, suc, ◌+◌, ◌-◌, ◌*◌, ◌/◌, ◌%◌, Bool, true, false, not, ◌&&◌, List, [], ◌∷◌, ◌++◌, Bytes,
  get_or, take, drop, replicate, length, ltb, leb, ◌==◌, if◌then◌else◌, u8, bit_set,
}
use wmbm_16brandnew.Text.{is_empty}

-- `xorit`: `dest[i] = srca[i]^srcb[i]`, as far as both go.
unfoldable pub xorit : Bytes → Bytes → Bytes
xorit [] srcb = []
xorit (a ∷ srca) [] = []
xorit (a ∷ srca) (b ∷ srcb) = bit_xor a b ∷ xorit srca srcb

-- `shiftLeft`, from the last byte to the first one: what overflows, and the shifted bytes.
unfoldable pub shift_loop : Bytes → ℕ × Bytes
shift_loop [] = (0, [])
shift_loop (a ∷ src) =
    let (overflow, rest) = shift_loop src in (a / 128 % 2, (u8 (a * 2) + overflow) ∷ rest)

unfoldable pub shift_left : Bytes → Bytes
shift_left src = (shift_loop src).1

-- `incrementIV`, from the last byte to the first one: whether it moves on to the left, and the bytes.
unfoldable pub increment_loop : Bytes → Bool × Bytes
increment_loop [] = (true, [])
increment_loop (p ∷ iv) =
    let (moves, rest) = increment_loop iv in
    if moves then (not (leb (p + 1) 255), (u8 (p + 1)) ∷ rest) else (false, p ∷ rest)

unfoldable pub increment_iv : Bytes → Bytes
increment_iv iv = (increment_loop iv).1

-- The initial vector of the extended link layer: the manufacturer, the address, the communication
-- control, the session number, and three zeroes.
unfoldable pub ctr_iv : Bytes → Bytes → ℕ → Bytes → Bytes
ctr_iv mfct_b a cc sn_b = mfct_b ++ (a ++ (cc ∷ (sn_b ++ 0 ∷ 0 ∷ 0 ∷ [])))

-- The initial vector of the transport layer: the manufacturer, the address and eight times the
-- access number.
unfoldable pub cbc_iv : Bytes → Bytes → ℕ → Bytes
cbc_iv mfct_b a acc = mfct_b ++ (a ++ replicate 8 acc)

-- How many bytes `decrypt_TPL_AES_CBC_IV` decrypts, of `size` bytes.
unfoldable pub cbc_len : ℕ → ℕ → ℕ
cbc_len num_encr_blocks size =
    let wanted = if num_encr_blocks == 0 then size else num_encr_blocks * 16 in
    let len = if ltb size wanted then size else wanted in len - len % 16

abbrev pub vec87 : Bytes
vec87 = replicate 15 0 ++ 0x87 ∷ []

-- Half of `generateSubkeys`: a shift, and an exclusive or where the top bit was set.
unfoldable pub subkey : Bytes → Bytes
subkey l = if bit_set (get_or l 0 0) 7 then xorit (shift_left l) vec87 else shift_left l

-- The loop of `pad`, at index `i` with `left` bytes to write.
unfoldable pub pad_loop : ℕ → ℕ → Bytes → ℕ → Bytes
pad_loop zero i input len = []
pad_loop (suc left) i input len =
    (if ltb i len then get_or input i 0 else if i == len then 0x80 else 0x00)
    ∷ pad_loop left (i + 1) input len

unfoldable pub pad : Bytes → ℕ → Bytes
pad input len = pad_loop 16 0 input len

module _ (ecb : Bytes → Bytes → Bytes) where
  -- The loop over the blocks, of which the last one can be shorter. A round takes 16 bytes.
  unfoldable pub ctr_loop : ℕ → Bytes → Bytes → Bytes → Bytes
  ctr_loop zero iv key encrypted = []
  ctr_loop (suc fuel) iv key encrypted =
      let rest = ctr_loop fuel (increment_iv iv) key (drop 16 encrypted) in
      if is_empty encrypted then [] else xorit (ecb iv key) (take 16 encrypted) ++ rest

  -- `decrypt_ELL_AES_CTR`: the frame behind `pos` is replaced, unless there is no key.
  unfoldable pub decrypt_ell_aes_ctr : Bytes → Bytes → ℕ → Bytes → Bytes
  decrypt_ell_aes_ctr iv frame pos key =
      let encrypted = drop pos frame in
      if is_empty key then frame else take pos frame ++ ctr_loop (length encrypted) iv key encrypted

  unfoldable pub generate_subkeys : Bytes → Bytes × Bytes
  generate_subkeys key = let k1 = subkey (ecb (replicate 16 0) key) in (k1, subkey k1)

  -- The loop over all blocks but the last one: the chained block, and the last block.
  unfoldable pub mac_loop : ℕ → Bytes → Bytes → Bytes → Bytes × Bytes
  mac_loop zero key x input = (x, input)
  mac_loop (suc blocks) key x input =
      mac_loop blocks key (ecb (xorit x (take 16 input)) key) (drop 16 input)

  -- `M_last`, of what the last block holds.
  unfoldable pub last_block : Bytes → Bool → Bytes → Bytes
  last_block key is_multiple input =
      let (k1, k2) = generate_subkeys key in
      if is_multiple then xorit (take 16 input) k1 else xorit (pad input (length input % 16)) k2

  unfoldable pub aes_cmac : Bytes → Bytes → Bytes
  aes_cmac key input =
      let len = length input in
      let counted = (len + 15) / 16 in
      let num_blocks = if counted == 0 then 1 else counted in
      let is_multiple = if counted == 0 then false else len % 16 == 0 in
      let (x, last) = mac_loop (num_blocks - 1) key (replicate 16 0) input in
      ecb (xorit x (last_block key is_multiple last)) key

module _ (cbc : Bytes → Bytes → Bytes → Bytes) where
  unfoldable pub decrypt_tpl_aes_cbc_iv : ℕ → Bytes → Bytes → ℕ → Bytes → Bytes
  decrypt_tpl_aes_cbc_iv num_encr_blocks iv frame pos key =
      let buffer = drop pos frame in
      let len = cbc_len num_encr_blocks (length buffer) in
      if is_empty key
      then frame
      else take pos frame ++ (cbc (take len buffer) key iv ++ drop len buffer)

  -- All bytes are decrypted here, whatever the number of encrypted blocks, and those behind the
  -- encrypted blocks are appended once more.
  unfoldable pub decrypt_tpl_aes_cbc_no_iv : ℕ → Bytes → ℕ → Bytes → Bytes
  decrypt_tpl_aes_cbc_no_iv num_encr_blocks frame pos key =
      let buffer = drop pos frame in
      let len = cbc_len num_encr_blocks (length buffer) in
      if is_empty key
      then frame
      else take pos frame ++ (cbc buffer key (replicate 16 0) ++ drop len buffer)
