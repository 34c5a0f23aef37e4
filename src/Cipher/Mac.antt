-- ===== src/Cipher/Mac.antt =====
-- src/aescmac.cc: `AES_CMAC` against RFC 4493, which defines it on the list of the blocks.
use wmbm_16brandnew.Prelude.{
  ℕ, zero, suc, ◌+◌, ◌-◌, ◌*◌, ◌/◌, ◌%◌, ◌≤◌, ◌<◌, ◌≡◌, refl, ap, sym, ◌∙◌, inl, inr, true, false,
  List, [], ◌∷◌, ◌++◌, Bytes, All, length, if◌then◌else◌, Bool-cases, arith, replicate, get_or,
  length-append, ◌==◌, ==_iff, ltb, take_all, take-append_exact, concat, drop-append_exact,
}
use mathlib.Core.List.{append_assoc}
use wmbm_16brandnew.Frame.FormatA.{byte_at-append_first}
use wmbm_16brandnew.Cipher.Ctr.{IsBlockCipher}
use wmbm_16brandnew.Cipher.Subkeys.{xor_blocks, xorit_lem, key_one, key_two, generate_subkeys_lem}
use wmbm_16brandnew.Cipher.{pad_loop, pad, mac_loop, last_block, aes_cmac}

-- A block of 16 bytes
abbrev pub IsBlock : Bytes → Type 0
IsBlock b = length b ≡ 16

-- What is behind the bytes of a last block that is not full: a byte 0x80, and zeroes.
abbrev pub padded : Bytes → Bytes
padded b = b ++ (0x80 ∷ replicate (15 - length b) 0)

module _ (ecb : Bytes → Bytes → Bytes) (key : Bytes) where
  -- The chaining of the blocks, from the block `x` on.
  abbrev pub chain : Bytes → List Bytes → Bytes
  chain x [] = x
  chain x (b ∷ bs) = chain (ecb (xor_blocks x b) key) bs

  -- RFC 4493: the first subkey seals a last block that is full, and the second one a padded block.
  abbrev pub sealed_last : Bytes → Bytes
  sealed_last b =
      if length b == 16
      then xor_blocks b (key_one ecb key)
      else xor_blocks (padded b) (key_two ecb key)

  mac_loop-concat :
      (bs : List Bytes) (x last : Bytes)
      → All IsBlock bs
      → mac_loop ecb (length bs) key x (concat bs ++ last) ≡ (chain x bs, last)
  unfolding mac_loop
  mac_loop-concat [] x last h = refl
  mac_loop-concat (b ∷ bs) x last h =
      rw
        (
          append_assoc b (concat bs) last,
          take-append_exact 16 b (concat bs ++ last) h.0,
          drop-append_exact 16 b (concat bs ++ last) h.0,
          mac_loop,
          xorit_lem x b,
        )
        (mac_loop-concat bs (ecb (xor_blocks x b) key) last h.1)

  length-concat : (bs : List Bytes) → All IsBlock bs → length (concat bs) ≡ length bs * 16
  length-concat [] h = refl
  length-concat (b ∷ bs) h = omega (arith, length-append b (concat bs), length-concat bs h.1, h.0)

pad_loop-zeroes :
    (left i : ℕ) (input : Bytes) (len : ℕ) → len < i → pad_loop left i input len ≡ replicate left 0
unfolding pad_loop
pad_loop-zeroes zero i input len h = refl
pad_loop-zeroes (suc left) i input len h =
    let below : ltb i len ≡ false = ground arith in
    let other : (i == len) ≡ false = ground arith in
    rw (below, other, pad_loop-zeroes left (i + 1) input len (omega arith)) refl

-- From the byte `i` on, of which `b` is left.
pad_loop-padded :
    (a b input : Bytes) (left i len : ℕ)
    → length a ≡ i
    → i + length b ≡ len
    → input ≡ a ++ b
    → length b < left
    → pad_loop left i input len ≡ b ++ (0x80 ∷ replicate (left - 1 - length b) 0)
unfolding pad_loop
pad_loop-padded a b input zero i len h k e short = absurd (omega arith)
pad_loop-padded a [] input (suc left) i len h k e short =
    let below : ltb i len ≡ false = ground arith in
    let same : (i == len) ≡ true = ground arith in
    rw (below, same, pad_loop-zeroes left (i + 1) input len (omega arith))
      (ap (λ n. 0x80 ∷ replicate n 0) {x = left} {y = suc left - 1 - 0} (omega arith))
pad_loop-padded a (x ∷ b) input (suc left) i len h k e short =
    let below : ltb i len ≡ true = ground arith in
    let byte : get_or input i 0 ≡ x = rw (e, ← h) (byte_at-append_first a x b) in
    let tail =
      pad_loop-padded (a ++ x ∷ []) b input left (i + 1) len
        (omega (arith, length-append a (x ∷ []), h)) (omega arith)
        (e ∙ sym (append_assoc a (x ∷ []) b)) (omega arith) in
    let zeroes : replicate (left - 1 - length b) 0 ≡ replicate (suc left - 1 - suc (length b)) 0 =
      ap (λ n. replicate n 0) {x = left - 1 - length b} {y = suc left - 1 - suc (length b)}
        (omega arith) in
    rw (below, byte, tail) (ap (λ t. x ∷ (b ++ 0x80 ∷ t)) zeroes)

pad-padded : (b : Bytes) → length b < 16 → pad b (length b) ≡ padded b
unfolding pad
pad-padded b h = pad_loop-padded [] b b 16 0 (length b) refl (omega arith) refl h

module _ (ecb : Bytes → Bytes → Bytes) (cipher : IsBlockCipher ecb) (key : Bytes) where
  last_block-sealed_last :
      (b : Bytes)
      → 0 < length b
      → length b ≤ 16
      → last_block ecb key (length b % 16 == 0) b ≡ sealed_last ecb key b
  unfolding last_block
  last_block-sealed_last b h k =
      let keys = generate_subkeys_lem ecb key cipher in
      elim (Bool-cases (length b == 16)) [
        | inl full ↦
            let e : length b ≡ 16 = (==_iff (length b) 16).0 full in
            let multiple : (length b % 16 == 0) ≡ true = ground (arith, e) in
            rw (multiple, full, take_all 16 b k, keys) (xorit_lem b (key_one ecb key))
        | inr shorter ↦
            let small : length b < 16 = ground (arith, shorter, k) in
            let multiple : (length b % 16 == 0) ≡ false = ground (arith, small, h) in
            let rest : length b % 16 ≡ length b = omega (arith, small) in
            rw (multiple, shorter, rest, pad-padded b small, keys)
              (xorit_lem (padded b) (key_two ecb key))
      ]

  -- For every block cipher with blocks of 16 bytes, `AES_CMAC` of a message that is cut into full
  -- blocks and a last one, of 1 to 16 bytes, is the code that RFC 4493 defines: the blocks are
  -- chained from zeroes on, and the last one, with the first subkey added if it is full, and with its
  -- padding and the second one added if it is not, is chained behind them. The subkeys are the
  -- encrypted block of zeroes, doubled once and twice as a number of 128 bits, where 0x87 is added for
  -- a top bit that goes.
  pub aes_cmac_lem :
      (bs : List Bytes) (last : Bytes)
      → All IsBlock bs
      → 0 < length last
      → length last ≤ 16
      → aes_cmac ecb key (concat bs ++ last)
        ≡ ecb (xor_blocks (chain ecb key (replicate 16 0) bs) (sealed_last ecb key last)) key
  unfolding aes_cmac
  aes_cmac_lem bs last blocks h k =
      let len = length (concat bs ++ last) in
      let total : len ≡ length bs * 16 + length last =
        omega (arith, length-append (concat bs) last, length-concat ecb key bs blocks) in
      let counted : ((len + 15) / 16 == 0) ≡ false = ground (arith, total, h) in
      let rounds : (len + 15) / 16 - 1 ≡ length bs = omega (arith, total, h, k) in
      let multiple : (len % 16 == 0) ≡ (length last % 16 == 0) =
        ap (λ n. n == 0) (omega (arith, total)) in
      rw
        (
          counted,
          rounds,
          multiple,
          mac_loop-concat ecb key bs (replicate 16 0) last blocks,
          last_block-sealed_last last h k,
        )
        (ap (λ v. ecb v key) (xorit_lem _ (sealed_last ecb key last)))

  -- The empty message is one block of padding.
  pub aes_cmac-nil :
      aes_cmac ecb key [] ≡ ecb (xor_blocks (replicate 16 0) (sealed_last ecb key [])) key
  unfolding aes_cmac mac_loop last_block
  aes_cmac-nil =
      rw
        (
          pad-padded [] (omega arith),
          generate_subkeys_lem ecb key cipher,
          xorit_lem (padded []) (key_two ecb key),
        )
        (ap (λ v. ecb v key) (xorit_lem (replicate 16 0) (sealed_last ecb key [])))
