-- ===== src/Cipher/Runs.antt =====
-- Concrete runs, and the theorems at concrete inputs, with a block cipher and a decryption that stand
-- for those of AES.
use wmbm_16brandnew.Prelude.{
  ℕ, zero, suc, ◌+◌, ◌*◌, ◌≡◌, refl, [], ◌∷◌, ◌++◌, map, Bytes, IsByte, All, length, u8, take, drop,
  replicate, arith, length-append, length-take, All-take, All-append, concat,
}
use wmbm_16brandnew.Cipher.{increment_iv, increment_loop, decrypt_tpl_aes_cbc_iv, aes_cmac}
use wmbm_16brandnew.Cipher.Ctr.{IsBlockCipher}
use wmbm_16brandnew.Cipher.Cbc.{IsEncryptedPart, decrypt_tpl_aes_cbc_iv_lem}
use wmbm_16brandnew.Cipher.Subkeys.{xor_blocks}
use wmbm_16brandnew.Cipher.Mac.{chain, sealed_last, aes_cmac_lem}

-- Sixteen bytes that depend on the block
abbrev pub mixed : Bytes → Bytes → Bytes
mixed block key = take 16 (map (λ x. u8 (x * 5 + 3)) block ++ replicate 16 0xA5)

map-u8-IsByte : (v : Bytes) → All IsByte (map (λ x. u8 (x * 5 + 3)) v)
map-u8-IsByte [] = tt
map-u8-IsByte (x ∷ v) = (omega arith, map-u8-IsByte v)

replicate-IsByte : (n : ℕ) → All IsByte (replicate n 0xA5)
replicate-IsByte zero = tt
replicate-IsByte (suc n) = (omega arith, replicate-IsByte n)

pub mixed-IsBlockCipher : IsBlockCipher mixed
mixed-IsBlockCipher = record {
  size = λ block key. omega (
    arith,
    length-take 16 (map (λ x. u8 (x * 5 + 3)) block ++ replicate 16 0xA5),
    length-append (map (λ x. u8 (x * 5 + 3)) block) (replicate 16 0xA5),
  );
  bytes = λ block key.
      All-take IsByte 16 _
        (All-append IsByte _ (replicate 16 0xA5) (map-u8-IsByte block) (replicate-IsByte 16));
}

-- A decryption that keeps the length
abbrev pub raised : Bytes → Bytes → Bytes → Bytes
raised v key iv = map (λ x. u8 (x + 1)) v

length-raised : (v key iv : Bytes) → length (raised v key iv) ≡ length v
length-raised [] key iv = refl
length-raised (x ∷ v) key iv = omega (arith, length-raised v key iv)

abbrev header : Bytes
header = 0x2F ∷ 0x2F ∷ []

-- Two bytes of a header, a full block and three bytes more
abbrev framed : Bytes
framed = header ++ replicate 16 7 ++ 1 ∷ 2 ∷ 3 ∷ []

abbrev short_key : Bytes
short_key = replicate 16 1

increment_run : increment_iv (1 ∷ 255 ∷ 255 ∷ []) ≡ 2 ∷ 0 ∷ 0 ∷ []
unfolding increment_iv increment_loop
increment_run = refl

decrypt_tpl_aes_cbc_iv_lem_example :
    (len : ℕ) × IsEncryptedPart 1 19 len
    × (length (decrypt_tpl_aes_cbc_iv raised 1 (replicate 16 0) framed 2 short_key) ≡ 21)
    × (take 2 (decrypt_tpl_aes_cbc_iv raised 1 (replicate 16 0) framed 2 short_key) ≡ header)
    × (take len (drop 2 (decrypt_tpl_aes_cbc_iv raised 1 (replicate 16 0) framed 2 short_key))
        ≡ raised (take len (drop 2 framed)) short_key (replicate 16 0))
    × (drop (2 + len) (decrypt_tpl_aes_cbc_iv raised 1 (replicate 16 0) framed 2 short_key)
        ≡ drop (2 + len) framed)
decrypt_tpl_aes_cbc_iv_lem_example =
    decrypt_tpl_aes_cbc_iv_lem raised 1 (replicate 16 0) framed 2 short_key
      (λ v. length-raised v short_key (replicate 16 0)) refl (omega arith)

aes_cmac_lem_example :
    aes_cmac mixed short_key (concat (replicate 16 9 ∷ []) ++ 1 ∷ 2 ∷ [])
    ≡ mixed
        (xor_blocks
          (chain mixed short_key (replicate 16 0) (replicate 16 9 ∷ []))
          (sealed_last mixed short_key (1 ∷ 2 ∷ [])))
        short_key
aes_cmac_lem_example =
    aes_cmac_lem mixed mixed-IsBlockCipher short_key (replicate 16 9 ∷ []) (1 ∷ 2 ∷ []) (refl, tt)
      (omega arith) (omega arith)
