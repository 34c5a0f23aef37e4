-- ===== src/Telegram/Mac.antt =====
-- src/wmbus.cc: `checkMAC` compares the codes, although it compares their text.
use wmbm_16brandnew.Prelude.{
  ◌<◌, Bool, true, false, not, [], ◌∷◌, ◌++◌, Bytes, IsByte, All, All-take, take, length, ◌==◌,
  if◌then◌else◌, ◌≡◌, refl, sym, ap, ◌∙◌, arith, ==_iff, ◌↔◌,
}
use wmbm_16brandnew.Text.{equal, is_empty}
use wmbm_16brandnew.Text.Equal.{equal_iff}
use wmbm_16brandnew.Hex.{bin2hex, hex_byte, hex2bin_chars}
use wmbm_16brandnew.Hex.RoundTrip.{hex2bin_chars-bin2hex}
use wmbm_16brandnew.Cipher.{aes_cmac}
use wmbm_16brandnew.Cipher.Ctr.{IsBlockCipher}
use wmbm_16brandnew.Telegram.Authentication.{check_mac}
use wmbm_16brandnew.Telegram.{Afl}

take-bin2hex : (n v : Bytes) → take (length (bin2hex n)) (bin2hex v) ≡ bin2hex (take (length n) v)
unfolding bin2hex hex_byte
take-bin2hex [] v = refl
take-bin2hex (b ∷ n) [] = refl
take-bin2hex (b ∷ n) (c ∷ v) = ap (λ w. hex_byte c ++ w) (take-bin2hex n v)

bin2hex-injective : (v w : Bytes) → All IsByte v → All IsByte w → bin2hex v ≡ bin2hex w → v ≡ w
bin2hex-injective v w hv hw e =
    ap (λ r. r.1)
      (sym (hex2bin_chars-bin2hex v [] hv)
        ∙ ap (λ t. hex2bin_chars t []) e
        ∙ hex2bin_chars-bin2hex w [] hw)

aes_cmac-IsByte :
    (ecb : Bytes → Bytes → Bytes)
    → IsBlockCipher ecb
    → (key input : Bytes) → All IsByte (aes_cmac ecb key input)
unfolding aes_cmac
aes_cmac-IsByte ecb cipher key input = cipher.bytes _ key

not_empty : (v : Bytes) → (is_empty v ≡ false) ↔ (0 < length v)
not_empty [] = ((λ h. cc), λ h. absurd (omega (arith, h)))
not_empty (b ∷ v) = ((λ h. omega arith), λ h. refl)

-- The two tests in front of the comparison
guarded :
    (a b c : Bool)
    → ((if not a then false else if b then false else c) ≡ true)
      ↔ ((a ≡ true) × (b ≡ false) × (c ≡ true))
guarded a b c = ground arith

-- The authentication code of a message is accepted exactly if the key has 16 bytes, a code was
-- received, and it is the front part of the AES-CMAC of the message control, the counter and the
-- message, for every block cipher with blocks of 16 bytes and every received code of bytes.
pub check_mac_lem :
    (ecb : Bytes → Bytes → Bytes) (a : Afl) (message inmac mackey : Bytes)
    → IsBlockCipher ecb
    → All IsByte inmac
    → let calculated = aes_cmac ecb mackey (a.mcl ∷ (a.counter_b ++ message)) in
      (check_mac ecb a message inmac mackey ≡ true)
      ↔ ((length mackey ≡ 16) × (0 < length inmac) × (take (length inmac) calculated ≡ inmac))
unfolding check_mac
check_mac_lem ecb a message inmac mackey cipher bytes =
    let calculated = aes_cmac ecb mackey (a.mcl ∷ (a.counter_b ++ message)) in
    let front = All-take IsByte (length inmac) calculated (aes_cmac-IsByte ecb cipher mackey _) in
    let (opens, closes) =
      guarded (length mackey == 16) (is_empty inmac)
        (equal (take (length (bin2hex inmac)) (bin2hex calculated)) (bin2hex inmac)) in
    let texts = take-bin2hex inmac calculated in
    (
      (λ h.
          let (size, received, same) = opens h in
          let text = (equal_iff _ _).0 same in
          (
            (==_iff (length mackey) 16).0 size,
            (not_empty inmac).0 received,
            bin2hex-injective _ inmac front bytes (sym texts ∙ text),
          )),
      (λ (size, received, same). closes (
        (==_iff (length mackey) 16).1 size,
        (not_empty inmac).1 received,
        (equal_iff _ _).1 (texts ∙ ap bin2hex same),
      )),
    )
