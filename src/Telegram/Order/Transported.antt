-- ===== src/Telegram/Order/Transported.antt =====
-- src/wmbus.cc: the layers for authentication and transport, and the decryption, keep what is marked
-- as parsed before the position.
use wmbm_16brandnew.Prelude.{ℕ, Bool, true, false, Option, none, some, [], ◌∷◌, Bytes}
use wmbm_16brandnew.Telegram.{Telegram, ok, faults, Action, pure, ◌>>=◌, modify, take_bytes}
use wmbm_16brandnew.Telegram.Relation.{
  After, ends, breaks, Keeps, Keeps->>=, pure-Keeps, gets-Keeps, remaining-Keeps, stop-Keeps,
  check-Keeps, peek-Keeps, when-Keeps, if-Keeps,
}
use wmbm_16brandnew.Telegram.Authentication.{
  parse_afl_control, parse_afl_key_info, parse_afl_counter, parse_afl_mac, parse_afl_fields,
  parse_afl, parse_afl_header,
}
use wmbm_16brandnew.Telegram.Transport.{
  set_config, set_blocks, derive_keys, derive_keys_from, without_key, set_generated_keys,
  parse_tpl_config_ext, parse_tpl_config, parse_short_tpl, parse_tpl_address, parse_long_tpl,
}
use wmbm_16brandnew.Telegram.Order.{
  IsAligned, StaysAligned, pre, sets, take_bytes-Keeps, take_byte-Keeps,
}
use wmbm_16brandnew.Telegram.Decryption.{
  peek_second, already_decrypted_cbc, take_check_bytes, decrypt_cbc_iv, decrypt_cbc_no_iv,
  keep_decoded, decrypt_iv_with, decrypt_real_data_with, potentially_decrypt_iv,
  potentially_decrypt_no_iv, decrypt_real_data, potentially_decrypt_diehl, decrypt_in_mode,
  potentially_decrypt,
}

-- A field is read and stored.
module _ {A : Type 0} {m : Action A} (h : Keeps StaysAligned m) where
  then_sets :
      (f : A → Telegram → Telegram)
      → ((a : A) (t : Telegram) → StaysAligned t (f a t))
      → Keeps StaysAligned (m >>= λ a. modify (f a))
  then_sets f k = Keeps->>= pre h λ a. sets (f a) (k a)

parse_afl_mac-Keeps : Keeps StaysAligned parse_afl_mac
unfolding parse_afl_mac StaysAligned IsAligned
parse_afl_mac-Keeps =
    Keeps->>= pre (gets-Keeps pre _)
      λ mcl. if-Keeps _ (stop-Keeps pre) (then_sets (take_bytes-Keeps _) _ λ _ t e. e)

parse_afl_fields-Keeps : (fc : ℕ) → Keeps StaysAligned (parse_afl_fields fc)
unfolding parse_afl_fields parse_afl_control parse_afl_key_info parse_afl_counter StaysAligned
    IsAligned
parse_afl_fields-Keeps fc =
    Keeps->>= pre (when-Keeps pre _ (then_sets take_byte-Keeps _ λ _ t e. e)) λ _.
      Keeps->>= pre (when-Keeps pre _ (then_sets (take_bytes-Keeps 2) _ λ _ t e. e)) λ _.
        Keeps->>= pre (when-Keeps pre _ (then_sets (take_bytes-Keeps 4) _ λ _ t e. e))
          λ _. when-Keeps pre _ parse_afl_mac-Keeps

pub parse_afl-Keeps : Keeps StaysAligned parse_afl
unfolding parse_afl parse_afl_header StaysAligned IsAligned
parse_afl-Keeps = Keeps->>= pre (remaining-Keeps pre) λ n. if-Keeps _ (stop-Keeps pre) (
    Keeps->>= pre (peek-Keeps pre) λ ci.
      if-Keeps _
        (Keeps->>= pre take_byte-Keeps λ _. Keeps->>= pre (sets _ λ t e. e) λ _.
          Keeps->>= pre take_byte-Keeps λ _. Keeps->>= pre (sets _ λ t e. e) λ _.
            if-Keeps _ (stop-Keeps pre) (
              Keeps->>= pre (take_bytes-Keeps 2)
                λ fc_b. Keeps->>= pre (sets _ λ t e. e) λ _. parse_afl_fields-Keeps _))
        (pure-Keeps pre tt))

without_key-Keeps : Keeps StaysAligned without_key
unfolding without_key
without_key-Keeps =
    Keeps->>= pre (gets-Keeps pre _) λ _. if-Keeps _ (pure-Keeps pre tt) (stop-Keeps pre)

derive_keys_from-Keeps :
    (ecb : Bytes → Bytes → Bytes) (keys : Option Bytes)
    → Keeps StaysAligned (derive_keys_from ecb keys)
unfolding derive_keys_from set_generated_keys StaysAligned IsAligned
derive_keys_from-Keeps ecb none = without_key-Keeps
derive_keys_from-Keeps ecb (some key) = if-Keeps _ (sets _ λ t e. e) without_key-Keeps

parse_tpl_config-Keeps : (ecb : Bytes → Bytes → Bytes) → Keeps StaysAligned (parse_tpl_config ecb)
unfolding parse_tpl_config parse_tpl_config_ext set_config set_blocks derive_keys StaysAligned
    IsAligned
parse_tpl_config-Keeps ecb = Keeps->>= pre (check-Keeps pre 2) λ _.
    Keeps->>= pre (take_bytes-Keeps 2) λ _. Keeps->>= pre (sets _ λ t e. e) λ _.
      Keeps->>= pre (gets-Keeps pre _) λ mode. Keeps->>= pre (sets _ λ t e. e) λ _.
        when-Keeps pre _ (
          Keeps->>= pre (check-Keeps pre 1) λ _. Keeps->>= pre take_byte-Keeps λ _.
            Keeps->>= pre (sets _ λ t e. e) λ _.
              when-Keeps pre _
                (Keeps->>= pre (gets-Keeps pre _) λ keys. derive_keys_from-Keeps ecb keys))

pub parse_short_tpl-Keeps : (ecb : Bytes → Bytes → Bytes) → Keeps StaysAligned (parse_short_tpl ecb)
unfolding parse_short_tpl StaysAligned IsAligned
parse_short_tpl-Keeps ecb = Keeps->>= pre (check-Keeps pre 1) λ _.
    Keeps->>= pre take_byte-Keeps λ _. Keeps->>= pre (sets _ λ t e. e) λ _.
      Keeps->>= pre (check-Keeps pre 1) λ _.
        Keeps->>= pre take_byte-Keeps
          λ _. Keeps->>= pre (sets _ λ t e. e) λ _. parse_tpl_config-Keeps ecb

pub parse_long_tpl-Keeps : (ecb : Bytes → Bytes → Bytes) → Keeps StaysAligned (parse_long_tpl ecb)
unfolding parse_long_tpl parse_tpl_address StaysAligned IsAligned
parse_long_tpl-Keeps ecb =
    Keeps->>= pre
      (Keeps->>= pre (check-Keeps pre 4) λ _. Keeps->>= pre (take_bytes-Keeps 4) λ _.
        Keeps->>= pre (sets _ λ t e. e) λ _. Keeps->>= pre (check-Keeps pre 2) λ _.
          Keeps->>= pre (take_bytes-Keeps 2) λ _. Keeps->>= pre (sets _ λ t e. e) λ _.
            Keeps->>= pre (check-Keeps pre 1) λ _. Keeps->>= pre take_byte-Keeps λ _.
              Keeps->>= pre (check-Keeps pre 1)
                λ _. Keeps->>= pre take_byte-Keeps λ _. sets _ λ t e. e)
      λ _. parse_short_tpl-Keeps ecb

peek_second_at-Keeps :
    (t : Telegram) (v : Bytes)
    → After StaysAligned t (elim v [ [] ↦ faults | _ ∷ [] ↦ faults | _ ∷ b ∷ _ ↦ ok b t ])
peek_second_at-Keeps t [] = breaks
peek_second_at-Keeps t (_ ∷ []) = breaks
peek_second_at-Keeps t (_ ∷ b ∷ v) = ends b t (pre.same t)

peek_second-Keeps : Keeps StaysAligned peek_second
unfolding peek_second
peek_second-Keeps = record { run = λ t. peek_second_at-Keeps t t.rest }

already_decrypted_cbc-Keeps : Keeps StaysAligned already_decrypted_cbc
unfolding already_decrypted_cbc
already_decrypted_cbc-Keeps = Keeps->>= pre (peek-Keeps pre) λ _.
    if-Keeps _ (pure-Keeps pre false) (
      Keeps->>= pre peek_second-Keeps λ _.
        if-Keeps _ (pure-Keeps pre false)
          (Keeps->>= pre (take_bytes-Keeps 2) λ _. pure-Keeps pre true))

take_two-Keeps : Keeps StaysAligned (take_bytes 2 >>= λ _. pure tt)
take_two-Keeps = Keeps->>= pre (take_bytes-Keeps 2) λ _. pure-Keeps pre tt

take_check_bytes-Keeps : Keeps StaysAligned take_check_bytes
unfolding take_check_bytes
take_check_bytes-Keeps =
    Keeps->>= pre (check-Keeps pre 2)
      λ _. Keeps->>= pre (gets-Keeps pre _) λ _. if-Keeps _ (stop-Keeps pre) take_two-Keeps

decrypt_iv_with-Keeps :
    (cbc : Bytes → Bytes → Bytes → Bytes) (keys : Option Bytes)
    → Keeps StaysAligned (decrypt_iv_with cbc keys)
unfolding decrypt_iv_with decrypt_cbc_iv StaysAligned IsAligned
decrypt_iv_with-Keeps cbc none = stop-Keeps pre
decrypt_iv_with-Keeps cbc (some old) = Keeps->>= pre (gets-Keeps pre _) λ key.
    Keeps->>= pre (sets _ λ t e. e) λ _. Keeps->>= pre (sets _ λ t e. e) λ _. take_check_bytes-Keeps

keep_decoded-Keeps : (result : Option (Bool × Bytes)) → Keeps StaysAligned (keep_decoded result)
unfolding keep_decoded StaysAligned IsAligned
keep_decoded-Keeps none = record { run = λ t. breaks }
keep_decoded-Keeps (some (true, f)) = sets _ λ t e. e
keep_decoded-Keeps (some (false, f)) =
    Keeps->>= pre (gets-Keeps pre _) λ _. if-Keeps _ (pure-Keeps pre tt) (stop-Keeps pre)

decrypt_real_data_with-Keeps :
    (keys : Option Bytes) → Keeps StaysAligned (decrypt_real_data_with keys)
unfolding decrypt_real_data_with decrypt_real_data
decrypt_real_data_with-Keeps none = stop-Keeps pre
decrypt_real_data_with-Keeps (some key) =
    Keeps->>= pre (gets-Keeps pre _) λ result. keep_decoded-Keeps result

potentially_decrypt_no_iv-Keeps :
    (ecb : Bytes → Bytes → Bytes) (cbc : Bytes → Bytes → Bytes → Bytes)
    → Keeps StaysAligned (potentially_decrypt_no_iv ecb cbc)
unfolding potentially_decrypt_no_iv decrypt_cbc_no_iv StaysAligned IsAligned
potentially_decrypt_no_iv-Keeps ecb cbc = Keeps->>= pre already_decrypted_cbc-Keeps λ already.
    if-Keeps already (pure-Keeps pre tt) (
      Keeps->>= pre (gets-Keeps pre _) λ skips.
        if-Keeps skips (Keeps->>= pre (check-Keeps pre 2) λ _. take_two-Keeps) (
          Keeps->>= pre (gets-Keeps pre _) λ mac_ok.
            if-Keeps _ (stop-Keeps pre)
              (Keeps->>= pre (sets _ λ t e. e) λ _. take_check_bytes-Keeps)))

potentially_decrypt_iv-Keeps :
    (cbc : Bytes → Bytes → Bytes → Bytes) → Keeps StaysAligned (potentially_decrypt_iv cbc)
unfolding potentially_decrypt_iv
potentially_decrypt_iv-Keeps cbc = Keeps->>= pre already_decrypted_cbc-Keeps λ already.
    if-Keeps already (pure-Keeps pre tt)
      (Keeps->>= pre (gets-Keeps pre _) λ keys. decrypt_iv_with-Keeps cbc keys)

potentially_decrypt_diehl-Keeps : Keeps StaysAligned potentially_decrypt_diehl
unfolding potentially_decrypt_diehl
potentially_decrypt_diehl-Keeps = Keeps->>= pre (gets-Keeps pre _) λ real.
    if-Keeps _ (pure-Keeps pre tt)
      (Keeps->>= pre (gets-Keeps pre _) λ keys. decrypt_real_data_with-Keeps keys)

pub potentially_decrypt-Keeps :
    (ecb : Bytes → Bytes → Bytes) (cbc : Bytes → Bytes → Bytes → Bytes)
    → Keeps StaysAligned (potentially_decrypt ecb cbc)
unfolding potentially_decrypt decrypt_in_mode
potentially_decrypt-Keeps ecb cbc = Keeps->>= pre (gets-Keeps pre _) λ mode.
    if-Keeps _ (potentially_decrypt_iv-Keeps cbc) (
      if-Keeps _ (potentially_decrypt_no_iv-Keeps ecb cbc)
        (if-Keeps _ potentially_decrypt_diehl-Keeps (pure-Keeps pre tt)))
