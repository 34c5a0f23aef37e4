-- ===== src/Telegram/Order.antt =====
-- src/wmbus.cc: what is marked as parsed is the front of the frame, up to the position.
pub mod Transported
pub mod Final
use wmbm_16brandnew.Prelude.{
  ℕ, zero, suc, ◌+◌, ◌-◌, ◌*◌, ◌/◌, ◌%◌, ◌≤◌, ◌<◌, Bool, true, false, not, ◌||◌, Option, none, some,
  List, [], ◌∷◌, ◌++◌, Bytes, get_or, drop, take, length, ltb, ◌==◌, if◌then◌else◌, ◌≡◌, refl, sym,
  ap, ◌∙◌, arith, inl, inr, ◌⊎◌, Bool-cases,
}
use wmbm_16brandnew.Telegram.Modes.{
  TplSecurityMode, EllSecurityMode, ell_aes_ctr, ell_no_security, ell_reserved, mac_length,
  aes_cbc_iv, aes_cbc_no_iv, specific_16_31, is_ci_field_of_type,
}
use wmbm_16brandnew.Telegram
use wmbm_16brandnew.Telegram.{
  Telegram, frame, Outcome, ok, stops, faults, Action, pure, stop, undefined, ◌>>=◌, ◌>>◌, gets,
  modify, check, peek, take_byte, take_bytes, remaining,
}
use wmbm_16brandnew.Telegram.Relation.{
  After, ends, quits, breaks, Keeps, Composes, IsPreorder, Keeps-both, Keeps->>=, pure-Keeps,
  gets-Keeps, remaining-Keeps, stop-Keeps, check-Keeps, peek-Keeps, when-Keeps, if-Keeps,
  modify-Keeps, attempt-Keeps,
}
use wmbm_16brandnew.Telegram.DataLink.{take_length, set_dll, parse_dll}
use wmbm_16brandnew.Telegram.ExtendedLink.{
  parse_ell_target, parse_ell_session, parse_ell_fields, parse_ell_header, parse_ell, decrypt_ell,
  decrypt_ell_in, set_session_number, set_payload_crc, parse_nwl,
}
use wmbm_16brandnew.Telegram.Authentication.{
  when, parse_afl_control, parse_afl_key_info, parse_afl_counter, parse_afl_mac, parse_afl_fields,
  parse_afl, parse_afl_header,
}
use wmbm_16brandnew.Telegram.Transport.{
  set_config, set_blocks, derive_keys, parse_tpl_config_ext, parse_tpl_config, parse_short_tpl,
  parse_tpl_address, parse_long_tpl,
}

-- What is marked as parsed is what is before the position.
pub IsAligned : Telegram → Type 0
IsAligned t = t.parsed ≡ t.before

pub StaysAligned : Telegram → Telegram → Type 0
StaysAligned t t' = IsAligned t → IsAligned t'

pub pre : IsPreorder StaysAligned
unfolding StaysAligned
pre = record { same = λ t e. e; trans = λ t t' t'' h k e. k (h e) }

-- Only other fields change.
pub sets :
    (f : Telegram → Telegram)
    → ((t : Telegram) → StaysAligned t (f t))
    → Keeps StaysAligned (modify f)
sets f h = modify-Keeps pre f h

pub take_bytes-Keeps : (n : ℕ) → Keeps StaysAligned (take_bytes n)
unfolding take_bytes StaysAligned IsAligned
take_bytes-Keeps n = record {
  run = λ t. elim (Bool-cases (ltb (length t.rest) n)) [
    | inl short ↦ rw short breaks
    | inr long ↦ rw long (ends _ _ λ e. ap (λ v. v ++ take n t.rest) e)
  ];
}

pub take_byte-Keeps : Keeps StaysAligned take_byte
unfolding take_byte
take_byte-Keeps = Keeps->>= pre (take_bytes-Keeps 1) (λ b. pure-Keeps pre (get_or b 0 0))

take_length-Keeps : Keeps StaysAligned take_length
unfolding take_length
take_length-Keeps = Keeps->>= pre (remaining-Keeps pre) λ n.
    if-Keeps (n == 0) (stop-Keeps pre)
      (Keeps->>= pre (peek-Keeps pre) λ len. if-Keeps (ltb n len) (stop-Keeps pre) take_byte-Keeps)

pub parse_dll-Keeps : Keeps StaysAligned parse_dll
unfolding parse_dll set_dll StaysAligned IsAligned
parse_dll-Keeps = Keeps->>= pre take_length-Keeps λ _. Keeps->>= pre take_byte-Keeps λ _.
    Keeps->>= pre (take_bytes-Keeps 2) λ _.
      Keeps->>= pre (take_bytes-Keeps 4)
        λ _. Keeps->>= pre take_byte-Keeps λ _. Keeps->>= pre take_byte-Keeps λ _. sets _ λ t e. e

parse_ell_target-Keeps : Keeps StaysAligned parse_ell_target
unfolding parse_ell_target StaysAligned IsAligned
parse_ell_target-Keeps = Keeps->>= pre (take_bytes-Keeps 2) λ _.
    Keeps->>= pre (sets _ λ t e. e) λ _. Keeps->>= pre (take_bytes-Keeps 4) λ _.
      Keeps->>= pre (sets _ λ t e. e)
        λ _. Keeps->>= pre take_byte-Keeps λ _. Keeps->>= pre take_byte-Keeps λ _. sets _ λ t e. e

decrypt_ell_in-StaysAligned :
    (ecb : Bytes → Bytes → Bytes) (mode : EllSecurityMode) (keys : Option Bytes) (t : Telegram)
    → StaysAligned t (decrypt_ell_in ecb mode keys t)
unfolding decrypt_ell_in StaysAligned IsAligned
decrypt_ell_in-StaysAligned ecb ell_aes_ctr (some key) t e = e
decrypt_ell_in-StaysAligned ecb ell_aes_ctr none t e = e
decrypt_ell_in-StaysAligned ecb ell_no_security keys t e = e
decrypt_ell_in-StaysAligned ecb ell_reserved keys t e = e

parse_ell_session-Keeps : (ecb : Bytes → Bytes → Bytes) → Keeps StaysAligned (parse_ell_session ecb)
unfolding parse_ell_session set_session_number decrypt_ell set_payload_crc StaysAligned IsAligned
parse_ell_session-Keeps ecb = Keeps->>= pre (take_bytes-Keeps 4) λ _.
    Keeps->>= pre (sets _ λ t e. e) λ _.
      Keeps->>= pre (sets _ λ t. decrypt_ell_in-StaysAligned ecb t.ell.sec_mode t.meter_keys t)
        λ _. Keeps->>= pre (take_bytes-Keeps 2) λ _. sets _ λ t e. e

parse_ell_fields-Keeps :
    (ecb : Bytes → Bytes → Bytes) (ci : ℕ) → Keeps StaysAligned (parse_ell_fields ecb ci)
unfolding parse_ell_fields
parse_ell_fields-Keeps ecb ci = if-Keeps (ci == 0x8D) (parse_ell_session-Keeps ecb) (
    if-Keeps (ci == 0x8E) parse_ell_target-Keeps (
      if-Keeps (ci == 0x8F) (Keeps->>= pre parse_ell_target-Keeps λ _. parse_ell_session-Keeps ecb)
        (if-Keeps (ci == 0x86) (stop-Keeps pre) (pure-Keeps pre tt))))

pub parse_ell-Keeps : (ecb : Bytes → Bytes → Bytes) → Keeps StaysAligned (parse_ell ecb)
unfolding parse_ell parse_ell_header StaysAligned IsAligned
parse_ell-Keeps ecb = Keeps->>= pre (remaining-Keeps pre) λ n. if-Keeps (n == 0) (stop-Keeps pre) (
    Keeps->>= pre (peek-Keeps pre) λ ci.
      if-Keeps (is_ci_field_of_type ci _)
        (Keeps->>= pre take_byte-Keeps λ _. Keeps->>= pre (sets _ λ t e. e) λ _.
          if-Keeps _ (stop-Keeps pre) (
            Keeps->>= pre take_byte-Keeps λ _. Keeps->>= pre (sets _ λ t e. e) λ _.
              Keeps->>= pre take_byte-Keeps
                λ _. Keeps->>= pre (sets _ λ t e. e) λ _. parse_ell_fields-Keeps ecb ci))
        (pure-Keeps pre tt))
