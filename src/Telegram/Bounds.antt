-- ===== src/Telegram/Bounds.antt =====
-- src/wmbus.cc: the lengths that `parseDLL`, `parseELL` and `parseAFL` check, and what they read.
use wmbm_16brandnew.Prelude.{
  ℕ, suc, ◌+◌, ◌%◌, ◌≤◌, ◌<◌, Bool, true, false, Option, none, some, [], ◌∷◌, Bytes, get_or, length,
  ◌==◌, if◌then◌else◌, ◌≡◌, refl, ap, ◌∙◌, ◌≢◌, arith, inl, inr, ◌⊎◌, Bool-cases,
}
use wmbm_16brandnew.Cipher.Ctr.{IsBlockCipher, length-decrypt_ell_aes_ctr}
use wmbm_16brandnew.Telegram.Modes.{
  mac_length, ell, afl, ci_type_of, same_ci_type, is_ci_field_of_type, ci_field_length,
  EllSecurityMode, ell_aes_ctr, ell_no_security, ell_reserved,
}
use wmbm_16brandnew.Telegram.{Telegram, ok, stops, faults, Action, ◌>>=◌, peek}
use wmbm_16brandnew.Telegram.Safety.{
  Needs, Needs-weaken, Needs->>=, take_bytes-Needs, take_byte-Needs, modify-Needs, pure-Needs,
  gets-Needs, stop-Needs, when-Needs, no_fault,
}
use wmbm_16brandnew.Telegram.ExtendedLink.{
  parse_ell_target, parse_ell_session, parse_ell_fields, decrypt_ell, decrypt_ell_in,
  set_session_number, set_payload_crc, too_short, parse_ell, parse_ell_header,
}
use wmbm_16brandnew.Telegram.Authentication.{
  parse_afl_control, parse_afl_key_info, parse_afl_counter, parse_afl_mac, parse_afl_fields,
  parse_afl, parse_afl_header,
}

parse_ell_target-Needs : Needs 8 parse_ell_target
unfolding parse_ell_target
parse_ell_target-Needs = Needs->>= (take_bytes-Needs 2) λ _.
    Needs->>= (modify-Needs _ λ t. refl) λ _. Needs->>= (take_bytes-Needs 4) λ _.
      Needs->>= (modify-Needs _ λ t. refl)
        λ _. Needs->>= take_byte-Needs λ _. Needs->>= take_byte-Needs λ _. modify-Needs _ λ t. refl

length-decrypt_ell_in :
    (ecb : Bytes → Bytes → Bytes) (mode : EllSecurityMode) (keys : Option Bytes) (t : Telegram)
    → IsBlockCipher ecb
    → length (decrypt_ell_in ecb mode keys t).rest ≡ length t.rest
unfolding decrypt_ell_in
length-decrypt_ell_in ecb ell_aes_ctr (some key) t cipher =
    length-decrypt_ell_aes_ctr ecb cipher key _ t.before t.rest
length-decrypt_ell_in ecb ell_aes_ctr none t cipher = refl
length-decrypt_ell_in ecb ell_no_security keys t cipher = refl
length-decrypt_ell_in ecb ell_reserved keys t cipher = refl

parse_ell_session-Needs :
    (ecb : Bytes → Bytes → Bytes) → IsBlockCipher ecb → Needs 6 (parse_ell_session ecb)
unfolding parse_ell_session decrypt_ell set_session_number set_payload_crc
parse_ell_session-Needs ecb cipher = Needs->>= (take_bytes-Needs 4) λ _.
    Needs->>= (modify-Needs _ λ t. refl) λ _.
      Needs->>= (modify-Needs _ λ t. length-decrypt_ell_in ecb t.ell.sec_mode t.meter_keys t cipher)
        λ _. Needs->>= (take_bytes-Needs 2) λ _. modify-Needs _ λ t. refl

mac_length_bound : (i : ℕ) → mac_length i ≤ 16
unfolding mac_length
mac_length_bound i = ground arith

parse_afl_mac-Needs : Needs 16 parse_afl_mac
unfolding parse_afl_mac
parse_afl_mac-Needs = Needs->>= {k = 16} (gets-Needs _) λ mcl.
    elim (Bool-cases (mac_length (mcl % 16) == 0)) [
      | inl none_ ↦ rw none_ (Needs-weaken (omega arith) stop-Needs)
      | inr some_ ↦ rw some_ (
          Needs-weaken (omega (arith, mac_length_bound (mcl % 16)))
            (Needs->>= (take_bytes-Needs _) λ _. modify-Needs _ λ t. refl))
    ]

parse_afl_fields-Needs : (fc : ℕ) → Needs 23 (parse_afl_fields fc)
unfolding parse_afl_fields parse_afl_control parse_afl_counter parse_afl_key_info
parse_afl_fields-Needs fc =
    Needs->>= (when-Needs _ 1 (Needs->>= take_byte-Needs λ _. modify-Needs _ λ t. refl)) λ _.
      Needs->>= (when-Needs _ 2 (Needs->>= (take_bytes-Needs 2) λ _. modify-Needs _ λ t. refl)) λ _.
        Needs->>= (when-Needs _ 4 (Needs->>= (take_bytes-Needs 4) λ _. modify-Needs _ λ t. refl))
          λ _. when-Needs _ 16 parse_afl_mac-Needs

parse_afl_header-Needs : (ci : ℕ) (short : Bool) → Needs 27 (parse_afl_header ci short)
unfolding parse_afl_header
parse_afl_header-Needs ci true = Needs->>= take_byte-Needs λ _.
    Needs->>= (modify-Needs _ λ t. refl) λ _.
      Needs->>= take_byte-Needs λ _.
        Needs->>= {k = 25} (modify-Needs _ λ t. refl) λ _. Needs-weaken (omega arith) stop-Needs
parse_afl_header-Needs ci false = Needs->>= take_byte-Needs λ _.
    Needs->>= (modify-Needs _ λ t. refl) λ _. Needs->>= take_byte-Needs λ _.
      Needs->>= (modify-Needs _ λ t. refl) λ _.
        Needs->>= (take_bytes-Needs 2)
          λ _. Needs->>= (modify-Needs _ λ t. refl) λ _. parse_afl_fields-Needs _

parse_ell_header-Needs :
    (ecb : Bytes → Bytes → Bytes) (ci n : ℕ)
    → Needs n (parse_ell_fields ecb ci)
    → Needs (3 + n) (parse_ell_header ecb ci false)
unfolding parse_ell_header
parse_ell_header-Needs ecb ci n h =
    Needs-weaken {n = 1 + (0 + (1 + (0 + (1 + (0 + n)))))} (omega arith) (
      Needs->>= take_byte-Needs λ _. Needs->>= (modify-Needs _ λ t. refl) λ _.
        Needs->>= take_byte-Needs λ _.
          Needs->>= (modify-Needs _ λ t. refl)
            λ _. Needs->>= take_byte-Needs λ _. Needs->>= (modify-Needs _ λ t. refl) λ _. h)

parse_ell_header_short-Needs :
    (ecb : Bytes → Bytes → Bytes) (ci : ℕ) → Needs 1 (parse_ell_header ecb ci true)
unfolding parse_ell_header
parse_ell_header_short-Needs ecb ci =
    Needs->>= take_byte-Needs λ _. Needs->>= (modify-Needs _ λ t. refl) λ _. stop-Needs

-- The values of the CI field that begin an extended link layer
rest_cases : (v : Bytes) → (v ≡ []) ⊎ ((b : ℕ) × (w : Bytes) × (v ≡ b ∷ w))
rest_cases [] = inl refl
rest_cases (b ∷ w) = inr (b, w, refl)

nonzero : (n : ℕ) → (suc n == 0) ≡ false
nonzero n = ground arith

if_action :
    {A : Type 0} (b : Bool) (m n : Action A) (t : Telegram)
    → (if b then m else n) t ≡ (if b then m t else n t)
if_action true m n t = refl
if_action false m n t = refl

ell_ci_cases :
    (ci : ℕ)
    → is_ci_field_of_type ci ell ≡ true
    → ci ≢ 0x86
    → (ci ≡ 0x8C) ⊎ ((ci ≡ 0x8D) ⊎ ((ci ≡ 0x8E) ⊎ (ci ≡ 0x8F)))
unfolding is_ci_field_of_type ci_type_of same_ci_type
ell_ci_cases ci e ne = ground arith

-- A header whose length passed the test needs no more than what is left.
ell_header_checked :
    (ecb : Bytes → Bytes → Bytes) (ci n : ℕ)
    → Needs n (parse_ell_fields ecb ci)
    → (t : Telegram) → 0 < length t.rest
    → (too_short (length t.rest) ci 1 ≡ false → 3 + n ≤ length t.rest)
    → parse_ell_header ecb ci (too_short (length t.rest) ci 1) t ≢ faults
ell_header_checked ecb ci n h t lt le = elim (Bool-cases (too_short (length t.rest) ci 1)) [
  | inl short ↦ rw short (no_fault ((parse_ell_header_short-Needs ecb ci).run t (omega arith)))
  | inr long ↦ rw long (no_fault ((parse_ell_header-Needs ecb ci n h).run t (le long)))
]

parse_ell_header_safe :
    (ecb : Bytes → Bytes → Bytes) (ci : ℕ)
    → IsBlockCipher ecb
    → is_ci_field_of_type ci ell ≡ true
    → ci ≢ 0x86
    → (t : Telegram) → 0 < length t.rest
    → parse_ell_header ecb ci (too_short (length t.rest) ci 1) t ≢ faults
unfolding parse_ell_fields too_short ci_field_length
parse_ell_header_safe ecb ci cipher e ne t lt = elim (ell_ci_cases ci e ne) [
  | inl q ↦ rw q (ell_header_checked ecb 0x8C 0 (pure-Needs tt) t lt (λ h. ground (arith, h)))
  | inr (inl q) ↦ rw q (
      ell_header_checked ecb 0x8D 6 (parse_ell_session-Needs ecb cipher) t lt
        (λ h. ground (arith, h)))
  | inr (inr (inl q)) ↦
      rw q (ell_header_checked ecb 0x8E 8 parse_ell_target-Needs t lt (λ h. ground (arith, h)))
  | inr (inr (inr q)) ↦ rw q (
      ell_header_checked ecb 0x8F 14
        (Needs->>= parse_ell_target-Needs λ _. parse_ell_session-Needs ecb cipher) t lt
        (λ h. ground (arith, h)))
]

pub parse_ell_step :
    (ecb : Bytes → Bytes → Bytes) (t : Telegram) (ci : ℕ) (v : Bytes)
    → t.rest ≡ ci ∷ v
    → parse_ell ecb t ≡ (
        if is_ci_field_of_type ci ell
        then parse_ell_header ecb ci (too_short (length t.rest) ci 1) t
        else ok tt t)
unfolding parse_ell peek ◌>>=◌
parse_ell_step ecb t ci v e =
    rw (e, nonzero (length v)) (if_action (is_ci_field_of_type ci ell) _ _ _)

parse_ell_nil :
    (ecb : Bytes → Bytes → Bytes) (t : Telegram) → t.rest ≡ [] → parse_ell ecb t ≡ stops t
unfolding parse_ell peek ◌>>=◌
parse_ell_nil ecb t e = rw e refl

-- The parser of the extended link layer does not read past the end of the frame, except for the CI
-- field 0x86: the length that it checks is enough for all that it reads, on every frame, with or
-- without keys, for every block cipher with blocks of 16 bytes.
pub parse_ell_safe :
    (ecb : Bytes → Bytes → Bytes) (t : Telegram)
    → IsBlockCipher ecb
    → get_or t.rest 0 0 ≢ 0x86
    → parse_ell ecb t ≢ faults
parse_ell_safe ecb t cipher ne = elim (rest_cases t.rest) [
  | inl none_left ↦ rw (parse_ell_nil ecb t none_left) (λ q. cc)
  | inr (ci, v, e) ↦ elim (Bool-cases (is_ci_field_of_type ci ell)) [
    | inl is_ell ↦
        rw (parse_ell_step ecb t ci v e, is_ell)
          (parse_ell_header_safe ecb ci cipher is_ell (λ q. ne (ap (λ w. get_or w 0 0) e ∙ q)) t
            (rw e (omega arith)))
    | inr other ↦ rw (parse_ell_step ecb t ci v e, other) (λ q. cc)
  ]
]

parse_afl_step :
    (t : Telegram) (ci : ℕ) (v : Bytes)
    → t.rest ≡ ci ∷ v
    → parse_afl t ≡ (
        if is_ci_field_of_type ci afl
        then parse_afl_header ci (too_short (length t.rest) ci 0) t
        else ok tt t)
unfolding parse_afl peek ◌>>=◌
parse_afl_step t ci v e = rw (e, nonzero (length v)) (if_action (is_ci_field_of_type ci afl) _ _ _)

-- The parser of the layer for authentication does not read past the end of the frame where 27 bytes
-- are left: those of all fields, with the longest code.
pub parse_afl_safe : (t : Telegram) → 27 ≤ length t.rest → parse_afl t ≢ faults
parse_afl_safe t le = elim (rest_cases t.rest) [
  | inl none_left ↦ absurd (let k = ap length none_left in omega (arith, le, k))
  | inr (ci, v, e) ↦ elim (Bool-cases (is_ci_field_of_type ci afl)) [
    | inl is_afl ↦
        rw (parse_afl_step t ci v e, is_afl) (no_fault ((parse_afl_header-Needs ci _).run t le))
    | inr other ↦ rw (parse_afl_step t ci v e, other) (λ q. cc)
  ]
]
