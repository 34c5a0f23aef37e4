-- ===== src/Frame/MBus.antt =====
-- src/wmbus.cc: what `checkMBusFrame` accepts and rejects.
use wmbm_16brandnew.Prelude.{
  ℕ, suc, ◌+◌, ◌-◌, ◌<◌, ◌≡◌, ◌≢◌, refl, ap, sym, ◌∙◌, ◌⊎◌, inl, inr, false, [], ◌∷◌, ◌++◌, arith,
  Bytes, take, drop, length, length-append, take-append_length, ◌==◌, Bool-cases, u8,
}
use wmbm_16brandnew.Frame.{
  full_frame, error_in_frame, Found, byte_at, checksum, check_mbus_end, check_mbus_frame,
}
use wmbm_16brandnew.Frame.FormatA.{byte_at-append_first, byte_at-append_second, ==_refl}

-- A long frame with start bytes `a` and `d`, length bytes that agree, a payload, a checksum and a
-- last byte, and with `rest` behind it in the buffer.
abbrev pub long_frame : ℕ → ℕ → Bytes → ℕ → ℕ → Bytes → Bytes
long_frame a d payload cs stop rest =
    a ∷ length payload ∷ length payload ∷ d ∷ (payload ++ cs ∷ stop ∷ rest)

abbrev IsStart : ℕ → ℕ → Type 0
IsStart a d = (a ≢ 0xe5) × ((a ≡ 0x68) ⊎ (d ≡ 0x68))

length-tail :
    (payload : Bytes) (cs stop : ℕ) (rest : Bytes)
    → length (payload ++ cs ∷ stop ∷ rest) ≡ length payload + 2 + length rest
length-tail payload cs stop rest = omega (arith, length-append payload (cs ∷ stop ∷ rest))

-- Such a frame gets to the test of its last two bytes.
check_mbus_frame_long :
    (a d cs stop : ℕ) (payload rest : Bytes) (out : Found)
    → IsStart a d
    → check_mbus_frame (long_frame a d payload cs stop rest) out
      ≡ check_mbus_end (long_frame a d payload cs stop rest) out (length payload + 4 + 1 + 1)
unfolding check_mbus_frame
check_mbus_frame_long a d cs stop payload rest out h =
    ground (arith, h.0, h.1, length-tail payload cs stop rest)

module _ (a d cs stop : ℕ) (payload rest : Bytes) where
  stop_byte : byte_at (long_frame a d payload cs stop rest) (length payload + 4 + 1 + 1 - 1) ≡ stop
  stop_byte =
      ap (byte_at (long_frame a d payload cs stop rest)) {x = length payload + 4 + 1 + 1 - 1}
        {y = suc (suc (suc (suc (length payload + 1))))} (omega arith)
      ∙ byte_at-append_second payload cs stop rest

  checksum_byte :
      byte_at (long_frame a d payload cs stop rest) (length payload + 4 + 1 + 1 - 2) ≡ cs
  checksum_byte =
      ap (byte_at (long_frame a d payload cs stop rest)) {x = length payload + 4 + 1 + 1 - 2}
        {y = suc (suc (suc (suc (length payload))))} (omega arith)
      ∙ byte_at-append_first payload cs (stop ∷ rest)

  payload_bytes :
      take (length payload + 4 + 1 + 1 - 6) (drop 4 (long_frame a d payload cs stop rest)) ≡ payload
  payload_bytes =
      let n : length payload + 4 + 1 + 1 - 6 ≡ length payload = omega arith in
      rw n (take-append_length payload (cs ∷ stop ∷ rest))

check_mbus_end_good :
    (v block : Bytes) (out : Found) (n : ℕ)
    → byte_at v (n - 1) ≡ 0x16
    → take (n - 6) (drop 4 v) ≡ block
    → byte_at v (n - 2) ≡ checksum 0 block
    → check_mbus_end v out n
      ≡ (full_frame, v, record { frame_length = n; payload_len = n - 6; payload_offset = 4 })
unfolding check_mbus_end
check_mbus_end_good v block out n stop content sum =
    rw (content, stop, sum, ==_refl (checksum 0 block))

check_mbus_end_bad :
    (v block : Bytes) (out : Found) (n : ℕ)
    → take (n - 6) (drop 4 v) ≡ block
    → ((byte_at v (n - 1) == 0x16) ≡ false) ⊎ ((byte_at v (n - 2) == checksum 0 block) ≡ false)
    → check_mbus_end v out n ≡ (error_in_frame, [], record out { frame_length = n })
unfolding check_mbus_end
check_mbus_end_bad v block out n content (inl stop) = rw stop
check_mbus_end_bad v block out n content (inr sum) = elim (Bool-cases (byte_at v (n - 1) == 0x16)) [
  | inl e ↦ rw (content, e, sum)
  | inr e ↦ rw e
]

-- A long frame with a right checksum and the stop byte 0x16 is found whole, whatever stands behind
-- it, and its payload starts at 4. It is enough that one of the two start bytes is 0x68.
pub check_mbus_frame_accepts :
    (a d : ℕ) (payload rest : Bytes) (out : Found)
    → (a ≢ 0xe5) × ((a ≡ 0x68) ⊎ (d ≡ 0x68))
    → check_mbus_frame (long_frame a d payload (checksum 0 payload) 0x16 rest) out ≡ (
      full_frame,
      long_frame a d payload (checksum 0 payload) 0x16 rest,
      record {
        frame_length = length payload + 6;
        payload_len = length payload;
        payload_offset = 4;
      },
    )
check_mbus_frame_accepts a d payload rest out h =
    let cs = checksum 0 payload in
    let n : length payload + 4 + 1 + 1 ≡ length payload + 6 = omega arith in
    let len : length payload + 6 - 6 ≡ length payload = omega arith in
    check_mbus_frame_long a d cs 0x16 payload rest out h
    ∙ check_mbus_end_good (long_frame a d payload cs 0x16 rest) payload out
        (length payload + 4 + 1 + 1) (stop_byte a d cs 0x16 payload rest)
        (payload_bytes a d cs 0x16 payload rest) (checksum_byte a d cs 0x16 payload rest)
    ∙ rw n (rw len)

ne→false : (x y : ℕ) → x ≢ y → (x == y) ≡ false
ne→false x y h = ground arith

-- A long frame with another last byte, or with a wrong checksum.
check_mbus_frame_bad :
    (a d cs stop : ℕ) (payload rest : Bytes) (out : Found)
    → IsStart a d
    → (stop ≢ 0x16) ⊎ (cs ≢ checksum 0 payload)
    → check_mbus_frame (long_frame a d payload cs stop rest) out
      ≡ (error_in_frame, [], record out { frame_length = length payload + 4 + 1 + 1 })
check_mbus_frame_bad a d cs stop payload rest out h (inl ne) =
    check_mbus_frame_long a d cs stop payload rest out h
    ∙ check_mbus_end_bad _ payload out (length payload + 4 + 1 + 1)
        (payload_bytes a d cs stop payload rest)
        (inl (rw (stop_byte a d cs stop payload rest) (ne→false stop 0x16 ne)))
check_mbus_frame_bad a d cs stop payload rest out h (inr ne) =
    check_mbus_frame_long a d cs stop payload rest out h
    ∙ check_mbus_end_bad _ payload out (length payload + 4 + 1 + 1)
        (payload_bytes a d cs stop payload rest)
        (inr (rw (checksum_byte a d cs stop payload rest) (ne→false cs (checksum 0 payload) ne)))

checksum_shift : (bs : Bytes) (x y : ℕ) → checksum x bs ≡ checksum y bs → u8 x ≡ u8 y
unfolding checksum
checksum_shift [] x y e = ap u8 e
checksum_shift (b ∷ bs) x y e = omega (arith, checksum_shift bs (u8 (x + b)) (u8 (y + b)) e)

checksum-append : (xs ys : Bytes) (c : ℕ) → checksum c (xs ++ ys) ≡ checksum (checksum c xs) ys
unfolding checksum
checksum-append [] ys c = refl
checksum-append (x ∷ xs) ys c = checksum-append xs ys (u8 (c + x))

-- The sum of the bytes tells apart payloads that differ in one byte.
checksum_detects :
    (before after : Bytes) (b c : ℕ)
    → b < 256
    → c < 256
    → checksum 0 (before ++ b ∷ after) ≡ checksum 0 (before ++ c ∷ after)
    → b ≡ c
checksum_detects before after b c hb hc e =
    let start = checksum 0 before in
    let tail : checksum (u8 (start + b)) after ≡ checksum (u8 (start + c)) after =
      unfold checksum in
      sym (checksum-append before (b ∷ after) 0) ∙ e ∙ checksum-append before (c ∷ after) 0 in
    let same : u8 (u8 (start + b)) ≡ u8 (u8 (start + c)) = checksum_shift after _ _ tail in
    omega arith

-- A long frame in which one byte of the payload arrives changed is an error, and the buffer is
-- cleared. So is one with a last byte other than 0x16.
pub check_mbus_frame_rejects :
    (a d stop : ℕ) (before after rest : Bytes) (b c : ℕ) (out : Found)
    → (a ≢ 0xe5) × ((a ≡ 0x68) ⊎ (d ≡ 0x68))
    → b < 256
    → c < 256
    → (b ≢ c) ⊎ (stop ≢ 0x16)
    → check_mbus_frame
        (long_frame a d (before ++ c ∷ after) (checksum 0 (before ++ b ∷ after)) stop rest)
        out
      ≡ (error_in_frame, [], record out { frame_length = length (before ++ c ∷ after) + 4 + 1 + 1 })
check_mbus_frame_rejects a d stop before after rest b c out h hb hc (inl ne) =
    check_mbus_frame_bad a d (checksum 0 (before ++ b ∷ after)) stop (before ++ c ∷ after) rest out
      h (inr (λ e. ne (checksum_detects before after b c hb hc e)))
check_mbus_frame_rejects a d stop before after rest b c out h hb hc (inr ne) =
    check_mbus_frame_bad a d (checksum 0 (before ++ b ∷ after)) stop (before ++ c ∷ after) rest out
      h (inl ne)
