-- ===== src/Im871a/Frames.antt =====
-- src/wmbus_im871a.cc: what `checkIM871AFrame` finds at the start of a buffer.
use wmbm_16brandnew.Prelude.{
  ℕ, zero, suc, ◌+◌, ◌%◌, ◌/◌, ◌≤◌, ◌<◌, true, false, ◌∷◌, ◌++◌, Bytes, take, length, length-append,
  length-take, take-append_within, ltb, if◌then◌else◌, bit_set, ◌≡◌, refl, ap, ◌∙◌, arith,
}
use wmbm_16brandnew.Im871a.{
  Info, partial, full, find_a5, info_of, is_msgid, timestamp_len, rssi_len, crc16_len,
  check_from_a5, check_found, check_im871a_frame, Message, message_of,
}

-- A frame as the receiver sends it: the byte 0xa5, the control bits with the endpoint, the message,
-- the length of the payload, and the payload with what the control bits say.
pub record IsFrame (f : Bytes) : Type 0 where
  pub control : ℕ
  pub msgid : ℕ
  pub len : ℕ
  pub body : Bytes
  pub shape : f ≡ 0xa5 ∷ control ∷ msgid ∷ len ∷ body
  pub unreserved : bit_set (control / 16 % 16) 0 ≡ false
  pub known : is_msgid (control % 16) msgid ≡ true
  pub size :
      length body
      ≡ len
        + timestamp_len (control / 16 % 16)
        + rssi_len (control / 16 % 16)
        + crc16_len (control / 16 % 16)

pub message : Bytes → Message
message f = message_of f (info_of f)

module _ (control msgid len : ℕ) (body : Bytes) where
  abbrev framed : Bytes → Bytes
  framed v = 0xa5 ∷ control ∷ msgid ∷ len ∷ v

  check_framed :
      (v : Bytes)
      → bit_set (control / 16 % 16) 0 ≡ false
      → is_msgid (control % 16) msgid ≡ true
      → check_im871a_frame (framed v) ≡ (
          if ltb (length (framed v)) (info_of (framed v)).frame_length
          then partial (framed v)
          else full (framed v) (info_of (framed v)))
  unfolding check_im871a_frame check_found find_a5 check_from_a5
  check_framed v unreserved known =
      let four : ltb (length (framed v)) 4 ≡ false = ground arith in
      rw (four, unreserved, known) refl

  message_framed :
      (v more : Bytes)
      → len ≤ length v
      → message_of (framed (v ++ more)) (info_of (framed (v ++ more)))
        ≡ message_of (framed v) (info_of (framed v))
  unfolding message_of info_of
  message_framed v more le = rw (take-append_within len v more le) refl

  frame_length_framed :
      (v : Bytes)
      → length body
        ≡ len
          + timestamp_len (control / 16 % 16)
          + rssi_len (control / 16 % 16)
          + crc16_len (control / 16 % 16)
      → (info_of (framed v)).frame_length ≡ length (framed body)
  unfolding info_of
  frame_length_framed v size = omega (arith, size)

  check_framed_whole :
      (more : Bytes)
      → bit_set (control / 16 % 16) 0 ≡ false
      → is_msgid (control % 16) msgid ≡ true
      → (info_of (framed (body ++ more))).frame_length ≡ length (framed body)
      → check_im871a_frame (framed (body ++ more))
        ≡ full (framed (body ++ more)) (info_of (framed (body ++ more)))
  check_framed_whole more unreserved known size =
      let n = (info_of (framed (body ++ more))).frame_length in
      let enough : ltb (length (framed (body ++ more))) n ≡ false =
        ground (arith, size, length-append body more) in
      check_framed (body ++ more) unreserved known
      ∙ ap
          (λ b.
            if b
            then partial (framed (body ++ more))
            else full (framed (body ++ more)) (info_of (framed (body ++ more))))
          enough

  check_framed_start :
      (k : ℕ)
      → bit_set (control / 16 % 16) 0 ≡ false
      → is_msgid (control % 16) msgid ≡ true
      → (info_of (framed (take k body))).frame_length ≡ length (framed body)
      → k < length body
      → check_im871a_frame (framed (take k body)) ≡ partial (framed (take k body))
  check_framed_start k unreserved known size lt =
      let v = framed (take k body) in
      let short : ltb (length v) (info_of v).frame_length ≡ true =
        ground (arith, size, lt, length-take k body) in
      check_framed (take k body) unreserved known
      ∙ ap (λ b. if b then partial v else full v (info_of v)) short

-- A frame is found whole, whatever is behind it.
pub check_frame :
    (f more : Bytes)
    → IsFrame f
    → (i : Info) × (check_im871a_frame (f ++ more) ≡ full (f ++ more) i)
      × (i.frame_length ≡ length f)
      × (message_of (f ++ more) i ≡ message f)
unfolding message
check_frame f more h =
    let whole = frame_length_framed h.control h.msgid h.len h.body (h.body ++ more) h.size in
    rw h.shape (
      info_of (framed h.control h.msgid h.len h.body (h.body ++ more)),
      check_framed_whole h.control h.msgid h.len h.body more h.unreserved h.known whole,
      whole,
      message_framed h.control h.msgid h.len h.body h.body more
          (let k = h.size in omega (arith, k)),
    )

check_few :
    (f : Bytes) (k : ℕ) → IsFrame f → k < 4 → check_im871a_frame (take k f) ≡ partial (take k f)
unfolding check_im871a_frame check_found find_a5 check_from_a5
check_few f zero h lt = refl
check_few f (suc zero) h lt = rw h.shape refl
check_few f (suc (suc zero)) h lt = rw h.shape refl
check_few f (suc (suc (suc zero))) h lt = rw h.shape refl
check_few f (suc (suc (suc (suc k)))) h lt = absurd (omega (arith, lt))

-- What is shorter than a frame is kept.
pub check_start :
    (f : Bytes) (k : ℕ)
    → IsFrame f
    → k < length f
    → check_im871a_frame (take k f) ≡ partial (take k f)
check_start f zero h lt = check_few f 0 h (omega arith)
check_start f (suc zero) h lt = check_few f 1 h (omega arith)
check_start f (suc (suc zero)) h lt = check_few f 2 h (omega arith)
check_start f (suc (suc (suc zero))) h lt = check_few f 3 h (omega arith)
check_start f (suc (suc (suc (suc k)))) h lt = rw h.shape (
    check_framed_start h.control h.msgid h.len h.body k h.unreserved h.known
      (frame_length_framed h.control h.msgid h.len h.body (take k h.body) h.size)
      (let e = ap length h.shape in omega (arith, e, lt)))
