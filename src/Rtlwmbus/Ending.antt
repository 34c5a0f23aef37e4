-- ===== src/Rtlwmbus/Ending.antt =====
-- src/wmbus_rtlwmbus.cc: the loop of `processSerialData` ends.
use wmbm_16brandnew.Prelude.{
  ℕ, zero, suc, ◌+◌, ◌<◌, Bool, true, false, not, ◌&&◌, Option, none, some, [], ◌∷◌, ◌++◌, Bytes,
  drop, length, length-drop, ltb, leb, ◌==◌, if◌then◌else◌, ◌≢◌, refl, arith,
}
use wmbm_16brandnew.Rtlwmbus.{
  HexFrame, RtlChecked, rtl_partial, rtl_text, rtl_error, rtl_reads_past, rtl_full, find_byte,
  fourth_semicolon, HexEnd, ends_at, no_end, past_end, frame_at, check_0x, check_rssi, starts_with,
  check_rtlwmbus_frame, RtlReceived, rtl_received, rtl_breaks_off, rtl_stuck, add_rtl_telegram,
  rtl_react, rtl_loop, process_rtlwmbus_data,
}
use wmbm_16brandnew.Frame.{byte_at}

-- A full frame takes a byte at least.
data IsTaking : RtlChecked → Type 0 where
  taking_partial : IsTaking rtl_partial
  taking_text : IsTaking rtl_text
  taking_error : IsTaking rtl_error
  taking_past : IsTaking rtl_reads_past
  taking_full : (f : HexFrame) → 0 < f.hex_frame_length → IsTaking (rtl_full f)

if-IsTaking :
    (b : Bool) {x y : RtlChecked} → IsTaking x → IsTaking y → IsTaking (if b then x else y)
if-IsTaking true p q = p
if-IsTaking false p q = q

frame_at-IsTaking : (i : ℕ) (rssi : Option Bytes) (e : HexEnd) → IsTaking (frame_at i rssi e)
unfolding frame_at
frame_at-IsTaking i rssi (ends_at n) = taking_full _ (omega arith)
frame_at-IsTaking i rssi no_end = taking_partial
frame_at-IsTaking i rssi past_end = taking_past

check_0x-IsTaking : (v : Bytes) (rssi : Option Bytes) (o : Option ℕ) → IsTaking (check_0x v rssi o)
unfolding check_0x
check_0x-IsTaking v rssi none = taking_error
check_0x-IsTaking v rssi (some i) = frame_at-IsTaking (i + 2) rssi _

check_rssi-IsTaking : (v : Bytes) (o : Option ℕ) → IsTaking (check_rssi v o)
unfolding check_rssi
check_rssi-IsTaking v none = check_0x-IsTaking v none _
check_rssi-IsTaking v (some i) = check_0x-IsTaking v _ _

check_rtlwmbus_frame-IsTaking : (v : Bytes) → IsTaking (check_rtlwmbus_frame v)
unfolding check_rtlwmbus_frame
check_rtlwmbus_frame-IsTaking v =
    let found = check_rssi-IsTaking v (fourth_semicolon 0 0 v) in
    if-IsTaking (leb (length v) (find_byte b'\n' v)) taking_partial (
      if-IsTaking (ltb (length v) 10) taking_error (
        if-IsTaking (starts_with b'0' b'x' v) found (
          if-IsTaking
            (not (starts_with b'T' b'1' v)
              && not (starts_with b'C' b'1' v)
              && not (starts_with b'S' b'1' v))
            taking_text
            (if-IsTaking
              (not ((byte_at v 1 == b'1') && (byte_at v 2 == b';') && (byte_at v 3 == b'1')))
              taking_error found))))

add_rtl_telegram-ends :
    (t : Bytes × Option Bytes) (r : RtlReceived) → r ≢ rtl_stuck → add_rtl_telegram t r ≢ rtl_stuck
unfolding add_rtl_telegram
add_rtl_telegram-ends t (rtl_received ts buffer) h q = cc
add_rtl_telegram-ends t rtl_breaks_off h q = cc
add_rtl_telegram-ends t rtl_stuck h q = h refl

rtl_react_ends :
    (v : Bytes) (next : Bytes → RtlReceived) (c : RtlChecked)
    → IsTaking c
    → ((n : ℕ) → 0 < n → next (drop n v) ≢ rtl_stuck)
    → rtl_react v next c ≢ rtl_stuck
unfolding rtl_react
rtl_react_ends v next _ taking_partial h q = cc
rtl_react_ends v next _ taking_text h q = cc
rtl_react_ends v next _ taking_error h q = cc
rtl_react_ends v next _ taking_past h q = cc
rtl_react_ends v next _ (taking_full f pos) h q =
    add_rtl_telegram-ends _ _ (h f.hex_frame_length pos) q

rtl_loop_empty : (fuel : ℕ) → rtl_loop (suc fuel) [] ≢ rtl_stuck
unfolding rtl_loop rtl_react check_rtlwmbus_frame find_byte
rtl_loop_empty fuel q = cc

rtl_loop_ends : (fuel : ℕ) (v : Bytes) → length v < fuel → rtl_loop fuel v ≢ rtl_stuck
unfolding rtl_loop
rtl_loop_ends zero v lt q = absurd (omega (arith, lt))
rtl_loop_ends (suc fuel) [] lt q = rtl_loop_empty fuel q
rtl_loop_ends (suc fuel) (b ∷ v) lt q =
    rtl_react_ends (b ∷ v) (rtl_loop fuel) _ (check_rtlwmbus_frame-IsTaking (b ∷ v))
      (λ n pos. rtl_loop_ends fuel (drop n (b ∷ v)) (omega (arith, lt, pos, length-drop n (b ∷ v))))
      q

-- Whatever bytes arrive, and whatever is in the buffer, the loop over the lines of rtl_wmbus ends
-- within one round more than there are bytes.
pub process_rtlwmbus_data_ends :
    (buffer data_ : Bytes) → process_rtlwmbus_data buffer data_ ≢ rtl_stuck
unfolding process_rtlwmbus_data
process_rtlwmbus_data_ends buffer data_ = rtl_loop_ends _ (buffer ++ data_) (omega arith)
