-- ===== src/Cul/Rounds.antt =====
-- src/wmbus_cul.cc: the loop of `processSerialData` ends.
use wmbm_16brandnew.Prelude.{
  ℕ, zero, suc, ◌+◌, ◌-◌, ◌<◌, Bool, true, false, [], ◌∷◌, ◌++◌, Bytes, take, drop, length,
  length-drop, ltb, leb, ◌==◌, if◌then◌else◌, ◌≢◌, refl, inl, inr, Option-cases, arith,
}
use wmbm_16brandnew.Frame.{
  Trim, trimmed, rejected, fault, big_endian, set_length, read_range, trim_second,
  trim_crcs_format_b,
}
use wmbm_16brandnew.Frame.FormatA.Sound.{IsResult, accepts, rejects, trim_crcs_format_a-IsResult}
use wmbm_16brandnew.Crc.{crc16_en13757}
use wmbm_16brandnew.Cul.{
  Line, partial, text, in_error, full, breaks_down, find_eol, of_trim, trim_hex, check_payload,
  check_signal, check_line, check_cul_frame, Handled, handled, breaks_off, out_of_fuel,
  add_telegram, act_on, cul_loop, process_cul_data, rssi_below,
}

-- The trimming has come to an end.
data IsEnded : Trim → Type 0 where
  ends_trimmed : (v : Bytes) → IsEnded (trimmed v)
  ends_rejected : IsEnded rejected
  ends_fault : IsEnded fault

-- The test of a line has come to an end, and a full frame takes a byte at least.
data IsStep : Line → Type 0 where
  step_partial : IsStep partial
  step_text : IsStep text
  step_in_error : IsStep in_error
  step_full : (n : ℕ) (payload : Bytes) (rssi : ℕ) → 0 < n → IsStep (full n payload rssi)
  step_breaks_down : IsStep breaks_down

if-IsEnded : (b : Bool) {x y : Trim} → IsEnded x → IsEnded y → IsEnded (if b then x else y)
if-IsEnded true p q = p
if-IsEnded false p q = q

if-IsStep : (b : Bool) {x y : Line} → IsStep x → IsStep y → IsStep (if b then x else y)
if-IsStep true p q = p
if-IsStep false p q = q

trim_second-IsEnded :
    (payload : Bytes) (i j : ℕ) (out : Bytes) → IsEnded (trim_second payload i j out)
unfolding trim_second
trim_second-IsEnded payload i j out = elim (Option-cases (read_range payload (i + 2) j)) [
  | inl past ↦ rw (trim_second, past) ends_fault
  | inr (block, read) ↦ rw (trim_second, read) (if-IsEnded _ (ends_trimmed _) ends_rejected)
]

trim_crcs_format_b-IsEnded : (payload : Bytes) → IsEnded (trim_crcs_format_b payload)
unfolding trim_crcs_format_b
trim_crcs_format_b-IsEnded payload =
    let crc1_pos = if leb (length payload) 128 then length payload - 2 else 126 in
    let crc2_pos = if leb (length payload) 128 then 0 else length payload - 2 in
    let out = take crc1_pos payload in
    if-IsEnded (ltb (length payload) 12) ends_rejected (
      if-IsEnded (crc16_en13757 out == big_endian payload crc1_pos)
        (if-IsEnded (ltb 0 crc2_pos) (trim_second-IsEnded payload crc1_pos crc2_pos out)
          (ends_trimmed (set_length out)))
        ends_rejected)

IsResult-IsEnded : (t : Trim) → IsResult t → IsEnded t
IsResult-IsEnded _ (accepts v) = ends_trimmed v
IsResult-IsEnded _ rejects = ends_rejected

of_trim-IsStep : (n rssi : ℕ) (t : Trim) → 0 < n → IsEnded t → IsStep (of_trim n rssi t)
unfolding of_trim
of_trim-IsStep n rssi _ lt (ends_trimmed v) = step_full n v rssi lt
of_trim-IsStep n rssi _ lt ends_rejected = step_in_error
of_trim-IsStep n rssi _ lt ends_fault = step_breaks_down

trim_hex-IsStep :
    (is_b : Bool) (n rssi : ℕ) (r : Bool × Bytes) → 0 < n → IsStep (trim_hex is_b n rssi r)
unfolding trim_hex
trim_hex-IsStep is_b n rssi (false, payload) lt = step_in_error
trim_hex-IsStep is_b n rssi (true, payload) lt = of_trim-IsStep n rssi _ lt (
    if-IsEnded is_b (trim_crcs_format_b-IsEnded payload)
      (IsResult-IsEnded _ (trim_crcs_format_a-IsResult payload)))

check_payload-IsStep : (v : Bytes) (n end rssi : ℕ) → 0 < n → IsStep (check_payload v n end rssi)
unfolding check_payload
check_payload-IsStep v n end rssi lt =
    (if-IsStep _ step_breaks_down (trim_hex-IsStep _ n rssi _ lt))

check_signal-IsStep :
    (v : Bytes) (n end : ℕ) (signal : Bytes) → 0 < n → IsStep (check_signal v n end signal)
unfolding check_signal
check_signal-IsStep v n end [] lt = step_breaks_down
check_signal-IsStep v n end (lqi ∷ []) lt = step_breaks_down
check_signal-IsStep v n end (lqi ∷ raw ∷ _) lt = check_payload-IsStep v n end (rssi_below raw) lt

check_line-IsStep : (v : Bytes) (n end : ℕ) → 0 < n → IsStep (check_line v n end)
unfolding check_line
check_line-IsStep v n end lt =
    (if-IsStep _ step_text (if-IsStep _ step_breaks_down (check_signal-IsStep v n end _ lt)))

check_cul_frame-IsStep : (v : Bytes) → IsStep (check_cul_frame v)
unfolding check_cul_frame
check_cul_frame-IsStep v = elim (Option-cases (find_eol v)) [
  | inl nothing ↦ rw (check_cul_frame, nothing) step_partial
  | inr (zero, found) ↦ rw (check_cul_frame, found) step_breaks_down
  | inr (suc i, found) ↦ rw (check_cul_frame, found) (check_line-IsStep v (i + 2) _ (omega arith))
]

add_telegram-ends : (t : Bytes × ℕ) (r : Handled) → r ≢ out_of_fuel → add_telegram t r ≢ out_of_fuel
unfolding add_telegram
add_telegram-ends t (handled ts response buffer) h q = cc
add_telegram-ends t breaks_off h q = cc
add_telegram-ends t out_of_fuel h q = h refl

act_on-ends :
    (waiting : Bool) (buffer : Bytes) (next : Bytes → Handled) (l : Line)
    → IsStep l
    → ((n : ℕ) → 0 < n → next (drop n buffer) ≢ out_of_fuel)
    → act_on waiting buffer next l ≢ out_of_fuel
unfolding act_on
act_on-ends waiting buffer next _ step_partial h q = cc
act_on-ends waiting buffer next _ step_text h q = cc
act_on-ends waiting buffer next _ step_in_error h q = cc
act_on-ends waiting buffer next _ (step_full n payload rssi lt) h q =
    add_telegram-ends _ _ (h n lt) q
act_on-ends waiting buffer next _ step_breaks_down h q = cc

-- On an empty buffer the loop ends at once.
cul_loop_empty : (waiting : Bool) (fuel : ℕ) → cul_loop waiting (suc fuel) [] ≢ out_of_fuel
unfolding cul_loop act_on check_cul_frame find_eol
cul_loop_empty waiting fuel q = cc

cul_loop_ends :
    (waiting : Bool) (fuel : ℕ) (v : Bytes)
    → length v < fuel
    → cul_loop waiting fuel v ≢ out_of_fuel
unfolding cul_loop
cul_loop_ends waiting zero v lt q = absurd (omega (arith, lt))
cul_loop_ends waiting (suc fuel) [] lt q = cul_loop_empty waiting fuel q
cul_loop_ends waiting (suc fuel) (b ∷ v) lt q =
    act_on-ends waiting (b ∷ v) (cul_loop waiting fuel) _ (check_cul_frame-IsStep (b ∷ v))
      (λ n pos.
        cul_loop_ends waiting fuel (drop n (b ∷ v)) (omega (arith, lt, pos, length-drop n (b ∷ v))))
      q

-- Whatever bytes arrive, and whatever is in the buffer, the loop over the lines ends within one round
-- more than there are bytes, if no line makes it read outside of a vector first.
pub process_cul_data_ends :
    (waiting : Bool) (buffer data_ : Bytes) → process_cul_data waiting buffer data_ ≢ out_of_fuel
unfolding process_cul_data
process_cul_data_ends waiting buffer data_ = cul_loop_ends waiting _ (buffer ++ data_) (omega arith)
