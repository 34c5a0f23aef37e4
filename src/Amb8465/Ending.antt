-- ===== src/Amb8465/Ending.antt =====
-- src/wmbus_amb8465.cc: the loop of `processSerialData` ends.
use wmbm_16brandnew.Prelude.{
  ℕ, zero, suc, ◌-◌, ◌≤◌, ◌<◌, Bool, true, false, ◌&&◌, Option, none, some, Bytes, drop, length,
  length-drop, ltb, leb, ◌==◌, if◌then◌else◌, ◌≢◌, refl, inl, inr, Bool-cases, arith,
}
use wmbm_16brandnew.Frame.{byte_at}
use wmbm_16brandnew.Amb8465.{
  Response, AmbChecked, amb_partial, amb_full, command_response, message_response, when_whole,
  find_telegram, check_telegram, check_amb8465_frame, AmbMessage, newer, AmbReceived, amb_received,
  amb_stuck, add_amb_message, amb_react, amb_loop, note_error, process_amb8465_data,
}

-- A full frame is not empty, and within the buffer.
data IsPassable (v : Bytes) : AmbChecked → Type 0 where
  passable_partial : (w : Bytes) → IsPassable v (amb_partial w)
  passable_full :
      (r : Response) → 0 < r.frame_length → r.frame_length ≤ length v → IsPassable v (amb_full v r)

if-IsPassable :
    (b : Bool) {v : Bytes} {x y : AmbChecked}
    → IsPassable v x
    → IsPassable v y
    → IsPassable v (if b then x else y)
if-IsPassable true p q = p
if-IsPassable false p q = q

when_whole-IsPassable :
    (v : Bytes) (r : Response) → 0 < r.frame_length → IsPassable v (when_whole v r)
unfolding when_whole
when_whole-IsPassable v r pos = elim (Bool-cases (ltb (length v) r.frame_length)) [
  | inl short ↦ rw short (passable_partial v)
  | inr enough ↦ rw enough (passable_full r pos (ground (arith, enough)))
]

command_positive :
    (rssi_expected : Bool) (v : Bytes) → 0 < (command_response rssi_expected v).frame_length
unfolding command_response
command_positive rssi_expected v = omega arith

message_positive :
    (rssi_expected : Bool) (v : Bytes) (i : ℕ)
    → 0 < (message_response rssi_expected v i).frame_length
unfolding message_response
message_positive rssi_expected v i = omega arith

check_telegram-IsPassable :
    (rssi_expected : Bool) (v : Bytes) (offset : Option ℕ)
    → IsPassable v (check_telegram rssi_expected v offset)
unfolding check_telegram
check_telegram-IsPassable rssi_expected v none = passable_partial _
check_telegram-IsPassable rssi_expected v (some i) =
    when_whole-IsPassable v _ (message_positive rssi_expected v i)

check_amb8465_frame-IsPassable :
    (rssi_expected : Bool) (v : Bytes) → IsPassable v (check_amb8465_frame rssi_expected v)
unfolding check_amb8465_frame
check_amb8465_frame-IsPassable rssi_expected v =
    if-IsPassable (ltb (length v) 2) (passable_partial v) (
      if-IsPassable (byte_at v 0 == 0xff)
        (if-IsPassable (ltb (length v) 3) (passable_partial v)
          (when_whole-IsPassable v _ (command_positive rssi_expected v)))
        (check_telegram-IsPassable rssi_expected v (find_telegram 0 v)))

add_amb_message-ends :
    (m : AmbMessage) (r : AmbReceived) → r ≢ amb_stuck → add_amb_message m r ≢ amb_stuck
unfolding add_amb_message
add_amb_message-ends m (amb_received ms buffer last_rx error) h q = cc
add_amb_message-ends m amb_stuck h q = h refl

amb_react_ends :
    (now last_rx : ℕ) (rssi : Option ℕ) (next : Option ℕ → Bytes → AmbReceived) (v : Bytes)
    (c : AmbChecked)
    → IsPassable v c
    → ((n : ℕ) (dbm : Option ℕ) → 0 < n → n ≤ length v → next dbm (drop n v) ≢ amb_stuck)
    → amb_react now last_rx rssi next c ≢ amb_stuck
unfolding amb_react
amb_react_ends now last_rx rssi next v _ (passable_partial w) h q = cc
amb_react_ends now last_rx rssi next v _ (passable_full r pos le) h q =
    add_amb_message-ends _ _ (h r.frame_length (newer rssi r.rssi) pos le) q

amb_loop_ends :
    (rssi_expected : Bool) (now last_rx fuel : ℕ) (rssi : Option ℕ) (v : Bytes)
    → length v < fuel
    → amb_loop rssi_expected now last_rx fuel rssi v ≢ amb_stuck
unfolding amb_loop
amb_loop_ends rssi_expected now last_rx zero rssi v lt q = absurd (omega (arith, lt))
amb_loop_ends rssi_expected now last_rx (suc fuel) rssi v lt q =
    amb_react_ends now last_rx rssi (amb_loop rssi_expected now last_rx fuel) v _
      (check_amb8465_frame-IsPassable rssi_expected v)
      (λ n dbm pos le.
        amb_loop_ends rssi_expected now last_rx fuel dbm (drop n v)
          (omega (arith, lt, pos, le, length-drop n v)))
      q

note_error-ends :
    (dropped : Bool) (r : AmbReceived) → r ≢ amb_stuck → note_error dropped r ≢ amb_stuck
unfolding note_error
note_error-ends dropped (amb_received ms buffer last_rx error) h q = cc
note_error-ends dropped amb_stuck h q = h refl

-- Whatever bytes arrive, whatever is in the buffer, and however long it waited there, the loop over
-- the frames of the amb8465 ends within one round more than there are bytes.
pub process_amb8465_data_ends :
    (rssi_expected : Bool) (now last_rx : ℕ) (buffer data_ : Bytes)
    → process_amb8465_data rssi_expected now last_rx buffer data_ ≢ amb_stuck
unfolding process_amb8465_data
process_amb8465_data_ends rssi_expected now last_rx buffer data_ =
    note_error-ends (ltb 0 (length buffer) && ltb 0 last_rx && leb 2000000 (now - last_rx)) _
      (amb_loop_ends rssi_expected now last_rx _ none _ (omega arith))
