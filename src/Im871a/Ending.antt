-- ===== src/Im871a/Ending.antt =====
-- src/wmbus_im871a.cc: the loop of `processSerialData` ends.
use wmbm_16brandnew.Prelude.{
  ℕ, zero, suc, ◌%◌, ◌≤◌, ◌<◌, not, ◌||◌, [], ◌∷◌, ◌++◌, Bytes, get_or, drop, length, length-drop,
  ltb, ◌==◌, bit_set, ◌≢◌, refl, inl, inr, Bool-cases, arith,
}
use wmbm_16brandnew.Im871a.{
  Info, Checked, partial, full, in_error, find_a5, info_of, is_msgid, ctrlbits_of, check_from_a5,
  check_found, check_im871a_frame, Message, Received, received, stuck, add_message, react,
  receive_loop, process_serial_data,
}

-- A full frame is not empty, and not longer than the buffer, which got no longer.
data IsWithin (size : ℕ) : Checked → Type 0 where
  kept : (buffer : Bytes) → length buffer ≤ size → IsWithin size (partial buffer)
  found :
      (buffer : Bytes) (i : Info)
      → 0 < i.frame_length
      → i.frame_length ≤ length buffer
      → length buffer ≤ size
      → IsWithin size (full buffer i)
  cleared : IsWithin size in_error

length-find_a5 : (v : Bytes) → length (find_a5 v) ≤ length v
unfolding find_a5
length-find_a5 [] = omega arith
length-find_a5 (b ∷ v) = elim (Bool-cases (b == 0xa5)) [
  | inl a5 ↦ rw a5 (omega arith)
  | inr other ↦ rw other (omega (arith, length-find_a5 v))
]

frame_length_positive : (v : Bytes) → 0 < (info_of v).frame_length
unfolding info_of
frame_length_positive v = omega arith

check_from_a5-IsWithin : (v : Bytes) (size : ℕ) → length v ≤ size → IsWithin size (check_from_a5 v)
unfolding check_from_a5
check_from_a5-IsWithin v size le = elim (Bool-cases (ltb (length v) 4)) [
  | inl short ↦ rw short (kept v le)
  | inr four ↦
      elim (Bool-cases
        (bit_set (ctrlbits_of v) 0 || not (is_msgid (get_or v 1 0 % 16) (get_or v 2 0)))) [
          | inl bad ↦ rw (four, bad) cleared
          | inr good ↦ elim (Bool-cases (ltb (length v) (info_of v).frame_length)) [
            | inl short ↦ rw (four, good, short) (kept v le)
            | inr enough ↦
                rw (four, good, enough)
                  (found v (info_of v) (frame_length_positive v) (ground (arith, enough)) le)
          ]
        ]
]

check_found-IsWithin : (v : Bytes) (size : ℕ) → length v ≤ size → IsWithin size (check_found v)
unfolding check_found
check_found-IsWithin [] size le = cleared
check_found-IsWithin (b ∷ v) size le = check_from_a5-IsWithin (b ∷ v) size le

check_im871a_frame-IsWithin : (v : Bytes) → IsWithin (length v) (check_im871a_frame v)
unfolding check_im871a_frame
check_im871a_frame-IsWithin [] = kept [] (omega arith)
check_im871a_frame-IsWithin (b ∷ v) =
    check_found-IsWithin (find_a5 (b ∷ v)) _ (length-find_a5 (b ∷ v))

add_message-stuck : (m : Message × ℕ) (r : Received) → r ≢ stuck → add_message m r ≢ stuck
unfolding add_message
add_message-stuck m (received ms buffer) h q = cc
add_message-stuck m stuck h q = h refl

react_ends :
    (rssi_dbm : ℕ) (next : ℕ → Bytes → Received) (size : ℕ) (c : Checked)
    → IsWithin size c
    → ((dbm : ℕ) (v : Bytes) → length v < size → next dbm v ≢ stuck)
    → react rssi_dbm next c ≢ stuck
unfolding react
react_ends rssi_dbm next size (partial _) (kept buffer le) h q = cc
react_ends rssi_dbm next size in_error cleared h q = cc
react_ends rssi_dbm next size (full _ _) (found buffer i lt within le) h q =
    add_message-stuck _ _
      (h _ (drop i.frame_length buffer) (omega (arith, length-drop i.frame_length buffer))) q

receive_loop_ends :
    (fuel rssi_dbm : ℕ) (buffer : Bytes)
    → length buffer < fuel
    → receive_loop fuel rssi_dbm buffer ≢ stuck
unfolding receive_loop
receive_loop_ends zero rssi_dbm buffer lt q = absurd (omega (arith, lt))
receive_loop_ends (suc fuel) rssi_dbm buffer lt q =
    react_ends rssi_dbm (receive_loop fuel) (length buffer) (check_im871a_frame buffer)
      (check_im871a_frame-IsWithin buffer)
      (λ dbm v shorter. receive_loop_ends fuel dbm v (omega (arith, lt, shorter))) q

-- Whatever bytes arrive, and whatever is in the buffer, the loop over the frames ends within its
-- rounds, one more than there are bytes.
pub process_serial_data_ends : (buffer data_ : Bytes) → process_serial_data buffer data_ ≢ stuck
unfolding process_serial_data
process_serial_data_ends buffer data_ = receive_loop_ends _ 0 (buffer ++ data_) (omega arith)
