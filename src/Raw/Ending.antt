-- ===== src/Raw/Ending.antt =====
-- src/wmbus_rc1180.cc, src/wmbus_rawtty.cc and src/mbus_rawtty.cc: the loops over the frames end.
use wmbm_16brandnew.Prelude.{
  ℕ, zero, suc, ◌+◌, ◌-◌, ◌≤◌, ◌<◌, Bool, true, false, not, ◌&&◌, some, [], ◌∷◌, ◌++◌, Bytes, take,
  drop, length, length-drop, ltb, ◌==◌, if◌then◌else◌, u8, ◌≡◌, ◌≢◌, refl, inl, inr, Bool-cases,
  Option-cases, arith,
}
use wmbm_16brandnew.Frame.{
  FrameStatus, partial_frame, full_frame, error_in_frame, Found, byte_at, checksum, find_sync,
  finish_found, check_wmbus_frame, check_mbus_end, check_mbus_frame,
}
use wmbm_16brandnew.Raw.{
  Finder, Telegrams, telegrams, unfinished, telegram_of, put_first, handle, raw_loop,
  process_rc1180_data, process_mbus_data, Copied, copied, assert_fails, copy, process_copied,
  process_raw_data,
}

-- What a finder may come to on the buffer `v`: a full frame is not empty and within the buffer.
data IsFinding (v : Bytes) : FrameStatus × Bytes × Found → Type 0 where
  waits : (w : Bytes) (found : Found) → IsFinding v (partial_frame, w, found)
  fails : (w : Bytes) (found : Found) → IsFinding v (error_in_frame, w, found)
  finds :
      (found : Found)
      → 0 < found.frame_length
      → found.frame_length ≤ length v
      → IsFinding v (full_frame, v, found)

if-IsFinding :
    (b : Bool) {v : Bytes} {x y : FrameStatus × Bytes × Found}
    → IsFinding v x
    → IsFinding v y
    → IsFinding v (if b then x else y)
if-IsFinding true p q = p
if-IsFinding false p q = q

find_sync_positive :
    (n i : ℕ) (v : Bytes) {len offset : ℕ} → find_sync n i v ≡ some (len, offset) → 0 < offset
unfolding find_sync
find_sync_positive zero i v e = cc
find_sync_positive (suc n) i v {len} {offset} e =
    elim (Bool-cases ((byte_at v (i + 1) == 0x44) && (byte_at v i + 1 == u8 (length v - i)))) [
      | inl here ↦
          let same : some (byte_at v i, i + 1) ≡ some (len, offset) = (rw here at e) in
          let offsets : i + 1 ≡ offset = cc in omega (arith, offsets)
      | inr later ↦ find_sync_positive n (i + 1) v (rw later at e)
    ]

finish_found-IsFinding :
    (v : Bytes) (len offset : ℕ) → 0 < offset → IsFinding v (finish_found v len offset)
unfolding finish_found
finish_found-IsFinding v len offset pos = elim (Bool-cases (ltb (length v) (len + offset))) [
  | inl short ↦ rw short (waits v _)
  | inr enough ↦ rw enough (finds _ (omega (arith, pos)) (ground (arith, enough)))
]

check_wmbus_frame-IsFinding : (v : Bytes) (found : Found) → IsFinding v (check_wmbus_frame v found)
unfolding check_wmbus_frame
check_wmbus_frame-IsFinding v found = elim (Option-cases (find_sync (length v - 2) 0 v)) [
  | inl nothing ↦ rw nothing (
      if-IsFinding (ltb (length v) 11) (waits v found) (
        if-IsFinding (byte_at v 1 == 0x44) (finish_found-IsFinding v (byte_at v 0) 1 (omega arith))
          (fails [] found)))
  | inr ((len, offset), sync) ↦ rw sync (
      if-IsFinding (ltb (length v) 11) (waits v found) (
        if-IsFinding (byte_at v 1 == 0x44) (finish_found-IsFinding v (byte_at v 0) 1 (omega arith))
          (finish_found-IsFinding v len offset (find_sync_positive (length v - 2) 0 v sync))))
]

check_mbus_end-IsFinding :
    (v : Bytes) (found : Found) (n : ℕ)
    → 0 < n
    → n ≤ length v
    → IsFinding v (check_mbus_end v found n)
unfolding check_mbus_end
check_mbus_end-IsFinding v found n pos le =
    if-IsFinding (not (byte_at v (n - 1) == 0x16)) (fails [] _) (
      if-IsFinding (not (byte_at v (n - 2) == checksum 0 (take (n - 6) (drop 4 v)))) (fails [] _)
        (finds (record { frame_length = n; payload_len = n - 6; payload_offset = 4 }) pos le))

-- The part behind the tests of the start
check_mbus_rest : (v : Bytes) (found : Found) → Bool → FrameStatus × Bytes × Found
check_mbus_rest v found short =
    if short
    then (partial_frame, v, record found { frame_length = byte_at v 1 + 4 + 1 + 1 })
    else check_mbus_end v found (byte_at v 1 + 4 + 1 + 1)

check_mbus_rest-IsFinding :
    (v : Bytes) (found : Found) (short : Bool)
    → ltb (length v) (byte_at v 1 + 4 + 1 + 1) ≡ short
    → IsFinding v (check_mbus_rest v found short)
unfolding check_mbus_rest
check_mbus_rest-IsFinding v found true e = waits v _
check_mbus_rest-IsFinding v found false e =
    check_mbus_end-IsFinding v found (byte_at v 1 + 4 + 1 + 1) (omega arith) (ground (arith, e))

check_mbus_frame-IsFinding : (v : Bytes) (found : Found) → IsFinding v (check_mbus_frame v found)
unfolding check_mbus_frame check_mbus_rest
check_mbus_frame-IsFinding [] found = waits [] found
check_mbus_frame-IsFinding (b ∷ v) found =
    let w = b ∷ v in
    let nonempty : ltb 0 (length w) ≡ true = ground arith in
    rw nonempty (
      if-IsFinding (b == 0xe5)
        (finds (record { frame_length = 1; payload_len = 0; payload_offset = 0 }) (omega arith)
          (omega arith))
        (if-IsFinding (ltb (length w) 6) (waits w found) (
          if-IsFinding (not (b == 0x68) && not (byte_at w 3 == 0x68)) (fails [] found) (
            if-IsFinding (not (byte_at w 1 == byte_at w 2)) (fails [] found) (
              check_mbus_rest-IsFinding w found (ltb (length w) (byte_at w 1 + 4 + 1 + 1)) refl)))))

put_first-ends : (t : Bytes) (r : Telegrams) → r ≢ unfinished → put_first t r ≢ unfinished
unfolding put_first
put_first-ends t (telegrams ts buffer) h q = cc
put_first-ends t unfinished h q = h refl

handle_ends :
    (v : Bytes) (next : Bytes → Found → Telegrams) (r : FrameStatus × Bytes × Found)
    → IsFinding v r
    → ((n : ℕ) (found : Found) → 0 < n → n ≤ length v → next (drop n v) found ≢ unfinished)
    → handle next r ≢ unfinished
unfolding handle
handle_ends v next _ (waits w found) h q = cc
handle_ends v next _ (fails w found) h q = cc
handle_ends v next _ (finds found pos le) h q =
    put_first-ends (telegram_of v found) _ (h found.frame_length found pos le) q

raw_loop_ends :
    (finder : Finder) (fuel : ℕ) (v : Bytes) (found : Found)
    → ((w : Bytes) (out : Found) → IsFinding w (finder w out))
    → length v < fuel
    → raw_loop finder fuel v found ≢ unfinished
unfolding raw_loop
raw_loop_ends finder zero v found h lt q = absurd (omega (arith, lt))
raw_loop_ends finder (suc fuel) v found h lt q =
    handle_ends v (raw_loop finder fuel) (finder v found) (h v found)
      (λ n out pos le.
        raw_loop_ends finder fuel (drop n v) out h (omega (arith, lt, pos, le, length-drop n v)))
      q

-- Whatever bytes arrive, the loops over the frames of the RC1180 and of the wired receiver end within
-- one round more than there are bytes.
pub raw_rounds_end :
    (found : Found) (buffer data_ : Bytes)
    → (process_rc1180_data found buffer data_ ≢ unfinished)
      × (process_mbus_data found buffer data_ ≢ unfinished)
unfolding process_rc1180_data process_mbus_data
raw_rounds_end found buffer data_ = (
  raw_loop_ends check_wmbus_frame _ (buffer ++ data_) found check_wmbus_frame-IsFinding
      (omega arith),
  raw_loop_ends check_mbus_frame _ (buffer ++ data_) found check_mbus_frame-IsFinding (omega arith),
)

process_copied_ends :
    (found : Found) (c : Copied) (rest : Bytes) → process_copied found c ≢ some (rest, unfinished)
unfolding process_copied
process_copied_ends found (copied read_buffer data_buffer) rest q =
    raw_loop_ends check_wmbus_frame (length data_buffer + 1) data_buffer found
      check_wmbus_frame-IsFinding (omega arith) cc
process_copied_ends found assert_fails rest q = cc

-- The same for the loop of the raw line, over the bytes that `copy` has put into its second buffer.
pub process_raw_data_ends :
    (is_hex : Bool) (found : Found) (read_buffer data_buffer data_ rest : Bytes)
    → process_raw_data is_hex found read_buffer data_buffer data_ ≢ some (rest, unfinished)
unfolding process_raw_data
process_raw_data_ends is_hex found read_buffer data_buffer data_ rest =
    process_copied_ends found (copy is_hex (read_buffer ++ data_) data_buffer) rest
