-- ===== src/Rtlwmbus/Second.antt =====
-- src/wmbus_rtlwmbus.cc: the second telegram of a line.
use wmbm_16brandnew.Prelude.{
  ℕ, zero, suc, ◌+◌, ◌-◌, ◌≤◌, ◌<◌, false, none, [], ◌∷◌, ◌++◌, All, Bytes, drop, length,
  length-append, length-drop, ltb, leb, ◌==◌, ◌≡◌, ◌≢◌, refl, arith,
}
use wmbm_16brandnew.Rtlwmbus.{
  rtl_error, find_byte, fourth_semicolon, find_0x, check_0x, check_rssi, check_rtlwmbus_frame,
  rtl_received, rtl_react, rtl_loop, process_rtlwmbus_data,
}

-- Neither a semicolon nor the end of a line
abbrev pub IsInside : ℕ → Type 0
IsInside c = (c ≢ b';') × (c ≢ b'\n')

fourth_semicolon-inside :
    (count i : ℕ) (v : Bytes)
    → count < 4
    → All IsInside v
    → fourth_semicolon count i (v ++ b'\n' ∷ []) ≡ none
unfolding fourth_semicolon
fourth_semicolon-inside count i [] lt h = refl
fourth_semicolon-inside count i (a ∷ []) lt h =
    let no : (a == b';') ≡ false = let k = h.0.0 in ground (arith, k) in
    let few : (count == 4) ≡ false = ground (arith, lt) in rw (no, few) refl
fourth_semicolon-inside count i (a ∷ b ∷ v) lt h =
    let no : (a == b';') ≡ false = let k = h.0.0 in ground (arith, k) in
    let few : (count == 4) ≡ false = ground (arith, lt) in
    rw (no, few) (fourth_semicolon-inside count (i + 1) (b ∷ v) lt h.1)

find_byte-inside : (v : Bytes) → All IsInside v → find_byte b'\n' (v ++ b'\n' ∷ []) ≡ length v
unfolding find_byte
find_byte-inside [] h = refl
find_byte-inside (a ∷ v) h =
    let no : (a == b'\n') ≡ false = let k = h.0.1 in ground (arith, k) in
    rw (no, find_byte-inside v h.1) refl

find_0x-short : (i : ℕ) (v : Bytes) → length v ≤ 1 → find_0x i v ≡ none
unfolding find_0x
find_0x-short i [] h = refl
find_0x-short i (a ∷ []) h = refl
find_0x-short i (a ∷ b ∷ v) h = absurd (omega (arith, h))

rtl_loop_error :
    (fuel : ℕ) (v : Bytes)
    → 0 < fuel
    → check_rtlwmbus_frame v ≡ rtl_error
    → rtl_loop fuel v ≡ rtl_received [] []
unfolding rtl_loop rtl_react
rtl_loop_error zero v lt e = absurd (omega (arith, lt))
rtl_loop_error (suc fuel) v lt e = rw e refl

-- What is left of a line behind its first telegram, from the `0x` of the second one on, is an error,
-- so that the second telegram is lost, and so is the buffer: the search for the strength passes over
-- all of it, since it has no four semicolons.
pub check_rtlwmbus_frame_loses :
    (v : Bytes)
    → All IsInside v
    → 7 ≤ length v
    → (check_rtlwmbus_frame (b'0' ∷ b'x' ∷ (v ++ b'\n' ∷ [])) ≡ rtl_error)
      × (process_rtlwmbus_data [] (b'0' ∷ b'x' ∷ (v ++ b'\n' ∷ [])) ≡ rtl_received [] [])
unfolding check_rtlwmbus_frame check_rssi check_0x process_rtlwmbus_data
check_rtlwmbus_frame_loses v h le =
    let w = b'0' ∷ b'x' ∷ v in
    let line = b'0' ∷ b'x' ∷ (v ++ b'\n' ∷ []) in
    let inside : All IsInside w = ((omega arith, omega arith), ((omega arith, omega arith), h)) in
    let whole : leb (length line) (find_byte b'\n' line) ≡ false =
      ground (arith, find_byte-inside w inside, length-append v (b'\n' ∷ [])) in
    let long : ltb (length line) 10 ≡ false = ground (arith, le, length-append v (b'\n' ∷ [])) in
    let last =
      find_0x-short (length line - 1) (drop (length line - 1) line)
        (omega (arith, length-drop (length line - 1) line)) in
    let e : check_rtlwmbus_frame line ≡ rtl_error =
      rw (whole, long, fourth_semicolon-inside 0 0 w (omega arith) inside, last) refl in
    (e, rtl_loop_error (length line + 1) line (omega arith) e)
