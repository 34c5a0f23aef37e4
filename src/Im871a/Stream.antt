-- ===== src/Im871a/Stream.antt =====
-- src/wmbus_im871a.cc: `processSerialData` over the chunks in which the bytes of the line arrive.
use wmbm_16brandnew.Prelude.{
  ℕ, zero, suc, ◌≤◌, ◌<◌, List, [], ◌∷◌, ◌++◌, map, concat, All, Bytes, take, drop, length,
  length-append, length-drop, drop-append_length, take-append_length, take-append-drop,
  take-append_within, leb, ◌≡◌, refl, sym, ap, ◌∙◌, inl, inr, Bool-cases, arith,
}
use mathlib.Core.List.{append_assoc}
use wmbm_16brandnew.Im871a.{
  check_im871a_frame, Message, strength, Received, received, stuck, add_message, react,
  receive_loop, process_serial_data,
}
use wmbm_16brandnew.Im871a.Frames.{IsFrame, message, check_frame, check_start}

-- Nothing of a frame was read that is not in the buffer: the buffer is shorter than the next frame.
abbrev pub IsStart : Bytes → List Bytes → Type 0
IsStart p [] = p ≡ []
IsStart p (f ∷ fs) = length p < length f

-- The frames of the line up to the last whole one are handled, in their order.
data Handled (later : Bytes) : List Bytes → Received → Type 0 where
  waits :
      (fs : List Bytes) (p : Bytes)
      → p ++ later ≡ concat fs
      → IsStart p fs
      → Handled later fs (received [] p)
  handles :
      (f : Bytes) (fs : List Bytes) (dbm : ℕ) (ms : List (Message × ℕ)) (p : Bytes)
      → Handled later fs (received ms p)
      → Handled later (f ∷ fs) (received ((message f, dbm) ∷ ms) p)

add_message-Handled :
    (later f : Bytes) (fs : List Bytes) (dbm : ℕ) (r : Received)
    → Handled later fs r
    → Handled later (f ∷ fs) (add_message (message f, dbm) r)
unfolding add_message
add_message-Handled later f fs dbm (received ms p) h = handles f fs dbm ms p h
add_message-Handled later f fs dbm stuck h = elim h [ ]

both_empty : (v w : Bytes) → v ++ w ≡ [] → v ≡ []
both_empty [] w e = refl
both_empty (b ∷ v) w e = cc

-- A frame at the front of the line is at the front of the buffer, if that is long enough.
split_front :
    (v later f others : Bytes)
    → v ++ later ≡ f ++ others
    → length f ≤ length v
    → (v ≡ f ++ drop (length f) v) × (drop (length f) v ++ later ≡ others)
split_front v later f others e le =
    let front : take (length f) v ≡ f =
      sym (take-append_within (length f) v later le)
      ∙ ap (take (length f)) e
      ∙ take-append_length f others in
    let whole : v ≡ f ++ drop (length f) v =
      sym (take-append-drop (length f) v) ∙ ap (λ t. t ++ drop (length f) v) front in
    (
      whole,
      sym (drop-append_length f (drop (length f) v ++ later))
          ∙ ap (drop (length f)) (
              sym (append_assoc f (drop (length f) v) later) ∙ ap (λ t. t ++ later) (sym whole) ∙ e)
          ∙ drop-append_length f others,
    )

-- A buffer that is shorter than the frame is the start of it.
start_of :
    (v later f others : Bytes)
    → v ++ later ≡ f ++ others
    → length v < length f
    → v ≡ take (length v) f
start_of v later f others e lt =
    sym (take-append_length v later)
    ∙ ap (take (length v)) e
    ∙ take-append_within (length v) f others (omega (arith, lt))

-- A round on a whole frame
round_full :
    (fuel dbm : ℕ) (f w : Bytes)
    → IsFrame f
    → (dbm' : ℕ) × (receive_loop (suc fuel) dbm (f ++ w)
        ≡ add_message (message f, dbm') (receive_loop fuel dbm' w))
unfolding receive_loop react
round_full fuel dbm f w h =
    let (i, found, size, same) = check_frame f w h in
    (
      strength dbm i.rssi,
      ap (react dbm (receive_loop fuel)) found
          ∙ ap
              (λ m.
                add_message (m, strength dbm i.rssi)
                  (receive_loop fuel (strength dbm i.rssi) (drop i.frame_length (f ++ w))))
              same
          ∙ ap
              (λ n.
                add_message (message f, strength dbm i.rssi)
                  (receive_loop fuel (strength dbm i.rssi) (drop n (f ++ w))))
              size
          ∙ ap
              (λ v.
                add_message (message f, strength dbm i.rssi)
                  (receive_loop fuel (strength dbm i.rssi) v))
              (drop-append_length f w),
    )

-- A round on the start of a frame
round_start :
    (fuel dbm : ℕ) (f v : Bytes)
    → IsFrame f
    → v ≡ take (length v) f
    → length v < length f
    → receive_loop (suc fuel) dbm v ≡ received [] v
unfolding receive_loop react
round_start fuel dbm f v h e lt =
    ap (λ t. react dbm (receive_loop fuel) (check_im871a_frame t)) e
    ∙ ap (react dbm (receive_loop fuel)) (check_start f (length v) h lt)
    ∙ ap (λ t. received [] t) (sym e)

round_nothing : (fuel dbm : ℕ) → receive_loop (suc fuel) dbm [] ≡ received [] []
unfolding receive_loop react check_im871a_frame
round_nothing fuel dbm = refl

length-IsFrame : (f : Bytes) → IsFrame f → 0 < length f
length-IsFrame f h = let e = ap length h.shape in omega (arith, e)

receive_loop-Handled :
    (fuel dbm : ℕ) (v later : Bytes) (fs : List Bytes)
    → All IsFrame fs
    → v ++ later ≡ concat fs
    → length v < fuel
    → Handled later fs (receive_loop fuel dbm v)
receive_loop-Handled zero dbm v later fs h e lt = absurd (omega (arith, lt))
receive_loop-Handled (suc fuel) dbm v later [] h e lt =
    let none_left = both_empty v later e in
    let round : receive_loop (suc fuel) dbm v ≡ received [] v =
      ap (receive_loop (suc fuel) dbm) none_left
      ∙ round_nothing fuel dbm
      ∙ ap (received []) (sym none_left) in
    rw round (waits [] v e none_left)
receive_loop-Handled (suc fuel) dbm v later (f ∷ fs) h e lt =
    elim (Bool-cases (leb (length f) (length v))) [
      | inl enough ↦
          let w = drop (length f) v in
          let le : length f ≤ length v = ground (arith, enough) in
          let (whole, others) = split_front v later f (concat fs) e le in
          let (dbm', round) = round_full fuel dbm f w h.0 in
          let nonempty = length-IsFrame f h.0 in
          let rest =
            receive_loop-Handled fuel dbm' w later fs h.1 others
              (omega (arith, lt, le, nonempty, length-drop (length f) v)) in
          rw (ap (receive_loop (suc fuel) dbm) whole ∙ round)
            (add_message-Handled later f fs dbm' _ rest)
      | inr short ↦
          let lt' : length v < length f = ground (arith, short) in
          rw (round_start fuel dbm f v h.0 (start_of v later f (concat fs) e lt') lt')
            (waits (f ∷ fs) v e lt')
    ]

-- The messages without their strengths
abbrev messages : List (Message × ℕ) → List Message
messages [] = []
messages ((m, dbm) ∷ ms) = m ∷ messages ms

-- The chunks one after the other, each on the buffer that the one before left: all messages, and the
-- buffer at the end.
pub data Receives : Bytes → List Bytes → List Message → Bytes → Type 0 where
  at_end : (buffer : Bytes) → Receives buffer [] [] buffer
  chunk :
      (buffer c buffer' last : Bytes) (cs : List Bytes) (ms : List (Message × ℕ))
      (ns : List Message)
      → process_serial_data buffer c ≡ received ms buffer'
      → Receives buffer' cs ns last
      → Receives buffer (c ∷ cs) (messages ms ++ ns) last

-- What the frames after a chunk are
abbrev IsRest : List Bytes → List (Message × ℕ) → Bytes → Bytes → List Bytes → Type 0
IsRest fs ms p later hs =
    (map message fs ≡ messages ms ++ map message hs)
    × (p ++ later ≡ concat hs)
    × IsStart p hs
    × All IsFrame hs

frames_left :
    (later : Bytes) (fs : List Bytes) (ms : List (Message × ℕ)) (p : Bytes)
    → Handled later fs (received ms p)
    → All IsFrame fs
    → (hs : List Bytes) × IsRest fs ms p later hs
frames_left later fs ms p (waits _ _ e start) h = (fs, (refl, e, start, h))
frames_left later fs ms p (handles f gs dbm ns _ handled) h =
    let (hs, (same, e, start, all)) = frames_left later gs ns p handled h.1 in
    (hs, (ap (λ t. message f ∷ t) same, e, start, all))

start_at_end :
    (p : Bytes) (fs : List Bytes) → p ++ [] ≡ concat fs → IsStart p fs → (p ≡ []) × (fs ≡ [])
start_at_end p [] e start = (start, refl)
start_at_end p (f ∷ fs) e start = absurd (
    let k = ap length e in omega (arith, k, start, length-append p [], length-append f (concat fs)))

IsStart-nothing : (fs : List Bytes) → All IsFrame fs → IsStart [] fs
IsStart-nothing [] h = refl
IsStart-nothing (f ∷ fs) h = length-IsFrame f h.0

process_serial_data-Handled :
    (buffer c later : Bytes) (fs : List Bytes)
    → All IsFrame fs
    → buffer ++ (c ++ later) ≡ concat fs
    → Handled later fs (process_serial_data buffer c)
unfolding process_serial_data
process_serial_data-Handled buffer c later fs h e =
    receive_loop-Handled _ 0 (buffer ++ c) later fs h (append_assoc buffer c later ∙ e)
      (omega arith)

-- A chunk, where `next` is what is shown of the chunks behind it
Receives-chunk :
    (c : Bytes) (cs : List Bytes) (buffer : Bytes) (fs : List Bytes) (r : Received)
    → All IsFrame fs
    → process_serial_data buffer c ≡ r
    → Handled (concat cs) fs r
    → ((p : Bytes) (hs : List Bytes)
        → All IsFrame hs
        → p ++ concat cs ≡ concat hs
        → IsStart p hs
        → Receives p cs (map message hs) [])
    → Receives buffer (c ∷ cs) (map message fs) []
Receives-chunk c cs buffer fs stuck h q handled next = elim handled [ ]
Receives-chunk c cs buffer fs (received ms p) h q handled next =
    let (hs, (same, e, start, all)) = frames_left (concat cs) fs ms p handled h in
    rw same (chunk buffer c p [] cs ms (map message hs) q (next p hs all e start))

Receives-concat :
    (cs : List Bytes) (buffer : Bytes) (fs : List Bytes)
    → All IsFrame fs
    → buffer ++ concat cs ≡ concat fs
    → IsStart buffer fs
    → Receives buffer cs (map message fs) []
Receives-concat [] buffer fs h e start =
    let (nothing, no_frames) = start_at_end buffer fs e start in rw (nothing, no_frames) (at_end [])
Receives-concat (c ∷ cs) buffer fs h e start =
    Receives-chunk c cs buffer fs _ h refl (process_serial_data-Handled buffer c (concat cs) fs h e)
      (λ p hs. Receives-concat cs p hs)

-- Frames are sent one after the other, and arrive in any chunks, empty ones among them. Then
-- `processSerialData`, called with each chunk in turn on an empty buffer at first, handles the
-- messages of all the frames, each once and in their order, and the buffer is empty at the end.
pub process_serial_data-concat :
    (fs cs : List Bytes)
    → All IsFrame fs
    → concat cs ≡ concat fs
    → Receives [] cs (map message fs) []
process_serial_data-concat fs cs h e = Receives-concat cs [] fs h e (IsStart-nothing fs h)
