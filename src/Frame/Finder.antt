-- ===== src/Frame/Finder.antt =====
-- src/wmbus.cc: what `checkWMBusFrame` finds in a buffer.
use wmbm_16brandnew.Prelude.{
  ℕ, zero, suc, ◌+◌, ◌-◌, ◌≤◌, ◌<◌, ◌≡◌, ◌≢◌, refl, sym, ◌∙◌, ◌⊎◌, inl, inr, ◌&&◌, Option, none,
  some, arith, Bytes, length, ltb, ◌==◌, Bool-cases, Option-cases, ==_iff, u8,
}
use native.Mathlib.Decide.{ℕ_discrete}
use wmbm_16brandnew.Frame.{
  partial_frame, full_frame, error_in_frame, Found, byte_at, find_sync, finish_found,
  check_wmbus_frame,
}

-- A telegram could start at `j`: a byte 0x44 behind a length byte that fits the rest of the buffer,
-- as far as a byte can tell.
abbrev pub IsCandidate : Bytes → ℕ → Type 0
IsCandidate v j = (byte_at v (j + 1) ≡ 0x44) × (byte_at v j + 1 ≡ u8 (length v - j))

find_sync_step :
    (left i : ℕ) (v : Bytes)
    → ((find_sync (suc left) i v ≡ some (byte_at v i, i + 1)) × IsCandidate v i)
      ⊎ ((find_sync (suc left) i v ≡ find_sync left (i + 1) v) × (¬ IsCandidate v i))
unfolding find_sync
find_sync_step left i v =
    elim (Bool-cases ((byte_at v (i + 1) == 0x44) && (byte_at v i + 1 == u8 (length v - i)))) [
      | inl here ↦ inl (rw here, (ground arith, ground arith))
      | inr later ↦ inr (rw later, λ c. ground (arith, later, c))
    ]

find_sync-some :
    (left i : ℕ) (v : Bytes) {p o : ℕ}
    → find_sync left i v ≡ some (p, o)
    → (j : ℕ) × (j < i + left) × (o ≡ j + 1) × (p ≡ byte_at v j) × IsCandidate v j
find_sync-some zero i v e = unfold find_sync in cc
find_sync-some (suc left) i v {p} {o} e = elim (find_sync_step left i v) [
  | inl (here, candidate) ↦
      let same : ◌≡◌ {A = Option (ℕ × ℕ)} (some (byte_at v i, i + 1)) (some (p, o)) =
        sym here ∙ e in
      (i, omega arith, ground (arith, same), ground (arith, same), candidate)
  | inr (later, other) ↦
      let (j, bound, offset, len, candidate) = find_sync-some left (i + 1) v (sym later ∙ e) in
      (j, omega arith, offset, len, candidate)
]

find_sync-none :
    (left i : ℕ) (v : Bytes)
    → find_sync left i v ≡ none
    → (j : ℕ) → i ≤ j
    → j < i + left
    → ¬ IsCandidate v j
find_sync-none zero i v e j lo hi c = absurd (omega arith)
find_sync-none (suc left) i v e j lo hi c = elim (find_sync_step left i v) [
  | inl (here, candidate) ↦ cc (here, e)
  | inr (later, other) ↦ elim (ℕ_discrete i j) [
    | yes same ↦ other (rw same c)
    | no differ ↦ find_sync-none left (i + 1) v (sym later ∙ e) j (omega arith) (omega arith) c
  ]
]

-- What a full frame is: the buffer is kept, the frame ends within it, and the payload length stands
-- before the byte 0x44 at the payload offset.
pub record IsTelegramAt (v : Bytes) (out : Found) : Type 0 where
  pub whole : out.frame_length ≤ length v
  pub sum : out.frame_length ≡ out.payload_len + out.payload_offset
  pub sync : byte_at v out.payload_offset ≡ 0x44
  pub len : byte_at v (out.payload_offset - 1) ≡ out.payload_len

partial-ne-full : partial_frame ≢ full_frame
partial-ne-full e = cc

error-ne-full : error_in_frame ≢ full_frame
error-ne-full e = cc

finish_found_full :
    (v : Bytes) (len offset : ℕ)
    → (finish_found v len offset).0 ≡ full_frame
    → byte_at v offset ≡ 0x44
    → byte_at v (offset - 1) ≡ len
    → ((finish_found v len offset).1 ≡ v) × IsTelegramAt v (finish_found v len offset).2
unfolding finish_found
finish_found_full v len offset e sync before = elim (Bool-cases (ltb (length v) (len + offset))) [
  | inl short ↦ absurd (partial-ne-full (rw short at e))
  | inr enough ↦
      rw enough
        (refl, record { whole = ground (arith, enough); sum = refl; sync = sync; len = before })
]

finish_found-ne-error :
    (v : Bytes) (len offset : ℕ) → (finish_found v len offset).0 ≢ error_in_frame
unfolding finish_found
finish_found-ne-error v len offset e = elim (Bool-cases (ltb (length v) (len + offset))) [
  | inl short ↦ cc (rw short at e)
  | inr enough ↦ cc (rw enough at e)
]

-- Where `checkWMBusFrame` reports a full frame, the buffer is kept, and the three numbers describe a
-- telegram inside it: the frame ends within the buffer, at the payload length behind the payload
-- offset, where the byte 0x44 stands behind the length byte. This holds in sync and out of sync.
pub check_wmbus_frame_full :
    (v : Bytes) (out : Found)
    → (check_wmbus_frame v out).0 ≡ full_frame
    → ((check_wmbus_frame v out).1 ≡ v) × IsTelegramAt v (check_wmbus_frame v out).2
unfolding check_wmbus_frame
check_wmbus_frame_full v out e = elim (Bool-cases (ltb (length v) 11)) [
  | inl short ↦ absurd (partial-ne-full (rw short at e))
  | inr enough ↦ elim (Bool-cases (byte_at v 1 == 0x44)) [
    | inl sync ↦
        rw (enough, sync)
          (finish_found_full v (byte_at v 0) 1 (rw (enough, sync) at e) ((==_iff _ _).0 sync) refl)
    | inr lost ↦ elim (Option-cases (find_sync (length v - 2) 0 v)) [
      | inl nothing ↦ absurd (error-ne-full (rw (enough, lost, nothing) at e))
      | inr ((len, offset), found) ↦
          let (j, bound, at_offset, at_len, candidate) = find_sync-some (length v - 2) 0 v found in
          let before : offset - 1 ≡ j = omega arith in
          rw (enough, lost, found)
            (finish_found_full v len offset (rw (enough, lost, found) at e)
              (rw at_offset candidate.0) (rw before (sym at_len)))
    ]
  ]
]

check_wmbus_frame_no_sync :
    (v : Bytes) (out : Found)
    → (check_wmbus_frame v out).0 ≡ error_in_frame
    → (byte_at v 1 ≢ 0x44) × (find_sync (length v - 2) 0 v ≡ none)
unfolding check_wmbus_frame
check_wmbus_frame_no_sync v out e = elim (Bool-cases (ltb (length v) 11)) [
  | inl short ↦ cc (rw short at e)
  | inr enough ↦ elim (Bool-cases (byte_at v 1 == 0x44)) [
    | inl sync ↦ absurd (finish_found-ne-error v (byte_at v 0) 1 (rw (enough, sync) at e))
    | inr lost ↦ elim (Option-cases (find_sync (length v - 2) 0 v)) [
      | inr ((len, offset), found) ↦
          absurd (finish_found-ne-error v len offset (rw (enough, lost, found) at e))
      | inl nothing ↦ (ground (arith, lost), nothing)
    ]
  ]
]

-- `checkWMBusFrame` clears a buffer only if it is out of sync and no telegram can end it: there is
-- no index `j` at which a length byte, that fits the rest of the buffer, is followed by 0x44.
pub check_wmbus_frame_error :
    (v : Bytes) (out : Found) (j : ℕ)
    → (check_wmbus_frame v out).0 ≡ error_in_frame
    → j + 2 < length v
    → (byte_at v 1 ≢ 0x44) × ¬ IsCandidate v j
check_wmbus_frame_error v out j e h =
    let (lost, nothing) = check_wmbus_frame_no_sync v out e in
    (lost, find_sync-none (length v - 2) 0 v nothing j (omega arith) (omega arith))
