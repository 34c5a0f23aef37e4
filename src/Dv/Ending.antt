-- ===== src/Dv/Ending.antt =====
-- src/dvparser.cc: the loop of `parseDV` comes to an end, since each round passes over a byte of the
-- format.
use wmbm_16brandnew.Prelude.{
  ℕ, zero, suc, ◌-◌, ◌/◌, ◌%◌, ◌≤◌, ◌<◌, ◌≡◌, ◌≢◌, refl, ap, sym, inl, inr, Bool, true, false, List,
  [], ◌∷◌, ◌++◌, arith, Bytes, length, length-drop, if◌then◌else◌, Option-cases, bit_set,
}
use mathlib.Core.Path.{subst}
use wmbm_16brandnew.Dv.{
  DifLength, fixed, variable, special, DvEntry, Numbers, Setup, State, Next, go, stop, fault, stuck,
  front, consume, skip, take_value, take_data, read_data, read_difes, read_vifes, read_vif,
  read_entry, read_dif, dif_len_bytes, round, rounds, out_of_fuel, finish, Telegram, parse_dv,
  parse_dv_format, store_value, pass_value, store, next_count,
}
use wmbm_16brandnew.Hex.{bin2hex}

-- Where there is another round, less than `n` bytes of the format are left for it.
data Below (has : Bool) (n : ℕ) : Next → Type 0 where
  goes : {s : State} → length (front has s) < n → Below has n (go s)
  stops : {s : State} → Below has n (stop s)
  faults : Below has n fault

Below-if :
    (has : Bool) (n : ℕ) (b : Bool) (x y : Next)
    → Below has n x
    → Below has n y
    → Below has n (if b then x else y)
Below-if has n true x y p q = p
Below-if has n false x y p q = q

front-consume_le :
    (has : Bool) (s : State) (b : Bytes)
    → length (front has (consume has s b)) ≤ length (front has s) - length b
unfolding front consume
front-consume_le true s b = omega (arith, length-drop (length b) s.rest)
front-consume_le false s b = omega (arith, length-drop (length b) s.format)

front_mono :
    (has : Bool) (s t : State)
    → length t.rest ≤ length s.rest
    → length t.format ≤ length s.format
    → length (front has t) ≤ length (front has s)
unfolding front
front_mono true s t h k = h
front_mono false s t h k = k

store_value-front :
    (has : Bool) (u : Setup) (s : State) (entry : Bytes → DvEntry) (key rest : Bytes) (datalen : ℕ)
    → length rest ≤ length s.rest
    → length (front has (store_value u s entry key rest datalen)) ≤ length (front has s)
unfolding store_value
store_value-front has u s entry key rest datalen h =
    front_mono has s (store_value u s entry key rest datalen) h (omega arith)

pass_value-front :
    (has : Bool) (s : State) (datalen : ℕ)
    → length (front has (pass_value s s.rest datalen)) ≤ length (front has s)
unfolding pass_value
pass_value-front has s datalen =
    front_mono has s (pass_value s s.rest datalen) (omega (arith, length-drop datalen s.rest))
      (omega arith)

-- A value is taken from what is left of the data, which does not put bytes back.
take_value-Below :
    (u : Setup) (s : State) (entry : Bytes → DvEntry) (key rest : Bytes) (datalen n : ℕ)
    (last : Bool)
    → length rest ≤ length s.rest
    → length (front u.has_difvifs s) < n
    → Below u.has_difvifs n (take_value u s entry key rest datalen last)
unfolding take_value
take_value-Below u s entry key rest datalen n last h k =
    let has = u.has_difvifs in
    let stored = store_value u s entry key rest datalen in
    let first = store_value-front has u s entry key rest datalen h in
    let second : length (front has (pass_value stored rest datalen)) ≤ length (front has stored) =
      unfold store_value in pass_value-front has stored datalen in
    Below-if has n _ _ _ (Below-if has n _ _ _ stops (goes (omega arith)))
      (Below-if has n _ _ _ faults (Below-if has n _ _ _ stops (goes (omega arith))))

take_data-Below :
    (u : Setup) (s : State) (entry : Bytes → DvEntry) (key : Bytes) (len : DifLength)
    (datalen n : ℕ) (last : Bool)
    → length (front u.has_difvifs s) < n
    → Below u.has_difvifs n (take_data u s entry key len datalen last)
unfolding take_data
take_data-Below u s entry key (fixed m) datalen n last k =
    take_value-Below u s entry key s.rest datalen n last (omega arith) k
take_data-Below u s entry key special datalen n last k =
    take_value-Below u s entry key s.rest datalen n last (omega arith) k
take_data-Below u s entry key variable datalen n last k = byte s.rest refl
  where
    byte :
        (r : Bytes)
        → s.rest ≡ r
        → Below u.has_difvifs n (take_data u s entry key variable datalen last)
    byte [] e = rw (e, take_data) faults
    byte (b ∷ rest) e =
        let marked : State = record s { parsed = s.parsed ++ b ∷ [] } in
        let same : length (front u.has_difvifs marked) ≤ length (front u.has_difvifs s) =
          front_mono u.has_difvifs s marked (omega arith) (omega arith) in
        rw (e, take_data)
          (take_value-Below u marked entry key rest datalen n last
            (omega (arith, ap (λ (t : Bytes). length t) e)) (omega arith))

read_data-Below :
    (u : Setup) (s : State) (dif vif : ℕ) (ns : Numbers) (id_bytes : Bytes) (len : DifLength)
    (n : ℕ)
    → length (front u.has_difvifs s) < n
    → Below u.has_difvifs n (read_data u s dif vif ns id_bytes len)
unfolding read_data
read_data-Below u s dif vif ns id_bytes len n k =
    let dv = bin2hex id_bytes in
    let counted : State = record s { counts = store dv (next_count dv s.counts) s.counts } in
    let same : length (front u.has_difvifs counted) ≤ length (front u.has_difvifs s) =
      front_mono u.has_difvifs s counted (omega arith) (omega arith) in
    Below-if u.has_difvifs n _ _ _ (take_data-Below u counted _ _ len _ n _ (omega arith))
      (take_data-Below u counted _ _ len _ n _ (omega arith))

read_vif-Below :
    (u : Setup) (s : State) (dif : ℕ) (ns : Numbers) (id_bytes : Bytes) (len : DifLength) (n : ℕ)
    → length (front u.has_difvifs s) < n
    → Below u.has_difvifs n (read_vif u s dif ns id_bytes len)
unfolding read_vif
read_vif-Below u s dif ns id_bytes len n k = byte (front u.has_difvifs s) refl
  where
    byte :
        (r : Bytes)
        → front u.has_difvifs s ≡ r
        → Below u.has_difvifs n (read_vif u s dif ns id_bytes len)
    byte [] e = rw (e, read_vif) stops
    byte (vif ∷ more) e =
        let s' = consume u.has_difvifs s (vif ∷ []) in
        let vifes = read_vifes (bit_set vif 7) more in
        let first = front-consume_le u.has_difvifs s (vif ∷ []) in
        let second = front-consume_le u.has_difvifs s' vifes in
        rw (e, read_vif)
          (read_data-Below u (consume u.has_difvifs s' vifes) dif vif ns _ len n (omega arith))

abbrev first_numbers : ℕ → Numbers
first_numbers dif = record { storage_nr = dif / 64 % 2; tariff_nr = 0; subunit_nr = 0 }

read_entry-Below :
    (u : Setup) (s : State) (dif : ℕ) (len : DifLength)
    → 0 < length (front u.has_difvifs s)
    → Below u.has_difvifs (length (front u.has_difvifs s)) (read_entry u s dif len)
unfolding read_entry
read_entry-Below u s dif len k =
    let has = u.has_difvifs in
    let s' = consume has s (dif ∷ []) in
    let first = front-consume_le has s (dif ∷ []) in
    elim (Option-cases (read_difes (bit_set dif 7) (front has s') 0 (first_numbers dif))) [
      | inl e ↦ rw (e, read_entry) faults
      | inr (r, e) ↦
          let second = front-consume_le has s' r.0 in
          rw (e, read_entry) (read_vif-Below u (consume has s' r.0) dif r.1 _ len _ (omega arith))
    ]

front-skip :
    (has : Bool) (s : State)
    → 0 < length (front has s)
    → length (front has (skip has s)) < length (front has s)
unfolding front skip
front-skip true s h = omega (arith, length-drop 1 s.rest)
front-skip false s h = omega (arith, length-drop 1 s.format)

read_dif-Below :
    (u : Setup) (s : State) (dif : ℕ) (len : DifLength)
    → 0 < length (front u.has_difvifs s)
    → Below u.has_difvifs (length (front u.has_difvifs s)) (read_dif u s dif len)
unfolding read_dif
read_dif-Below u s dif special k = Below-if u.has_difvifs _ _ _ _ stops stops
read_dif-Below u s dif variable k = read_entry-Below u s dif variable k
read_dif-Below u s dif (fixed n) k =
    Below-if u.has_difvifs _ _ _ _ (goes (front-skip u.has_difvifs s k))
      (read_entry-Below u s dif (fixed n) k)

round-Below :
    (u : Setup) (s : State) → Below u.has_difvifs (length (front u.has_difvifs s)) (round u s)
unfolding round
round-Below u s = byte (front u.has_difvifs s) refl
  where
    byte :
        (r : Bytes)
        → front u.has_difvifs s ≡ r
        → Below u.has_difvifs (length (front u.has_difvifs s)) (round u s)
    byte [] e = rw (e, round) stops
    byte (dif ∷ more) e =
        let some_left : 0 < length (front u.has_difvifs s) =
          omega (arith, ap (λ (t : Bytes). length t) e) in
        subst (λ t. Below u.has_difvifs (length (front u.has_difvifs s)) t) (sym (rw (e, round)))
          (read_dif-Below u s dif (dif_len_bytes dif) some_left)

-- How the loop ends: by a break, or by a step that C++ leaves undefined.
pub data Ends : Next → Type 0 where
  breaks : {s : State} → Ends (stop s)
  breaks_down : Ends fault

rounds_step :
    (fuel : ℕ) (u : Setup) (s : State) (r : Next) (n : ℕ)
    → round u s ≡ r
    → Below u.has_difvifs n r
    → n < suc fuel
    → ((t : State) → length (front u.has_difvifs t) < fuel → Ends (rounds fuel u t))
    → Ends (rounds (suc fuel) u s)
unfolding rounds
rounds_step fuel u s (go t) n e (goes lt) h ih = rw (e, rounds) (ih t (omega arith))
rounds_step fuel u s (stop t) n e stops h ih = rw (e, rounds) breaks
rounds_step fuel u s fault n e faults h ih = rw (e, rounds) breaks_down
rounds_step fuel u s stuck n e b h ih = elim b [ ]

rounds-Ends :
    (fuel : ℕ) (u : Setup) (s : State)
    → length (front u.has_difvifs s) < fuel
    → Ends (rounds fuel u s)
rounds-Ends zero u s h = absurd (omega (arith, h))
rounds-Ends (suc fuel) u s h =
    rounds_step fuel u s (round u s) (length (front u.has_difvifs s)) refl (round-Below u s) h
      (rounds-Ends fuel u)

finish-Ends :
    (has : Bool) (formats : List (ℕ × Bytes)) (r : Next)
    → Ends r
    → finish has formats r ≢ out_of_fuel
unfolding finish
finish-Ends has formats (stop s) breaks e = cc
finish-Ends has formats fault breaks_down e = cc
finish-Ends has formats (go _) ends e = elim ends [ ]
finish-Ends has formats stuck ends e = elim ends [ ]

-- The loop of the parser of values ends on every input: with one round more than the bytes of the
-- data, or of the format where one is supplied, it reaches a break or a step that C++ leaves
-- undefined, and never runs out of rounds.
pub parse_dv_ends :
    (t : Telegram) (bytes format : Bytes)
    → (parse_dv t bytes ≢ out_of_fuel) × (parse_dv_format t bytes format ≢ out_of_fuel)
unfolding parse_dv parse_dv_format front
parse_dv_ends t bytes format = (
  finish-Ends true t.formats _ (rounds-Ends _ _ _ (omega arith)),
  finish-Ends false t.formats _ (rounds-Ends _ _ _ (omega arith)),
)
