-- ===== src/Dv/Conservation.antt =====
-- src/dvparser.cc: the bytes that `parseDV` marks as parsed are those of the data, one after the
-- other, so that the offsets it stores with the values are offsets into the telegram.
use wmbm_16brandnew.Prelude.{
  ℕ, zero, suc, ◌+◌, ◌*◌, ◌/◌, ◌%◌, ◌≡◌, refl, ap, sym, ◌∙◌, inl, inr, Bool, true, false, Option,
  none, some, List, [], ◌∷◌, ◌++◌, Bytes, take, drop, take-append-drop, drop-append_length, ◌==◌,
  if◌then◌else◌, Bool-cases, Option-cases, ==_iff, bit_set,
}
use mathlib.Core.List.{append-nil, append_assoc}
use wmbm_16brandnew.Dv.{
  DifLength, fixed, variable, special, DvEntry, Numbers, Setup, State, Next, go, stop, fault, stuck,
  front, consume, skip, mfct_data, take_value, take_data, read_data, read_difes, read_vifes,
  read_vif, read_entry, read_dif, dif_len_bytes, round, rounds, Parsed, done, finish, Telegram,
  parse_dv, store_value, pass_value, initial, add_dife, shift_int,
}

-- The bytes that are marked as parsed and those that are left make up `whole`.
pub data Keeps (whole : Bytes) : Next → Type 0 where
  goes : {s : State} → s.parsed ++ s.rest ≡ whole → Keeps whole (go s)
  stops : {s : State} → s.parsed ++ s.rest ≡ whole → Keeps whole (stop s)
  faults : Keeps whole fault
  runs_out : Keeps whole stuck

Keeps-if :
    (whole : Bytes) (b : Bool) (x y : Next)
    → Keeps whole x
    → Keeps whole y
    → Keeps whole (if b then x else y)
Keeps-if whole true x y p q = p
Keeps-if whole false x y p q = q

-- Passing over a front part `b` of what is left.
consume_keeps :
    (s : State) (b more : Bytes)
    → s.rest ≡ b ++ more
    → (consume true s b).parsed ++ (consume true s b).rest ≡ s.parsed ++ s.rest
unfolding consume
consume_keeps s b more e = rw (e, drop-append_length b more, append_assoc s.parsed b more) refl

consume-rest : (s : State) (b more : Bytes) → s.rest ≡ b ++ more → (consume true s b).rest ≡ more
unfolding consume
consume-rest s b more e = rw (e, drop-append_length b more) refl

pass_value_keeps :
    (s : State) (rest : Bytes) (datalen : ℕ)
    → (pass_value s rest datalen).parsed ++ (pass_value s rest datalen).rest ≡ s.parsed ++ rest
unfolding pass_value
pass_value_keeps s rest datalen =
    append_assoc s.parsed (take datalen rest) (drop datalen rest)
    ∙ ap (λ t. s.parsed ++ t) (take-append-drop datalen rest)

take_value-Keeps :
    (u : Setup) (s : State) (entry : Bytes → DvEntry) (key rest : Bytes) (datalen : ℕ) (last : Bool)
    (whole : Bytes)
    → s.parsed ++ rest ≡ whole
    → Keeps whole (take_value u s entry key rest datalen last)
unfolding take_value store_value
take_value-Keeps u s entry key rest datalen last whole e =
    let stored = store_value u s entry key rest datalen in
    let second = pass_value_keeps stored rest datalen ∙ e in
    Keeps-if whole _ _ _ (Keeps-if whole _ _ _ (stops e) (goes e))
      (Keeps-if whole _ _ _ faults (Keeps-if whole _ _ _ (stops second) (goes second)))

take_data-Keeps :
    (u : Setup) (s : State) (entry : Bytes → DvEntry) (key : Bytes) (len : DifLength) (datalen : ℕ)
    (last : Bool) (whole : Bytes)
    → s.parsed ++ s.rest ≡ whole
    → Keeps whole (take_data u s entry key len datalen last)
unfolding take_data
take_data-Keeps u s entry key (fixed m) datalen last whole k =
    take_value-Keeps u s entry key s.rest datalen last whole k
take_data-Keeps u s entry key special datalen last whole k =
    take_value-Keeps u s entry key s.rest datalen last whole k
take_data-Keeps u s entry key variable datalen last whole k = byte s.rest refl
  where
    byte : (r : Bytes) → s.rest ≡ r → Keeps whole (take_data u s entry key variable datalen last)
    byte [] e = rw (e, take_data) faults
    byte (b ∷ rest) e =
        let marked : State = record s { parsed = s.parsed ++ b ∷ [] } in
        let kept : marked.parsed ++ rest ≡ whole =
          append_assoc s.parsed (b ∷ []) rest ∙ ap (λ t. s.parsed ++ t) (sym e) ∙ k in
        rw (e, take_data) (take_value-Keeps u marked entry key rest datalen last whole kept)

read_data-Keeps :
    (u : Setup) (s : State) (dif vif : ℕ) (ns : Numbers) (id_bytes : Bytes) (len : DifLength)
    (whole : Bytes)
    → s.parsed ++ s.rest ≡ whole
    → Keeps whole (read_data u s dif vif ns id_bytes len)
unfolding read_data
read_data-Keeps u s dif vif ns id_bytes len whole k =
    Keeps-if whole _ _ _ (take_data-Keeps u _ _ _ len _ _ whole k)
      (take_data-Keeps u _ _ _ len _ _ whole k)

-- The extension bytes are a front part of the bytes that they are read from.
read_vifes_front :
    (more : Bool) (bytes : Bytes) → (r : Bytes) × (bytes ≡ read_vifes more bytes ++ r)
unfolding read_vifes
read_vifes_front false bytes = (bytes, refl)
read_vifes_front true [] = ([], refl)
read_vifes_front true (b ∷ bytes) =
    let (r, e) = read_vifes_front (bit_set b 7) bytes in (r, ap (λ t. b ∷ t) e)

data Front (bytes : Bytes) : Option (Bytes × Numbers) → Type 0 where
  nothing : Front bytes none
  leaves :
      {difes : Bytes} {n : Numbers} (r : Bytes) → bytes ≡ difes ++ r → Front bytes (some (difes, n))

Front-cons :
    (b : ℕ) (bytes : Bytes) (r : Option (Bytes × Numbers))
    → Front bytes r
    → Front (b ∷ bytes) (elim r [ none ↦ none | some (difes, n) ↦ some (b ∷ difes, n) ])
Front-cons b bytes none f = nothing
Front-cons b bytes (some (difes, n)) (leaves r e) = leaves r (ap (λ t. b ∷ t) e)

read_difes-Front :
    (more : Bool) (bytes : Bytes) (nr : ℕ) (n : Numbers) → Front bytes (read_difes more bytes nr n)
unfolding read_difes
read_difes-Front false bytes nr n = leaves bytes refl
read_difes-Front true [] nr n = leaves [] refl
read_difes-Front true (b ∷ bytes) nr n =
    elim (Option-cases (
      add_dife (shift_int (b % 16) (1 + nr * 4)) (shift_int (b / 16 % 4) (nr * 2))
        (shift_int (b / 64 % 2) nr) n)) [
          | inl e ↦ rw (e, read_difes) nothing
          | inr (m, e) ↦
              rw (e, read_difes)
                (Front-cons b bytes _ (read_difes-Front (bit_set b 7) bytes (nr + 1) m))
        ]

-- No format is supplied: the data has its own DIFs and VIFs.
abbrev own : ℕ → ℕ → Setup
own start data_len = record { has_difvifs = true; start = start; data_len = data_len }

read_vif-Keeps :
    (n len : ℕ) (s : State) (dif : ℕ) (ns : Numbers) (id_bytes : Bytes) (l : DifLength)
    (whole : Bytes)
    → s.parsed ++ s.rest ≡ whole
    → Keeps whole (read_vif (own n len) s dif ns id_bytes l)
unfolding read_vif front
read_vif-Keeps n len s dif ns id_bytes l whole k = byte s.rest refl
  where
    byte : (r : Bytes) → s.rest ≡ r → Keeps whole (read_vif (own n len) s dif ns id_bytes l)
    byte [] e = rw (e, read_vif) (stops k)
    byte (vif ∷ more) e =
        let s' = consume true s (vif ∷ []) in
        let vifes = read_vifes (bit_set vif 7) more in
        let (r, split) = read_vifes_front (bit_set vif 7) more in
        let left : s'.rest ≡ vifes ++ r = consume-rest s (vif ∷ []) more e ∙ split in
        let kept = consume_keeps s' vifes r left ∙ consume_keeps s (vif ∷ []) more e ∙ k in
        rw (e, read_vif)
          (read_data-Keeps (own n len) (consume true s' vifes) dif vif ns _ l whole kept)

read_entry-Keeps :
    (n len : ℕ) (s : State) (dif : ℕ) (more : Bytes) (l : DifLength) (whole : Bytes)
    → s.rest ≡ dif ∷ more
    → s.parsed ++ s.rest ≡ whole
    → Keeps whole (read_entry (own n len) s dif l)
unfolding read_entry front
read_entry-Keeps n len s dif more l whole e k =
    difes (read_difes (bit_set dif 7) (consume true s (dif ∷ [])).rest 0 _) refl
      (read_difes-Front _ _ _ _)
  where
    difes :
        (r : Option (Bytes × Numbers))
        → read_difes
            (bit_set dif 7)
            (consume true s (dif ∷ [])).rest
            0
            (record { storage_nr = dif / 64 % 2; tariff_nr = 0; subunit_nr = 0 })
          ≡ r
        → Front (consume true s (dif ∷ [])).rest r
        → Keeps whole (read_entry (own n len) s dif l)
    difes none p f = rw (p, read_entry) faults
    difes (some (b, m)) p (leaves r split) =
        let s' = consume true s (dif ∷ []) in
        let kept = consume_keeps s' b r split ∙ consume_keeps s (dif ∷ []) more e ∙ k in
        rw (p, read_entry) (read_vif-Keeps n len (consume true s' b) dif m _ l whole kept)

skip_keeps :
    (s : State) (more : Bytes)
    → s.rest ≡ 0x2f ∷ more
    → (skip true s).parsed ++ (skip true s).rest ≡ s.parsed ++ s.rest
unfolding skip
skip_keeps s more e = rw (e, append_assoc s.parsed (0x2f ∷ []) more) refl

read_dif-Keeps :
    (n len : ℕ) (s : State) (dif : ℕ) (more : Bytes) (l : DifLength) (whole : Bytes)
    → s.rest ≡ dif ∷ more
    → s.parsed ++ s.rest ≡ whole
    → Keeps whole (read_dif (own n len) s dif l)
unfolding read_dif mfct_data
read_dif-Keeps n len s dif more special whole e k =
    Keeps-if whole _ _ _ (stops (rw (append-nil (s.parsed ++ s.rest)) k)) (stops k)
read_dif-Keeps n len s dif more variable whole e k =
    read_entry-Keeps n len s dif more variable whole e k
read_dif-Keeps n len s dif more (fixed m) whole e k = elim (Bool-cases (dif == 0x2f)) [
  | inl y ↦
      let is_skip : dif ≡ 0x2f = (==_iff dif 0x2f).0 y in
      rw y (goes (skip_keeps s more (e ∙ ap (λ t. t ∷ more) is_skip) ∙ k))
  | inr y ↦ rw y (read_entry-Keeps n len s dif more (fixed m) whole e k)
]

round-Keeps :
    (n len : ℕ) (s : State) (whole : Bytes)
    → s.parsed ++ s.rest ≡ whole
    → Keeps whole (round (own n len) s)
unfolding round front
round-Keeps n len s whole k = byte s.rest refl
  where
    byte : (r : Bytes) → s.rest ≡ r → Keeps whole (round (own n len) s)
    byte [] e = rw (e, round) (stops k)
    byte (dif ∷ more) e =
        rw (e, round) (read_dif-Keeps n len s dif more (dif_len_bytes dif) whole e k)

rounds_step :
    (fuel n len : ℕ) (s : State) (r : Next) (whole : Bytes)
    → round (own n len) s ≡ r
    → Keeps whole r
    → ((t : State) → t.parsed ++ t.rest ≡ whole → Keeps whole (rounds fuel (own n len) t))
    → Keeps whole (rounds (suc fuel) (own n len) s)
unfolding rounds
rounds_step fuel n len s (go t) whole e (goes k) ih = rw (e, rounds) (ih t k)
rounds_step fuel n len s (stop t) whole e (stops k) ih = rw (e, rounds) (stops k)
rounds_step fuel n len s fault whole e k ih = rw (e, rounds) faults
rounds_step fuel n len s stuck whole e k ih = rw (e, rounds) runs_out

rounds-Keeps :
    (fuel n len : ℕ) (s : State) (whole : Bytes)
    → s.parsed ++ s.rest ≡ whole
    → Keeps whole (rounds fuel (own n len) s)
unfolding rounds
rounds-Keeps zero n len s whole k = runs_out
rounds-Keeps (suc fuel) n len s whole k =
    rounds_step fuel n len s (round (own n len) s) whole refl (round-Keeps n len s whole k)
      (λ t h. rounds-Keeps fuel n len t whole h)

finish-Keeps :
    (whole : Bytes) (has : Bool) (formats : List (ℕ × Bytes)) (r : Next) (t : Telegram)
    → Keeps whole r
    → finish has formats r ≡ done t
    → (rest : Bytes) × (t.parsed_bytes ++ rest ≡ whole)
unfolding finish
finish-Keeps whole has formats (stop s) t (stops k) e =
    (s.rest, ap (λ b. b ++ s.rest) (sym (ap parsed_of e)) ∙ k)
  where
    parsed_of : Parsed → Bytes
    parsed_of (done t) = t.parsed_bytes
    parsed_of _ = []
finish-Keeps whole has formats (go _) t k e = cc
finish-Keeps whole has formats fault t k e = cc
finish-Keeps whole has formats stuck t k e = cc

pub parse_dv_in_order :
    (t t' : Telegram) (bytes : Bytes)
    → parse_dv t bytes ≡ done t'
    → (rest : Bytes) × (t'.parsed_bytes ++ rest ≡ t.parsed_bytes ++ bytes)
unfolding parse_dv
parse_dv_in_order t t' bytes e =
    finish-Keeps _ true t.formats _ t' (rounds-Keeps _ _ _ (initial t bytes []) _ refl) e
