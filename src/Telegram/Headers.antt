-- ===== src/Telegram/Headers.antt =====
-- src/wmbus.cc: when `parseDLL` and `parseMBusDLL` read what is not there.
use wmbm_16brandnew.Prelude.{
  ℕ, ◌≤◌, ◌<◌, Bool, true, false, [], ◌∷◌, ◌++◌, Bytes, get_or, take, length, ltb, ◌==◌,
  if◌then◌else◌, ◌≡◌, refl, sym, ap, ◌∙◌, ◌≢◌, arith, inl, inr, ◌⊎◌, Bool-cases, ◌↔◌,
}
use wmbm_16brandnew.Telegram.{
  Telegram, ok, stops, faults, Action, stop, ◌>>=◌, peek, take_byte, take_bytes,
}
use wmbm_16brandnew.Telegram.DataLink.{take_length, set_dll, parse_dll, parse_mbus_dll, set_mbus_id}
use wmbm_16brandnew.Telegram.Safety.{
  Needs->>=, take_bytes-Needs, take_byte-Needs, modify-Needs, no_fault,
}

positive_length : (b : ℕ) (v : Bytes) → (length (b ∷ v) == 0) ≡ false
positive_length b v = ground arith

pub test_false :
    {A : Type 0} {b : Bool} (m n : Action A) (t : Telegram)
    → b ≡ false
    → (if b then m else n) t ≡ n t
test_false m n t e = rw e refl

test_true :
    {A : Type 0} {b : Bool} (m n : Action A) (t : Telegram)
    → b ≡ true
    → (if b then m else n) t ≡ m t
test_true m n t e = rw e refl

take_length_tests :
    (t : Telegram) (b : ℕ) (v : Bytes)
    → t.rest ≡ b ∷ v
    → take_length t ≡ (if ltb (length t.rest) b then stop else take_byte) t
unfolding take_length peek ◌>>=◌
take_length_tests t b v e = rw (e, positive_length b v) refl

-- The test of the length is passed.
take_length_passes :
    (t : Telegram)
    → 0 < length t.rest
    → get_or t.rest 0 0 ≤ length t.rest
    → take_length t ≡ take_byte t
take_length_passes t h le = go t.rest refl
  where
    go : (v : Bytes) → t.rest ≡ v → take_length t ≡ take_byte t
    go [] e = absurd (let k = ap length e in omega (arith, h, k))
    go (b ∷ v) e =
        take_length_tests t b v e
        ∙ test_false stop take_byte t (let k = ap (λ w. get_or w 0 0) e in ground (arith, le, k))

take_length_nil : (t : Telegram) → t.rest ≡ [] → take_length t ≡ stops t
unfolding take_length ◌>>=◌
take_length_nil t e = rw e refl

-- It is not passed.
take_length-stops :
    (t : Telegram)
    → (length t.rest ≡ 0) ⊎ (length t.rest < get_or t.rest 0 0)
    → take_length t ≡ stops t
take_length-stops t h = go t.rest refl
  where
    go : (v : Bytes) → t.rest ≡ v → take_length t ≡ stops t
    go [] e = take_length_nil t e
    go (b ∷ v) e =
        take_length_tests t b v e
        ∙ test_true stop take_byte t
            (let k = ap (λ w. get_or w 0 0) e in let n = ap length e in ground (arith, h, k, n))

pub bind_step :
    {A B : Type 0} (m n : Action A) (f : A → Action B) (t : Telegram)
    → m t ≡ n t
    → (m >>= f) t ≡ (n >>= f) t
unfolding ◌>>=◌
bind_step m n f t e =
    ap (λ o. elim o [ ok a t' ↦ f a t' | stops t' ↦ stops t' | faults ↦ faults ]) e

parse_dll_short :
    (t : Telegram) (v : Bytes)
    → take_length t ≡ take_byte t
    → t.rest ≡ v
    → length v < 10
    → parse_dll t ≡ faults
unfolding parse_dll take_byte take_bytes ◌>>=◌
parse_dll_short t [] opens e lt = bind_step take_length take_byte _ t opens ∙ rw e refl
parse_dll_short t (_ ∷ []) opens e lt = bind_step take_length take_byte _ t opens ∙ rw e refl
parse_dll_short t (_ ∷ _ ∷ []) opens e lt = bind_step take_length take_byte _ t opens ∙ rw e refl
parse_dll_short t (_ ∷ _ ∷ _ ∷ []) opens e lt =
    bind_step take_length take_byte _ t opens ∙ rw e refl
parse_dll_short t (_ ∷ _ ∷ _ ∷ _ ∷ []) opens e lt =
    bind_step take_length take_byte _ t opens ∙ rw e refl
parse_dll_short t (_ ∷ _ ∷ _ ∷ _ ∷ _ ∷ []) opens e lt =
    bind_step take_length take_byte _ t opens ∙ rw e refl
parse_dll_short t (_ ∷ _ ∷ _ ∷ _ ∷ _ ∷ _ ∷ []) opens e lt =
    bind_step take_length take_byte _ t opens ∙ rw e refl
parse_dll_short t (_ ∷ _ ∷ _ ∷ _ ∷ _ ∷ _ ∷ _ ∷ []) opens e lt =
    bind_step take_length take_byte _ t opens ∙ rw e refl
parse_dll_short t (_ ∷ _ ∷ _ ∷ _ ∷ _ ∷ _ ∷ _ ∷ _ ∷ []) opens e lt =
    bind_step take_length take_byte _ t opens ∙ rw e refl
parse_dll_short t (_ ∷ _ ∷ _ ∷ _ ∷ _ ∷ _ ∷ _ ∷ _ ∷ _ ∷ []) opens e lt =
    bind_step take_length take_byte _ t opens ∙ rw e refl
parse_dll_short t (_ ∷ _ ∷ _ ∷ _ ∷ _ ∷ _ ∷ _ ∷ _ ∷ _ ∷ _ ∷ _) opens e lt = absurd (omega arith)

parse_dll_long :
    (t : Telegram) → take_length t ≡ take_byte t → 10 ≤ length t.rest → parse_dll t ≢ faults
unfolding parse_dll set_dll
parse_dll_long t opens le q =
    no_fault
      ((Needs->>= take_byte-Needs λ len. Needs->>= take_byte-Needs λ c.
          Needs->>= (take_bytes-Needs 2) λ mfct_b. Needs->>= (take_bytes-Needs 4) λ id_b.
            Needs->>= take_byte-Needs λ version.
              Needs->>= take_byte-Needs
                λ type_. modify-Needs (set_dll len c mfct_b id_b version type_) λ t'. refl).run
        t le)
      (sym (bind_step take_length take_byte _ t opens) ∙ q)

parse_dll-stops : (t : Telegram) → take_length t ≡ stops t → parse_dll t ≡ stops t
unfolding parse_dll ◌>>=◌
parse_dll-stops t stopped = bind_step take_length stop _ t stopped

parse_dll_faults_only :
    (t : Telegram)
    → parse_dll t ≡ faults
    → (0 < length t.rest) × (get_or t.rest 0 0 ≤ length t.rest) × (length t.rest < 10)
parse_dll_faults_only t q = elim (Bool-cases (length t.rest == 0)) [
  | inl none_left ↦ absurd (
      let e = sym (parse_dll-stops t (take_length-stops t (inl (ground (arith, none_left))))) ∙ q in
      cc)
  | inr some_left ↦ elim (Bool-cases (ltb (length t.rest) (get_or t.rest 0 0))) [
    | inl longer ↦ absurd (
        let e = sym (parse_dll-stops t (take_length-stops t (inr (ground (arith, longer))))) ∙ q in
        cc)
    | inr fits ↦
        let h : 0 < length t.rest = ground (arith, some_left) in
        let le : get_or t.rest 0 0 ≤ length t.rest = ground (arith, fits) in
        elim (Bool-cases (ltb (length t.rest) 10)) [
          | inl short ↦ (h, le, ground (arith, short))
          | inr enough ↦
              absurd (parse_dll_long t (take_length_passes t h le) (ground (arith, enough)) q)
        ]
  ]
]

-- The parser of the data link layer reads past the end of the frame exactly if the frame is shorter
-- than the ten bytes of that layer, but not shorter than its first byte says: the length that a frame
-- gives itself is all that is tested.
pub parse_dll_faults :
    (t : Telegram)
    → (parse_dll t ≡ faults)
      ↔ ((0 < length t.rest) × (get_or t.rest 0 0 ≤ length t.rest) × (length t.rest < 10))
parse_dll_faults t = (
  parse_dll_faults_only t,
  (λ h. parse_dll_short t t.rest (take_length_passes t h.0 h.1) refl h.2),
)

-- The telegram behind its next byte
abbrev pub passed : ℕ → Bytes → Telegram → Telegram
passed b v t = record t { before = t.before ++ b ∷ []; rest = v; parsed = t.parsed ++ b ∷ [] }

take_byte_step :
    (t : Telegram) (b : ℕ) (v : Bytes) → t.rest ≡ b ∷ v → take_byte t ≡ ok b (passed b v t)
unfolding take_byte take_bytes ◌>>=◌
take_byte_step t b v e =
    bind_step (take_bytes 1) (λ t'. ok (take 1 t'.rest) (passed (get_or t'.rest 0 0) v t')) _ t
      (let p : ltb (length t.rest) 1 ≡ false = let k = ap length e in ground (arith, k) in
        rw (p, e) refl)
    ∙ rw e refl

pub byte_then :
    {A : Type 0} (f : ℕ → Action A) (t : Telegram) (b : ℕ) (v : Bytes)
    → t.rest ≡ b ∷ v
    → (take_byte >>= f) t ≡ f b (passed b v t)
unfolding ◌>>=◌
byte_then f t b v e = bind_step take_byte (λ _. ok b (passed b v t)) f t (take_byte_step t b v e)

no_byte_then :
    {A : Type 0} (f : ℕ → Action A) (t : Telegram) → t.rest ≡ [] → (take_byte >>= f) t ≡ faults
unfolding take_byte take_bytes ◌>>=◌
no_byte_then f t e = rw e refl

parse_mbus_dll_from :
    (t : Telegram) (v : Bytes)
    → t.dll.a ≡ []
    → take_length t ≡ take_byte t
    → t.rest ≡ v
    → parse_mbus_dll t ≡ faults
unfolding parse_mbus_dll set_mbus_id ◌>>=◌
parse_mbus_dll_from t [] a opens e = bind_step take_length take_byte _ t opens ∙ no_byte_then _ t e
parse_mbus_dll_from t (len ∷ []) a opens e =
    bind_step take_length take_byte _ t opens ∙ byte_then _ t len [] e ∙ no_byte_then _ _ refl
parse_mbus_dll_from t (len ∷ c ∷ []) a opens e =
    bind_step take_length take_byte _ t opens
    ∙ byte_then _ t len (c ∷ []) e
    ∙ byte_then _ _ c [] refl
    ∙ no_byte_then _ _ refl
parse_mbus_dll_from t (len ∷ c ∷ address ∷ v) a opens e =
    bind_step take_length take_byte _ t opens
    ∙ byte_then _ t len (c ∷ address ∷ v) e
    ∙ byte_then _ _ c (address ∷ v) refl
    ∙ byte_then _ _ address v refl
    ∙ rw a refl

-- On a telegram whose wireless address is empty, as it is before any header was parsed, the parser of
-- the header of a wired telegram never comes to its end: where the test of the length is passed, it
-- reads a byte that is not there.
pub parse_mbus_dll_faults :
    (t : Telegram)
    → t.dll.a ≡ []
    → 0 < length t.rest
    → get_or t.rest 0 0 ≤ length t.rest
    → parse_mbus_dll t ≡ faults
parse_mbus_dll_faults t a h le = parse_mbus_dll_from t t.rest a (take_length_passes t h le) refl
