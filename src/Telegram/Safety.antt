-- ===== src/Telegram/Safety.antt =====
-- src/wmbus.cc: how many bytes the parts of the parser need, so that none of them reads past the end.
use wmbm_16brandnew.Prelude.{
  ℕ, ◌+◌, ◌≤◌, Bool, true, false, get_or, length, ltb, ◌≡◌, ◌≢◌, arith, inl, inr, Bool-cases,
  length-drop,
}
use wmbm_16brandnew.Telegram.{
  Telegram, Outcome, ok, stops, faults, Action, pure, stop, ◌>>=◌, gets, modify, take_byte,
  take_bytes,
}
use wmbm_16brandnew.Telegram.Authentication.{when}

-- It comes to a value and leaves all but `n` bytes at least, or it stops.
pub data Spends {A : Type 0} (left n : ℕ) : Outcome A → Type 0 where
  ends : (a : A) (t : Telegram) → left ≤ length t.rest + n → Spends left n (ok a t)
  quits : (t : Telegram) → Spends left n (stops t)

-- With `n` bytes left, it does not read past the end, and reads no more than those.
pub record Needs {A : Type 0} (n : ℕ) (m : Action A) : Type 0 where
  pub run : (t : Telegram) → n ≤ length t.rest → Spends (length t.rest) n (m t)

Spends-weaken :
    {A : Type 0} {left n k : ℕ} {o : Outcome A} → n ≤ k → Spends left n o → Spends left k o
Spends-weaken le (ends a t e) = ends a t (omega arith)
Spends-weaken le (quits t) = quits t

pub Needs-weaken : {A : Type 0} {n k : ℕ} {m : Action A} → n ≤ k → Needs n m → Needs k m
Needs-weaken le h = record { run = λ t e. Spends-weaken le (h.run t (omega arith)) }

Spends-shift :
    {A : Type 0} {left left' k : ℕ} {o : Outcome A} (n : ℕ)
    → left ≤ left' + n
    → Spends left' k o
    → Spends left (n + k) o
Spends-shift n le (ends a t e) = ends a t (omega arith)
Spends-shift n le (quits t) = quits t

Spends-bind :
    {A B : Type 0} {left n k : ℕ} {o : Outcome A} {f : A → Action B}
    → Spends left n o
    → n + k ≤ left
    → ((a : A) → Needs k (f a))
    → Spends left (n + k) (elim o [ ok a t' ↦ f a t' | stops t' ↦ stops t' | faults ↦ faults ])
Spends-bind {n = n} (ends a t e) le g = Spends-shift n e ((g a).run t (omega arith))
Spends-bind (quits t) le g = quits t

pub Needs->>= :
    {A B : Type 0} {n k : ℕ} {m : Action A} {f : A → Action B}
    → Needs n m
    → ((a : A) → Needs k (f a))
    → Needs (n + k) (m >>= f)
unfolding ◌>>=◌
Needs->>= h g = record { run = λ t le. Spends-bind (h.run t (omega arith)) le g }

pub take_bytes-Needs : (n : ℕ) → Needs n (take_bytes n)
unfolding take_bytes
take_bytes-Needs n = record {
  run = λ t le. elim (Bool-cases (ltb (length t.rest) n)) [
    | inl short ↦ absurd (ground (arith, short))
    | inr long ↦ rw long (ends _ _ (omega (arith, length-drop n t.rest)))
  ];
}

pub pure-Needs : {A : Type 0} (a : A) → Needs 0 (pure a)
pure-Needs a = record { run = λ t le. ends _ _ (omega arith) }

pub take_byte-Needs : Needs 1 take_byte
unfolding take_byte
take_byte-Needs = Needs->>= (take_bytes-Needs 1) (λ b. pure-Needs (get_or b 0 0))

pub modify-Needs :
    (f : Telegram → Telegram)
    → ((t : Telegram) → length (f t).rest ≡ length t.rest)
    → Needs 0 (modify f)
modify-Needs f e = record { run = λ t le. ends _ _ (omega (arith, e t)) }

pub gets-Needs : {A : Type 0} (f : Telegram → A) → Needs 0 (gets f)
gets-Needs f = record { run = λ t le. ends _ _ (omega arith) }

pub stop-Needs : {A : Type 0} → Needs {A = A} 0 stop
stop-Needs = record { run = λ t le. quits t }

pub when-Needs : (b : Bool) (n : ℕ) {m : Action (Unit {0})} → Needs n m → Needs n (when b m)
when-Needs true n h = h
when-Needs false n h = Needs-weaken (omega arith) (pure-Needs tt)

pub no_fault : {A : Type 0} {left n : ℕ} {o : Outcome A} → Spends left n o → o ≢ faults
no_fault (ends a t e) q = cc
no_fault (quits t) q = cc
