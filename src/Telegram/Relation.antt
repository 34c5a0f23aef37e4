-- ===== src/Telegram/Relation.antt =====
-- Relations between the telegram before a part of the parser and the one behind it: what holds of the
-- small steps holds of the parser that is composed of them.
use wmbm_16brandnew.Prelude.{
  ℕ, Bool, true, false, [], ◌∷◌, Bytes, length, ltb, if◌then◌else◌, inl, inr, Bool-cases,
}
use wmbm_16brandnew.Telegram.{
  Telegram, Outcome, ok, stops, faults, Action, pure, stop, ◌>>=◌, gets, modify, check, peek,
  remaining,
}
use wmbm_16brandnew.Telegram.Authentication.{when}
use wmbm_16brandnew.Telegram.Payload.{attempt}

pub data After {A : Type 0} (R : Telegram → Telegram → Type 0) (t : Telegram)
    : Outcome A → Type 0 where
  ends : (a : A) (t' : Telegram) → R t t' → After R t (ok a t')
  quits : (t' : Telegram) → R t t' → After R t (stops t')
  breaks : After R t faults

pub record Keeps {A : Type 0} (R : Telegram → Telegram → Type 0) (m : Action A) : Type 0 where
  pub run : (t : Telegram) → After R t (m t)

-- What the relations of two parts that follow each other have to do with the relation of the whole
pub record Composes (R S T : Telegram → Telegram → Type 0) : Type 0 where
  pub both : (t t' t'' : Telegram) → R t t' → S t' t'' → T t t''
  pub first : (t t' : Telegram) → R t t' → T t t'

pub record IsPreorder (R : Telegram → Telegram → Type 0) : Type 0 where
  pub same : (t : Telegram) → R t t
  pub trans : (t t' t'' : Telegram) → R t t' → R t' t'' → R t t''

module _ {R S T : Telegram → Telegram → Type 0} (c : Composes R S T) where
  After-both : {A : Type 0} {t t' : Telegram} {o : Outcome A} → R t t' → After S t' o → After T t o
  After-both r (ends a t'' r') = ends a t'' (c.both _ _ _ r r')
  After-both r (quits t'' r') = quits t'' (c.both _ _ _ r r')
  After-both r breaks = breaks

  After-bind :
      {A B : Type 0} {t : Telegram} {o : Outcome A} {f : A → Action B}
      → After R t o
      → ((a : A) → Keeps S (f a))
      → After T t (elim o [ ok a t' ↦ f a t' | stops t' ↦ stops t' | faults ↦ faults ])
  After-bind (ends a t' r) g = After-both r ((g a).run t')
  After-bind (quits t' r) g = quits t' (c.first _ _ r)
  After-bind breaks g = breaks

  pub Keeps-both :
      {A B : Type 0} {m : Action A} {f : A → Action B}
      → Keeps R m
      → ((a : A) → Keeps S (f a))
      → Keeps T (m >>= f)
  unfolding ◌>>=◌
  Keeps-both h g = record { run = λ t. After-bind (h.run t) g }

module _ {R : Telegram → Telegram → Type 0} (p : IsPreorder R) where
  pub Keeps->>= :
      {A B : Type 0} {m : Action A} {f : A → Action B}
      → Keeps R m
      → ((a : A) → Keeps R (f a))
      → Keeps R (m >>= f)
  Keeps->>= h g = Keeps-both (record { both = p.trans; first = λ t t' r. r }) h g

  pub pure-Keeps : {A : Type 0} (a : A) → Keeps R (pure a)
  pure-Keeps a = record { run = λ t. ends a t (p.same t) }

  pub gets-Keeps : {A : Type 0} (f : Telegram → A) → Keeps R (gets f)
  gets-Keeps f = record { run = λ t. ends (f t) t (p.same t) }

  pub remaining-Keeps : Keeps R remaining
  remaining-Keeps = record { run = λ t. ends _ t (p.same t) }

  pub stop-Keeps : {A : Type 0} → Keeps {A = A} R stop
  stop-Keeps = record { run = λ t. quits t (p.same t) }

  pub check-Keeps : (n : ℕ) → Keeps R (check n)
  unfolding check
  check-Keeps n = record {
    run = λ t. elim (Bool-cases (ltb (length t.rest) n)) [
      | inl short ↦ rw short (quits t (p.same t))
      | inr long ↦ rw long (ends tt t (p.same t))
    ];
  }

  peek_at-Keeps :
      (t : Telegram) (v : Bytes) → After R t (elim v [ [] ↦ faults | b ∷ rest ↦ ok b t ])
  peek_at-Keeps t [] = breaks
  peek_at-Keeps t (b ∷ v) = ends b t (p.same t)

  pub peek-Keeps : Keeps R peek
  unfolding peek
  peek-Keeps = record { run = λ t. peek_at-Keeps t t.rest }

  pub when-Keeps : (b : Bool) {m : Action (Unit {0})} → Keeps R m → Keeps R (when b m)
  when-Keeps true h = h
  when-Keeps false h = pure-Keeps tt

  pub modify-Keeps : (f : Telegram → Telegram) → ((t : Telegram) → R t (f t)) → Keeps R (modify f)
  modify-Keeps f h = record { run = λ t. ends tt (f t) (h t) }

attempt-After :
    {R : Telegram → Telegram → Type 0} {t : Telegram} {o : Outcome (Unit {0})}
    → After R t o
    → After R t (elim o [ ok _ t' ↦ ok true t' | stops t' ↦ ok false t' | faults ↦ faults ])
attempt-After (ends a t' r) = ends true t' r
attempt-After (quits t' r) = ends false t' r
attempt-After breaks = breaks

pub if-Keeps :
    {R : Telegram → Telegram → Type 0} {A : Type 0} (b : Bool) {m n : Action A}
    → Keeps R m
    → Keeps R n
    → Keeps R (if b then m else n)
if-Keeps true h k = h
if-Keeps false h k = k

pub attempt-Keeps :
    {R : Telegram → Telegram → Type 0} {m : Action (Unit {0})} → Keeps R m → Keeps R (attempt m)
attempt-Keeps h = record { run = λ t. attempt-After (h.run t) }
