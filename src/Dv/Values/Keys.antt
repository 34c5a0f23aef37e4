-- ===== src/Dv/Values/Keys.antt =====
-- src/dvparser.cc: `findKey` against what it looks for.
use wmbm_16brandnew.Prelude.{
  ℕ, ◌≤◌, ◌≡◌, ◌↔◌, ◌⊎◌, inl, inr, refl, ap, true, false, Bool, ◌&&◌, ◌||◌, within, arith, ==_iff,
  All, Option, none, some, [], ◌∷◌, ◌++◌, Bytes, Bool-cases,
}
use wmbm_16brandnew.Dv.{
  MeasurementType, unknown, instantaneous, minimum, maximum, at_error, DvEntry,
}
use wmbm_16brandnew.Dv.Values.{
  ValueInformation, value_info_range, Values, same_type, same_number, entry_matches, find_key,
}

-- A number that is asked for is the number of the entry, where one is asked for.
pub data Wanted : Option ℕ → ℕ → Type 0 where
  any : {n : ℕ} → Wanted none n
  exactly : (n : ℕ) → Wanted (some n) n

-- What `findKey` looks for: a VIF in the range of the type, the kind of measurement if one is given,
-- and the storage number and the tariff if they are given.
pub record Matches (mit : MeasurementType) (vif : ValueInformation) (storagenr tariffnr : Option ℕ)
    (e : DvEntry) : Type 0 where
  pub low : (value_info_range vif).0 ≤ e.value_information
  pub high : e.value_information ≤ (value_info_range vif).1
  pub kind : (mit ≡ unknown) ⊎ (mit ≡ e.kind)
  pub storage : Wanted storagenr e.storagenr
  pub tariff : Wanted tariffnr e.tariff

||-true : (b : Bool) → (b || true) ≡ true
||-true true = refl
||-true false = refl

same_type_sound : (a b : MeasurementType) → same_type a b ≡ true → a ≡ b
unfolding same_type
same_type_sound unknown unknown e = refl
same_type_sound unknown instantaneous e = cc
same_type_sound unknown minimum e = cc
same_type_sound unknown maximum e = cc
same_type_sound unknown at_error e = cc
same_type_sound instantaneous unknown e = cc
same_type_sound instantaneous instantaneous e = refl
same_type_sound instantaneous minimum e = cc
same_type_sound instantaneous maximum e = cc
same_type_sound instantaneous at_error e = cc
same_type_sound minimum unknown e = cc
same_type_sound minimum instantaneous e = cc
same_type_sound minimum minimum e = refl
same_type_sound minimum maximum e = cc
same_type_sound minimum at_error e = cc
same_type_sound maximum unknown e = cc
same_type_sound maximum instantaneous e = cc
same_type_sound maximum minimum e = cc
same_type_sound maximum maximum e = refl
same_type_sound maximum at_error e = cc
same_type_sound at_error unknown e = cc
same_type_sound at_error instantaneous e = cc
same_type_sound at_error minimum e = cc
same_type_sound at_error maximum e = cc
same_type_sound at_error at_error e = refl

same_type_refl : (a : MeasurementType) → same_type a a ≡ true
unfolding same_type
same_type_refl unknown = refl
same_type_refl instantaneous = refl
same_type_refl minimum = refl
same_type_refl maximum = refl
same_type_refl at_error = refl

kind_iff :
    (mit kind : MeasurementType)
    → ((same_type mit unknown || same_type mit kind) ≡ true) ↔ ((mit ≡ unknown) ⊎ (mit ≡ kind))
kind_iff mit kind = (
  λ e. elim (Bool-cases (same_type mit unknown)) [
    | inl h ↦ inl (same_type_sound mit unknown h)
    | inr h ↦ inr (same_type_sound mit kind (rw h at e))
  ],
  λ s. elim s [
    | inl h ↦ rw (h, same_type_refl unknown) refl
    | inr h ↦ rw (h, same_type_refl kind) (||-true (same_type kind unknown))
  ],
)

same_number-Wanted : (m : Option ℕ) (n : ℕ) → Wanted m n → same_number m n ≡ true
unfolding same_number
same_number-Wanted none n any = refl
same_number-Wanted (some _) _ (exactly n) = (==_iff n n).1 refl

same_number_iff : (m : Option ℕ) (n : ℕ) → (same_number m n ≡ true) ↔ Wanted m n
unfolding same_number
same_number_iff none n = (λ e. any, λ w. refl)
same_number_iff (some m) n = (λ e. rw ((==_iff m n).0 e) (exactly n), same_number-Wanted (some m) n)

&&_iff : (a b : Bool) → ((a && b) ≡ true) ↔ ((a ≡ true) × (b ≡ true))
&&_iff a b = ground arith

within_iff : (low high n : ℕ) → (within low high n ≡ true) ↔ ((low ≤ n) × (n ≤ high))
within_iff low high n = ground arith

module _ (mit : MeasurementType) (vif : ValueInformation) (storagenr tariffnr : Option ℕ) where
  entry_matches_iff :
      (e : DvEntry)
      → (entry_matches mit vif storagenr tariffnr e ≡ true) ↔ Matches mit vif storagenr tariffnr e
  unfolding entry_matches
  entry_matches_iff e = (
    λ h.
        let (range, h') = (&&_iff _ _).0 h in
        let (kind, h'') = (&&_iff _ _).0 h' in
        let (storage, tariff) = (&&_iff _ _).0 h'' in
        let (low, high) = (within_iff _ _ _).0 range in
        record {
          low = low;
          high = high;
          kind = (kind_iff mit e.kind).0 kind;
          storage = (same_number_iff storagenr e.storagenr).0 storage;
          tariff = (same_number_iff tariffnr e.tariff).0 tariff;
        },
    λ m. (&&_iff _ _).1 (
      (within_iff _ _ _).1 (m.low, m.high),
      (&&_iff _ _).1 (
        (kind_iff mit e.kind).1 m.kind,
        (&&_iff _ _).1 (
          (same_number_iff storagenr e.storagenr).1 m.storage,
          (same_number_iff tariffnr e.tariff).1 m.tariff,
        ),
      ),
    ),
  )

  -- The key found is that of the first entry that matches, and no key is found only where none does.
  pub data FirstMatch : Values → Option Bytes → Type 0 where
    nowhere :
        {values : Values}
        → All (λ v. ¬ Matches mit vif storagenr tariffnr v.1.1) values
        → FirstMatch values none
    first :
        {values : Values} (before after : Values) (key : Bytes) (offset : ℕ) (e : DvEntry)
        → values ≡ before ++ (key, (offset, e)) ∷ after
        → All (λ v. ¬ Matches mit vif storagenr tariffnr v.1.1) before
        → Matches mit vif storagenr tariffnr e
        → FirstMatch values (some key)

  FirstMatch-cons :
      (key : Bytes) (offset : ℕ) (e : DvEntry) (values : Values) (r : Option Bytes)
      → ¬ Matches mit vif storagenr tariffnr e
      → FirstMatch values r
      → FirstMatch ((key, (offset, e)) ∷ values) r
  FirstMatch-cons key offset e values none not_it (nowhere all) = nowhere (not_it, all)
  FirstMatch-cons key offset e values (some _) not_it (first before after key' o e' split all it) =
      first ((key, (offset, e)) ∷ before) after key' o e' (ap (λ t. (key, (offset, e)) ∷ t) split)
        (not_it, all) it

  -- `findKey` finds the first entry, in the order of the keys, that has a VIF in the range of the
  -- type that is asked for, and the kind of measurement, the storage number and the tariff as far as
  -- these are given. It reports that there is no key exactly when no entry is such.
  pub find_key-FirstMatch :
      (values : Values) → FirstMatch values (find_key mit vif storagenr tariffnr values)
  unfolding find_key
  find_key-FirstMatch [] = nowhere (omega arith)
  find_key-FirstMatch ((key, (offset, e)) ∷ values) =
      elim (Bool-cases (entry_matches mit vif storagenr tariffnr e)) [
        | inl h ↦ rw h (first [] values key offset e refl (omega arith) ((entry_matches_iff e).0 h))
        | inr h ↦ rw h (
            FirstMatch-cons key offset e values _ (λ m. cc ((entry_matches_iff e).1 m, h))
              (find_key-FirstMatch values))
      ]
