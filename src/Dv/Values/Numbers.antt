-- ===== src/Dv/Values/Numbers.antt =====
-- src/dvparser.cc: `extractDVlong` and `extractDVdouble` read numbers that were written in the
-- formats of the DIF.
use wmbm_16brandnew.Prelude.{
  ℕ, ◌%◌, ◌≡◌, inl, inr, refl, sym, ◌∙◌, false, Bool, Option, some, Bytes, Bool-cases, Option-cases,
  u32,
}
use wmbm_16brandnew.Text.{is_empty}
use wmbm_16brandnew.Dv.{DvEntry, fetch}
use wmbm_16brandnew.Dv.Values.{
  Values, found, Raw, raw, broken, unsupported, read_raw, extract_dv, extracted_raw, extract_number,
  extract_dv_long, make_double, extract_dv_double,
}

-- What an extraction of a number reads, where it finds one.
record NumberAt (values : Values) (key : Bytes) (offset : Option ℕ) (n : ℕ) (vif : ℕ) : Type 0 where
  at : ℕ
  entry : DvEntry
  dif : ℕ
  at_key : fetch key values ≡ some (at, entry)
  dv : extract_dv key ≡ some (dif, vif)
  filled : is_empty entry.value ≡ false
  is_raw : read_raw (dif % 16) entry ≡ raw n
  place : offset ≡ some at

extracted_raw_found :
    {A : Type 0} (at : ℕ) (r : Raw) (f : ℕ → A) (offset : Option ℕ) (a : A)
    → extracted_raw at r f ≡ found offset a
    → (n : ℕ) × (r ≡ raw n) × (offset ≡ some at) × (a ≡ f n)
unfolding extracted_raw
extracted_raw_found at (raw n) f offset a e = (n, refl, cc, cc)
extracted_raw_found at broken f offset a e = cc
extracted_raw_found at unsupported f offset a e = cc

module _ {A : Type 0} (values : Values) (key : Bytes) (nothing : A) (make : ℕ → ℕ → A) where
  pub extract_number_reads :
      (at : ℕ) (entry : DvEntry) (dif vif : ℕ)
      → fetch key values ≡ some (at, entry)
      → extract_dv key ≡ some (dif, vif)
      → is_empty entry.value ≡ false
      → extract_number values key nothing make
        ≡ extracted_raw at (read_raw (dif % 16) entry) (make vif)
  unfolding extract_number
  extract_number_reads at entry dif vif at_key dv filled =
      rw (at_key, dv, filled, extract_number) refl

  extract_number-NumberAt :
      (offset : Option ℕ) (n vif : ℕ)
      → NumberAt values key offset n vif
      → extract_number values key nothing make ≡ found offset (make vif n)
  unfolding extracted_raw
  extract_number-NumberAt offset n vif x =
      extract_number_reads x.at x.entry x.dif vif x.at_key x.dv x.filled
      ∙ rw (x.is_raw, x.place) refl

  extract_number_found :
      (offset : Option ℕ) (a : A)
      → extract_number values key nothing make ≡ found offset a
      → (vif n : ℕ) × NumberAt values key offset n vif × (a ≡ make vif n)
  unfolding extract_number extracted_raw
  extract_number_found offset a e = elim (Option-cases (fetch key values)) [
    | inl no_entry ↦ cc (rw (no_entry, extract_number) at e)
    | inr ((at, entry), at_key) ↦ elim (Option-cases (extract_dv key)) [
      | inl no_dv ↦ cc (rw (at_key, no_dv, extract_number) at e)
      | inr ((dif, vif), dv) ↦ elim (Bool-cases (is_empty entry.value)) [
        | inl empty ↦ cc (rw (at_key, dv, empty, extract_number) at e)
        | inr filled ↦
            let (n, is_raw, place, value) =
              extracted_raw_found at (read_raw (dif % 16) entry) (make vif) offset a
                (sym (extract_number_reads at entry dif vif at_key dv filled) ∙ e) in
            (
              vif,
              n,
              record {
                at = at;
                entry = entry;
                dif = dif;
                at_key = at_key;
                dv = dv;
                filled = filled;
                is_raw = is_raw;
                place = place;
              },
              value,
            )
      ]
    ]
  ]

-- Where `extractDVlong` finds a number, `extractDVdouble` finds its remainder modulo 2^32, at the
-- same offset, and divides that by a scale. So a number of 2^32 or more, which a 48 or 64 bit
-- field can hold, becomes another one.
pub extract_dv_double_wraps :
    (values : Values) (key : Bytes) (auto_scale : Bool) (offset : Option ℕ) (n : ℕ)
    → extract_dv_long values key ≡ found offset n
    → (s : Option (ℕ × ℕ)) × (extract_dv_double values key auto_scale
        ≡ found offset (record { raw_value = u32 n; scale = s }))
unfolding extract_dv_long extract_dv_double make_double
extract_dv_double_wraps values key auto_scale offset n e =
    let (vif, m, x, same) = extract_number_found values key 0 (λ v k. k) offset n e in
    (
      (make_double auto_scale vif n).scale,
      extract_number-NumberAt values key _ (make_double auto_scale) offset m vif x ∙ rw same refl,
    )
