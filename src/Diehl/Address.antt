-- ===== src/Diehl/Address.antt =====
-- src/manufacturer_specificities.cc: what the transformation of the address field leaves.
use wmbm_16brandnew.Prelude.{
  ℕ, zero, suc, ◌+◌, ◌≤◌, ◌<◌, ◌≡◌, ◌≢◌, ◌⊎◌, refl, ap, ◌∙◌, inl, inr, [], ◌∷◌, Bytes, get_or,
  length, arith,
}
use wmbm_16brandnew.Diehl.{
  detect_interpretation, AddressTransform, untouched, swapping, set_water_meter, standard, set_byte,
  move_down, transform_address,
}

length-set_byte : (i b : ℕ) (v : Bytes) → length (set_byte i b v) ≡ length v
unfolding set_byte
length-set_byte zero b [] = refl
length-set_byte (suc i) b [] = refl
length-set_byte zero b (x ∷ v) = refl
length-set_byte (suc i) b (x ∷ v) = ap suc (length-set_byte i b v)

get_or-set_byte_ne : (i b j : ℕ) (v : Bytes) → i ≢ j → get_or (set_byte i b v) j 0 ≡ get_or v j 0
unfolding set_byte
get_or-set_byte_ne zero b j [] h = refl
get_or-set_byte_ne (suc i) b j [] h = refl
get_or-set_byte_ne zero b zero (x ∷ v) h = absurd (h refl)
get_or-set_byte_ne zero b (suc j) (x ∷ v) h = refl
get_or-set_byte_ne (suc i) b zero (x ∷ v) h = refl
get_or-set_byte_ne (suc i) b (suc j) (x ∷ v) h = get_or-set_byte_ne i b j v (λ e. h (ap suc e))

length-move_down : (count i : ℕ) (v : Bytes) → length (move_down count i v) ≡ length v
unfolding move_down
length-move_down zero i v = refl
length-move_down (suc count) i v =
    length-move_down count (i + 1) _ ∙ length-set_byte i (get_or v (i + 2) 0) v

get_or-move_down :
    (count i j : ℕ) (v : Bytes)
    → (j < i) ⊎ (i + count ≤ j)
    → get_or (move_down count i v) j 0 ≡ get_or v j 0
unfolding move_down
get_or-move_down zero i j v h = refl
get_or-move_down (suc count) i j v h =
    get_or-move_down count (i + 1) j _ (omega arith)
    ∙ get_or-set_byte_ne i (get_or v (i + 2) 0) j v (omega arith)

length-transform_address :
    (v : Bytes) (m : AddressTransform) → length (transform_address v m) ≡ length v
unfolding transform_address
length-transform_address v swapping =
    length-set_byte 9 _ _ ∙ length-set_byte 8 _ _ ∙ length-move_down 4 4 v
length-transform_address v set_water_meter = length-set_byte 9 _ _ ∙ length-set_byte 8 _ v
length-transform_address v standard = refl
length-transform_address v untouched = refl

get_or-transform_address :
    (v : Bytes) (m : AddressTransform) (j : ℕ)
    → (j < 4) ⊎ (10 ≤ j)
    → get_or (transform_address v m) j 0 ≡ get_or v j 0
unfolding transform_address
get_or-transform_address v swapping j h =
    get_or-set_byte_ne 9 _ j _ (omega arith)
    ∙ get_or-set_byte_ne 8 _ j _ (omega arith)
    ∙ get_or-move_down 4 4 j v (omega arith)
get_or-transform_address v set_water_meter j h =
    get_or-set_byte_ne 9 _ j _ (omega arith) ∙ get_or-set_byte_ne 8 _ j v (omega arith)
get_or-transform_address v standard j h = refl
get_or-transform_address v untouched j h = refl

detect-transform_address :
    (v : Bytes) (m : AddressTransform)
    → detect_interpretation (transform_address v m) ≡ detect_interpretation v
unfolding detect_interpretation
detect-transform_address v m =
    rw
      (
        length-transform_address v m,
        get_or-transform_address v m 1 (inl (omega arith)),
        get_or-transform_address v m 2 (inl (omega arith)),
        get_or-transform_address v m 3 (inl (omega arith)),
        get_or-transform_address v m 10 (inr (omega arith)),
        get_or-transform_address v m 13 (inr (omega arith)),
        get_or-transform_address v m 14 (inr (omega arith)),
      )
      refl

-- A frame is transformed in its address field alone: its length and every other byte stay, and so
-- does the interpretation that the transformation was chosen by.
pub transform_address_lem :
    (frame : Bytes) (m : AddressTransform) (j : ℕ)
    → (j < 4) ⊎ (10 ≤ j)
    → (length (transform_address frame m) ≡ length frame)
      × (get_or (transform_address frame m) j 0 ≡ get_or frame j 0)
      × (detect_interpretation (transform_address frame m) ≡ detect_interpretation frame)
transform_address_lem frame m j h = (
  length-transform_address frame m,
  get_or-transform_address frame m j h,
  detect-transform_address frame m,
)

-- By swapping, the version and the type go behind the number of the meter.
pub transform_address_swaps :
    (l c m0 m1 version type_ i0 i1 i2 i3 : ℕ) (rest : Bytes)
    → transform_address (l ∷ c ∷ m0 ∷ m1 ∷ version ∷ type_ ∷ i0 ∷ i1 ∷ i2 ∷ i3 ∷ rest) swapping
      ≡ l ∷ c ∷ m0 ∷ m1 ∷ i0 ∷ i1 ∷ i2 ∷ i3 ∷ version ∷ type_ ∷ rest
unfolding transform_address move_down set_byte
transform_address_swaps l c m0 m1 version type_ i0 i1 i2 i3 rest = refl
