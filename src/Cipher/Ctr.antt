-- ===== src/Cipher/Ctr.antt =====
-- src/wmbus_utils.cc: `decrypt_ELL_AES_CTR` undoes itself, for any block cipher.
use wmbm_16brandnew.Prelude.{
  ℕ, zero, suc, ◌≤◌, ◌<◌, ◌≡◌, refl, ap, ◌∙◌, inl, inr, [], ◌∷◌, ◌++◌, Bytes, IsByte, All, length,
  leb, Bool-cases, arith, take, drop, length-append, length-take, length-drop, take-append-drop,
  take-append_length, drop-append_length, drop_all, take_all, take-append_exact, drop-append_exact,
  All-take, All-drop,
}
use Prim.Native.Nat.{min}
use wmbm_16brandnew.Crc.Merge.{bit_xor_bytes}
use mathlib.Core.List.{append-nil}
use wmbm_16brandnew.Text.{is_empty}
use wmbm_16brandnew.Cipher.{xorit, increment_iv, ctr_loop, decrypt_ell_aes_ctr}

-- What the program relies on of the block cipher: a block of 16 bytes.
pub record IsBlockCipher (ecb : Bytes → Bytes → Bytes) : Type 0 where
  pub size : (block key : Bytes) → length (ecb block key) ≡ 16
  pub bytes : (block key : Bytes) → All IsByte (ecb block key)

length-xorit : (a b : Bytes) → length (xorit a b) ≡ min (length a) (length b)
unfolding xorit
length-xorit [] b = omega arith
length-xorit (x ∷ a) [] = omega arith
length-xorit (x ∷ a) (y ∷ b) = omega (arith, length-xorit a b)

-- An exclusive or is undone by itself, on at most as many bytes.
xorit-xorit :
    (a b : Bytes) → All IsByte a → All IsByte b → length b ≤ length a → xorit a (xorit a b) ≡ b
unfolding xorit
xorit-xorit [] [] ha hb h = refl
xorit-xorit [] (y ∷ b) ha hb h = absurd (omega arith)
xorit-xorit (x ∷ a) [] ha hb h = refl
xorit-xorit (x ∷ a) (y ∷ b) ha hb h =
    rw ((bit_xor_bytes x y ha.0 hb.0).1, xorit-xorit a b ha.1 hb.1 (omega arith)) refl

module _ (ecb : Bytes → Bytes → Bytes) (cipher : IsBlockCipher ecb) (key : Bytes) where
  length-ctr_loop :
      (fuel : ℕ) (iv v : Bytes) → length v ≤ fuel → length (ctr_loop ecb fuel iv key v) ≡ length v
  unfolding ctr_loop
  length-ctr_loop zero iv [] h = refl
  length-ctr_loop zero iv (b ∷ v) h = absurd (omega arith)
  length-ctr_loop (suc fuel) iv [] h = refl
  length-ctr_loop (suc fuel) iv (b ∷ v) h = omega (
    arith,
    length-append (xorit (ecb iv key) (take 16 (b ∷ v)))
        (ctr_loop ecb fuel (increment_iv iv) key (drop 16 (b ∷ v))),
    length-xorit (ecb iv key) (take 16 (b ∷ v)),
    cipher.size iv key,
    length-take 16 (b ∷ v),
    length-drop 16 (b ∷ v),
    length-ctr_loop fuel (increment_iv iv) (drop 16 (b ∷ v))
        (omega (arith, length-drop 16 (b ∷ v))),
  )

  length-chunk : (iv v : Bytes) → length (xorit (ecb iv key) (take 16 v)) ≡ min 16 (length v)
  length-chunk iv v =
      omega (arith, length-xorit (ecb iv key) (take 16 v), cipher.size iv key, length-take 16 v)

  ctr_loop-nil : (fuel : ℕ) (iv : Bytes) → ctr_loop ecb fuel iv key [] ≡ []
  unfolding ctr_loop
  ctr_loop-nil zero iv = refl
  ctr_loop-nil (suc fuel) iv = refl

  ctr_loop_step :
      (fuel : ℕ) (iv v : Bytes)
      → 0 < length v
      → ctr_loop ecb (suc fuel) iv key v
        ≡ xorit (ecb iv key) (take 16 v) ++ ctr_loop ecb fuel (increment_iv iv) key (drop 16 v)
  unfolding ctr_loop
  ctr_loop_step fuel iv [] h = absurd (omega arith)
  ctr_loop_step fuel iv (b ∷ v) h = refl

  -- The blocks of the result are those of the input, also where the last one is shorter.
  ctr_loop_chunks :
      (fuel : ℕ) (iv v : Bytes)
      → let first = xorit (ecb iv key) (take 16 v) in
        let rest = ctr_loop ecb fuel (increment_iv iv) key (drop 16 v) in
        (take 16 (first ++ rest) ≡ first) × (drop 16 (first ++ rest) ≡ rest)
  ctr_loop_chunks fuel iv v = elim (Bool-cases (leb 16 (length v))) [
    | inl long ↦
        let size : length (xorit (ecb iv key) (take 16 v)) ≡ 16 =
          ground (arith, long, length-chunk iv v) in
        (take-append_exact 16 _ _ size, drop-append_exact 16 _ _ size)
    | inr short ↦
        let none_left : drop 16 v ≡ [] = drop_all 16 v (ground (arith, short)) in
        let size : length (xorit (ecb iv key) (take 16 v)) ≤ 16 =
          omega (arith, length-chunk iv v) in
        rw (none_left, ctr_loop-nil fuel (increment_iv iv), append-nil)
          (take_all 16 _ size, drop_all 16 _ size)
  ]

  ctr_loop_twice :
      (fuel fuel' : ℕ) (iv v : Bytes)
      → All IsByte v
      → length v ≤ fuel
      → length v ≤ fuel'
      → ctr_loop ecb fuel iv key (ctr_loop ecb fuel' iv key v) ≡ v
  ctr_loop_twice fuel fuel' iv [] bytes h h' =
      ap (ctr_loop ecb fuel iv key) (ctr_loop-nil fuel' iv) ∙ ctr_loop-nil fuel iv
  ctr_loop_twice zero fuel' iv (b ∷ v) bytes h h' = absurd (omega arith)
  ctr_loop_twice (suc fuel) zero iv (b ∷ v) bytes h h' = absurd (omega arith)
  ctr_loop_twice (suc fuel) (suc fuel') iv (b ∷ v) bytes h h' =
      let w : Bytes = b ∷ v in
      let first = xorit (ecb iv key) (take 16 w) in
      let rest = ctr_loop ecb fuel' (increment_iv iv) key (drop 16 w) in
      let (takes, drops) = ctr_loop_chunks fuel' iv w in
      let once = ctr_loop_step fuel' iv w (omega arith) in
      let size = length-append first rest in
      let again = ctr_loop_step fuel iv (first ++ rest) (omega (arith, length-chunk iv w)) in
      let shorter : length (drop 16 w) ≤ length v = omega (arith, length-drop 16 w) in
      let undone : xorit (ecb iv key) first ≡ take 16 w =
        xorit-xorit (ecb iv key) (take 16 w) (cipher.bytes iv key) (All-take IsByte 16 w bytes)
          (omega (arith, cipher.size iv key, length-take 16 w)) in
      let others =
        ctr_loop_twice fuel fuel' (increment_iv iv) (drop 16 w) (All-drop IsByte 16 w bytes)
          (omega arith) (omega arith) in
      ap (ctr_loop ecb (suc fuel) iv key) once
      ∙ again
      ∙ ap
          (λ t.
            xorit (ecb iv key) t
            ++ ctr_loop ecb fuel (increment_iv iv) key (drop 16 (first ++ rest)))
          takes
      ∙ ap (λ t. t ++ ctr_loop ecb fuel (increment_iv iv) key (drop 16 (first ++ rest))) undone
      ∙ ap (λ t. take 16 w ++ ctr_loop ecb fuel (increment_iv iv) key t) drops
      ∙ ap (λ t. take 16 w ++ t) others
      ∙ take-append-drop 16 w

  pub length-decrypt_ell_aes_ctr :
      (iv front behind : Bytes)
      → length
          (drop (length front) (decrypt_ell_aes_ctr ecb iv (front ++ behind) (length front) key))
        ≡ length behind
  unfolding decrypt_ell_aes_ctr
  length-decrypt_ell_aes_ctr iv front behind = elim (Bool-cases (is_empty key)) [
    | inl no_key ↦ rw (no_key, drop-append_length front behind) refl
    | inr with_key ↦
        rw
          (
            with_key,
            drop-append_length front behind,
            take-append_length front behind,
            drop-append_length front (ctr_loop ecb (length behind) iv key behind),
          )
          (length-ctr_loop (length behind) iv behind (omega arith))
  ]

  -- Counter mode decryption undoes itself: a payload that was encrypted under a key, by the same
  -- operation, is what is decrypted with it. The frame up to the payload stays, and so does the
  -- length of the frame.
  pub decrypt_ell_aes_ctr_undone :
      (iv frame : Bytes) (pos : ℕ)
      → All IsByte frame
      → pos ≤ length frame
      → let once = decrypt_ell_aes_ctr ecb iv frame pos key in
        (decrypt_ell_aes_ctr ecb iv once pos key ≡ frame)
        × (take pos once ≡ take pos frame)
        × (length once ≡ length frame)
  unfolding decrypt_ell_aes_ctr
  decrypt_ell_aes_ctr_undone iv frame pos bytes h = elim (Bool-cases (is_empty key)) [
    | inl no_key ↦ rw no_key (refl, refl, refl)
    | inr with_key ↦
        let front = take pos frame in
        let behind = drop pos frame in
        let plain = ctr_loop ecb (length behind) iv key behind in
        let size : length front ≡ pos = omega (arith, length-take pos frame) in
        let takes : take pos (front ++ plain) ≡ front = take-append_exact pos front plain size in
        let drops : drop pos (front ++ plain) ≡ plain = drop-append_exact pos front plain size in
        let same = length-ctr_loop (length behind) iv behind (omega arith) in
        let undone =
          ctr_loop_twice (length plain) (length behind) iv behind (All-drop IsByte pos frame bytes)
            (omega arith) (omega arith) in
        rw (with_key, takes, drops)
          (
            ap (λ t. front ++ t) undone ∙ take-append-drop pos frame,
            refl,
            omega (arith, length-append front plain, length-drop pos frame),
          )
  ]
