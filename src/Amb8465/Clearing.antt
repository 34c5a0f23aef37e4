-- ===== src/Amb8465/Clearing.antt =====
-- src/wmbus_amb8465.cc: what `checkAMB8465Frame` does with a buffer that is out of sync.
use wmbm_16brandnew.Prelude.{
  ℕ, ◌+◌, ◌-◌, Bool, false, ◌&&◌, none, [], ◌∷◌, ◌++◌, All, Bytes, length, length-append, ltb, leb,
  ◌==◌, ◌≡◌, ◌≢◌, refl, ap, ◌∙◌, arith,
}
use wmbm_16brandnew.Frame.{byte_at}
use wmbm_16brandnew.Frame.FormatA.{byte_at-append_second}
use wmbm_16brandnew.Amb8465.{amb_partial, find_telegram, check_telegram, check_amb8465_frame}

find_telegram-junk :
    (offset a len : ℕ) (junk : Bytes)
    → All (λ c. c ≢ 0x44) junk
    → len ≢ 0x44
    → find_telegram offset (a ∷ (junk ++ len ∷ 0x44 ∷ [])) ≡ none
unfolding find_telegram
find_telegram-junk offset a len [] h ne =
    let no : (leb 10 a && (len == 0x44)) ≡ false = ground (arith, ne) in rw no refl
find_telegram-junk offset a len (b ∷ junk) h ne =
    let no : (leb 10 a && (b == 0x44)) ≡ false = let other = h.0 in ground (arith, other) in
    let more : leb (length (junk ++ len ∷ 0x44 ∷ [])) 1 ≡ false =
      ground (arith, length-append junk (len ∷ 0x44 ∷ [])) in
    rw (no, more) (find_telegram-junk (offset + 1) b len junk h.1 ne)

-- Where the first two bytes of a telegram, a length other than 0x44 and 0x44, are the last ones of the
-- buffer, and there is something else in front of them, the buffer is cleared up to its last byte: the
-- length is lost. What is in front does not start with 0xff, and holds no 0x44 from its second byte on.
pub check_amb8465_frame_loses :
    (rssi_expected : Bool) (a len : ℕ) (junk : Bytes)
    → a ≢ 0xff
    → All (λ c. c ≢ 0x44) junk
    → len ≢ 0x44
    → check_amb8465_frame rssi_expected (a ∷ (junk ++ len ∷ 0x44 ∷ [])) ≡ amb_partial (0x44 ∷ [])
unfolding check_amb8465_frame check_telegram
check_amb8465_frame_loses rssi_expected a len junk first h ne =
    let v = a ∷ (junk ++ len ∷ 0x44 ∷ []) in
    let size : length v - 1 ≡ length (a ∷ junk) + 1 =
      omega (arith, length-append junk (len ∷ 0x44 ∷ [])) in
    let two : ltb (length v) 2 ≡ false = ground (arith, length-append junk (len ∷ 0x44 ∷ [])) in
    let other : (a == 0xff) ≡ false = ground (arith, first) in
    let last : byte_at v (length v - 1) ≡ 0x44 =
      ap (byte_at v) size ∙ byte_at-append_second (a ∷ junk) len 0x44 [] in
    rw (two, other, find_telegram-junk 0 a len junk h ne, last) refl
