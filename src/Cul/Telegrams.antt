-- ===== src/Cul/Telegrams.antt =====
-- src/wmbus_cul.cc: what `checkCULFrame` makes of the lines in which the receiver prints telegrams.
use wmbm_16brandnew.Prelude.{
  ℕ, zero, suc, ◌+◌, ◌-◌, ◌/◌, ◌%◌, ◌≤◌, ◌<◌, Bool, true, false, not, ◌&&◌, some, [], ◌∷◌, ◌++◌,
  All, All-append, IsByte, Bytes, get_or, take, drop, length, length-append, take-append_exact,
  drop-append_exact, ltb, ◌==◌, if◌then◌else◌, all_below, all_below_sound, ◌≡◌, refl, sym, ap, ◌∙◌,
  arith,
}
use mathlib.Core.List.{append_assoc}
use wmbm_16brandnew.Hex.{bin2hex, hex, hex_byte}
use wmbm_16brandnew.Hex.RoundTrip.{hex2bin_bytes-bin2hex, length-bin2hex}
use wmbm_16brandnew.Frame.{byte_at, set_length}
use wmbm_16brandnew.Frame.FormatA.{sealed, Blocks, byte_at-append_first, trim_crcs_format_a-Blocks}
use wmbm_16brandnew.Frame.FormatB.{trim_crcs_format_b-sealed}
use wmbm_16brandnew.Cul.{
  full, find_eol, rssi_below, of_trim, trim_hex, check_payload, check_signal, check_line,
  check_cul_frame,
}

-- The end of a line
pub data IsEol : Bytes → Type 0 where
  lf : IsEol (b'\n' ∷ [])
  crlf : IsEol (b'\r' ∷ b'\n' ∷ [])

-- A line up to its end: the letters in front, the digits of the telegram, and the two bytes for the
-- quality and the strength of the signal.
unfoldable pub printed : Bool → Bytes → ℕ → ℕ → Bytes
printed is_b f lqi rssi =
    (if is_b then b'b' ∷ b'Y' ∷ [] else b'b' ∷ []) ++ (bin2hex f ++ bin2hex (lqi ∷ rssi ∷ []))

-- Not a part of the end of a line
abbrev IsPlain : ℕ → Type 0
IsPlain c = ((c == b'\n') ≡ false) × ((c == b'\r') ≡ false)

abbrev IsDigit : ℕ → Type 0
IsDigit c = IsPlain c × ((c == b'Y') ≡ false)

plain_digit : ℕ → Bool
plain_digit d =
    not (get_or hex d 0 == b'\n') && not (get_or hex d 0 == b'\r') && not (get_or hex d 0 == b'Y')

digits_table : all_below 16 plain_digit ≡ true
unfolding all_below plain_digit
digits_table = refl

hex-IsDigit : (d : ℕ) → d < 16 → IsDigit (get_or hex d 0)
unfolding plain_digit
hex-IsDigit d h = let e = all_below_sound 16 plain_digit d digits_table h in ground (arith, e)

bin2hex-IsDigit : (v : Bytes) → All IsDigit (bin2hex v)
unfolding bin2hex hex_byte
bin2hex-IsDigit [] = tt
bin2hex-IsDigit (b ∷ v) = (
  hex-IsDigit (b / 16 % 16) (omega arith),
  (hex-IsDigit (b % 16) (omega arith), bin2hex-IsDigit v),
)

All-IsDigit : (v : Bytes) → All IsDigit v → All IsPlain v
All-IsDigit [] h = tt
All-IsDigit (b ∷ v) h = (h.0.0, All-IsDigit v h.1)

byte_at-All :
    (P : ℕ → Type 0) (v rest : Bytes) (i : ℕ) → All P v → i < length v → P (byte_at (v ++ rest) i)
byte_at-All P [] rest i h lt = absurd (omega (arith, lt))
byte_at-All P (b ∷ v) rest zero h lt = h.0
byte_at-All P (b ∷ v) rest (suc i) h lt = byte_at-All P v rest i h.1 (omega (arith, lt))

abbrev IsInner : ℕ → Type 0
IsInner c = (c == b'\n') ≡ false

All-IsPlain : (v : Bytes) → All IsPlain v → All IsInner v
All-IsPlain [] h = tt
All-IsPlain (b ∷ v) h = (h.0.0, All-IsPlain v h.1)

find_eol-append : (v more : Bytes) → All IsInner v → find_eol (v ++ b'\n' ∷ more) ≡ some (length v)
unfolding find_eol
find_eol-append [] more h = refl
find_eol-append (b ∷ v) more h = rw (h.0, find_eol-append v more h.1) refl

check_cul_frame-find_eol :
    (v : Bytes) (i : ℕ)
    → find_eol v ≡ some (suc i)
    → check_cul_frame v ≡ check_line v (i + 2) (if byte_at v i == b'\r' then i else i + 1)
unfolding check_cul_frame
check_cul_frame-find_eol v i e = rw (check_cul_frame, e) refl

-- The line is cut off at its end, whichever it is.
check_cul_frame-line :
    (w eol more : Bytes)
    → IsEol eol
    → All IsPlain w
    → 0 < length w
    → check_cul_frame (w ++ (eol ++ more))
      ≡ check_line (w ++ (eol ++ more)) (length w + length eol) (length w)
check_cul_frame-line [] _ more eol h pos = absurd (omega (arith, pos))
check_cul_frame-line (b ∷ w) _ more lf h pos =
    let v = b ∷ w ++ b'\n' ∷ more in
    let plain = byte_at-All IsPlain (b ∷ w) (b'\n' ∷ more) (length w) h (omega arith) in
    let n : length w + 2 ≡ length (b ∷ w) + 1 = omega arith in
    let k : length w + 1 ≡ length (b ∷ w) = omega arith in
    check_cul_frame-find_eol v (length w) (find_eol-append (b ∷ w) more (All-IsPlain (b ∷ w) h))
    ∙ ap (λ c. check_line v (length w + 2) (if c then length w else length w + 1)) plain.1
    ∙ ap (λ m. check_line v m (length w + 1)) n
    ∙ ap (check_line v (length (b ∷ w) + 1)) k
check_cul_frame-line (b ∷ w) _ more crlf h pos =
    let v = b ∷ w ++ b'\r' ∷ b'\n' ∷ more in
    let whole : (b ∷ w ++ b'\r' ∷ []) ++ b'\n' ∷ more ≡ v =
      append_assoc (b ∷ w) (b'\r' ∷ []) (b'\n' ∷ more) in
    let inner = All-append IsInner (b ∷ w) (b'\r' ∷ []) (All-IsPlain (b ∷ w) h) (refl, tt) in
    let size : length (b ∷ w ++ b'\r' ∷ []) ≡ suc (length (b ∷ w)) =
      omega (arith, length-append (b ∷ w) (b'\r' ∷ [])) in
    let found : find_eol v ≡ some (suc (length (b ∷ w))) =
      ap find_eol (sym whole) ∙ find_eol-append (b ∷ w ++ b'\r' ∷ []) more inner ∙ ap some size in
    let last : byte_at v (length (b ∷ w)) ≡ b'\r' =
      byte_at-append_first (b ∷ w) b'\r' (b'\n' ∷ more) in
    check_cul_frame-find_eol v (length (b ∷ w)) found
    ∙ ap
        (λ c.
          check_line v (length (b ∷ w) + 2)
            (if c == b'\r' then length (b ∷ w) else length (b ∷ w) + 1))
        last

module _ (pre h s tail : Bytes) (four : length s ≡ 4) where
  read_signal : take 4 (drop (length (pre ++ (h ++ s)) - 4) ((pre ++ (h ++ s)) ++ tail)) ≡ s
  read_signal =
      let size : length (pre ++ h) ≡ length (pre ++ (h ++ s)) - 4 =
        omega (arith, four, length-append pre h, length-append pre (h ++ s), length-append h s) in
      let parts : (pre ++ (h ++ s)) ++ tail ≡ (pre ++ h) ++ (s ++ tail) =
        ap (λ v. v ++ tail) (sym (append_assoc pre h s)) ∙ append_assoc (pre ++ h) s tail in
      rw (parts, drop-append_exact _ (pre ++ h) (s ++ tail) size) (take-append_exact 4 s tail four)

  read_payload :
      take
        (length (pre ++ (h ++ s)) - 4 - length pre)
        (drop (length pre) ((pre ++ (h ++ s)) ++ tail))
      ≡ h
  read_payload =
      let size : length h ≡ length (pre ++ (h ++ s)) - 4 - length pre =
        omega (arith, four, length-append pre (h ++ s), length-append h s) in
      let parts : (pre ++ (h ++ s)) ++ tail ≡ pre ++ (h ++ (s ++ tail)) =
        append_assoc pre (h ++ s) tail ∙ ap (λ v. pre ++ v) (append_assoc h s tail) in
      rw (parts, drop-append_exact _ pre (h ++ (s ++ tail)) refl)
        (take-append_exact _ h (s ++ tail) size)

-- What is read in such a line
check_line-printed :
    (is_b : Bool) (f tail : Bytes) (lqi rssi n : ℕ)
    → All IsByte f
    → lqi < 256
    → rssi < 256
    → check_line (printed is_b f lqi rssi ++ tail) n (length (printed is_b f lqi rssi))
      ≡ trim_hex is_b n (rssi_below rssi) (true, f)
unfolding check_line check_signal check_payload printed
check_line-printed true f tail lqi rssi n h a b =
    let s = bin2hex (lqi ∷ rssi ∷ []) in
    let four : length s ≡ 4 = length-bin2hex (lqi ∷ rssi ∷ []) in
    let long : ltb (length (b'b' ∷ b'Y' ∷ (bin2hex f ++ s))) 4 ≡ false =
      ground (arith, four, length-append (bin2hex f) s) in
    let no_gap : ltb (length (b'b' ∷ b'Y' ∷ (bin2hex f ++ s)) - 4) 2 ≡ false =
      ground (arith, four, length-append (bin2hex f) s) in
    rw
      (
        long,
        read_signal (b'b' ∷ b'Y' ∷ []) (bin2hex f) s tail four,
        hex2bin_bytes-bin2hex (lqi ∷ rssi ∷ []) [] (a, (b, tt)),
        no_gap,
        read_payload (b'b' ∷ b'Y' ∷ []) (bin2hex f) s tail four,
        hex2bin_bytes-bin2hex f [] h,
      )
      refl
check_line-printed false f tail lqi rssi n h a b =
    let s = bin2hex (lqi ∷ rssi ∷ []) in
    let digits = bin2hex f ++ s in
    let four : length s ≡ 4 = length-bin2hex (lqi ∷ rssi ∷ []) in
    let long : ltb (length (b'b' ∷ digits)) 4 ≡ false =
      ground (arith, four, length-append (bin2hex f) s) in
    let no_gap : ltb (length (b'b' ∷ digits) - 4) 1 ≡ false =
      ground (arith, four, length-append (bin2hex f) s) in
    let no_letter : (byte_at (b'b' ∷ digits ++ tail) 1 == b'Y') ≡ false =
      (byte_at-All IsDigit digits tail 0
        (All-append IsDigit (bin2hex f) s (bin2hex-IsDigit f) (bin2hex-IsDigit (lqi ∷ rssi ∷ [])))
        (omega (arith, four, length-append (bin2hex f) s))).1 in
    rw
      (
        long,
        read_signal (b'b' ∷ []) (bin2hex f) s tail four,
        hex2bin_bytes-bin2hex (lqi ∷ rssi ∷ []) [] (a, (b, tt)),
        no_letter,
        no_gap,
        read_payload (b'b' ∷ []) (bin2hex f) s tail four,
        hex2bin_bytes-bin2hex f [] h,
      )
      refl

printed-IsPlain : (is_b : Bool) (f : Bytes) (lqi rssi : ℕ) → All IsPlain (printed is_b f lqi rssi)
unfolding printed
printed-IsPlain true f lqi rssi = (
  (refl, refl),
  (
    (refl, refl),
    All-append IsPlain (bin2hex f) (bin2hex (lqi ∷ rssi ∷ [])) (All-IsDigit _ (bin2hex-IsDigit f))
        (All-IsDigit _ (bin2hex-IsDigit (lqi ∷ rssi ∷ []))),
  ),
)
printed-IsPlain false f lqi rssi = (
  (refl, refl),
  All-append IsPlain (bin2hex f) (bin2hex (lqi ∷ rssi ∷ [])) (All-IsDigit _ (bin2hex-IsDigit f))
      (All-IsDigit _ (bin2hex-IsDigit (lqi ∷ rssi ∷ []))),
)

printed-length : (is_b : Bool) (f : Bytes) (lqi rssi : ℕ) → 0 < length (printed is_b f lqi rssi)
unfolding printed
printed-length true f lqi rssi = omega arith
printed-length false f lqi rssi = omega arith

-- A telegram that the receiver prints is trimmed as its letters say.
check_cul_frame-printed :
    (is_b : Bool) (f : Bytes) (lqi rssi : ℕ) (eol more : Bytes)
    → IsEol eol
    → All IsByte f
    → lqi < 256
    → rssi < 256
    → check_cul_frame (printed is_b f lqi rssi ++ (eol ++ more))
      ≡ trim_hex is_b (length (printed is_b f lqi rssi) + length eol) (rssi_below rssi) (true, f)
check_cul_frame-printed is_b f lqi rssi eol more e h a b =
    check_cul_frame-line _ eol more e (printed-IsPlain is_b f lqi rssi)
      (printed-length is_b f lqi rssi)
    ∙ check_line-printed is_b f (eol ++ more) lqi rssi _ h a b

-- A telegram in the frame format A, as the receiver prints it in a line of its own, whatever is behind
-- the line: it is found whole, its checksums are taken out and its length is put right, and the
-- strength of the signal is that of the last byte.
pub check_cul_frame-Blocks :
    (header : Bytes) {content frame : Bytes} (lqi rssi : ℕ) (eol more : Bytes)
    → length header ≡ 10
    → Blocks content frame
    → All IsByte (sealed header ++ frame)
    → lqi < 256
    → rssi < 256
    → IsEol eol
    → check_cul_frame (printed false (sealed header ++ frame) lqi rssi ++ (eol ++ more))
      ≡ full
          (length (printed false (sealed header ++ frame) lqi rssi) + length eol)
          (set_length (header ++ content))
          (rssi_below rssi)
unfolding trim_hex of_trim
check_cul_frame-Blocks header {content} {frame} lqi rssi eol more ten blocks h a b e =
    check_cul_frame-printed false (sealed header ++ frame) lqi rssi eol more e h a b
    ∙ ap
        (of_trim (length (printed false (sealed header ++ frame) lqi rssi) + length eol)
          (rssi_below rssi))
        (trim_crcs_format_a-Blocks header ten blocks)

-- The same for a telegram in the frame format B, of one block of 10 to 126 bytes.
pub check_cul_frame-sealed :
    (block : Bytes) (lqi rssi : ℕ) (eol more : Bytes)
    → 10 ≤ length block
    → length block ≤ 126
    → All IsByte (sealed block)
    → lqi < 256
    → rssi < 256
    → IsEol eol
    → check_cul_frame (printed true (sealed block) lqi rssi ++ (eol ++ more))
      ≡ full
          (length (printed true (sealed block) lqi rssi) + length eol)
          (set_length block)
          (rssi_below rssi)
unfolding trim_hex of_trim
check_cul_frame-sealed block lqi rssi eol more lo hi h a b e =
    check_cul_frame-printed true (sealed block) lqi rssi eol more e h a b
    ∙ ap (of_trim (length (printed true (sealed block) lqi rssi) + length eol) (rssi_below rssi))
        (trim_crcs_format_b-sealed block lo hi)
