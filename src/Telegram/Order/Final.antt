-- ===== src/Telegram/Order/Final.antt =====
-- src/wmbus.cc: `parseTPL`, `parseWMBUSHeader` and `parseWMBUS` mark the front of the frame as parsed.
use wmbm_16brandnew.Prelude.{
  ℕ, Bool, false, Option, none, some, [], ◌++◌, Bytes, get_or, length, ltb, ◌==◌, ◌≡◌, refl, sym,
  ap, ◌∙◌, inl, inr, ◌⊎◌, Bool-cases, ==_iff,
}
use wmbm_16brandnew.Telegram.{
  Telegram, frame, Outcome, Action, ◌>>=◌, modify, take_byte, take_bytes,
}
use wmbm_16brandnew.Telegram.Relation.{
  After, ends, quits, breaks, Keeps, Composes, IsPreorder, Keeps-both, Keeps->>=, pure-Keeps,
  gets-Keeps, remaining-Keeps, stop-Keeps, check-Keeps, peek-Keeps, if-Keeps, modify-Keeps,
  attempt-Keeps,
}
use wmbm_16brandnew.Telegram.ExtendedLink.{parse_nwl}
use wmbm_16brandnew.Telegram.Order.{
  IsAligned, StaysAligned, pre, sets, take_byte-Keeps, parse_dll-Keeps, parse_ell-Keeps,
}
use wmbm_16brandnew.Telegram.Order.Transported.{
  parse_afl-Keeps, parse_short_tpl-Keeps, parse_long_tpl-Keeps, potentially_decrypt-Keeps,
}
use wmbm_16brandnew.Diehl.{AddressTransform, untouched, swapping, set_water_meter, standard}
use wmbm_16brandnew.Dv
use wmbm_16brandnew.Dv.{parse_dv}
use wmbm_16brandnew.Dv.Conservation.{parse_dv_in_order}
use wmbm_16brandnew.Telegram.Payload.{
  set_sizes, dv_telegram, keep_values, parse_values, parse_values_format, decrypt_and_parse,
  parse_tpl_72, parse_tpl_78, parse_tpl_79, parse_tpl_7a, parse_compact, parse_tpl_fields,
  parse_tpl_header, parse_tpl,
}
use wmbm_16brandnew.Telegram.Parsing.{
  start_frame, pre_process_with, pre_process_telegram, parse_layers, parse_wmbus_header,
  parse_wmbus,
}

-- The position is left behind once the values are parsed. Of a compact frame (CI field 0x79) nothing
-- is said.
pub IsInOrder : Telegram → Type 0
IsInOrder t = (t.tpl.ci ≡ 0x79) ⊎ ((behind : Bytes) × (t.parsed ++ behind ≡ frame t))

EndsInOrder : Telegram → Telegram → Type 0
EndsInOrder t t' = IsAligned t → IsInOrder t'

aligned-IsInOrder : (t : Telegram) → IsAligned t → IsInOrder t
unfolding IsAligned IsInOrder
aligned-IsInOrder t e = inr (t.rest, ap (λ v. v ++ t.rest) e)

leads : Composes StaysAligned EndsInOrder EndsInOrder
unfolding StaysAligned EndsInOrder
leads = record { both = λ t t' t'' h k e. k (h e); first = λ t t' h e. aligned-IsInOrder t' (h e) }

in_order : {A : Type 0} {m : Action A} → Keeps StaysAligned m → Keeps EndsInOrder m
in_order h = record { run = λ t. weak (h.run t) }
  where
    weak :
        {A : Type 0} {t : Telegram} {o : Outcome A} → After StaysAligned t o → After EndsInOrder t o
    weak (ends a t' r) = ends a t' (leads.first _ _ r)
    weak (quits t' r) = quits t' (leads.first _ _ r)
    weak breaks = breaks

keep_values-After :
    (t : Telegram) (p : Dv.Parsed)
    → parse_dv (dv_telegram t) t.rest ≡ p
    → After EndsInOrder t (keep_values p t)
unfolding keep_values EndsInOrder IsAligned IsInOrder
keep_values-After t (Dv.done d) e = ends _ _ λ aligned.
    let (behind, q) = parse_dv_in_order (dv_telegram t) d t.rest e in
    inr (behind, q ∙ ap (λ v. v ++ t.rest) aligned)
keep_values-After t Dv.undefined e = breaks
keep_values-After t Dv.out_of_fuel e = breaks

parse_values-Keeps : Keeps EndsInOrder parse_values
unfolding parse_values
parse_values-Keeps = record { run = λ t. keep_values-After t _ refl }

decrypt_and_parse-Keeps :
    (ecb : Bytes → Bytes → Bytes) (cbc : Bytes → Bytes → Bytes → Bytes)
    → Keeps EndsInOrder (decrypt_and_parse ecb cbc)
unfolding decrypt_and_parse set_sizes StaysAligned IsAligned
decrypt_and_parse-Keeps ecb cbc =
    Keeps-both leads (attempt-Keeps (potentially_decrypt-Keeps ecb cbc)) λ decrypt_ok.
      Keeps-both leads (sets _ λ t e. e)
        λ _. if-Keeps decrypt_ok parse_values-Keeps (in_order (sets _ λ t e. e))

-- A compact frame stays one.
StaysCompact : Telegram → Telegram → Type 0
StaysCompact t t' = t.tpl.ci ≡ 0x79 → t'.tpl.ci ≡ 0x79

compact : IsPreorder StaysCompact
unfolding StaysCompact
compact = record { same = λ t e. e; trans = λ t t' t'' h k e. k (h e) }

take_bytes-StaysCompact : (n : ℕ) → Keeps StaysCompact (take_bytes n)
unfolding take_bytes StaysCompact
take_bytes-StaysCompact n = record {
  run = λ t. elim (Bool-cases (ltb (length t.rest) n)) [
    | inl short ↦ rw short breaks
    | inr long ↦ rw long (ends _ _ λ e. e)
  ];
}

keep_values-StaysCompact : (t : Telegram) (p : Dv.Parsed) → After StaysCompact t (keep_values p t)
unfolding keep_values StaysCompact
keep_values-StaysCompact t (Dv.done d) = ends _ _ λ e. e
keep_values-StaysCompact t Dv.undefined = breaks
keep_values-StaysCompact t Dv.out_of_fuel = breaks

parse_compact-Keeps : (format : Option Bytes) → Keeps StaysCompact (parse_compact format)
unfolding parse_compact set_sizes parse_values_format StaysCompact
parse_compact-Keeps none = stop-Keeps compact
parse_compact-Keeps (some format) = Keeps->>= compact (check-Keeps compact 2) λ _.
    Keeps->>= compact (take_bytes-StaysCompact 2) λ _.
      Keeps->>= compact (modify-Keeps compact _ λ t e. e)
        λ _. record { run = λ t. keep_values-StaysCompact t _ }

parse_tpl_79-Keeps : Keeps StaysCompact parse_tpl_79
unfolding parse_tpl_79 StaysCompact
parse_tpl_79-Keeps = Keeps->>= compact (check-Keeps compact 2) λ _.
    Keeps->>= compact (take_bytes-StaysCompact 2) λ ecrc.
      Keeps->>= compact (modify-Keeps compact _ λ t e. e)
        λ _. Keeps->>= compact (gets-Keeps compact _) λ format. parse_compact-Keeps format

-- The fields of a header that is not compact
parse_tpl_fields-Keeps :
    (ecb : Bytes → Bytes → Bytes) (cbc : Bytes → Bytes → Bytes → Bytes) (ci : ℕ)
    → (ci == 0x79) ≡ false
    → Keeps EndsInOrder (parse_tpl_fields ecb cbc ci)
unfolding parse_tpl_fields parse_tpl_72 parse_tpl_78 parse_tpl_7a set_sizes StaysAligned IsAligned
parse_tpl_fields-Keeps ecb cbc ci not_compact =
    if-Keeps (ci == 0x72)
      (Keeps-both leads (parse_long_tpl-Keeps ecb) λ _. decrypt_and_parse-Keeps ecb cbc)
      (if-Keeps (ci == 0x78) (Keeps-both leads (sets _ λ t e. e) λ _. parse_values-Keeps) (
        rw not_compact (
          if-Keeps (ci == 0x7A)
            (Keeps-both leads (parse_short_tpl-Keeps ecb) λ _. decrypt_and_parse-Keeps ecb cbc)
            (if-Keeps _ (in_order (sets _ λ t e. e))
              (in_order (Keeps->>= pre (sets _ λ t e. e) λ _. stop-Keeps pre))))))

IsCompactNow : Telegram → Telegram → Type 0
IsCompactNow t t' = t'.tpl.ci ≡ 0x79

now : Composes IsCompactNow StaysCompact IsCompactNow
unfolding IsCompactNow StaysCompact
now = record { both = λ t t' t'' e h. h e; first = λ t t' e. e }

set_ci-IsCompactNow :
    Keeps IsCompactNow
      (modify (λ t. record t { tpl = record t.tpl { ci = 0x79; start = length t.before } }))
unfolding IsCompactNow
set_ci-IsCompactNow = record { run = λ t. ends _ _ refl }

take_byte-StaysCompact : Keeps StaysCompact take_byte
unfolding take_byte
take_byte-StaysCompact =
    Keeps->>= compact (take_bytes-StaysCompact 1) λ b. pure-Keeps compact (get_or b 0 0)

header_is_compact :
    (ecb : Bytes → Bytes → Bytes) (cbc : Bytes → Bytes → Bytes → Bytes) (short : Bool)
    → Keeps IsCompactNow (parse_tpl_header ecb cbc 0x79 short)
unfolding parse_tpl_header parse_tpl_fields
header_is_compact ecb cbc short = Keeps-both now set_ci-IsCompactNow λ _.
    Keeps->>= compact take_byte-StaysCompact
      λ _. if-Keeps short (stop-Keeps compact) parse_tpl_79-Keeps

After-compact :
    {A : Type 0} {t : Telegram} {o : Outcome A} → After IsCompactNow t o → After EndsInOrder t o
unfolding IsCompactNow EndsInOrder IsInOrder
After-compact (ends a t' e) = ends a t' λ _. inl e
After-compact (quits t' e) = quits t' λ _. inl e
After-compact breaks = breaks

parse_tpl_header-Keeps :
    (ecb : Bytes → Bytes → Bytes) (cbc : Bytes → Bytes → Bytes → Bytes) (ci : ℕ) (short : Bool)
    → Keeps EndsInOrder (parse_tpl_header ecb cbc ci short)
unfolding parse_tpl_header StaysAligned IsAligned
parse_tpl_header-Keeps ecb cbc ci short = elim (Bool-cases (ci == 0x79)) [
  | inl is_compact ↦
      rw ((==_iff ci 0x79).0 is_compact)
        (record { run = λ t. After-compact ((header_is_compact ecb cbc short).run t) })
  | inr not_compact ↦ Keeps-both leads (sets _ λ t e. e) λ _. Keeps-both leads take_byte-Keeps λ _.
      if-Keeps short (in_order (stop-Keeps pre)) (parse_tpl_fields-Keeps ecb cbc ci not_compact)
]

parse_layers-Keeps :
    (ecb : Bytes → Bytes → Bytes) (cbc : Bytes → Bytes → Bytes → Bytes)
    → Keeps EndsInOrder (parse_layers ecb cbc)
unfolding parse_layers parse_nwl parse_tpl
parse_layers-Keeps ecb cbc = Keeps-both leads (parse_ell-Keeps ecb) λ _.
    Keeps-both leads (gets-Keeps pre _) λ failed. if-Keeps failed (in_order (stop-Keeps pre)) (
      Keeps-both leads (pure-Keeps pre tt) λ _. Keeps-both leads parse_afl-Keeps λ _.
        Keeps-both leads (remaining-Keeps pre) λ n. if-Keeps _ (in_order (stop-Keeps pre)) (
          Keeps-both leads (peek-Keeps pre)
            λ ci. if-Keeps _ (parse_tpl_header-Keeps ecb cbc ci _) (in_order (stop-Keeps pre))))

IsFresh : Telegram → Type 0
IsFresh t = (t.before ≡ []) × (t.parsed ≡ [])

pre_process_with-IsFresh :
    (m : AddressTransform) (t : Telegram) → IsFresh t → IsFresh (pre_process_with m t)
unfolding pre_process_with IsFresh
pre_process_with-IsFresh untouched t h = h
pre_process_with-IsFresh swapping t h = (refl, h.1)
pre_process_with-IsFresh set_water_meter t h = (refl, h.1)
pre_process_with-IsFresh standard t h = (refl, h.1)

-- The frame is made ready, whatever was parsed before.
ready : (input : Bytes) (t : Telegram) → IsAligned (pre_process_telegram (start_frame input t))
unfolding pre_process_telegram start_frame IsAligned IsFresh
ready input t =
    let (no_front, none_parsed) = pre_process_with-IsFresh _ _ (refl, refl) in
    none_parsed ∙ sym no_front

pub BecomesInOrder : Telegram → Telegram → Type 0
BecomesInOrder t t' = IsInOrder t'

StaysInOrder : Telegram → Telegram → Type 0
StaysInOrder t t' = IsInOrder t → IsInOrder t'

settled : IsPreorder StaysInOrder
unfolding StaysInOrder
settled = record { same = λ t e. e; trans = λ t t' t'' h k e. k (h e) }

then_settled : Composes EndsInOrder StaysInOrder EndsInOrder
unfolding StaysInOrder EndsInOrder
then_settled = record { both = λ t t' t'' h k e. k (h e); first = λ t t' h. h }

After-ready :
    {A : Type 0} {t t' : Telegram} {o : Outcome A}
    → IsAligned t'
    → After EndsInOrder t' o
    → After BecomesInOrder t o
unfolding EndsInOrder BecomesInOrder
After-ready aligned (ends a t'' h) = ends a t'' (h aligned)
After-ready aligned (quits t'' h) = quits t'' (h aligned)
After-ready aligned breaks = breaks

-- What the parser of a wireless telegram, and that of its header alone, mark as parsed is the front of
-- the frame, whatever they come to: the bytes are marked once each, in their order, and those of the
-- frame behind a decryption as they were decrypted, so that a position among the marked bytes is a
-- position in the frame. A telegram with the CI field 0x79, whose values take their format from
-- elsewhere, is left out, and so is a read past the end.
pub parse_wmbus_in_order :
    (ecb : Bytes → Bytes → Bytes) (cbc : Bytes → Bytes → Bytes → Bytes) (input key : Bytes)
    (t : Telegram)
    → After BecomesInOrder t (parse_wmbus ecb cbc input key t)
      × After BecomesInOrder t (parse_wmbus_header ecb cbc input t)
unfolding parse_wmbus parse_wmbus_header ◌>>=◌
parse_wmbus_in_order ecb cbc input key t =
    let layers = parse_layers-Keeps ecb cbc in
    (
      After-ready (ready input (record t { meter_keys = some key })) (
          (Keeps-both leads parse_dll-Keeps λ _. Keeps-both then_settled layers λ _.
              Keeps->>= settled (gets-Keeps settled (λ t'. t'.decryption_failed))
                λ failed. if-Keeps failed (stop-Keeps settled) (pure-Keeps settled tt)).run
            _),
      After-ready (ready input t) (
          (Keeps-both leads parse_dll-Keeps
              λ _. Keeps-both then_settled (attempt-Keeps layers) λ _. pure-Keeps settled tt).run
            _),
    )
