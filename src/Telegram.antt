-- ===== src/Telegram.antt =====
-- src/wmbus.cc and src/wmbus.h: the class `Telegram`, and the walk through the headers of a frame.
-- The frame is kept in two parts, what is before the position and what is behind it. What the parser
-- prints or explains is left out, but not the bytes that it marks as parsed. `FUZZING` is false.
pub mod Modes
pub mod DataLink
pub mod ExtendedLink
pub mod Authentication
pub mod Transport
pub mod Decryption
pub mod Payload
pub mod Parsing
pub mod Safety
pub mod Bounds
pub mod Relation
pub mod Order
pub mod Headers
pub mod Mac
pub mod Decrypted
pub mod Runs
use wmbm_16brandnew.Prelude.{
  ℕ, zero, suc, ◌+◌, ◌-◌, ◌*◌, ◌/◌, ◌%◌, Bool, true, false, not, ◌&&◌, Option, none, some, List, [],
  ◌∷◌, ◌++◌, map, Bytes, codes, get_or, take, drop, length, ltb, ◌==◌, if◌then◌else◌,
}
use wmbm_16brandnew.Telegram.Modes.{EllSecurityMode, TplSecurityMode}
use wmbm_16brandnew.Dv.{DvEntry}

-- The data link layer
pub record Dll : Type 0 where
  pub len : ℕ
  pub c : ℕ
  pub mfct_b : Bytes
  pub mfct : ℕ
  pub mbus_primary_address : ℕ
  pub a : Bytes
  pub id_b : Bytes
  pub id : Bytes
  pub version : ℕ
  pub type_ : ℕ

-- The extended link layer
pub record Ell : Type 0 where
  pub ci : ℕ
  pub cc : ℕ
  pub acc : ℕ
  pub mfct_b : Bytes
  pub mfct : ℕ
  pub id_found : Bool
  pub id_b : Bytes
  pub version : ℕ
  pub type_ : ℕ
  pub sn_b : Bytes
  pub sn : ℕ
  pub sn_session : ℕ
  pub sn_time : ℕ
  pub sn_sec : ℕ
  pub sec_mode : EllSecurityMode
  pub pl_crc_b : Bytes
  pub pl_crc : ℕ

-- The authentication and fragmentation layer
pub record Afl : Type 0 where
  pub ci : ℕ
  pub len : ℕ
  pub fc_b : Bytes
  pub fc : ℕ
  pub mcl : ℕ
  pub ki_b : Bytes
  pub ki : ℕ
  pub counter_b : Bytes
  pub counter : ℕ
  pub must_check_mac : Bool
  pub mac_b : Bytes

-- The transport layer; `start` is the position of its CI field.
pub record Tpl : Type 0 where
  pub start : ℕ
  pub ci : ℕ
  pub acc : ℕ
  pub sts : ℕ
  pub cfg : ℕ
  pub sec_mode : TplSecurityMode
  pub num_encr_blocks : ℕ
  pub cfg_ext : ℕ
  pub kdf_selection : ℕ
  pub generated_key : Bytes
  pub generated_mac_key : Bytes
  pub id_found : Bool
  pub a : Bytes
  pub id_b : Bytes
  pub mfct_b : Bytes
  pub mfct : ℕ
  pub version : ℕ
  pub type_ : ℕ
  pub format_signature : ℕ

-- `meter_keys` is the confidentiality key, or `none` for the null pointer; `formats` is the table of
-- the formats that the program has seen.
pub record Telegram : Type 0 where
  pub before : Bytes
  pub rest : Bytes
  pub parsed : Bytes
  pub original : Bytes
  pub ids : List Bytes
  pub idsc : Bytes
  pub decryption_failed : Bool
  pub dll : Dll
  pub ell : Ell
  pub afl : Afl
  pub tpl : Tpl
  pub header_size : ℕ
  pub suffix_size : ℕ
  pub values : List (Bytes × (ℕ × DvEntry))
  pub mfct_0f_index : Option ℕ
  pub meter_keys : Option Bytes
  pub is_simulated : Bool
  pub formats : List (ℕ × Bytes)

abbrev pub frame : Telegram → Bytes
frame t = t.before ++ t.rest

-- What a part of the parser comes to: a value, the result false, or a read past the end of the frame
-- or another step that C++ leaves undefined.
pub data Outcome (A : Type 0) : Type 0 where
  ok : A → Telegram → Outcome A
  stops : Telegram → Outcome A
  faults : Outcome A

abbrev pub Action : Type 0 → Type 0
Action A = Telegram → Outcome A

abbrev pub pure : {A : Type 0} → A → Action A
pure a t = ok a t

-- `return false`
abbrev pub stop : {A : Type 0} → Action A
stop t = stops t

abbrev pub undefined : {A : Type 0} → Action A
undefined t = faults

infixl 5 ◌>>=◌ ◌>>◌
unfoldable pub ◌>>=◌ : {A B : Type 0} → Action A → (A → Action B) → Action B
◌>>=◌ m f t = elim (m t) [ ok a t' ↦ f a t' | stops t' ↦ stops t' | faults ↦ faults ]

abbrev pub ◌>>◌ : {B : Type 0} → Action (Unit {0}) → Action B → Action B
m >> k = m >>= λ _. k

abbrev pub gets : {A : Type 0} → (Telegram → A) → Action A
gets f t = ok (f t) t

abbrev pub modify : (Telegram → Telegram) → Action (Unit {0})
modify f t = ok tt (f t)

-- `distance(pos, frame.end())`
abbrev pub remaining : Action ℕ
remaining t = ok (length t.rest) t

-- `CHECK(n)`
unfoldable pub check : ℕ → Action (Unit {0})
check n t = if ltb (length t.rest) n then stops t else ok tt t

-- `*pos`
unfoldable pub peek : Action ℕ
peek t = elim t.rest [ [] ↦ faults | b ∷ rest ↦ ok b t ]

-- Reads the next `n` bytes, marks them as parsed and passes over them:
-- `addExplanationAndIncrementPos`.
unfoldable pub take_bytes : ℕ → Action Bytes
take_bytes n t =
    if ltb (length t.rest) n
    then faults
    else ok (take n t.rest) (record t {
      before = t.before ++ take n t.rest;
      rest = drop n t.rest;
      parsed = t.parsed ++ take n t.rest;
    })

unfoldable pub take_byte : Action ℕ
take_byte = do b ← take_bytes 1; pure (get_or b 0 0)

-- `b[1] << 8 | b[0]`
abbrev pub word : Bytes → ℕ
word b = get_or b 1 0 * 256 + get_or b 0 0

-- `b[3] << 24 | b[2] << 16 | b[1] << 8 | b[0]`
abbrev pub long_word : Bytes → ℕ
long_word b = ((get_or b 3 0 * 256 + get_or b 2 0) * 256 + get_or b 1 0) * 256 + get_or b 0 0

abbrev lower_digit : ℕ → ℕ
lower_digit d = if ltb d 10 then b'0' + d else b'a' + (d - 10)

-- `"%02x%02x%02x%02x"`, of the bytes in the opposite order
unfoldable pub id_text : Bytes → Bytes
id_text [] = []
id_text (b ∷ v) = id_text v ++ lower_digit (b / 16) ∷ lower_digit (b % 16) ∷ []

-- A further id behind a comma
abbrev pub add_id : Bytes → Telegram → Telegram
add_id id t = record t { ids = t.ids ++ id ∷ []; idsc = t.idsc ++ b',' ∷ id }
