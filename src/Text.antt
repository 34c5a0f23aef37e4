-- ===== src/Text.antt =====
-- src/util.cc: cutting text apart (`eatTo`, `eatWhitespace`, `trimWhitespace`, `splitString`,
-- `parseExtras`) and the small tests on whole texts. A string is the list of its bytes.
pub mod Equal
pub mod Splitting
pub mod Parts
pub mod Trimming
mod Runs
use wmbm_16brandnew.Prelude.{
  ℕ, zero, suc, ◌+◌, ◌-◌, ◌*◌, ◌/◌, ◌%◌, ◌^◌, ◌≤◌, ◌<◌, ◌≡◌, ◌≢◌, refl, ap, sym, ◌∙◌, ◌⊎◌, ◌↔◌, inl,
  inr, Bool, true, false, not, ◌&&◌, ◌||◌, Option, none, some, List, [], ◌∷◌, ◌++◌, map, arith,
  Bytes, IsByte, All, codes, get_or, get_elem?, take, drop, replicate, length, length-append,
  length-take, length-drop, take-append-drop, take-append_length, drop-append_length,
  length-replicate, within, ltb, leb, ◌==◌, if◌then◌else◌, all_below, all_below_sound, agree_below,
  Bool-cases, Option-cases, flag_cases, ==_iff, u8, u16, u32, bit_set,
}
use mathlib.Core.List.{append-nil, append_assoc}
use wmbm_16brandnew.Hex.{c_str}

abbrev pub is_empty : Bytes → Bool
is_empty [] = true
is_empty (c ∷ s) = false

-- `==` of two strings
unfoldable pub equal : Bytes → Bytes → Bool
equal [] [] = true
equal (x ∷ xs) (y ∷ ys) = (x == y) && equal xs ys
equal _ _ = false

-- The terminator `c` of `eatTo` is an int, where -1 (`none`) stands for no terminator.
unfoldable pub stops : Option ℕ → ℕ → Bool
stops none x = false
stops (some c) x = x == c

-- The loop of `eatTo`: what is taken, and what is left.
unfoldable pub eat_loop : ℕ → Option ℕ → Bytes → Bytes × Bytes
eat_loop zero c v = ([], v)
eat_loop (suc max) c [] = ([], [])
eat_loop (suc max) c (x ∷ v) =
    let more = eat_loop max c v in if stops c x then ([], x ∷ v) else (x ∷ more.0, more.1)

pub record Eaten : Type 0 where
  pub token : Bytes
  pub rest : Bytes
  pub eof : Bool
  pub err : Bool

-- `c != -1 && i != v.end() && *i != c`
unfoldable pub bytes_err : Option ℕ → Bytes → Bool
bytes_err none rest = false
bytes_err (some c) [] = false
bytes_err (some c) (x ∷ rest) = not (x == c)

-- `c != -1 && (i == v.end() || *i != c)`
unfoldable pub chars_err : Option ℕ → Bytes → Bool
chars_err none rest = false
chars_err (some c) [] = true
chars_err (some c) (x ∷ rest) = not (x == c)

-- Behind the loop one more byte is passed over, if there is one.
unfoldable pub eat_finish : Bytes → Bytes → Bool → Eaten
eat_finish token rest err = record {
  token = token;
  rest = drop 1 rest;
  eof = is_empty (drop 1 rest);
  err = err;
}

-- `eatTo(vector<uchar>&, …)`
unfoldable pub eat_to_bytes : Bytes → Option ℕ → ℕ → Eaten
eat_to_bytes v c max =
    let (token, rest) = eat_loop max c v in eat_finish token rest (bytes_err c rest)

-- `eatTo(vector<char>&, …)`
unfoldable pub eat_to : Bytes → Option ℕ → ℕ → Eaten
eat_to v c max = let (token, rest) = eat_loop max c v in eat_finish token rest (chars_err c rest)

abbrev is_blank : ℕ → Bool
is_blank c = (c == b' ') || (c == b'\t')

-- `eatWhitespace`: what is left; `*eof` is set if that is nothing.
unfoldable pub eat_whitespace : Bytes → Bytes
eat_whitespace [] = []
eat_whitespace (c ∷ v) = if is_blank c then eat_whitespace v else c ∷ v

unfoldable pub trim_right : Bytes → Bytes
trim_right [] = []
trim_right (c ∷ s) = let r = trim_right s in if is_blank c && is_empty r then [] else c ∷ r

-- `trimWhitespace`: the first erase is the loop of `eatWhitespace`.
unfoldable pub trim_whitespace : Bytes → Bytes
trim_whitespace s = trim_right (eat_whitespace s)

-- `eatToSkipWhitespace`, with the value that `*err` has before the call; an empty rest leaves it
-- unless there is a terminator.
unfoldable pub has_terminator : Option ℕ → Bool
has_terminator none = false
has_terminator (some c) = true

unfoldable pub eat_to_skip_whitespace : Bytes → Option ℕ → ℕ → Bool → Eaten
eat_to_skip_whitespace v c max err =
    let skipped = eat_whitespace v in
    let eaten : Eaten = eat_to skipped c max in
    if is_empty skipped
    then record { token = []; rest = []; eof = true; err = has_terminator c || err }
    else record eaten { token = trim_whitespace eaten.token }

-- `splitString`: `token` is what lies between `start` and `i`.
unfoldable pub split_loop : Bytes → ℕ → Bytes → List Bytes
split_loop [] c [] = []
split_loop [] c (x ∷ token) = (x ∷ token) ∷ []
split_loop (x ∷ s) c [] = split_loop s c (if x == c then [] else x ∷ [])
split_loop (x ∷ s) c (y ∷ token) =
    let cut = (y ∷ token) ∷ split_loop s c [] in
    let kept = split_loop s c ((y ∷ token) ++ x ∷ []) in if x == c then cut else kept

unfoldable pub split_string : Bytes → ℕ → List Bytes
split_string s c = split_loop s c []

-- A map is an association list; `(*extras)[key] = value` replaces or adds.
unfoldable pub put : Bytes → Bytes → List (Bytes × Bytes) → List (Bytes × Bytes)
put k v [] = (k, v) ∷ []
put k v ((j, w) ∷ m) = if equal j k then (k, v) ∷ m else (j, w) ∷ put k v m

unfoldable pub find : Bytes → List (Bytes × Bytes) → Option Bytes
find k [] = none
find k ((j, w) ∷ m) = if equal j k then some w else find k m

-- The loop of `parseExtras` over the parts; what was read before a bad part stays in the map.
unfoldable pub extras_loop : List Bytes → List (Bytes × Bytes) → Bool × List (Bytes × Bytes)
extras_loop [] extras = (true, extras)
extras_loop (p ∷ parts) extras = elim (split_string p b'=') [
  | [] ↦ (false, extras)
  | k ∷ [] ↦ (false, extras)
  | k ∷ v ∷ [] ↦ extras_loop parts (put k v extras)
  | k ∷ v ∷ w ∷ kv ↦ (false, extras)
]

unfoldable pub parse_extras : Bytes → List (Bytes × Bytes) → Bool × List (Bytes × Bytes)
parse_extras s extras = extras_loop (split_string s b' ') extras

abbrev is_digit : ℕ → Bool
is_digit c = within b'0' b'9' c

-- `isFrequency`: digits and points, and a final M.
unfoldable pub is_frequency : Bytes → Bool
is_frequency [] = false
is_frequency (c ∷ []) = c == b'M'
is_frequency (c ∷ d ∷ s) = (is_digit c || (c == b'.')) && is_frequency (d ∷ s)

unfoldable pub all_digits : Bytes → Bool
all_digits [] = true
all_digits (c ∷ s) = is_digit c && all_digits s

unfoldable pub is_number : Bytes → Bool
is_number [] = false
is_number (c ∷ s) = all_digits (c ∷ s)

unfoldable pub is_ascii_letter : ℕ → Bool
is_ascii_letter c = within b'A' b'Z' c || within b'a' b'z' c

unfoldable pub is_ascii_alnum : ℕ → Bool
is_ascii_alnum c = within b'A' b'Z' c || within b'a' b'z' c || within b'0' b'9' c || (c == b'_')

unfoldable pub all_alnum : Bytes → Bool
all_alnum [] = true
all_alnum (c ∷ s) = is_ascii_alnum c && all_alnum s

unfoldable pub is_valid_alias : Bytes → Bool
is_valid_alias [] = false
is_valid_alias (c ∷ s) = is_ascii_letter c && all_alnum (c ∷ s)

unfoldable pub is_one_of : Bytes → List Bytes → Bool
is_one_of b [] = false
is_one_of b (x ∷ xs) = equal b x || is_one_of b xs

unfoldable pub is_valid_bps : Bytes → Bool
is_valid_bps b = is_one_of b (
    codes "300"
    ∷ codes "600"
    ∷ codes "1200"
    ∷ codes "2400"
    ∷ codes "4800"
    ∷ codes "9600"
    ∷ codes "14400"
    ∷ codes "19200"
    ∷ codes "38400"
    ∷ codes "57600"
    ∷ codes "115200"
    ∷ [])

-- `findBytes`, from index `p` on: `none` is the result -1.
unfoldable pub find_bytes_from : ℕ → Bytes → ℕ → ℕ → ℕ → Option ℕ
find_bytes_from p [] a b c = none
find_bytes_from p (x ∷ []) a b c = none
find_bytes_from p (x ∷ y ∷ []) a b c = none
find_bytes_from p (x ∷ y ∷ z ∷ v) a b c =
    let later = find_bytes_from (p + 1) (y ∷ z ∷ v) a b c in
    if (x == a) && (y == b) && (z == c) then some p else later

unfoldable pub find_bytes : Bytes → ℕ → ℕ → ℕ → Option ℕ
find_bytes v a b c = find_bytes_from 0 v a b c

-- `makeQuotedJson`: the parts before and behind the first `=`.
unfoldable pub cut_at : ℕ → Bytes → Bytes × Bytes
cut_at c [] = ([], [])
cut_at c (x ∷ s) = let more = cut_at c s in if x == c then ([], s) else (x ∷ more.0, more.1)

unfoldable pub make_quoted_json : Bytes → Bytes
make_quoted_json s =
    let (key, value) = cut_at b'=' s in
    codes "\"" ++ (key ++ (codes "\":\"" ++ (value ++ codes "\"")))

-- `toIdsCommaSeparated`
unfoldable pub to_ids_comma_separated : List Bytes → Bytes
to_ids_comma_separated [] = []
to_ids_comma_separated (s ∷ []) = s
to_ids_comma_separated (s ∷ t ∷ ids) = s ++ b',' ∷ to_ids_comma_separated (t ∷ ids)
