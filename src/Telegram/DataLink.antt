-- ===== src/Telegram/DataLink.antt =====
-- src/wmbus.cc: `parseDLL` and `parseMBusDLL`.
use wmbm_16brandnew.Prelude.{ℕ, [], ◌∷◌, ◌++◌, Bytes, get_or, ltb, ◌==◌, if◌then◌else◌}
use wmbm_16brandnew.Telegram.{
  Telegram, Action, stop, undefined, ◌>>=◌, ◌>>◌, gets, modify, remaining, peek, take_bytes,
  take_byte, word, id_text,
}

-- What both start with: there is a byte, and as many bytes as it says.
unfoldable pub take_length : Action ℕ
take_length = do
  n ← remaining
  if n == 0 then stop else do len ← peek; if ltb n len then stop else do take_byte

unfoldable pub set_dll : ℕ → ℕ → Bytes → Bytes → ℕ → ℕ → Telegram → Telegram
set_dll len c mfct_b id_b version type_ t = record t {
  ids = t.ids ++ id_text id_b ∷ [];
  idsc = id_text id_b;
  dll = record t.dll {
    len = len;
    c = c;
    mfct_b = mfct_b;
    mfct = word mfct_b;
    a = id_b ++ version ∷ type_ ∷ [];
    id_b = id_b;
    id = get_or id_b 3 0 ∷ get_or id_b 2 0 ∷ get_or id_b 1 0 ∷ get_or id_b 0 0 ∷ [];
    version = version;
    type_ = type_;
  };
}

unfoldable pub parse_dll : Action (Unit {0})
parse_dll = do
  len ← take_length
  c ← take_byte
  mfct_b ← take_bytes 2
  id_b ← take_bytes 4
  version ← take_byte
  type_ ← take_byte
  modify (set_dll len c mfct_b id_b version type_)

-- The id of a wired telegram is taken from `dll_a[0]`, which `parseMBusDLL` itself does not write.
unfoldable pub set_mbus_id : Bytes → Action (Unit {0})
set_mbus_id [] = undefined
set_mbus_id (b ∷ _) =
    modify (λ t. record t { ids = t.ids ++ id_text (b ∷ []) ∷ []; idsc = id_text (b ∷ []) })

unfoldable pub parse_mbus_dll : Action (Unit {0})
parse_mbus_dll = do
  len ← take_length
  c ← take_byte
  address ← take_byte
  modify (λ t. record t { dll = record t.dll { len = len; c = c; mbus_primary_address = address } })
  a ← gets (λ t. t.dll.a)
  set_mbus_id a
