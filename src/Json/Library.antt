-- ===== src/Json/Library.antt =====
-- What adsbus/json.c uses of the jansson library and of the C library.
use adsb_tools.Prelude.{ℕ, Bool, Option, List}

-- `json_int_t`: `negsuc n` is -(n + 1).
pub data ℤ : Type 0 where
  pos negsuc : ℕ → ℤ

-- The members that `json_unpack` finds in a header. A string is its bytes with the terminator.
pub record Header : Type 0 where
  pub magic : List ℕ
  pub server_id : List ℕ
  pub mlat_timestamp_mhz : ℤ
  pub mlat_timestamp_max : ℤ
  pub rssi_max : ℤ

-- The members that `json_unpack` finds in a message.
pub record Common : Type 0 where
  pub source_id : List ℕ
  pub hops : ℤ

-- What the values of a written object are: a string with its terminator, a text with a length, the
-- members of an object that are integers, or NULL for a value.
pub data Value : Type 0 where
  integer : ℕ → Value
  string text : List ℕ → Value
  counts : List (List ℕ × ℕ) → Value
  nothing : Value

-- `json_dump_callback`, by the pieces of text that it delivers for an object.
pub record Writer : Type 0 where
  pub dump : List (List ℕ × Value) → List (List ℕ)

-- The calls, by what they answer.
pub record Jansson (J : Type 0) : Type 0 where
  -- `json_loadb` on these bytes, with `err.position`.
  pub loadb : List ℕ → Option (J × ℕ)
  -- `json_string_value(json_object_get(in, "type"))`, if `in` is an object with a string there.
  pub type_of : J → Option (List ℕ)
  -- `json_unpack` with the format of a header, and with that of a message.
  pub unpack_header : J → Option Header
  pub unpack_common : J → Option Common
  -- The integer under a key, if there is one.
  pub integer_at : J → List ℕ → Option ℤ
  -- The length and the value of the string under a key, if there is one.
  pub string_at : J → List ℕ → Option (ℕ × List ℕ)
  -- `strcmp(a, b) == 0`
  pub strcmp_equal : List ℕ → List ℕ → Bool
