-- ===== src/Serializer/Json.antt =====
-- src/serializer/json.c: what the JSON serializer uses of yajl and GLib, and the names of its extensions.
pub mod Write
pub mod Parse
pub mod Spots
pub mod RoundTrip
pub mod Tests
use librpc.Base.{ℕ, ◌+◌, ◌*◌, ◌^◌, Bool, List, Bytes, codes}
use librpc.Base.Int.{ℤ}

-- A call of a yajl_gen_ function, and a callback of the parser. `map_key` is yajl_gen_string where the
-- generator is at the key of a map.
pub data Event : Type 0 where
  gen_null : Event
  gen_bool : Bool → Event
  gen_integer : ℤ → Event
  gen_double : ℕ → Event
  gen_string : Bytes → Event
  map_key : Bytes → Event
  map_open map_close array_open array_close : Event

-- yajl: the status of a call after the calls before it (0 is yajl_gen_status_ok), the text of the calls,
-- the callbacks on a text, and whether yajl_parse and yajl_complete_parse find it whole. GLib: base64.
pub record Yajl : Type 0 where
  pub status : List Event → Event → ℕ
  pub print : List Event → Bytes
  pub parse : Bytes → List Event × Bool
  pub base64_encode : Bytes → Bytes
  pub base64_decode : Bytes → Bytes

abbrev pub exttype_uint64 : Bytes
exttype_uint64 = codes "$uint"

abbrev pub exttype_date : Bytes
exttype_date = codes "$date"

abbrev pub exttype_binary : Bytes
exttype_binary = codes "$bin"

abbrev pub exttype_fd : Bytes
exttype_fd = codes "$fd"

abbrev pub exttype_error : Bytes
exttype_error = codes "$error"

abbrev pub exttype_shmem : Bytes
exttype_shmem = codes "$shmem"

abbrev pub exttype_double : Bytes
exttype_double = codes "$double"

abbrev pub double_nan : Bytes
double_nan = codes "$nan"

abbrev pub double_inf : Bytes
double_inf = codes "$inf"

abbrev pub double_ninf : Bytes
double_ninf = codes "$ninf"

-- The bit patterns of INFINITY, -INFINITY and NAN.
abbrev pub infinity : ℕ
infinity = 2047 * 2 ^ 52

abbrev pub minus_infinity : ℕ
minus_infinity = 2047 * 2 ^ 52 + 2 ^ 63

abbrev pub not_a_number : ℕ
not_a_number = 2047 * 2 ^ 52 + 2 ^ 51
