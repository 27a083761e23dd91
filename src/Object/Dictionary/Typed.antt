-- ===== src/Object/Dictionary/Typed.antt =====
-- src/rpc_object.c: the dictionary operations on plain values, rpc_dictionary_set_bool to
-- rpc_dictionary_get_fd. A double is its bit pattern; the length that rpc_dictionary_get_data stores
-- on request is the length of the bytes.
pub mod ReadBack
use librpc.Base.{ℕ, Bool, true, false, Option, none, some, Bytes, Outcome, ok, if◌then◌else◌}
use librpc.Base.Int.{ℤ, pos, negsuc}
use librpc.Object.Types.{Object, bool, uint64, int64, double, date, binary, fd}
use librpc.Object.Value.{
  bool_get_value, int64_get_value, uint64_get_value, double_get_value, date_get_value,
  data_get_bytes_ptr, string_get_string_ptr, fd_get_value, string_create,
}
use librpc.Object.Dictionary.{dictionary_get_value, dictionary_steal_value}

unfoldable pub dictionary_fetch {ℓ} : {A : Type ℓ} → (Object → A) → A → Object → Bytes → A
unfolding dictionary_get_value
dictionary_fetch get missing d k = elim (dictionary_get_value d k) [
  | none ↦ missing
  | some v ↦ get v
]

unfoldable pub dictionary_set_bool : Object → Bytes → Bool → Outcome Object
unfolding dictionary_steal_value
dictionary_set_bool d k x = dictionary_steal_value d k (bool x)

unfoldable pub dictionary_set_int64 : Object → Bytes → ℤ → Outcome Object
unfolding dictionary_steal_value
dictionary_set_int64 d k x = dictionary_steal_value d k (int64 x)

unfoldable pub dictionary_set_uint64 : Object → Bytes → ℕ → Outcome Object
unfolding dictionary_steal_value
dictionary_set_uint64 d k x = dictionary_steal_value d k (uint64 x)

unfoldable pub dictionary_set_double : Object → Bytes → ℕ → Outcome Object
unfolding dictionary_steal_value
dictionary_set_double d k x = dictionary_steal_value d k (double x)

unfoldable pub dictionary_set_date : Object → Bytes → ℤ → Outcome Object
unfolding dictionary_steal_value
dictionary_set_date d k x = dictionary_steal_value d k (date x)

unfoldable pub dictionary_set_data : Object → Bytes → Bytes → Outcome Object
unfolding dictionary_steal_value
dictionary_set_data d k x = dictionary_steal_value d k (binary x)

unfoldable pub dictionary_set_string : Object → Bytes → Option Bytes → Outcome Object
unfolding dictionary_steal_value string_create
dictionary_set_string d k x = dictionary_steal_value d k (string_create x)

unfoldable pub dictionary_set_fd : Object → Bytes → ℤ → Outcome Object
unfolding dictionary_steal_value
dictionary_set_fd d k x = dictionary_steal_value d k (fd x)

unfoldable pub dictionary_get_bool : Object → Bytes → Bool
unfolding dictionary_fetch bool_get_value
dictionary_get_bool d k = dictionary_fetch bool_get_value false d k

unfoldable pub dictionary_get_int64 : Object → Bytes → ℤ
unfolding dictionary_fetch int64_get_value
dictionary_get_int64 d k = dictionary_fetch int64_get_value (pos 0) d k

unfoldable pub dictionary_get_uint64 : Object → Bytes → ℕ
unfolding dictionary_fetch uint64_get_value
dictionary_get_uint64 d k = dictionary_fetch uint64_get_value 0 d k

unfoldable pub dictionary_get_double : Object → Bytes → ℕ
unfolding dictionary_fetch double_get_value
dictionary_get_double d k = dictionary_fetch double_get_value 0 d k

unfoldable pub dictionary_get_date : Object → Bytes → ℤ
unfolding dictionary_fetch date_get_value
dictionary_get_date d k = dictionary_fetch date_get_value (pos 0) d k

unfoldable pub dictionary_get_data : Object → Bytes → Option Bytes
unfolding dictionary_fetch data_get_bytes_ptr
dictionary_get_data d k = dictionary_fetch data_get_bytes_ptr none d k

unfoldable pub dictionary_get_string : Object → Bytes → Option Bytes
unfolding dictionary_fetch string_get_string_ptr
dictionary_get_string d k = dictionary_fetch string_get_string_ptr none d k

unfoldable pub dictionary_get_fd : Object → Bytes → ℤ
unfolding dictionary_fetch fd_get_value
dictionary_get_fd d k = dictionary_fetch fd_get_value (negsuc 0) d k
