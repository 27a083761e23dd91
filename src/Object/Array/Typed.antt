-- ===== src/Object/Array/Typed.antt =====
-- src/rpc_object.c: the array operations on plain values, rpc_array_set_bool to rpc_array_get_fd. A
-- double is its bit pattern; the length that rpc_array_get_data stores on request is the length of
-- the bytes.
pub mod ReadBack
use librpc.Base.{
  ℕ, Bool, true, false, Option, none, some, Bytes, Outcome, ok, fault, bad_access, leb,
  if◌then◌else◌,
}
use librpc.Base.Int.{ℤ, pos, negsuc}
use librpc.Object.Types.{Object, bool, uint64, int64, double, date, binary, fd}
use librpc.Object.Value.{
  bool_get_value, int64_get_value, uint64_get_value, double_get_value, date_get_value,
  data_get_bytes_ptr, string_get_string_ptr, fd_get_value, string_create,
}
use librpc.Object.Array.{array_get_count, array_get_value, array_steal_value}

-- The guard that the getters share; the element behind it is read without a check.
unfoldable pub array_fetch {ℓ} : {A : Type ℓ} → (Object → A) → A → Object → ℕ → Outcome A
unfolding array_get_count array_get_value
array_fetch get missing a i =
    if leb (array_get_count a) i
    then ok missing
    else elim (array_get_value a i) [ none ↦ fault bad_access | some v ↦ ok (get v) ]

unfoldable pub array_set_bool : Object → ℕ → Bool → Outcome Object
unfolding array_steal_value
array_set_bool a i x = array_steal_value a i (bool x)

unfoldable pub array_set_int64 : Object → ℕ → ℤ → Outcome Object
unfolding array_steal_value
array_set_int64 a i x = array_steal_value a i (int64 x)

unfoldable pub array_set_uint64 : Object → ℕ → ℕ → Outcome Object
unfolding array_steal_value
array_set_uint64 a i x = array_steal_value a i (uint64 x)

unfoldable pub array_set_double : Object → ℕ → ℕ → Outcome Object
unfolding array_steal_value
array_set_double a i x = array_steal_value a i (double x)

unfoldable pub array_set_date : Object → ℕ → ℤ → Outcome Object
unfolding array_steal_value
array_set_date a i x = array_steal_value a i (date x)

unfoldable pub array_set_data : Object → ℕ → Bytes → Outcome Object
unfolding array_steal_value
array_set_data a i x = array_steal_value a i (binary x)

unfoldable pub array_set_string : Object → ℕ → Option Bytes → Outcome Object
unfolding array_steal_value string_create
array_set_string a i x = array_steal_value a i (string_create x)

unfoldable pub array_set_fd : Object → ℕ → ℤ → Outcome Object
unfolding array_steal_value
array_set_fd a i x = array_steal_value a i (fd x)

unfoldable pub array_get_bool : Object → ℕ → Outcome Bool
unfolding array_fetch bool_get_value
array_get_bool a i = array_fetch bool_get_value false a i

unfoldable pub array_get_int64 : Object → ℕ → Outcome ℤ
unfolding array_fetch int64_get_value
array_get_int64 a i = array_fetch int64_get_value (pos 0) a i

unfoldable pub array_get_uint64 : Object → ℕ → Outcome ℕ
unfolding array_fetch uint64_get_value
array_get_uint64 a i = array_fetch uint64_get_value 0 a i

unfoldable pub array_get_double : Object → ℕ → Outcome ℕ
unfolding array_fetch double_get_value
array_get_double a i = array_fetch double_get_value 0 a i

unfoldable pub array_get_date : Object → ℕ → Outcome ℤ
unfolding array_fetch date_get_value
array_get_date a i = array_fetch date_get_value (pos 0) a i

unfoldable pub array_get_data : Object → ℕ → Outcome (Option Bytes)
unfolding array_fetch data_get_bytes_ptr
array_get_data a i = array_fetch data_get_bytes_ptr none a i

unfoldable pub array_get_string : Object → ℕ → Outcome (Option Bytes)
unfolding array_fetch string_get_string_ptr
array_get_string a i = array_fetch string_get_string_ptr none a i

unfoldable pub array_get_fd : Object → ℕ → Outcome ℤ
unfolding array_fetch fd_get_value
array_get_fd a i = array_fetch fd_get_value (pos 0) a i
