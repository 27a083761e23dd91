-- ===== src/Object/Array/Typed/ReadBack.antt =====
-- src/rpc_object.c: a plain value written to an array is read back with the getter of its type.
use librpc.Base.{none, false, Leaves, Bool, Bytes, some, ◌^◌, ok, arith, length, ℕ, ◌≡◌, ◌<◌}
use librpc.Base.Int.{pos, ℤ}
use librpc.Object.Types.{
  bool, int64, uint64, double, date, binary, fd, Object, array, Items, elements, items, string,
}
use librpc.Object.Value.{
  bool_get_value, int64_get_value, uint64_get_value, double_get_value, date_get_value,
  data_get_bytes_ptr, string_get_string_ptr, fd_get_value, c_string, string_create,
}
use librpc.Object.Array.{array_steal_value}
use librpc.Object.Array.Writes.{steal_value-Wrote}
use librpc.Object.Array.Typed.{
  array_fetch, array_set_bool, array_get_bool, array_set_int64, array_get_int64, array_set_uint64,
  array_get_uint64, array_set_double, array_get_double, array_set_date, array_get_date,
  array_set_data, array_get_data, array_set_string, array_get_string, array_set_fd, array_get_fd,
}

fetch_lem :
    (xs : Items) (i : ℕ)
    → i < 2 ^ 63
    → length (elements xs) < 2 ^ 32
    → {A : Type 0} (get : Object → A) (missing : A) (v : Object)
    → Leaves (array_steal_value (array xs) i v) (λ o. array_fetch get missing o i ≡ ok (get v))
unfolding array_fetch
fetch_lem xs i h l get missing v =
    let w = steal_value-Wrote xs i v h l in
    (array (items w.left), w.returns, ground (arith, w.count, w.reads i))

-- What each getter gives at the place that its setter wrote to.
abbrev pub ArrayReads : Items → ℕ → Type 0
ArrayReads xs i =
    ((x : Bool) → Leaves (array_set_bool (array xs) i x) (λ o. array_get_bool o i ≡ ok x))
    × ((x : ℤ) → Leaves (array_set_int64 (array xs) i x) (λ o. array_get_int64 o i ≡ ok x))
    × ((x : ℕ) → Leaves (array_set_uint64 (array xs) i x) (λ o. array_get_uint64 o i ≡ ok x))
    × ((x : ℕ) → Leaves (array_set_double (array xs) i x) (λ o. array_get_double o i ≡ ok x))
    × ((x : ℤ) → Leaves (array_set_date (array xs) i x) (λ o. array_get_date o i ≡ ok x))
    × ((x : Bytes) → Leaves (array_set_data (array xs) i x) (λ o. array_get_data o i ≡ ok (some x)))
    × ((x : Bytes)
        → Leaves (array_set_string (array xs) i (some x))
            (λ o. array_get_string o i ≡ ok (some (c_string x))))
    × ((x : ℤ) → Leaves (array_set_fd (array xs) i x) (λ o. array_get_fd o i ≡ ok x))

-- rpc_array_set_bool to rpc_array_set_fd, at an index below 2^63 of an array of fewer than 2^32
-- elements: the write is accepted, and the getter of the same type then gives the value at that
-- index; of a string, what comes before its first NUL.
pub array_set-get :
    (xs : Items) (i : ℕ) → i < 2 ^ 63 → length (elements xs) < 2 ^ 32 → ArrayReads xs i
unfolding array_set_bool array_get_bool array_set_int64 array_get_int64 array_set_uint64
    array_get_uint64 array_set_double array_get_double array_set_date array_get_date array_set_data
    array_get_data array_set_string array_get_string array_set_fd array_get_fd string_create
    bool_get_value int64_get_value uint64_get_value double_get_value date_get_value
    data_get_bytes_ptr string_get_string_ptr fd_get_value
array_set-get xs i h l = (
  (λ x. fetch_lem xs i h l bool_get_value false (bool x)),
  (λ x. fetch_lem xs i h l int64_get_value (pos 0) (int64 x)),
  (λ x. fetch_lem xs i h l uint64_get_value 0 (uint64 x)),
  (λ x. fetch_lem xs i h l double_get_value 0 (double x)),
  (λ x. fetch_lem xs i h l date_get_value (pos 0) (date x)),
  (λ x. fetch_lem xs i h l data_get_bytes_ptr none (binary x)),
  (λ x. fetch_lem xs i h l string_get_string_ptr none (string (c_string x))),
  (λ x. fetch_lem xs i h l fd_get_value (pos 0) (fd x)),
)
