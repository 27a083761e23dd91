-- ===== src/Object/Dictionary/Typed/ReadBack.antt =====
-- src/rpc_object.c: a plain value written to a dictionary is read back with the getter of its type.
use librpc.Base.{none, Leaves, Bool, Bytes, some, arith, false, bytes_eq_refl, ℕ, ◌≡◌}
use librpc.Base.Int.{pos, negsuc, ℤ}
use librpc.Object.Types.{
  bool, int64, uint64, double, date, binary, fd, Object, dictionary, Fields, string,
}
use librpc.Object.Value.{
  bool_get_value, int64_get_value, uint64_get_value, double_get_value, date_get_value,
  data_get_bytes_ptr, string_get_string_ptr, fd_get_value, c_string, string_create,
}
use librpc.Object.Dictionary.{dictionary_steal_value}
use librpc.Object.Dictionary.Laws.{IsTable, steal_value-reads}
use librpc.Object.Dictionary.Typed.{
  dictionary_fetch, dictionary_set_bool, dictionary_get_bool, dictionary_set_int64,
  dictionary_get_int64, dictionary_set_uint64, dictionary_get_uint64, dictionary_set_double,
  dictionary_get_double, dictionary_set_date, dictionary_get_date, dictionary_set_data,
  dictionary_get_data, dictionary_set_string, dictionary_get_string, dictionary_set_fd,
  dictionary_get_fd,
}

fetch_lem :
    (fs : Fields) (k : Bytes)
    → IsTable (dictionary fs)
    → {A : Type 0} (get : Object → A) (missing : A) (v : Object)
    → Leaves
        (dictionary_steal_value (dictionary fs) k v)
        (λ o. dictionary_fetch get missing o k ≡ get v)
unfolding dictionary_fetch
fetch_lem fs k t get missing v =
    let w = steal_value-reads fs k v t in (w.0, w.1, ground (arith, w.3 k, bytes_eq_refl k))

-- What each getter gives at the place that its setter wrote to.
abbrev pub DictionaryReads : Fields → Bytes → Type 0
DictionaryReads fs k =
    ((x : Bool)
      → Leaves (dictionary_set_bool (dictionary fs) k x) (λ o. dictionary_get_bool o k ≡ x))
    × ((x : ℤ)
        → Leaves (dictionary_set_int64 (dictionary fs) k x) (λ o. dictionary_get_int64 o k ≡ x))
    × ((x : ℕ)
        → Leaves (dictionary_set_uint64 (dictionary fs) k x) (λ o. dictionary_get_uint64 o k ≡ x))
    × ((x : ℕ)
        → Leaves (dictionary_set_double (dictionary fs) k x) (λ o. dictionary_get_double o k ≡ x))
    × ((x : ℤ)
        → Leaves (dictionary_set_date (dictionary fs) k x) (λ o. dictionary_get_date o k ≡ x))
    × ((x : Bytes)
        → Leaves (dictionary_set_data (dictionary fs) k x)
            (λ o. dictionary_get_data o k ≡ (some x)))
    × ((x : Bytes)
        → Leaves (dictionary_set_string (dictionary fs) k (some x))
            (λ o. dictionary_get_string o k ≡ (some (c_string x))))
    × ((x : ℤ) → Leaves (dictionary_set_fd (dictionary fs) k x) (λ o. dictionary_get_fd o k ≡ x))

-- rpc_dictionary_set_bool to rpc_dictionary_set_fd, on a dictionary that has no key twice: the
-- write is accepted, and the getter of the same type then gives the value at that key; of a
-- string, what comes before its first NUL.
dictionary_set-get : (fs : Fields) (k : Bytes) → IsTable (dictionary fs) → DictionaryReads fs k
unfolding dictionary_set_bool dictionary_get_bool dictionary_set_int64 dictionary_get_int64
    dictionary_set_uint64 dictionary_get_uint64 dictionary_set_double dictionary_get_double
    dictionary_set_date dictionary_get_date dictionary_set_data dictionary_get_data
    dictionary_set_string dictionary_get_string dictionary_set_fd dictionary_get_fd string_create
    bool_get_value int64_get_value uint64_get_value double_get_value date_get_value
    data_get_bytes_ptr string_get_string_ptr fd_get_value
dictionary_set-get fs k t = (
  (λ x. fetch_lem fs k t bool_get_value false (bool x)),
  (λ x. fetch_lem fs k t int64_get_value (pos 0) (int64 x)),
  (λ x. fetch_lem fs k t uint64_get_value 0 (uint64 x)),
  (λ x. fetch_lem fs k t double_get_value 0 (double x)),
  (λ x. fetch_lem fs k t date_get_value (pos 0) (date x)),
  (λ x. fetch_lem fs k t data_get_bytes_ptr none (binary x)),
  (λ x. fetch_lem fs k t string_get_string_ptr none (string (c_string x))),
  (λ x. fetch_lem fs k t fd_get_value (negsuc 0) (fd x)),
)
