-- ===== src/Object/Array.antt =====
-- src/rpc_object.c: the array operations. A write returns the array that it leaves; `none` stands
-- for a NULL pointer.
pub mod Typed
pub mod Writes
pub mod Parts
use librpc.Base.{
  ℕ, zero, suc, ◌+◌, ◌-◌, ◌%◌, ◌^◌, Option, none, some, List, [], ◌∷◌, ◌++◌, Outcome, ok, fault,
  abort, bad_access, ◌>>=◌, ltb, leb, ◌==◌, ◌||◌, if◌then◌else◌, length, get_elem?, set, replicate,
  min,
}
use librpc.Base.Int.{ℤ, pos, negsuc}
use librpc.Object.Types.{Object, null, array, nil, elements, items}

abbrev pub size_mod : ℕ
size_mod = 2 ^ 64

-- (size_t)-1
abbrev pub size_max : ℕ
size_max = 2 ^ 64 - 1

-- The list of an array; the writing API aborts on any other object.
unfoldable pub array_list : Object → Outcome (List Object)
array_list (array xs) = ok (elements xs)
array_list _ = fault abort

unfoldable pub array_create : Object
array_create = array nil

unfoldable pub array_get_count : Object → ℕ
array_get_count (array xs) = length (elements xs)
array_get_count _ = 0

unfoldable pub array_get_value : Object → ℕ → Option Object
array_get_value (array xs) i = get_elem? (elements xs) i
array_get_value _ i = none

unfoldable pub array_append_stolen_value : Object → Object → Outcome Object
unfolding array_list
array_append_stolen_value a v = array_list a >>= λ xs. ok (array (items (xs ++ v ∷ [])))

-- The rounds of `for (i = (index - len); i > 0; i--)`: the difference is a size_t, and `i` is an
-- int64_t.
unfoldable pub null_rounds : ℕ → ℕ → ℕ
null_rounds index len =
    let gap = (index + size_mod - len) % size_mod in if ltb gap (2 ^ 63) then gap else 0

-- A write behind the end of the list is out of bounds.
unfoldable pub store_at : List Object → ℕ → Object → Outcome Object
store_at xs index v =
    if (index == size_max) || (index == length xs)
    then ok (array (items (xs ++ v ∷ [])))
    else if ltb index (length xs)
    then ok (array (items (set xs index v)))
    else fault bad_access

unfoldable pub array_steal_value : Object → ℕ → Object → Outcome Object
unfolding array_list null_rounds store_at
array_steal_value a index v =
    array_list a >>= λ xs. store_at (xs ++ replicate (null_rounds index (length xs)) null) index v

unfoldable pub remove_at : List Object → ℕ → List Object
remove_at [] i = []
remove_at (x ∷ xs) zero = xs
remove_at (x ∷ xs) (suc i) = x ∷ remove_at xs i

-- An index past the end is ignored.
unfoldable pub array_remove_index : Object → ℕ → Outcome Object
unfolding array_list remove_at
array_remove_index a index = array_list a >>= λ xs.
    if leb (length xs) index then ok a else ok (array (items (remove_at xs index)))

unfoldable pub array_set_value : Object → ℕ → Option Object → Outcome Object
unfolding array_remove_index array_steal_value
array_set_value a index none = array_remove_index a index
array_set_value a index (some v) = array_steal_value a index v

unfoldable pub array_remove_all : Object → Outcome Object
unfolding array_list
array_remove_all a = array_list a >>= λ xs. ok (array nil)

-- The loop of rpc_array_slice over the indices `i`, `i + 1`, ... that are below the end.
unfoldable pub slice_loop : List Object → ℕ → ℕ → List Object
slice_loop xs i zero = []
slice_loop xs i (suc rounds) = elim (get_elem? xs i) [
  | none ↦ []
  | some v ↦ v ∷ slice_loop xs (suc i) rounds
]

-- The length is an ssize_t; -1 takes all that follow the index.
unfoldable pub slice_end : ℕ → ℕ → ℤ → ℕ
slice_end count index (pos len) = min count ((index + len) % size_mod)
slice_end count index (negsuc zero) = count
slice_end count index (negsuc (suc n)) = min count ((index + size_mod - suc (suc n)) % size_mod)

unfoldable pub array_slice : Object → ℕ → ℤ → Outcome Object
unfolding slice_loop slice_end
array_slice (array xs) index len =
    let stop = slice_end (length (elements xs)) index len in
    ok (array (items (slice_loop (elements xs) index (stop - index))))
array_slice _ index len = fault bad_access
