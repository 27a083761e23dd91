-- ===== src/Object/Equal.antt =====
-- src/rpc_object.c: rpc_equal and rpc_array_contains.
pub mod Reflexive
pub mod Total
pub mod Contains
use librpc.Base.{
  ℕ, suc, ◌*◌, ◌%◌, ◌^◌, Bool, true, false, ◌&&◌, ◌||◌, Option, none, some, List, [], ◌∷◌, Outcome,
  ok, fault, abort, ◌>>=◌, ◌==◌, ltb, if◌then◌else◌, length, get_elem?, Bytes, bytes_eq,
}
use librpc.Base.Int.{eqb_ℤ}
use librpc.Object.Platform.{Platform}
use librpc.Object.Types.{
  Object, null, bool, uint64, int64, double, date, string, binary, fd, dictionary, array, shmem,
  error, Items, nil, cons, Fields, end, field, elements, entries,
}
use librpc.Object.Dictionary.{lookup}

abbrev pub bool_eq : Bool → Bool → Bool
bool_eq true true = true
bool_eq false false = true
bool_eq _ _ = false

-- The `==` of C on two doubles: a NaN equals nothing, and the zeros of both signs are equal.
unfoldable pub is_nan : ℕ → Bool
is_nan d = ltb (2047 * 2 ^ 52) (d % 2 ^ 63)

unfoldable pub double_eq : ℕ → ℕ → Bool
unfolding is_nan
double_eq a b =
    if is_nan a || is_nan b then false else (a == b) || ((a % 2 ^ 63 == 0) && (b % 2 ^ 63 == 0))

-- Both descriptors stand for one file.
unfoldable pub same_file : Option (ℕ × ℕ) → Option (ℕ × ℕ) → Bool
same_file (some (dev, ino)) (some (dev', ino')) = (dev == dev') && (ino == ino')
same_file _ _ = false

module _ (p : Platform) where
  unfoldable mutual
    pub equal : Object → Object → Outcome Bool
    equal null null = ok true
    equal (bool a) (bool b) = ok (bool_eq a b)
    equal (uint64 a) (uint64 b) = ok (a == b)
    equal (int64 a) (int64 b) = ok (eqb_ℤ a b)
    equal (double a) (double b) = ok (double_eq a b)
    equal (date a) (date b) = ok (eqb_ℤ a b)
    equal (string a) (string b) = ok (bytes_eq a b)
    equal (binary a) (binary b) = ok ((length a == length b) && bytes_eq a b)
    equal (fd a) (fd b) = ok (same_file (p.fstat a) (p.fstat b))
    equal (dictionary a) (dictionary b) =
        if length (entries a) == length (entries b) then equal_entries a (entries b) else ok false
    equal (array a) (array b) =
        if length (elements a) == length (elements b)
        then equal_elements a 0 (elements b)
        else ok false
    equal (shmem a _ _) (shmem b _ _) = ok (same_file (p.fstat a) (p.fstat b))
    equal (error code msg extra stack) (error code' msg' extra' stack') =
        if eqb_ℤ code code'
        then (if bytes_eq msg msg' then equal extra extra' else ok false)
        else ok false
    equal _ _ = ok false

    -- The applier of the array case, from the index `i` on; a missing element fails the assertion
    -- that rpc_equal begins with.
    pub equal_elements : Items → ℕ → List Object → Outcome Bool
    equal_elements nil i ys = ok true
    equal_elements (cons v xs) i ys =
        let next = equal_elements xs (suc i) ys in
        elim (get_elem? ys i) [
          | none ↦ fault abort
          | some v' ↦ equal v v' >>= λ same. if same then next else ok false
        ]

    -- The applier of the dictionary case.
    pub equal_entries : Fields → List (Bytes × Object) → Outcome Bool
    equal_entries end es = ok true
    equal_entries (field k v fs) es =
        let next = equal_entries fs es in
        elim (lookup k es) [
          | none ↦ ok false
          | some v' ↦ equal v v' >>= λ same. if same then next else ok false
        ]

  -- rpc_equal on pointers that may be NULL.
  unfoldable pub equal_ptr : Option Object → Option Object → Outcome Bool
  equal_ptr (some a) (some b) = equal a b
  equal_ptr _ _ = fault abort

  unfoldable pub contains_loop : List Object → Option Object → Outcome Bool
  unfolding equal_ptr
  contains_loop [] value = ok false
  contains_loop (v ∷ vs) value =
      let rest = contains_loop vs value in
      equal_ptr (some v) value >>= λ same. if same then ok true else rest

  unfoldable pub array_contains : Object → Option Object → Outcome Bool
  unfolding contains_loop
  array_contains (array xs) value = contains_loop (elements xs) value
  array_contains _ value = ok false
