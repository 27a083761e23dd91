-- ===== src/Object/Array/Parts.antt =====
-- src/rpc_object.c: removal from an array, and its slices.
use librpc.Base.{
  ℕ, zero, suc, ◌+◌, ◌-◌, ◌<◌, ◌≡◌, refl, ap, ◌∙◌, List, [], ◌∷◌, ok, arith, ltb, if◌then◌else◌,
  length, get_elem?, take, drop, min, drop-nil, take_eq, take_all, length-drop,
}
use native.Mathlib.Nat.{mod-eq_of_lt}
use librpc.Base.Int.{ℤ, pos, negsuc}
use librpc.Object.Types.{Object, array, Items, elements, items, elements-items}
use librpc.Object.Array.{
  array_get_value, array_get_count, array_remove_index, remove_at, slice_loop, slice_end,
  array_slice, size_mod,
}

get_elem?-remove_at :
    (xs : List Object) (i j : ℕ)
    → get_elem? (remove_at xs i) j ≡ (if ltb j i then get_elem? xs j else get_elem? xs (suc j))
unfolding remove_at
get_elem?-remove_at [] i j = ground arith
get_elem?-remove_at (x ∷ xs) zero j = ground arith
get_elem?-remove_at (x ∷ xs) (suc i) zero = ground arith
get_elem?-remove_at (x ∷ xs) (suc i) (suc j) = get_elem?-remove_at xs i j ∙ ground arith

length-remove_at :
    (xs : List Object) (i : ℕ) → i < length xs → length (remove_at xs i) + 1 ≡ length xs
unfolding remove_at
length-remove_at [] i h = elim h [ ]
length-remove_at (x ∷ xs) zero h = omega arith
length-remove_at (x ∷ xs) (suc i) h = omega (arith, length-remove_at xs i (omega arith))

-- rpc_array_remove_index of an index in range: the array is one shorter, and what stood behind the
-- index moves to the front by one.
pub remove_index_moves :
    (xs : Items) (i : ℕ)
    → i < length (elements xs)
    → (a : Object) × (array_remove_index (array xs) i ≡ ok a)
      × (array_get_count a + 1 ≡ length (elements xs))
      × ((j : ℕ)
          → array_get_value a j ≡ (
              if ltb j i then array_get_value (array xs) j else array_get_value (array xs) (suc j)))
unfolding array_remove_index array_get_value array_get_count
remove_index_moves xs i h = (
  array (items (remove_at (elements xs) i)),
  ground arith,
  (rw elements-items (length-remove_at (elements xs) i h)),
  λ j. rw elements-items (get_elem?-remove_at (elements xs) i j),
)

-- An element in front is out of the loop's reach.
slice_loop-cons :
    (x : Object) (xs : List Object) (i n : ℕ) → slice_loop (x ∷ xs) (suc i) n ≡ slice_loop xs i n
unfolding slice_loop
slice_loop-cons x xs i zero = refl
slice_loop-cons x xs i (suc n) = ground (arith, slice_loop-cons x xs (suc i) n)

slice_loop-eq : (xs : List Object) (i n : ℕ) → slice_loop xs i n ≡ take n (drop i xs)
unfolding slice_loop
slice_loop-eq [] i zero = refl
slice_loop-eq [] i (suc n) = rw (drop-nil {A = Object} i)
slice_loop-eq (x ∷ xs) zero zero = refl
slice_loop-eq (x ∷ xs) zero (suc n) =
    ap (λ r. x ∷ r) (slice_loop-cons x xs 0 n ∙ slice_loop-eq xs 0 n)
slice_loop-eq (x ∷ xs) (suc i) n = slice_loop-cons x xs i n ∙ slice_loop-eq xs i n

-- The elements from the index on: `len` of them, fewer where the array ends first, or all for -1.
abbrev pub slice_of : List Object → ℕ → ℤ → List Object
slice_of xs index (pos len) = take len (drop index xs)
slice_of xs index (negsuc n) = drop index xs

take-min :
    (xs : List Object) (i n : ℕ)
    → take (min (length xs) (i + n) - i) (drop i xs) ≡ take n (drop i xs)
take-min xs i n =
    take_eq (min (length xs) (i + n) - i) n (drop i xs) (omega (arith, length-drop i xs))

-- rpc_array_slice with a length such that index and length add up to less than 2^64 gives that
-- many elements from the index on, fewer where the array ends first; with the length -1 it gives
-- all of them.
pub slice_eq :
    (xs : Items) (index len : ℕ)
    → index + len < size_mod
    → (array_slice (array xs) index (pos len)
        ≡ ok (array (items (slice_of (elements xs) index (pos len)))))
      × (array_slice (array xs) index (negsuc 0)
          ≡ ok (array (items (slice_of (elements xs) index (negsuc 0)))))
unfolding array_slice slice_end
slice_eq xs index len h = (
  (rw (slice_loop-eq, mod-eq_of_lt h)
      (ap (λ r. ok (array (items r))) (take-min (elements xs) index len))),
  (rw slice_loop-eq (
      ap (λ r. ok (array (items r)))
        (take_all (length (elements xs) - index) (drop index (elements xs))
          (omega (arith, length-drop index (elements xs)))))),
)
