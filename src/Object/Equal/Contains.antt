-- ===== src/Object/Equal/Contains.antt =====
-- src/rpc_object.c: what rpc_array_contains finds.
use librpc.Base.{
  some_inj, subst, ℕ, zero, suc, ◌≡◌, refl, Bool, true, false, some, List, [], ◌∷◌, Outcome, ok,
  get_elem?,
}
use librpc.Object.Platform.{Platform}
use librpc.Object.Types.{Object, array, Items, elements}
use librpc.Object.Equal.{equal, equal_ptr, contains_loop, array_contains}
use librpc.Object.Equal.Total.{equal-Returns}

-- How a search for `v` ends: with an element that equals it, or with none of them equal.
pub data Searched (p : Platform) (vs : List Object) (v : Object) (r : Outcome Bool) : Type 0 where
  found :
      (i : ℕ) (w : Object)
      → get_elem? vs i ≡ some w
      → equal p w v ≡ ok true
      → r ≡ ok true
      → Searched p vs v r
  absent :
      ((i : ℕ) (w : Object) → get_elem? vs i ≡ some w → equal p w v ≡ ok false)
      → r ≡ ok false
      → Searched p vs v r

none_equal :
    (p : Platform) (x : Object) (vs : List Object) (v : Object)
    → equal p x v ≡ ok false
    → ((i : ℕ) (w : Object) → get_elem? vs i ≡ some w → equal p w v ≡ ok false)
    → (i : ℕ) (w : Object) → get_elem? (x ∷ vs) i ≡ some w
    → equal p w v ≡ ok false
none_equal p x vs v e f zero w g = subst (λ o. equal p o v ≡ ok false) (some_inj g) e
none_equal p x vs v e f (suc i) w g = f i w g

search_cons :
    (p : Platform) (x : Object) (vs : List Object) (v : Object) (b : Bool)
    → equal p x v ≡ ok b
    → Searched p vs v (contains_loop p vs (some v))
    → Searched p (x ∷ vs) v (contains_loop p (x ∷ vs) (some v))
unfolding contains_loop equal_ptr
search_cons p x vs v true e s = found 0 x refl e (rw e)
search_cons p x vs v false e (found i w g h r) = found (suc i) w g h (rw (e, r))
search_cons p x vs v false e (absent f r) = absent (none_equal p x vs v e f) (rw (e, r))

search_lem :
    (p : Platform) (vs : List Object) (v : Object) → Searched p vs v (contains_loop p vs (some v))
search_lem p [] v = absent (λ i w g. cc) (unfold contains_loop in refl)
search_lem p (x ∷ vs) v =
    let (b, e) = equal-Returns p x v in search_cons p x vs v b e (search_lem p vs v)

-- rpc_array_contains on an array comes to a result: true with an element that rpc_equal finds equal to
-- the value, false where it finds each of them different.
pub array_contains-Searched :
    (p : Platform) (xs : Items) (v : Object)
    → Searched p (elements xs) v (array_contains p (array xs) (some v))
unfolding array_contains
array_contains-Searched p xs v = search_lem p (elements xs) v
