-- ===== src/Object/Equal/Total.antt =====
-- src/rpc_object.c: rpc_equal and rpc_array_contains return on any two objects.
use librpc.Base.{
  abort, ◌≤◌, sym, subst, ℕ, zero, suc, ◌+◌, ◌<◌, ◌≡◌, refl, ap, inl, inr, Bool, true, false,
  Option, none, some, List, [], ◌∷◌, arith, Outcome, ok, fault, ◌>>=◌, if◌then◌else◌, length,
  get_elem?, ◌==◌, bytes_eq, Bool-cases,
}
use librpc.Base.Int.{eqb_ℤ}
use librpc.Object.Platform.{Platform}
use librpc.Object.Types.{
  Object, null, bool, uint64, int64, double, date, string, binary, fd, dictionary, array, shmem,
  error, Items, nil, cons, Fields, end, field, elements, entries,
}
use librpc.Object.Dictionary.{lookup, Entries}
use librpc.Object.Equal.{equal, equal_elements, equal_entries}

abbrev pub Returns : Outcome Bool → Type 0
Returns r = (b : Bool) × (r ≡ ok b)

step_Returns :
    (r next : Outcome Bool)
    → Returns r
    → Returns next
    → Returns (r >>= λ same. if same then next else ok false)
step_Returns (ok true) next h k = k
step_Returns (ok false) next h k = (false, refl)
step_Returns (fault e) next h k = cc (h.1)

in_range : (ys : List Object) (i : ℕ) → i < length ys → (v : Object) × (get_elem? ys i ≡ some v)
in_range [] i h = elim h [ ]
in_range (y ∷ ys) zero h = (y, refl)
in_range (y ∷ ys) (suc i) h = in_range ys i (omega arith)

if_Returns : (b : Bool) (r : Outcome Bool) → Returns r → Returns (if b then r else ok false)
if_Returns true r h = h
if_Returns false r h = (false, refl)

-- One round of the appliers of rpc_equal.
applied_Returns :
    (found : Option Object) (test : Object → Outcome Bool) (next : Outcome Bool)
    → (v : Object) × (found ≡ some v)
    → ((v : Object) → Returns (test v))
    → Returns next
    → Returns (elim found [
      | none ↦ fault abort
      | some v ↦ test v >>= λ same. if same then next else ok false
    ])
applied_Returns none test next h k l = cc (h.1)
applied_Returns (some v) test next h k l = step_Returns (test v) next (k v) l

found_Returns :
    (found : Option Object) (test : Object → Outcome Bool) (next : Outcome Bool)
    → ((v : Object) → Returns (test v))
    → Returns next
    → Returns (elim found [
      | none ↦ ok false
      | some v ↦ test v >>= λ same. if same then next else ok false
    ])
found_Returns none test next k l = (false, refl)
found_Returns (some v) test next k l = step_Returns (test v) next (k v) l

module _ (p : Platform) where
  mutual
    unfolding equal

    equal_lem : (a b : Object) → Returns (equal p a b)
    equal_lem (dictionary a) (dictionary b) =
        if_Returns (length (entries a) == length (entries b)) (equal_entries p a (entries b))
          (equal_entries_lem a (entries b))
    equal_lem (array a) (array b) = elim (Bool-cases (length (elements a) == length (elements b))) [
      | inl e ↦
          subst Returns
            (ap (λ c. if c then equal_elements p a 0 (elements b) else ok false) (sym e))
            (equal_elements_lem a 0 (elements b) (ground (arith, e)))
      | inr e ↦ (false, ap (λ c. if c then equal_elements p a 0 (elements b) else ok false) e)
    ]
    equal_lem (error code msg extra stack) (error code' msg' extra' stack') =
        if_Returns (eqb_ℤ code code') _
          (if_Returns (bytes_eq msg msg') (equal p extra extra') (equal_lem extra extra'))
    equal_lem null null = (true, refl)
    equal_lem (bool a) (bool b) = (_, refl)
    equal_lem (uint64 a) (uint64 b) = (_, refl)
    equal_lem (int64 a) (int64 b) = (_, refl)
    equal_lem (double a) (double b) = (_, refl)
    equal_lem (date a) (date b) = (_, refl)
    equal_lem (string a) (string b) = (_, refl)
    equal_lem (binary a) (binary b) = (_, refl)
    equal_lem (fd a) (fd b) = (_, refl)
    equal_lem (shmem a x y) (shmem b x' y') = (_, refl)
    equal_lem a b = (false, refl)

    equal_elements_lem :
        (xs : Items) (i : ℕ) (ys : List Object)
        → i + length (elements xs) ≤ length ys
        → Returns (equal_elements p xs i ys)
    equal_elements_lem nil i ys h = (true, refl)
    equal_elements_lem (cons x xs) i ys h =
        applied_Returns (get_elem? ys i) (equal p x) (equal_elements p xs (suc i) ys)
          (in_range ys i (omega arith)) (equal_lem x)
          (equal_elements_lem xs (suc i) ys (omega arith))

    equal_entries_lem : (fs : Fields) (es : Entries) → Returns (equal_entries p fs es)
    equal_entries_lem end es = (true, refl)
    equal_entries_lem (field k v fs) es =
        found_Returns (lookup k es) (equal p v) (equal_entries p fs es) (equal_lem v)
          (equal_entries_lem fs es)

-- rpc_equal comes to a result on any two objects: no assertion in it fails.
pub equal-Returns : (p : Platform) (a b : Object) → Returns (equal p a b)
equal-Returns p a b = equal_lem p a b
