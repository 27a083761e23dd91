-- ===== src/Object/Equal/Reflexive.antt =====
-- src/rpc_object.c: rpc_equal comes to a result on all objects, and holds between an object and
-- itself or its copy.
use librpc.Base.{
  ℕ, suc, ◌+◌, ◌≡◌, refl, ap, ap₂, subst, ◌∙◌, true, false, Option, none, some, List, ◌∷◌, arith,
  Bytes, ok, length, get_elem?, bytes_eq_refl, bytes_eq_iff,
}
use librpc.Base.Int.{eqb_ℤ_refl}
use librpc.Object.Platform.{Platform}
use librpc.Object.Types.{
  Object, null, bool, uint64, int64, double, date, string, binary, fd, dictionary, array, shmem,
  error, Items, nil, cons, Fields, end, field, elements, entries,
}
use librpc.Object.Dictionary.{lookup, has_key, KeysDistinct, Entries}
use librpc.Object.Equal.{is_nan, double_eq, same_file, equal, equal_elements, equal_entries}

-- The object with the stack of every error replaced, if a stack is given.
unfoldable mutual
  pub restack : Option Object → Object → Object
  restack s (error code msg extra stack) =
      error code msg (restack s extra) (elim s [ none ↦ stack | some s' ↦ s' ])
  restack s (array xs) = array (restack_items s xs)
  restack s (dictionary fs) = dictionary (restack_fields s fs)
  restack s o = o

  pub restack_items : Option Object → Items → Items
  restack_items s nil = nil
  restack_items s (cons x xs) = cons (restack s x) (restack_items s xs)

  pub restack_fields : Option Object → Fields → Fields
  restack_fields s end = end
  restack_fields s (field k v fs) = field k (restack s v) (restack_fields s fs)

-- What rpc_equal finds equal to itself: no NaN, no descriptor that fstat() fails on, and dictionaries
-- whose keys differ.
abbrev mutual
  pub Comparable : Platform → Object → Type 0
  Comparable p (double d) = is_nan d ≡ false
  Comparable p (fd n) = (x : ℕ × ℕ) × (p.fstat n ≡ some x)
  Comparable p (shmem n off size) = (x : ℕ × ℕ) × (p.fstat n ≡ some x)
  Comparable p (error code msg extra stack) = Comparable p extra
  Comparable p (array xs) = ComparableItems p xs
  Comparable p (dictionary fs) = KeysDistinct (entries fs) × ComparableFields p fs
  Comparable p _ = Unit {0}

  pub ComparableItems : Platform → Items → Type 0
  ComparableItems p nil = Unit {0}
  ComparableItems p (cons x xs) = Comparable p x × ComparableItems p xs

  pub ComparableFields : Platform → Fields → Type 0
  ComparableFields p end = Unit {0}
  ComparableFields p (field k v fs) = Comparable p v × ComparableFields p fs

-- Every entry is found under its key.
abbrev Finds : Option Object → Fields → Entries → Type 0
Finds s end es = Unit {0}
Finds s (field k v fs) es = (lookup k es ≡ some (restack s v)) × Finds s fs es

Finds-cons :
    (s : Option Object) (fs : Fields) (es : Entries) (j : Bytes) (w : Object)
    → has_key j (entries fs) ≡ false
    → Finds s fs es
    → Finds s fs ((j, w) ∷ es)
unfolding lookup has_key
Finds-cons s end es j w h f = tt
Finds-cons s (field k v fs) es j w h f = (
  ground (arith, f.0, bytes_eq_iff k j, bytes_eq_iff j k, h),
  Finds-cons s fs es j w (ground (arith, h)) f.1,
)

Finds-restack :
    (s : Option Object) (fs : Fields)
    → KeysDistinct (entries fs)
    → Finds s fs (entries (restack_fields s fs))
unfolding restack lookup
Finds-restack s end d = tt
Finds-restack s (field k v fs) d = (
  (rw (bytes_eq_refl k)),
  Finds-cons s fs (entries (restack_fields s fs)) k (restack s v) d.0 (Finds-restack s fs d.1),
)

length-restack_items :
    (s : Option Object) (xs : Items) → length (elements (restack_items s xs)) ≡ length (elements xs)
unfolding restack
length-restack_items s nil = refl
length-restack_items s (cons x xs) = ap suc (length-restack_items s xs)

length-restack_fields :
    (s : Option Object) (fs : Fields) → length (entries (restack_fields s fs)) ≡ length (entries fs)
unfolding restack
length-restack_fields s end = refl
length-restack_fields s (field k v fs) = ap suc (length-restack_fields s fs)

module _ (p : Platform) (s : Option Object) where
  mutual
    unfolding equal restack double_eq same_file

    restack_lem : (o : Object) → Comparable p o → equal p o (restack s o) ≡ ok true
    restack_lem null h = refl
    restack_lem (bool true) h = refl
    restack_lem (bool false) h = refl
    restack_lem (uint64 n) h = ground arith
    restack_lem (int64 i) h = ap ok (eqb_ℤ_refl i)
    restack_lem (double d) h = ground (arith, h)
    restack_lem (date t) h = ap ok (eqb_ℤ_refl t)
    restack_lem (string b) h = ap ok (bytes_eq_refl b)
    restack_lem (binary b) h = ground (arith, bytes_eq_refl b)
    restack_lem (fd n) h = ground (arith, h.1)
    restack_lem (dictionary fs) h = ground (
      arith,
      length-restack_fields s fs,
      entries_lem fs (entries (restack_fields s fs)) (Finds-restack s fs h.0) h.1,
    )
    restack_lem (array xs) h = ground (
      arith,
      length-restack_items s xs,
      elements_lem xs 0 (elements (restack_items s xs))
          (λ n. ap (get_elem? _) {x = 0 + n} {y = n} (omega arith)) h,
    )
    restack_lem (shmem n off size) h = ground (arith, h.1)
    restack_lem (error code msg extra stack) h =
        ground (arith, eqb_ℤ_refl code, bytes_eq_refl msg, restack_lem extra h)

    elements_lem :
        (xs : Items) (i : ℕ) (ys : List Object)
        → ((n : ℕ) → get_elem? ys (i + n) ≡ get_elem? (elements (restack_items s xs)) n)
        → ComparableItems p xs
        → equal_elements p xs i ys ≡ ok true
    elements_lem nil i ys e h = refl
    elements_lem (cons x xs) i ys e h = ground (
      arith,
      ap (get_elem? ys) {x = i} {y = i + 0} (omega arith) ∙ e 0,
      restack_lem x h.0,
      elements_lem xs (suc i) ys
          (λ n. ap (get_elem? ys) {x = suc i + n} {y = i + suc n} (omega arith) ∙ e (suc n)) h.1,
    )

    entries_lem :
        (fs : Fields) (es : Entries)
        → Finds s fs es
        → ComparableFields p fs
        → equal_entries p fs es ≡ ok true
    entries_lem end es f h = refl
    entries_lem (field k v fs) es f h =
        ground (arith, f.0, restack_lem v h.0, entries_lem fs es f.1 h.1)

-- rpc_equal holds between an object and the same object with other error stacks.
pub equal-restack :
    (p : Platform) (s : Option Object) (o : Object)
    → Comparable p o
    → equal p o (restack s o) ≡ ok true
equal-restack p s o h = restack_lem p s o h

mutual
  unfolding restack

  restack-none : (o : Object) → restack none o ≡ o
  restack-none (error code msg extra stack) = ap (λ e. error code msg e stack) (restack-none extra)
  restack-none (array xs) = ap array (restack_items-none xs)
  restack-none (dictionary fs) = ap dictionary (restack_fields-none fs)
  restack-none o = refl

  restack_items-none : (xs : Items) → restack_items none xs ≡ xs
  restack_items-none nil = refl
  restack_items-none (cons x xs) = ap₂ cons (restack-none x) (restack_items-none xs)

  restack_fields-none : (fs : Fields) → restack_fields none fs ≡ fs
  restack_fields-none end = refl
  restack_fields-none (field k v fs) = ap₂ (field k) (restack-none v) (restack_fields-none fs)

-- rpc_equal holds between an object and itself, if its dictionaries have no key twice, no double
-- in it is a NaN, and fstat() answers on its descriptors.
pub equal_refl : (p : Platform) (o : Object) → Comparable p o → equal p o o ≡ ok true
equal_refl p o h = subst (λ o'. equal p o o' ≡ ok true) (restack-none o) (equal-restack p none o h)
