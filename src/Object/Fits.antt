-- ===== src/Object/Fits.antt =====
-- The arrays of the library have fewer than 2^32 elements: GPtrArray counts them by a guint.
use librpc.Base.{
  ℕ, zero, suc, ◌^◌, ◌<◌, ◌≡◌, some, length, get_elem?, Bytes, bytes_eq, some_inj, subst,
  Bool-cases, inl, inr,
}
use librpc.Object.Types.{
  Object, array, dictionary, Items, nil, cons, Fields, end, field, elements, entries,
}
use librpc.Object.Dictionary.{lookup}

abbrev mutual
  pub Fits : Object → Type 0
  Fits (array xs) = (length (elements xs) < 2 ^ 32) × FitsItems xs
  Fits (dictionary fs) = FitsFields fs
  Fits _ = Unit {0}

  pub FitsItems : Items → Type 0
  FitsItems nil = Unit {0}
  FitsItems (cons x xs) = Fits x × FitsItems xs

  pub FitsFields : Fields → Type 0
  FitsFields end = Unit {0}
  FitsFields (field k v fs) = Fits v × FitsFields fs

pub Fits-get_elem? :
    (xs : Items) (i : ℕ) {o : Object} → FitsItems xs → get_elem? (elements xs) i ≡ some o → Fits o
Fits-get_elem? nil i h e = cc
Fits-get_elem? (cons x xs) zero h e = subst Fits (some_inj e) h.0
Fits-get_elem? (cons x xs) (suc i) h e = Fits-get_elem? xs i h.1 e

pub Fits-lookup :
    (k : Bytes) (fs : Fields) {o : Object} → FitsFields fs → lookup k (entries fs) ≡ some o → Fits o
unfolding lookup
Fits-lookup k end h e = cc
Fits-lookup k (field j v fs) h e = elim (Bool-cases (bytes_eq j k)) [
  | inl hit ↦ subst Fits (some_inj (rw hit at e)) h.0
  | inr miss ↦ Fits-lookup k fs h.1 (rw miss at e)
]
