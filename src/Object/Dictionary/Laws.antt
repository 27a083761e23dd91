-- ===== src/Object/Dictionary/Laws.antt =====
-- src/rpc_object.c: what the writes to a dictionary leave at each key.
use librpc.Base.{
  inl, inr, Option-cases, ◌+◌, ◌≡◌, refl, true, false, none, some, [], ◌∷◌, ok, arith,
  if◌then◌else◌, length, Bytes, bytes_eq, bytes_eq_iff,
}
use librpc.Object.Types.{Object, dictionary, Fields, entries, fields, entries-fields}
use librpc.Object.Dictionary.{
  Entries, lookup, insert, remove, has_key, KeysDistinct, dictionary_get_value,
  dictionary_steal_value, dictionary_detach_key,
}

pub lookup-insert :
    (k j : Bytes) (v : Object) (es : Entries)
    → lookup j (insert k v es) ≡ (if bytes_eq k j then some v else lookup j es)
unfolding lookup insert
lookup-insert k j v [] = refl
lookup-insert k j v ((i, w) ∷ r) =
    ground (arith, bytes_eq_iff k j, bytes_eq_iff i k, bytes_eq_iff i j, lookup-insert k j v r)

pub has_key-insert :
    (k j : Bytes) (v : Object) (es : Entries)
    → has_key j (insert k v es) ≡ (if bytes_eq k j then true else has_key j es)
unfolding has_key insert
has_key-insert k j v [] = refl
has_key-insert k j v ((i, w) ∷ r) =
    ground (arith, bytes_eq_iff k j, bytes_eq_iff i k, bytes_eq_iff i j, has_key-insert k j v r)

pub has_key-remove :
    (k j : Bytes) (es : Entries) → has_key j es ≡ false → has_key j (remove k es) ≡ false
unfolding has_key remove
has_key-remove k j [] h = refl
has_key-remove k j ((i, w) ∷ r) h = ground (arith, has_key-remove k j r)

pub insert-KeysDistinct :
    (k : Bytes) (v : Object) (es : Entries) → KeysDistinct es → KeysDistinct (insert k v es)
unfolding insert has_key
insert-KeysDistinct k v [] d = (refl, tt)
insert-KeysDistinct k v ((i, w) ∷ r) d = ground (
  arith,
  insert-KeysDistinct k v r d.1,
  has_key-insert k i v r,
  bytes_eq_iff i k,
  bytes_eq_iff k i,
)

pub remove-KeysDistinct : (k : Bytes) (es : Entries) → KeysDistinct es → KeysDistinct (remove k es)
unfolding remove
remove-KeysDistinct k [] d = tt
remove-KeysDistinct k ((i, w) ∷ r) d =
    ground (arith, remove-KeysDistinct k r d.1, has_key-remove k i r d.0)

lookup-none : (k : Bytes) (es : Entries) → has_key k es ≡ false → lookup k es ≡ none
unfolding has_key lookup
lookup-none k [] h = refl
lookup-none k ((i, w) ∷ r) h = ground (arith, lookup-none k r)

pub lookup-remove :
    (k j : Bytes) (es : Entries)
    → KeysDistinct es
    → lookup j (remove k es) ≡ (if bytes_eq k j then none else lookup j es)
unfolding lookup remove
lookup-remove k j [] d = ground arith
lookup-remove k j ((i, w) ∷ r) d = ground (
  arith,
  bytes_eq_iff k j,
  bytes_eq_iff i k,
  bytes_eq_iff i j,
  lookup-remove k j r d.1,
  lookup-none k r,
  d.0,
)

length-insert :
    (k : Bytes) (v : Object) (es : Entries)
    → length (insert k v es) ≡ (if has_key k es then length es else length es + 1)
unfolding insert has_key
length-insert k v [] = omega arith
length-insert k v ((i, w) ∷ r) = ground (arith, length-insert k v r)

length-remove :
    (k : Bytes) (es : Entries) → length (remove k es) + (if has_key k es then 1 else 0) ≡ length es
unfolding remove has_key
length-remove k [] = omega arith
length-remove k ((i, w) ∷ r) = ground (arith, length-remove k r)

-- The dictionaries of the library: their keys differ.
abbrev pub IsTable : Object → Type 0
IsTable (dictionary fs) = KeysDistinct (entries fs)
IsTable _ = ⊥

-- On a dictionary that has no key twice, rpc_dictionary_steal_value leaves one that has the value
-- at the key and at every other key what it had, and has no key twice.
pub steal_value-reads :
    (fs : Fields) (k : Bytes) (v : Object)
    → IsTable (dictionary fs)
    → (d : Object) × (dictionary_steal_value (dictionary fs) k v ≡ ok d)
      × IsTable d
      × ((j : Bytes)
          → dictionary_get_value d j
            ≡ (if bytes_eq k j then some v else dictionary_get_value (dictionary fs) j))
unfolding dictionary_steal_value dictionary_get_value
steal_value-reads fs k v t = (
  dictionary (fields (insert k v (entries fs))),
  refl,
  (rw entries-fields (insert-KeysDistinct k v (entries fs) t)),
  λ j. rw entries-fields (lookup-insert k j v (entries fs)),
)

-- On a dictionary that has no key twice, rpc_dictionary_detach_key gives the value that the key
-- had, or NULL, and leaves a dictionary without the key, with what it had at every other key, and
-- no key twice.
pub detach_key-reads :
    (fs : Fields) (k : Bytes)
    → IsTable (dictionary fs)
    → (d : Object) × (dictionary_detach_key (dictionary fs) k
        ≡ ok (dictionary_get_value (dictionary fs) k, d))
      × IsTable d
      × ((j : Bytes)
          → dictionary_get_value d j
            ≡ (if bytes_eq k j then none else dictionary_get_value (dictionary fs) j))
unfolding dictionary_detach_key dictionary_get_value
detach_key-reads fs k t = elim (Option-cases (lookup k (entries fs))) [
  | inl gone ↦ (dictionary fs, ground (arith, gone), t, λ j. ground (arith, gone, bytes_eq_iff k j))
  | inr (v, found) ↦ (
    dictionary (fields (remove k (entries fs))),
    ground (arith, found),
    (rw entries-fields (remove-KeysDistinct k (entries fs) t)),
    λ j. rw entries-fields (lookup-remove k j (entries fs) t),
  )
]

pub insert_same :
    (k : Bytes) {v : Object} (es : Entries) → lookup k es ≡ some v → insert k v es ≡ es
unfolding insert lookup
insert_same k [] e = cc
insert_same k {v} ((j, w) ∷ r) e = ground (arith, e, insert_same k {v = v} r)
