-- ===== src/Object/Build/Contents.antt =====
-- src/rpc_object.c: what a container holds that is made of a list of values.
use librpc.Base.{
  Leaves, sym, bytes_eq, ◌≡◌, refl, ap, ◌∙◌, Option, none, some, List, [], ◌∷◌, ◌++◌, Bytes, ok,
  if◌then◌else◌,
}
use mathlib.Core.List.{append_assoc, append-nil}
use librpc.Object.Types.{entries-fields, elements-items, Object, array, dictionary, items, fields}
use librpc.Object.Array.{array_create, array_append_stolen_value}
use librpc.Object.Dictionary.{
  dictionary_create, KeysDistinct, Entries, lookup, insert, dictionary_get_value,
  dictionary_steal_value,
}
use librpc.Object.Dictionary.Laws.{IsTable, lookup-insert, insert-KeysDistinct}
use librpc.Object.Build.{
  dictionary_create, append_loop, array_create_ex, steal_loop, dictionary_create_ex,
}

-- The value of the last pair with the key, or `found` if no pair has it.
unfoldable last_value : Bytes → Entries → Option Object → Option Object
last_value j [] found = found
last_value j ((k, v) ∷ es) found = last_value j es (if bytes_eq k j then some v else found)

append_lem :
    (done : List Object) (vs : List Object)
    → append_loop (array (items done)) vs ≡ ok (array (items (done ++ vs)))
unfolding append_loop array_append_stolen_value
append_lem done [] = ap (λ (xs : List Object). ok (array (items xs))) (sym (append-nil done))
append_lem done (v ∷ vs) = rw elements-items (
    append_lem (done ++ v ∷ []) vs
    ∙ ap (λ (xs : List Object). ok (array (items xs))) (append_assoc done (v ∷ []) vs))

steal_lem :
    (es : Entries) (pairs : Entries)
    → KeysDistinct es
    → Leaves (steal_loop (dictionary (fields es)) pairs) (λ d.
      IsTable d × ((j : Bytes) → dictionary_get_value d j ≡ last_value j pairs (lookup j es)))
unfolding steal_loop dictionary_steal_value dictionary_get_value last_value
steal_lem es [] t =
    (dictionary (fields es), refl, ((rw entries-fields t), λ j. rw entries-fields refl))
steal_lem es ((k, v) ∷ pairs) t =
    let (d, q, kept) = steal_lem (insert k v es) pairs (insert-KeysDistinct k v es t) in
    (
      d,
      rw entries-fields q,
      (kept.0, λ j. kept.1 j ∙ ap (last_value j pairs) (lookup-insert k j v es)),
    )

-- rpc_array_create_ex makes the array of the values, in their order.
array_create_ex-eq : (objects : List Object) → array_create_ex objects ≡ ok (array (items objects))
unfolding array_create_ex array_create
array_create_ex-eq objects = append_lem [] objects

-- rpc_dictionary_create_ex makes a dictionary that has no key twice, with the last value that the list
-- has for each key.
dictionary_create_ex-reads :
    (pairs : Entries)
    → Leaves
        (dictionary_create_ex pairs)
        (λ d. IsTable d × ((j : Bytes) → dictionary_get_value d j ≡ last_value j pairs none))
unfolding dictionary_create_ex dictionary_create lookup
dictionary_create_ex-reads pairs = steal_lem [] pairs tt
