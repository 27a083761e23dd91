-- ===== src/Object/Copy/Faithful.antt =====
-- src/rpc_object.c: a copy is the object, but for the stacks of its errors, and equal to it.
use librpc.Base.{
  ◌≡◌, refl, ap, sym, ◌∙◌, false, Option, some, List, [], ◌∷◌, ◌++◌, arith, Bytes, bytes_eq,
  bytes_eq_iff,
}
use mathlib.Core.List.{append_assoc, append-nil}
use librpc.Object.Platform.{Platform}
use librpc.Object.Types.{
  Object, string, dictionary, array, error, Items, nil, cons, Fields, end, field, elements, entries,
  items, fields, items-elements, fields-entries,
}
use librpc.Object.Value.{c_string, string_create, error_create}
use librpc.Object.Dictionary.{Entries, insert, has_key, KeysDistinct}
use librpc.Object.Equal.Reflexive.{restack, restack_items, restack_fields}
use librpc.Object.Copy.{copy, copy_elements, copy_entries}

-- The strings hold no NUL, and the keys of a dictionary differ.
abbrev mutual
  pub Copyable : Object → Type 0
  Copyable (string s) = c_string s ≡ s
  Copyable (error code msg extra stack) = Copyable extra
  Copyable (array xs) = CopyableItems xs
  Copyable (dictionary fs) = KeysDistinct (entries fs) × CopyableFields fs
  Copyable _ = Unit {0}

  pub CopyableItems : Items → Type 0
  CopyableItems nil = Unit {0}
  CopyableItems (cons x xs) = Copyable x × CopyableItems xs

  pub CopyableFields : Fields → Type 0
  CopyableFields end = Unit {0}
  CopyableFields (field k v fs) = Copyable v × CopyableFields fs

-- No key of the first table is a key of the second.
abbrev pub Apart : Fields → Entries → Type 0
Apart end es = Unit {0}
Apart (field k v fs) es = (has_key k es ≡ false) × Apart fs es

pub insert_new :
    (k : Bytes) (v : Object) (es : Entries)
    → has_key k es ≡ false
    → insert k v es ≡ es ++ (k, v) ∷ []
unfolding insert has_key
insert_new k v [] h = refl
insert_new k v ((j, w) ∷ r) h = ground (arith, h, insert_new k v r)

has_key-snoc :
    (k j : Bytes) (v : Object) (es : Entries)
    → has_key j es ≡ false
    → bytes_eq k j ≡ false
    → has_key j (es ++ (k, v) ∷ []) ≡ false
unfolding has_key
has_key-snoc k j v [] h e = ground (arith, e)
has_key-snoc k j v ((i, w) ∷ r) h e = ground (arith, h, has_key-snoc k j v r)

pub Apart-snoc :
    (fs : Fields) (es : Entries) (k : Bytes) (v : Object)
    → has_key k (entries fs) ≡ false
    → Apart fs es
    → Apart fs (es ++ (k, v) ∷ [])
unfolding has_key
Apart-snoc end es k v h a = tt
Apart-snoc (field j w fs) es k v h a = (
  has_key-snoc k j v es a.0 (ground (arith, h, bytes_eq_iff j k, bytes_eq_iff k j)),
  Apart-snoc fs es k v (ground (arith, h)) a.1,
)

pub Apart-nil : (fs : Fields) → Apart fs []
unfolding has_key
Apart-nil end = tt
Apart-nil (field k v fs) = (refl, Apart-nil fs)

module _ (p : Platform) where
  abbrev here : Option Object
  here = some (string_create p.backtrace)

  mutual
    unfolding copy restack error_create

    copy_lem : (o : Object) → Copyable o → copy p o ≡ restack here o
    copy_lem (string s) h = ap string h
    copy_lem (error code msg extra stack) h =
        ap (λ e. error code msg e (string_create p.backtrace)) (copy_lem extra h)
    copy_lem (array xs) h =
        ap array (ap items (copy_elements_lem xs [] h) ∙ items-elements (restack_items here xs))
    copy_lem (dictionary fs) h = ap dictionary (
        ap fields (copy_entries_lem fs [] h.0 (Apart-nil fs) h.1)
        ∙ fields-entries (restack_fields here fs))
    copy_lem o h = refl

    copy_elements_lem :
        (xs : Items) (done : List Object)
        → CopyableItems xs
        → copy_elements p xs done ≡ done ++ elements (restack_items here xs)
    copy_elements_lem nil done h = sym (append-nil done)
    copy_elements_lem (cons x xs) done h =
        ap (λ v. copy_elements p xs (done ++ v ∷ [])) (copy_lem x h.0)
        ∙ copy_elements_lem xs (done ++ restack here x ∷ []) h.1
        ∙ append_assoc done (restack here x ∷ []) (elements (restack_items here xs))

    copy_entries_lem :
        (fs : Fields) (done : Entries)
        → KeysDistinct (entries fs)
        → Apart fs done
        → CopyableFields fs
        → copy_entries p fs done ≡ done ++ entries (restack_fields here fs)
    copy_entries_lem end done d a h = sym (append-nil done)
    copy_entries_lem (field k v fs) done d a h =
        ap (copy_entries p fs)
          (insert_new k (copy p v) done a.0 ∙ ap (λ w. done ++ (k, w) ∷ []) (copy_lem v h.0))
        ∙ copy_entries_lem fs (done ++ (k, restack here v) ∷ []) d.1
            (Apart-snoc fs done k (restack here v) d.0 a.1) h.1
        ∙ append_assoc done ((k, restack here v) ∷ []) (entries (restack_fields here fs))
