-- ===== src/Connection/Descriptors/Travel.antt =====
-- src/rpc_connection.c: what becomes of the descriptors of an object that is sent and received.
use librpc.Connection.Descriptors.{
  field, serialize_fields, restore_fields, field_descriptors, Fields, cons, restore_items,
  serialize_items, item_descriptors, Items, dictionary, array, shmem, fd, restore_fds, descriptors,
  Slots, serialize_fds,
}
use librpc.Base.Int.{ℤ}
use librpc.Object.Types.{
  end, nil, null, field, Fields, cons, Items, dictionary, array, shmem, fd, Object,
}
use librpc.Base.{
  sym, length-append, ap₂, subst, zero, suc, ◌∙◌, arith, ap, refl, replicate, ◌+◌, length, [], ◌≡◌,
  ◌∷◌, ℕ, ◌++◌, List,
}

abbrev pub last_or {ℓ} : {A : Type ℓ} → A → List A → A
last_or a [] = a
last_or a (x ∷ xs) = last_or x xs

module _ {ℓ} {A : Type ℓ} where
  last_or-append : (a : A) (xs ys : List A) → last_or a (xs ++ ys) ≡ last_or (last_or a xs) ys
  last_or-append a [] ys = refl
  last_or-append a (x ∷ xs) ys = last_or-append x xs ys

  replicate-add :
      (m n : ℕ) (b : A) (k : ℕ) → k ≡ m + n → replicate m b ++ replicate n b ≡ replicate k b
  replicate-add zero n b k h = ap (λ (j : ℕ). replicate j b) {x = n} {y = k} (omega arith)
  replicate-add (suc m) n b zero h = absurd (omega arith)
  replicate-add (suc m) n b (suc k) h =
      ap (λ (l : List A). b ∷ l) (replicate-add m n b k (omega arith))

-- The slots after the object was walked: the first holds its last descriptor, and the count is right.
abbrev Walked : ℤ → List ℤ → ℕ → List ℤ → Slots → Type 0
Walked a rest k found s = (s.fds ≡ last_or a found ∷ rest) × (s.counter ≡ k + length found)

mutual
  unfolding serialize_fds descriptors

  walk :
      (o : Object) (a : ℤ) (rest : List ℤ)
      → Walked a rest 0 (descriptors o) (serialize_fds o (a ∷ rest) 0).1
  walk (fd x) a rest = (refl, refl)
  walk (shmem x offset size) a rest = (refl, refl)
  walk (array items) a rest = walk_items items a rest (a ∷ rest) 0 refl
  walk (dictionary entries) a rest = walk_fields entries a rest (a ∷ rest) 0 refl
  walk null a rest = (refl, refl)
  walk o a rest = (refl, refl)

  walk_items :
      (items : Items) (a : ℤ) (rest fds : List ℤ) (k : ℕ)
      → fds ≡ a ∷ rest
      → Walked a rest k (item_descriptors items) (serialize_items items fds 0 k).1
  walk_items nil a rest fds k e = (e, omega arith)
  walk_items (cons o more) a rest fds k e =
      let w =
        subst (λ l. Walked a rest 0 (descriptors o) (serialize_fds o l 0).1) (sym e)
          (walk o a rest) in
      let v =
        walk_items more (last_or a (descriptors o)) rest (serialize_fds o fds 0).1.fds
          (k + (serialize_fds o fds 0).1.counter) w.0 in
      (
        v.0
            ∙ ap (λ (x : ℤ). x ∷ rest)
                (sym (last_or-append a (descriptors o) (item_descriptors more))),
        omega (arith, v.1, w.1, length-append (descriptors o) (item_descriptors more)),
      )

  walk_fields :
      (entries : Fields) (a : ℤ) (rest fds : List ℤ) (k : ℕ)
      → fds ≡ a ∷ rest
      → Walked a rest k (field_descriptors entries) (serialize_fields entries fds 0 k).1
  walk_fields end a rest fds k e = (e, omega arith)
  walk_fields (field key o more) a rest fds k e =
      let w =
        subst (λ l. Walked a rest 0 (descriptors o) (serialize_fds o l 0).1) (sym e)
          (walk o a rest) in
      let v =
        walk_fields more (last_or a (descriptors o)) rest (serialize_fds o fds 0).1.fds
          (k + (serialize_fds o fds 0).1.counter) w.0 in
      (
        v.0
            ∙ ap (λ (x : ℤ). x ∷ rest)
                (sym (last_or-append a (descriptors o) (field_descriptors more))),
        omega (arith, v.1, w.1, length-append (descriptors o) (field_descriptors more)),
      )

mutual
  unfolding serialize_fds restore_fds descriptors

  received :
      (o : Object) (fds : List ℤ) (b : ℤ) (rest : List ℤ)
      → descriptors (restore_fds (serialize_fds o fds 0).0 (b ∷ rest))
        ≡ replicate (length (descriptors o)) b
  received (fd x) fds b rest = refl
  received (shmem x offset size) fds b rest = refl
  received (array items) fds b rest = received_items items fds 0 b rest
  received (dictionary entries) fds b rest = received_fields entries fds 0 b rest
  received null fds b rest = refl
  received o fds b rest = refl

  received_items :
      (items : Items) (fds : List ℤ) (k : ℕ) (b : ℤ) (rest : List ℤ)
      → item_descriptors (restore_items (serialize_items items fds 0 k).0 (b ∷ rest))
        ≡ replicate (length (item_descriptors items)) b
  received_items nil fds k b rest = refl
  received_items (cons o more) fds k b rest =
      ap₂ ◌++◌ (received o fds b rest) (
        received_items more (serialize_fds o fds 0).1.fds (k + (serialize_fds o fds 0).1.counter) b
          rest)
      ∙ replicate-add _ _ b _ (length-append (descriptors o) (item_descriptors more))

  received_fields :
      (entries : Fields) (fds : List ℤ) (k : ℕ) (b : ℤ) (rest : List ℤ)
      → field_descriptors (restore_fields (serialize_fields entries fds 0 k).0 (b ∷ rest))
        ≡ replicate (length (field_descriptors entries)) b
  received_fields end fds k b rest = refl
  received_fields (field key o more) fds k b rest =
      ap₂ ◌++◌ (received o fds b rest) (
        received_fields more (serialize_fds o fds 0).1.fds (k + (serialize_fds o fds 0).1.counter) b
          rest)
      ∙ replicate-add _ _ b _ (length-append (descriptors o) (field_descriptors more))

-- A frame that is sent, with room for a descriptor, and received with the descriptors that were sent,
-- counts its descriptors right, but has the last of them in place of every one.
pub restore_fds-serialize_fds :
    (o : Object) (a : ℤ) (rest : List ℤ)
    → ((serialize_fds o (a ∷ rest) 0).1.counter ≡ length (descriptors o))
      × (descriptors
            (restore_fds (serialize_fds o (a ∷ rest) 0).0 (serialize_fds o (a ∷ rest) 0).1.fds)
          ≡ replicate (length (descriptors o)) (last_or a (descriptors o)))
restore_fds-serialize_fds o a rest =
    let w = walk o a rest in
    (
      omega (arith, w.1),
      ap (λ (l : List ℤ). descriptors (restore_fds (serialize_fds o (a ∷ rest) 0).0 l)) w.0
          ∙ received o (a ∷ rest) (last_or a (descriptors o)) rest,
    )
