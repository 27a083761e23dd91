-- ===== src/Connection/Descriptors.antt =====
-- src/rpc_connection.c: rpc_serialize_fds and rpc_restore_fds: the descriptors of a frame, which travel
-- beside its bytes. Inside a container each child starts at the container's own index.
pub mod Travel
use librpc.Base.Int.{negsuc, pos, ℤ}
use librpc.Object.Types.{end, nil, field, Fields, cons, Items, dictionary, array, shmem, fd, Object}
use librpc.Base.{◌++◌, [], ◌+◌, get_or, ◌∷◌, set, ℕ, List}

-- The array fds, with the number of its entries that are used so far.
pub record Slots : Type 0 where
  pub fds : List ℤ
  pub counter : ℕ

-- The object is changed in place: its descriptors become indexes.
unfoldable mutual
  pub serialize_fds : Object → List ℤ → ℕ → Object × Slots
  serialize_fds (fd x) fds idx = (fd (pos idx), record { fds = set fds idx x; counter = idx + 1 })
  serialize_fds (shmem x offset size) fds idx =
      (shmem (pos idx) offset size, record { fds = set fds idx x; counter = idx + 1 })
  serialize_fds (array items) fds idx =
      let r = serialize_items items fds idx idx in (array r.0, r.1)
  serialize_fds (dictionary entries) fds idx =
      let r = serialize_fields entries fds idx idx in (dictionary r.0, r.1)
  serialize_fds o fds idx = (o, record { fds = fds; counter = idx })

  -- `counter += rpc_serialize_fds(i, fds, nfds, idx)` for each element.
  pub serialize_items : Items → List ℤ → ℕ → ℕ → Items × Slots
  serialize_items nil fds idx counter = (nil, record { fds = fds; counter = counter })
  serialize_items (cons o rest) fds idx counter =
      let r = serialize_fds o fds idx in
      let s = serialize_items rest r.1.fds idx (counter + r.1.counter) in (cons r.0 s.0, s.1)

  pub serialize_fields : Fields → List ℤ → ℕ → ℕ → Fields × Slots
  serialize_fields end fds idx counter = (end, record { fds = fds; counter = counter })
  serialize_fields (field k o rest) fds idx counter =
      let r = serialize_fds o fds idx in
      let s = serialize_fields rest r.1.fds idx (counter + r.1.counter) in (field k r.0 s.0, s.1)

-- An index that is no index of the array gives whatever is there.
abbrev at_index : List ℤ → ℤ → ℤ
at_index fds (pos i) = get_or fds i (negsuc 0)
at_index fds (negsuc i) = negsuc 0

unfoldable mutual
  pub restore_fds : Object → List ℤ → Object
  restore_fds (fd x) fds = fd (at_index fds x)
  restore_fds (shmem x offset size) fds = shmem (at_index fds x) offset size
  restore_fds (array items) fds = array (restore_items items fds)
  restore_fds (dictionary entries) fds = dictionary (restore_fields entries fds)
  restore_fds o fds = o

  pub restore_items : Items → List ℤ → Items
  restore_items nil fds = nil
  restore_items (cons o rest) fds = cons (restore_fds o fds) (restore_items rest fds)

  pub restore_fields : Fields → List ℤ → Fields
  restore_fields end fds = end
  restore_fields (field k o rest) fds = field k (restore_fds o fds) (restore_fields rest fds)

-- The descriptors of an object, from first to last.
unfoldable mutual
  pub descriptors : Object → List ℤ
  descriptors (fd x) = x ∷ []
  descriptors (shmem x offset size) = x ∷ []
  descriptors (array items) = item_descriptors items
  descriptors (dictionary entries) = field_descriptors entries
  descriptors o = []

  pub item_descriptors : Items → List ℤ
  item_descriptors nil = []
  item_descriptors (cons o rest) = descriptors o ++ item_descriptors rest

  pub field_descriptors : Fields → List ℤ
  field_descriptors end = []
  field_descriptors (field k o rest) = descriptors o ++ field_descriptors rest
