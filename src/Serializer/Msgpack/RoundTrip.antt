-- ===== src/Serializer/Msgpack/RoundTrip.antt =====
-- src/serializer/msgpack.c: what rpc_msgpack_serialize writes, rpc_msgpack_deserialize reads.
pub mod Numbers
pub mod Denoted
use librpc.Object.Content.{SameContent-eq, SameContent}
use mathlib.Core.List.{append_assoc, append-nil}
use librpc.Object.Dictionary.{KeysDistinct, Entries}
use librpc.Object.Copy.Faithful.{Apart-snoc, insert_new, Apart, Apart-nil}
use librpc.Serializer.Msgpack.RoundTrip.Numbers.{
  wide_int64, to_int32-to_uint32, read_int32, read_int64,
}
use librpc.Object.Value.{c_string_lem, has_nul}
use librpc.Base.Int.{negsuc, to_int64-to_uint64, pos, InInt64, is_int32, ℤ}
use librpc.Object.Types.{
  null, elements-items, elements, items, entries-fields, fields, entries, items-elements,
  fields-entries, fd, binary, end, string, nil, double, field, Fields, date, cons, uint64, Items,
  int64, array, dictionary, bool, shmem, error, Object,
}
use librpc.Base.{
  ◌-◌, ◌^◌, ◌++◌, ap, ◌<◌, arith, length, some, false, ◌∙◌, true, no_fuel, ok, refl, max, ◌∷◌,
  fault, [], Outcome, ◌≤◌, Bytes, bytes_eq, List, ℕ, suc, zero, ◌≡◌, sym,
}
use librpc.Serializer.Msgpack.{int_node, ℤ, Call, Node, Nodes, Mpack}
use librpc.Serializer.Msgpack.Write.{write_object, write_shmem, serialize}
use librpc.Serializer.Msgpack.Read.{
  node_i64, read_le, read_with, read_entries, read_elements, read_object, read_error, read_shmem,
  deserialize,
}
use librpc.Serializer.Msgpack.Format.{i64_node, denote, nodes, Decodes}
use librpc.Serializer.Msgpack.RoundTrip.Denoted.{
  denote-error_calls, denote-shmem, error_node, shmem_node, denote-write_object, node_of,
  field_nodes, item_nodes, error_calls, Exact, ExactItems, ExactFields,
}

-- How deep errors stand in the extra objects and the stacks of errors.
unfoldable mutual
  pub error_depth : Object → ℕ
  error_depth (error code msg extra stack) = suc (max (error_depth extra) (error_depth stack))
  error_depth (dictionary fs) = depth_fields fs
  error_depth (array xs) = depth_items xs
  error_depth _ = 0

  pub depth_items : Items → ℕ
  depth_items nil = 0
  depth_items (cons x xs) = max (error_depth x) (depth_items xs)

  pub depth_fields : Fields → ℕ
  depth_fields end = 0
  depth_fields (field k v fs) = max (error_depth v) (depth_fields fs)

-- mpack decodes the frames of errors and of shared memory in an object.
abbrev mutual
  pub InnerDecodes : Mpack → Object → Type 0
  InnerDecodes m (error code msg extra stack) =
      Decodes m (error_calls m code msg extra stack) × InnerDecodes m extra × InnerDecodes m stack
  InnerDecodes m (shmem handle offset size) = Decodes m (write_shmem handle offset size)
  InnerDecodes m (dictionary fs) = InnerFields m fs
  InnerDecodes m (array xs) = InnerItems m xs
  InnerDecodes m _ = Unit {0}

  pub InnerItems : Mpack → Items → Type 0
  InnerItems m nil = Unit {0}
  InnerItems m (cons x xs) = InnerDecodes m x × InnerItems m xs

  pub InnerFields : Mpack → Fields → Type 0
  InnerFields m end = Unit {0}
  InnerFields m (field k v fs) = InnerDecodes m v × InnerFields m fs

read_error_lem :
    (read : Node → Outcome Object) (code : ℤ) (msg : Bytes) (x s : Node) (extra stack : Object)
    → is_int32 code ≡ true
    → has_nul msg ≡ false
    → length msg < 1024
    → read x ≡ ok extra
    → read s ≡ ok stack
    → read_error read (error_node code msg x s) ≡ ok (error code msg extra stack)
unfolding read_error bytes_eq
read_error_lem read (pos i) msg x s extra stack c n l rx rs = ground (arith, c, n, l, rx, rs)
read_error_lem read (negsuc i) msg x s extra stack c n l rx rs = ground (arith, c, n, l, rx, rs)

read_shmem_lem :
    (handle offset : ℤ) (size : ℕ)
    → is_int32 handle ≡ true
    → InInt64 offset
    → read_shmem (shmem_node handle offset size) ≡ shmem handle offset size
unfolding read_shmem bytes_eq
read_shmem_lem (pos i) offset size c o = ground (arith, c, to_int64-to_uint64 offset o)
read_shmem_lem (negsuc i) offset size c o = ground (arith, c, to_int64-to_uint64 offset o)

module _ (m : Mpack) where
  abbrev inner_of : ℕ → Bytes → Outcome Object
  inner_of zero bytes = fault no_fuel
  inner_of (suc fuel) bytes = read_error (read_object m fuel) (m.tree_root bytes)

  read_object_lem : (fuel : ℕ) (n : Node) → read_object m fuel n ≡ read_with m (inner_of fuel) n
  unfolding read_object
  read_object_lem zero n = refl
  read_object_lem (suc fuel) n = refl

  tree_root_lem :
      (calls : List Call) (n : Node)
      → Decodes m calls
      → denote calls [] ≡ n ∷ []
      → m.tree_root (m.written calls) ≡ n
  tree_root_lem calls n d e = cc

  mutual
    unfolding read_with error_depth read_le

    read_lem :
        (o : Object) (fuel : ℕ)
        → error_depth o ≤ fuel
        → InnerDecodes m o
        → Exact o
        → read_with m (inner_of fuel) (node_of m o) ≡ ok o
    read_lem null fuel l d h = refl
    read_lem (bool b) fuel l d h = refl
    read_lem (int64 i) fuel l d h = refl
    read_lem (uint64 n) fuel l d h = refl
    read_lem (date t) fuel l d h = rw (read_int64 t h, to_int64-to_uint64 t h)
    read_lem (double x) fuel l d h = refl
    read_lem (string s) fuel l d h = rw (c_string_lem s h, c_string_lem s h)
    read_lem (binary b) fuel l d h = refl
    read_lem (fd n) fuel l d h = rw (read_int32 n h, to_int32-to_uint32 n h)
    read_lem (shmem handle offset size) fuel l d h =
        rw
          (tree_root_lem (write_shmem handle offset size) (shmem_node handle offset size) d
            (denote-shmem m handle offset size))
          (rw (read_shmem_lem handle offset size h.0 h.1))
    read_lem (error code msg extra stack) zero l d h = absurd (omega (arith, l))
    read_lem (error code msg extra stack) (suc fuel) l d h =
        rw
          (tree_root_lem (error_calls m code msg extra stack)
            (error_node code msg (node_of m extra) (node_of m stack)) d.0
            (denote-error_calls m code msg extra stack h.1 h.3 h.4))
          (read_error_lem (read_object m fuel) code msg (node_of m extra) (node_of m stack) extra
            stack h.0 h.1 h.2
            (read_object_lem fuel (node_of m extra)
              ∙ read_lem extra fuel (omega (arith, l)) d.1 h.3)
            (read_object_lem fuel (node_of m stack)
              ∙ read_lem stack fuel (omega (arith, l)) d.2 h.4))
    read_lem (dictionary fs) fuel l d h =
        read_fields fs fuel [] l d h.1 (Apart-nil fs) h.2
        ∙ ap (λ (gs : Fields). ok (dictionary gs)) (fields-entries fs)
    read_lem (array xs) fuel l d h =
        read_items xs fuel [] l d h.1 ∙ ap (λ (zs : Items). ok (array zs)) (items-elements xs)

    read_fields :
        (fs : Fields) (fuel : ℕ) (es : Entries)
        → depth_fields fs ≤ fuel
        → InnerFields m fs
        → KeysDistinct (entries fs)
        → Apart fs es
        → ExactFields fs
        → read_entries m (inner_of fuel) (field_nodes m fs) (dictionary (fields es))
          ≡ ok (dictionary (fields (es ++ entries fs)))
    read_fields end fuel es l d k a h = rw (append-nil es)
    read_fields (field k v fs) fuel es l d u a h =
        rw
          (
            read_lem v fuel (omega (arith, l)) d.0 h.1,
            c_string_lem k h.0,
            entries-fields es,
            insert_new k v es a.0,
          )
          (read_fields fs fuel (es ++ (k, v) ∷ []) (omega (arith, l)) d.1 u.1
              (Apart-snoc fs es k v u.0 a.1) h.2
            ∙ ap (λ (gs : Entries). ok (dictionary (fields gs)))
                (append_assoc es ((k, v) ∷ []) (entries fs)))

    read_items :
        (xs : Items) (fuel : ℕ) (ys : List Object)
        → depth_items xs ≤ fuel
        → InnerItems m xs
        → ExactItems xs
        → read_elements m (inner_of fuel) (item_nodes m xs) (array (items ys))
          ≡ ok (array (items (ys ++ elements xs)))
    read_items nil fuel ys l d h = rw (append-nil ys)
    read_items (cons x xs) fuel ys l d h =
        rw (read_lem x fuel (omega (arith, l)) d.0 h.0, elements-items ys)
          (read_items xs fuel (ys ++ x ∷ []) (omega (arith, l)) d.1 h.1
            ∙ ap (λ (zs : List Object). ok (array (items zs)))
                (append_assoc ys (x ∷ []) (elements xs)))

  deserialize-serialize_msgpack_lem :
      (o : Object) (fuel : ℕ)
      → error_depth o ≤ fuel
      → Exact o
      → Decodes m (write_object m o)
      → InnerDecodes m o
      → deserialize m fuel (serialize m o) ≡ ok o
  unfolding deserialize serialize
  deserialize-serialize_msgpack_lem o fuel l h d i =
      rw (tree_root_lem (write_object m o) (node_of m o) d (denote-write_object m o h))
        (read_object_lem fuel (node_of m o) ∙ read_lem o fuel l i h)

  -- Of what rpc_msgpack_serialize wrote, rpc_msgpack_deserialize returns an object with the content of the
  -- one that was written: the same scalars, arrays with the same elements in order, and dictionaries with
  -- the same values at the same keys, if the fuel is at least the depth of errors in errors. The
  -- conditions: an
  -- int64 is one of 32 bits or above 2^32, a uint64 is not 2^32, other numbers are in the ranges of
  -- their types; no string, key or message holds a NUL, and messages are shorter than 1024 bytes; no
  -- dictionary has a key twice; buffers, arrays and dictionaries have sizes below 2^32. mpack decodes
  -- the frame, and the frames of errors and shared memory in it, to the nodes that the calls stand for.
  pub deserialize-serialize_msgpack :
      (o : Object) (fuel : ℕ)
      → error_depth o ≤ fuel
      → Exact o
      → Decodes m (write_object m o)
      → InnerDecodes m o
      → (o' : Object) × (deserialize m fuel (serialize m o) ≡ ok o') × SameContent o' o
  deserialize-serialize_msgpack o fuel l h d i =
      (o, deserialize-serialize_msgpack_lem o fuel l h d i, SameContent-eq refl)

  -- An int64 from 2^31 up to, and not including, 2^32 is read back less by 2^32, with any fuel, where
  -- mpack decodes the frame to the node that its bytes stand for.
  pub deserialize_wide_int64 :
      (n fuel : ℕ)
      → 2 ^ 31 ≤ n
      → n < 2 ^ 32
      → Decodes m (write_object m (int64 (pos n)))
      → deserialize m fuel (serialize m (int64 (pos n))) ≡ ok (int64 (negsuc (2 ^ 32 - n - 1)))
  unfolding deserialize serialize write_object denote
  deserialize_wide_int64 n fuel l h d =
      rw
        (tree_root_lem (write_object m (int64 (pos n))) (int_node (negsuc (2 ^ 32 - n - 1))) d
          (ap (λ (x : Node). x ∷ []) (wide_int64 n l h)))
        (read_object_lem fuel (int_node (negsuc (2 ^ 32 - n - 1))))
