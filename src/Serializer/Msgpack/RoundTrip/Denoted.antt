-- ===== src/Serializer/Msgpack/RoundTrip/Denoted.antt =====
-- src/serializer/msgpack.c: the node that an object is written as.
use librpc.Object.Dictionary.{KeysDistinct}
use librpc.Object.Value.{has_nul, c_string_lem, c_string}
use librpc.Serializer.Msgpack.RoundTrip.Numbers.{uint64_lem, ExactUint64, int64_lem, ExactInt64}
use librpc.Object.Types.{
  null, array, dictionary, error, shmem, binary, fd, double, date, string, end, nil, uint64,
  elements, entries, bool, field, cons, int64, Items, Object, Fields,
}
use librpc.Base.Int.{to_uint32, is_int32, to_uint64, InInt64, ℤ}
use librpc.Base.{
  ◌∙◌, arith, ◌<◌, ◌^◌, false, ◌%◌, take_all, true, ◌+◌, drop, refl, codes, ap, ◌∷◌, length, [],
  take, ◌++◌, Bytes, List, ℕ, suc, ◌≡◌,
}
use librpc.Serializer.Msgpack.{
  no_nodes, array_node, ext_error, ext_shmem, ext_fd, bin_node, double_node, ext_date, ext_node,
  uint_node, node, int_node, write_i64, bool_node, write_str, str_node, start_map, nil_node,
  map_node, ℤ, Call, Node, Nodes, Mpack,
}
use librpc.Serializer.Msgpack.Write.{
  le_bytes, uint64_bytes, int64_bytes, write_object, write_fields, write_items, write_shmem,
}
use librpc.Serializer.Msgpack.Format.{i64_node, denote, denote_call, nodes}

-- The objects that the serializer can tell: 64-bit numbers but for those from 2^31 up to 2^32 and those
-- below -2^31, messages of less than 1024 bytes, no NUL in a string.
abbrev mutual
  pub Exact : Object → Type 0
  Exact (int64 i) = ExactInt64 i
  Exact (uint64 n) = ExactUint64 n
  Exact (date t) = InInt64 t
  Exact (fd n) = is_int32 n ≡ true
  Exact (string s) = has_nul s ≡ false
  Exact (binary b) = length b < 2 ^ 32
  Exact (error code msg extra stack) =
      (is_int32 code ≡ true)
      × (has_nul msg ≡ false)
      × (length msg < 1024)
      × Exact extra
      × Exact stack
  Exact (shmem handle offset size) = (is_int32 handle ≡ true) × InInt64 offset × (size < 2 ^ 64)
  Exact (dictionary fs) =
      (length (entries fs) < 2 ^ 32) × KeysDistinct (entries fs) × ExactFields fs
  Exact (array xs) = (length (elements xs) < 2 ^ 32) × ExactItems xs
  Exact _ = Unit {0}

  pub ExactItems : Items → Type 0
  ExactItems nil = Unit {0}
  ExactItems (cons x xs) = Exact x × ExactItems xs

  pub ExactFields : Fields → Type 0
  ExactFields end = Unit {0}
  ExactFields (field k v fs) = (has_nul k ≡ false) × Exact v × ExactFields fs

abbrev pub shmem_node : ℤ → ℤ → ℕ → Node
shmem_node handle offset size = map_node (
    nodes (
      str_node (codes "fd")
      ∷ i64_node handle
      ∷ str_node (codes "offset")
      ∷ uint_node (to_uint64 offset)
      ∷ str_node (codes "len")
      ∷ uint_node size
      ∷ []))

abbrev pub error_node : ℤ → Bytes → Node → Node → Node
error_node code msg extra stack = map_node (
    nodes (
      str_node (codes "code")
      ∷ i64_node code
      ∷ str_node (codes "message")
      ∷ str_node msg
      ∷ str_node (codes "extra")
      ∷ extra
      ∷ str_node (codes "stack")
      ∷ stack
      ∷ []))

module _ (m : Mpack) where
  -- The calls of rpc_msgpack_write_error.
  abbrev pub error_calls : ℤ → Bytes → Object → Object → List Call
  error_calls code msg extra stack =
      start_map 4
      ∷ write_str (codes "code")
      ∷ write_i64 code
      ∷ write_str (codes "message")
      ∷ write_str (c_string msg)
      ∷ write_str (codes "extra")
      ∷ (write_object m extra ++ write_str (codes "stack") ∷ write_object m stack)

  abbrev mutual
    pub node_of : Object → Node
    node_of null = nil_node
    node_of (bool b) = bool_node b
    node_of (int64 i) = int_node i
    node_of (uint64 n) = uint_node n
    node_of (date t) = ext_node ext_date (le_bytes 8 (to_uint64 t))
    node_of (double d) = double_node d
    node_of (string s) = str_node s
    node_of (binary b) = bin_node b
    node_of (fd n) = ext_node ext_fd (le_bytes 4 (to_uint32 n))
    node_of (shmem handle offset size) =
        ext_node ext_shmem (m.written (write_shmem handle offset size))
    node_of (error code msg extra stack) =
        ext_node ext_error (m.written (error_calls code msg extra stack))
    node_of (dictionary fs) = map_node (field_nodes fs)
    node_of (array xs) = array_node (item_nodes xs)

    pub field_nodes : Fields → Nodes
    field_nodes end = no_nodes
    field_nodes (field k v fs) = node (str_node k) (node (node_of v) (field_nodes fs))

    pub item_nodes : Items → Nodes
    item_nodes nil = no_nodes
    item_nodes (cons x xs) = node (node_of x) (item_nodes xs)

  denote-append : (a b : List Call) (ns : List Node) → denote (a ++ b) ns ≡ denote a (denote b ns)
  unfolding denote
  denote-append [] b ns = refl
  denote-append (c ∷ a) b ns = ap (denote_call c) (denote-append a b ns)

  -- The nodes of the entries of a dictionary and of the elements of an array, as lists.
  abbrev field_list : Fields → List Node
  field_list end = []
  field_list (field k v fs) = str_node k ∷ node_of v ∷ field_list fs

  abbrev item_list : Items → List Node
  item_list nil = []
  item_list (cons x xs) = node_of x ∷ item_list xs

  taken_fields :
      (fs : Fields) (ns : List Node)
      → (nodes (take (length (entries fs) + length (entries fs)) (field_list fs ++ ns))
          ≡ field_nodes fs)
        × (drop (length (entries fs) + length (entries fs)) (field_list fs ++ ns) ≡ ns)
  taken_fields end ns = (refl, refl)
  taken_fields (field k v fs) ns =
      let ih = taken_fields fs ns in
      let two : suc (length (entries fs)) + suc (length (entries fs))
          ≡ suc (suc (length (entries fs) + length (entries fs))) =
        omega arith in
      rw two (ap (λ r. node (str_node k) (node (node_of v) r)) ih.0, ih.1)

  taken_items :
      (xs : Items) (ns : List Node)
      → (nodes (take (length (elements xs)) (item_list xs ++ ns)) ≡ item_nodes xs)
        × (drop (length (elements xs)) (item_list xs ++ ns) ≡ ns)
  taken_items nil ns = (refl, refl)
  taken_items (cons x xs) ns = let ih = taken_items xs ns in (ap (node (node_of x)) ih.0, ih.1)

  mutual
    unfolding write_object denote int64_bytes uint64_bytes

    denote_lem :
        (o : Object) (ns : List Node) → Exact o → denote (write_object m o) ns ≡ node_of o ∷ ns
    denote_lem null ns h = refl
    denote_lem (bool b) ns h = refl
    denote_lem (int64 i) ns h = ap (λ (n : Node). n ∷ ns) (int64_lem i h)
    denote_lem (uint64 n) ns h = ap (λ (x : Node). x ∷ ns) (uint64_lem n h)
    denote_lem (date t) ns h = refl
    denote_lem (double d) ns h = refl
    denote_lem (string s) ns h = ap (λ (t : Bytes). str_node t ∷ ns) (c_string_lem s h)
    denote_lem (binary b) ns h =
        ap (λ (c : Bytes). bin_node c ∷ ns) (take_all (length b % 2 ^ 32) b (omega (arith, h)))
    denote_lem (fd n) ns h = refl
    denote_lem (shmem handle offset size) ns h = refl
    denote_lem (error code msg extra stack) ns h = refl
    denote_lem (dictionary fs) ns h =
        let counted : length (entries fs) % 2 ^ 32 ≡ length (entries fs) = omega (arith, h.0) in
        let taken = taken_fields fs ns in rw (counted, denote_fields fs ns h.2, taken.0, taken.1)
    denote_lem (array xs) ns h =
        let counted : length (elements xs) % 2 ^ 32 ≡ length (elements xs) = omega (arith, h.0) in
        let taken = taken_items xs ns in rw (counted, denote_items xs ns h.1, taken.0, taken.1)

    denote_fields :
        (fs : Fields) (ns : List Node)
        → ExactFields fs
        → denote (write_fields m fs) ns ≡ field_list fs ++ ns
    denote_fields end ns h = refl
    denote_fields (field k v fs) ns h =
        ap (λ (t : Bytes). str_node t ∷ denote (write_object m v ++ write_fields m fs) ns)
          (c_string_lem k h.0)
        ∙ ap (λ (r : List Node). str_node k ∷ r)
            (denote-append (write_object m v) (write_fields m fs) ns
              ∙ denote_lem v (denote (write_fields m fs) ns) h.1
              ∙ ap (λ (r : List Node). node_of v ∷ r) (denote_fields fs ns h.2))

    denote_items :
        (xs : Items) (ns : List Node)
        → ExactItems xs
        → denote (write_items m xs) ns ≡ item_list xs ++ ns
    denote_items nil ns h = refl
    denote_items (cons x xs) ns h =
        denote-append (write_object m x) (write_items m xs) ns
        ∙ denote_lem x (denote (write_items m xs) ns) h.0
        ∙ ap (λ (r : List Node). node_of x ∷ r) (denote_items xs ns h.1)

  pub denote-write_object : (o : Object) → Exact o → denote (write_object m o) [] ≡ node_of o ∷ []
  denote-write_object o h = denote_lem o [] h

  pub denote-error_calls :
      (code : ℤ) (msg : Bytes) (extra stack : Object)
      → has_nul msg ≡ false
      → Exact extra
      → Exact stack
      → denote (error_calls code msg extra stack) []
        ≡ error_node code msg (node_of extra) (node_of stack) ∷ []
  unfolding denote
  denote-error_calls code msg extra stack h x s = rw (c_string_lem msg h) (
      rw
        (denote-append (write_object m extra) (write_str (codes "stack") ∷ write_object m stack) [])
        (rw (denote_lem extra (str_node (codes "stack") ∷ denote (write_object m stack) []) x)
          (rw (denote_lem stack [] s))))

  pub denote-shmem :
      (handle offset : ℤ) (size : ℕ)
      → denote (write_shmem handle offset size) [] ≡ shmem_node handle offset size ∷ []
  unfolding denote write_shmem
  denote-shmem handle offset size = refl
