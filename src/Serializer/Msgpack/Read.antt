-- ===== src/Serializer/Msgpack/Read.antt =====
-- src/serializer/msgpack.c: rpc_msgpack_read_object over the nodes of a tree. An ext node of an error
-- holds a buffer of its own, whose tree is read with one unit of fuel less.
use librpc.Object.Dictionary.{dictionary_steal_value}
use librpc.Object.Array.{array_append_stolen_value}
use librpc.Base.Int.{to_int64, to_uint64, to_int32, pos, ℤ}
use librpc.Object.Types.{
  nil, array, end, dictionary, binary, double, uint64, int64, fd, bool, null, date, error, shmem,
  Object,
}
use librpc.Object.Value.{string_create, c_string, has_nul}
use librpc.Base.{
  ◌>>=◌, not, ◌&&◌, bad_access, [], ◌*◌, length, ◌+◌, ◌^◌, no_fuel, ok, ltb, ◌==◌, ◌∷◌, some,
  if◌then◌else◌, none, codes, fault, Bytes, Option, bytes_eq, Outcome, ℕ, suc, zero,
}
use librpc.Serializer.Msgpack.{
  nil_node, node, no_nodes, str_node, map_node, array_node, ext_node, bin_node, double_node,
  ext_error, ext_shmem, ext_fd, bool_node, ext_date, int_node, ℤ, uint_node, Node, Nodes, Mpack,
}

-- *(int64_t *)data and *(int *)data: a buffer that is too short is read past its end.
unfoldable pub read_le : ℕ → Bytes → Option ℕ
read_le zero bs = some 0
read_le (suc n) [] = none
read_le (suc n) (b ∷ bs) = elim (read_le n bs) [ none ↦ none | some w ↦ some (b + 256 * w) ]

-- mpack_node_map_cstr: `none` where it flags an error, after which every read of the tree is nil.
unfoldable pub children_find : Bytes → Nodes → Option Node
unfolding bytes_eq
children_find key (node (str_node k) (node v rest)) =
    if bytes_eq k key then some v else children_find key rest
children_find key (node k (node v rest)) = children_find key rest
children_find key rest = none

unfoldable pub node_map_cstr : Node → Bytes → Option Node
unfolding children_find
node_map_cstr (map_node children) key = children_find key children
node_map_cstr n key = none

unfoldable pub node_i64 : Node → Option ℤ
node_i64 (int_node i) = some i
node_i64 (uint_node n) = if ltb n (2 ^ 63) then some (pos n) else none
node_i64 n = none

unfoldable pub node_u64 : Node → Option ℕ
node_u64 (uint_node n) = some n
node_u64 (int_node (pos n)) = some n
node_u64 n = none

-- mpack_node_cstr_alloc(node, 1024)
unfoldable pub node_cstr : Node → Option Bytes
unfolding has_nul
node_cstr (str_node s) = if ltb (length s) 1024 && not (has_nul s) then some s else none
node_cstr n = none

abbrev pub field_of {ℓ} : {A : Type ℓ} → (Node → Option A) → Node → Bytes → Option A
field_of get root key = elim (node_map_cstr root key) [ none ↦ none | some n ↦ get n ]

-- rpc_msgpack_read_shmem
unfoldable pub read_shmem : Node → Object
unfolding node_map_cstr node_i64 node_u64
read_shmem root = elim (field_of node_i64 root (codes "fd")) [
  | none ↦ shmem (pos 0) (pos 0) 0
  | some handle ↦ elim (field_of node_u64 root (codes "offset")) [
    | none ↦ shmem (to_int32 (to_uint64 handle)) (pos 0) 0
    | some offset ↦ elim (field_of node_u64 root (codes "len")) [
      | none ↦ shmem (to_int32 (to_uint64 handle)) (to_int64 offset) 0
      | some size ↦ shmem (to_int32 (to_uint64 handle)) (to_int64 offset) size
    ]
  ]
]

-- rpc_msgpack_read_error, with the reader of nodes
unfoldable pub read_error : (Node → Outcome Object) → Node → Outcome Object
unfolding node_map_cstr node_i64 node_cstr
read_error read root = elim (field_of node_i64 root (codes "code")) [
  | none ↦ ok (error (pos 0) [] null null)
  | some code ↦ elim (field_of node_cstr root (codes "message")) [
    | none ↦ ok (error (to_int32 (to_uint64 code)) [] null null)
    | some msg ↦ elim (node_map_cstr root (codes "extra")) [
      | none ↦ ok (error (to_int32 (to_uint64 code)) msg null null)
      | some x ↦ elim (node_map_cstr root (codes "stack")) [
        | none ↦ read x >>= λ extra. ok (error (to_int32 (to_uint64 code)) msg extra null)
        | some s ↦ read x >>= λ extra.
            read s >>= λ stack. ok (error (to_int32 (to_uint64 code)) msg extra stack)
      ]
    ]
  ]
]

module _ (m : Mpack) where
  -- The cases of an ext node, with the reader of an error.
  unfoldable pub read_ext : (Bytes → Outcome Object) → ℕ → Bytes → Outcome Object
  unfolding read_le read_shmem
  read_ext inner type bytes =
      if type == ext_date
      then elim (read_le 8 bytes) [ none ↦ fault bad_access | some w ↦ ok (date (to_int64 w)) ]
      else if type == ext_fd
      then elim (read_le 4 bytes) [ none ↦ fault bad_access | some w ↦ ok (fd (to_int32 w)) ]
      else if type == ext_shmem
      then ok (read_shmem (m.tree_root bytes))
      else if type == ext_error
      then inner bytes
      else ok null

  module _ (inner : Bytes → Outcome Object) where
    unfoldable mutual
      unfolding read_ext c_string string_create array_append_stolen_value dictionary_steal_value

      pub read_with : Node → Outcome Object
      read_with nil_node = ok null
      read_with (bool_node b) = ok (bool b)
      read_with (int_node i) = ok (int64 i)
      read_with (uint_node n) = ok (uint64 n)
      read_with (double_node d) = ok (double d)
      read_with (str_node s) = ok (string_create (some (c_string s)))
      read_with (bin_node b) = ok (binary b)
      read_with (ext_node type bytes) = read_ext inner type bytes
      read_with (map_node children) = read_entries children (dictionary end)
      read_with (array_node children) = read_elements children (array nil)

      -- The loop over the values of a map; a key that is no string is a NULL.
      pub read_entries : Nodes → Object → Outcome Object
      read_entries (node (str_node k) (node v rest)) result = read_with v >>= λ o.
          dictionary_steal_value result (c_string k) o >>= λ r. read_entries rest r
      read_entries (node k (node v rest)) result = fault bad_access
      read_entries rest result = ok result

      pub read_elements : Nodes → Object → Outcome Object
      read_elements no_nodes result = ok result
      read_elements (node x rest) result =
          read_with x >>= λ o. array_append_stolen_value result o >>= λ r. read_elements rest r

  -- rpc_msgpack_read_object
  unfoldable pub read_object : ℕ → Node → Outcome Object
  unfolding read_with read_error
  read_object zero n = read_with (λ bytes. fault no_fuel) n
  read_object (suc fuel) n =
      read_with (λ bytes. read_error (read_object fuel) (m.tree_root bytes)) n

  -- rpc_msgpack_deserialize
  unfoldable pub deserialize : ℕ → Bytes → Outcome Object
  unfolding read_object
  deserialize fuel frame = read_object fuel (m.tree_root frame)
