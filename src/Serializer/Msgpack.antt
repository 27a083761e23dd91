-- ===== src/Serializer/Msgpack.antt =====
-- src/serializer/msgpack.c: what the MessagePack serializer uses of mpack.
pub mod Write
pub mod Read
pub mod Format
pub mod RoundTrip
pub mod Tests
use librpc.Base.{ℕ, Bool, List, Bytes}
use librpc.Base.Int.{ℤ}

-- A call of a writer: mpack_write_nil and its like, mpack_write_object_bytes, mpack_start_map and
-- mpack_start_array with their counts. mpack_finish_map and mpack_finish_array write nothing and have no
-- call here.
pub data Call : Type 0 where
  write_nil : Call
  write_bool : Bool → Call
  object_bytes : Bytes → Call
  write_i64 : ℤ → Call
  write_u64 : ℕ → Call
  write_double : ℕ → Call
  write_str : Bytes → Call
  write_bin : Bytes → Call
  write_ext : ℕ → Bytes → Call
  start_map start_array : ℕ → Call

-- mpack_node_t: the children of a map are its keys and values, in turn. The node of a float is that of
-- the double of its value.
mutual
  pub data Node : Type 0 where
    nil_node : Node
    bool_node : Bool → Node
    int_node : ℤ → Node
    uint_node : ℕ → Node
    double_node : ℕ → Node
    str_node : Bytes → Node
    bin_node : Bytes → Node
    ext_node : ℕ → Bytes → Node
    map_node : Nodes → Node
    array_node : Nodes → Node

  pub data Nodes : Type 0 where
    no_nodes : Nodes
    node : Node → Nodes → Nodes

-- mpack: the bytes of the calls of a growable writer, and the root of the tree over a buffer, which is
-- nil where the buffer is malformed.
pub record Mpack : Type 0 where
  pub written : List Call → Bytes
  pub tree_root : Bytes → Node

abbrev pub ext_date : ℕ
ext_date = 1

abbrev pub ext_fd : ℕ
ext_fd = 2

abbrev pub ext_shmem : ℕ
ext_shmem = 3

abbrev pub ext_error : ℕ
ext_error = 4
