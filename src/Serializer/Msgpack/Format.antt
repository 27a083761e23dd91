-- ===== src/Serializer/Msgpack/Format.antt =====
-- The MessagePack format, as far as src/serializer/msgpack.c needs it: the nodes that calls of a writer
-- stand for. A call that starts a container takes its children from the nodes of the calls behind it.
use librpc.Base.Int.{to_int32, to_int64, negsuc, pos, ℤ}
use librpc.Base.{drop, take, ◌+◌, ◌≡◌, ◌==◌, ◌*◌, if◌then◌else◌, [], ◌∷◌, List, Bytes, ℕ}
use librpc.Serializer.Msgpack.{
  write_nil, array_node, start_array, map_node, start_map, ext_node, write_ext, bin_node, write_bin,
  str_node, write_str, double_node, write_double, write_u64, write_i64, object_bytes, int_node,
  bool_node, write_bool, uint_node, nil_node, ℤ, Mpack, Call, Node, Nodes, node, no_nodes,
}

unfoldable pub be_value : ℕ → Bytes → ℕ
be_value acc [] = acc
be_value acc (b ∷ bs) = be_value (acc * 256 + b) bs

-- The raw bytes of an integer: a tag, and a number with its high byte first.
unfoldable pub integer_node : Bytes → Node
unfolding be_value
integer_node [] = nil_node
integer_node (tag ∷ bs) =
    if tag == 211
    then int_node (to_int64 (be_value 0 bs))
    else if tag == 210
    then int_node (to_int32 (be_value 0 bs))
    else if tag == 207
    then uint_node (be_value 0 bs)
    else if tag == 206
    then uint_node (be_value 0 bs)
    else nil_node

abbrev pub i64_node : ℤ → Node
i64_node (pos n) = uint_node n
i64_node (negsuc n) = int_node (negsuc n)

abbrev pub nodes : List Node → Nodes
nodes [] = no_nodes
nodes (n ∷ ns) = node n (nodes ns)

unfoldable pub denote_call : Call → List Node → List Node
unfolding integer_node
denote_call write_nil ns = nil_node ∷ ns
denote_call (write_bool b) ns = bool_node b ∷ ns
denote_call (object_bytes bytes) ns = integer_node bytes ∷ ns
denote_call (write_i64 i) ns = i64_node i ∷ ns
denote_call (write_u64 n) ns = uint_node n ∷ ns
denote_call (write_double d) ns = double_node d ∷ ns
denote_call (write_str s) ns = str_node s ∷ ns
denote_call (write_bin b) ns = bin_node b ∷ ns
denote_call (write_ext type bytes) ns = ext_node type bytes ∷ ns
denote_call (start_map n) ns = map_node (nodes (take (n + n) ns)) ∷ drop (n + n) ns
denote_call (start_array n) ns = array_node (nodes (take n ns)) ∷ drop n ns

unfoldable pub denote : List Call → List Node → List Node
unfolding denote_call
denote [] ns = ns
denote (c ∷ calls) ns = denote_call c (denote calls ns)

-- The tree of the calls is the node that they stand for.
abbrev pub Decodes : Mpack → List Call → Type 0
Decodes m calls = m.tree_root (m.written calls) ∷ [] ≡ denote calls []
