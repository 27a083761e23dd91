-- ===== src/Serializer/Msgpack/Tests.antt =====
-- The MessagePack serializer on concrete objects.
use librpc.Object.Content.{SameContent}
use librpc.Serializer.Msgpack.RoundTrip.Denoted.{error_node}
use librpc.Base.Int.{pos, negsuc}
use librpc.Object.Value.{has_nul}
use librpc.Serializer.Msgpack.Format.{nodes, denote}
use librpc.Object.Types.{null, uint64, int64, items, error, array, Object}
use librpc.Base.{arith, ◌-◌, codes, ◌^◌, bytes_eq, if◌then◌else◌, length, ◌≡◌, refl, [], ◌∷◌, ok}
use librpc.Serializer.Msgpack.{
  nil_node, ext_error, ext_node, uint_node, array_node, int_node, Mpack,
}
use librpc.Serializer.Msgpack.Write.{uint64_bytes, int64_bytes, write_object, serialize}
use librpc.Serializer.Msgpack.Read.{deserialize}
use librpc.Serializer.Msgpack.RoundTrip.{
  error_depth, deserialize-serialize_msgpack, deserialize_wide_int64,
}

abbrev inner : Object
inner = error (pos 7) (codes "m") null null

abbrev outer : Object
outer = array (items (int64 (pos 5) ∷ uint64 (2 ^ 40) ∷ inner ∷ []))

-- The frame of `outer` has four calls, that of the error in it nine.
abbrev mpack : Mpack
mpack = record {
  written = λ calls. length calls ∷ [];
  tree_root = λ bytes.
      if bytes_eq bytes (4 ∷ [])
      then array_node
          (nodes (int_node (pos 5) ∷ uint_node (2 ^ 40) ∷ ext_node ext_error (9 ∷ []) ∷ []))
      else error_node (pos 7) (codes "m") nil_node nil_node;
}

deserialize-serialize_msgpack_example :
    (o' : Object) × (deserialize mpack 1 (serialize mpack outer) ≡ ok o') × SameContent o' outer
unfolding serialize error_depth has_nul bytes_eq denote write_object int64_bytes uint64_bytes
deserialize-serialize_msgpack_example =
    deserialize-serialize_msgpack mpack outer 1 (omega arith) (ground arith) refl (ground arith)

abbrev wide : Mpack
wide = record { written = λ calls. []; tree_root = λ bytes. int_node (negsuc (2 ^ 31 - 1)) }

deserialize_wide_int64_example :
    deserialize wide 0 (serialize wide (int64 (pos (2 ^ 31))))
    ≡ ok (int64 (negsuc (2 ^ 32 - 2 ^ 31 - 1)))
unfolding denote write_object int64_bytes
deserialize_wide_int64_example =
    deserialize_wide_int64 wide (2 ^ 31) 0 (omega arith) (omega arith) refl
