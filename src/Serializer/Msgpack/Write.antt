-- ===== src/Serializer/Msgpack/Write.antt =====
-- src/serializer/msgpack.c: rpc_msgpack_write_object, as the calls of the writer.
use librpc.Object.Value.{c_string}
use librpc.Base.Int.{to_uint32, to_uint64, pos, ltb_ℤ, ℤ}
use librpc.Object.Types.{
  end, nil, null, cons, Items, field, Fields, elements, array, entries, dictionary, error, shmem,
  fd, binary, string, double, date, uint64, int64, bool, Object,
}
use librpc.Base.{
  ◌++◌, length, take, codes, ◌∷◌, ◌^◌, ◌%◌, ltb, ◌/◌, List, [], if◌then◌else◌, Bytes, ℕ, suc, zero,
}
use librpc.Serializer.Msgpack.{
  start_array, ext_error, ext_shmem, ext_fd, write_bin, write_double, ext_date, write_ext,
  object_bytes, write_u64, write_i64, write_bool, write_str, start_map, write_nil, ℤ, Call, Mpack,
}

-- htobe64 and htobe32, as bytes.
unfoldable pub be_bytes : ℕ → ℕ → Bytes
be_bytes zero w = []
be_bytes (suc n) w = w / 256 ^ n % 256 ∷ be_bytes n w

-- An integer in memory, on a machine with the low byte first.
unfoldable pub le_bytes : ℕ → ℕ → Bytes
le_bytes zero w = []
le_bytes (suc n) w = w % 256 ∷ le_bytes n (w / 256)

-- A value above 2^32 is written in 64 bits, any other in its low 32 bits.
unfoldable pub int64_bytes : ℤ → Bytes
unfolding be_bytes
int64_bytes i =
    if ltb_ℤ (pos (2 ^ 32)) i
    then 211 ∷ be_bytes 8 (to_uint64 i)
    else 210 ∷ be_bytes 4 (to_uint64 i % 2 ^ 32)

unfoldable pub uint64_bytes : ℕ → Bytes
unfolding be_bytes
uint64_bytes n = if ltb (2 ^ 32) n then 207 ∷ be_bytes 8 n else 206 ∷ be_bytes 4 (n % 2 ^ 32)

-- rpc_msgpack_write_shmem
unfoldable pub write_shmem : ℤ → ℤ → ℕ → List Call
write_shmem handle offset size =
    start_map 3
    ∷ write_str (codes "fd")
    ∷ write_i64 handle
    ∷ write_str (codes "offset")
    ∷ write_u64 (to_uint64 offset)
    ∷ write_str (codes "len")
    ∷ write_u64 size
    ∷ []

module _ (m : Mpack) where
  -- rpc_msgpack_write_object; the calls of rpc_msgpack_write_error are those of the case of an error.
  unfoldable mutual
    unfolding int64_bytes uint64_bytes le_bytes write_shmem c_string

    pub write_object : Object → List Call
    write_object null = write_nil ∷ []
    write_object (bool b) = write_bool b ∷ []
    write_object (int64 i) = object_bytes (int64_bytes i) ∷ []
    write_object (uint64 n) = object_bytes (uint64_bytes n) ∷ []
    write_object (date t) = write_ext ext_date (le_bytes 8 (to_uint64 t)) ∷ []
    write_object (double d) = write_double d ∷ []
    write_object (string s) = write_str (c_string s) ∷ []
    write_object (binary b) = write_bin (take (length b % 2 ^ 32) b) ∷ []
    write_object (fd n) = write_ext ext_fd (le_bytes 4 (to_uint32 n)) ∷ []
    write_object (shmem handle offset size) =
        write_ext ext_shmem (m.written (write_shmem handle offset size)) ∷ []
    write_object (error code msg extra stack) =
        write_ext ext_error (
          m.written (
            start_map 4
            ∷ write_str (codes "code")
            ∷ write_i64 code
            ∷ write_str (codes "message")
            ∷ write_str (c_string msg)
            ∷ write_str (codes "extra")
            ∷ (write_object extra ++ write_str (codes "stack") ∷ write_object stack)))
        ∷ []
    write_object (dictionary fs) = start_map (length (entries fs) % 2 ^ 32) ∷ write_fields fs
    write_object (array xs) = start_array (length (elements xs) % 2 ^ 32) ∷ write_items xs

    pub write_fields : Fields → List Call
    write_fields end = []
    write_fields (field k v fs) = write_str (c_string k) ∷ (write_object v ++ write_fields fs)

    pub write_items : Items → List Call
    write_items nil = []
    write_items (cons x xs) = write_object x ++ write_items xs

  -- rpc_msgpack_serialize
  unfoldable pub serialize : Object → Bytes
  unfolding write_object
  serialize o = m.written (write_object o)
