-- ===== src/Object/Copy.antt =====
-- src/rpc_object.c: rpc_copy, rpc_hash and rpc_cmp.
pub mod Faithful
pub mod Compare
use librpc.Base.{
  ℕ, ◌+◌, ◌*◌, ◌%◌, ◌^◌, Option, none, some, List, [], ◌∷◌, ◌++◌, if◌then◌else◌, Bytes, bit_xor,
  Outcome, ok, fault, bad_access, overflow, ◌>>=◌,
}
use librpc.Base.Int.{ℤ, to_uint64, to_uint32, to_int32, is_int32, ◌-ℤ◌}
use librpc.Object.Platform.{Platform}
use librpc.Object.Types.{
  Object, null, bool, uint64, int64, double, date, string, binary, fd, dictionary, array, shmem,
  error, Items, nil, cons, Fields, end, field, items, fields,
}
use librpc.Object.Value.{string_create, error_create}
use librpc.Object.Dictionary.{Entries, insert}

-- rpc_data_hash: `while (length--)` runs from the last byte, on size_t.
unfoldable pub data_hash : Bytes → ℕ
data_hash [] = 5381
data_hash (c ∷ cs) = (data_hash cs * 33 + c) % 2 ^ 64

-- st_dev ^ st_ino; where fstat() fails the structure is not written.
unfoldable pub file_hash : Option (ℕ × ℕ) → Outcome ℕ
file_hash none = fault bad_access
file_hash (some (dev, ino)) = ok (bit_xor dev ino)

module _ (p : Platform) where
  -- The loops over a container carry what the new container holds so far; a steal at the index of the
  -- element, which is the length of the new array, appends.
  unfoldable mutual
    pub copy : Object → Object
    copy null = null
    copy (bool b) = bool b
    copy (uint64 n) = uint64 n
    copy (int64 i) = int64 i
    copy (double d) = double d
    copy (date t) = date t
    copy (string s) = string_create (some s)
    copy (binary b) = binary b
    copy (fd n) = fd n
    copy (dictionary fs) = dictionary (fields (copy_entries fs []))
    copy (array xs) = array (items (copy_elements xs []))
    copy (shmem f off size) = shmem f off size
    copy (error code msg extra stack) = error_create p.backtrace code msg (some (copy extra))

    pub copy_elements : Items → List Object → List Object
    copy_elements nil done = done
    copy_elements (cons v xs) done = copy_elements xs (done ++ copy v ∷ [])

    pub copy_entries : Fields → Entries → Entries
    copy_entries end done = done
    copy_entries (field k v fs) done = copy_entries fs (insert k (copy v) done)

  unfoldable mutual
    pub hash : Object → Outcome ℕ
    hash null = ok 0
    hash (bool b) = ok (if b then 1 else 0)
    hash (uint64 n) = ok n
    hash (int64 i) = ok (to_uint64 i)
    hash (double d) = ok (p.double_to_size d)
    hash (date t) = ok (to_uint64 t)
    hash (string s) = ok (p.string_hash s)
    hash (binary b) = ok (data_hash b)
    hash (fd n) = file_hash (p.fstat n)
    hash (dictionary fs) = hash_entries fs 0
    hash (array xs) = hash_elements xs 0
    hash (shmem n off size) = file_hash (p.fstat n)
    hash (error code msg extra stack) =
        hash extra >>= λ h. ok (bit_xor (bit_xor (to_uint32 code) (p.string_hash msg)) h)

    pub hash_elements : Items → ℕ → Outcome ℕ
    hash_elements nil acc = ok acc
    hash_elements (cons v xs) acc = hash v >>= λ h. hash_elements xs (bit_xor acc h)

    pub hash_entries : Fields → ℕ → Outcome ℕ
    hash_entries end acc = ok acc
    hash_entries (field k v fs) acc =
        hash v >>= λ h. hash_entries fs (bit_xor (bit_xor acc (data_hash k)) h)

  -- rpc_cmp: the difference of the two hashes cut to an int.
  unfoldable pub cmp : Object → Object → Outcome ℤ
  unfolding ◌-ℤ◌
  cmp o1 o2 = hash o1 >>= λ h1. hash o2 >>= λ h2.
      let d = to_int32 h1 -ℤ to_int32 h2 in if is_int32 d then ok d else fault overflow

  unfoldable pub cmp_ptr : Option Object → Option Object → Outcome ℤ
  cmp_ptr (some a) (some b) = cmp a b
  cmp_ptr _ _ = fault bad_access
