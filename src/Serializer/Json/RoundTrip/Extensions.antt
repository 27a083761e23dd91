-- ===== src/Serializer/Json/RoundTrip/Extensions.antt =====
-- src/serializer/json.c: rpc_json_try_unpack_ext on what rpc_json_write_object_ext wrote.
use librpc.Base.Int.{negsuc, pos, to_uint64-to_int64, to_uint64, to_int32, to_int64, ℤ, is_int32}
use librpc.Serializer.Json.Write.{double_text}
use librpc.Object.Value.{has_nul}
use librpc.Base.{
  inl, ap₂, codes, ℕ, inr, none, ◌||◌, ◌⊎◌, ◌^◌, true, false, Bool, ◌<◌, some, bytes_eq, ◌≡◌, refl,
  ap, arith, Bytes, ok,
}
use librpc.Serializer.Json.{
  exttype_shmem, not_a_number, exttype_error, minus_infinity, exttype_double, infinity, exttype_fd,
  exttype_date, exttype_binary, exttype_uint64, Yajl,
}
use librpc.Serializer.Json.Parse.{read_double, read_error, read_shmem, unpacked}
use librpc.Object.Types.{
  int64, binary, shmem, error, double, end, fd, string, dictionary, field, uint64, Object, Fields,
}

unfoldable pub is_exttype : Bytes → Bool
unfolding bytes_eq
is_exttype k =
    bytes_eq k exttype_uint64
    || bytes_eq k exttype_binary
    || bytes_eq k exttype_date
    || bytes_eq k exttype_fd
    || bytes_eq k exttype_double
    || bytes_eq k exttype_error
    || bytes_eq k exttype_shmem

-- A dictionary of one entry whose key is that of an extension is read as the extension.
abbrev pub NotExtension : Fields → Type 0
NotExtension (field k v end) = is_exttype k ≡ false
NotExtension _ = Unit {0}

int32_lem : (i : ℤ) → is_int32 i ≡ true → to_int32 (to_uint64 i) ≡ i
int32_lem (pos n) h = ground (arith, h)
int32_lem (negsuc n) h = ground (arith, h)

-- GLib's base64 reads back what it writes, which holds no NUL.
pub record Base64 (y : Yajl) : Type 0 where
  pub decodes : (b : Bytes) → y.base64_decode (y.base64_encode b) ≡ b
  pub texts : (b : Bytes) → has_nul (y.base64_encode b) ≡ false

abbrev pub error_fields : ℤ → Bytes → Object → Object → Fields
error_fields code msg extra stack = field (codes "code") (int64 code) (
    field (codes "msg") (string msg)
      (field (codes "extra") extra (field (codes "stack") stack end)))

abbrev pub shmem_fields : ℤ → ℤ → ℤ → Fields
shmem_fields offset size handle =
    field (codes "addr") (int64 offset)
      (field (codes "len") (int64 size) (field (codes "fd") (int64 handle) end))

module _ (y : Yajl) (b64 : Base64 y) where
  pub unpacked_uint64 :
      (n : ℕ)
      → n < 2 ^ 64
      → unpacked y (dictionary (field exttype_uint64 (int64 (to_int64 n)) end))
        ≡ ok (some (uint64 n))
  unfolding unpacked bytes_eq
  unpacked_uint64 n h = ap (λ (m : ℕ). ok (some (uint64 m))) (to_uint64-to_int64 n h)

  pub unpacked_binary :
      (b : Bytes)
      → unpacked y (dictionary (field exttype_binary (string (y.base64_encode b)) end))
        ≡ ok (some (binary b))
  unfolding unpacked bytes_eq
  unpacked_binary b = ap (λ (d : Bytes). ok (some (binary d))) (b64.decodes b)

  pub unpacked_fd :
      (i : ℤ)
      → is_int32 i ≡ true
      → unpacked y (dictionary (field exttype_fd (int64 i) end)) ≡ ok (some (fd i))
  unfolding unpacked bytes_eq
  unpacked_fd i h = ap (λ (j : ℤ). ok (some (fd j))) (int32_lem i h)

  pub unpacked_double :
      (d : ℕ)
      → (d ≡ infinity) ⊎ ((d ≡ minus_infinity) ⊎ (d ≡ not_a_number))
      → unpacked y (dictionary (field exttype_double (string (double_text d)) end))
        ≡ ok (some (double d))
  unfolding unpacked bytes_eq double_text read_double
  unpacked_double d (inl h) = rw h
  unpacked_double d (inr (inl h)) = rw h
  unpacked_double d (inr (inr h)) = rw h

  pub unpacked_error :
      (code : ℤ) (msg : Bytes) (extra stack : Object)
      → is_int32 code ≡ true
      → unpacked y
          (dictionary (field exttype_error (dictionary (error_fields code msg extra stack)) end))
        ≡ ok (some (error code msg extra stack))
  unfolding unpacked bytes_eq read_error
  unpacked_error code msg extra stack h =
      ap (λ (j : ℤ). ok (some (error j msg extra stack))) (int32_lem code h)

  pub unpacked_shmem :
      (handle offset : ℤ) (size : ℕ)
      → is_int32 handle ≡ true
      → size < 2 ^ 64
      → unpacked y (
          dictionary
            (field exttype_shmem (dictionary (shmem_fields offset (to_int64 size) handle)) end))
        ≡ ok (some (shmem handle offset size))
  unfolding unpacked bytes_eq read_shmem
  unpacked_shmem handle offset size h s =
      ap₂ (λ (j : ℤ) (m : ℕ). ok (some (shmem j offset m))) (int32_lem handle h)
        (to_uint64-to_int64 size s)

  -- A dictionary that is not that of an extension stays.
  pub unpacked_stays : (fs : Fields) → NotExtension fs → unpacked y (dictionary fs) ≡ ok none
  unfolding unpacked is_exttype
  unpacked_stays end h = refl
  unpacked_stays (field k v end) h = ground (arith, h)
  unpacked_stays (field k v (field k' v' fs)) h = ground arith
