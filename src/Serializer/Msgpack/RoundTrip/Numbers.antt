-- ===== src/Serializer/Msgpack/RoundTrip/Numbers.antt =====
-- src/serializer/msgpack.c: the integers that are read as they were written.
use librpc.Serializer.Msgpack.{uint_node, int_node}
use librpc.Base.Int.{negsuc, to_int32, to_uint32, pos, ltb_ℤ, to_uint64, InInt64, is_int32, ℤ}
use librpc.Base.{
  ◌≤◌, inr, inl, ◌-◌, ◌%◌, ◌/◌, ◌*◌, arith, ◌⊎◌, true, some, ◌^◌, ◌<◌, ℕ, suc, zero, ◌≡◌,
}
use librpc.Serializer.Msgpack.Write.{be_bytes, le_bytes, int64_bytes, uint64_bytes}
use librpc.Serializer.Msgpack.Read.{read_le}
use librpc.Serializer.Msgpack.Format.{be_value, integer_node}

be_value_4 : (w : ℕ) → w < 2 ^ 32 → be_value 0 (be_bytes 4 w) ≡ w
unfolding be_value be_bytes
be_value_4 w h = omega arith

be_value_8 : (w : ℕ) → w < 2 ^ 64 → be_value 0 (be_bytes 8 w) ≡ w
unfolding be_value be_bytes
be_value_8 w h = omega arith

read_le_lem : (n w : ℕ) → w < 256 ^ n → read_le n (le_bytes n w) ≡ some w
unfolding read_le le_bytes
read_le_lem zero w h = ground arith
read_le_lem (suc n) w h =
    let e : 256 ^ suc n ≡ 256 ^ n * 256 = omega arith in
    rw (read_le_lem n (w / 256) (omega (arith, h, e))) (ground arith)

-- The values that keep their value: those of 32 bits, and those above 2^32.
abbrev pub ExactInt64 : ℤ → Type 0
ExactInt64 i = (is_int32 i ≡ true) ⊎ ((ltb_ℤ (pos (2 ^ 32)) i ≡ true) × InInt64 i)

abbrev pub ExactUint64 : ℕ → Type 0
ExactUint64 n = (n < 2 ^ 32) ⊎ ((2 ^ 32 < n) × (n < 2 ^ 64))

pub int64_lem : (i : ℤ) → ExactInt64 i → integer_node (int64_bytes i) ≡ int_node i
unfolding integer_node int64_bytes
int64_lem (pos n) (inl h) = ground (arith, h, be_value_4 n)
int64_lem (negsuc n) (inl h) = ground (arith, h, be_value_4 ((2 ^ 64 - suc n) % 2 ^ 32))
int64_lem (pos n) (inr (a, b)) = ground (arith, a, b, be_value_8 n)
int64_lem (negsuc n) (inr (a, b)) = cc

pub uint64_lem : (n : ℕ) → ExactUint64 n → integer_node (uint64_bytes n) ≡ uint_node n
unfolding integer_node uint64_bytes
uint64_lem n (inl h) = ground (arith, h, be_value_4 n)
uint64_lem n (inr (a, b)) = ground (arith, a, b, be_value_8 n)

pub read_int64 : (i : ℤ) → InInt64 i → read_le 8 (le_bytes 8 (to_uint64 i)) ≡ some (to_uint64 i)
read_int64 (pos n) h = read_le_lem 8 n (omega (arith, h))
read_int64 (negsuc n) h = read_le_lem 8 (2 ^ 64 - suc n) (omega (arith, h))

pub read_int32 :
    (i : ℤ) → is_int32 i ≡ true → read_le 4 (le_bytes 4 (to_uint32 i)) ≡ some (to_uint32 i)
read_int32 (pos n) h = read_le_lem 4 (n % 2 ^ 32) (omega arith)
read_int32 (negsuc n) h = read_le_lem 4 (2 ^ 32 - 1 - n % 2 ^ 32) (omega arith)

pub to_int32-to_uint32 : (i : ℤ) → is_int32 i ≡ true → to_int32 (to_uint32 i) ≡ i
to_int32-to_uint32 (pos n) h = ground (arith, h)
to_int32-to_uint32 (negsuc n) h = ground (arith, h)

-- From 2^31 up to 2^32 the low 32 bits are those of a negative number.
pub wide_int64 :
    (n : ℕ)
    → 2 ^ 31 ≤ n
    → n < 2 ^ 32
    → integer_node (int64_bytes (pos n)) ≡ int_node (negsuc (2 ^ 32 - n - 1))
unfolding integer_node int64_bytes
wide_int64 n l h = ground (arith, l, h, be_value_4 n)
