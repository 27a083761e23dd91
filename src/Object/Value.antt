-- ===== src/Object/Value.antt =====
-- src/rpc_object.c: the getters of scalar objects, each with the value that it returns on an object
-- of another type, and the constructors that check their argument.
use librpc.Base.{
  refl, arith, take_all, ◌≡◌, ℕ, ◌-◌, Bool, false, Option, none, some, List, [], ◌∷◌, ◌++◌, Bytes,
  ltb, ◌==◌, if◌then◌else◌, length, take, drop, min, ◌||◌,
}
use librpc.Base.Int.{ℤ, pos, negsuc}
use librpc.Object.Types.{Object, null, bool, uint64, int64, double, date, string, binary, fd, error}

unfoldable pub bool_get_value : Object → Bool
bool_get_value (bool b) = b
bool_get_value _ = false

unfoldable pub int64_get_value : Object → ℤ
int64_get_value (int64 i) = i
int64_get_value _ = negsuc 0

unfoldable pub uint64_get_value : Object → ℕ
uint64_get_value (uint64 n) = n
uint64_get_value _ = 0

-- The bit pattern 0 is 0.0.
unfoldable pub double_get_value : Object → ℕ
double_get_value (double d) = d
double_get_value _ = 0

unfoldable pub date_get_value : Object → ℤ
date_get_value (date t) = t
date_get_value _ = pos 0

unfoldable pub data_get_length : Object → ℕ
data_get_length (binary b) = length b
data_get_length _ = 0

-- `none` is a NULL pointer.
unfoldable pub data_get_bytes_ptr : Object → Option Bytes
data_get_bytes_ptr (binary b) = some b
data_get_bytes_ptr _ = none

-- The bytes that are copied to the buffer; their number is what the function returns.
unfoldable pub data_get_bytes : Object → ℕ → ℕ → Bytes
data_get_bytes (binary b) off len =
    if ltb (length b) off then [] else take (min len (length b - off)) (drop off b)
data_get_bytes _ off len = []

unfoldable pub string_get_length : Object → ℕ
string_get_length (string s) = length s
string_get_length _ = 0

unfoldable pub string_get_string_ptr : Object → Option Bytes
string_get_string_ptr (string s) = some s
string_get_string_ptr _ = none

unfoldable pub fd_get_value : Object → ℤ
fd_get_value (fd n) = n
fd_get_value _ = negsuc 0

-- The bytes of a buffer up to its first NUL: what a `const char *` stands for.
unfoldable pub c_string : Bytes → Bytes
c_string [] = []
c_string (c ∷ cs) = let rest = c ∷ c_string cs in if c == 0 then [] else rest

-- rpc_string_create: a NULL pointer gives the null object.
unfoldable pub string_create : Option Bytes → Object
unfolding c_string
string_create none = null
string_create (some s) = string (c_string s)

-- memchr(string, '\0', length) != NULL
unfoldable pub has_nul : Bytes → Bool
has_nul [] = false
has_nul (c ∷ cs) = (c == 0) || has_nul cs

-- rpc_string_create_len: a buffer with a NUL in it gives the null object.
unfoldable pub string_create_len : Bytes → ℕ → Object
unfolding has_nul
string_create_len buffer len = let s = take len buffer in if has_nul s then null else string s

-- rpc_data_create_iov: the buffers of an I/O vector are copied one behind the other.
unfoldable pub gather : List Bytes → Bytes
gather [] = []
gather (b ∷ bs) = b ++ gather bs

unfoldable pub data_create_iov : Option (List Bytes) → Object
unfolding gather
data_create_iov none = binary []
data_create_iov (some iov) = binary (gather iov)

-- rpc_error_create: the stack is the backtrace, which the platform gives.
unfoldable pub error_create : Option Bytes → ℤ → Bytes → Option Object → Object
unfolding string_create
error_create backtrace code msg none = error code msg null (string_create backtrace)
error_create backtrace code msg (some extra) = error code msg extra (string_create backtrace)

unfoldable pub error_create_with_stack : ℤ → Bytes → Option Object → Object → Object
error_create_with_stack code msg none stack = error code msg null stack
error_create_with_stack code msg (some extra) stack = error code msg extra stack

unfoldable pub error_get_code : Option Object → ℤ
error_get_code (some (error code msg extra stack)) = code
error_get_code _ = negsuc 0

unfoldable pub error_get_message : Option Object → Option Bytes
error_get_message (some (error code msg extra stack)) = some msg
error_get_message _ = none

unfoldable pub error_get_extra : Option Object → Option Object
error_get_extra (some (error code msg extra stack)) = some extra
error_get_extra _ = none

unfoldable pub error_get_stack : Option Object → Option Object
error_get_stack (some (error code msg extra stack)) = some stack
error_get_stack _ = none

-- rpc_error_set_extra
unfoldable pub error_set_extra : Object → Object → Object
error_set_extra (error code msg extra stack) extra' = error code msg extra' stack
error_set_extra o extra' = o

pub c_string_lem : (s : Bytes) → has_nul s ≡ false → c_string s ≡ s
unfolding c_string has_nul
c_string_lem [] h = refl
c_string_lem (c ∷ cs) h = ground (arith, h, c_string_lem cs)

pub string_create_len_lem :
    (s : Bytes) → has_nul s ≡ false → string_create_len s (length s) ≡ string s
unfolding string_create_len
string_create_len_lem s h = rw (take_all (length s) s (omega arith), h)
