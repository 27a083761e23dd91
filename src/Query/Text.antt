-- ===== src/Query/Text.antt =====
-- The functions of the C library that src/rpc_query.c parses its paths with, on the bytes of a path.
use librpc.Base.{
  ℕ, ◌+◌, ◌-◌, ◌*◌, ◌%◌, ◌^◌, Bool, true, false, ◌&&◌, ◌||◌, Option, none, some, List, [], ◌∷◌, leb,
  ◌==◌, if◌then◌else◌, Bytes, min,
}
use librpc.Base.Int.{ℤ, pos, sub_ℕ, to_int32, to_uint64}

unfoldable pub push_front : ℕ → List Bytes → List Bytes
push_front c [] = (c ∷ []) ∷ []
push_front c (t ∷ ts) = (c ∷ t) ∷ ts

-- g_strsplit(path, ".", 0): a token for each place between two dots, also where it is empty.
unfoldable pub split : Bytes → List Bytes
unfolding push_front
split [] = [] ∷ []
split (c ∷ cs) = let rest = split cs in if c == b'.' then [] ∷ rest else push_front c rest

unfoldable pub drop_empty : List Bytes → List Bytes
drop_empty [] = []
drop_empty ([] ∷ ts) = drop_empty ts
drop_empty ((c ∷ t) ∷ ts) = (c ∷ t) ∷ drop_empty ts

-- The tokens that strtok(path, ".") yields, call by call: it steps over empty ones.
unfoldable pub strtok : Bytes → List Bytes
unfolding split drop_empty
strtok path = drop_empty (split path)

abbrev pub is_digit : ℕ → Bool
is_digit c = leb b'0' c && leb c b'9'

abbrev pub is_space : ℕ → Bool
is_space c = (c == 32) || (leb 9 c && leb c 13)

-- The value of the digits in front, after `acc`.
unfoldable pub digits_from : ℕ → Bytes → ℕ
digits_from acc [] = acc
digits_from acc (c ∷ cs) =
    let more = digits_from (acc * 10 + (c - b'0')) cs in if is_digit c then more else acc

-- `none` where no digit stands in front.
unfoldable pub digits_at : Bytes → Option ℕ
unfolding digits_from
digits_at [] = none
digits_at (c ∷ cs) = if is_digit c then some (digits_from (c - b'0') cs) else none

-- An optional sign and digits: whether the sign is a minus, and the digits' value.
unfoldable pub signed_at : Bytes → Option (Bool × ℕ)
unfolding digits_at
signed_at [] = none
signed_at (c ∷ cs) =
    if c == b'-'
    then elim (digits_at cs) [ none ↦ none | some n ↦ some (true, n) ]
    else if c == b'+'
    then elim (digits_at cs) [ none ↦ none | some n ↦ some (false, n) ]
    else elim (digits_at (c ∷ cs)) [ none ↦ none | some n ↦ some (false, n) ]

unfoldable pub skip_space : Bytes → Bytes
skip_space [] = []
skip_space (c ∷ cs) = let rest = skip_space cs in if is_space c then rest else c ∷ cs

unfoldable pub number_at : Bytes → Option (Bool × ℕ)
unfolding signed_at skip_space
number_at s = signed_at (skip_space s)

-- g_ascii_strtoull(s, &end, 10); `none` where it converts nothing (end == s). A value out of range
-- becomes the largest one, and a minus negates modulo 2^64.
unfoldable pub unsigned_of : Option (Bool × ℕ) → Option ℕ
unsigned_of none = none
unsigned_of (some (minus, n)) =
    some (if leb (2 ^ 64) n then 2 ^ 64 - 1 else if minus then (2 ^ 64 - n) % 2 ^ 64 else n)

unfoldable pub strtoull : Bytes → Option ℕ
unfolding number_at unsigned_of
strtoull s = unsigned_of (number_at s)

-- strtol(s, &end, 10) on a 64-bit long: 0 where it converts nothing, and the nearest bound where the
-- value is out of range.
unfoldable pub signed_of : Option (Bool × ℕ) → ℤ
signed_of none = pos 0
signed_of (some (minus, n)) = if minus then sub_ℕ 0 (min n (2 ^ 63)) else pos (min n (2 ^ 63 - 1))

unfoldable pub strtol : Bytes → ℤ
unfolding number_at signed_of
strtol s = signed_of (number_at s)

-- atoi(s) is (int)strtol(s, NULL, 10).
unfoldable pub atoi : Bytes → ℤ
unfolding strtol
atoi s = to_int32 (to_uint64 (strtol s))

-- g_strrstr(path, "."): what stands before the last dot, and behind it; `none` if there is no dot.
unfoldable pub split_last : Bytes → Option (Bytes × Bytes)
split_last [] = none
split_last (c ∷ cs) = elim (split_last cs) [
  | none ↦ if c == b'.' then some ([], cs) else none
  | some (before, after) ↦ some (c ∷ before, after)
]
