-- ===== src/Query/Path/Tokens.antt =====
-- Tokens of a path that rpc_query_get and rpc_query_set read alike.
use librpc.Base.{
  inr, inl, Bool-cases, ℕ, ◌^◌, ◌<◌, ◌≡◌, refl, ap, Bool, true, false, not, ◌&&◌, Option, none,
  some, List, [], ◌∷◌, arith, ltb, ◌==◌, Bytes, All,
}
use librpc.Base.Int.{to_int32, to_uint64}
use librpc.Query.Text.{
  push_front, number_at, unsigned_of, signed_of, strtoull, atoi, split, drop_empty,
}

-- A number has no minus and fits an int.
unfoldable pub is_index : Option (Bool × ℕ) → Bool
is_index none = true
is_index (some (minus, n)) = not minus && ltb n (2 ^ 31)

-- The token is not empty, and if it starts as a number, then as one in range.
unfoldable pub is_plain : Bytes → Bool
unfolding is_index
is_plain [] = false
is_plain (c ∷ t) = is_index (number_at (c ∷ t))

abbrev pub IsPlain : Bytes → Type 0
IsPlain t = is_plain t ≡ true

index_lem :
    (o : Option (Bool × ℕ)) (i : ℕ)
    → is_index o ≡ true
    → unsigned_of o ≡ some i
    → (i < 2 ^ 31) × (to_uint64 (to_int32 (to_uint64 (signed_of o))) ≡ i)
unfolding is_index unsigned_of signed_of
index_lem none i h e = cc
index_lem (some (true, n)) i h e = cc
index_lem (some (false, n)) i h e = (ground arith, ground arith)

-- atoi() and strtoull() read one index.
pub plain_index :
    (t : Bytes) (i : ℕ) → IsPlain t → strtoull t ≡ some i → (i < 2 ^ 31) × (to_uint64 (atoi t) ≡ i)
unfolding is_plain strtoull atoi
plain_index [] i h e = cc
plain_index (c ∷ t) i h e = index_lem (number_at (c ∷ t)) i h e

pub drop_empty-plain : (ts : List Bytes) → All IsPlain ts → drop_empty ts ≡ ts
unfolding drop_empty is_plain
drop_empty-plain [] h = refl
drop_empty-plain ([] ∷ ts) h = cc (h.0)
drop_empty-plain ((c ∷ t) ∷ ts) h = ap (λ r. (c ∷ t) ∷ r) (drop_empty-plain ts h.1)

push_front-cons :
    (c : ℕ) (ts : List Bytes) → (t : Bytes) × (r : List Bytes) × (push_front c ts ≡ t ∷ r)
unfolding push_front
push_front-cons c [] = (c ∷ [], [], refl)
push_front-cons c (t ∷ ts) = (c ∷ t, ts, refl)

-- A path has a token.
pub split-cons : (s : Bytes) → (t : Bytes) × (ts : List Bytes) × (split s ≡ t ∷ ts)
unfolding split
split-cons [] = ([], [], refl)
split-cons (c ∷ cs) = elim (Bool-cases (c == b'.')) [
  | inl dot ↦ ([], split cs, rw dot)
  | inr other ↦ let (t, ts, e) = push_front-cons c (split cs) in (t, ts, rw other e)
]
