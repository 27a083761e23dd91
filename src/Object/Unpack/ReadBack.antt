-- ===== src/Object/Unpack/ReadBack.antt =====
-- src/rpc_object.c: rpc_object_vunpack of an array that rpc_object_vpack made, by the same format.
use librpc.Base.Int.{pos}
use librpc.Object.Value.{c_string}
use mathlib.Core.List.{append-nil, append_assoc}
use librpc.Base.{
  ltb, ◌-◌, lt→ltb, ◌*◌, Option, length-append, Bool, true, false, All, refl, if◌then◌else◌, ◌==◌,
  length, inr, inl, ◌^◌, ◌%◌, ◌+◌, none, ok, ◌++◌, [], some, get_elem?, ◌∷◌, List, Bytes, ◌⊎◌, ℕ,
  suc, zero, ◌≡◌, sym, ◌∙◌, ◌<◌, ◌≤◌, arith, map,
}
use librpc.Object.Types.{elements-items, items, array, elements, Items, Object}
use librpc.Object.Unpack.{
  position, pos, length_out, bytes_out, c_string, string_out, fd_out, double_out, uint64_out,
  int64_out, bool_out, object_out, Target, pointer, Written, Outputs, Layer, goes_on, Left,
  unpack_round, unpack_loop, vunpack, fresh_layer,
}
use librpc.Object.Pack.Shapes.{
  string_leaf, fd_leaf, double_leaf, uint64_leaf, int64_leaf, bool_leaf, null_leaf, data_leaf,
  value_leaf, date_leaf, Leaf, Shapes, stop, then_shape, leaf, list, letter, leaf_object, print,
  print_shapes, args_of, meaning, shapes_list,
}
use librpc.Object.Pack.{vpack}
use librpc.Object.Pack.RoundTrip.{vpack-print, PlainShapes}

-- The letters that both functions know.
abbrev pub KnownLetter : Leaf → Type 0
KnownLetter null_leaf = ⊥
KnownLetter (date_leaf t) = ⊥
KnownLetter l = Unit {0}

abbrev pub pointers_of : Leaf → List Target → List Target
pointers_of (data_leaf b) r = pointer ∷ pointer ∷ r
pointers_of l r = pointer ∷ r

-- What the pointers of a letter get.
abbrev pub outs_of : Leaf → List Written
outs_of (value_leaf o) = object_out o ∷ []
outs_of (bool_leaf b) = bool_out b ∷ []
outs_of (int64_leaf i) = int64_out i ∷ []
outs_of (uint64_leaf n) = uint64_out n ∷ []
outs_of (double_leaf d) = double_out d ∷ []
outs_of (fd_leaf n) = fd_out n ∷ []
outs_of (string_leaf s) = string_out (some (c_string s)) ∷ []
outs_of (data_leaf b) = bytes_out (some b) ∷ length_out (length b) ∷ []
outs_of l = []

abbrev pub shapes_of : List Leaf → Shapes
shapes_of [] = stop
shapes_of (l ∷ ls) = then_shape (leaf l) (shapes_of ls)

abbrev pub all_pointers : List Leaf → List Target
all_pointers [] = []
all_pointers (l ∷ ls) = pointers_of l (all_pointers ls)

abbrev pub all_outs : List Leaf → List Written
all_outs [] = []
all_outs (l ∷ ls) = outs_of l ++ all_outs ls

abbrev within : Items → Object → ℕ → Layer
within xs v i = record { array = some (array xs); dictionary = none; current = some v; idx = i }

abbrev outputs : List Target → List Written → ℕ → Outputs
outputs targets outs n = record { targets = targets; outs = outs; count = n }

-- What follows a letter: a comma and more, or the bracket at the end.
abbrev Follows : ℕ → Type 0
Follows t = (t ≡ b',') ⊎ (t ≡ b']')

abbrev behind : ℕ → Bytes → Bytes
behind t rest = if t == b',' then rest else t ∷ rest

abbrev at_of : ℕ → ℕ → ℕ
at_of c t = if t == b',' then t else c

position_lem : (total : ℕ) → total < 2 ^ 31 → (n : ℕ) → position total n ≡ ok (total - n)
unfolding position
position_lem total small n =
    let low : ltb (total - n) (2 ^ 31) ≡ true = lt→ltb (total - n) (2 ^ 31) (omega arith) in rw low

module _ (total : ℕ) (small : total < 2 ^ 31) (inner : Object → Bytes → Outputs → Left) where
  round_lem :
      (l : Leaf) (xs : Items) (c : Object) (i n prev t : ℕ) (rest : Bytes) (targets : List Target)
      (outs : List Written)
      → KnownLetter l
      → Follows t
      → get_elem? (elements xs) i ≡ some (leaf_object l)
      → unpack_round inner total
          (within xs c i)
          prev
          (letter l)
          (t ∷ rest)
          (outputs (pointers_of l targets) outs n)
        ≡ ok (
            goes_on
              (within xs (leaf_object l) ((i + 1) % 2 ^ 64))
              (outputs targets (outs ++ outs_of l) (n + 1))
              (at_of (letter l) t)
              (behind t rest))
  unfolding unpack_round
  round_lem null_leaf xs c i n prev t rest targets outs k f g = absurd k
  round_lem (date_leaf d) xs c i n prev t rest targets outs k f g = absurd k
  round_lem (data_leaf b) xs c i n prev t rest targets outs k (inl f) g =
      rw (f, g, position_lem total small) (rw append_assoc)
  round_lem (data_leaf b) xs c i n prev t rest targets outs k (inr f) g =
      rw (f, g, position_lem total small) (rw append_assoc)
  round_lem l xs c i n prev t rest targets outs k (inl f) g = rw (f, g, position_lem total small)
  round_lem l xs c i n prev t rest targets outs k (inr f) g = rw (f, g, position_lem total small)

size_lem :
    (comma : Bool) (ls : List Leaf) (rest : Bytes)
    → length ls + length rest ≤ length (print_shapes comma (shapes_of ls) rest)
size_lem comma [] rest = omega arith
size_lem true (l ∷ ls) rest = let more = size_lem true ls rest in omega arith
size_lem false (l ∷ ls) rest = let more = size_lem true ls rest in omega arith

elem_lem :
    (done : List Object) (l : Leaf) (r : List Object)
    → get_elem? (done ++ leaf_object l ∷ r) (length done) ≡ some (leaf_object l)
elem_lem [] l r = refl
elem_lem (x ∷ done) l r = elem_lem done l r

element_at :
    (xs : Items) (done : List Object) (l : Leaf) (r : List Object) (i : ℕ)
    → elements xs ≡ done ++ leaf_object l ∷ r
    → i ≡ length done
    → get_elem? (elements xs) i ≡ some (leaf_object l)
element_at xs done l r i e p = rw (e, p) (elem_lem done l r)

next_idx :
    (done : List Object) (l : Leaf) (i : ℕ)
    → i ≡ length done
    → i + 1 < 2 ^ 64
    → ((i + 1) % 2 ^ 64 ≡ length (done ++ leaf_object l ∷ [])) × ((i + 1) % 2 ^ 64 ≡ i + 1)
next_idx done l i p b =
    let q = length-append done (leaf_object l ∷ []) in (omega arith, omega arith)

loop_lem :
    (total : ℕ) (small : total < 2 ^ 31) (ls : List Leaf) (done : List Object) (xs : Items)
    (c : Object) (i fuel n prev : ℕ) (outs : List Written)
    → All KnownLetter ls
    → elements xs ≡ done ++ map leaf_object ls
    → i ≡ length done
    → i + length ls < 2 ^ 64
    → length ls < fuel
    → unpack_loop fuel total
        (within xs c i)
        (outputs (all_pointers ls) outs n)
        prev
        (print_shapes false (shapes_of ls) (b']' ∷ []))
      ≡ ok (some (b']' ∷ [], outputs [] (outs ++ all_outs ls) (n + length ls)))
unfolding unpack_loop
loop_lem total small ls done xs c i zero n prev outs k e p b f = elim f [ ]
loop_lem total small [] done xs c i (suc fuel) n prev outs k e p b f =
    let size : n + 0 ≡ n = omega arith in rw (position_lem total small, append-nil, size)
loop_lem total small (l ∷ []) done xs c i (suc fuel) n prev outs k e p b f =
    let next = next_idx done l i p (omega arith) in
    rw
      (
        position_lem total small,
        round_lem total small
            (λ current format q. unpack_loop fuel total (fresh_layer current) q 0 format) l xs c i n
            prev b']' [] [] outs k.0 (inr refl) (element_at xs done l [] i e p),
        loop_lem total small [] (done ++ leaf_object l ∷ []) xs (leaf_object l) ((i + 1) % 2 ^ 64)
            fuel (n + 1) (letter l) (outs ++ outs_of l) k.1 (e ∙ sym (append_assoc done _ _)) next.0
            (omega arith) (omega arith),
      )
      (let size : n + 1 + 0 ≡ n + 1 = omega arith in rw (append_assoc, size))
loop_lem total small (l ∷ l' ∷ ls) done xs c i (suc fuel) n prev outs k e p b f =
    let next = next_idx done l i p (omega arith) in
    let r = l' ∷ ls in
    rw
      (
        position_lem total small,
        round_lem total small
            (λ current format q. unpack_loop fuel total (fresh_layer current) q 0 format) l xs c i n
            prev b',' (print_shapes false (shapes_of r) (b']' ∷ [])) (all_pointers r) outs k.0
            (inl refl) (element_at xs done l (map leaf_object r) i e p),
        loop_lem total small r (done ++ leaf_object l ∷ []) xs (leaf_object l) ((i + 1) % 2 ^ 64)
            fuel (n + 1) b',' (outs ++ outs_of l) k.1 (e ∙ sym (append_assoc done _ _)) next.0
            (omega arith) (omega arith),
      )
      (let size : n + 1 + length r ≡ n + length (l ∷ r) = omega arith in rw (append_assoc, size))

plain_lem : (ls : List Leaf) → PlainShapes (shapes_of ls)
plain_lem [] = tt
plain_lem (l ∷ ls) = (tt, plain_lem ls)

shapes_list_lem :
    (before : List Object) (ls : List Leaf)
    → shapes_list before (shapes_of ls) ≡ before ++ map leaf_object ls
shapes_list_lem before [] = rw append-nil
shapes_list_lem before (l ∷ ls) =
    shapes_list_lem (before ++ leaf_object l ∷ []) ls ∙ append_assoc before _ _

-- The format of an array of letters, in front of nothing.
abbrev pub array_format : List Leaf → Bytes
array_format ls = print (list (shapes_of ls)) []

unpack_lem :
    (ls : List Leaf) (xs : Items)
    → All KnownLetter ls
    → length (array_format ls) < 2 ^ 31
    → elements xs ≡ map leaf_object ls
    → vunpack (some (array xs)) (array_format ls) (all_pointers ls)
      ≡ ok (pos (length ls), all_outs ls)
unfolding vunpack unpack_loop unpack_round
unpack_lem ls xs k b e =
    let size = size_lem false ls (b']' ∷ []) in
    let count : 0 + length ls ≡ length ls = omega arith in
    rw (
      position_lem (length (array_format ls)) b,
      loop_lem (length (array_format ls)) b ls [] xs (array xs) 0 (2 * length (array_format ls)) 0
          b'[' [] k e refl (omega arith) (omega arith),
      lt→ltb 1 (length (array_format ls)) (omega arith),
      count,
    )

-- What rpc_object_vpack packs by a format, an array of letters that rpc_object_vunpack knows too, is read back
-- by rpc_object_vunpack by the same format: every pointer gets the value that was packed, a string up
-- to its first NUL byte, and the result is the number of letters. The format is shorter than 2^31.
pub vunpack-vpack :
    (rpct_new : Bytes → Option Object → Option Object) (ls : List Leaf)
    → All KnownLetter ls
    → length (array_format ls) < 2 ^ 31
    → (o : Object) × (vpack rpct_new (array_format ls) (args_of (list (shapes_of ls)) [])
        ≡ ok (some o))
      × (vunpack (some o) (array_format ls) (all_pointers ls) ≡ ok (pos (length ls), all_outs ls))
vunpack-vpack rpct_new ls k b =
    let s = list (shapes_of ls) in
    (
      meaning s,
      vpack-print rpct_new s (plain_lem ls),
      unpack_lem ls (items (shapes_list [] (shapes_of ls))) k b
          (elements-items _ ∙ shapes_list_lem [] ls),
    )
