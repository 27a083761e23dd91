-- ===== src/Object/Array/Writes.antt =====
-- src/rpc_object.c: what the writes to an array leave at each index.
use librpc.Base.{
  ◌%◌, ◌+◌, refl, ap, get_elem?-lt, set_same, ℕ, suc, ◌-◌, ◌^◌, ◌<◌, ◌≡◌, ◌∙◌, inl, inr, max,
  Bool-cases, ==_iff, get_elem?-snoc, Option, none, some, List, [], ◌∷◌, ◌++◌, Outcome, ok, arith,
  ltb, ◌==◌, if◌then◌else◌, length, get_elem?, set, replicate, length-append, length-set,
  length-replicate, get_elem?-append, get_elem?-set, get_elem?-replicate,
}
use mathlib.Core.List.{append-nil}
use librpc.Object.Types.{
  items-elements, Object, null, array, Items, elements, items, elements-items,
}
use librpc.Object.Array.{null_rounds, store_at, array_steal_value, array_get_value, array_get_count}

-- The difference of two size_t, read as an int64_t, is the gap or is negative.
null_rounds_lem :
    (index len : ℕ) → index < 2 ^ 63 → len < 2 ^ 32 → null_rounds index len ≡ index - len
unfolding null_rounds
null_rounds_lem index len h l = ground arith

-- An element of the array after a write of `v` at `index`.
abbrev pub written : List Object → ℕ → Object → ℕ → Option Object
written xs index v j =
    if j == index
    then some v
    else if ltb j (length xs)
    then get_elem? xs j
    else if ltb j index
    then some null
    else none

-- What a write leaves.
pub record Wrote (xs : List Object) (index : ℕ) (v : Object) (r : Outcome Object) : Type 0 where
  pub left : List Object
  pub returns : r ≡ ok (array (items left))
  pub count : array_get_count (array (items left)) ≡ max (length xs) (suc index)
  pub reads : (j : ℕ) → array_get_value (array (items left)) j ≡ written xs index v j

padded : List Object → ℕ → List Object
padded xs index = xs ++ replicate (index - length xs) null

length-padded : (xs : List Object) (index : ℕ) → length (padded xs index) ≡ max (length xs) index
unfolding padded
length-padded xs index = omega (
  arith,
  length-append xs (replicate (index - length xs) null),
  length-replicate (index - length xs) null,
)

get_elem?-padded :
    (xs : List Object) (index j : ℕ)
    → get_elem? (padded xs index) j
      ≡ (if ltb j (length xs) then get_elem? xs j else if ltb j index then some null else none)
unfolding padded
get_elem?-padded xs index j =
    get_elem?-append xs (replicate (index - length xs) null) j
    ∙ ground (arith, get_elem?-replicate (index - length xs) null (j - length xs))

store_lem :
    (xs : List Object) (index : ℕ) (v : Object)
    → index < 2 ^ 63
    → Wrote xs index v (store_at (padded xs index) index v)
unfolding store_at array_get_count array_get_value
store_lem xs index v h = elim (Bool-cases (index == length (padded xs index))) [
  | inl last ↦ record {
    left = padded xs index ++ v ∷ [];
    returns = ground (arith, last);
    count = rw elements-items (
        omega (
          arith,
          (==_iff index (length (padded xs index))).0 last,
          length-padded xs index,
          length-append (padded xs index) (v ∷ []),
        ));
    reads = λ j. rw elements-items (
        get_elem?-snoc (padded xs index) v j
        ∙ ground (arith, last, length-padded xs index, get_elem?-padded xs index j));
  }
  | inr inside ↦ record {
    left = set (padded xs index) index v;
    returns = ground (arith, inside, length-padded xs index);
    count =
        rw elements-items
          (ground (arith, inside, length-padded xs index, length-set (padded xs index) index v));
    reads = λ j. rw elements-items (
        get_elem?-set (padded xs index) index j v (ground (arith, inside, length-padded xs index))
        ∙ ground (arith, get_elem?-padded xs index j));
  }
]

pub steal_value-Wrote :
    (xs : Items) (index : ℕ) (v : Object)
    → index < 2 ^ 63
    → length (elements xs) < 2 ^ 32
    → Wrote (elements xs) index v (array_steal_value (array xs) index v)
unfolding array_steal_value
steal_value-Wrote xs index v h l =
    rw (null_rounds_lem index (length (elements xs)) h l)
      (unfold padded in store_lem (elements xs) index v h)

none_left : (i n : ℕ) → i < n → i - n ≡ 0
none_left i n h = omega arith

-- A write of the element that is there changes nothing.
pub steal_value_same :
    (xs : Items) (i : ℕ) {v : Object}
    → length (elements xs) < 2 ^ 32
    → get_elem? (elements xs) i ≡ some v
    → array_steal_value (array xs) i v ≡ ok (array xs)
unfolding array_steal_value store_at
steal_value_same xs i {v} l e =
    let room = get_elem?-lt (elements xs) i e in
    rw (null_rounds_lem i (length (elements xs)) (omega (arith, room, l)) l) (
      rw (none_left i (length (elements xs)) room)
        (rw append-nil (ground (arith, room, l, set_same (elements xs) i e, items-elements xs))))

set-snoc : (xs : List Object) (c o : Object) → set (xs ++ c ∷ []) (length xs) o ≡ xs ++ o ∷ []
set-snoc [] c o = refl
set-snoc (x ∷ xs) c o = ap (λ r. x ∷ r) (set-snoc xs c o)

-- A write of the last element.
pub steal_last :
    (xs : List Object) (c o : Object)
    → suc (length xs) < 2 ^ 32
    → array_steal_value (array (items (xs ++ c ∷ []))) (length xs) o
      ≡ ok (array (items (xs ++ o ∷ [])))
unfolding array_steal_value store_at
steal_last xs c o h =
    let n = length-append xs (c ∷ []) in
    rw (elements-items (xs ++ c ∷ [])) (
      rw
        (null_rounds_lem (length xs) (length (xs ++ c ∷ [])) (omega (arith, h))
          (omega (arith, h, n)))
        (rw (none_left (length xs) (length (xs ++ c ∷ [])) (omega (arith, n)))
          (rw append-nil (ground (arith, h, n, set-snoc xs c o)))))

-- A write behind the last element.
pub steal_append :
    (xs : List Object) (o : Object)
    → array_steal_value (array (items xs)) (length xs) o ≡ ok (array (items (xs ++ o ∷ [])))
unfolding array_steal_value null_rounds store_at
steal_append xs o =
    let gap : (length xs + 2 ^ 64 - length xs) % 2 ^ 64 ≡ 0 = omega arith in
    rw (elements-items xs, gap) (rw append-nil (ground arith))
