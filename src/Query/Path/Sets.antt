-- ===== src/Query/Path/Sets.antt =====
-- src/rpc_query.c: one step of the walk of rpc_query_set, and the containers that it creates.
use librpc.Base.{
  ℕ, ◌^◌, ◌<◌, ◌≡◌, refl, ap, subst, ◌∙◌, inl, inr, Option, none, some, List, [], ◌∷◌, arith, All,
  Bytes, Outcome, ok, length, bytes_eq_refl, Option-cases,
}
use librpc.Base.Int.{to_uint64}
use librpc.Object.Types.{
  Object, array, dictionary, Items, nil, Fields, end, elements, entries, items, fields,
  entries-fields,
}
use librpc.Object.Fits.{Fits}
use librpc.Object.Array.{array_get_value, array_steal_value, array_create}
use librpc.Object.Array.Writes.{Wrote, steal_value-Wrote}
use librpc.Object.Dictionary.{
  lookup, insert, dictionary_get_value, dictionary_steal_value, dictionary_create,
}
use librpc.Object.Dictionary.Laws.{lookup-insert}
use librpc.Query.Text.{strtoull, atoi}
use librpc.Query.Path.{
  child, get_step, get_loop, PathError, next, not_a_number, not_a_container, set_step, store_child,
  set_last, set_loop, or_new, new_container,
}
use librpc.Query.Path.Tokens.{IsPlain, plain_index}

-- A container that a value can be stored in at the token, and read from it again.
pub Holds : Object → Bytes → Type 0
Holds c t =
    (o : Object)
    → (c' : Object) × (store_child c t o ≡ ok c') × (get_step (some c') t ≡ child (some o))

pub dictionary-Holds : (fs : Fields) (t : Bytes) → Holds (dictionary fs) t
unfolding Holds store_child get_step dictionary_steal_value dictionary_get_value
dictionary-Holds fs t o = (
  dictionary (fields (insert t o (entries fs))),
  refl,
  (rw (entries-fields, lookup-insert, bytes_eq_refl)),
)

array_stored :
    (xs : Items) (t : Bytes) (i : ℕ) (o : Object)
    → strtoull t ≡ some i
    → to_uint64 (atoi t) ≡ i
    → Wrote (elements xs) i o (array_steal_value (array xs) i o)
    → (c' : Object) × (store_child (array xs) t o ≡ ok c') × (get_step (some c') t ≡ child (some o))
unfolding store_child get_step
array_stored xs t i o e same w = (
  array (items w.left),
  ground (arith, e, w.returns),
  (ap (λ (k : ℕ). child (array_get_value (array (items w.left)) k)) same
      ∙ ap child (w.reads i)
      ∙ ground arith),
)

pub array-Holds :
    (xs : Items) (t : Bytes) (i : ℕ)
    → IsPlain t
    → strtoull t ≡ some i
    → length (elements xs) < 2 ^ 32
    → Holds (array xs) t
unfolding Holds
array-Holds xs t i p e l o =
    let (small, same) = plain_index t i p e in
    array_stored xs t i o e same (steal_value-Wrote xs i o (omega arith) l)

get_loop-step :
    (c o : Option Object) (t : Bytes) (ts : List Bytes) (d : Option Object)
    → get_step c t ≡ child o
    → get_loop c (t ∷ ts) d ≡ get_loop o ts d
unfolding get_loop
get_loop-step c o t ts d e = ground (arith, e)

pub set_loop-step :
    (c : Object) (t u : Bytes) (rest : List Bytes) (v : Object) (temp : Option Object)
    {o' c' : Object} {e : Option PathError}
    → set_step c t ≡ next temp
    → set_loop (or_new temp u) (u ∷ rest) v ≡ ok (o', e)
    → store_child c t o' ≡ ok c'
    → set_loop c (t ∷ u ∷ rest) v ≡ ok (c', e)
unfolding set_loop
set_loop-step c t u rest v temp s q w = ground (arith, s, q, w)

-- A set that leaves the value at its path.
pub record Stores (ts : List Bytes) (v : Object) (r : Outcome (Object × Option PathError))
    : Type 0 where
  pub left : Object
  pub returns : r ≡ ok (left, none)
  pub reads : (d : Option Object) → get_loop (some left) ts d ≡ some v

-- How a set ends: so, or with an error and the object as it was.
pub data SetEnds (c : Object) (ts : List Bytes) (v : Object)
    (r : Outcome (Object × Option PathError)) : Type 0 where
  stored : Stores ts v r → SetEnds c ts v r
  untouched : (e : PathError) → r ≡ ok (c, some e) → SetEnds c ts v r

-- The walk goes on in the child `o`: the container that it leaves holds what the child's walk leaves.
pub set_through :
    (c : Object) (t u : Bytes) (rest : List Bytes) (v : Object) (temp : Option Object)
    → set_step c t ≡ next temp
    → Holds c t
    → Stores (u ∷ rest) v (set_loop (or_new temp u) (u ∷ rest) v)
    → Stores (t ∷ u ∷ rest) v (set_loop c (t ∷ u ∷ rest) v)
unfolding Holds
set_through c t u rest v temp s holds q =
    let (c', stores, reads) = holds q.left in
    record {
      left = c';
      returns = set_loop-step c t u rest v temp s q.returns stores;
      reads = λ d. get_loop-step (some c') (some q.left) t (u ∷ rest) d reads ∙ q.reads d;
    }

-- The switch behind the loop stores in a container that holds the value.
set_last_stored :
    (c : Object) (t : Bytes) (v : Object)
    → Holds c t
    → ((c' : Object) → store_child c t v ≡ ok c' → set_last c t v ≡ ok (c', none))
    → Stores (t ∷ []) v (set_last c t v)
unfolding Holds
set_last_stored c t v holds last =
    let (c', stores, reads) = holds v in
    record {
      left = c';
      returns = last c' stores;
      reads = λ d. get_loop-step (some c') (some v) t [] d reads ∙ (unfold get_loop in refl);
    }

pub set_last_lem :
    (c : Object) (t : Bytes) (v : Object)
    → IsPlain t
    → Fits c
    → SetEnds c (t ∷ []) v (set_last c t v)
unfolding set_last
set_last_lem (dictionary fs) t v p f =
    stored (set_last_stored (dictionary fs) t v (dictionary-Holds fs t) (λ c' s. ground (arith, s)))
set_last_lem (array xs) t v p f = elim (Option-cases (strtoull t)) [
  | inl bad ↦ untouched not_a_number (ground (arith, bad))
  | inr (i, e) ↦
      stored
        (set_last_stored (array xs) t v (array-Holds xs t i p e f.0) (λ c' s. ground (arith, e, s)))
]
set_last_lem c t v p f = untouched not_a_container refl

-- In a new container every token finds its place.
new_Holds : (u : Bytes) → IsPlain u → Holds (new_container u) u
unfolding new_container array_create dictionary_create
new_Holds u p = elim (Option-cases (strtoull u)) [
  | inl key ↦ subst (λ c. Holds c u) (ground (arith, key)) (dictionary-Holds end u)
  | inr (i, e) ↦ subst (λ c. Holds c u) (ground (arith, e)) (array-Holds nil u i p e (omega arith))
]

new_set_step : (u : Bytes) → set_step (new_container u) u ≡ next none
unfolding set_step new_container array_create dictionary_create dictionary_get_value array_get_value
    lookup
new_set_step u = elim (Option-cases (strtoull u)) [
  | inl key ↦ ground (arith, key)
  | inr (i, e) ↦ ground (arith, e)
]

new_set_last :
    (u : Bytes) (v c' : Object)
    → store_child (new_container u) u v ≡ ok c'
    → set_last (new_container u) u v ≡ ok (c', none)
unfolding set_last new_container
new_set_last u v c' s = elim (Option-cases (strtoull u)) [
  | inl key ↦ ground (arith, key, s)
  | inr (i, e) ↦ ground (arith, e, s)
]

-- Below a child that is missing the set creates all that it needs.
new_lem :
    (u : Bytes) (rest : List Bytes) (v : Object)
    → IsPlain u
    → All IsPlain rest
    → Stores (u ∷ rest) v (set_loop (new_container u) (u ∷ rest) v)
unfolding set_loop or_new
new_lem u [] v p ps = set_last_stored (new_container u) u v (new_Holds u p) (new_set_last u v)
new_lem u (w ∷ rest) v p ps =
    set_through (new_container u) u w rest v none (new_set_step u) (new_Holds u p)
      (new_lem w rest v ps.0 ps.1)

pub below_new :
    (u : Bytes) (rest : List Bytes) (v : Object)
    → IsPlain u
    → All IsPlain rest
    → Stores (u ∷ rest) v (set_loop (or_new none u) (u ∷ rest) v)
unfolding or_new
below_new u rest v p ps = new_lem u rest v p ps
