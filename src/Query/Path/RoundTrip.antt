-- ===== src/Query/Path/RoundTrip.antt =====
-- src/rpc_query.c: rpc_query_get after rpc_query_set, and what a refused rpc_query_set leaves.
use librpc.Base.{
  ℕ, ◌^◌, ◌<◌, ◌≡◌, refl, ap, sym, subst, ◌∙◌, inl, inr, ◌⊎◌, Option, none, some, List, [], ◌∷◌,
  arith, All, Bytes, ok, length, get_elem?, Option-cases,
}
use librpc.Object.Types.{
  Object, array, dictionary, Items, Fields, elements, entries, fields, fields-entries,
}
use librpc.Object.Fits.{Fits, Fits-get_elem?, Fits-lookup}
use librpc.Object.Array.{array_get_value}
use librpc.Object.Array.Writes.{steal_value_same}
use librpc.Object.Dictionary.{lookup, dictionary_get_value, dictionary_steal_value}
use librpc.Object.Dictionary.Laws.{insert_same}
use librpc.Query.Text.{split, strtok, strtoull}
use librpc.Query.Path.{
  get_loop, query_get, PathError, next, failed, not_a_number, unsupported_container, set_step,
  store_child, set_loop, query_set, or_new,
}
use librpc.Query.Path.Tokens.{split-cons, IsPlain, is_plain, drop_empty-plain}
use librpc.Query.Path.Sets.{
  Holds, dictionary-Holds, array-Holds, set_loop-step, set_through, set_last_lem, below_new,
  SetEnds, stored, untouched,
}

-- A child that its own walk left as it was is stored again, and changes nothing.
same_child :
    (c : Object) (t u : Bytes) (rest : List Bytes) (v o : Object) (e : PathError)
    → set_step c t ≡ next (some o)
    → store_child c t o ≡ ok c
    → set_loop o (u ∷ rest) v ≡ ok (o, some e)
    → set_loop c (t ∷ u ∷ rest) v ≡ ok (c, some e)
unfolding or_new
same_child c t u rest v o e s w q = set_loop-step c t u rest v (some o) s q w

set_below :
    (c : Object) (t u : Bytes) (rest : List Bytes) (v o : Object)
    → set_step c t ≡ next (some o)
    → Holds c t
    → store_child c t o ≡ ok c
    → SetEnds o (u ∷ rest) v (set_loop o (u ∷ rest) v)
    → SetEnds c (t ∷ u ∷ rest) v (set_loop c (t ∷ u ∷ rest) v)
unfolding or_new
set_below c t u rest v o s holds same (stored q) =
    stored (set_through c t u rest v (some o) s holds q)
set_below c t u rest v o s holds same (untouched e q) =
    untouched e (same_child c t u rest v o e s same q)

dictionary_step :
    (fs : Fields) (t : Bytes) → set_step (dictionary fs) t ≡ next (lookup t (entries fs))
unfolding set_step dictionary_get_value
dictionary_step fs t = refl

dictionary_same :
    (fs : Fields) (t : Bytes) {o : Object}
    → lookup t (entries fs) ≡ some o
    → store_child (dictionary fs) t o ≡ ok (dictionary fs)
unfolding store_child dictionary_steal_value
dictionary_same fs t e =
    ap (λ r. ok (dictionary r)) (ap fields (insert_same t (entries fs) e) ∙ fields-entries fs)

array_step :
    (xs : Items) (t : Bytes) {i : ℕ}
    → strtoull t ≡ some i
    → set_step (array xs) t ≡ next (get_elem? (elements xs) i)
unfolding set_step array_get_value
array_step xs t e = ground (arith, e)

array_same :
    (xs : Items) (t : Bytes) (i : ℕ) (o : Object)
    → length (elements xs) < 2 ^ 32
    → strtoull t ≡ some i
    → get_elem? (elements xs) i ≡ some o
    → store_child (array xs) t o ≡ ok (array xs)
unfolding store_child
array_same xs t i o l e g = ground (arith, e, steal_value_same xs i {v = o} l g)

refused_step :
    (c : Object) (t u : Bytes) (rest : List Bytes) (v : Object) (e : PathError)
    → set_step c t ≡ failed e
    → set_loop c (t ∷ u ∷ rest) v ≡ ok (c, some e)
unfolding set_loop
refused_step c t u rest v e s = ground (arith, s)

set_loop_lem :
    (c : Object) (t : Bytes) (ts : List Bytes) (v : Object)
    → Fits c
    → IsPlain t
    → All IsPlain ts
    → SetEnds c (t ∷ ts) v (set_loop c (t ∷ ts) v)
set_loop_lem c t [] v f p ps = unfold set_loop in set_last_lem c t v p f
set_loop_lem (dictionary fs) t (u ∷ rest) v f p ps = elim (Option-cases (lookup t (entries fs))) [
  | inl e ↦ stored (
      set_through (dictionary fs) t u rest v none (dictionary_step fs t ∙ ap next e)
        (dictionary-Holds fs t) (below_new u rest v ps.0 ps.1))
  | inr (o, e) ↦
      set_below (dictionary fs) t u rest v o (dictionary_step fs t ∙ ap next e)
        (dictionary-Holds fs t) (dictionary_same fs t e)
        (set_loop_lem o u rest v (Fits-lookup t fs f e) ps.0 ps.1)
]
set_loop_lem (array xs) t (u ∷ rest) v f p ps = elim (Option-cases (strtoull t)) [
  | inl bad ↦
      untouched not_a_number
        (refused_step (array xs) t u rest v not_a_number (unfold set_step in ground (arith, bad)))
  | inr (i, n) ↦ elim (Option-cases (get_elem? (elements xs) i)) [
    | inl e ↦ stored (
        set_through (array xs) t u rest v none (array_step xs t n ∙ ap next e)
          (array-Holds xs t i p n f.0) (below_new u rest v ps.0 ps.1))
    | inr (o, e) ↦
        set_below (array xs) t u rest v o (array_step xs t n ∙ ap next e)
          (array-Holds xs t i p n f.0) (array_same xs t i o f.0 n e)
          (set_loop_lem o u rest v (Fits-get_elem? xs i f.1 e) ps.0 ps.1)
  ]
]
set_loop_lem c t (u ∷ rest) v f p ps =
    untouched unsupported_container
      (refused_step c t u rest v unsupported_container (unfold set_step in refl))

not-IsPlain : ¬ (All IsPlain (split []))
unfolding is_plain split
not-IsPlain h = cc (h.0)

query_set_ends :
    (o : Object) (c : ℕ) (path : Bytes) (v : Object)
    → Fits o
    → All IsPlain (split (c ∷ path))
    → SetEnds o (split (c ∷ path)) v (query_set (some o) (c ∷ path) (some v))
unfolding query_set
query_set_ends o c path v f p =
    let (t, ts, e) = split-cons (c ∷ path) in
    let q : All IsPlain (t ∷ ts) = subst (All IsPlain) e p in
    subst (λ k. SetEnds o k v (set_loop o k v)) (sym e) (set_loop_lem o t ts v f q.0 q.1)

query_get-split :
    (o : Object) (path : Bytes) (d : Option Object)
    → All IsPlain (split path)
    → query_get (some o) (some path) d ≡ get_loop (some o) (split path) d
unfolding query_get strtok
query_get-split o path d p = ap (λ ts. get_loop (some o) ts d) (drop_empty-plain (split path) p)

-- On an object whose arrays have fewer than 2^32 elements each, and a path of plain tokens,
-- rpc_query_set comes to an end without a fault. Either it sets no error, and rpc_query_get then
-- finds the value at the path, or it sets an error, and the object is the one it was. A plain
-- token is not empty and, where it starts as a number, has no minus and is below 2^31.
pub query_set-get :
    (o : Object) (path : Bytes) (v : Object)
    → Fits o
    → All IsPlain (split path)
    → ((o' : Object) × (query_set (some o) path (some v) ≡ ok (o', none))
        × ((d : Option Object) → query_get (some o') (some path) d ≡ some v))
      ⊎ ((e : PathError) × (query_set (some o) path (some v) ≡ ok (o, some e)))
query_set-get o [] v f p = absurd (not-IsPlain p)
query_set-get o (c ∷ path) v f p = elim (query_set_ends o c path v f p) [
  | stored s ↦ inl (s.left, s.returns, λ d. query_get-split s.left (c ∷ path) d p ∙ s.reads d)
  | untouched e r ↦ inr (e, r)
]
