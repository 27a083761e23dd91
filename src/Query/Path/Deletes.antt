-- ===== src/Query/Path/Deletes.antt =====
-- src/rpc_query.c: rpc_query_delete, and what it leaves at the path of the parent.
use librpc.Base.{
  get_elem?-none, ltb, ◌<◌, ◌==◌, ℕ, false, sym, some_inj, bytes_eq, if◌then◌else◌, bytes_eq_refl,
  length, inr, get_elem?-lt, inl, leb, ◌∙◌, ◌⊎◌, Bool-cases, Outcome, get_elem?, ◌≡◌, refl, ap,
  Option, none, some, List, [], ◌∷◌, Bytes, ok, arith,
}
use librpc.Base.Int.{to_uint64}
use librpc.Object.Types.{
  entries-fields, items, fields-entries, fields, Object, dictionary, array, Fields, Items, entries,
  elements,
}
use librpc.Object.Array.{remove_at, array_get_value, array_remove_index}
use librpc.Object.Array.Writes.{written, steal_value-Wrote, steal_value_same}
use librpc.Object.Dictionary.{
  KeysDistinct, remove, lookup, insert, dictionary_get_value, dictionary_steal_value,
  dictionary_remove_key,
}
use librpc.Object.Dictionary.Laws.{lookup-remove, lookup-insert, insert_same}
use librpc.Object.Fits.{Fits, Fits-lookup, Fits-get_elem?}
use librpc.Query.Text.{atoi, strtol, strtok, split_last}
use librpc.Query.Path.{
  Step, child, refused, get_step, get_loop, query_get, PathError, parent_not_found,
  index_conversion_failed, not_a_container, delete_child, put_back, delete_loop, query_delete,
}

-- Two objects that are the same but for what stands at the path: a dictionary on the way to it has what
-- it had at every other key, an array at every other index.
pub data SameBut : List Bytes → Object → Object → Type 0 where
  changed : (a b : Object) → SameBut [] a b
  in_dictionary :
      (t : Bytes) (ts : List Bytes) (fs gs : Fields) (v w : Object)
      → lookup t (entries fs) ≡ some v
      → lookup t (entries gs) ≡ some w
      → ((k : Bytes) → bytes_eq t k ≡ false → lookup k (entries gs) ≡ lookup k (entries fs))
      → SameBut ts v w
      → SameBut (t ∷ ts) (dictionary fs) (dictionary gs)
  in_array :
      (t : Bytes) (ts : List Bytes) (xs ys : Items) (v w : Object)
      → get_elem? (elements xs) (to_uint64 (atoi t)) ≡ some v
      → get_elem? (elements ys) (to_uint64 (atoi t)) ≡ some w
      → ((i : ℕ)
          → (to_uint64 (atoi t) == i) ≡ false
          → get_elem? (elements ys) i ≡ get_elem? (elements xs) i)
      → SameBut ts v w
      → SameBut (t ∷ ts) (array xs) (array ys)

-- The child `o` at the token fits, is put back as it was, and any other object in its place is found
-- there, with nothing else changed.
record Place (c : Object) (t : Bytes) (o : Object) : Type 0 where
  pub small : Fits o
  pub same : put_back c t o ≡ ok c
  pub puts :
      (o' : Object)
      → (c' : Object) × (put_back c t o' ≡ ok c')
        × (get_step (some c') t ≡ child (some o'))
        × ((ts : List Bytes) → SameBut ts o o' → SameBut (t ∷ ts) c c')

child_inj : {a b : Option Object} → child a ≡ child b → a ≡ b
child_inj {a} {b} e = cc

dictionary-Place :
    (fs : Fields) (t : Bytes) (o : Object)
    → Fits (dictionary fs)
    → lookup t (entries fs) ≡ some o
    → Place (dictionary fs) t o
unfolding put_back dictionary_steal_value get_step dictionary_get_value
dictionary-Place fs t o f e = record {
  small = Fits-lookup t fs f e;
  same = ap (λ r. ok (dictionary r)) (ap fields (insert_same t (entries fs) e) ∙ fields-entries fs);
  puts = λ o'. (
    dictionary (fields (insert t o' (entries fs))),
    refl,
    rw (entries-fields, lookup-insert, bytes_eq_refl),
    λ ts s.
        in_dictionary t ts fs (fields (insert t o' (entries fs))) o o' e
          (rw (entries-fields, lookup-insert, bytes_eq_refl))
          (λ k n. rw (entries-fields, lookup-insert, n)) s,
  );
}

-- A write inside of the array leaves the other elements.
written_other :
    (xs : List Object) (index i : ℕ) (v : Object)
    → (index == i) ≡ false
    → index < length xs
    → written xs index v i ≡ get_elem? xs i
written_other xs index i v n h = elim (Bool-cases (ltb i (length xs))) [
  | inl inside ↦ ground (arith, n, inside)
  | inr past ↦ ground (arith, n, past, h, get_elem?-none xs i (ground (arith, past)))
]

array-Place :
    (xs : Items) (t : Bytes) (o : Object)
    → Fits (array xs)
    → get_elem? (elements xs) (to_uint64 (atoi t)) ≡ some o
    → Place (array xs) t o
unfolding put_back get_step
array-Place xs t o f e =
    let room = get_elem?-lt (elements xs) (to_uint64 (atoi t)) e in
    record {
      small = Fits-get_elem? xs (to_uint64 (atoi t)) f.1 e;
      same = steal_value_same xs (to_uint64 (atoi t)) {v = o} f.0 e;
      puts = λ o'.
          (let w = steal_value-Wrote xs (to_uint64 (atoi t)) o' (omega (arith, room, f.0)) f.0 in
            (
              array (items w.left),
              w.returns,
              ap child (w.reads (to_uint64 (atoi t))) ∙ ground arith,
              λ ts s.
                  in_array t ts xs (items w.left) o o' e
                    (unfold array_get_value in w.reads (to_uint64 (atoi t)) ∙ ground arith)
                    (λ i n.
                      unfold array_get_value in
                      w.reads i ∙ written_other (elements xs) (to_uint64 (atoi t)) i o' n room)
                    s,
            ));
    }

Place_lem :
    (c : Object) (t : Bytes) (o : Object)
    → Fits c
    → get_step (some c) t ≡ child (some o)
    → Place c t o
unfolding get_step dictionary_get_value array_get_value
Place_lem (dictionary fs) t o f e = dictionary-Place fs t o f (child_inj {a = _} {b = some o} e)
Place_lem (array xs) t o f e = array-Place xs t o f (child_inj {a = _} {b = some o} e)
Place_lem c t o f e = cc

-- How the walk to the parent ends: at no object, or at the parent, whose change is seen at its path.
data Deletes (c : Object) (ts : List Bytes) (name : Bytes) (r : Outcome (Object × Option PathError))
    : Type 0 where
  lost : get_loop (some c) ts none ≡ none → r ≡ ok (c, some parent_not_found) → Deletes c ts name r
  reached :
      (parent parent' c' : Object) (e : Option PathError)
      → get_loop (some c) ts none ≡ some parent
      → delete_child parent name ≡ ok (parent', e)
      → r ≡ ok (c', e)
      → get_loop (some c') ts none ≡ some parent'
      → SameBut ts c c'
      → Deletes c ts name r

child_ends :
    (c : Object) (name : Bytes)
    → (c' : Object) × (e : Option PathError) × (delete_child c name ≡ ok (c', e))
unfolding delete_child dictionary_remove_key array_remove_index
child_ends (dictionary fs) name = (_, _, refl)
child_ends (array xs) name =
    elim (Bool-cases (leb (length (elements xs)) (to_uint64 (strtol name)))) [
      | inl past ↦ (array xs, some index_conversion_failed, ground (arith, past))
      | inr inside ↦ (
        array (items (remove_at (elements xs) (to_uint64 (strtol name)))),
        some index_conversion_failed,
        ground (arith, inside),
      )
    ]
child_ends c name = (c, some not_a_container, refl)

loop-none : (ts : List Bytes) → get_loop none ts none ≡ none
unfolding get_loop get_step
loop-none [] = refl
loop-none (t ∷ ts) = refl

-- The walk goes on in the child `o`.
delete_through :
    (c o : Object) (t : Bytes) (ts : List Bytes) (name : Bytes)
    → get_step (some c) t ≡ child (some o)
    → Place c t o
    → Deletes o ts name (delete_loop o ts name)
    → Deletes c (t ∷ ts) name (delete_loop c (t ∷ ts) name)
unfolding delete_loop get_loop
delete_through c o t ts name s place (lost g r) =
    lost (rw (get_loop, s) g) (rw (delete_loop, s, r, place.same))
delete_through c o t ts name s place (reached parent parent' o' e g d r g' same) =
    let (c', stores, reads, others) = place.puts o' in
    reached parent parent' c' e (rw (get_loop, s) g) d (rw (delete_loop, s, r, stores))
      (rw (get_loop, reads) g') (others ts same)

delete_step :
    (c : Object) (t : Bytes) (ts : List Bytes) (name : Bytes) (s : Step)
    → get_step (some c) t ≡ s
    → Fits c
    → ((o : Object) → Fits o → Deletes o ts name (delete_loop o ts name))
    → Deletes c (t ∷ ts) name (delete_loop c (t ∷ ts) name)
unfolding delete_loop get_loop
delete_step c t ts name refused e f k = lost (rw (get_loop, e)) (rw (delete_loop, e))
delete_step c t ts name (child none) e f k =
    lost (rw (get_loop, e) (loop-none ts)) (rw (delete_loop, e))
delete_step c t ts name (child (some o)) e f k =
    let place = Place_lem c t o f e in delete_through c o t ts name e place (k o place.small)

delete_loop_lem :
    (c : Object) (ts : List Bytes) (name : Bytes)
    → Fits c
    → Deletes c ts name (delete_loop c ts name)
unfolding delete_loop get_loop
delete_loop_lem c [] name f =
    let (c', e, d) = child_ends c name in reached c c' c' e refl d d refl (changed c c')
delete_loop_lem c (t ∷ ts) name f =
    delete_step c t ts name (get_step (some c) t) refl f
      (λ (o : Object) (g : Fits o). delete_loop_lem o ts name g)

-- Of a path with a dot, in an object whose arrays have fewer than 2^32 elements each, rpc_query_delete
-- ends without a fault. Either rpc_query_get finds nothing at what stands before the last dot, and the
-- object is the one it was, with an error set; or it finds the parent there, and afterwards what the
-- removal of the child leaves of the parent, with the error that the removal sets, and the object is
-- the one it was but for what stands at the path of the parent: each container on the way there has at
-- every other key or index what it had.
pub query_delete-child :
    (o : Object) (path before name : Bytes)
    → Fits o
    → split_last path ≡ some (before, name)
    → ((query_get (some o) (some before) none ≡ none)
        × (query_delete o path ≡ ok (o, some parent_not_found)))
      ⊎ ((parent : Object) × (parent' : Object) × (o' : Object) × (e : Option PathError)
          × (query_get (some o) (some before) none ≡ some parent)
          × (delete_child parent name ≡ ok (parent', e))
          × (query_delete o path ≡ ok (o', e))
          × (query_get (some o') (some before) none ≡ some parent')
          × SameBut (strtok before) o o')
unfolding query_get query_delete
query_delete-child o path before name f s = elim (delete_loop_lem o (strtok before) name f) [
  | lost g r ↦ inl (g, rw (query_delete, s) r)
  | reached parent parent' o' e g d r g' same ↦
      inr (parent, parent', o', e, g, d, rw (query_delete, s) r, g', same)
]

dictionary_child :
    (fs : Fields) (name : Bytes)
    → delete_child (dictionary fs) name ≡ ok (dictionary (fields (remove name (entries fs))), none)
unfolding delete_child dictionary_remove_key
dictionary_child fs name = refl

ok_inj : {r r' : Object × Option PathError} → ok r ≡ ok r' → r ≡ r'
ok_inj h = cc

-- Where rpc_query_get finds a dictionary that has no key twice at what stands before the last dot of
-- the path, in an object whose arrays have fewer than 2^32 elements each, rpc_query_delete sets no
-- error, and rpc_query_get then finds a dictionary there that lacks the key behind the dot and has at
-- every other key what it had.
pub query_delete-gone :
    (o : Object) (path before name : Bytes) (fs : Fields)
    → Fits o
    → split_last path ≡ some (before, name)
    → query_get (some o) (some before) none ≡ some (dictionary fs)
    → KeysDistinct (entries fs)
    → (o' : Object) × (d : Object) × (query_delete o path ≡ ok (o', none))
      × (query_get (some o') (some before) none ≡ some d)
      × ((k : Bytes)
          → dictionary_get_value d k
            ≡ (if bytes_eq name k then none else dictionary_get_value (dictionary fs) k))
unfolding dictionary_get_value
query_delete-gone o path before name fs f s g t = elim (query_delete-child o path before name f s) [
  | inl (lost_parent, r) ↦ cc
  | inr (parent, parent', o', e, g', d, r, after, same) ↦
      let there : parent ≡ dictionary fs = some_inj (sym g' ∙ g) in
      let left : ◌≡◌ {A = Object × Option PathError} (parent', e)
          (dictionary (fields (remove name (entries fs))), none) =
        ok_inj
          (sym d ∙ ap (λ (c : Object). delete_child c name) there ∙ dictionary_child fs name) in
      (
        o',
        dictionary (fields (remove name (entries fs))),
        r ∙ ap (λ (x : Object × Option PathError). ok (o', x.1)) left,
        after ∙ ap (λ (x : Object × Option PathError). some (x.0)) left,
        λ k. rw entries-fields (lookup-remove name k (entries fs) t),
      )
]
