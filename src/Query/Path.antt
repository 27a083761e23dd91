-- ===== src/Query/Path.antt =====
-- src/rpc_query.c: rpc_query_get, rpc_query_set, rpc_query_delete and rpc_query_contains.
pub mod Tokens
pub mod Defaults
pub mod Deletes
pub mod Sets
pub mod RoundTrip
use librpc.Base.{
  Bool, true, false, Option, none, some, List, [], ◌∷◌, Bytes, Outcome, ok, fault, abort,
  bad_access, ◌>>=◌,
}
use librpc.Base.Int.{to_uint64}
use librpc.Object.Types.{Object, dictionary, array}
use librpc.Object.Array.{array_create, array_get_value, array_steal_value, array_remove_index}
use librpc.Object.Dictionary.{
  dictionary_create, dictionary_get_value, dictionary_steal_value, dictionary_remove_key,
}
use librpc.Query.Text.{strtok, split, strtoull, strtol, atoi, split_last}

-- What one token leads to: a child, NULL if there is none, or nothing, if the object is no container.
pub data Step : Type 0 where
  child : Option Object → Step
  refused : Step

-- The body of the loop of rpc_query_get.
unfoldable pub get_step : Option Object → Bytes → Step
get_step (some (dictionary fs)) token = child (dictionary_get_value (dictionary fs) token)
get_step (some (array xs)) token = child (array_get_value (array xs) (to_uint64 (atoi token)))
get_step _ token = refused

unfoldable pub get_loop : Option Object → List Bytes → Option Object → Option Object
get_loop none [] default_val = default_val
get_loop (some leaf) [] default_val = some leaf
get_loop leaf (token ∷ rest) default_val = elim (get_step leaf token) [
  | refused ↦ none
  | child next ↦ get_loop next rest default_val
]

-- rpc_query_get; a NULL object, path or default value is `none`.
unfoldable pub query_get : Option Object → Option Bytes → Option Object → Option Object
unfolding get_loop
query_get object none default_val = none
query_get object (some path) default_val = get_loop object (strtok path) default_val

unfoldable pub query_contains : Object → Bytes → Bool
unfolding query_get
query_contains object path = elim (query_get (some object) (some path) none) [
  | none ↦ false
  | some target ↦ true
]

-- The errors that the path functions leave for rpc_get_last_error.
pub data PathError : Type 0 where
  path_empty not_a_number unsupported_container not_a_container : PathError
  parent_not_found index_conversion_failed : PathError

pub data SetStep : Type 0 where
  next : Option Object → SetStep
  failed : PathError → SetStep

-- How the loop of rpc_query_set reads the child that a token names.
unfoldable pub set_step : Object → Bytes → SetStep
set_step (dictionary fs) token = next (dictionary_get_value (dictionary fs) token)
set_step (array xs) token = elim (strtoull token) [
  | none ↦ failed not_a_number
  | some idx ↦ next (array_get_value (array xs) idx)
]
set_step _ token = failed unsupported_container

-- A missing child is created for the token that will be looked up in it.
unfoldable pub new_container : Bytes → Object
unfolding array_create dictionary_create
new_container next_token = elim (strtoull next_token) [
  | none ↦ dictionary_create
  | some idx ↦ array_create
]

-- The child's object stored at its token. A write below a child changes it in place: the parent holds
-- the object that the write leaves.
unfoldable pub store_child : Object → Bytes → Object → Outcome Object
store_child (dictionary fs) token v = dictionary_steal_value (dictionary fs) token v
store_child (array xs) token v = elim (strtoull token) [
  | none ↦ fault bad_access
  | some idx ↦ array_steal_value (array xs) idx v
]
store_child _ token v = fault bad_access

-- The switch behind the loop, on the container that the walk ends at.
unfoldable pub set_last : Object → Bytes → Object → Outcome (Object × Option PathError)
unfolding store_child
set_last (dictionary fs) token v = store_child (dictionary fs) token v >>= λ c. ok (c, none)
set_last (array xs) token v = elim (strtoull token) [
  | none ↦ ok (array xs, some not_a_number)
  | some idx ↦ store_child (array xs) token v >>= λ c. ok (c, none)
]
set_last c token v = ok (c, some not_a_container)

unfoldable pub or_new : Option Object → Bytes → Object
unfolding new_container
or_new none next_token = new_container next_token
or_new (some temp) next_token = temp

unfoldable pub set_loop : Object → List Bytes → Object → Outcome (Object × Option PathError)
set_loop container [] v = fault bad_access
set_loop container (token ∷ []) v = set_last container token v
set_loop container (token ∷ next_token ∷ rest) v = elim (set_step container token) [
  | failed e ↦ ok (container, some e)
  | next temp ↦ set_loop (or_new temp next_token) (next_token ∷ rest) v >>= λ r.
      store_child container token r.0 >>= λ c. ok (c, r.1)
]

-- rpc_query_set: the object that it leaves, and the error that it sets. A NULL object or value fails
-- an assertion.
unfoldable pub query_set :
    Option Object → Bytes → Option Object → Outcome (Object × Option PathError)
unfolding set_loop
query_set (some object) [] (some v) = ok (object, some path_empty)
query_set (some object) (c ∷ path) (some v) = set_loop object (split (c ∷ path)) v
query_set _ path v = fault abort

-- The switch of rpc_query_delete. strtol() sets `next_char` on every call, so the error is set
-- whether or not the index is a number.
unfoldable pub delete_child : Object → Bytes → Outcome (Object × Option PathError)
delete_child (dictionary fs) name = dictionary_remove_key (dictionary fs) name >>= λ c. ok (c, none)
delete_child (array xs) name = array_remove_index (array xs) (to_uint64 (strtol name)) >>= λ c.
    ok (c, some index_conversion_failed)
delete_child c name = ok (c, some not_a_container)

-- The parent's place in the object, found as rpc_query_get finds it; what is done there is done in
-- place.
unfoldable pub put_back : Object → Bytes → Object → Outcome Object
put_back (dictionary fs) token v = dictionary_steal_value (dictionary fs) token v
put_back (array xs) token v = array_steal_value (array xs) (to_uint64 (atoi token)) v
put_back _ token v = fault bad_access

unfoldable pub delete_loop : Object → List Bytes → Bytes → Outcome (Object × Option PathError)
delete_loop container [] name = delete_child container name
delete_loop container (token ∷ rest) name = elim (get_step (some container) token) [
  | refused ↦ ok (container, some parent_not_found)
  | child none ↦ ok (container, some parent_not_found)
  | child (some o) ↦
      delete_loop o rest name >>= λ r. put_back container token r.0 >>= λ c. ok (c, r.1)
]

-- rpc_query_get_parent and rpc_query_delete
unfoldable pub query_delete : Object → Bytes → Outcome (Object × Option PathError)
unfolding delete_loop
query_delete object path = elim (split_last path) [
  | none ↦ delete_child object path
  | some (before, name) ↦ delete_loop object (strtok before) name
]
