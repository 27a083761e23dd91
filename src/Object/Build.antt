-- ===== src/Object/Build.antt =====
-- src/rpc_object.c: rpc_array_create_ex and rpc_dictionary_create_ex, on values that are not NULL; with
-- `steal` or without it they differ in reference counts only.
pub mod Contents
use librpc.Base.{List, [], ◌∷◌, Bytes, Outcome, ok, ◌>>=◌}
use librpc.Object.Types.{Object}
use librpc.Object.Array.{array_create, array_append_stolen_value}
use librpc.Object.Dictionary.{dictionary_create, dictionary_steal_value, Entries}

unfoldable pub append_loop : Object → List Object → Outcome Object
unfolding array_append_stolen_value
append_loop a [] = ok a
append_loop a (v ∷ vs) = array_append_stolen_value a v >>= λ a'. append_loop a' vs

unfoldable pub array_create_ex : List Object → Outcome Object
unfolding append_loop array_create
array_create_ex objects = append_loop array_create objects

unfoldable pub steal_loop : Object → Entries → Outcome Object
unfolding dictionary_steal_value
steal_loop d [] = ok d
steal_loop d ((k, v) ∷ es) = dictionary_steal_value d k v >>= λ d'. steal_loop d' es

unfoldable pub dictionary_create_ex : Entries → Outcome Object
unfolding steal_loop dictionary_create
dictionary_create_ex pairs = steal_loop dictionary_create pairs
