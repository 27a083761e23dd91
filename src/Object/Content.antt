-- ===== src/Object/Content.antt =====
-- src/rpc_object.c: what a program finds in an object by keys and indices, whatever the order in which the
-- hash tables of its dictionaries yield their entries.
use librpc.Base.Int.{ℤ}
use librpc.Object.Types.{Object, dictionary, array, error, entries, elements}
use librpc.Object.Dictionary.{lookup}
use librpc.Base.{ℕ, Bytes, Option, none, some, List, [], ◌∷◌, length, get_elem?, ◌≡◌, ap}

-- A step from an object into it: a key, an index, or the fields of an error.
pub data Step : Type 0 where
  at_key : Bytes → Step
  at_index : ℕ → Step
  at_extra at_stack : Step

-- What an object is without the objects in it.
pub data Node : Type 0 where
  scalar : Object → Node
  dictionary_of array_of : ℕ → Node
  error_of : ℤ → Bytes → Node

unfoldable pub child_at : Object → Step → Option Object
unfolding lookup
child_at (dictionary fs) (at_key k) = lookup k (entries fs)
child_at (array xs) (at_index i) = get_elem? (elements xs) i
child_at (error code msg extra stack) at_extra = some extra
child_at (error code msg extra stack) at_stack = some stack
child_at o s = none

unfoldable pub node : Object → Node
node (dictionary fs) = dictionary_of (length (entries fs))
node (array xs) = array_of (length (elements xs))
node (error code msg extra stack) = error_of code msg
node o = scalar o

unfoldable pub content : Object → List Step → Option Node
unfolding child_at node
content o [] = some (node o)
content o (s ∷ path) = elim (child_at o s) [ none ↦ none | some v ↦ content v path ]

-- The two objects hold the same on every way into them: the same scalars, sizes, and values at keys and
-- indices. The order of entries is left open.
abbrev pub SameContent : Object → Object → Type 0
SameContent a b = (path : List Step) → content a path ≡ content b path

pub SameContent-eq : {a b : Object} → a ≡ b → SameContent a b
SameContent-eq e path = ap (λ (o : Object). content o path) e
