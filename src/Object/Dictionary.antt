-- ===== src/Object/Dictionary.antt =====
-- src/rpc_object.c: the dictionary operations. The hash table is the list of its entries; an insertion
-- at a new key stands last, which stands for nothing, since GLib promises no order of the entries. A write returns the dictionary that it leaves, and aborts on any other
-- object; a read of the table of any other object is a bad access.
pub mod Typed
pub mod Laws
use librpc.Base.{
  ℕ, Bool, true, false, Option, none, some, List, [], ◌∷◌, Outcome, ok, fault, abort, bad_access,
  ◌>>=◌, if◌then◌else◌, length, Bytes, bytes_eq, ◌≡◌,
}
use librpc.Object.Types.{Object, dictionary, end, entries, fields}

abbrev pub Entries : Type 0
Entries = List (Bytes × Object)

-- g_hash_table_lookup
unfoldable pub lookup : Bytes → Entries → Option Object
lookup k [] = none
lookup k ((j, v) ∷ r) = if bytes_eq j k then some v else lookup k r

-- g_hash_table_insert: the entry of a key that is there gets the new value.
unfoldable pub insert : Bytes → Object → Entries → Entries
insert k v [] = (k, v) ∷ []
insert k v ((j, w) ∷ r) = if bytes_eq j k then (j, v) ∷ r else (j, w) ∷ insert k v r

-- g_hash_table_remove
unfoldable pub remove : Bytes → Entries → Entries
remove k [] = []
remove k ((j, w) ∷ r) = if bytes_eq j k then r else (j, w) ∷ remove k r

unfoldable pub dictionary_table : Object → Outcome Entries
dictionary_table (dictionary fs) = ok (entries fs)
dictionary_table _ = fault abort

unfoldable pub dictionary_create : Object
dictionary_create = dictionary end

unfoldable pub dictionary_get_value : Object → Bytes → Option Object
unfolding lookup
dictionary_get_value (dictionary fs) k = lookup k (entries fs)
dictionary_get_value _ k = none

unfoldable pub dictionary_get_count : Object → Outcome ℕ
dictionary_get_count (dictionary fs) = ok (length (entries fs))
dictionary_get_count _ = fault bad_access

unfoldable pub dictionary_has_key : Object → Bytes → Outcome Bool
unfolding lookup
dictionary_has_key (dictionary fs) k = elim (lookup k (entries fs)) [
  | none ↦ ok false
  | some v ↦ ok true
]
dictionary_has_key _ k = fault bad_access

unfoldable pub dictionary_steal_value : Object → Bytes → Object → Outcome Object
unfolding dictionary_table insert
dictionary_steal_value d k v = dictionary_table d >>= λ es. ok (dictionary (fields (insert k v es)))

unfoldable pub dictionary_remove_key : Object → Bytes → Outcome Object
unfolding dictionary_table remove
dictionary_remove_key d k = dictionary_table d >>= λ es. ok (dictionary (fields (remove k es)))

unfoldable pub dictionary_set_value : Object → Bytes → Option Object → Outcome Object
unfolding dictionary_remove_key dictionary_steal_value
dictionary_set_value d k none = dictionary_remove_key d k
dictionary_set_value d k (some v) = dictionary_steal_value d k v

unfoldable pub dictionary_remove_all : Object → Outcome Object
unfolding dictionary_table
dictionary_remove_all d = dictionary_table d >>= λ es. ok (dictionary end)

-- The value at the key, with the dictionary that is left.
unfoldable pub dictionary_detach_key : Object → Bytes → Outcome (Option Object × Object)
unfolding dictionary_table dictionary_get_value dictionary_remove_key
dictionary_detach_key d k = dictionary_table d >>= λ es. elim (dictionary_get_value d k) [
  | none ↦ ok (none, d)
  | some v ↦ dictionary_remove_key d k >>= λ d'. ok (some v, d')
]

-- The keys of a table are pairwise different: what the hash table guarantees.
unfoldable pub has_key : Bytes → Entries → Bool
has_key k [] = false
has_key k ((j, w) ∷ r) = if bytes_eq j k then true else has_key k r

abbrev pub KeysDistinct : Entries → Type 0
KeysDistinct [] = Unit {0}
KeysDistinct ((j, w) ∷ r) = (has_key j r ≡ false) × KeysDistinct r
