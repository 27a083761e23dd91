-- ===== src/Serializer/Json/Spots.antt =====
-- src/serializer/json.c: the parser between two values. A spot is where the next value goes; a value that
-- is read whole leaves the parser behind it, whatever callbacks that took.
use librpc.Object.Array.Writes.{steal_last}
use librpc.Object.Array.{array_get_count}
use librpc.Base.{
  ◌-◌, length-append, is_some, inr, ◌^◌, ◌<◌, inl, ◌⊎◌, suc, if◌then◌else◌, ◌≡◌, refl, Option, none,
  some, List, [], ◌∷◌, ◌++◌, arith, Bytes, Bool, true, false, ok, bytes_eq_refl, length,
}
use librpc.Object.Types.{
  Items, Fields, Object, dictionary, array, nil, end, items, fields, elements-items, entries-fields,
}
use librpc.Object.Dictionary.{dictionary_steal_value, Entries, insert}
use librpc.Serializer.Json.{Yajl}
use librpc.Serializer.Json.Parse.{
  get_or_leaf, Leaf, Context, insert_value, is_container, end_map, end_array, unpacked, end_leaf,
}

-- The start of the text; behind the elements of an array, or at a key of a dictionary behind entries,
-- where that array or dictionary has a spot of its own.
pub data Spot : Type 0 where
  root : Spot
  element : List Object → Spot → Spot
  entry : Entries → Bytes → Spot → Spot

abbrev pub place_of : Spot → Option Bytes
place_of (entry es key spot) = some key
place_of _ = none

-- The containers below a container `c` that began at the spot, which has not been written back.
abbrev pub below : Spot → Object → List Leaf
below root c = []
below (element xs spot) c =
    record { place = place_of spot; value = array (items (xs ++ c ∷ [])) } ∷ below spot (array nil)
below (entry es key spot) c =
    record { place = place_of spot; value = dictionary (fields (insert key c es)) }
    ∷ below spot (dictionary end)

abbrev pub root_of : Spot → Object → Object
root_of root c = c
root_of (element xs spot) c = root_of spot (array nil)
root_of (entry es key spot) c = root_of spot (dictionary end)

-- The parser in a container that began as `c` at the spot, and is `now`.
abbrev pub within : Spot → Object → Object → Option Bytes → Context
within spot c now key = record {
  result = some (root_of spot c);
  leaf_stack = record { place = place_of spot; value = now } ∷ below spot c;
  key_buf = key;
}

abbrev pub at : Spot → Context
at root = record { result = none; leaf_stack = []; key_buf = none }
at (element xs spot) = within spot (array nil) (array (items xs)) none
at (entry es key spot) = within spot (dictionary end) (dictionary (fields es)) (some key)

-- The parser behind a value at the spot. At the root a value other than an array or a dictionary stays on
-- the stack.
unfoldable pub behind : Spot → Object → Bool → Context
behind root o stays = record {
  result = some o;
  leaf_stack = if stays then record { place = none; value = o } ∷ [] else [];
  key_buf = none;
}
behind (element xs spot) o stays = within spot (array nil) (array (items (xs ++ o ∷ []))) none
behind (entry es key spot) o stays =
    within spot (dictionary end) (dictionary (fields (insert key o es))) none

insert_twice :
    (k : Bytes) (v w : Object) (es : Entries) → insert k v (insert k w es) ≡ insert k v es
unfolding insert
insert_twice k v w [] = ground (arith, bytes_eq_refl k)
insert_twice k v w ((j, u) ∷ r) = ground (arith, insert_twice k v w r)

-- An array that is being read has room for one more element.
abbrev pub Room : Spot → Type 0
Room root = Unit {0}
Room (element xs spot) = suc (length xs) < 2 ^ 32
Room (entry es key spot) = Unit {0}

pub insert_value-behind :
    (spot : Spot) (o : Object)
    → is_container o ≡ false
    → insert_value o (at spot) ≡ ok (some (behind spot o true))
unfolding insert_value behind
insert_value-behind root o h = refl
insert_value-behind (element xs spot) o h = rw (elements-items xs, h)
insert_value-behind (entry es key spot) o h = rw (entries-fields es, h)

pub insert_value-within :
    (spot : Spot) (o : Object)
    → (o ≡ array nil) ⊎ (o ≡ dictionary end)
    → insert_value o (at spot) ≡ ok (some (within spot o o none))
unfolding insert_value is_container
insert_value-within root o h = refl
insert_value-within (element xs spot) o (inl h) = rw (elements-items xs, h)
insert_value-within (element xs spot) o (inr h) = rw (elements-items xs, h)
insert_value-within (entry es key spot) o (inl h) = rw (entries-fields es, h)
insert_value-within (entry es key spot) o (inr h) = rw (entries-fields es, h)

module _ (y : Yajl) where
  -- The end of a container that began as `c` at the spot, is `now`, and is replaced by `new` if there is.
  end_leaf-behind :
      (spot : Spot) (c now : Object) (new : Option Object)
      → Room spot
      → end_leaf
          (record { place = place_of spot; value = now })
          (below spot c)
          new
          (within spot c now none)
        ≡ ok (some (behind spot (get_or_leaf new now) (is_some new)))
  unfolding end_leaf behind array_get_count dictionary_steal_value
  end_leaf-behind root c now none r = refl
  end_leaf-behind root c now (some o) r = refl
  end_leaf-behind (element xs spot) c now new r =
      let n = length-append xs (c ∷ []) in
      let last : length (xs ++ c ∷ []) - 1 ≡ length xs = omega (arith, n) in
      rw (elements-items (xs ++ c ∷ []), last) (rw (steal_last xs c (get_or_leaf new now) r))
  end_leaf-behind (entry es key spot) c now new r =
      rw (entries-fields (insert key c es), insert_twice key (get_or_leaf new now) c es)

  pub end_array-behind :
      (spot : Spot) (xs : Items)
      → Room spot
      → end_array (within spot (array nil) (array xs) none)
        ≡ ok (some (behind spot (array xs) false))
  unfolding end_array
  end_array-behind spot xs r = end_leaf-behind spot (array nil) (array xs) none r

  pub end_map-behind :
      (spot : Spot) (fs : Fields) (new : Option Object)
      → Room spot
      → unpacked y (dictionary fs) ≡ ok new
      → end_map y (within spot (dictionary end) (dictionary fs) none)
        ≡ ok (some (behind spot (get_or_leaf new (dictionary fs)) (is_some new)))
  unfolding end_map
  end_map-behind spot fs new r e =
      rw e (end_leaf-behind spot (dictionary end) (dictionary fs) new r)
