-- ===== src/Object/Pack/Slots.antt =====
-- src/rpc_object.c: where an element of a container goes in rpc_object_vpack, and how its end is found.
use librpc.Object.Array.Writes.{steal_append}
use librpc.Object.Value.{c_string}
use librpc.Object.Pack.Values.{string_arg, Arg}
use librpc.Object.Dictionary.{insert, Entries, dictionary_steal_value}
use librpc.Object.Types.{fields, entries-fields, dictionary, items, elements-items, array, Object}
use librpc.Base.{
  [], refl, arith, ◌==◌, none, true, ok, ◌++◌, length, some, ◌∷◌, Bytes, Option, List, false, ℕ,
  ◌≡◌, All,
}
use librpc.Object.Pack.{
  dictionary, string_arg, c_string, array, Arg, Object, dictionary_steal_value, Pack, goes, store,
  label_element,
}
use librpc.Object.Pack.Search.{ElementEnd, is_stop, scan}
use librpc.Object.Pack.Shapes.{
  null_leaf, Shape, leaf, list, table, print, print_shapes, print_rows, letter, Leaf,
}

-- A character of a key in a format.
abbrev pub PlainChar : ℕ → Type 0
PlainChar c = (is_stop c ≡ false) × ((c == b':') ≡ false)

pub letter-PlainChar : (l : Leaf) → PlainChar (letter l)
letter-PlainChar null_leaf = (refl, refl)
letter-PlainChar l = (refl, refl)

-- Where an element goes: behind the elements of an array, or at a key of a dictionary.
pub data Slot : Type 0 where
  array_slot : List Object → Slot
  inline_slot : Entries → Bytes → Slot
  given_slot : Entries → Bytes → Slot

abbrev pub container_of : Slot → Object
container_of (array_slot ys) = array (items ys)
container_of (inline_slot es k) = dictionary (fields es)
container_of (given_slot es k) = dictionary (fields es)

abbrev pub prefixed : Slot → Bytes → Bytes
prefixed (inline_slot es k) rest = k ++ b':' ∷ rest
prefixed slot rest = rest

abbrev pub slot_args : Slot → List Arg → List Arg
slot_args (given_slot es k) r = string_arg (some k) ∷ r
slot_args slot r = r

abbrev pub slot_label : Slot → Option Bytes
slot_label (inline_slot es k) = some k
slot_label slot = none

abbrev pub slot_keys : Slot → List Bytes → List Bytes
slot_keys (array_slot ys) ks = ks
slot_keys (inline_slot es k) ks = k ∷ ks
slot_keys (given_slot es k) ks = c_string k ∷ ks

abbrev pub slot_indices : Slot → List ℕ → List ℕ
slot_indices (array_slot ys) is = length ys ∷ is
slot_indices slot is = is

abbrev pub filled : Slot → Object → Object
filled (array_slot ys) o = array (items (ys ++ o ∷ []))
filled (inline_slot es k) o = dictionary (fields (insert k o es))
filled (given_slot es k) o = dictionary (fields (insert (c_string k) o es))

abbrev pub SlotReady : Slot → Type 0
SlotReady (inline_slot es k) = All PlainChar k
SlotReady slot = Unit {0}

abbrev pub pack : List Object → List Bytes → List ℕ → List Arg → Pack
pack stack ks is args = record { stack = stack; keys = ks; indices = is; type = none; args = args }

pub store_lem :
    (slot : Slot) (below : List Object) (ks : List Bytes) (is : List ℕ) (args : List Arg)
    (o : Object) (x : ℕ) (rest : Bytes)
    → store
        (pack (container_of slot ∷ below) (slot_keys slot ks) (slot_indices slot is) args)
        (some o)
        x
        rest
      ≡ ok (goes (pack (filled slot o ∷ below) ks is args) x rest)
unfolding store dictionary_steal_value
store_lem (array_slot ys) below ks is args o x rest = rw (steal_append ys o)
store_lem (inline_slot es k) below ks is args o x rest = rw (entries-fields es)
store_lem (given_slot es k) below ks is args o x rest = rw (entries-fields es)

pub label_lem :
    (slot : Slot) (below : List Object) (ks : List Bytes) (is : List ℕ) (r : List Arg)
    → label_element
        (container_of slot)
        (slot_label slot)
        (pack (container_of slot ∷ below) ks is (slot_args slot r))
      ≡ ok (some (pack (container_of slot ∷ below) (slot_keys slot ks) (slot_indices slot is) r))
unfolding label_element
label_lem (array_slot ys) below ks is r = rw (elements-items ys)
label_lem (inline_slot es k) below ks is r = refl
label_lem (given_slot es k) below ks is r = refl

-- Where the search in a shape ends, with the character before it.
abbrev pub end_of : Shape → ℕ → ℕ → Bytes → ElementEnd
end_of (leaf l) b t rest = record { before = letter l; stop = t; behind = rest; label = none }
end_of (list xs) b t rest = record {
  before = b;
  stop = b'[';
  behind = print_shapes false xs (b']' ∷ t ∷ rest);
  label = none;
}
end_of (table rows) b t rest = record {
  before = b;
  stop = b'{';
  behind = print_rows false rows (b'}' ∷ t ∷ rest);
  label = none;
}

scan_shape :
    (s : Shape) (b t : ℕ) (rest : Bytes)
    → is_stop t ≡ true
    → scan b (print s (t ∷ rest)) ≡ ok (end_of s b t rest)
unfolding scan
scan_shape (leaf l) b t rest h = let p = letter-PlainChar l in ground (arith, p, h)
scan_shape (list xs) b t rest h = refl
scan_shape (table rows) b t rest h = refl

scan_label :
    (k : Bytes) (b : ℕ) (rest : Bytes) (e : ElementEnd)
    → All PlainChar k
    → scan b':' rest ≡ ok e
    → e.label ≡ none
    → scan b (k ++ b':' ∷ rest) ≡ ok (record e { label = some k })
unfolding scan
scan_label [] b rest e p h n = ground (arith, h, n)
scan_label (c ∷ k) b rest e p h n = ground (arith, h, n, p, scan_label k c rest e p.1 h n)

-- The character that stands before the stop, where the shape has none of its own.
abbrev pub before_of : Slot → ℕ → ℕ
before_of (inline_slot es k) b = b':'
before_of slot b = b

pub scan_slot :
    (slot : Slot) (s : Shape) (b t : ℕ) (rest : Bytes)
    → SlotReady slot
    → is_stop t ≡ true
    → scan b (prefixed slot (print s (t ∷ rest)))
      ≡ ok (record (end_of s (before_of slot b) t rest) { label = slot_label slot })
scan_slot (array_slot ys) (leaf l) b t rest p h = scan_shape (leaf l) b t rest h
scan_slot (array_slot ys) (list xs) b t rest p h = scan_shape (list xs) b t rest h
scan_slot (array_slot ys) (table rows) b t rest p h = scan_shape (table rows) b t rest h
scan_slot (given_slot es k) (leaf l) b t rest p h = scan_shape (leaf l) b t rest h
scan_slot (given_slot es k) (list xs) b t rest p h = scan_shape (list xs) b t rest h
scan_slot (given_slot es k) (table rows) b t rest p h = scan_shape (table rows) b t rest h
scan_slot (inline_slot es k) (leaf l) b t rest p h =
    scan_label k b _ (end_of (leaf l) b':' t rest) p (scan_shape (leaf l) b':' t rest h) refl
scan_slot (inline_slot es k) (list xs) b t rest p h =
    scan_label k b _ (end_of (list xs) b':' t rest) p (scan_shape (list xs) b':' t rest h) refl
scan_slot (inline_slot es k) (table rows) b t rest p h =
    scan_label k b _ (end_of (table rows) b':' t rest) p (scan_shape (table rows) b':' t rest h)
      refl
