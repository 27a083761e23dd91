-- ===== src/Object/Pack/Tests.antt =====
-- rpc_object_vpack on concrete formats.
use librpc.Object.Pack.Rounds.{vpack-ends}
use librpc.Object.Pack.Shapes.{
  last, bool_leaf, given_row, stop, string_leaf, int64_leaf, leaf, then_shape, list, inline_row,
  table, Shape, print,
}
use librpc.Base.Int.{pos}
use librpc.Object.Array.{array_steal_value}
use librpc.Object.Dictionary.{dictionary_steal_value, insert}
use librpc.Object.Value.{has_nul, c_string}
use librpc.Object.Types.{string, null, int64, items, array, fields, dictionary, Object}
use librpc.Object.Pack.Values.{string_arg, int64_arg}
use librpc.Base.{
  true, no_fuel, fault, ◌≢◌, bytes_eq, ◌≡◌, refl, [], ◌∷◌, ok, some, none, codes, Option, Bytes,
}
use librpc.Object.Pack.{
  null, int64, array, dictionary, pos, array_steal_value, c_string, Object, vpack,
}

abbrev untyped : Bytes → Option Object → Option Object
untyped type value = value

mixed :
    vpack untyped (codes "{a:[i,3:i],s, q:'x',n}") (
      int64_arg (pos 7)
      ∷ int64_arg (pos 8)
      ∷ string_arg (some (codes "k"))
      ∷ string_arg (some (codes "v"))
      ∷ string_arg (some (codes "z"))
      ∷ [])
    ≡ ok (
        some (
          dictionary (
            fields (
              (codes "a", array (items (int64 (pos 7) ∷ null ∷ null ∷ int64 (pos 8) ∷ [])))
              ∷ (codes "k", string (codes "v"))
              ∷ (codes " q", string (codes "x"))
              ∷ (codes "z", null)
              ∷ []))))
unfolding vpack c_string has_nul insert array_steal_value dictionary_steal_value bytes_eq
mixed = refl

-- The character behind a quoted text is skipped, also where it ends the container.
quoted_last : vpack untyped (codes "{q:'x'}") [] ≡ ok none
unfolding vpack c_string has_nul insert bytes_eq
quoted_last = refl

-- "{a:[i,s],b}", where the key of the last entry is an argument.
abbrev shape : Shape
shape = table (
    inline_row (codes "a")
      (list
        (then_shape (leaf (int64_leaf (pos 7))) (then_shape (leaf (string_leaf (codes "v"))) stop)))
      (given_row (codes "k") (leaf (bool_leaf true)) last))

shape_format : print shape [] ≡ codes "{a:[i,s],b}"
shape_format = refl

vpack-ends_example : vpack untyped (codes "[i,'x") [] ≢ fault no_fuel
vpack-ends_example = vpack-ends untyped (codes "[i,'x") []
