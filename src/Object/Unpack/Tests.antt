-- ===== src/Object/Unpack/Tests.antt =====
-- rpc_object_vunpack on concrete formats.
use librpc.Object.Unpack.Ends.{vunpack-ends}
use librpc.Object.Pack.Shapes.{list, args_of, string_leaf, data_leaf, int64_leaf, Leaf}
use librpc.Object.Unpack.ReadBack.{vunpack-vpack, all_outs, all_pointers, shapes_of, array_format}
use librpc.Object.Pack.{vpack}
use librpc.Base.Int.{pos}
use librpc.Object.Types.{string, int64, items, array, Object}
use librpc.Object.Unpack.{string_out, int64_out, pos, pointer, Object, vunpack}
use librpc.Base.{
  no_fuel, fault, ◌≢◌, arith, Option, Bytes, List, [], ◌∷◌, codes, some, ◌≡◌, refl, ok,
}

abbrev numbers : Object
numbers = array (
    items (
      int64 (pos 4) ∷ string (codes "x") ∷ array (items (int64 (pos 5) ∷ [])) ∷ int64 (pos 6) ∷ []))

mixed :
    vunpack (some numbers) (codes "[i,s,[i]]") (pointer ∷ pointer ∷ pointer ∷ [])
    ≡ ok (pos 3, int64_out (pos 4) ∷ string_out (some (codes "x")) ∷ int64_out (pos 5) ∷ [])
unfolding vunpack
mixed = refl

-- The comma behind an inner container ends the layer: the last element is not read.
after_inner_comma :
    vunpack (some numbers) (codes "[i,s,[i],i]") (pointer ∷ pointer ∷ pointer ∷ pointer ∷ [])
    ≡ ok (pos 3, int64_out (pos 4) ∷ string_out (some (codes "x")) ∷ int64_out (pos 5) ∷ [])
unfolding vunpack
after_inner_comma = refl

abbrev untyped : Bytes → Option Object → Option Object
untyped type value = value

abbrev letters : List Leaf
letters = int64_leaf (pos 4) ∷ data_leaf (7 ∷ 8 ∷ []) ∷ string_leaf (codes "x") ∷ []

letters_format : array_format letters ≡ codes "[i,B,s]"
letters_format = refl

vunpack-vpack_example :
    (o : Object) × (vpack untyped (array_format letters) (args_of (list (shapes_of letters)) [])
      ≡ ok (some o))
    × (vunpack (some o) (array_format letters) (all_pointers letters)
        ≡ ok (pos 3, all_outs letters))
vunpack-vpack_example = vunpack-vpack untyped letters (tt, (tt, (tt, tt))) (omega arith)

vunpack-ends_example : vunpack (some numbers) (codes "[i,s,[i],i]") (pointer ∷ []) ≢ fault no_fuel
vunpack-ends_example = vunpack-ends (some numbers) (codes "[i,s,[i],i]") (pointer ∷ [])
