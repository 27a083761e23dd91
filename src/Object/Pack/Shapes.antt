-- ===== src/Object/Pack/Shapes.antt =====
-- Formats of rpc_object_vpack, with the arguments that belong to them and the object that they stand for.
use librpc.Object.Value.{c_string}
use librpc.Object.Dictionary.{insert, Entries}
use librpc.Base.Int.{pos, ℤ}
use librpc.Base.{
  if◌then◌else◌, refl, ◌++◌, ok, some, true, [], false, ◌≡◌, ◌∷◌, Bool, ℕ, Bytes, List,
}
use librpc.Object.Types.{
  binary, string, fd, date, fields, double, dictionary, uint64, items, int64, array, null, bool,
  Object,
}
use librpc.Object.Pack.Values.{
  data_arg, double_arg, uint64_arg, int64_arg, int_arg, object_arg, string_arg, Arg, take_value,
}

-- A value of one letter.
pub data Leaf : Type 0 where
  null_leaf : Leaf
  value_leaf : Object → Leaf
  bool_leaf : Bool → Leaf
  int64_leaf : ℤ → Leaf
  uint64_leaf : ℕ → Leaf
  double_leaf : ℕ → Leaf
  date_leaf : ℤ → Leaf
  fd_leaf : ℤ → Leaf
  string_leaf : Bytes → Leaf
  data_leaf : Bytes → Leaf

abbrev pub letter : Leaf → ℕ
letter null_leaf = b'n'
letter (value_leaf o) = b'v'
letter (bool_leaf b) = b'b'
letter (int64_leaf i) = b'i'
letter (uint64_leaf n) = b'u'
letter (double_leaf d) = b'd'
letter (date_leaf t) = b'D'
letter (fd_leaf n) = b'f'
letter (string_leaf s) = b's'
letter (data_leaf b) = b'B'

abbrev pub leaf_args : Leaf → List Arg → List Arg
leaf_args null_leaf r = r
leaf_args (value_leaf o) r = object_arg (some o) ∷ r
leaf_args (bool_leaf b) r = int_arg (pos (if b then 1 else 0)) ∷ r
leaf_args (int64_leaf i) r = int64_arg i ∷ r
leaf_args (uint64_leaf n) r = uint64_arg n ∷ r
leaf_args (double_leaf d) r = double_arg d ∷ r
leaf_args (date_leaf t) r = int64_arg t ∷ r
leaf_args (fd_leaf n) r = int_arg n ∷ r
leaf_args (string_leaf s) r = string_arg (some s) ∷ r
leaf_args (data_leaf b) r = data_arg b ∷ r

abbrev pub leaf_object : Leaf → Object
leaf_object null_leaf = null
leaf_object (value_leaf o) = o
leaf_object (bool_leaf b) = bool b
leaf_object (int64_leaf i) = int64 i
leaf_object (uint64_leaf n) = uint64 n
leaf_object (double_leaf d) = double d
leaf_object (date_leaf t) = date t
leaf_object (fd_leaf n) = fd n
leaf_object (string_leaf s) = string (c_string s)
leaf_object (data_leaf b) = binary b

pub take_value-leaf :
    (l : Leaf) (r : List Arg) → take_value (letter l) (leaf_args l r) ≡ some (ok (leaf_object l, r))
unfolding take_value
take_value-leaf null_leaf r = refl
take_value-leaf (value_leaf o) r = refl
take_value-leaf (bool_leaf true) r = refl
take_value-leaf (bool_leaf false) r = refl
take_value-leaf (int64_leaf i) r = refl
take_value-leaf (uint64_leaf n) r = refl
take_value-leaf (double_leaf d) r = refl
take_value-leaf (date_leaf t) r = refl
take_value-leaf (fd_leaf n) r = refl
take_value-leaf (string_leaf s) r = refl
take_value-leaf (data_leaf b) r = refl

-- A letter, an array in brackets, or a dictionary in braces. The key of an entry stands in the format in
-- front of a colon, or is an argument in front of those of the value.
mutual
  pub data Shape : Type 0 where
    leaf : Leaf → Shape
    list : Shapes → Shape
    table : Rows → Shape

  pub data Shapes : Type 0 where
    stop : Shapes
    then_shape : Shape → Shapes → Shapes

  pub data Rows : Type 0 where
    last : Rows
    inline_row : Bytes → Shape → Rows → Rows
    given_row : Bytes → Shape → Rows → Rows

abbrev pub comma_if : Bool → Bytes → Bytes
comma_if true rest = b',' ∷ rest
comma_if false rest = rest

-- The format of a shape, in front of what follows. A comma stands between elements.
abbrev mutual
  pub print : Shape → Bytes → Bytes
  print (leaf l) rest = letter l ∷ rest
  print (list xs) rest = b'[' ∷ print_shapes false xs (b']' ∷ rest)
  print (table rows) rest = b'{' ∷ print_rows false rows (b'}' ∷ rest)

  pub print_shapes : Bool → Shapes → Bytes → Bytes
  print_shapes comma stop rest = rest
  print_shapes comma (then_shape x xs) rest = comma_if comma (print x (print_shapes true xs rest))

  pub print_rows : Bool → Rows → Bytes → Bytes
  print_rows comma last rest = rest
  print_rows comma (inline_row k x rows) rest =
      comma_if comma (k ++ b':' ∷ print x (print_rows true rows rest))
  print_rows comma (given_row k x rows) rest = comma_if comma (print x (print_rows true rows rest))

-- The arguments of a shape, in front of those that follow.
abbrev mutual
  pub args_of : Shape → List Arg → List Arg
  args_of (leaf l) r = leaf_args l r
  args_of (list xs) r = shapes_args xs r
  args_of (table rows) r = rows_args rows r

  pub shapes_args : Shapes → List Arg → List Arg
  shapes_args stop r = r
  shapes_args (then_shape x xs) r = args_of x (shapes_args xs r)

  pub rows_args : Rows → List Arg → List Arg
  rows_args last r = r
  rows_args (inline_row k x rows) r = args_of x (rows_args rows r)
  rows_args (given_row k x rows) r = string_arg (some k) ∷ args_of x (rows_args rows r)

-- The object of a shape; an entry whose key is there already replaces its value.
abbrev mutual
  pub meaning : Shape → Object
  meaning (leaf l) = leaf_object l
  meaning (list xs) = array (items (shapes_list [] xs))
  meaning (table rows) = dictionary (fields (rows_list [] rows))

  pub shapes_list : List Object → Shapes → List Object
  shapes_list before stop = before
  shapes_list before (then_shape x xs) = shapes_list (before ++ meaning x ∷ []) xs

  pub rows_list : Entries → Rows → Entries
  rows_list before last = before
  rows_list before (inline_row k x rows) = rows_list (insert k (meaning x) before) rows
  rows_list before (given_row k x rows) = rows_list (insert (c_string k) (meaning x) before) rows
