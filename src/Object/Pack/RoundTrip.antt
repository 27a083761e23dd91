-- ===== src/Object/Pack/RoundTrip.antt =====
-- src/rpc_object.c: rpc_object_vpack makes the object that a format and its arguments stand for.
use librpc.Object.Value.{c_string}
use librpc.Object.Dictionary.{insert, Entries}
use librpc.Object.Pack.Elements.{
  rest_of-round, rest_of_brace, open_brace, rest_of_bracket, open_round, rest_of_element,
  leaf_round, rest_of, Ends,
}
use librpc.Object.Pack.Values.{Arg}
use librpc.Object.Types.{fields, items, end, nil, dictionary, array, Object}
use librpc.Base.{
  some, true, [], inr, ◌++◌, refl, inl, false, ok, ◌∷◌, List, Option, Bytes, ℕ, ◌≡◌, ◌∙◌, All,
}
use librpc.Object.Pack.{c_string, vpack, array, dictionary, Arg, Object, Pack, uncomma}
use librpc.Object.Pack.Slots.{
  Slot, array_slot, inline_slot, given_slot, container_of, prefixed, slot_args, slot_keys,
  slot_indices, filled, SlotReady, pack, PlainChar,
}
use librpc.Object.Pack.Shapes.{
  rows_list, rows_args, shapes_list, shapes_args, meaning, args_of, null_leaf, bool_leaf, Shape,
  Shapes, Rows, leaf, list, table, stop, then_shape, last, inline_row, given_row, print,
  print_shapes, print_rows, letter, leaf_args, leaf_object, Leaf,
}

-- The keys in a format hold no character that ends an element, and no colon.
abbrev mutual
  pub Plain : Shape → Type 0
  Plain (leaf l) = Unit {0}
  Plain (list xs) = PlainShapes xs
  Plain (table rows) = PlainRows rows

  pub PlainShapes : Shapes → Type 0
  PlainShapes stop = Unit {0}
  PlainShapes (then_shape x xs) = Plain x × PlainShapes xs

  pub PlainRows : Rows → Type 0
  PlainRows last = Unit {0}
  PlainRows (inline_row k x rows) = All PlainChar k × Plain x × PlainRows rows
  PlainRows (given_row k x rows) = Plain x × PlainRows rows

module _ (rpct_new : Bytes → Option Object → Option Object) where
  -- The loop comes from the one state to the other.
  abbrev Leads : Pack → ℕ → Bytes → Pack → Bytes → Type 0
  Leads p prev format q format' =
      (b : ℕ) × (rest_of rpct_new p prev format ≡ rest_of rpct_new q b format')

  mutual
    element_lem :
        (s : Shape) (slot : Slot) (below : List Object) (ks : List Bytes) (is : List ℕ)
        (r : List Arg) (prev t : ℕ) (rest : Bytes)
        → Plain s
        → SlotReady slot
        → Ends rpct_new slot t
        → Leads
            (pack (container_of slot ∷ below) ks is (slot_args slot (args_of s r)))
            prev
            (prefixed slot (print s (t ∷ rest)))
            (pack (filled slot (meaning s) ∷ below) ks is r)
            (uncomma (t ∷ rest))
    element_lem (leaf l) slot below ks is r prev t rest h p e =
        let (b, goes_on) = leaf_round rpct_new slot l below ks is r prev t rest p e in
        (
          b,
          rest_of_element rpct_new slot (leaf l) below ks is (slot_args slot (leaf_args l r))
              (pack (filled slot (leaf_object l) ∷ below) ks is r) prev b (t ∷ rest)
              (uncomma (t ∷ rest)) p goes_on,
        )
    element_lem (list xs) slot below ks is r prev t rest h p e =
        let (b, inner) =
          shapes_lem xs [] (container_of slot ∷ below) (slot_keys slot ks) (slot_indices slot is) r
            b'[' (t ∷ rest) h in
        (
          b']',
          rest_of_element rpct_new slot (list xs) below ks is (slot_args slot (shapes_args xs r))
                (pack (array nil ∷ container_of slot ∷ below) (slot_keys slot ks)
                  (slot_indices slot is) (shapes_args xs r))
                prev b'[' (t ∷ rest) (print_shapes false xs (b']' ∷ t ∷ rest)) p
                (open_round rpct_new slot xs below ks is (shapes_args xs r) prev t rest p e)
              ∙ inner
              ∙ rest_of_bracket rpct_new slot (items (shapes_list [] xs)) below ks is r b
                  (t ∷ rest),
        )
    element_lem (table rows) slot below ks is r prev t rest h p e =
        let (b, inner) =
          rows_lem rows [] (container_of slot ∷ below) (slot_keys slot ks) (slot_indices slot is) r
            b'{' (t ∷ rest) h in
        (
          b'}',
          rest_of_element rpct_new slot (table rows) below ks is (slot_args slot (rows_args rows r))
                (pack (dictionary end ∷ container_of slot ∷ below) (slot_keys slot ks)
                  (slot_indices slot is) (rows_args rows r))
                prev b'{' (t ∷ rest) (print_rows false rows (b'}' ∷ t ∷ rest)) p
                (open_brace rpct_new slot rows below ks is (rows_args rows r) prev t rest p e)
              ∙ inner
              ∙ rest_of_brace rpct_new slot (fields (rows_list [] rows)) below ks is r b (t ∷ rest),
        )

    shapes_lem :
        (xs : Shapes) (ys : List Object) (below : List Object) (ks : List Bytes) (is : List ℕ)
        (r : List Arg) (prev : ℕ) (rest : Bytes)
        → PlainShapes xs
        → Leads
            (pack (array (items ys) ∷ below) ks is (shapes_args xs r))
            prev
            (print_shapes false xs (b']' ∷ rest))
            (pack (array (items (shapes_list ys xs)) ∷ below) ks is r)
            (b']' ∷ rest)
    shapes_lem stop ys below ks is r prev rest h = (prev, refl)
    shapes_lem (then_shape x stop) ys below ks is r prev rest h =
        element_lem x (array_slot ys) below ks is r prev b']' rest h.0 tt (inr refl)
    shapes_lem (then_shape x (then_shape y ys')) ys below ks is r prev rest h =
        let more = then_shape y ys' in
        let (b, first) =
          element_lem x (array_slot ys) below ks is (shapes_args more r) prev b','
            (print_shapes false more (b']' ∷ rest)) h.0 tt (inl refl) in
        let (b', others) =
          shapes_lem (then_shape y ys') (ys ++ meaning x ∷ []) below ks is r b rest h.1 in
        (b', first ∙ others)

    rows_lem :
        (rows : Rows) (es : Entries) (below : List Object) (ks : List Bytes) (is : List ℕ)
        (r : List Arg) (prev : ℕ) (rest : Bytes)
        → PlainRows rows
        → Leads
            (pack (dictionary (fields es) ∷ below) ks is (rows_args rows r))
            prev
            (print_rows false rows (b'}' ∷ rest))
            (pack (dictionary (fields (rows_list es rows)) ∷ below) ks is r)
            (b'}' ∷ rest)
    rows_lem last es below ks is r prev rest h = (prev, refl)
    rows_lem (inline_row k x last) es below ks is r prev rest h =
        element_lem x (inline_slot es k) below ks is r prev b'}' rest h.1 h.0 (inr refl)
    rows_lem (inline_row k x more) es below ks is r prev rest h =
        let (b, first) =
          element_lem x (inline_slot es k) below ks is (rows_args more r) prev b','
            (print_rows false more (b'}' ∷ rest)) h.1 h.0 (inl refl) in
        let (b', others) = rows_lem more (insert k (meaning x) es) below ks is r b rest h.2 in
        (b', first ∙ others)
    rows_lem (given_row k x last) es below ks is r prev rest h =
        element_lem x (given_slot es k) below ks is r prev b'}' rest h.0 tt (inr refl)
    rows_lem (given_row k x more) es below ks is r prev rest h =
        let (b, first) =
          element_lem x (given_slot es k) below ks is (rows_args more r) prev b','
            (print_rows false more (b'}' ∷ rest)) h.0 tt (inl refl) in
        let (b', others) =
          rows_lem more (insert (c_string k) (meaning x) es) below ks is r b rest h.1 in
        (b', first ∙ others)

  vpack_leaf :
      (l : Leaf) → vpack rpct_new (letter l ∷ []) (leaf_args l []) ≡ ok (some (leaf_object l))
  unfolding vpack
  vpack_leaf null_leaf = refl
  vpack_leaf (bool_leaf true) = refl
  vpack_leaf (bool_leaf false) = refl
  vpack_leaf l = refl

  pub vpack-print :
      (s : Shape) → Plain s → vpack rpct_new (print s []) (args_of s []) ≡ ok (some (meaning s))
  unfolding vpack rest_of
  vpack-print (leaf l) h = vpack_leaf l
  vpack-print (list xs) h =
      rest_of-round rpct_new (pack [] [] [] (shapes_args xs []))
        (pack (array nil ∷ []) [] [] (shapes_args xs [])) 0 b'[' b'['
        (print_shapes false xs (b']' ∷ [])) (print_shapes false xs (b']' ∷ [])) refl
      ∙ (shapes_lem xs [] [] [] [] [] b'[' [] h).1
  vpack-print (table rows) h =
      rest_of-round rpct_new (pack [] [] [] (rows_args rows []))
        (pack (dictionary end ∷ []) [] [] (rows_args rows [])) 0 b'{' b'{'
        (print_rows false rows (b'}' ∷ [])) (print_rows false rows (b'}' ∷ [])) refl
      ∙ (rows_lem rows [] [] [] [] [] b'{' [] h).1
