-- ===== src/Object/Pack/Elements.antt =====
-- src/rpc_object.c: the rounds of rpc_object_vpack at the start and at the end of an element.
use librpc.Object.Pack.Values.{Arg}
use librpc.Object.Types.{bool, end, nil, dictionary, Fields, null, Items, array, Object}
use librpc.Base.{
  subst, true, [], inr, ◌++◌, refl, inl, false, Outcome-cases, ◌==◌, arith, Outcome, ok, ◌⊎◌,
  length, ◌∷◌, List, Option, Bytes, ℕ, suc, zero, ◌≡◌, ap, ◌∙◌, ◌<◌,
}
use librpc.Object.Pack.{
  bool, null, array, dictionary, Arg, Object, Pack, failed, returns, goes, convert, convert_element,
  round, pack_loop, delim_of, element_at, uncomma, close_container,
}
use librpc.Object.Pack.Search.{is_stop}
use librpc.Object.Pack.Rounds.{round_forward}
use librpc.Object.Pack.Slots.{
  Slot, array_slot, inline_slot, given_slot, container_of, prefixed, slot_args, slot_label,
  slot_keys, slot_indices, filled, SlotReady, pack, store_lem, label_lem, scan_slot, end_of,
  before_of, letter-PlainChar,
}
use librpc.Object.Pack.Shapes.{
  null_leaf, bool_leaf, Shape, Shapes, Rows, leaf, list, table, print, print_shapes, print_rows,
  letter, leaf_args, leaf_object, Leaf,
}

module _ (rpct_new : Bytes → Option Object → Option Object) where
  -- The loop from a state on, with enough fuel.
  unfoldable pub rest_of : Pack → ℕ → Bytes → Outcome (Option Object)
  rest_of p prev format = pack_loop rpct_new (suc (length format)) p prev format

  pub pack_loop_fuel :
      (f g : ℕ) (p : Pack) (prev : ℕ) (format : Bytes)
      → length format < f
      → length format < g
      → pack_loop rpct_new f p prev format ≡ pack_loop rpct_new g p prev format
  unfolding pack_loop
  pack_loop_fuel zero g p prev format h k = elim h [ ]
  pack_loop_fuel (suc f) zero p prev format h k = elim k [ ]
  pack_loop_fuel (suc f) (suc g) p prev [] h k = refl
  pack_loop_fuel (suc f) (suc g) p prev (ch ∷ rest) h k =
      elim (Outcome-cases (round rpct_new p prev ch rest)) [
        | inl (why, e) ↦ rw e
        | inr (failed, e) ↦ rw e
        | inr (returns o, e) ↦ rw e
        | inr (goes q b format, e) ↦
            let less = round_forward rpct_new p q prev ch b rest format e in
            rw e (pack_loop_fuel f g q b format (omega (arith, h, less)) (omega (arith, k, less)))
      ]

  pub rest_of-round :
      (p q : Pack) (prev ch b : ℕ) (rest format : Bytes)
      → round rpct_new p prev ch rest ≡ ok (goes q b format)
      → rest_of p prev (ch ∷ rest) ≡ rest_of q b format
  unfolding rest_of pack_loop
  rest_of-round p q prev ch b rest format e =
      let less = round_forward rpct_new p q prev ch b rest format e in
      rw e (
        pack_loop_fuel (suc (length rest)) (suc (length format)) q b format (omega (arith, less))
          (omega arith))

  -- The first character of an element is not the end of its container.
  first_char :
      (slot : Slot) (s : Shape) (rest : Bytes)
      → SlotReady slot
      → (c : ℕ) × (cs : Bytes) × (prefixed slot (print s rest) ≡ c ∷ cs)
        × ((c == delim_of (container_of slot)) ≡ false)
  first_char (array_slot ys) (leaf l) rest p =
      (letter l, rest, refl, ground (arith, letter-PlainChar l))
  first_char (array_slot ys) (list xs) rest p = (b'[', _, refl, refl)
  first_char (array_slot ys) (table rows) rest p = (b'{', _, refl, refl)
  first_char (given_slot es k) (leaf l) rest p =
      (letter l, rest, refl, ground (arith, letter-PlainChar l))
  first_char (given_slot es k) (list xs) rest p = (b'[', _, refl, refl)
  first_char (given_slot es k) (table rows) rest p = (b'{', _, refl, refl)
  first_char (inline_slot es []) s rest p = (b':', print s rest, refl, refl)
  first_char (inline_slot es (c ∷ k)) s rest p =
      (c, k ++ b':' ∷ print s rest, refl, ground (arith, p.0))

  -- A comma, or the end of the container.
  abbrev pub Ends : Slot → ℕ → Type 0
  Ends slot t = (t ≡ b',') ⊎ (t ≡ delim_of (container_of slot))

  stop_at_delim : (slot : Slot) (t : ℕ) → Ends slot t → is_stop t ≡ true
  stop_at_delim slot t (inl e) = rw e
  stop_at_delim (array_slot ys) t (inr e) = rw e
  stop_at_delim (inline_slot es k) t (inr e) = rw e
  stop_at_delim (given_slot es k) t (inr e) = rw e

  -- The round of an element, from where its end was found.
  convert_element_lem :
      (slot : Slot) (s : Shape) (below : List Object) (ks : List Bytes) (is : List ℕ) (r : List Arg)
      (prev t : ℕ) (rest : Bytes)
      → SlotReady slot
      → Ends slot t
      → convert_element rpct_new
          (pack (container_of slot ∷ below) ks is (slot_args slot r))
          (container_of slot)
          prev
          (prefixed slot (print s (t ∷ rest)))
        ≡ (let w =
              element_at
                (delim_of (container_of slot))
                (record (end_of s (before_of slot prev) t rest) { label = slot_label slot }) in
            convert rpct_new
              (pack (container_of slot ∷ below) (slot_keys slot ks) (slot_indices slot is) r)
              w.0
              w.1
              w.2)
  unfolding convert_element
  convert_element_lem slot s below ks is r prev t rest p e =
      rw (scan_slot slot s prev t rest p (stop_at_delim slot t e))
        (rw (label_lem slot below ks is r))

  convert_leaf :
      (slot : Slot) (l : Leaf) (below : List Object) (ks : List Bytes) (is : List ℕ) (r : List Arg)
      (x : ℕ) (rest : Bytes)
      → convert rpct_new
          (pack
            (container_of slot ∷ below)
            (slot_keys slot ks)
            (slot_indices slot is)
            (leaf_args l r))
          (letter l)
          x
          rest
        ≡ ok (goes (pack (filled slot (leaf_object l) ∷ below) ks is r) x rest)
  unfolding convert
  convert_leaf slot null_leaf below ks is r x rest = store_lem slot below ks is r null x rest
  convert_leaf slot (bool_leaf true) below ks is r x rest =
      store_lem slot below ks is r (bool true) x rest
  convert_leaf slot (bool_leaf false) below ks is r x rest =
      store_lem slot below ks is r (bool false) x rest
  convert_leaf slot l below ks is r x rest = store_lem slot below ks is r (leaf_object l) x rest

  pub leaf_round :
      (slot : Slot) (l : Leaf) (below : List Object) (ks : List Bytes) (is : List ℕ) (r : List Arg)
      (prev t : ℕ) (rest : Bytes)
      → SlotReady slot
      → Ends slot t
      → (b : ℕ) × (convert_element rpct_new
            (pack (container_of slot ∷ below) ks is (slot_args slot (leaf_args l r)))
            (container_of slot)
            prev
            (prefixed slot (print (leaf l) (t ∷ rest)))
          ≡ ok (goes (pack (filled slot (leaf_object l) ∷ below) ks is r) b (uncomma (t ∷ rest))))
  leaf_round slot l below ks is r prev t rest p (inl e) = (
    b',',
    convert_element_lem slot (leaf l) below ks is (leaf_args l r) prev t rest p (inl e)
        ∙ rw e (convert_leaf slot l below ks is r b',' rest),
  )
  leaf_round (array_slot ys) l below ks is r prev t rest p (inr e) = (
    letter l,
    convert_element_lem (array_slot ys) (leaf l) below ks is (leaf_args l r) prev t rest p (inr e)
        ∙ rw e (convert_leaf (array_slot ys) l below ks is r (letter l) (b']' ∷ rest)),
  )
  leaf_round (inline_slot es k) l below ks is r prev t rest p (inr e) = (
    letter l,
    convert_element_lem (inline_slot es k) (leaf l) below ks is (leaf_args l r) prev t rest p
          (inr e)
        ∙ rw e (convert_leaf (inline_slot es k) l below ks is r (letter l) (b'}' ∷ rest)),
  )
  leaf_round (given_slot es k) l below ks is r prev t rest p (inr e) = (
    letter l,
    convert_element_lem (given_slot es k) (leaf l) below ks is (leaf_args l r) prev t rest p (inr e)
        ∙ rw e (convert_leaf (given_slot es k) l below ks is r (letter l) (b'}' ∷ rest)),
  )

  -- An element whose conversion goes on.
  pub rest_of_element :
      (slot : Slot) (s : Shape) (below : List Object) (ks : List Bytes) (is : List ℕ)
      (args : List Arg) (q : Pack) (prev b : ℕ) (rest format : Bytes)
      → SlotReady slot
      → convert_element rpct_new
          (pack (container_of slot ∷ below) ks is args)
          (container_of slot)
          prev
          (prefixed slot (print s rest))
        ≡ ok (goes q b format)
      → rest_of (pack (container_of slot ∷ below) ks is args) prev (prefixed slot (print s rest))
        ≡ rest_of q b format
  unfolding round
  rest_of_element slot s below ks is args q prev b rest format p h =
      let (c, cs, e, d) = first_char slot s rest p in
      ap (rest_of (pack (container_of slot ∷ below) ks is args) prev) e
      ∙ rest_of-round (pack (container_of slot ∷ below) ks is args) q prev c b cs format (
          rw d (
            subst
              (λ (format' : Bytes).
                convert_element rpct_new (pack (container_of slot ∷ below) ks is args)
                  (container_of slot) prev format'
                ≡ ok (goes q b format))
              e h))

  -- The end of a container, in a slot of the container around it.
  pub rest_of_bracket :
      (slot : Slot) (xs : Items) (below : List Object) (ks : List Bytes) (is : List ℕ)
      (r : List Arg) (prev : ℕ) (rest : Bytes)
      → rest_of
          (pack (array xs ∷ container_of slot ∷ below) (slot_keys slot ks) (slot_indices slot is) r)
          prev
          (b']' ∷ rest)
        ≡ rest_of (pack (filled slot (array xs) ∷ below) ks is r) b']' (uncomma rest)
  unfolding round close_container
  rest_of_bracket slot xs below ks is r prev rest =
      rest_of-round
        (pack (array xs ∷ container_of slot ∷ below) (slot_keys slot ks) (slot_indices slot is) r)
        (pack (filled slot (array xs) ∷ below) ks is r) prev b']' b']' rest (uncomma rest)
        (store_lem slot below ks is r (array xs) b']' (uncomma rest))

  pub rest_of_brace :
      (slot : Slot) (fs : Fields) (below : List Object) (ks : List Bytes) (is : List ℕ)
      (r : List Arg) (prev : ℕ) (rest : Bytes)
      → rest_of
          (pack
            (dictionary fs ∷ container_of slot ∷ below)
            (slot_keys slot ks)
            (slot_indices slot is)
            r)
          prev
          (b'}' ∷ rest)
        ≡ rest_of (pack (filled slot (dictionary fs) ∷ below) ks is r) b'}' (uncomma rest)
  unfolding round close_container
  rest_of_brace slot fs below ks is r prev rest =
      rest_of-round
        (pack (dictionary fs ∷ container_of slot ∷ below) (slot_keys slot ks) (slot_indices slot is)
          r)
        (pack (filled slot (dictionary fs) ∷ below) ks is r) prev b'}' b'}' rest (uncomma rest)
        (store_lem slot below ks is r (dictionary fs) b'}' (uncomma rest))

  -- The start of a container.
  pub open_round :
      (slot : Slot) (xs : Shapes) (below : List Object) (ks : List Bytes) (is : List ℕ)
      (r : List Arg) (prev t : ℕ) (rest : Bytes)
      → SlotReady slot
      → Ends slot t
      → convert_element rpct_new
          (pack (container_of slot ∷ below) ks is (slot_args slot r))
          (container_of slot)
          prev
          (prefixed slot (print (list xs) (t ∷ rest)))
        ≡ ok (
            goes
              (pack
                (array nil ∷ container_of slot ∷ below)
                (slot_keys slot ks)
                (slot_indices slot is)
                r)
              b'['
              (print_shapes false xs (b']' ∷ t ∷ rest)))
  unfolding convert
  open_round (array_slot ys) xs below ks is r prev t rest p e =
      convert_element_lem (array_slot ys) (list xs) below ks is r prev t rest p e
  open_round (inline_slot es k) xs below ks is r prev t rest p e =
      convert_element_lem (inline_slot es k) (list xs) below ks is r prev t rest p e
  open_round (given_slot es k) xs below ks is r prev t rest p e =
      convert_element_lem (given_slot es k) (list xs) below ks is r prev t rest p e

  pub open_brace :
      (slot : Slot) (rows : Rows) (below : List Object) (ks : List Bytes) (is : List ℕ)
      (r : List Arg) (prev t : ℕ) (rest : Bytes)
      → SlotReady slot
      → Ends slot t
      → convert_element rpct_new
          (pack (container_of slot ∷ below) ks is (slot_args slot r))
          (container_of slot)
          prev
          (prefixed slot (print (table rows) (t ∷ rest)))
        ≡ ok (
            goes
              (pack
                (dictionary end ∷ container_of slot ∷ below)
                (slot_keys slot ks)
                (slot_indices slot is)
                r)
              b'{'
              (print_rows false rows (b'}' ∷ t ∷ rest)))
  unfolding convert
  open_brace (array_slot ys) rows below ks is r prev t rest p e =
      convert_element_lem (array_slot ys) (table rows) below ks is r prev t rest p e
  open_brace (inline_slot es k) rows below ks is r prev t rest p e =
      convert_element_lem (inline_slot es k) (table rows) below ks is r prev t rest p e
  open_brace (given_slot es k) rows below ks is r prev t rest p e =
      convert_element_lem (given_slot es k) (table rows) below ks is r prev t rest p e
