-- ===== src/Object/Pack/Rounds.antt =====
-- src/rpc_object.c: a round of the loop of rpc_object_vpack goes forward, so the loop ends.
use librpc.Object.Value.{string_create_len}
use librpc.Object.Pack.Search.{ElementEnd, is_stop, scan}
use librpc.Object.Array.{array_create, store_at, array_list, array_steal_value}
use librpc.Object.Pack.Values.{Arg, taken, take_value, nesting_after, split_quote, split_type}
use librpc.Object.Dictionary.{dictionary_create, dictionary_table, dictionary_steal_value}
use librpc.Base.{
  zero, false, ◌<◌, ◌==◌, Bool-cases, ◌⊎◌, suc, List, inr, inl, Option-cases, Outcome-cases, [],
  ◌∷◌, Outcome, none, some, ℕ, ◌≡◌, ◌≢◌, ◌≤◌, fault, no_fuel, ok, arith, length, Option, Bytes,
}
use librpc.Object.Types.{Object}
use librpc.Object.Pack.{
  round_in, delim_of, element_at, round, pack_loop, convert_element, vpack, string_create_len,
  convert, uncomma, finish_value, open_container, close_container, label_element, Pack, Verdict,
  failed, returns, goes, store, pop_key, pop_index, skip_one,
}

pop_key_lem : (p : Pack) (c v : Object) → pop_key p c v ≢ fault no_fuel
unfolding pop_key dictionary_steal_value dictionary_table
pop_key_lem p c v = ground arith

pop_index_lem : (p : Pack) (c v : Object) → pop_index p c v ≢ fault no_fuel
unfolding pop_index array_steal_value array_list store_at
pop_index_lem p c v = ground arith

store_ends :
    (p : Pack) (o : Option Object) (prev : ℕ) (rest : Bytes) → store p o prev rest ≢ fault no_fuel
unfolding store
store_ends p none prev rest = ground arith
store_ends p (some v) prev rest = grind (arith, pop_key_lem, pop_index_lem)

store_forward :
    (p q : Pack) (o : Option Object) (prev b : ℕ) (rest format : Bytes)
    → store p o prev rest ≡ ok (goes q b format)
    → format ≡ rest
unfolding store
store_forward p q o prev b rest format h = ground (arith, h)

skip_one_ends : (v : Outcome Verdict) → v ≢ fault no_fuel → skip_one v ≢ fault no_fuel
unfolding skip_one
skip_one_ends (fault why) h = λ e. h e
skip_one_ends (ok failed) h = ground arith
skip_one_ends (ok (returns o)) h = ground arith
skip_one_ends (ok (goes p b [])) h = ground arith
skip_one_ends (ok (goes p b (c ∷ cs))) h = ground arith

skip_one_forward :
    (v : Outcome Verdict) (q : Pack) (b : ℕ) (format : Bytes)
    → skip_one v ≡ ok (goes q b format)
    → (p : Pack) × (a : ℕ) × (c : ℕ) × (v ≡ ok (goes p a (c ∷ format)))
unfolding skip_one
skip_one_forward (fault why) q b format h = absurd (ground (arith, h))
skip_one_forward (ok failed) q b format h = absurd (ground (arith, h))
skip_one_forward (ok (returns o)) q b format h = absurd (ground (arith, h))
skip_one_forward (ok (goes p a [])) q b format h = absurd (ground (arith, h))
skip_one_forward (ok (goes p a (c ∷ cs))) q b format h = (p, a, c, ground (arith, h))

split_quote_forward :
    (text before rest : Bytes) → split_quote text ≡ some (before, rest) → length rest ≤ length text
unfolding split_quote
split_quote_forward [] before rest h = cc
split_quote_forward (c ∷ cs) before rest h = elim (Option-cases (split_quote cs)) [
  | inl e ↦ ground (arith, h, e)
  | inr ((t, r), e) ↦ ground (arith, h, e, split_quote_forward cs t r e)
]

split_type_ends : (n : ℕ) (text : Bytes) → split_type n text ≢ fault no_fuel
unfolding split_type
split_type_ends n [] = ground arith
split_type_ends n (c ∷ cs) = ground (arith, split_type_ends (nesting_after n c) cs)

split_type_forward :
    (n : ℕ) (text before rest : Bytes)
    → split_type n text ≡ ok (before, rest)
    → length rest ≤ length text
unfolding split_type
split_type_forward n [] before rest h = cc
split_type_forward n (c ∷ cs) before rest h =
    elim (Outcome-cases (split_type (nesting_after n c) cs)) [
      | inl (why, e) ↦ ground (arith, h, e)
      | inr ((t, r), e) ↦ ground (arith, h, e, split_type_forward (nesting_after n c) cs t r e)
    ]

taken_ends : (f : Arg → Option Object) (args : List Arg) → taken f args ≢ fault no_fuel
unfolding taken
taken_ends f [] = ground arith
taken_ends f (a ∷ args) = ground arith

take_value_ends :
    (ch : ℕ) (args : List Arg) (t : Outcome (Object × List Arg))
    → take_value ch args ≡ some t
    → t ≢ fault no_fuel
unfolding take_value
take_value_ends ch args t h = grind (arith, taken_ends)

scan_ends : (prev : ℕ) (format : Bytes) → scan prev format ≢ fault no_fuel
unfolding scan
scan_ends prev [] = ground arith
scan_ends prev (c ∷ cs) = ground (arith, scan_ends c cs)

scan_forward :
    (prev : ℕ) (format : Bytes) (s : ElementEnd)
    → scan prev format ≡ ok s
    → suc (length s.behind) ≤ length format
unfolding scan
scan_forward prev [] s h = absurd (ground (arith, h))
scan_forward prev (c ∷ cs) s h = elim (Outcome-cases (scan c cs)) [
  | inl (why, e) ↦ ground (arith, h, e)
  | inr (t, e) ↦ ground (arith, h, e, scan_forward c cs t e)
]

scan_first :
    (prev c : ℕ) (cs : Bytes) (s : ElementEnd)
    → scan prev (c ∷ cs) ≡ ok s
    → (s.stop ≡ c) ⊎ (suc (length s.behind) ≤ length cs)
unfolding scan
scan_first prev c cs s h = elim (Bool-cases (is_stop c)) [
  | inl here ↦ inl (ground (arith, h, here))
  | inr on ↦ elim (Outcome-cases (scan c cs)) [
    | inl (why, e) ↦ absurd (ground (arith, h, on, e))
    | inr (t, e) ↦ inr (ground (arith, h, on, e, scan_forward c cs t e))
  ]
]

label_element_ends :
    (container : Object) (label : Option Bytes) (p : Pack)
    → label_element container label p ≢ fault no_fuel
unfolding label_element
label_element_ends container none p = ground arith
label_element_ends container (some text) p = ground arith

uncomma-le : (rest : Bytes) → length (uncomma rest) ≤ length rest
uncomma-le [] = ground arith
uncomma-le (c ∷ cs) = ground arith

module _ (rpct_new : Bytes → Option Object → Option Object) where
  finish_ends :
      (p : Pack) (o : Option Object) (prev : ℕ) (rest : Bytes)
      → finish_value rpct_new p o prev rest ≢ fault no_fuel
  unfolding finish_value
  finish_ends p o prev rest = elim (Option-cases p.type) [
    | inl e ↦ ground (arith, e, store_ends p o prev rest)
    | inr (t, e) ↦ elim (Option-cases (rpct_new t o)) [
      | inl f ↦ ground (arith, e, f)
      | inr (v, f) ↦ ground (arith, e, f, store_ends (record p { type = none }) (some v) prev rest)
    ]
  ]

  finish_forward :
      (p q : Pack) (o : Option Object) (prev b : ℕ) (rest format : Bytes)
      → finish_value rpct_new p o prev rest ≡ ok (goes q b format)
      → format ≡ rest
  unfolding finish_value
  finish_forward p q o prev b rest format h = grind (arith, store_forward)

  open_ends :
      (p : Pack) (c : Object) (prev : ℕ) (rest : Bytes)
      → open_container rpct_new p c prev rest ≢ fault no_fuel
  unfolding open_container
  open_ends p c prev rest = ground arith

  open_forward :
      (p q : Pack) (c : Object) (prev b : ℕ) (rest format : Bytes)
      → open_container rpct_new p c prev rest ≡ ok (goes q b format)
      → format ≡ rest
  unfolding open_container
  open_forward p q c prev b rest format h = ground (arith, h)

  close_ends :
      (p : Pack) (prev : ℕ) (rest : Bytes) → close_container rpct_new p prev rest ≢ fault no_fuel
  unfolding close_container
  close_ends p prev rest = finish_ends _ _ prev _

  close_forward :
      (p q : Pack) (prev b : ℕ) (rest format : Bytes)
      → close_container rpct_new p prev rest ≡ ok (goes q b format)
      → length format ≤ length rest
  unfolding close_container
  close_forward p q prev b rest format h =
      rw (finish_forward _ q _ prev b _ format h) (uncomma-le rest)

  convert_ends :
      (p : Pack) (ch prev : ℕ) (rest : Bytes) → convert rpct_new p ch prev rest ≢ fault no_fuel
  unfolding convert
  convert_ends p ch prev rest = elim (Option-cases (take_value ch p.args)) [
    | inl e ↦ elim (Option-cases (split_quote rest)) [
      | inl f ↦ ground (
        arith,
        e,
        f,
        split_type_ends 1 rest,
        open_ends p dictionary_create prev rest,
        open_ends p array_create prev rest,
        close_ends p prev rest,
      )
      | inr ((t, r), f) ↦ ground (
        arith,
        e,
        f,
        split_type_ends 1 rest,
        open_ends p dictionary_create prev rest,
        open_ends p array_create prev rest,
        close_ends p prev rest,
        skip_one_ends (finish_value rpct_new p (some (string_create_len t (length t))) b'\'' r)
            (finish_ends p (some (string_create_len t (length t))) b'\'' r),
      )
    ]
    | inr (t, e) ↦ elim (Outcome-cases t) [
      | inl (why, f) ↦ ground (arith, e, f, take_value_ends ch p.args t e)
      | inr ((o, args), f) ↦
          ground (arith, e, f, finish_ends (record p { args = args }) (some o) prev rest)
    ]
  ]

  convert_forward :
      (p q : Pack) (ch prev b : ℕ) (rest format : Bytes)
      → convert rpct_new p ch prev rest ≡ ok (goes q b format)
      → length format ≤ length rest
  unfolding convert
  convert_forward p q ch prev b rest format h = elim (Option-cases (take_value ch p.args)) [
    | inl e ↦ elim (Bool-cases (ch == b'\'')) [
      | inl quote ↦ elim (Option-cases (split_quote rest)) [
        | inl f ↦ absurd (ground (arith, h, e, quote, f))
        | inr ((t, r), f) ↦
            let text = some (string_create_len t (length t)) in
            let (p', a, c, g) =
              skip_one_forward (finish_value rpct_new p text b'\'' r) q b format
                (ground (arith, h, e, quote, f)) in
            ground (
              arith,
              finish_forward p p' text b'\'' a r (c ∷ format) g,
              split_quote_forward rest t r f,
            )
      ]
      | inr other ↦ elim (Outcome-cases (split_type 1 rest)) [
        | inl (why, g) ↦ ground (
          arith,
          h,
          e,
          other,
          g,
          open_forward p q dictionary_create prev b rest format,
          open_forward p q array_create prev b rest format,
          close_forward p q prev b rest format,
        )
        | inr ((t, r), g) ↦ ground (
          arith,
          h,
          e,
          other,
          g,
          open_forward p q dictionary_create prev b rest format,
          open_forward p q array_create prev b rest format,
          close_forward p q prev b rest format,
          split_type_forward 1 rest t r g,
        )
      ]
    ]
    | inr (t, e) ↦ elim (Outcome-cases t) [
      | inl (why, f) ↦ absurd (ground (arith, h, e, f))
      | inr ((o, args), f) ↦
          ground (
            arith,
            h,
            e,
            f,
            finish_forward (record p { args = args }) q (some o) prev b rest format,
          )
    ]
  ]

  convert_element_ends :
      (p : Pack) (container : Object) (prev : ℕ) (format : Bytes)
      → convert_element rpct_new p container prev format ≢ fault no_fuel
  unfolding convert_element
  convert_element_ends p container prev format = elim (Outcome-cases (scan prev format)) [
    | inl (why, e) ↦ ground (arith, e, scan_ends prev format)
    | inr (s, e) ↦ elim (Outcome-cases (label_element container s.label p)) [
      | inl (why, f) ↦ ground (arith, e, f, label_element_ends container s.label p)
      | inr (none, f) ↦ ground (arith, e, f)
      | inr (some q, f) ↦
          let w = element_at (delim_of container) s in
          ground (arith, e, f, convert_ends q w.0 w.1 w.2)
    ]
  ]

  convert_element_forward :
      (p q : Pack) (container : Object) (prev ch b : ℕ) (rest format : Bytes)
      → (ch == delim_of container) ≡ false
      → convert_element rpct_new p container prev (ch ∷ rest) ≡ ok (goes q b format)
      → length format ≤ length rest
  unfolding convert_element
  convert_element_forward p q container prev ch b rest format d h =
      elim (Outcome-cases (scan prev (ch ∷ rest))) [
        | inl (why, e) ↦ absurd (ground (arith, h, e))
        | inr (s, e) ↦ elim (Outcome-cases (label_element container s.label p)) [
          | inl (why, f) ↦ absurd (ground (arith, h, e, f))
          | inr (none, f) ↦ absurd (ground (arith, h, e, f))
          | inr (some r, f) ↦
              let w = element_at (delim_of container) s in
              ground (
                arith,
                h,
                e,
                f,
                d,
                convert_forward r q w.0 w.1 b w.2 format,
                scan_forward prev (ch ∷ rest) s e,
                scan_first prev ch rest s e,
              )
        ]
      ]

  round_in_ends :
      (stack : List Object) (p : Pack) (prev ch : ℕ) (rest : Bytes)
      → round_in rpct_new stack p prev ch rest ≢ fault no_fuel
  unfolding round_in
  round_in_ends [] p prev ch rest = convert_ends p ch ch rest
  round_in_ends (container ∷ below) p prev ch rest = elim (Bool-cases (ch == delim_of container)) [
    | inl e ↦ rw e (convert_ends p ch ch rest)
    | inr e ↦ rw e (convert_element_ends p container prev (ch ∷ rest))
  ]

  round_in_forward :
      (stack : List Object) (p q : Pack) (prev ch b : ℕ) (rest format : Bytes)
      → round_in rpct_new stack p prev ch rest ≡ ok (goes q b format)
      → length format ≤ length rest
  unfolding round_in
  round_in_forward [] p q prev ch b rest format h = convert_forward p q ch ch b rest format h
  round_in_forward (container ∷ below) p q prev ch b rest format h =
      elim (Bool-cases (ch == delim_of container)) [
        | inl e ↦ convert_forward p q ch ch b rest format (rw e at h)
        | inr e ↦ convert_element_forward p q container prev ch b rest format e (rw e at h)
      ]

  round_ends :
      (p : Pack) (prev ch : ℕ) (rest : Bytes) → round rpct_new p prev ch rest ≢ fault no_fuel
  unfolding round
  round_ends p prev ch rest = round_in_ends p.stack p prev ch rest

  -- A round leaves less of the format than it found.
  pub round_forward :
      (p q : Pack) (prev ch b : ℕ) (rest format : Bytes)
      → round rpct_new p prev ch rest ≡ ok (goes q b format)
      → length format ≤ length rest
  unfolding round
  round_forward p q prev ch b rest format h = round_in_forward p.stack p q prev ch b rest format h

  pack_loop_ends :
      (fuel : ℕ) (p : Pack) (prev : ℕ) (format : Bytes)
      → length format < fuel
      → pack_loop rpct_new fuel p prev format ≢ fault no_fuel
  unfolding pack_loop
  pack_loop_ends zero p prev format h = elim h [ ]
  pack_loop_ends (suc fuel) p prev [] h = ground arith
  pack_loop_ends (suc fuel) p prev (ch ∷ rest) h =
      elim (Outcome-cases (round rpct_new p prev ch rest)) [
        | inl (why, e) ↦ ground (arith, e, round_ends p prev ch rest)
        | inr (failed, e) ↦ ground (arith, e)
        | inr (returns o, e) ↦ ground (arith, e)
        | inr (goes q b format, e) ↦ ground (
          arith,
          e,
          pack_loop_ends fuel q b format
              (omega (arith, h, round_forward p q prev ch b rest format e)),
        )
      ]

  -- The loop of rpc_object_vpack ends on every format and with every arguments, where it does not read
  -- past the end of the format, by a NULL, or by an argument of another type: with as many rounds as the
  -- format has characters, and one more, it does not run out of rounds.
  pub vpack-ends : (format : Bytes) (args : List Arg) → vpack rpct_new format args ≢ fault no_fuel
  unfolding vpack
  vpack-ends format args =
      pack_loop_ends (suc (length format))
        (record { stack = []; keys = []; indices = []; type = none; args = args }) 0 format
        (omega arith)
