-- ===== src/Object/Unpack/Rounds.antt =====
-- src/rpc_object.c: a round of the loop of rpc_object_unpack_layer goes forward in the format.
use librpc.Object.Pack.Search.{ElementEnd}
use librpc.Object.Unpack.{
  position, end_char, letter_at, unpack_round, object_out, convert_found, is_end, fails,
  convert_out, leaves, Left, after_inner, goes_on, Round, ElementEnd, search,
}
use librpc.Base.Int.{negsuc, ℤ}
use librpc.Base.{
  ◌-◌, ltb, ◌∙◌, ◌||◌, ◌^◌, not, ◌&&◌, ◌%◌, ◌==◌, ◌+◌, false, Bool-cases, none, Outcome-cases, inr,
  ◌≤◌, ap, length, ◌⊎◌, [], suc, inl, ◌∷◌, ◌>>=◌, Option-cases, arith, no_fuel, some, fault, ok,
  ◌≢◌, Outcome, ◌≡◌, Option, Bytes, ℕ,
}
use librpc.Object.Array.{array_slice}
use librpc.Object.Unpack.{
  in_container, Outputs, ℤ, ℕ, Written, Layer, take_key_target, element_of, write_out, pass_over,
  write_rest, write_letter,
}
use librpc.Object.Types.{Object}

search_ends : (prev : ℕ) (format : Bytes) → search prev format ≢ fault no_fuel
unfolding search
search_ends prev [] = ground arith
search_ends prev (c ∷ cs) = ground (arith, search_ends c cs)

search_forward :
    (prev : ℕ) (format : Bytes) (s : ElementEnd)
    → search prev format ≡ ok s
    → suc (length s.behind) ≤ length format
unfolding search
search_forward prev [] s h = absurd (ground (arith, h))
search_forward prev (c ∷ cs) s h = elim (Outcome-cases (search c cs)) [
  | inl (why, e) ↦ ground (arith, h, e)
  | inr (t, e) ↦ ground (arith, h, e, search_forward c cs t e)
]

search_first :
    (prev c : ℕ) (cs : Bytes) (s : ElementEnd)
    → search prev (c ∷ cs) ≡ ok s
    → (s.stop ≡ c) ⊎ (suc (length s.behind) ≤ length cs)
unfolding search
search_first prev c cs s h = elim (Bool-cases (is_end c)) [
  | inl here ↦ inl (ground (arith, h, here))
  | inr on ↦ elim (Outcome-cases (search c cs)) [
    | inl (why, e) ↦ absurd (ground (arith, h, on, e))
    | inr (t, e) ↦ ground (arith, h, on, e, search_forward c cs t e)
  ]
]

write_out_ends : (w : Written) (o : Outputs) → write_out w o ≢ fault no_fuel
unfolding write_out
write_out_ends w o = ground arith

pass_over_ends : (ch : ℕ) (o : Outputs) → pass_over ch o ≢ fault no_fuel
unfolding pass_over write_out
pass_over_ends ch o = ground arith

write_letter_ends :
    (ch : ℕ) (v : Object) (o : Outputs) (t : Outcome Outputs)
    → write_letter ch v o ≡ some t
    → t ≢ fault no_fuel
unfolding write_letter write_out
write_letter_ends ch v o t h = grind (arith, write_out_ends)

element_of_ends :
    (y : Layer) (label : Option Bytes) (o : Outputs) → element_of y label o ≢ fault no_fuel
unfolding element_of take_key_target
element_of_ends y label o = ground arith

array_slice_ends : (a : Object) (i : ℕ) (n : ℤ) → array_slice a i n ≢ fault no_fuel
unfolding array_slice
array_slice_ends a i n = ground arith

write_rest_ends :
    (y : Layer) (at : ℕ) (rest : Bytes) (o : Outputs) → write_rest y at rest o ≢ fault no_fuel
unfolding write_rest
write_rest_ends y at rest o = grind (arith, array_slice_ends, write_out_ends)

-- How far a turn leaves the format: the next round has what is behind the pointer, a layer that ends
-- also the character at it.
abbrev pub Shrinks : Round → Bytes → Type 0
Shrinks fails rest = Unit {0}
Shrinks (leaves format q) rest = length format ≤ suc (length rest)
Shrinks (goes_on z q b format) rest = length format ≤ length rest

-- A turn or a fault, but not for want of fuel.
abbrev pub Good : Outcome Round → Bytes → Type 0
Good (fault why) rest = why ≢ no_fuel
Good (ok t) rest = Shrinks t rest

abbrev pub GoodLeft : Left → Bytes → Type 0
GoodLeft (fault why) format = why ≢ no_fuel
GoodLeft (ok none) format = Unit {0}
GoodLeft (ok (some (rest, q))) format = length rest ≤ length format

after_inner_lem :
    (y : Layer) (l : Left) (at : ℕ) (rest : Bytes)
    → GoodLeft l (at ∷ rest)
    → Good (l >>= λ r. after_inner y r) rest
unfolding after_inner
after_inner_lem y (fault why) at rest g = g
after_inner_lem y (ok none) at rest g = tt
after_inner_lem y (ok (some ([], q))) at rest g = ground arith
after_inner_lem y (ok (some (c ∷ format, q))) at rest g = omega arith

goes_lem :
    (y : Layer) (r : Outcome Outputs) (at : ℕ) (rest : Bytes)
    → r ≢ fault no_fuel
    → Good (r >>= λ q. ok (goes_on y q at rest)) rest
goes_lem y (fault why) at rest h = λ e. h (ap fault e)
goes_lem y (ok q) at rest h = omega arith

write_rest_lem :
    (y : Layer) (at : ℕ) (rest : Bytes) (o : Outputs) → Good (write_rest y at rest o) rest
unfolding write_rest
write_rest_lem y at rest o = elim (Option-cases y.array) [
  | inl e ↦ rw e tt
  | inr (a, e) ↦ elim (Outcome-cases (array_slice a ((y.idx + 1) % 2 ^ 64) (negsuc 0))) [
    | inl (why, f) ↦
        rw (e, f, Good) (λ n. array_slice_ends a ((y.idx + 1) % 2 ^ 64) (negsuc 0) (f ∙ ap fault n))
    | inr (s, f) ↦ elim (Outcome-cases (write_out (object_out s) o)) [
      | inl (why, g) ↦ rw (e, f, g, Good) (λ n. write_out_ends (object_out s) o (g ∙ ap fault n))
      | inr (q, g) ↦ rw (e, f, g, Good) (omega arith)
    ]
  ]
]

letter_at_lem :
    (delim ch : ℕ) (rest : Bytes) (s : ElementEnd) (prev : ℕ)
    → search prev (ch ∷ rest) ≡ ok s
    → (ch == delim) ≡ false
    → length ((letter_at delim s).2) ≤ length rest
letter_at_lem delim ch rest s prev h n =
    let first = search_first prev ch rest s h in
    let forward = search_forward prev (ch ∷ rest) s h in ground (arith, n, first, forward)

Good-length : (t : Outcome Round) (r r' : Bytes) → length r ≤ length r' → Good t r → Good t r'
Good-length (fault why) r r' h g = g
Good-length (ok fails) r r' h g = tt
Good-length (ok (leaves f q)) r r' h g = omega arith
Good-length (ok (goes_on z q b f)) r r' h g = omega arith

pub GoodLeft-position :
    (total n : ℕ) (l : Left) (format : Bytes)
    → GoodLeft l format
    → GoodLeft (position total n >>= λ (i : ℕ). l) format
unfolding position
GoodLeft-position total n l format g = elim (Bool-cases (ltb (total - n) (2 ^ 31))) [
  | inl fits ↦ rw (fits, GoodLeft) g
  | inr over ↦ rw (over, GoodLeft) (ground arith)
]

pub left_mono : (l : Left) (f f' : Bytes) → length f ≤ length f' → GoodLeft l f → GoodLeft l f'
left_mono (fault why) f f' h g = g
left_mono (ok none) f f' h g = tt
left_mono (ok (some (r, q))) f f' h g = omega arith

-- The check of the position.
Good-position :
    (total n : ℕ) (r : Outcome Round) (rest : Bytes)
    → Good r rest
    → Good (position total n >>= λ (i : ℕ). r) rest
unfolding position
Good-position total n r rest g = elim (Bool-cases (ltb (total - n) (2 ^ 31))) [
  | inl fits ↦ rw (fits, Good) g
  | inr over ↦ rw (over, Good) (ground arith)
]

module _ (inner : Object → Bytes → Outputs → Left) (room : ℕ)
    (good : (v : Object) (f : Bytes) (q : Outputs)
      → length f ≤ room
      → GoodLeft (inner v f q) f) where
  convert_out_lem :
      (y : Layer) (v : Object) (ch at : ℕ) (rest : Bytes) (o : Outputs)
      → (suc (length rest) ≤ room) ⊎ (in_container y ≡ false)
      → Good (convert_out inner y v ch at rest o) rest
  unfolding convert_out
  convert_out_lem y v ch at rest o h = elim (Option-cases (write_letter ch v o)) [
    | inr (t, e) ↦ rw (e, Good) (goes_lem y t at rest (write_letter_ends ch v o t e))
    | inl e ↦ elim (Bool-cases (ch == b'R')) [
      | inl r ↦ rw (e, r, Good) (write_rest_lem y at rest o)
      | inr r ↦ elim (Bool-cases (ch == b'[' && not (in_container y))) [
        | inl a ↦ rw (e, r, a, Good) (omega arith)
        | inr a ↦ elim (Bool-cases (ch == b'{' && not (in_container y))) [
          | inl b ↦ rw (e, r, a, b, Good) (omega arith)
          | inr b ↦ elim (Bool-cases (ch == b'[' || ch == b'{')) [
            | inl c ↦
                rw (e, r, a, b, c, Good)
                  (after_inner_lem y (inner v (at ∷ rest) o) at rest
                    (good v (at ∷ rest) o (ground (arith, h, a, b, c))))
            | inr c ↦ elim (Bool-cases (ch == b']' || ch == b'}')) [
              | inl d ↦ rw (e, r, a, b, c, d, Good) (omega arith)
              | inr d ↦ rw (e, r, a, b, c, d, Good) tt
            ]
          ]
        ]
      ]
    ]
  ]

  convert_found_lem :
      (y : Layer) (ch at : ℕ) (rest : Bytes) (o : Outputs)
      → (suc (length rest) ≤ room) ⊎ (in_container y ≡ false)
      → Good (convert_found inner y ch at rest o) rest
  unfolding convert_found
  convert_found_lem y ch at rest o h = elim (Option-cases y.current) [
    | inl e ↦ rw (e, Good) (goes_lem y (pass_over ch o) at rest (pass_over_ends ch o))
    | inr (v, e) ↦ rw (e, Good) (convert_out_lem y v ch at rest o h)
  ]

  found_lem :
      (z : Layer) (w : ℕ × ℕ × Bytes) (rest : Bytes) (q : Outputs)
      → suc (length rest) ≤ room
      → length (w.2) ≤ length rest
      → Good (convert_found inner z w.0 w.1 w.2 q) rest
  found_lem z w rest q h l =
      Good-length _ w.2 rest l (convert_found_lem z w.0 w.1 w.2 q (inl (omega arith)))

  pub unpack_round_lem :
      (total : ℕ) (y : Layer) (prev ch : ℕ) (rest : Bytes) (o : Outputs)
      → (suc (length rest) ≤ room) ⊎ (in_container y ≡ false)
      → Good (unpack_round inner total y prev ch rest o) rest
  unfolding unpack_round
  unpack_round_lem total y prev ch rest o (inr out) =
      rw (out, Good) (convert_found_lem y ch ch rest o (inr out))
  unpack_round_lem total y prev ch rest o (inl h) = elim (Bool-cases (in_container y)) [
    | inr out ↦ rw (out, Good) (convert_found_lem y ch ch rest o (inr out))
    | inl into ↦ elim (Bool-cases (ch == end_char y)) [
      | inl closes ↦ rw (into, closes, Good) (omega arith)
      | inr on ↦ elim (Outcome-cases (search prev (ch ∷ rest))) [
        | inl (why, e) ↦ rw (into, on, e, Good) (λ n. search_ends prev (ch ∷ rest) (e ∙ ap fault n))
        | inr (s, e) ↦ elim (Outcome-cases (element_of y s.label o)) [
          | inl (why, f) ↦
              rw (into, on, e, f, Good) (λ n. element_of_ends y s.label o (f ∙ ap fault n))
          | inr (none, f) ↦ rw (into, on, e, f, Good) tt
          | inr (some (z, q), f) ↦
              rw (into, on, e, f, Good)
                (Good-position total (suc (length ((letter_at (end_char y) s).2))) _ rest (
                  found_lem z (letter_at (end_char y) s) rest q h
                    (letter_at_lem (end_char y) ch rest s prev e on)))
        ]
      ]
    ]
  ]
