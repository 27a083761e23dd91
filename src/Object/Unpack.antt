-- ===== src/Object/Unpack.antt =====
-- src/rpc_object.c: rpc_object_unpack_layer and rpc_object_vunpack, over the format as a list of bytes.
pub mod Ends
pub mod ReadBack
pub mod Rounds
pub mod Tests
use librpc.Base.Int.{pos, negsuc, to_uint64, ℤ}
use librpc.Base.{
  overflow, ◌-◌, ltb, length, zero, ◌*◌, suc, not, no_fuel, ◌&&◌, ◌^◌, [], ◌%◌, none, bad_access,
  ◌∷◌, ◌++◌, ◌||◌, ok, if◌then◌else◌, fault, is_some, ◌>>=◌, some, ◌==◌, List, Option, Bool, Bytes,
  ℕ, Outcome, ◌+◌,
}
use librpc.Object.Types.{bool, Object}
use librpc.Object.Value.{
  bool_get_value, int64_get_value, uint64_get_value, double_get_value, fd_get_value,
  string_get_string_ptr, data_get_bytes_ptr, data_get_length, c_string,
}
use librpc.Object.Array.{array_get_value, array_slice}
use librpc.Object.Dictionary.{dictionary_get_value}
use librpc.Object.Pack.Search.{ElementEnd, label_of, is_index}
use librpc.Query.Text.{strtol}

-- An argument: a key, or a pointer to be written through.
pub data Target : Type 0 where
  key_target : Bytes → Target
  pointer : Target

-- What a pointer got, in the order of the pointers; `unset` is one that was passed over.
pub data Written : Type 0 where
  unset : Written
  object_out : Object → Written
  bool_out : Bool → Written
  int64_out : ℤ → Written
  uint64_out : ℕ → Written
  double_out : ℕ → Written
  fd_out : ℤ → Written
  string_out : Option Bytes → Written
  bytes_out : Option Bytes → Written
  length_out : ℕ → Written

-- The arguments that are left, what was written, and *cnt.
pub record Outputs : Type 0 where
  pub targets : List Target
  pub outs : List Written
  pub count : ℕ

-- The variables of one layer.
pub record Layer : Type 0 where
  pub array : Option Object
  pub dictionary : Option Object
  pub current : Option Object
  pub idx : ℕ

abbrev pub is_end : ℕ → Bool
is_end c = c == b',' || c == b'[' || c == b']' || c == b'{' || c == b'}'

unfoldable pub search : ℕ → Bytes → Outcome ElementEnd
unfolding label_of
search prev [] = fault bad_access
search prev (c ∷ cs) =
    let more = search c cs >>= λ (s : ElementEnd). ok (record s { label = label_of c s.label }) in
    if is_end c then ok (record { before = prev; stop = c; behind = cs; label = none }) else more

-- *va_arg(ap, T *) = value
unfoldable pub write_out : Written → Outputs → Outcome Outputs
write_out w o = elim o.targets [
  | pointer ∷ targets ↦ ok (record o { targets = targets; outs = o.outs ++ w ∷ [] })
  | _ ↦ fault bad_access
]

-- `i` is an int: the position in a format of `total` bytes with so many left. The count `*cnt` is at
-- most one more than the position of the last letter counted, so it does not overflow first.
unfoldable pub position : ℕ → ℕ → Outcome ℕ
position total left = if ltb (total - left) (2 ^ 31) then ok (total - left) else fault overflow

abbrev pub counted_out : Outputs → Outputs
counted_out o = record o { count = o.count + 1 }

-- The letters that write through pointers, and the star; `none` is another character.
unfoldable pub write_letter : ℕ → Object → Outputs → Option (Outcome Outputs)
unfolding write_out bool_get_value int64_get_value uint64_get_value double_get_value fd_get_value
    string_get_string_ptr data_get_bytes_ptr data_get_length
write_letter ch current o =
    if ch == b'*'
    then some (ok (counted_out o))
    else if ch == b'v'
    then some (write_out (object_out current) o >>= λ q. ok (counted_out q))
    else if ch == b'b'
    then some (write_out (bool_out (bool_get_value current)) o >>= λ q. ok (counted_out q))
    else if ch == b'i'
    then some (write_out (int64_out (int64_get_value current)) o >>= λ q. ok (counted_out q))
    else if ch == b'u'
    then some (write_out (uint64_out (uint64_get_value current)) o >>= λ q. ok (counted_out q))
    else if ch == b'd'
    then some (write_out (double_out (double_get_value current)) o >>= λ q. ok (counted_out q))
    else if ch == b'f'
    then some (write_out (fd_out (fd_get_value current)) o >>= λ q. ok (counted_out q))
    else if ch == b's'
    then some (write_out (string_out (string_get_string_ptr current)) o >>= λ q. ok (counted_out q))
    else if ch == b'B'
    then some (
        write_out (bytes_out (data_get_bytes_ptr current)) o >>= λ q.
        write_out (length_out (data_get_length current)) q >>= λ q'. ok (counted_out q'))
    else none

-- A value that is missing: its pointers are passed over.
unfoldable pub pass_over : ℕ → Outputs → Outcome Outputs
unfolding write_out
pass_over ch o = write_out unset o >>= λ q. if ch == b'B' then write_out unset q else ok q

unfoldable pub take_key_target : Outputs → Outcome (Bytes × Outputs)
unfolding c_string
take_key_target o = elim o.targets [
  | key_target k ∷ targets ↦ ok (c_string k, record o { targets = targets })
  | _ ↦ fault bad_access
]

-- The object of an element; `none` is the return value -1.
unfoldable pub element_of : Layer → Option Bytes → Outputs → Outcome (Option (Layer × Outputs))
unfolding array_get_value dictionary_get_value is_index strtol take_key_target
element_of y label o = elim y.array [
  | some a ↦ elim label [
    | some text ↦
        if is_index text
        then (let i = to_uint64 (strtol text) in
            ok (some (record y { current = array_get_value a i; idx = i }, o)))
        else ok none
    | none ↦
        ok (some (record y { current = array_get_value a y.idx; idx = (y.idx + 1) % 2 ^ 64 }, o))
  ]
  | none ↦ elim y.dictionary [
    | none ↦ fault bad_access
    | some d ↦ elim label [
      | some text ↦ ok (some (record y { current = dictionary_get_value d text }, o))
      | none ↦ take_key_target o >>= λ r.
          ok (some (record y { current = dictionary_get_value d r.0 }, r.1))
    ]
  ]
]

abbrev pub in_container : Layer → Bool
in_container y = is_some y.array || is_some y.dictionary

abbrev pub end_char : Layer → ℕ
end_char y = if is_some y.dictionary then b'}' else b']'

-- The character that says what the element is, the one at the pointer, and what is behind it.
abbrev pub letter_at : ℕ → ElementEnd → ℕ × ℕ × Bytes
letter_at delim s =
    if s.stop == b','
    then (s.before, s.stop, s.behind)
    else if s.stop == delim
    then (s.before, s.before, s.stop ∷ s.behind)
    else (s.stop, s.stop, s.behind)

-- What a round comes to: `return (-1)`, a return with the format from the pointer on, or the next round.
pub data Round : Type 0 where
  fails : Round
  leaves : Bytes → Outputs → Round
  goes_on : Layer → Outputs → ℕ → Bytes → Round

-- The position that a layer returned, as the format from there on, and the outputs; `none` is -1, after
-- which what was written is not told.
abbrev pub Left : Type 0
Left = Outcome (Option (Bytes × Outputs))

-- After a layer inside, the loop goes on one past the position that it returned.
unfoldable pub after_inner : Layer → Option (Bytes × Outputs) → Outcome Round
after_inner y none = ok fails
after_inner y (some ([], o)) = fault bad_access
after_inner y (some (c ∷ rest, o)) = ok (goes_on y o c rest)

unfoldable pub write_rest : Layer → ℕ → Bytes → Outputs → Outcome Round
unfolding write_out array_slice
write_rest y at rest o = elim y.array [
  | none ↦ ok fails
  | some a ↦ array_slice a ((y.idx + 1) % 2 ^ 64) (negsuc 0) >>= λ s.
      write_out (object_out s) o >>= λ q. ok (goes_on y (counted_out q) at rest)
]

module _ (inner : Object → Bytes → Outputs → Left) where
  -- The switch, with the character at the pointer and what is behind it.
  unfoldable pub convert_out : Layer → Object → ℕ → ℕ → Bytes → Outputs → Outcome Round
  unfolding write_letter write_rest after_inner
  convert_out y current ch at rest o = elim (write_letter ch current o) [
    | some r ↦ r >>= λ q. ok (goes_on y q at rest)
    | none ↦
        if ch == b'R'
        then write_rest y at rest o
        else if ch == b'[' && not (in_container y)
        then ok (goes_on (record y { array = some current }) o at rest)
        else if ch == b'{' && not (in_container y)
        then ok (goes_on (record y { dictionary = some current }) o at rest)
        else if ch == b'[' || ch == b'{'
        then (inner current (at ∷ rest) o >>= λ r. after_inner y r)
        else if ch == b']' || ch == b'}'
        then ok (leaves (at ∷ rest) o)
        else ok fails
  ]

  unfoldable pub convert_found : Layer → ℕ → ℕ → Bytes → Outputs → Outcome Round
  unfolding convert_out pass_over
  convert_found y ch at rest o = elim y.current [
    | none ↦ pass_over ch o >>= λ q. ok (goes_on y q at rest)
    | some v ↦ convert_out y v ch at rest o
  ]

  -- A round at a character, with the character before it and what is behind it. After the search `i` is
  -- at the character that says what the element is.
  unfoldable pub unpack_round : ℕ → Layer → ℕ → ℕ → Bytes → Outputs → Outcome Round
  unfolding convert_found search element_of position
  unpack_round total y prev ch rest o =
      if in_container y && not (ch == end_char y)
      then (search prev (ch ∷ rest) >>= λ s. element_of y s.label o >>= λ r. elim r [
        | none ↦ ok fails
        | some (z, q) ↦
            let w = letter_at (end_char y) s in
            position total (suc (length w.2)) >>= λ (i : ℕ). convert_found z w.0 w.1 w.2 q
      ])
      else if in_container y
      then ok (leaves (ch ∷ rest) o)
      else convert_found y ch ch rest o

abbrev pub fresh_layer : Object → Layer
fresh_layer branch = record { array = none; dictionary = none; current = some branch; idx = 0 }

-- The loop of rpc_object_unpack_layer, on fuel: a layer inside begins at the pointer.
unfoldable pub unpack_loop : ℕ → ℕ → Layer → Outputs → ℕ → Bytes → Left
unfolding unpack_round position
unpack_loop zero total y o prev format = fault no_fuel
unpack_loop (suc fuel) total y o prev [] = position total 0 >>= λ (i : ℕ). ok (some ([], o))
unpack_loop (suc fuel) total y o prev (ch ∷ rest) =
    position total (suc (length rest)) >>= λ (i : ℕ).
    unpack_round (λ current format q. unpack_loop fuel total (fresh_layer current) q 0 format) total
      y prev ch rest o
    >>= λ t. elim t [
      | fails ↦ ok none
      | leaves format q ↦ ok (some (format, q))
      | goes_on z q before format ↦ unpack_loop fuel total z q before format
    ]

-- rpc_object_vunpack: the number of values or -1, and what was written.
unfoldable pub vunpack : Option Object → Bytes → List Target → Outcome (ℤ × List Written)
unfolding unpack_loop
vunpack none format targets = ok (negsuc 0, [])
vunpack (some branch) format targets =
    unpack_loop (suc (2 * length format)) (length format) (fresh_layer branch)
      (record { targets = targets; outs = []; count = 0 }) 0 format
    >>= λ r. elim r [
      | none ↦ ok (negsuc 0, [])
      | some (left, o) ↦
          ok (if ltb (length left) (length format) then pos o.count else negsuc 0, o.outs)
    ]
