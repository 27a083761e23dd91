-- ===== src/Object/Pack.antt =====
-- src/rpc_object.c: rpc_object_vpack. A format is the list of its bytes, and the arguments of the call
-- are a list; the NUL at the end of the format is the end of the list.
pub mod Search
pub mod Values
pub mod Shapes
pub mod Rounds
pub mod Slots
pub mod Elements
pub mod RoundTrip
pub mod Tests
use librpc.Object.Pack.Search.{is_index, ElementEnd, scan}
use librpc.Object.Pack.Values.{split_type, split_quote, take_value, Arg, string_arg}
use librpc.Object.Dictionary.{dictionary_create, dictionary_steal_value}
use librpc.Object.Value.{data_create_iov, string_create, c_string, string_create_len}
use librpc.Base.Int.{pos, eqb_ℤ, to_uint64, ℤ}
use librpc.Base.{
  zero, length, not, get_elem?, ◌-◌, suc, ◌+◌, no_fuel, drop, ◌&&◌, leb, none, ◌>>=◌, ◌||◌, [], ok,
  ◌∷◌, bad_access, true, fault, false, some, if◌then◌else◌, ◌==◌, ℕ, Outcome, Option, List, Bytes,
  Bool,
}
use librpc.Object.Types.{
  date, fd, double, uint64, null, bool, binary, int64, Object, dictionary, array,
}
use librpc.Object.Array.{array_create, array_steal_value, array_get_count}
use librpc.Query.Text.{strtol, skip_space}

-- The variables of the loop: `container` is the head of the stack, the queues of keys and of indices have
-- their last element at the head, `type` is the text of a type that waits for its value.
pub record Pack : Type 0 where
  pub stack : List Object
  pub keys : List Bytes
  pub indices : List ℕ
  pub type : Option Bytes
  pub args : List Arg

-- What a round of the loop comes to: `goto error`, the result, or the next round, with the character
-- before the pointer and the format from the pointer on.
pub data Verdict : Type 0 where
  failed : Verdict
  returns : Option Object → Verdict
  goes : Pack → ℕ → Bytes → Verdict

abbrev pub is_array : Object → Bool
is_array (array xs) = true
is_array _ = false

abbrev pub is_dictionary : Object → Bool
is_dictionary (dictionary fs) = true
is_dictionary _ = false

abbrev pub delim_of : Object → ℕ
delim_of container = if is_array container then b']' else b'}'

-- The key or the index of an element, put into its queue; `none` is `goto error`.
unfoldable pub take_key : Pack → Outcome Pack
unfolding c_string
take_key p = elim p.args [
  | string_arg (some key) ∷ args ↦ ok (record p { keys = c_string key ∷ p.keys; args = args })
  | _ ↦ fault bad_access
]

unfoldable pub label_element : Object → Option Bytes → Pack → Outcome (Option Pack)
unfolding is_index array_get_count take_key strtol
label_element container (some text) p =
    if is_array container
    then (if is_index text
        then ok (some (record p { indices = to_uint64 (strtol text) ∷ p.indices }))
        else ok none)
    else ok (some (record p { keys = text ∷ p.keys }))
label_element container none p =
    if is_array container
    then ok (some (record p { indices = array_get_count container ∷ p.indices }))
    else (take_key p >>= λ q. ok (some q))

-- The character that says what the element is, with the character at the pointer and what is behind it.
abbrev pub element_at : ℕ → ElementEnd → ℕ × ℕ × Bytes
element_at delim s =
    if s.stop == b','
    then (s.before, s.stop, s.behind)
    else if s.stop == delim
    then (s.before, s.before, s.stop ∷ s.behind)
    else (s.stop, s.stop, s.behind)

unfoldable pub pop_key : Pack → Object → Object → Outcome Pack
unfolding dictionary_steal_value
pop_key p container current = elim p.keys [
  | [] ↦ fault bad_access
  | key ∷ keys ↦ dictionary_steal_value container key current >>= λ c.
      ok (record p { stack = c ∷ drop 1 p.stack; keys = keys })
]

unfoldable pub pop_index : Pack → Object → Object → Outcome Pack
pop_index p container current = elim p.indices [
  | [] ↦ fault bad_access
  | index ∷ indices ↦ array_steal_value container index current >>= λ c.
      ok (record p { stack = c ∷ drop 1 p.stack; indices = indices })
]

-- The end of a round: the value goes into the container, or is the result.
unfoldable pub store : Pack → Option Object → ℕ → Bytes → Outcome Verdict
unfolding pop_key pop_index
store p current prev rest = elim p.stack [
  | [] ↦ ok (returns current)
  | container ∷ below ↦ elim current [
    | none ↦ fault bad_access
    | some v ↦
        (if is_dictionary container
          then pop_key p container v
          else if is_array container
          then pop_index p container v
          else ok p)
        >>= λ q. ok (goes q prev rest)
  ]
]

-- if (*(ptr + 1) == ',') ptr++;
abbrev pub uncomma : Bytes → Bytes
uncomma [] = []
uncomma (c ∷ rest) = if c == b',' then rest else c ∷ rest

-- The next round begins one past the pointer, which a quoted text leaves behind its quote.
unfoldable pub skip_one : Outcome Verdict → Outcome Verdict
skip_one (ok (goes p prev [])) = fault bad_access
skip_one (ok (goes p prev (c ∷ rest))) = ok (goes p c rest)
skip_one v = v

-- rpct_new(type, value), which belongs to the type system; `none` is NULL.
module _ (rpct_new : Bytes → Option Object → Option Object) where
  -- The end of a round with a value, which gets the type that waits for one.
  unfoldable pub finish_value : Pack → Option Object → ℕ → Bytes → Outcome Verdict
  unfolding store
  finish_value p current prev rest = elim p.type [
    | none ↦ store p current prev rest
    | some type ↦ elim (rpct_new type current) [
      | none ↦ ok failed
      | some typed ↦ store (record p { type = none }) (some typed) prev rest
    ]
  ]

  unfoldable pub open_container : Pack → Object → ℕ → Bytes → Outcome Verdict
  open_container p container prev rest = elim p.type [
    | none ↦ ok (goes (record p { stack = container ∷ p.stack }) prev rest)
    | some type ↦ elim (rpct_new type (some container)) [
      | none ↦ ok failed
      | some typed ↦ ok (goes (record p { stack = typed ∷ p.stack; type = none }) prev rest)
    ]
  ]

  unfoldable pub close_container : Pack → ℕ → Bytes → Outcome Verdict
  unfolding finish_value
  close_container p prev rest =
      finish_value (record p { stack = drop 1 p.stack }) (get_elem? p.stack 0) prev (uncomma rest)

  -- The switch, with the character at the pointer and what is behind it.
  unfoldable pub convert : Pack → ℕ → ℕ → Bytes → Outcome Verdict
  unfolding finish_value open_container close_container take_value split_quote split_type skip_one
      string_create_len array_create dictionary_create
  convert p ch prev rest = elim (take_value ch p.args) [
    | some taken_one ↦
        taken_one >>= λ r. finish_value (record p { args = r.1 }) (some r.0) prev rest
    | none ↦
        if ch == b'\''
        then elim (split_quote rest) [
          | none ↦ ok failed
          | some (text, behind) ↦
              skip_one (finish_value p (some (string_create_len text (length text))) b'\'' behind)
        ]
        else if ch == b'<'
        then (split_type 1 rest >>= λ r. ok (goes (record p { type = some r.0 }) b'>' r.1))
        else if ch == b'{'
        then open_container p dictionary_create prev rest
        else if ch == b'['
        then open_container p array_create prev rest
        else if ch == b'}' || ch == b']'
        then close_container p prev rest
        else ok failed
  ]

  -- The search for an element of a container, and its conversion.
  unfoldable pub convert_element : Pack → Object → ℕ → Bytes → Outcome Verdict
  unfolding scan label_element convert
  convert_element p container prev format = scan prev format >>= λ s.
      label_element container s.label p >>= λ labelled. elim labelled [
        | none ↦ ok failed
        | some q ↦ let e = element_at (delim_of container) s in convert q e.0 e.1 e.2
      ]

  -- A round at a character, with what is behind it, in the innermost of the containers.
  unfoldable pub round_in : List Object → Pack → ℕ → ℕ → Bytes → Outcome Verdict
  unfolding convert_element
  round_in [] p prev ch rest = convert p ch ch rest
  round_in (container ∷ below) p prev ch rest =
      if ch == delim_of container
      then convert p ch ch rest
      else convert_element p container prev (ch ∷ rest)

  unfoldable pub round : Pack → ℕ → ℕ → Bytes → Outcome Verdict
  unfolding round_in
  round p prev ch rest = round_in p.stack p prev ch rest

  -- The loop; at the end of the format it falls to the label `error`.
  unfoldable pub pack_loop : ℕ → Pack → ℕ → Bytes → Outcome (Option Object)
  unfolding round
  pack_loop zero p prev format = fault no_fuel
  pack_loop (suc fuel) p prev [] = ok none
  pack_loop (suc fuel) p prev (ch ∷ rest) = round p prev ch rest >>= λ v. elim v [
    | failed ↦ ok none
    | returns o ↦ ok o
    | goes q before format ↦ pack_loop fuel q before format
  ]

  -- rpc_object_vpack; `none` is NULL, with errno set where it is an error.
  unfoldable pub vpack : Bytes → List Arg → Outcome (Option Object)
  unfolding pack_loop
  vpack format args =
      pack_loop (suc (length format))
        (record { stack = []; keys = []; indices = []; type = none; args = args }) 0 format
