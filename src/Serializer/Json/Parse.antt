-- ===== src/Serializer/Json/Parse.antt =====
-- src/serializer/json.c: the callbacks of the parser. A container that is being read stands on the leaf
-- stack, and as it was when it began in the container that holds it; the calls that end it write it back
-- to where it hangs, since in the code both are one object.
use librpc.Base.{
  not, Bool, true, false, List, [], ◌∷◌, Option, none, some, Bytes, codes, Outcome, ok, fault,
  bad_access, ◌>>=◌, if◌then◌else◌, ◌==◌, ◌-◌, ◌&&◌, length, is_some,
}
use librpc.Base.Int.{to_uint64, to_int32}
use librpc.Object.Types.{
  Object, null, bool, uint64, int64, double, date, binary, fd, dictionary, array, shmem,
}
use librpc.Object.Value.{
  c_string, string_create_len, int64_get_value, string_get_string_ptr, error_create_with_stack,
}
use librpc.Object.Array.{
  array_create, array_append_stolen_value, array_steal_value, array_get_count,
}
use librpc.Object.Dictionary.{
  dictionary_create, dictionary_steal_value, dictionary_get_value, dictionary_get_count,
}
use librpc.Object.Dictionary.Typed.{dictionary_get_int64, dictionary_get_string}
use librpc.Serializer.Json.{
  Event, gen_null, gen_bool, gen_integer, gen_double, gen_string, map_key, map_open, map_close,
  array_open, array_close, Yajl, exttype_uint64, exttype_date, exttype_binary, exttype_fd,
  exttype_error, exttype_shmem, exttype_double, double_inf, double_ninf, infinity, minus_infinity,
  not_a_number,
}

-- An object of the leaf stack, and the key at which it hangs where it hangs in a dictionary.
pub record Leaf : Type 0 where
  pub place : Option Bytes
  pub value : Object

-- struct parse_context
pub record Context : Type 0 where
  pub result : Option Object
  pub leaf_stack : List Leaf
  pub key_buf : Option Bytes

-- A callback: `none` is the return value 0, which ends the parse.
abbrev pub Callback : Type 0
Callback = Context → Outcome (Option Context)

unfoldable pub is_container : Object → Bool
is_container (dictionary fs) = true
is_container (array xs) = true
is_container _ = false

abbrev pub push : Option Bytes → Object → Context → Context
push place value ctx = record ctx {
  leaf_stack = record { place = place; value = value } ∷ ctx.leaf_stack;
}

-- The last switch of rpc_json_context_insert_value.
unfoldable pub push_container : Option Bytes → Object → Context → Context
unfolding is_container
push_container place value ctx = if is_container value then push place value ctx else ctx

-- The value goes into the leaf, which stands on `rest`.
unfoldable pub insert_in : Object → Option Bytes → Object → Option Bytes → List Leaf → Callback
unfolding array_append_stolen_value dictionary_steal_value push_container
insert_in value none (array xs) place rest ctx =
    array_append_stolen_value (array xs) value >>= λ leaf. ok (
      some (
        push_container none value
          (record ctx { leaf_stack = record { place = place; value = leaf } ∷ rest })))
insert_in value (some key) (dictionary fs) place rest ctx =
    dictionary_steal_value (dictionary fs) key value >>= λ leaf. ok (
      some (
        push_container (some key) value (record ctx {
          leaf_stack = record { place = place; value = leaf } ∷ rest;
          key_buf = none;
        })))
insert_in value key leaf place rest ctx = ok none

-- rpc_json_context_insert_value
unfoldable pub insert_value : Object → Callback
unfolding insert_in
insert_value value ctx = elim ctx.result [
  | none ↦ ok (some (push none value (record ctx { result = some value })))
  | some r ↦ elim ctx.leaf_stack [
    | [] ↦ ok none
    | leaf ∷ rest ↦ insert_in value ctx.key_buf leaf.value leaf.place rest ctx
  ]
]

unfoldable pub is_prefix : Bytes → Bytes → Bool
is_prefix [] bs = true
is_prefix (a ∷ as') [] = false
is_prefix (a ∷ as') (b ∷ bs) = (a == b) && is_prefix as' bs

-- strncmp(text, double_inf, length of text) == 0 is that the text begins it; a NULL text is not read.
unfoldable pub read_double : Option Bytes → Outcome Object
unfolding is_prefix
read_double none = fault bad_access
read_double (some text) = ok (
    double (
      if is_prefix text double_inf
      then infinity
      else if is_prefix text double_ninf
      then minus_infinity
      else not_a_number))

abbrev pub or_empty : Option Bytes → Bytes
or_empty none = []
or_empty (some s) = s

unfoldable pub unescape_key : Bytes → Bytes
unfolding c_string
unescape_key [] = []
unescape_key (c ∷ cs) = if c == b'\\' then c_string cs else c_string (c ∷ cs)

-- rpc_json_map_key. A key with a backslash in it is given in a buffer that ends in a NUL, and so the
-- byte behind it, which is copied with it, ends the string.
unfoldable pub read_key : Bytes → Callback
unfolding unescape_key
read_key key ctx =
    if is_some ctx.key_buf
    then ok none
    else ok (some (record ctx { key_buf = some (unescape_key key) }))

abbrev is_dictionary : Object → Bool
is_dictionary (dictionary fs) = true
is_dictionary _ = false

abbrev is_array : Object → Bool
is_array (array xs) = true
is_array _ = false

abbrev pub get_or_leaf : Option Object → Object → Object
get_or_leaf none leaf = leaf
get_or_leaf (some new) leaf = new

-- rpc_error_create_with_stack retains the stack, and so reads it.
unfoldable pub read_error : Object → Outcome Object
unfolding dictionary_get_int64 dictionary_get_string dictionary_get_value error_create_with_stack
read_error d = elim (dictionary_get_value d (codes "stack")) [
  | none ↦ fault bad_access
  | some stack ↦ ok (
      error_create_with_stack (to_int32 (to_uint64 (dictionary_get_int64 d (codes "code"))))
        (or_empty (dictionary_get_string d (codes "msg"))) (dictionary_get_value d (codes "extra"))
        stack)
]

unfoldable pub read_shmem : Object → Object
unfolding dictionary_get_int64
read_shmem d =
    shmem (to_int32 (to_uint64 (dictionary_get_int64 d (codes "fd"))))
      (dictionary_get_int64 d (codes "addr")) (to_uint64 (dictionary_get_int64 d (codes "len")))

-- The value of a container that ended, where it hangs; `place` is its key.
unfoldable pub write_back : Option Bytes → Object → Leaf → Outcome Leaf
unfolding dictionary_steal_value array_get_count
write_back none value branch =
    array_steal_value branch.value (array_get_count branch.value - 1) value >>= λ b.
    ok (record branch { value = b })
write_back (some key) value branch =
    dictionary_steal_value branch.value key value >>= λ b. ok (record branch { value = b })

-- The end of the leaf, of which `new` takes the place if it is there.
unfoldable pub end_leaf : Leaf → List Leaf → Option Object → Callback
unfolding write_back
end_leaf leaf [] none ctx = ok (some (record ctx { result = some leaf.value; leaf_stack = [] }))
end_leaf leaf [] (some new) ctx =
    ok (some (push none new (record ctx { result = some new; leaf_stack = [] })))
end_leaf leaf (branch ∷ rest) new ctx =
    write_back leaf.place (get_or_leaf new leaf.value) branch >>= λ b.
    ok (some (record ctx { leaf_stack = b ∷ rest }))

unfoldable pub end_array : Callback
unfolding end_leaf
end_array ctx = elim ctx.leaf_stack [
  | [] ↦ ok none
  | leaf ∷ rest ↦
      if is_array leaf.value && not (is_some ctx.key_buf)
      then end_leaf leaf rest none ctx
      else ok none
]

module _ (y : Yajl) where
  unfoldable pub read_binary : Option Bytes → Outcome Object
  read_binary none = fault bad_access
  read_binary (some text) = ok (binary (y.base64_decode text))

  -- rpc_json_try_unpack_ext: what takes the place of a dictionary with one entry, if anything does.
  unfoldable pub unpack_ext : Object → Outcome (Option Object)
  unfolding dictionary_get_value int64_get_value string_get_string_ptr read_binary read_double
      read_error read_shmem
  unpack_ext leaf = elim (dictionary_get_value leaf exttype_uint64) [
    | some v ↦ ok (some (uint64 (to_uint64 (int64_get_value v))))
    | none ↦ elim (dictionary_get_value leaf exttype_binary) [
      | some v ↦ read_binary (string_get_string_ptr v) >>= λ o. ok (some o)
      | none ↦ elim (dictionary_get_value leaf exttype_date) [
        | some v ↦ ok (some (date (int64_get_value v)))
        | none ↦ elim (dictionary_get_value leaf exttype_fd) [
          | some v ↦ ok (some (fd (to_int32 (to_uint64 (int64_get_value v)))))
          | none ↦ elim (dictionary_get_value leaf exttype_double) [
            | some v ↦ read_double (string_get_string_ptr v) >>= λ o. ok (some o)
            | none ↦ elim (dictionary_get_value leaf exttype_error) [
              | some v ↦ read_error v >>= λ o. ok (some o)
              | none ↦ elim (dictionary_get_value leaf exttype_shmem) [
                | some v ↦ ok (some (read_shmem v))
                | none ↦ ok none
              ]
            ]
          ]
        ]
      ]
    ]
  ]

  unfoldable pub unpacked : Object → Outcome (Option Object)
  unfolding dictionary_get_count unpack_ext
  unpacked leaf = dictionary_get_count leaf >>= λ n. if n == 1 then unpack_ext leaf else ok none

  unfoldable pub end_map : Callback
  unfolding end_leaf unpacked
  end_map ctx = elim ctx.leaf_stack [
    | [] ↦ ok none
    | leaf ∷ rest ↦
        if is_dictionary leaf.value && not (is_some ctx.key_buf)
        then (unpacked leaf.value >>= λ new. end_leaf leaf rest new ctx)
        else ok none
  ]

  -- The functions of the table `callbacks`.
  unfoldable pub callback : Event → Callback
  unfolding insert_value read_key end_map end_array string_create_len dictionary_create array_create
  callback gen_null = insert_value null
  callback (gen_bool b) = insert_value (bool b)
  callback (gen_integer i) = insert_value (int64 i)
  callback (gen_double d) = insert_value (double d)
  callback (gen_string s) = insert_value (string_create_len s (length s))
  callback (map_key key) = read_key key
  callback map_open = insert_value dictionary_create
  callback map_close = end_map
  callback array_open = insert_value array_create
  callback array_close = end_array

  -- yajl calls the callbacks until one of them returns 0.
  unfoldable pub run : List Event → Callback
  unfolding callback
  run [] ctx = ok (some ctx)
  run (e ∷ events) ctx = callback e ctx >>= λ r. elim r [ none ↦ ok none | some c ↦ run events c ]

  -- rpc_json_deserialize: `none` with the error EINVAL where the text is not JSON or a callback returned
  -- 0, and for an empty text.
  unfoldable pub deserialize : Bytes → Outcome (Option Object)
  unfolding run
  deserialize frame =
      let text = y.parse frame in
      run text.0 (record { result = none; leaf_stack = []; key_buf = none }) >>= λ r. elim r [
        | none ↦ ok none
        | some ctx ↦ ok (if text.1 then ctx.result else none)
      ]
