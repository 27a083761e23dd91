-- ===== src/Serializer/Json/Write.antt =====
-- src/serializer/json.c: rpc_json_write_object, as the calls of the generator.
use librpc.Base.{
  ℕ, ◌/◌, ◌%◌, ◌^◌, ◌==◌, ◌||◌, not, if◌then◌else◌, List, [], ◌∷◌, ◌++◌, Bytes, Bool, codes,
}
use librpc.Base.Int.{ℤ, to_int64}
use librpc.Object.Types.{
  Object, null, bool, uint64, int64, double, date, string, binary, fd, dictionary, array, shmem,
  error, Items, nil, cons, Fields, end, field,
}
use librpc.Object.Value.{c_string}
use librpc.Serializer.Json.{
  Event, gen_null, gen_bool, gen_integer, gen_double, gen_string, map_key, map_open, map_close,
  array_open, array_close, Yajl, exttype_uint64, exttype_date, exttype_binary, exttype_fd,
  exttype_error, exttype_shmem, exttype_double, double_nan, double_inf, double_ninf, infinity,
  minus_infinity,
}

-- A piece of the writer: the calls that were taken before it, and those after it with the last status.
abbrev pub Writer : Type 0
Writer = List Event → List Event × ℕ

-- The early return on a status that is not yajl_gen_status_ok.
infixl 5 ◌>>◌
unfoldable pub ◌>>◌ : Writer → Writer → Writer
(m >> n) gen = let r = m gen in if r.1 == 0 then n r.0 else r

unfoldable pub isfinite : ℕ → Bool
isfinite d = not (d / 2 ^ 52 % 2 ^ 11 == 2047)

-- A key that begins with a backslash or a dollar sign gets a backslash in front.
unfoldable pub escape_key : Bytes → Bytes
escape_key [] = []
escape_key (c ∷ cs) = if c == b'\\' || c == b'$' then b'\\' ∷ c ∷ cs else c ∷ cs

unfoldable pub double_text : ℕ → Bytes
double_text d =
    if d == infinity then double_inf else if d == minus_infinity then double_ninf else double_nan

module _ (y : Yajl) where
  unfoldable pub call : Event → Writer
  call e gen = let s = y.status gen e in if s == 0 then (gen ++ e ∷ [], 0) else (gen, s)

  -- rpc_json_write_object_ext, less its switch, which is `inner`.
  unfoldable pub write_object_ext : Bytes → Writer → Writer
  unfolding ◌>>◌ call
  write_object_ext type inner = call map_open >> call (map_key type) >> inner >> call map_close

  -- rpc_json_write_ext_long
  unfoldable pub write_ext_long : Bytes → ℤ → Writer
  unfolding ◌>>◌ call
  write_ext_long key value = call (map_key key) >> call (gen_integer value)

  -- rpc_json_write_ext_str
  unfoldable pub write_ext_str : Bytes → Bytes → Writer
  unfolding ◌>>◌ call c_string
  write_ext_str key value = call (map_key key) >> call (gen_string (c_string value))

  -- rpc_json_write_object
  unfoldable mutual
    unfolding ◌>>◌ call write_object_ext write_ext_long write_ext_str isfinite double_text
        escape_key

    pub write_object : Object → Writer
    write_object null = call gen_null
    write_object (bool b) = call (gen_bool b)
    write_object (int64 i) = call (gen_integer i)
    write_object (uint64 n) = write_object_ext exttype_uint64 (call (gen_integer (to_int64 n)))
    write_object (date t) = write_object_ext exttype_date (call (gen_integer t))
    write_object (binary b) =
        write_object_ext exttype_binary (call (gen_string (y.base64_encode b)))
    write_object (fd n) = write_object_ext exttype_fd (call (gen_integer n))
    write_object (error code msg extra stack) = write_object_ext exttype_error (
        call map_open
        >> write_ext_long (codes "code") code
        >> write_ext_str (codes "msg") msg
        >> (call (map_key (codes "extra")) >> write_object extra)
        >> (call (map_key (codes "stack")) >> write_object stack)
        >> call map_close)
    write_object (shmem handle offset size) = write_object_ext exttype_shmem (
        call map_open
        >> write_ext_long (codes "addr") offset
        >> write_ext_long (codes "len") (to_int64 size)
        >> write_ext_long (codes "fd") handle
        >> call map_close)
    write_object (double d) =
        if isfinite d
        then call (gen_double d)
        else write_object_ext exttype_double (call (gen_string (double_text d)))
    write_object (string s) = call (gen_string s)
    write_object (dictionary fs) = call map_open >> write_fields fs >> call map_close
    write_object (array xs) = call array_open >> write_items xs >> call array_close

    -- rpc_dictionary_apply, which stops at the first failure
    pub write_fields : Fields → Writer
    write_fields end gen = (gen, 0)
    write_fields (field k v fs) gen =
        (call (map_key (escape_key (c_string k))) >> write_object v >> write_fields fs) gen

    pub write_items : Items → Writer
    write_items nil gen = (gen, 0)
    write_items (cons x xs) gen = (write_object x >> write_items xs) gen

  -- rpc_json_serialize: the text of what was taken, also after a failure, and the status.
  unfoldable pub serialize : Object → Bytes × ℕ
  unfolding write_object
  serialize o = let r = write_object o [] in (y.print r.0, r.1)
