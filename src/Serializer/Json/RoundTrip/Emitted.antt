-- ===== src/Serializer/Json/RoundTrip/Emitted.antt =====
-- src/serializer/json.c: the calls of the generator for an object, in front of the calls that follow.
use librpc.Base.{
  refl, sym, Bytes, ◌≡◌, ◌∙◌, arith, List, [], ◌∷◌, ◌++◌, if◌then◌else◌, ◌==◌, Bool-cases, inl, inr,
  codes,
}
use mathlib.Core.List.{append-nil, append_assoc}
use librpc.Base.Int.{ℤ, to_int64}
use librpc.Object.Types.{
  end, nil, null, cons, field, array, dictionary, string, double, shmem, error, fd, binary, date,
  uint64, int64, bool, Object, Items, Fields,
}
use librpc.Object.Value.{c_string}
use librpc.Serializer.Json.{
  array_close, array_open, exttype_double, gen_double, exttype_shmem, exttype_error, exttype_fd,
  gen_string, exttype_binary, exttype_date, exttype_uint64, gen_integer, map_close, map_key,
  gen_bool, map_open, gen_null, Yajl, Event,
}
use librpc.Serializer.Json.Write.{
  write_items, write_fields, write_ext_str, write_ext_long, write_object_ext, write_object,
  escape_key, double_text, isfinite, Writer, ◌>>◌, call,
}

-- The calls of a piece, in front of the calls that follow.
abbrev pub Calls : Type 0
Calls = List Event → List Event

abbrev pub ext : Bytes → Calls → Calls
ext type inner rest = map_open ∷ map_key type ∷ inner (map_close ∷ rest)

module _ (y : Yajl) where
  abbrev mutual
    pub emit : Object → Calls
    emit null rest = gen_null ∷ rest
    emit (bool b) rest = gen_bool b ∷ rest
    emit (int64 i) rest = gen_integer i ∷ rest
    emit (uint64 n) rest = ext exttype_uint64 (λ r. gen_integer (to_int64 n) ∷ r) rest
    emit (date t) rest = ext exttype_date (λ r. gen_integer t ∷ r) rest
    emit (binary b) rest = ext exttype_binary (λ r. gen_string (y.base64_encode b) ∷ r) rest
    emit (fd n) rest = ext exttype_fd (λ r. gen_integer n ∷ r) rest
    emit (error code msg extra stack) rest =
        ext exttype_error
          (λ r.
            map_open
            ∷ map_key (codes "code")
            ∷ gen_integer code
            ∷ map_key (codes "msg")
            ∷ gen_string (c_string msg)
            ∷ map_key (codes "extra")
            ∷ emit extra (map_key (codes "stack") ∷ emit stack (map_close ∷ r)))
          rest
    emit (shmem handle offset size) rest =
        ext exttype_shmem
          (λ r.
            map_open
            ∷ map_key (codes "addr")
            ∷ gen_integer offset
            ∷ map_key (codes "len")
            ∷ gen_integer (to_int64 size)
            ∷ map_key (codes "fd")
            ∷ gen_integer handle
            ∷ map_close
            ∷ r)
          rest
    emit (double d) rest =
        if isfinite d
        then gen_double d ∷ rest
        else ext exttype_double (λ r. gen_string (double_text d) ∷ r) rest
    emit (string s) rest = gen_string s ∷ rest
    emit (dictionary fs) rest = map_open ∷ emit_fields fs (map_close ∷ rest)
    emit (array xs) rest = array_open ∷ emit_items xs (array_close ∷ rest)

    pub emit_fields : Fields → Calls
    emit_fields end rest = rest
    emit_fields (field k v fs) rest =
        map_key (escape_key (c_string k)) ∷ emit v (emit_fields fs rest)

    pub emit_items : Items → Calls
    emit_items nil rest = rest
    emit_items (cons x xs) rest = emit x (emit_items xs rest)

  -- A piece of the writer that ends well has made the calls.
  abbrev Wrote : Writer → Calls → Type 0
  Wrote m f =
      (gen : List Event) → (m gen).1 ≡ 0 → (rest : List Event) → (m gen).0 ++ rest ≡ gen ++ f rest

  Wrote-call : (e : Event) → Wrote (call y e) (λ rest. e ∷ rest)
  unfolding call
  Wrote-call e gen h rest = elim (Bool-cases (y.status gen e == 0)) [
    | inl good ↦ rw good (append_assoc gen (e ∷ []) rest)
    | inr bad ↦ absurd (ground (arith, h, bad))
  ]

  Wrote->> :
      (m n : Writer) (f g : Calls) → Wrote m f → Wrote n g → Wrote (m >> n) (λ rest. f (g rest))
  unfolding ◌>>◌
  Wrote->> m n f g a b gen h rest = elim (Bool-cases ((m gen).1 == 0)) [
    | inl good ↦ rw good (b (m gen).0 (rw good at h) rest ∙ a gen (ground (arith, good)) (g rest))
    | inr bad ↦ absurd (ground (arith, h, bad))
  ]

  Wrote-ext :
      (type : Bytes) (inner : Writer) (f : Calls)
      → Wrote inner f
      → Wrote (write_object_ext y type inner) (ext type f)
  unfolding write_object_ext
  Wrote-ext type inner f w =
      Wrote->> (call y map_open >> call y (map_key type) >> inner) (call y map_close)
        (λ r. map_open ∷ map_key type ∷ f r) (λ r. map_close ∷ r)
        (Wrote->> (call y map_open >> call y (map_key type)) inner
          (λ r. map_open ∷ map_key type ∷ r) f
          (Wrote->> (call y map_open) (call y (map_key type)) (λ r. map_open ∷ r)
            (λ r. map_key type ∷ r) (Wrote-call map_open) (Wrote-call (map_key type)))
          w)
        (Wrote-call map_close)

  Wrote-key :
      (key : Bytes) (m : Writer) (f : Calls)
      → Wrote m f
      → Wrote (call y (map_key key) >> m) (λ r. map_key key ∷ f r)
  Wrote-key key m f w =
      Wrote->> (call y (map_key key)) m (λ r. map_key key ∷ r) f (Wrote-call (map_key key)) w

  -- A piece between the start and the end of a container.
  Wrote-between :
      (e e' : Event) (m : Writer) (f : Calls)
      → Wrote m f
      → Wrote (call y e >> m >> call y e') (λ r. e ∷ f (e' ∷ r))
  Wrote-between e e' m f w =
      Wrote->> (call y e >> m) (call y e') (λ r. e ∷ f r) (λ r. e' ∷ r)
        (Wrote->> (call y e) m (λ r. e ∷ r) f (Wrote-call e) w) (Wrote-call e')

  Wrote-pair :
      (k : Bytes) (e : Event) → Wrote (call y (map_key k) >> call y e) (λ r. map_key k ∷ e ∷ r)
  Wrote-pair k e = Wrote-key k (call y e) (λ r. e ∷ r) (Wrote-call e)

  Wrote-error :
      (code : ℤ) (msg : Bytes) (m n : Writer) (f g : Calls)
      → Wrote m f
      → Wrote n g
      → Wrote
          (call y map_open
            >> write_ext_long y (codes "code") code
            >> write_ext_str y (codes "msg") msg
            >> (call y (map_key (codes "extra")) >> m)
            >> (call y (map_key (codes "stack")) >> n)
            >> call y map_close)
          (λ r.
            map_open
            ∷ map_key (codes "code")
            ∷ gen_integer code
            ∷ map_key (codes "msg")
            ∷ gen_string (c_string msg)
            ∷ map_key (codes "extra")
            ∷ f (map_key (codes "stack") ∷ g (map_close ∷ r)))
  unfolding write_ext_long write_ext_str
  Wrote-error code msg m n f g a b =
      Wrote->> _ (call y map_close) _ _
        (Wrote->> _ (call y (map_key (codes "stack")) >> n) _ _
          (Wrote->> _ (call y (map_key (codes "extra")) >> m) _ _
            (Wrote->> _ (call y (map_key (codes "msg")) >> call y (gen_string (c_string msg))) _ _
              (Wrote->> (call y map_open)
                (call y (map_key (codes "code")) >> call y (gen_integer code)) _ _
                (Wrote-call map_open) (Wrote-pair (codes "code") (gen_integer code)))
              (Wrote-pair (codes "msg") (gen_string (c_string msg))))
            (Wrote-key (codes "extra") m f a))
          (Wrote-key (codes "stack") n g b))
        (Wrote-call map_close)

  Wrote-shmem :
      (handle offset size : ℤ)
      → Wrote
          (call y map_open
            >> write_ext_long y (codes "addr") offset
            >> write_ext_long y (codes "len") size
            >> write_ext_long y (codes "fd") handle
            >> call y map_close)
          (λ r.
            map_open
            ∷ map_key (codes "addr")
            ∷ gen_integer offset
            ∷ map_key (codes "len")
            ∷ gen_integer size
            ∷ map_key (codes "fd")
            ∷ gen_integer handle
            ∷ map_close
            ∷ r)
  unfolding write_ext_long
  Wrote-shmem handle offset size =
      Wrote->> _ (call y map_close) _ _
        (Wrote->> _ (call y (map_key (codes "fd")) >> call y (gen_integer handle)) _ _
          (Wrote->> _ (call y (map_key (codes "len")) >> call y (gen_integer size)) _ _
            (Wrote->> (call y map_open)
              (call y (map_key (codes "addr")) >> call y (gen_integer offset)) _ _
              (Wrote-call map_open) (Wrote-pair (codes "addr") (gen_integer offset)))
            (Wrote-pair (codes "len") (gen_integer size)))
          (Wrote-pair (codes "fd") (gen_integer handle)))
        (Wrote-call map_close)

  mutual
    unfolding write_object write_ext_long write_ext_str

    write_lem : (o : Object) → Wrote (write_object y o) (emit o)
    write_lem null = Wrote-call gen_null
    write_lem (bool b) = Wrote-call (gen_bool b)
    write_lem (int64 i) = Wrote-call (gen_integer i)
    write_lem (uint64 n) = Wrote-ext exttype_uint64 _ _ (Wrote-call (gen_integer (to_int64 n)))
    write_lem (date t) = Wrote-ext exttype_date _ _ (Wrote-call (gen_integer t))
    write_lem (binary b) =
        Wrote-ext exttype_binary _ _ (Wrote-call (gen_string (y.base64_encode b)))
    write_lem (fd n) = Wrote-ext exttype_fd _ _ (Wrote-call (gen_integer n))
    write_lem (error code msg extra stack) = Wrote-ext exttype_error _ _ (
        Wrote-error code msg (write_object y extra) (write_object y stack) (emit extra) (emit stack)
          (write_lem extra) (write_lem stack))
    write_lem (shmem handle offset size) =
        Wrote-ext exttype_shmem _ _ (Wrote-shmem handle offset (to_int64 size))
    write_lem (double d) = elim (Bool-cases (isfinite d)) [
      | inl plain ↦ rw plain (Wrote-call (gen_double d))
      | inr odd ↦ rw odd (
          Wrote-ext exttype_double (call y (gen_string (double_text d))) _
            (Wrote-call (gen_string (double_text d))))
    ]
    write_lem (string s) = Wrote-call (gen_string s)
    write_lem (dictionary fs) =
        Wrote-between map_open map_close (write_fields y fs) (emit_fields fs) (write_fields_lem fs)
    write_lem (array xs) =
        Wrote-between array_open array_close (write_items y xs) (emit_items xs) (write_items_lem xs)

    write_fields_lem : (fs : Fields) → Wrote (write_fields y fs) (emit_fields fs)
    write_fields_lem end = λ gen h rest. refl
    write_fields_lem (field k v fs) =
        Wrote->> (call y (map_key (escape_key (c_string k))) >> write_object y v)
          (write_fields y fs) _ _
          (Wrote-key (escape_key (c_string k)) (write_object y v) (emit v) (write_lem v))
          (write_fields_lem fs)

    write_items_lem : (xs : Items) → Wrote (write_items y xs) (emit_items xs)
    write_items_lem nil = λ gen h rest. refl
    write_items_lem (cons x xs) =
        Wrote->> (write_object y x) (write_items y xs) (emit x) (emit_items xs) (write_lem x)
          (write_items_lem xs)

  -- The calls of rpc_json_write_object, where each of them was taken.
  pub write_object-emit :
      (o : Object) → (write_object y o []).1 ≡ 0 → (write_object y o []).0 ≡ emit o []
  write_object-emit o h = sym (append-nil (write_object y o []).0) ∙ write_lem o [] h []
