-- ===== src/Serializer/Json/RoundTrip.antt =====
-- src/serializer/json.c: what rpc_json_serialize writes, rpc_json_deserialize reads.
pub mod Emitted
pub mod Extensions
pub mod Reading
use librpc.Object.Content.{SameContent-eq, SameContent}
use mathlib.Core.List.{append_assoc, append-nil}
use librpc.Serializer.Json.Write.{write_object, serialize, escape_key, double_text, isfinite}
use librpc.Object.Value.{c_string_lem, c_string, has_nul}
use librpc.Object.Copy.Faithful.{Apart-snoc, insert_new, Apart, Apart-nil}
use librpc.Serializer.Json.RoundTrip.Reading.{
  PlainItems, unescape-escape, PlainFields, Reads-step, Reads-close, Reads-open, Reads-string,
  Reads-ext, Reads-key, Reads-value, Plain, Reads,
}
use librpc.Base.Int.{to_int64, ℤ}
use librpc.Object.Dictionary.{KeysDistinct, insert, Entries}
use librpc.Serializer.Json.RoundTrip.Extensions.{
  unpacked_double, unpacked_shmem, unpacked_error, shmem_fields, error_fields, unpacked_stays,
  unpacked_fd, unpacked_binary, unpacked_uint64, Base64,
}
use librpc.Base.{
  some, length-append, ◌^◌, ◌<◌, ◌+◌, length, inl, Bool-cases, false, ◌⊎◌, inr, true, none,
  bytes_eq, Bool, ◌≡◌, refl, ap, ◌∙◌, sym, arith, List, [], ◌∷◌, ◌++◌, Bytes, not, codes, ok, ℕ,
  suc,
}
use librpc.Serializer.Json.{
  array_close, exttype_double, gen_double, gen_string, not_a_number, minus_infinity, infinity,
  exttype_shmem, exttype_error, array_open, map_close, map_open, exttype_fd, exttype_binary,
  exttype_date, exttype_uint64, gen_bool, gen_null, gen_integer, map_key, ℤ, Yajl, Event,
}
use librpc.Serializer.Json.Parse.{deserialize, unescape_key, is_container, Context, callback, run}
use librpc.Serializer.Json.Spots.{
  root, element, end_array-behind, Room, entry, Spot, at, within, behind,
}
use librpc.Serializer.Json.RoundTrip.Emitted.{
  write_object-emit, emit_items, emit_fields, Calls, ext, emit,
}
use librpc.Object.Types.{
  null, bool, uint64, int64, double, date, string, binary, fd, dictionary, array, shmem, error, nil,
  cons, end, field, items, elements, items-elements, fields-entries, fields, entries, Object, Items,
  Fields,
}

-- Where the extra object of an error is read, and its stack.
abbrev extra_spot : ℤ → Bytes → Spot → Spot
extra_spot code msg spot =
    entry ((codes "code", int64 code) ∷ (codes "msg", string msg) ∷ []) (codes "extra")
      (entry [] exttype_error spot)

abbrev stack_spot : ℤ → Bytes → Object → Spot → Spot
stack_spot code msg extra spot =
    entry ((codes "code", int64 code) ∷ (codes "msg", string msg) ∷ (codes "extra", extra) ∷ [])
      (codes "stack") (entry [] exttype_error spot)

-- The numbers of an error, and the object at its key.
module _ (y : Yajl) where
  Reads-integer :
      (spot : Spot) (es : Entries) (k : Bytes) (i : ℤ)
      → unescape_key k ≡ k
      → Reads y
          (λ r. map_key k ∷ gen_integer i ∷ r)
          (within spot (dictionary end) (dictionary (fields es)) none)
          (within spot (dictionary end) (dictionary (fields (insert k (int64 i) es))) none)
  unfolding behind callback
  Reads-integer spot es k i u rest =
      Reads-key y spot es k k u (gen_integer i ∷ rest)
      ∙ Reads-value y (entry es k spot) (gen_integer i) (int64 i) refl refl rest

  Reads-entry :
      (spot : Spot) (es : Entries) (k : Bytes) (f : Calls) (v : Object) (stays : Bool)
      → unescape_key k ≡ k
      → Reads y f (at (entry es k spot)) (behind (entry es k spot) v stays)
      → Reads y
          (λ r. map_key k ∷ f r)
          (within spot (dictionary end) (dictionary (fields es)) none)
          (within spot (dictionary end) (dictionary (fields (insert k v es))) none)
  unfolding behind
  Reads-entry spot es k f v stays u i rest = Reads-key y spot es k k u (f rest) ∙ i rest

  -- The dictionary in that of an error, and that of shared memory.
  Reads-error :
      (spot : Spot) (code : ℤ) (msg : Bytes) (extra stack : Object) (f g : Calls) (a b : Bool)
      → has_nul msg ≡ false
      → Reads y f (at (extra_spot code msg spot)) (behind (extra_spot code msg spot) extra a)
      → Reads y g
          (at (stack_spot code msg extra spot))
          (behind (stack_spot code msg extra spot) stack b)
      → Reads y
          (λ r.
            map_open
            ∷ map_key (codes "code")
            ∷ gen_integer code
            ∷ map_key (codes "msg")
            ∷ gen_string (c_string msg)
            ∷ map_key (codes "extra")
            ∷ f (map_key (codes "stack") ∷ g (map_close ∷ r)))
          (at (entry [] exttype_error spot))
          (behind
            (entry [] exttype_error spot)
            (dictionary (error_fields code msg extra stack))
            false)
  unfolding callback insert bytes_eq unescape_key behind
  Reads-error spot code msg extra stack f g a b m i j rest =
      let here = entry [] exttype_error spot in
      Reads-open y here map_open (dictionary end) refl (inr refl) _
      ∙ Reads-integer here [] (codes "code") code refl _
      ∙ ap
          (λ (s : Bytes).
            run y
              (map_key (codes "msg")
                ∷ gen_string s
                ∷ map_key (codes "extra")
                ∷ f (map_key (codes "stack") ∷ g (map_close ∷ rest)))
              (within here (dictionary end) (dictionary (field (codes "code") (int64 code) end))
                none))
          (c_string_lem msg m)
      ∙ Reads-entry here ((codes "code", int64 code) ∷ []) (codes "msg") (λ r. gen_string msg ∷ r)
          (string msg) true refl
          (Reads-string y (entry ((codes "code", int64 code) ∷ []) (codes "msg") here) msg m) _
      ∙ Reads-entry here ((codes "code", int64 code) ∷ (codes "msg", string msg) ∷ [])
          (codes "extra") f extra a refl i _
      ∙ Reads-entry here
          ((codes "code", int64 code) ∷ (codes "msg", string msg) ∷ (codes "extra", extra) ∷ [])
          (codes "stack") g stack b refl j _
      ∙ Reads-close y here (error_fields code msg extra stack) none tt refl rest

  Reads-shmem :
      (spot : Spot) (offset size handle : ℤ)
      → Reads y
          (λ r.
            map_open
            ∷ map_key (codes "addr")
            ∷ gen_integer offset
            ∷ map_key (codes "len")
            ∷ gen_integer size
            ∷ map_key (codes "fd")
            ∷ gen_integer handle
            ∷ map_close
            ∷ r)
          (at (entry [] exttype_shmem spot))
          (behind
            (entry [] exttype_shmem spot)
            (dictionary (shmem_fields offset size handle))
            false)
  unfolding callback insert bytes_eq unescape_key behind
  Reads-shmem spot offset size handle rest =
      let here = entry [] exttype_shmem spot in
      Reads-open y here map_open (dictionary end) refl (inr refl) _
      ∙ Reads-integer here [] (codes "addr") offset refl _
      ∙ Reads-integer here ((codes "addr", int64 offset) ∷ []) (codes "len") size refl _
      ∙ Reads-integer here ((codes "addr", int64 offset) ∷ (codes "len", int64 size) ∷ [])
          (codes "fd") handle refl _
      ∙ Reads-close y here (shmem_fields offset size handle) none tt refl rest

double_text_lem : (d : ℕ) → has_nul (double_text d) ≡ false
unfolding double_text has_nul
double_text_lem d = ground arith

odd_lem :
    (d : ℕ)
    → (isfinite d ≡ true) ⊎ ((d ≡ infinity) ⊎ ((d ≡ minus_infinity) ⊎ (d ≡ not_a_number)))
    → isfinite d ≡ false
    → (d ≡ infinity) ⊎ ((d ≡ minus_infinity) ⊎ (d ≡ not_a_number))
odd_lem d (inl h) odd = cc
odd_lem d (inr h) odd = h

module _ (y : Yajl) (b64 : Base64 y) where
  mutual
    unfolding callback is_container behind insert bytes_eq unescape_key

    read_lem :
        (o : Object) (spot : Spot)
        → Plain o
        → Room spot
        → Reads y (emit y o) (at spot) (behind spot o (not (is_container o)))
    read_lem null spot h r = Reads-value y spot gen_null null refl refl
    read_lem (bool b) spot h r = Reads-value y spot (gen_bool b) (bool b) refl refl
    read_lem (int64 i) spot h r = Reads-value y spot (gen_integer i) (int64 i) refl refl
    read_lem (uint64 n) spot h r =
        Reads-ext y spot exttype_uint64 _ (int64 (to_int64 n)) (uint64 n) true r refl
          (Reads-value y (entry [] exttype_uint64 spot) (gen_integer (to_int64 n))
            (int64 (to_int64 n)) refl refl)
          (unpacked_uint64 y b64 n h)
    read_lem (date t) spot h r =
        Reads-ext y spot exttype_date _ (int64 t) (date t) true r refl
          (Reads-value y (entry [] exttype_date spot) (gen_integer t) (int64 t) refl refl) refl
    read_lem (binary b) spot h r =
        Reads-ext y spot exttype_binary _ (string (y.base64_encode b)) (binary b) true r refl
          (Reads-string y (entry [] exttype_binary spot) (y.base64_encode b) (b64.texts b))
          (unpacked_binary y b64 b)
    read_lem (fd n) spot h r =
        Reads-ext y spot exttype_fd _ (int64 n) (fd n) true r refl
          (Reads-value y (entry [] exttype_fd spot) (gen_integer n) (int64 n) refl refl)
          (unpacked_fd y b64 n h)
    read_lem (error code msg extra stack) spot h r =
        Reads-ext y spot exttype_error _ (dictionary (error_fields code msg extra stack))
          (error code msg extra stack) false r refl
          (Reads-error y spot code msg extra stack (emit y extra) (emit y stack)
            (not (is_container extra)) (not (is_container stack)) h.1
            (read_lem extra (extra_spot code msg spot) h.2 tt)
            (read_lem stack (stack_spot code msg extra spot) h.3 tt))
          (unpacked_error y b64 code msg extra stack h.0)
    read_lem (shmem handle offset size) spot h r =
        Reads-ext y spot exttype_shmem _ (dictionary (shmem_fields offset (to_int64 size) handle))
          (shmem handle offset size) false r refl (Reads-shmem y spot offset (to_int64 size) handle)
          (unpacked_shmem y b64 handle offset size h.0 h.1)
    read_lem (double d) spot h r = elim (Bool-cases (isfinite d)) [
      | inl plain ↦ rw plain (Reads-value y spot (gen_double d) (double d) refl refl)
      | inr odd ↦ rw odd (
          Reads-ext y spot exttype_double _ (string (double_text d)) (double d) true r refl
            (Reads-string y (entry [] exttype_double spot) (double_text d) (double_text_lem d))
            (unpacked_double y b64 d (odd_lem d h odd)))
    ]
    read_lem (string s) spot h r = Reads-string y spot s h
    read_lem (dictionary fs) spot h r = λ rest.
        Reads-open y spot map_open (dictionary end) refl (inr refl)
          (emit_fields y fs (map_close ∷ rest))
        ∙ read_fields fs [] spot h.0 (Apart-nil fs) h.2 (map_close ∷ rest)
        ∙ ap
            (λ (gs : Fields).
              run y (map_close ∷ rest) (within spot (dictionary end) (dictionary gs) none))
            (fields-entries fs)
        ∙ Reads-close y spot fs none r (unpacked_stays y b64 fs h.1) rest
    read_lem (array xs) spot h r = λ rest.
        Reads-open y spot array_open (array nil) refl (inl refl)
          (emit_items y xs (array_close ∷ rest))
        ∙ read_items xs [] spot (omega (arith, h.0)) h.1 (array_close ∷ rest)
        ∙ ap (λ (zs : Items). run y (array_close ∷ rest) (within spot (array nil) (array zs) none))
            (items-elements xs)
        ∙ Reads-step y array_close (within spot (array nil) (array xs) none)
            (behind spot (array xs) false) (end_array-behind y spot xs r) rest

    read_fields :
        (fs : Fields) (es : Entries) (spot : Spot)
        → KeysDistinct (entries fs)
        → Apart fs es
        → PlainFields fs
        → Reads y
            (emit_fields y fs)
            (within spot (dictionary end) (dictionary (fields es)) none)
            (within spot (dictionary end) (dictionary (fields (es ++ entries fs))) none)
    read_fields end es spot d a h rest = rw (append-nil es)
    read_fields (field k v fs) es spot d a h rest =
        Reads-key y spot es (escape_key (c_string k)) k (unescape-escape k h.0)
          (emit y v (emit_fields y fs rest))
        ∙ read_lem v (entry es k spot) h.1 tt (emit_fields y fs rest)
        ∙ ap
            (λ (gs : Entries).
              run y (emit_fields y fs rest)
                (within spot (dictionary end) (dictionary (fields gs)) none))
            (insert_new k v es a.0)
        ∙ read_fields fs (es ++ (k, v) ∷ []) spot d.1 (Apart-snoc fs es k v d.0 a.1) h.2 rest
        ∙ ap
            (λ (gs : Entries).
              run y rest (within spot (dictionary end) (dictionary (fields gs)) none))
            (append_assoc es ((k, v) ∷ []) (entries fs))

    read_items :
        (xs : Items) (ys : List Object) (spot : Spot)
        → length ys + length (elements xs) < 2 ^ 32
        → PlainItems xs
        → Reads y
            (emit_items y xs)
            (within spot (array nil) (array (items ys)) none)
            (within spot (array nil) (array (items (ys ++ elements xs))) none)
    read_items nil ys spot l h rest = rw (append-nil ys)
    read_items (cons x xs) ys spot l h rest =
        read_lem x (element ys spot) h.0 (omega (arith, l)) (emit_items y xs rest)
        ∙ read_items xs (ys ++ x ∷ []) spot (omega (arith, l, length-append ys (x ∷ []))) h.1 rest
        ∙ ap (λ (zs : List Object). run y rest (within spot (array nil) (array (items zs)) none))
            (append_assoc ys (x ∷ []) (elements xs))

  result_lem : (o : Object) (stays : Bool) → (behind root o stays).result ≡ some o
  unfolding behind
  result_lem o stays = refl

  deserialize-serialize_lem :
      (o : Object)
      → Plain o
      → (serialize y o).1 ≡ 0
      → y.parse (serialize y o).0 ≡ ((write_object y o []).0, true)
      → deserialize y (serialize y o).0 ≡ ok (some o)
  unfolding deserialize serialize run
  deserialize-serialize_lem o h s e =
      let written = write_object-emit y o s in
      let ran = read_lem o root h tt [] in
      rw e (rw written (rw ran (ground (arith, result_lem o (not (is_container o))))))

  -- An object is read back from the JSON that it was written to: where rpc_json_serialize returns 0,
  -- rpc_json_deserialize returns an object with the same content: the same scalars, arrays with the same
  -- elements in order, and dictionaries with the same values at the same keys. The conditions: its numbers are in the ranges of their types, and the only NaN is the one of C's
  -- NAN; no string, key or message holds a NUL; no dictionary has a key twice; an array has fewer than
  -- 2^32 elements; and no dictionary has the name of an extension, such as "$uint", as its only key.
  -- yajl reads back the calls that it took for the object, GLib's base64 what it wrote.
  pub deserialize-serialize :
      (o : Object)
      → Plain o
      → (serialize y o).1 ≡ 0
      → y.parse (serialize y o).0 ≡ ((write_object y o []).0, true)
      → (o' : Object) × (deserialize y (serialize y o).0 ≡ ok (some o')) × SameContent o' o
  deserialize-serialize o h s e = (o, deserialize-serialize_lem o h s e, SameContent-eq refl)
