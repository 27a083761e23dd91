-- ===== src/Serializer/Json/RoundTrip/Reading.antt =====
-- src/serializer/json.c: the parser on the callbacks of an object.
use librpc.Serializer.Json.RoundTrip.Extensions.{NotExtension}
use librpc.Base.Int.{is_int32}
use librpc.Serializer.Json.Write.{isfinite, escape_key}
use librpc.Object.Value.{c_string_lem, string_create_len_lem, has_nul, c_string}
use librpc.Object.Dictionary.{KeysDistinct, Entries, insert}
use librpc.Base.{
  is_some, inr, none, ◌⊎◌, length, ◌^◌, true, false, Bool, ◌<◌, some, Option, ◌≡◌, refl, ap, ◌∙◌,
  arith, List, [], ◌∷◌, Bytes, ok,
}
use librpc.Serializer.Json.{
  not_a_number, minus_infinity, infinity, map_open, map_close, gen_string, map_key, Yajl, Event,
}
use librpc.Serializer.Json.Parse.{
  get_or_leaf, unpacked, is_container, unescape_key, insert_value, read_key, Context, callback, run,
}
use librpc.Serializer.Json.Spots.{
  end_map-behind, insert_value-within, insert_value-behind, entry, Room, Spot, at, within, behind,
}
use librpc.Serializer.Json.RoundTrip.Emitted.{Calls, ext}
use librpc.Object.Types.{
  cons, elements, entries, shmem, error, double, fields, end, fd, string, dictionary, nil, array,
  field, uint64, Object, Items, Fields,
}

-- The objects that JSON can tell: numbers in the range of their types, one NaN, no NUL in a string.
abbrev mutual
  pub Plain : Object → Type 0
  Plain (uint64 n) = n < 2 ^ 64
  Plain (fd n) = is_int32 n ≡ true
  Plain (string s) = has_nul s ≡ false
  Plain (double d) =
      (isfinite d ≡ true) ⊎ ((d ≡ infinity) ⊎ ((d ≡ minus_infinity) ⊎ (d ≡ not_a_number)))
  Plain (error code msg extra stack) =
      (is_int32 code ≡ true) × (has_nul msg ≡ false) × Plain extra × Plain stack
  Plain (shmem handle offset size) = (is_int32 handle ≡ true) × (size < 2 ^ 64)
  Plain (dictionary fs) = KeysDistinct (entries fs) × NotExtension fs × PlainFields fs
  Plain (array xs) = (length (elements xs) < 2 ^ 32) × PlainItems xs
  Plain _ = Unit {0}

  pub PlainItems : Items → Type 0
  PlainItems nil = Unit {0}
  PlainItems (cons x xs) = Plain x × PlainItems xs

  pub PlainFields : Fields → Type 0
  PlainFields end = Unit {0}
  PlainFields (field k v fs) = (has_nul k ≡ false) × Plain v × PlainFields fs

pub unescape-escape : (k : Bytes) → has_nul k ≡ false → unescape_key (escape_key (c_string k)) ≡ k
unfolding unescape_key escape_key has_nul c_string
unescape-escape [] h = refl
unescape-escape (c ∷ cs) h = ground (arith, h, c_string_lem cs)

module _ (y : Yajl) where
  -- The calls bring the parser from the one context to the other, whatever comes behind them.
  abbrev pub Reads : Calls → Context → Context → Type 0
  Reads f c c' = (rest : List Event) → run y (f rest) c ≡ run y rest c'

  pub Reads-step :
      (e : Event) (c c' : Context) → callback y e c ≡ ok (some c') → Reads (λ r. e ∷ r) c c'
  unfolding run
  Reads-step e c c' h rest = rw h

  pub Reads-key :
      (spot : Spot) (es : Entries) (key k : Bytes)
      → unescape_key key ≡ k
      → Reads
          (λ r. map_key key ∷ r)
          (within spot (dictionary end) (dictionary (fields es)) none)
          (at (entry es k spot))
  unfolding callback read_key
  Reads-key spot es key k h = Reads-step (map_key key) _ _ (rw h)

  pub Reads-value :
      (spot : Spot) (e : Event) (o : Object)
      → callback y e (at spot) ≡ insert_value o (at spot)
      → is_container o ≡ false
      → Reads (λ r. e ∷ r) (at spot) (behind spot o true)
  Reads-value spot e o c h =
      Reads-step e (at spot) (behind spot o true) (c ∙ insert_value-behind spot o h)

  pub Reads-string :
      (spot : Spot) (s : Bytes)
      → has_nul s ≡ false
      → Reads (λ r. gen_string s ∷ r) (at spot) (behind spot (string s) true)
  unfolding callback
  Reads-string spot s h =
      Reads-value spot (gen_string s) (string s)
        (ap (λ (o : Object). insert_value o (at spot)) (string_create_len_lem s h)) refl

  pub Reads-open :
      (spot : Spot) (e : Event) (o : Object)
      → callback y e (at spot) ≡ insert_value o (at spot)
      → (o ≡ array nil) ⊎ (o ≡ dictionary end)
      → Reads (λ r. e ∷ r) (at spot) (within spot o o none)
  Reads-open spot e o c h =
      Reads-step e (at spot) (within spot o o none) (c ∙ insert_value-within spot o h)

  pub Reads-close :
      (spot : Spot) (fs : Fields) (new : Option Object)
      → Room spot
      → unpacked y (dictionary fs) ≡ ok new
      → Reads
          (λ r. map_close ∷ r)
          (within spot (dictionary end) (dictionary fs) none)
          (behind spot (get_or_leaf new (dictionary fs)) (is_some new))
  unfolding callback
  Reads-close spot fs new r h = Reads-step map_close _ _ (end_map-behind y spot fs new r h)

  -- A value in the dictionary of an extension.
  pub Reads-ext :
      (spot : Spot) (k : Bytes) (inner : Calls) (v o : Object) (stays : Bool)
      → Room spot
      → unescape_key k ≡ k
      → Reads inner (at (entry [] k spot)) (behind (entry [] k spot) v stays)
      → unpacked y (dictionary (field k v end)) ≡ ok (some o)
      → Reads (ext k inner) (at spot) (behind spot o true)
  unfolding callback behind insert
  Reads-ext spot k inner v o stays r u i h rest =
      Reads-open spot map_open (dictionary end) refl (inr refl) _
      ∙ Reads-key spot [] k k u _
      ∙ i (map_close ∷ rest)
      ∙ Reads-close spot (field k v end) (some o) r h rest
