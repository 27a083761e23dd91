-- ===== src/Serializer/Json/Tests.antt =====
-- The JSON serializer on concrete objects.
use librpc.Object.Content.{SameContent}
use librpc.Serializer.Json.RoundTrip.{deserialize-serialize}
use librpc.Base.Int.{negsuc, pos}
use librpc.Serializer.Json.Parse.{deserialize}
use librpc.Object.Dictionary.{has_key}
use librpc.Object.Types.{
  null, error, end, uint64, int64, fields, string, items, field, dictionary, array, Object,
}
use librpc.Object.Value.{c_string, has_nul}
use librpc.Serializer.Json.RoundTrip.Extensions.{is_exttype, Base64}
use librpc.Serializer.Json.Write.{double_text, isfinite, escape_key, write_object, serialize}
use librpc.Base.{
  bytes_eq, false, arith, ◌≡◌, refl, List, [], ◌∷◌, Bytes, ok, some, true, ◌+◌, ◌-◌, codes,
}
use librpc.Serializer.Json.RoundTrip.Emitted.{emit}
use librpc.Serializer.Json.{exttype_date, Yajl, Event}

abbrev up : Bytes → Bytes
up [] = []
up (c ∷ cs) = (c + 1) ∷ up cs

abbrev down : Bytes → Bytes
down [] = []
down (c ∷ cs) = (c - 1) ∷ down cs

down-up : (b : Bytes) → down (up b) ≡ b
down-up [] = refl
down-up (c ∷ cs) = ground (arith, down-up cs)

has_nul-up : (b : Bytes) → has_nul (up b) ≡ false
unfolding has_nul
has_nul-up [] = refl
has_nul-up (c ∷ cs) = ground (arith, has_nul-up cs)

-- A generator that takes every call, with a parser that knows one text.
abbrev yajl : List Event → Yajl
yajl events = record {
  status = λ gen e. 0;
  print = λ gen. [];
  parse = λ text. (events, true);
  base64_encode = up;
  base64_decode = down;
}

base64 : (events : List Event) → Base64 (yajl events)
base64 events = record { decodes = down-up; texts = has_nul-up }

-- An array of a string and of a dictionary with two entries, of which one key is escaped.
abbrev sample : Object
sample = array (
    items (
      string (codes "a")
      ∷ dictionary (
          fields (
            (codes "$x", uint64 5)
            ∷ (codes "b", error (negsuc 1) (codes "m") null (string []))
            ∷ []))
      ∷ []))

abbrev calls : List Event
calls = emit (yajl []) sample []

deserialize-serialize_example :
    (o' : Object) × (deserialize (yajl calls) (serialize (yajl calls) sample).0 ≡ ok (some o'))
    × SameContent o' sample
unfolding serialize has_key has_nul is_exttype bytes_eq write_object isfinite double_text escape_key
    c_string
deserialize-serialize_example =
    deserialize-serialize (yajl calls) (base64 calls) sample (ground arith) refl refl

abbrev dated : List Event
dated = emit (yajl []) (dictionary (field exttype_date (int64 (pos 7)) end)) []
