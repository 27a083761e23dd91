-- ===== src/Object/Pack/Search.antt =====
-- src/rpc_object.c: how rpc_object_vpack finds the end of an element, and what stands before a colon.
use librpc.Base.{
  ◌&&◌, leb, none, ◌>>=◌, ◌||◌, [], ok, ◌∷◌, bad_access, true, fault, false, some, if◌then◌else◌,
  ◌==◌, ℕ, Outcome, Option, Bytes, Bool,
}
use librpc.Query.Text.{skip_space}

abbrev pub is_stop : ℕ → Bool
is_stop c = c == b',' || c == b'<' || c == b'[' || c == b']' || c == b'{' || c == b'}' || c == b'\''

-- Where the search for the end of an element stops: the character before it, that character, what follows,
-- and the text before the last colon on the way.
pub record ElementEnd : Type 0 where
  pub before : ℕ
  pub stop : ℕ
  pub behind : Bytes
  pub label : Option Bytes

unfoldable pub label_of : ℕ → Option Bytes → Option Bytes
label_of c none = if c == b':' then some [] else none
label_of c (some text) = some (c ∷ text)

-- The search does not look for the end of the format.
unfoldable pub scan : ℕ → Bytes → Outcome ElementEnd
unfolding label_of
scan prev [] = fault bad_access
scan prev (c ∷ cs) =
    let more = scan c cs >>= λ (s : ElementEnd). ok (record s { label = label_of c s.label }) in
    if is_stop c then ok (record { before = prev; stop = c; behind = cs; label = none }) else more

unfoldable pub all_digits : Bytes → Bool
all_digits [] = true
all_digits (c ∷ cs) = leb b'0' c && leb c b'9' && all_digits cs

unfoldable pub some_digits : Bytes → Bool
unfolding all_digits
some_digits [] = false
some_digits (c ∷ cs) = all_digits (c ∷ cs)

unfoldable pub signed_digits : Bytes → Bool
unfolding some_digits
signed_digits [] = false
signed_digits (c ∷ cs) = if c == b'-' || c == b'+' then some_digits cs else some_digits (c ∷ cs)

-- strtol ends at the colon: the text is empty, or a number.
unfoldable pub is_index : Bytes → Bool
unfolding signed_digits skip_space
is_index [] = true
is_index (c ∷ cs) = signed_digits (skip_space (c ∷ cs))
