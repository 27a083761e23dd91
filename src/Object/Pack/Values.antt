-- ===== src/Object/Pack/Values.antt =====
-- src/rpc_object.c: the values that rpc_object_vpack takes from its arguments, and from quoted texts.
use librpc.Object.Value.{data_create_iov, string_create}
use librpc.Base.Int.{pos, eqb_ℤ, ℤ}
use librpc.Base.{
  not, ◌-◌, ◌+◌, none, ◌>>=◌, ◌||◌, [], ok, ◌∷◌, bad_access, fault, some, if◌then◌else◌, ◌==◌, ℕ,
  Outcome, Option, List, Bytes,
}
use librpc.Object.Types.{date, fd, double, uint64, null, bool, binary, int64, Object}

-- An argument, by the type with which va_arg takes it; a buffer is given by three of them. One that is
-- taken with another type is a fault.
pub data Arg : Type 0 where
  object_arg : Option Object → Arg
  int_arg : ℤ → Arg
  int64_arg : ℤ → Arg
  uint64_arg : ℕ → Arg
  double_arg : ℕ → Arg
  string_arg : Option Bytes → Arg
  data_arg : Bytes → Arg
  iov_arg : Option (List Bytes) → Arg

unfoldable pub taken : (Arg → Option Object) → List Arg → Outcome (Object × List Arg)
taken f [] = fault bad_access
taken f (a ∷ args) = elim (f a) [ none ↦ fault bad_access | some o ↦ ok (o, args) ]

abbrev pub object_of : Arg → Option Object
object_of (object_arg none) = some null
object_of (object_arg (some o)) = some o
object_of _ = none

abbrev pub bool_of : Arg → Option Object
bool_of (int_arg i) = some (bool (not (eqb_ℤ i (pos 0))))
bool_of _ = none

abbrev pub fd_of : Arg → Option Object
fd_of (int_arg i) = some (fd i)
fd_of _ = none

abbrev pub data_of : Arg → Option Object
data_of (data_arg b) = some (binary b)
data_of _ = none

abbrev pub int64_of : Arg → Option Object
int64_of (int64_arg i) = some (int64 i)
int64_of _ = none

abbrev pub date_of : Arg → Option Object
date_of (int64_arg i) = some (date i)
date_of _ = none

abbrev pub uint64_of : Arg → Option Object
uint64_of (uint64_arg n) = some (uint64 n)
uint64_of _ = none

abbrev pub double_of : Arg → Option Object
double_of (double_arg d) = some (double d)
double_of _ = none

unfoldable pub iov_of : Arg → Option Object
unfolding data_create_iov
iov_of (iov_arg iov) = some (data_create_iov iov)
iov_of _ = none

unfoldable pub string_of : Arg → Option Object
unfolding string_create
string_of (string_arg s) = some (string_create s)
string_of _ = none

-- The cases of the switch that take an argument; `none` is none of them.
unfoldable pub take_value : ℕ → List Arg → Option (Outcome (Object × List Arg))
unfolding taken iov_of string_of
take_value ch args =
    if ch == b'v' || ch == b'V'
    then some (taken object_of args)
    else if ch == b'n'
    then some (ok (null, args))
    else if ch == b'b'
    then some (taken bool_of args)
    else if ch == b'B'
    then some (taken data_of args)
    else if ch == b'I'
    then some (taken iov_of args)
    else if ch == b'f'
    then some (taken fd_of args)
    else if ch == b'i'
    then some (taken int64_of args)
    else if ch == b'u'
    then some (taken uint64_of args)
    else if ch == b'd'
    then some (taken double_of args)
    else if ch == b'D'
    then some (taken date_of args)
    else if ch == b's'
    then some (taken string_of args)
    else none

-- strchr(text, '\''): what stands before the quote, and behind it.
unfoldable pub split_quote : Bytes → Option (Bytes × Bytes)
split_quote [] = none
split_quote (c ∷ cs) =
    let more : Option (Bytes × Bytes) = elim (split_quote cs) [
      | none ↦ none
      | some (text, rest) ↦ some (c ∷ text, rest)
    ] in
    if c == b'\'' then some ([], cs) else more

abbrev pub nesting_after : ℕ → ℕ → ℕ
nesting_after n c = if c == b'<' then n + 1 else if c == b'>' then n - 1 else n

-- The text of a type up to the bracket that closes it; the loop does not look for the end of the format.
unfoldable pub split_type : ℕ → Bytes → Outcome (Bytes × Bytes)
split_type nesting [] = fault bad_access
split_type nesting (c ∷ cs) =
    let more =
      split_type (nesting_after nesting c) cs >>= λ (r : Bytes × Bytes). ok (c ∷ r.0, r.1) in
    if nesting_after nesting c == 0 then ok ([], cs) else more
