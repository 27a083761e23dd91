-- ===== src/Validators.antt =====
-- src/validator/int64_range.c, src/validator/string_length.c and src/validator/string_regex.c: the
-- validators of the type system, with the errors that they add to the error context.
use librpc.Object.Platform.{Platform}
use librpc.Object.Types.{end, field, dictionary, int64, Object}
use librpc.Object.Value.{int64_get_value, string_get_string_ptr, string_get_length}
use librpc.Object.Dictionary.{lookup, dictionary_get_value}
use librpc.Base.Int.{ltb_ℤ, pos, eqb_ℤ, negsuc, ℤ}
use librpc.Connection.State.{unpack_string}
use librpc.Connection.Call.{unpack_int64}
use librpc.Base.{
  arith, ◌||◌, ◌↔◌, ◌≡◌, [], ok, ◌∷◌, ◌==◌, bad_access, true, false, some, fault, length, ◌++◌,
  ◌&&◌, none, codes, Outcome, bytes_eq, Option, not, if◌then◌else◌, Bool, List,
}

-- What rpct_add_error is told: the text, the value and the limit that the text shows.
pub record Violation : Type 0 where
  pub larger : Bool
  pub value : ℤ
  pub limit : ℤ

-- A limit that is not given is -1, as is one that is given as -1.
abbrev pub unlimited : ℤ
unlimited = negsuc 0

above : ℤ → ℤ → List Violation
above max value =
    if not (eqb_ℤ max unlimited) && ltb_ℤ max value
    then (record { larger = true; value = value; limit = max }) ∷ []
    else []

-- The text of a value that is too small shows `shown`.
below : ℤ → ℤ → ℤ → List Violation
below min shown value =
    if not (eqb_ℤ min unlimited) && ltb_ℤ value min
    then (record { larger = false; value = value; limit = shown }) ∷ []
    else []

-- The return value, and the errors.
unfoldable pub validate_int64_range : Object → Option Object → Bool × List Violation
unfolding unpack_int64 above below
validate_int64_range obj params =
    let min = unpack_int64 params (codes "min") unlimited in
    let max = unpack_int64 params (codes "max") unlimited in
    let errors = above max (int64_get_value obj) ++ below min max (int64_get_value obj) in
    (length errors == 0, errors)

unfoldable pub validate_string_length : Object → Option Object → Bool × List Violation
unfolding unpack_int64 above below string_get_length
validate_string_length obj params =
    let min = unpack_int64 params (codes "min") unlimited in
    let max = unpack_int64 params (codes "max") unlimited in
    let size = pos (string_get_length obj) in
    let errors = above max size ++ below min min size in (length errors == 0, errors)

-- The pattern has to be given, and the object to be a string: a NULL of either is handed to GLib.
unfoldable pub validate_string_regex : Platform → Object → Option Object → Outcome Bool
unfolding unpack_string string_get_string_ptr
validate_string_regex p obj params = elim (unpack_string params (codes "pattern")) [
  | none ↦ fault bad_access
  | some pattern ↦ elim (string_get_string_ptr obj) [
    | none ↦ fault bad_access
    | some str ↦ ok (p.regex_match pattern str)
  ]
]

-- An integer is accepted exactly where it is within each limit that is not -1.
pub validate_int64_range_lem :
    (value min max : ℤ)
    → ((validate_int64_range (int64 value) (
          some
            (dictionary (field (codes "min") (int64 min) (field (codes "max") (int64 max) end))))).0
        ≡ true)
      ↔ (((eqb_ℤ max unlimited || not (ltb_ℤ max value)) ≡ true)
          × ((eqb_ℤ min unlimited || not (ltb_ℤ value min)) ≡ true))
unfolding validate_int64_range dictionary_get_value lookup bytes_eq int64_get_value
validate_int64_range_lem value min max = ground arith
