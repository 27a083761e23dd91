-- ===== src/Query/Rules/Missing.antt =====
-- src/rpc_query.c: a field operator on a path that leads nowhere.
use librpc.Object.Copy.{cmp_ptr}
use librpc.Object.Equal.{equal_ptr}
use librpc.Base.{
  sym, Option, subst, bytes_eq, ◌≡◌, refl, Bool, false, none, some, Bytes, codes, Outcome, ok,
  fault, abort, bad_access,
}
use librpc.Object.Platform.{Platform}
use librpc.Object.Types.{Object, array, string, cons, nil}
use librpc.Query.Path.{query_get}
use librpc.Query.Rules.{
  match_strings, cmp_ptr, equal_ptr, is_name, apply_operator, eval_field_operator,
}

abbrev pub field_rule : Bytes → Bytes → Object → Object
field_rule path op right = array (cons (string path) (cons (string op) (cons right nil)))

-- What a rule does with each operator.
abbrev pub MissingFaults : (Bytes → Outcome Bool) → Type 0
MissingFaults run =
    (run (codes "=") ≡ fault abort)
    × (run (codes "!=") ≡ fault bad_access)
    × (run (codes ">") ≡ fault bad_access)
    × (run (codes "<") ≡ fault bad_access)
    × (run (codes ">=") ≡ fault bad_access)
    × (run (codes "<=") ≡ fault bad_access)
    × (run (codes "~") ≡ ok false)
    × (run (codes "match") ≡ ok false)

no_item :
    (p : Platform) (right : Object)
    → MissingFaults (λ op. apply_operator p (some op) none (some right))
unfolding apply_operator is_name bytes_eq equal_ptr cmp_ptr match_strings
no_item p right = (refl, refl, refl, refl, refl, refl, refl, refl)

-- Where the path of a field rule leads to nothing, "=" fails the assertion of rpc_equal, the five
-- comparisons have rpc_cmp read a NULL pointer, and "~" and "match" do not hold.
pub missing_path :
    (p : Platform) (obj : Object) (path : Bytes) (right : Object)
    → query_get (some obj) (some path) none ≡ none
    → MissingFaults (λ op. eval_field_operator p obj (field_rule path op right))
unfolding eval_field_operator
missing_path p obj path right h =
    subst
      (λ (item : Option Object). MissingFaults (λ op. apply_operator p (some op) item (some right)))
      (sym h) (no_item p right)
