-- ===== src/Query/Rules.antt =====
-- src/rpc_query.c: the rules of a query and their evaluation on one object.
pub mod Logic
pub mod Missing
use librpc.Base.{
  ℕ, Bool, true, false, not, ◌||◌, Option, none, some, List, [], ◌∷◌, Bytes, codes, bytes_eq,
  Outcome, ok, ◌>>=◌, if◌then◌else◌,
}
use librpc.Base.Int.{ℤ, pos, ltb_ℤ, eqb_ℤ}
use librpc.Object.Platform.{Platform}
use librpc.Object.Types.{Object, string, array, Items, nil, cons, elements}
use librpc.Object.Value.{string_get_string_ptr}
use librpc.Object.Array.{array_get_value}
use librpc.Object.Array.Typed.{array_get_string}
use librpc.Object.Equal.{equal_ptr, array_contains}
use librpc.Object.Copy.{cmp_ptr}
use librpc.Query.Path.{query_get}

-- !g_strcmp0(op, name): a NULL operator is no name.
unfoldable pub is_name : Option Bytes → Bytes → Bool
is_name none name = false
is_name (some op) name = bytes_eq op name

abbrev pub negate_ok : Outcome Bool → Outcome Bool
negate_ok r = r >>= λ b. ok (not b)

abbrev pub cmp_holds : (ℤ → Bool) → Outcome ℤ → Outcome Bool
cmp_holds test r = r >>= λ d. ok (test d)

-- Both operands have to be strings.
unfoldable pub match_strings : (Bytes → Bytes → Bool) → Option Object → Option Object → Outcome Bool
match_strings matches (some (string item)) (some (string right)) = ok (matches right item)
match_strings matches _ _ = ok false

module _ (p : Platform) where
  unfoldable pub op_in : Option Object → Option Object → Outcome Bool
  op_in o1 (some (array ys)) = array_contains p (array ys) o1
  op_in (some (array xs)) o2 = array_contains p (array xs) o2
  op_in o1 o2 = ok false

  -- The chain of operators of eval_field_operator, on the value at the path and the right operand.
  unfoldable pub apply_operator : Option Bytes → Option Object → Option Object → Outcome Bool
  unfolding is_name match_strings op_in
  apply_operator op item right =
      if is_name op (codes "=")
      then equal_ptr p item right
      else if is_name op (codes "!=")
      then cmp_holds (λ d. not (eqb_ℤ d (pos 0))) (cmp_ptr p item right)
      else if is_name op (codes ">")
      then cmp_holds (λ d. ltb_ℤ (pos 0) d) (cmp_ptr p item right)
      else if is_name op (codes "<")
      then cmp_holds (λ d. ltb_ℤ d (pos 0)) (cmp_ptr p item right)
      else if is_name op (codes ">=")
      then cmp_holds (λ d. not (ltb_ℤ d (pos 0))) (cmp_ptr p item right)
      else if is_name op (codes "<=")
      then cmp_holds (λ d. not (ltb_ℤ (pos 0) d)) (cmp_ptr p item right)
      else if is_name op (codes "~")
      then match_strings p.regex_match item right
      else if is_name op (codes "in") || is_name op (codes "contains")
      then op_in item right
      else if is_name op (codes "nin") || is_name op (codes "ncontains")
      then negate_ok (op_in item right)
      else if is_name op (codes "match")
      then match_strings p.fnmatch item right
      else ok false

  unfoldable pub eval_field_operator : Object → Object → Outcome Bool
  unfolding apply_operator array_get_string array_get_value query_get
  eval_field_operator obj (array xs) = array_get_string (array xs) 0 >>= λ path.
      array_get_string (array xs) 1 >>= λ op.
      apply_operator op (query_get (some obj) path none) (array_get_value (array xs) 2)
  eval_field_operator obj _ = ok false

  -- A rule of two elements is a logic operator: an array in the first place makes the rule itself the
  -- list of an "and". The appliers carry `result`, which is false before the first element: "and" and
  -- "nor" go on while it is true, "or" while it is false.
  unfoldable mutual
    pub eval_rule : Object → Object → Outcome Bool
    eval_rule obj (array (cons (array ys) (cons lst nil))) =
        and_items obj false (cons (array ys) (cons lst nil))
    eval_rule obj (array (cons op (cons lst nil))) =
        let name = string_get_string_ptr op in
        let or_case = eval_logic_or obj lst in
        let and_case = eval_logic_and obj lst in
        let nor_case = eval_logic_nor obj lst in
        if is_name name (codes "or")
        then or_case
        else if is_name name (codes "and")
        then and_case
        else if is_name name (codes "nor")
        then nor_case
        else ok false
    eval_rule obj (array (cons left (cons op (cons right nil)))) =
        eval_field_operator obj (array (cons left (cons op (cons right nil))))
    eval_rule obj _ = ok false

    pub eval_logic_and : Object → Object → Outcome Bool
    eval_logic_and obj (array xs) = and_items obj false xs
    eval_logic_and obj _ = ok false

    pub eval_logic_or : Object → Object → Outcome Bool
    eval_logic_or obj (array xs) = or_items obj false xs
    eval_logic_or obj _ = ok false

    pub eval_logic_nor : Object → Object → Outcome Bool
    eval_logic_nor obj (array xs) = nor_items obj false xs
    eval_logic_nor obj _ = ok false

    pub and_items : Object → Bool → Items → Outcome Bool
    and_items obj result nil = ok result
    and_items obj result (cons v xs) =
        let more = and_items obj true xs in eval_rule obj v >>= λ r. if r then more else ok false

    pub or_items : Object → Bool → Items → Outcome Bool
    or_items obj result nil = ok result
    or_items obj result (cons v xs) =
        let more = or_items obj false xs in eval_rule obj v >>= λ r. if r then ok true else more

    pub nor_items : Object → Bool → Items → Outcome Bool
    nor_items obj result nil = ok result
    nor_items obj result (cons v xs) =
        let more = nor_items obj true xs in eval_rule obj v >>= λ r. if r then ok false else more

  -- The loop of rpc_query_steal_apply: the first rule that fails ends it.
  unfoldable pub all_rules : Object → List Object → Outcome Bool
  unfolding eval_rule
  all_rules obj [] = ok true
  all_rules obj (v ∷ vs) =
      let rest = all_rules obj vs in eval_rule obj v >>= λ r. if r then rest else ok false

  -- rpc_query_steal_apply; a NULL object or NULL rules are `none`.
  unfoldable pub query_steal_apply : Option Object → Option Object → Outcome (Option Object)
  unfolding all_rules
  query_steal_apply (some object) (some (array rules)) =
      all_rules object (elements rules) >>= λ b. ok (if b then some object else none)
  query_steal_apply object rules = ok none

  -- rpc_query_apply
  unfoldable pub query_apply : Option Object → Option Object → Outcome (Option Object)
  unfolding query_steal_apply
  query_apply object (some (array rules)) = query_steal_apply object (some (array rules))
  query_apply object rules = ok none
