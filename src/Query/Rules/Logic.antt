-- ===== src/Query/Rules/Logic.antt =====
-- src/rpc_query.c: what the logic operators of a rule decide, and what rpc_query_apply keeps.
use librpc.Base.{
  ap, ◌∙◌, ◌≡◌, refl, Bool, true, false, not, ◌&&◌, ◌||◌, none, some, List, [], ◌∷◌, arith, ok,
  if◌then◌else◌,
}
use librpc.Object.Platform.{Platform}
use librpc.Object.Types.{Object, array, Items, nil, cons, elements}
use librpc.Query.Rules.{
  eval_rule, eval_logic_and, eval_logic_or, eval_logic_nor, and_items, or_items, nor_items,
  all_rules, query_steal_apply, query_apply,
}

unfoldable pub all_hold : (Object → Bool) → List Object → Bool
all_hold m [] = true
all_hold m (r ∷ rs) = m r && all_hold m rs

unfoldable pub any_holds : (Object → Bool) → List Object → Bool
any_holds m [] = false
any_holds m (r ∷ rs) = m r || any_holds m rs

abbrev pub is_empty : List Object → Bool
is_empty [] = true
is_empty (r ∷ rs) = false

all_from_true :
    (m : Object → Bool) (rs : List Object)
    → (if is_empty rs then true else all_hold m rs) ≡ all_hold m rs
unfolding all_hold
all_from_true m [] = refl
all_from_true m (r ∷ rs) = refl

any_from_false :
    (m : Object → Bool) (rs : List Object)
    → (if is_empty rs then false else any_holds m rs) ≡ any_holds m rs
unfolding any_holds
any_from_false m [] = refl
any_from_false m (r ∷ rs) = refl

nor_from_true :
    (m : Object → Bool) (rs : List Object)
    → (if is_empty rs then true else not (any_holds m rs)) ≡ not (any_holds m rs)
unfolding any_holds
nor_from_true m [] = refl
nor_from_true m (r ∷ rs) = refl

module _ (p : Platform) (m : Object → Bool) (obj : Object) where
  -- Each rule is evaluated without a fault, and `m` is the result.
  abbrev pub Evaluates : Items → Type 0
  Evaluates nil = Unit {0}
  Evaluates (cons r rs) = (eval_rule p obj r ≡ ok (m r)) × Evaluates rs

  and_lem :
      (rs : Items) (result : Bool)
      → Evaluates rs
      → and_items p obj result rs
        ≡ ok (if is_empty (elements rs) then result else all_hold m (elements rs))
  unfolding and_items all_hold
  and_lem nil result h = refl
  and_lem (cons r rs) result h =
      ground (arith, h.0, and_lem rs true h.1, all_from_true m (elements rs))

  or_lem :
      (rs : Items) (result : Bool)
      → Evaluates rs
      → or_items p obj result rs
        ≡ ok (if is_empty (elements rs) then result else any_holds m (elements rs))
  unfolding or_items any_holds
  or_lem nil result h = refl
  or_lem (cons r rs) result h =
      ground (arith, h.0, or_lem rs false h.1, any_from_false m (elements rs))

  nor_lem :
      (rs : Items) (result : Bool)
      → Evaluates rs
      → nor_items p obj result rs
        ≡ ok (if is_empty (elements rs) then result else not (any_holds m (elements rs)))
  unfolding nor_items any_holds
  nor_lem nil result h = refl
  nor_lem (cons r rs) result h =
      ground (arith, h.0, nor_lem rs true h.1, nor_from_true m (elements rs))

  -- Where each rule of a list is evaluated without a fault: "and" holds if the list is not empty
  -- and every rule in it holds, "or" if some rule holds, and "nor" if the list is not empty and no
  -- rule holds. On an empty list all three are false.
  pub eval_logic-eq :
      (rs : Items)
      → Evaluates rs
      → (eval_logic_and p obj (array rs)
          ≡ ok (not (is_empty (elements rs)) && all_hold m (elements rs)))
        × (eval_logic_or p obj (array rs) ≡ ok (any_holds m (elements rs)))
        × (eval_logic_nor p obj (array rs)
            ≡ ok (not (is_empty (elements rs)) && not (any_holds m (elements rs))))
  unfolding eval_logic_and
  eval_logic-eq rs h = (
    ground (arith, and_lem rs false h),
    or_lem rs false h ∙ ap ok (any_from_false m (elements rs)),
    ground (arith, nor_lem rs false h),
  )

  all_rules_lem :
      (rs : Items) → Evaluates rs → all_rules p obj (elements rs) ≡ ok (all_hold m (elements rs))
  unfolding all_rules all_hold
  all_rules_lem nil h = refl
  all_rules_lem (cons r rs) h = ground (arith, h.0, all_rules_lem rs h.1)

  -- Where each rule of a list is evaluated without a fault, rpc_query_apply gives the object back
  -- if every rule holds, also of no rules, and NULL otherwise.
  pub query_apply-eq :
      (rs : Items)
      → Evaluates rs
      → query_apply p (some obj) (some (array rs))
        ≡ ok (if all_hold m (elements rs) then some obj else none)
  unfolding query_apply query_steal_apply
  query_apply-eq rs h = rw (all_rules_lem rs h)
