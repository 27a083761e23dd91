-- ===== src/Query/Tests.antt =====
-- Objects, paths and rules on which the statements about src/rpc_query.c are applied.
use librpc.Query.Path.Deletes.{query_delete-gone, SameBut, query_delete-child}
use librpc.Query.Path.RoundTrip.{query_set-get}
use librpc.Query.Path.Defaults.{query_get-last, last_read}
use librpc.Query.Iter.Steps.{Decides}
use librpc.Object.Value.{uint64_get_value}
use librpc.Object.Dictionary.{KeysDistinct, has_key, dictionary_get_value}
use librpc.Query.Iter.Results.{query_next-count, collect-query}
use librpc.Query.Iter.Start.{wanted, ordered}
use librpc.Query.Iter.Loops.{emits}
use librpc.Query.Path.Tokens.{IsPlain, is_plain}
use librpc.Query.Rules.Logic.{eval_logic-eq, any_holds, is_empty, Evaluates, all_hold}
use librpc.Object.Fits.{Fits}
use librpc.Object.Types.{
  entries, Fields, end, string, nil, field, uint64, cons, null, elements, dictionary, array, Object,
  Items,
}
use librpc.Query.Text.{split_last, strtok, split}
use librpc.Query.Iter.{query_next, Params, collect, Iter, query}
use librpc.Query.Rules.{
  eval_field_operator, eval_logic_nor, eval_logic_or, query_apply, query_steal_apply, eval_rule,
  eval_logic_and,
}
use librpc.Query.Path.{
  delete_child, parent_not_found, query_delete, PathError, get_loop, query_set, query_get,
}
use librpc.Base.{
  bytes_eq, if◌then◌else◌, Bytes, ◌^◌, ◌%◌, ◌+◌, ◌&&◌, length, ◌==◌, ◌⊎◌, [], not, Option,
  get_elem?, ◌∷◌, ℕ, ◌≡◌, refl, some, none, codes, arith, ok, Bool, true, false, All,
}
use librpc.Object.Tests.{test_platform}

abbrev port : ℕ → Object
port n = dictionary (field (codes "n") (uint64 n) end)

abbrev ports : Items
ports = cons (port 1) (cons (port 2) (cons (port 2) nil))

abbrev site : Object
site = dictionary (field (codes "ports") (array ports) end)

site-Fits : Fits site
site-Fits = ((omega arith, ((tt, tt), ((tt, tt), ((tt, tt), tt)))), tt)

path-IsPlain : All IsPlain (split (codes "ports.4.n"))
unfolding split is_plain librpc.Query.Text.number_at
path-IsPlain = (refl, (refl, (refl, tt)))

query_set-get_example :
    ((o' : Object) × (query_set (some site) (codes "ports.4.n") (some null) ≡ ok (o', none))
      × ((d : Option Object) → query_get (some o') (some (codes "ports.4.n")) d ≡ some null))
    ⊎ ((e : PathError) × (query_set (some site) (codes "ports.4.n") (some null)
          ≡ ok (site, some e)))
query_set-get_example = query_set-get site (codes "ports.4.n") null site-Fits path-IsPlain

path-tokens : strtok (codes "ports.4") ≡ codes "ports" ∷ codes "4" ∷ []
unfolding strtok split
path-tokens = refl

query_get-last_example :
    query_get (some site) (some (codes "ports.4")) (some null)
    ≡ (elim (get_loop (some site) (codes "ports" ∷ []) none) [
      | none ↦ none
      | some container ↦ last_read container (codes "4") (some null)
    ])
query_get-last_example =
    query_get-last site (codes "ports.4") (codes "ports" ∷ []) (codes "4") (some null) path-tokens

-- The rule `n = 2`, and what it decides.
abbrev rule_list : Items
rule_list =
    cons (array (cons (string (codes "n")) (cons (string (codes "=")) (cons (uint64 2) nil)))) nil

abbrev is_two : Object → Bool
is_two v = elim (dictionary_get_value v (codes "n")) [
  | none ↦ false
  | some n ↦ uint64_get_value n == 2
]

abbrev settings : Bool → Bool → Params
settings single count = record {
  single = single;
  count = count;
  offset = 0;
  limit = 1;
  reverse_order = true;
  sort = none;
  callback = none;
}

abbrev start : Bool → Bool → Iter
start single count = record {
  source = elements ports;
  idx = 0;
  rules = some (array rule_list);
  params = settings single count;
  done = false;
  initialized = false;
  limit_used = 0;
}

start-eq :
    (single count : Bool)
    → query
        (settings true true)
        (array ports)
        (some (settings single count))
        (some (array rule_list))
      ≡ some (start single count)
unfolding query
start-eq single count = refl

rules-Decides :
    (single count : Bool)
    → Decides test_platform is_two
        (some (array rule_list))
        (ordered (settings single count) (elements ports))
unfolding query_steal_apply ordered uint64_get_value eval_rule
    librpc.Query.Rules.eval_field_operator librpc.Base.bytes_eq librpc.Object.Equal.equal_ptr strtok
    librpc.Query.Path.get_step dictionary_get_value librpc.Object.Equal.equal
rules-Decides single count = (refl, (refl, (refl, tt)))

collect-query_example :
    collect test_platform 4 (start false false)
    ≡ ok (emits none (wanted is_two (settings false false) (elements ports)))
collect-query_example =
    collect-query test_platform is_two (settings true true) (settings false false) ports
      (some (array rule_list)) (start false false) 4 (start-eq false false) (omega arith)
      (rules-Decides false false) refl refl (unfold ordered in omega arith)

query_next-count_example :
    (it' : Iter) × (query_next test_platform (start false true)
      ≡ ok (
        false,
        some
            (uint64 ((length (wanted is_two (settings false true) (elements ports)) + 1) % 2 ^ 32)),
        it',
      ))
    × (it'.done ≡ true)
query_next-count_example =
    query_next-count test_platform is_two (settings true true) (settings false true) ports
      (some (array rule_list)) (start false true) (start-eq false true) (omega arith)
      (rules-Decides false true) refl

rule_list-Evaluates : Evaluates test_platform (λ r. true) (port 2) rule_list
unfolding eval_rule librpc.Query.Rules.eval_field_operator librpc.Base.bytes_eq
    librpc.Object.Equal.equal_ptr strtok librpc.Query.Path.get_step dictionary_get_value
    librpc.Object.Equal.equal
rule_list-Evaluates = (refl, tt)

eval_logic-eq_example :
    (eval_logic_and test_platform (port 2) (array rule_list)
      ≡ ok (not (is_empty (elements rule_list)) && all_hold (λ r. true) (elements rule_list)))
    × (eval_logic_or test_platform (port 2) (array rule_list)
        ≡ ok (any_holds (λ r. true) (elements rule_list)))
    × (eval_logic_nor test_platform (port 2) (array rule_list)
        ≡ ok (
            not (is_empty (elements rule_list))
            && not (any_holds (λ r. true) (elements rule_list))))
eval_logic-eq_example =
    eval_logic-eq test_platform (λ r. true) (port 2) rule_list rule_list-Evaluates

-- A path to the number in the second port.
abbrev number_path : Bytes
number_path = codes "ports.1.n"

number_path-split : split_last number_path ≡ some (codes "ports.1", codes "n")
unfolding split_last
number_path-split = refl

query_delete-child_example :
    ((query_get (some site) (some (codes "ports.1")) none ≡ none)
      × (query_delete site number_path ≡ ok (site, some parent_not_found)))
    ⊎ ((parent : Object) × (parent' : Object) × (o' : Object) × (e : Option PathError) × (query_get
            (some site)
            (some (codes "ports.1"))
            none
          ≡ some parent)
        × (delete_child parent (codes "n") ≡ ok (parent', e))
        × (query_delete site number_path ≡ ok (o', e))
        × (query_get (some o') (some (codes "ports.1")) none ≡ some parent')
        × SameBut (strtok (codes "ports.1")) site o')
query_delete-child_example =
    query_delete-child site number_path (codes "ports.1") (codes "n") site-Fits number_path-split

abbrev port_fields : Fields
port_fields = field (codes "n") (uint64 2) end

port_found : query_get (some site) (some (codes "ports.1")) none ≡ some (dictionary port_fields)
unfolding query_get strtok librpc.Query.Path.get_step dictionary_get_value bytes_eq
    librpc.Object.Array.array_get_value librpc.Query.Text.atoi
port_found = refl

port_fields-KeysDistinct : KeysDistinct (entries port_fields)
unfolding has_key
port_fields-KeysDistinct = (refl, tt)

query_delete-gone_example :
    (o' : Object) × (d : Object) × (query_delete site number_path ≡ ok (o', none))
    × (query_get (some o') (some (codes "ports.1")) none ≡ some d)
    × ((k : Bytes)
        → dictionary_get_value d k ≡ (
            if bytes_eq (codes "n") k
            then none
            else dictionary_get_value (dictionary port_fields) k))
query_delete-gone_example =
    query_delete-gone site number_path (codes "ports.1") (codes "n") port_fields site-Fits
      number_path-split port_found port_fields-KeysDistinct

name_missing : query_get (some (port 2)) (some (codes "name")) none ≡ none
unfolding query_get strtok librpc.Query.Path.get_step dictionary_get_value bytes_eq
name_missing = refl
