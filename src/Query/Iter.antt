-- ===== src/Query/Iter.antt =====
-- src/rpc_query.c: the iterator of a query.
pub mod Steps
pub mod Loops
pub mod Start
pub mod Results
use librpc.Base.{
  ◌^◌, ◌%◌, ◌+◌, length, fault, ℕ, zero, suc, Bool, true, false, ◌&&◌, Option, none, some, List, [],
  ◌∷◌, Outcome, ok, no_fuel, ◌>>=◌, ltb, if◌then◌else◌, drop,
}
use mathlib.Core.List.{reverse}
use librpc.Object.Platform.{Platform}
use librpc.Object.Types.{uint64, Object, array, elements}
use librpc.Query.Rules.{query_steal_apply}

-- struct rpc_query_params. A sort is what g_ptr_array_sort_with_data makes of the array by the
-- comparator; a callback that returns NULL returns `none`.
pub record Params : Type 0 where
  pub single : Bool
  pub count : Bool
  pub offset : ℕ
  pub limit : ℕ
  pub reverse_order : Bool
  pub sort : Option (List Object → List Object)
  pub callback : Option (Object → Option Object)

-- struct rpc_query_iter; the source is an array.
pub record Iter : Type 0 where
  pub source : List Object
  pub idx : ℕ
  pub rules : Option Object
  pub params : Params
  pub done : Bool
  pub initialized : Bool
  pub limit_used : ℕ

-- rpc_query. The parameters of a NULL pointer are an allocated structure that nothing writes:
-- `unwritten` is what it holds.
unfoldable pub query : Params → Object → Option Params → Option Object → Option Iter
query unwritten (array xs) params rules = some (record {
  source = elements xs;
  idx = 0;
  rules = rules;
  params = elim params [ none ↦ unwritten | some given ↦ given ];
  done = false;
  initialized = false;
  limit_used = 0;
})
query unwritten _ params rules = none

-- The limit counts only once the iterator is initialized; rqi_limit is a uint32_t.
unfoldable pub under_limit : Iter → Option Object → Option Object × Iter
under_limit it none = (none, it)
under_limit it (some v) =
    if ltb 0 it.params.limit && it.initialized
    then (if ltb it.limit_used it.params.limit
        then (some v, record it { limit_used = suc it.limit_used % 2 ^ 32 })
        else (none, it))
    else (some v, it)

unfoldable pub sorted : Params → List Object → List Object
sorted params xs = elim params.sort [ none ↦ xs | some f ↦ f xs ]

-- Each match moves the index on, so the elements left are rounds enough.
unfoldable pub rounds_left : Iter → ℕ
rounds_left it = suc (length (drop it.idx it.source))

unfoldable pub count_result : ℕ × Iter → Bool × Option Object × Iter
count_result (cnt, it) = (false, some (uint64 cnt), record it { done = true })

unfoldable pub single_result : Option Object × Iter → Bool × Option Object × Iter
single_result (chunk, it) = (false, chunk, record it { done = true })

unfoldable pub chunk_result : Option Object × Iter → Bool × Option Object × Iter
chunk_result (none, it) = (false, none, record it { done = true })
chunk_result (some v, it) = (true, some v, it)

-- `if (callback) temp_obj = callback(temp_obj)`
abbrev pub emit : Option (Object → Option Object) → Object → Option Object
emit none v = some v
emit (some f) v = f v

module _ (p : Platform) where
  -- The loop of rpc_query_find_next over the elements from `idx` on; the index has moved behind the
  -- element that the loop ends with, also where there is none.
  unfoldable pub scan : Option Object → List Object → ℕ → Outcome (Option Object × ℕ)
  scan rules [] idx = ok (none, suc idx)
  scan rules (v ∷ vs) idx =
      let next = scan rules vs (suc idx) in
      query_steal_apply p (some v) rules >>= λ r. elim r [
        | none ↦ next
        | some found ↦ ok (some found, suc idx)
      ]

  unfoldable pub find_next : Iter → Outcome (Option Object × Iter)
  unfolding scan under_limit
  find_next it = scan it.rules (drop it.idx it.source) it.idx >>= λ r.
      ok (under_limit (record it { idx = r.1 }) r.0)

  -- The offset loop of rpc_query_next.
  unfoldable pub skip_loop : ℕ → Iter → Outcome Iter
  unfolding find_next
  skip_loop zero it = ok it
  skip_loop (suc n) it = find_next it >>= λ r. elim r.0 [ none ↦ ok r.1 | some v ↦ skip_loop n r.1 ]

  unfoldable pub initialize : Iter → Outcome Iter
  unfolding skip_loop sorted
  initialize it =
      if it.initialized
      then ok it
      else (let xs = sorted it.params it.source in
          let ys = if it.params.reverse_order then reverse xs else xs in
          skip_loop it.params.offset (record it { source = ys }) >>= λ it'.
          ok (record it' { initialized = true }))

  -- `do { temp_obj = find_next(iter); match_cnt++; } while (temp_obj != NULL)`
  unfoldable pub count_loop : ℕ → Iter → ℕ → Outcome (ℕ × Iter)
  unfolding find_next
  count_loop zero it cnt = fault no_fuel
  count_loop (suc fuel) it cnt = find_next it >>= λ r. elim r.0 [
    | none ↦ ok ((cnt + 1) % 2 ^ 32, r.1)
    | some v ↦ count_loop fuel r.1 ((cnt + 1) % 2 ^ 32)
  ]

  -- `do { ... } while (temp_obj == NULL)`, with its break.
  unfoldable pub callback_loop : ℕ → Iter → Outcome (Option Object × Iter)
  unfolding find_next
  callback_loop zero it = fault no_fuel
  callback_loop (suc fuel) it = find_next it >>= λ r. elim r.0 [
    | none ↦ ok (none, r.1)
    | some v ↦ elim (emit r.1.params.callback v) [
      | none ↦ callback_loop fuel r.1
      | some w ↦ ok (some w, r.1)
    ]
  ]

  -- rpc_query_next: what it returns, the chunk, and the iterator that it leaves.
  unfoldable pub query_next : Iter → Outcome (Bool × Option Object × Iter)
  query_next it =
      if it.done
      then ok (false, none, it)
      else (initialize it >>= λ it'.
          if it'.params.count
          then (count_loop (rounds_left it') it' 0 >>= λ r. ok (count_result r))
          else if it'.params.single
          then (find_next it' >>= λ r. ok (single_result r))
          else (callback_loop (rounds_left it') it' >>= λ r. ok (chunk_result r)))

  -- The client's loop: the chunks that rpc_query_next hands out until it returns false.
  unfoldable pub collect : ℕ → Iter → Outcome (List Object)
  collect zero it = fault no_fuel
  collect (suc fuel) it = query_next it >>= λ r. elim r.1 [
    | none ↦ ok []
    | some v ↦ if r.0 then (collect fuel r.2 >>= λ vs. ok (v ∷ vs)) else ok (v ∷ [])
  ]
