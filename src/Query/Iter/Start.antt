-- ===== src/Query/Iter/Start.antt =====
-- src/rpc_query.c: the first call of rpc_query_next sorts, reverses and skips.
use librpc.Base.{
  ℕ, zero, suc, ◌^◌, ◌<◌, ◌≤◌, ◌≡◌, refl, sym, ap, ◌∙◌, Bool, true, false, Option, some, List, ok,
  arith, length, drop, take, select, lt→ltb, ◌-◌, if◌then◌else◌,
}
use mathlib.Core.List.{reverse}
use librpc.Object.Platform.{Platform}
use librpc.Object.Types.{Object, array, Items, elements}
use librpc.Query.Iter.{Iter, Params, query, sorted, initialize, rounds_left, skip_loop}
use librpc.Query.Iter.Steps.{Walks, Decides, pending, view, Same}
use librpc.Query.Iter.Loops.{Walks-Same, skip_lem}

-- The elements in the order in which the query walks them.
unfoldable pub ordered : Params → List Object → List Object
unfolding sorted
ordered ps xs = let ys = sorted ps xs in if ps.reverse_order then reverse ys else ys

-- A limit of 0 is none.
unfoldable pub limited : ℕ → List Object → List Object
limited zero xs = xs
limited (suc n) xs = take (suc n) xs

-- The matches that a query is to hand out: in order, behind the offset, up to the limit.
unfoldable pub wanted : (Object → Bool) → Params → List Object → List Object
unfolding ordered limited
wanted m ps xs = limited ps.limit (drop ps.offset (select m (ordered ps xs)))

-- The iterator that rpc_query makes.
abbrev pub fresh : Params → List Object → Option Object → Iter
fresh ps xs rules = record {
  source = xs;
  idx = 0;
  rules = rules;
  params = ps;
  done = false;
  initialized = false;
  limit_used = 0;
}

pub query-fresh :
    (unwritten ps : Params) (xs : Items) (rules : Option Object) (it : Iter)
    → query unwritten (array xs) (some ps) rules ≡ some it
    → it ≡ fresh ps (elements xs) rules
unfolding query
query-fresh unwritten ps xs rules it q = cc

-- An initialized iterator that has not ended.
pub record Ready (it : Iter) : Type 0 where
  pub open_yet : it.done ≡ false
  pub initialized : it.initialized ≡ true

module _ (p : Platform) (m : Object → Bool) where
  -- The limit of an iterator that has not counted yet.
  view-limited :
      (it : Iter) (l : ℕ)
      → it.params.limit ≡ l
      → it.limit_used ≡ 0
      → it.initialized ≡ true
      → view m it ≡ limited l (pending m it)
  unfolding view limited
  view-limited it zero e u i = simp (e, u, i)
  view-limited it (suc l) e u i =
      simp (e, u, i, lt→ltb 0 (suc l) (omega arith))
        (ap (λ (k : ℕ). take k (pending m it)) {x = suc l - 0} {y = suc l} (omega arith))

  view-pending : (it : Iter) → it.initialized ≡ false → view m it ≡ pending m it
  unfolding view
  view-pending it i = ground (arith, i)

  -- What the first call of rpc_query_next makes of the iterator.
  abbrev pub Started : Params → List Object → Iter → Type 0
  Started ps xs it =
      (it' : Iter) × (initialize p it ≡ ok it')
      × Ready it'
      × (it.done ≡ false)
      × (it'.params ≡ ps)
      × (view m it' ≡ wanted m ps xs)
      × (rounds_left it' ≤ suc (length (ordered ps xs)))
      × Walks p m it'

  -- The iterator behind its offset, as the skipping loop leaves it.
  start_behind :
      (ps : Params) (xs : List Object) (rules : Option Object) (it' : Iter)
      → skip_loop p ps.offset (fresh ps (ordered ps xs) rules) ≡ ok it'
      → Same (fresh ps (ordered ps xs) rules) it'
      → view m it' ≡ drop ps.offset (view m (fresh ps (ordered ps xs) rules))
      → rounds_left it' ≤ rounds_left (fresh ps (ordered ps xs) rules)
      → ps.limit < 2 ^ 32
      → Decides p m rules (ordered ps xs)
      → Started ps xs (fresh ps xs rules)
  start_behind ps xs rules it' q same e less b h = (
    record it' { initialized = true },
    (unfold initialize ordered in rw q),
    (record { open_yet = same.done; initialized = refl }),
    refl,
    same.params,
    (view-limited (record it' { initialized = true }) ps.limit
          (ap (λ (qs : Params). qs.limit) same.params) (same.uncounted refl) refl
        ∙ (unfold wanted in ap (limited ps.limit) behind)),
    (unfold rounds_left in less),
    Walks-Same p m (fresh ps (ordered ps xs) rules) it' same (b, h),
  )
    where
      behind :
          pending m (record it' { initialized = true }) ≡ drop ps.offset (select m (ordered ps xs))
      behind =
          unfold pending in
          (let end : view m it' ≡ pending m it' = view-pending it' same.initialized in
            let begin : view m (fresh ps (ordered ps xs) rules)
                ≡ pending m (fresh ps (ordered ps xs) rules) =
              view-pending (fresh ps (ordered ps xs) rules) refl in
            sym end ∙ e ∙ ap (drop ps.offset) begin)

  pub start :
      (ps : Params) (xs : List Object) (rules : Option Object)
      → ps.limit < 2 ^ 32
      → Decides p m rules (ordered ps xs)
      → Started ps xs (fresh ps xs rules)
  start ps xs rules b h =
      let (it', q, same, e, less) =
        skip_lem p m ps.offset (fresh ps (ordered ps xs) rules) (b, h) in
      start_behind ps xs rules it' q same e less b h
