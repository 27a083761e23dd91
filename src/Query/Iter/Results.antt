-- ===== src/Query/Iter/Results.antt =====
-- src/rpc_query.c: what a client gets from an iterator, in each of its modes.
use librpc.Base.{
  ℕ, zero, suc, ◌+◌, ◌%◌, ◌^◌, ◌<◌, ◌≤◌, ◌≡◌, refl, ap, ◌∙◌, Bool, true, false, Option, some, List,
  ◌∷◌, ok, arith, length, ap₂, get_elem?,
}
use librpc.Object.Platform.{Platform}
use librpc.Object.Types.{Object, uint64, array, Items, elements}
use librpc.Query.Iter.{
  Iter, Params, query, initialize, find_next, rounds_left, count_loop, callback_loop, query_next,
  collect, count_result, single_result, chunk_result,
}
use librpc.Query.Iter.Steps.{Walks, Decides, view, none_left, took, find_next_lem}
use librpc.Query.Iter.Loops.{emits, ended, emitted, Walks-Same, callback_lem, count_lem}
use librpc.Query.Iter.Start.{ordered, wanted, fresh, query-fresh, Ready, start}

module _ (p : Platform) (m : Object → Bool) where
  initialize-Ready : (it : Iter) → Ready it → initialize p it ≡ ok it
  unfolding initialize
  initialize-Ready it r = rw r.initialized

  -- An iterator gives what its initialized form gives.
  query_next-initialize :
      (it it' : Iter)
      → it.done ≡ false
      → initialize p it ≡ ok it'
      → Ready it'
      → query_next p it ≡ query_next p it'
  unfolding query_next
  query_next-initialize it it' d e r = simp (d, e, r.open_yet, initialize-Ready it' r)

  collect-initialize :
      (fuel : ℕ) (it it' : Iter)
      → it.done ≡ false
      → initialize p it ≡ ok it'
      → Ready it'
      → collect p fuel it ≡ collect p fuel it'
  unfolding collect
  collect-initialize zero it it' d e r = refl
  collect-initialize (suc fuel) it it' d e r = rw (query_next-initialize it it' d e r)

  -- A call in the plain mode ends with the callback loop.
  plain_next :
      (it : Iter) {chunk : Option Object × Iter}
      → Ready it
      → it.params.count ≡ false
      → it.params.single ≡ false
      → callback_loop p (rounds_left it) it ≡ ok chunk
      → query_next p it ≡ ok (chunk_result chunk)
  unfolding query_next
  plain_next it r c s e = simp (r.open_yet, initialize-Ready it r, c, s, e)

  count_next :
      (it : Iter) {r : ℕ × Iter}
      → Ready it
      → it.params.count ≡ true
      → count_loop p (rounds_left it) it 0 ≡ ok r
      → query_next p it ≡ ok (count_result r)
  unfolding query_next
  count_next it r c e = simp (r.open_yet, initialize-Ready it r, c, e)

  single_next :
      (it : Iter) {chunk : Option Object × Iter}
      → Ready it
      → it.params.count ≡ false
      → it.params.single ≡ true
      → find_next p it ≡ ok chunk
      → query_next p it ≡ ok (single_result chunk)
  unfolding query_next
  single_next it r c s e = simp (r.open_yet, initialize-Ready it r, c, s, e)

  collect-Ready :
      (fuel : ℕ) (it : Iter)
      → rounds_left it ≤ fuel
      → Ready it
      → it.params.count ≡ false
      → it.params.single ≡ false
      → Walks p m it
      → collect p fuel it ≡ ok (emits it.params.callback (view m it))
  unfolding collect chunk_result
  collect-Ready zero it l r c s h = absurd (unfold rounds_left in omega arith)
  collect-Ready (suc fuel) it l r c s h =
      elim (callback_lem p m (rounds_left it) it (omega arith) h) [
        | ended it' q same e ↦ rw (plain_next it r c s q, e)
        | emitted w it' q same e less ↦
            rw (plain_next it r c s q, e)
              (rw
                (collect-Ready fuel it' (omega arith)
                  (record {
                    open_yet = same.done ∙ r.open_yet;
                    initialized = same.initialized ∙ r.initialized;
                  })
                  (ap (λ ps. ps.count) same.params ∙ c) (ap (λ ps. ps.single) same.params ∙ s)
                  (Walks-Same p m it it' same h))
                (ap (λ (ps : Params). ok (w ∷ emits ps.callback (view m it'))) same.params))
      ]

  -- Of a query of an array whose rules are evaluated on each element without a fault, with a limit
  -- below 2^32 and neither the counting nor the single mode: the chunks are the matches, in the
  -- order of the query, from the offset on and up to the limit, each as the callback returns it
  -- and without those that it returns NULL for. One call more than there are elements is enough.
  pub collect-query :
      (unwritten ps : Params) (xs : Items) (rules : Option Object) (it : Iter) (fuel : ℕ)
      → query unwritten (array xs) (some ps) rules ≡ some it
      → ps.limit < 2 ^ 32
      → Decides p m rules (ordered ps (elements xs))
      → ps.count ≡ false
      → ps.single ≡ false
      → length (ordered ps (elements xs)) < fuel
      → collect p fuel it ≡ ok (emits ps.callback (wanted m ps (elements xs)))
  collect-query unwritten ps xs rules it fuel q b h c s l =
      let (it', e, r, d, pe, ve, less, dec) = start p m ps (elements xs) rules b h in
      rw (query-fresh unwritten ps xs rules it q) (
        collect-initialize fuel (fresh ps (elements xs) rules) it' d e r
        ∙ collect-Ready fuel it' (omega arith) r (ap (λ (k : Params). k.count) pe ∙ c)
            (ap (λ (k : Params). k.single) pe ∙ s) dec
        ∙ ap₂ (λ (k : Params) (v : List Object). ok (emits k.callback v)) pe ve)

  -- Of a query of an array whose rules are evaluated on each element without a fault, with a limit
  -- below 2^32, in the counting mode: the one call returns false and gives the number of matches
  -- from the offset on, up to the limit, plus one, on 32 bits; the loop counts the call that finds
  -- nothing too. The iterator is done.
  pub query_next-count :
      (unwritten ps : Params) (xs : Items) (rules : Option Object) (it : Iter)
      → query unwritten (array xs) (some ps) rules ≡ some it
      → ps.limit < 2 ^ 32
      → Decides p m rules (ordered ps (elements xs))
      → ps.count ≡ true
      → (it' : Iter) × (query_next p it
          ≡ ok (false, some (uint64 ((length (wanted m ps (elements xs)) + 1) % 2 ^ 32)), it'))
        × (it'.done ≡ true)
  unfolding count_result
  query_next-count unwritten ps xs rules it q b h c =
      let (it', e, r, d, pe, ve, less, dec) = start p m ps (elements xs) rules b h in
      let (it'', n) = count_lem p m (rounds_left it') 0 it' (omega arith) dec in
      (
        record it'' { done = true },
        rw (query-fresh unwritten ps xs rules it q) (
            query_next-initialize (fresh ps (elements xs) rules) it' d e r
            ∙ count_next it' r (ap (λ (k : Params). k.count) pe ∙ c) n
            ∙ ap (λ (k : ℕ). ok (count_result (k % 2 ^ 32, it''))) {x = 0 + length (view m it') + 1}
                {y = length (view m it') + 1} (omega arith)
            ∙ ap
                (λ (v : List Object).
                  ok (false, some (uint64 ((length v + 1) % 2 ^ 32)), record it'' { done = true }))
                ve),
        refl,
      )

  -- Of a query of an array whose rules are evaluated on each element without a fault, with a limit
  -- below 2^32, in the single mode without counting: the one call returns false and gives the
  -- first match from the offset on, or NULL. The iterator is done.
  pub query_next-single :
      (unwritten ps : Params) (xs : Items) (rules : Option Object) (it : Iter)
      → query unwritten (array xs) (some ps) rules ≡ some it
      → ps.limit < 2 ^ 32
      → Decides p m rules (ordered ps (elements xs))
      → ps.count ≡ false
      → ps.single ≡ true
      → (it' : Iter) × (query_next p it ≡ ok (false, get_elem? (wanted m ps (elements xs)) 0, it'))
        × (it'.done ≡ true)
  unfolding single_result
  query_next-single unwritten ps xs rules it q b h c s =
      let (it', e, r, d, pe, ve, less, dec) = start p m ps (elements xs) rules b h in
      let count_off : it'.params.count ≡ false = ap (λ (k : Params). k.count) pe ∙ c in
      let single_on : it'.params.single ≡ true = ap (λ (k : Params). k.single) pe ∙ s in
      let same : query_next p it ≡ query_next p it' =
        rw (query-fresh unwritten ps xs rules it q)
          (query_next-initialize (fresh ps (elements xs) rules) it' d e r) in
      elim (find_next_lem p m it' dec) [
        | none_left it'' f _ v _ _ ↦ (
          record it'' { done = true },
          rw (same, ← ve, v) (single_next it' r count_off single_on f),
          refl,
        )
        | took w it'' f _ v _ ↦ (
          record it'' { done = true },
          rw (same, ← ve, v) (single_next it' r count_off single_on f),
          refl,
        )
      ]
