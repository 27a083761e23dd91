-- ===== src/Query/Iter/Loops.antt =====
-- src/rpc_query.c: the loops of rpc_query_next over rpc_query_find_next.
use librpc.Base.{
  ℕ, zero, suc, ◌+◌, ◌%◌, ◌^◌, ◌<◌, ◌≤◌, ◌≡◌, refl, ap, ◌∙◌, inl, inr, Bool, Option, none, some,
  List, [], ◌∷◌, Outcome, ok, arith, length, drop, Option-cases,
}
use librpc.Object.Platform.{Platform}
use librpc.Object.Types.{Object}
use librpc.Query.Iter.{Iter, find_next, rounds_left, emit, count_loop, callback_loop, skip_loop}
use librpc.Query.Iter.Steps.{Walks, view, Same, Same-refl, none_left, took, find_next_lem}

-- What the callback makes of a list of matches; the ones that it returns NULL for are left out.
abbrev pub emits : Option (Object → Option Object) → List Object → List Object
emits cb [] = []
emits cb (v ∷ vs) = elim (emit cb v) [ none ↦ emits cb vs | some w ↦ w ∷ emits cb vs ]

Same-trans : {a b c : Iter} → Same a b → Same b c → Same a c
Same-trans s t = record {
  source = t.source ∙ s.source;
  rules = t.rules ∙ s.rules;
  params = t.params ∙ s.params;
  done = t.done ∙ s.done;
  initialized = t.initialized ∙ s.initialized;
  uncounted = λ e. t.uncounted (s.initialized ∙ e) ∙ s.uncounted e;
}

pub data Emitted (m : Object → Bool) (it : Iter) (r : Outcome (Option Object × Iter)) : Type 0 where
  ended :
      (it' : Iter)
      → r ≡ ok (none, it')
      → Same it it'
      → emits it.params.callback (view m it) ≡ []
      → Emitted m it r
  emitted :
      (w : Object) (it' : Iter)
      → r ≡ ok (some w, it')
      → Same it it'
      → emits it.params.callback (view m it) ≡ w ∷ emits it.params.callback (view m it')
      → rounds_left it' < rounds_left it
      → Emitted m it r

module _ (p : Platform) (m : Object → Bool) where
  pub Walks-Same : (it it' : Iter) → Same it it' → Walks p m it → Walks p m it'
  Walks-Same it it' s h = rw (s.source, s.rules, s.params) h

  -- The match `v` that the callback returns NULL for: the loop goes round once more.
  skip_match :
      (fuel : ℕ) (it it' : Iter) (v : Object)
      → find_next p it ≡ ok (some v, it')
      → Same it it'
      → view m it ≡ v ∷ view m it'
      → rounds_left it' < rounds_left it
      → emit it'.params.callback v ≡ none
      → Emitted m it' (callback_loop p fuel it')
      → Emitted m it (callback_loop p (suc fuel) it)
  unfolding callback_loop
  skip_match fuel it it' v r s e less none_v (ended it'' q s' e') =
      ended it'' (ground (arith, r, none_v, q)) (Same-trans s s')
        (ground (arith, e, e', none_v, s.params))
  skip_match fuel it it' v r s e less none_v (emitted w it'' q s' e' less') =
      emitted w it'' (ground (arith, r, none_v, q)) (Same-trans s s')
        (ground (arith, e, e', none_v, s.params)) (omega arith)

  pub callback_lem :
      (fuel : ℕ) (it : Iter)
      → rounds_left it ≤ fuel
      → Walks p m it
      → Emitted m it (callback_loop p fuel it)
  callback_lem zero it l h = absurd (unfold rounds_left in omega arith)
  callback_lem (suc fuel) it l h = elim (find_next_lem p m it h) [
    | none_left it' r s e e' less ↦ ended it' (unfold callback_loop in rw r) s (rw e)
    | took v it' r s e less ↦ elim (Option-cases (emit it'.params.callback v)) [
      | inl skipped ↦
          skip_match fuel it it' v r s e less skipped
            (callback_lem fuel it' (omega arith) (Walks-Same it it' s h))
      | inr (w, kept) ↦
          emitted w it' (unfold callback_loop in ground (arith, r, kept)) s
            (ground (arith, e, kept, s.params)) less
    ]
  ]

  pub count_lem :
      (fuel cnt : ℕ) (it : Iter)
      → rounds_left it ≤ fuel
      → Walks p m it
      → (it' : Iter) × (count_loop p fuel it cnt
          ≡ ok ((cnt + length (view m it) + 1) % 2 ^ 32, it'))
  unfolding count_loop
  count_lem zero cnt it l h = absurd (unfold rounds_left in omega arith)
  count_lem (suc fuel) cnt it l h = elim (find_next_lem p m it h) [
    | none_left it' r s e e' less ↦ (
      it',
      rw (r, e) (ap (λ (k : ℕ). ok ((k + 1) % 2 ^ 32, it')) {x = cnt} {y = cnt + 0} (omega arith)),
    )
    | took v it' r s e less ↦
        let (it'', q) =
          count_lem fuel ((cnt + 1) % 2 ^ 32) it' (omega arith) (Walks-Same it it' s h) in
        (
          it'',
          rw (r, e)
              (q
                ∙ ap (λ (k : ℕ). ok (k, it''))
                    {x = ((cnt + 1) % 2 ^ 32 + length (view m it') + 1) % 2 ^ 32}
                    {y = (cnt + suc (length (view m it')) + 1) % 2 ^ 32} (omega arith)),
        )
  ]

  pub skip_lem :
      (n : ℕ) (it : Iter)
      → Walks p m it
      → (it' : Iter) × (skip_loop p n it ≡ ok it')
        × Same it it'
        × (view m it' ≡ drop n (view m it))
        × (rounds_left it' ≤ rounds_left it)
  unfolding skip_loop
  skip_lem zero it h = (it, refl, Same-refl it, refl, omega arith)
  skip_lem (suc n) it h = elim (find_next_lem p m it h) [
    | none_left it' r s e e' less ↦ (it', rw r, s, rw (e, e'), less)
    | took v it' r s e less ↦
        let (it'', q, s', e'', less') = skip_lem n it' (Walks-Same it it' s h) in
        (it'', rw r q, Same-trans s s', rw e e'', omega arith)
  ]
