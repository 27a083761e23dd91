-- ===== src/Query/Iter/Steps.antt =====
-- src/rpc_query.c: what one call of rpc_query_find_next takes from the matches that are left.
use librpc.Base.{
  ◌^◌, ◌%◌, ℕ, suc, ◌+◌, ◌-◌, ◌<◌, ◌≤◌, ◌≡◌, refl, inl, inr, Bool, true, false, ◌&&◌, Option, none,
  some, List, [], ◌∷◌, Outcome, ok, ltb, if◌then◌else◌, drop, All, select, Bool-cases, All-drop,
  arith, length-drop, ap, take-nil, take, take-cons, take_none, drop-drop, drop_all, length,
}
use librpc.Object.Platform.{Platform}
use librpc.Object.Types.{Object}
use librpc.Query.Rules.{query_steal_apply}
use librpc.Query.Iter.{Iter, scan, under_limit, find_next, rounds_left}

-- The rules are evaluated on each element without a fault, and `m` is the result.
abbrev pub Decides : Platform → (Object → Bool) → Option Object → List Object → Type 0
Decides p m rules =
    All (λ v. query_steal_apply p (some v) rules ≡ ok (if m v then some v else none))

-- So it is for an iterator, and its limit fits the counter of 32 bits.
abbrev pub Walks : Platform → (Object → Bool) → Iter → Type 0
Walks p m it = (it.params.limit < 2 ^ 32) × Decides p m it.rules it.source

-- The matches among the elements that the iterator has not passed.
unfoldable pub pending : (Object → Bool) → Iter → List Object
pending m it = select m (drop it.idx it.source)

-- The matches that the iterator will still hand out.
unfoldable pub view : (Object → Bool) → Iter → List Object
unfolding pending
view m it =
    if ltb 0 it.params.limit && it.initialized
    then take (it.params.limit - it.limit_used) (pending m it)
    else pending m it

-- What `scan` returns: an index behind the list, or the first match with the index behind it.
data Scanned (m : Object → Bool) (rest : List Object) (idx : ℕ) (r : Outcome (Option Object × ℕ))
    : Type 0 where
  missed :
      (j : ℕ) → r ≡ ok (none, j) → select m rest ≡ [] → idx + length rest ≤ j → Scanned m rest idx r
  hit :
      (v : Object) (n : ℕ)
      → r ≡ ok (some v, idx + suc n)
      → select m rest ≡ v ∷ select m (drop (suc n) rest)
      → n < length rest
      → Scanned m rest idx r

module _ (p : Platform) (m : Object → Bool) where
  scan_lem :
      (rules : Option Object) (rest : List Object) (idx : ℕ)
      → Decides p m rules rest
      → Scanned m rest idx (scan p rules rest idx)
  unfolding scan
  scan_lem rules [] idx h = missed (suc idx) refl refl (omega arith)
  scan_lem rules (v ∷ vs) idx h = elim (Bool-cases (m v)) [
    | inl e ↦ hit v 0 (ground (arith, h.0)) (ground arith) (omega arith)
    | inr e ↦ elim (scan_lem rules vs (suc idx) h.1) [
      | missed j r s l ↦ missed j (ground (arith, h.0, r)) (ground (arith, h.0, r)) (omega arith)
      | hit w n r s l ↦
          hit w (suc n) (ground (arith, h.0, r)) (ground (arith, h.0, r)) (omega arith)
    ]
  ]

-- With no match pending nothing is handed out.
view-nil : (m : Object → Bool) (it : Iter) → pending m it ≡ [] → view m it ≡ []
unfolding view pending
view-nil m it e = elim (Bool-cases (ltb 0 it.params.limit && it.initialized)) [
  | inl counted ↦ rw (counted, e) (take-nil _)
  | inr free ↦ rw free e
]

-- What no step of the iteration changes.
pub record Same (it it' : Iter) : Type 0 where
  pub source : it'.source ≡ it.source
  pub rules : it'.rules ≡ it.rules
  pub params : it'.params ≡ it.params
  pub done : it'.done ≡ it.done
  pub initialized : it'.initialized ≡ it.initialized
  pub uncounted : it.initialized ≡ false → it'.limit_used ≡ it.limit_used

-- Only the index differs, or the count of the limit of an initialized iterator too.
moved : {it : Iter} {i : ℕ} → Same it (record it { idx = i })
moved = record {
  source = refl;
  rules = refl;
  params = refl;
  done = refl;
  initialized = refl;
  uncounted = λ u. refl;
}

counted_one :
    {it : Iter} {i n : ℕ} → it.initialized ≡ true → Same it (record it { idx = i; limit_used = n })
counted_one e = record {
  source = refl;
  rules = refl;
  params = refl;
  done = refl;
  initialized = refl;
  uncounted = λ u. cc;
}

pub Same-refl : (it : Iter) → Same it it
Same-refl it = moved

-- One call of `find_next`: nothing was left, or the first match that was left.
pub data Took (m : Object → Bool) (it : Iter) (r : Outcome (Option Object × Iter)) : Type 0 where
  none_left :
      (it' : Iter)
      → r ≡ ok (none, it')
      → Same it it'
      → view m it ≡ []
      → view m it' ≡ []
      → rounds_left it' ≤ rounds_left it
      → Took m it r
  took :
      (v : Object) (it' : Iter)
      → r ≡ ok (some v, it')
      → Same it it'
      → view m it ≡ v ∷ view m it'
      → rounds_left it' < rounds_left it
      → Took m it r

module _ (m : Object → Bool) (it : Iter) where
  -- The match `v` that ends a scan, under the limit or over it.
  limit_lem :
      (v : Object) (n : ℕ)
      → it.params.limit < 2 ^ 32
      → pending m it ≡ v ∷ pending m (record it { idx = it.idx + suc n })
      → rounds_left (record it { idx = it.idx + suc n }) < rounds_left it
      → Took m it (ok (under_limit (record it { idx = it.idx + suc n }) (some v)))
  unfolding under_limit view pending rounds_left
  limit_lem v n b e l = elim (Bool-cases (ltb 0 it.params.limit && it.initialized)) [
    | inr free ↦ took v (record it { idx = it.idx + suc n }) (rw free) moved (rw (free, view) e) l
    | inl counted ↦ elim (Bool-cases (ltb it.limit_used it.params.limit)) [
      | inl under ↦
          took v (record it { idx = it.idx + suc n; limit_used = suc it.limit_used % 2 ^ 32 })
            (rw (counted, under)) (counted_one (ground (arith, counted)))
            (rw (counted, view, e) (take-cons _ _ v _ (ground arith))) l
      | inr over ↦
          none_left (record it { idx = it.idx + suc n }) (rw (counted, over)) moved
            (rw (counted, view) (take_none _ _ (ground arith)))
            (rw (counted, view) (take_none _ _ (ground arith))) (omega arith)
    ]
  ]

module _ (p : Platform) (m : Object → Bool) where
  pub find_next_lem : (it : Iter) → Walks p m it → Took m it (find_next p it)
  unfolding find_next under_limit pending rounds_left
  find_next_lem it h =
      elim (scan_lem p m it.rules (drop it.idx it.source) it.idx
        (All-drop _ it.idx it.source h.1)) [
          | missed j r s l ↦
              none_left (record it { idx = j }) (rw r) moved (view-nil m it s)
                (view-nil m (record it { idx = j })
                  (ap (select m)
                    (drop_all j it.source (omega (arith, l, length-drop it.idx it.source)))))
                (omega (arith, l, length-drop it.idx it.source, length-drop j it.source))
          | hit v n r s l ↦ rw r (
              limit_lem m it v n h.0 (rw (← drop-drop it.idx (suc n) it.source) s) (
                omega
                  (arith, l, length-drop it.idx it.source, length-drop (it.idx + suc n) it.source)))
        ]
