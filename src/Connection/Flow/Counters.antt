-- ===== src/Connection/Flow/Counters.antt =====
-- src/rpc_connection.c and src/rpc_service.c: what each step of a stream does to its counters.
use librpc.Connection.Stream.{
  function_end, function_yield, function_start_stream, stop_aborted, must_wait,
}
use librpc.Object.Value.{int64_get_value}
use librpc.Connection.Flow.{
  item_of, take_message, finished, fragment, started, send_message, Message,
}
use librpc.Object.Dictionary.{insert, lookup, dictionary_get_value}
use librpc.Object.Platform.{Platform}
use librpc.Base.{
  ◌++◌, true, ◌==◌, some_inj, inl, inr, ◌||◌, Bool-cases, ok, subst, ◌∷◌, none, if◌then◌else◌,
  arith, ◌∙◌, ◌⊎◌, false, Bool, ap, [], codes, bytes_eq, some, List, ◌%◌, ◌^◌, ◌+◌, ◌<◌, ◌≢◌, ℕ,
  ◌≡◌, refl,
}
use librpc.Base.Int.{to_uint64-to_int64, pos, to_int64, to_uint64}
use librpc.Connection.Frames.{send_continue, continue_args}
use librpc.Connection.Call.{
  call_status, pop_item, is_open, grant_more, call_continue, QueueItem, unpack_int64,
  receive_continue, Link, Call, Turn,
}

increment_sent :
    (seqno n : ℕ)
    → n < 2 ^ 64
    → unpack_int64 (some (continue_args seqno n)) (codes "increment") (pos 1) ≡ to_int64 n
unfolding unpack_int64 continue_args dictionary_get_value lookup insert bytes_eq int64_get_value
increment_sent seqno n h = refl

-- A grant of `n` messages raises the server's limit by `n`.
pub hear_lem :
    (seqno n : ℕ) (c : Call)
    → n < 2 ^ 64
    → receive_continue (some (continue_args seqno n)) c
      ≡ record c { consumer_seqno = (c.consumer_seqno + n) % 2 ^ 64 }
unfolding receive_continue
hear_lem seqno n c h =
    ap (λ (k : ℕ). record c { consumer_seqno = (c.consumer_seqno + k) % 2 ^ 64 })
      (ap to_uint64 (increment_sent seqno n h) ∙ to_uint64-to_int64 n h)

-- A message sent under the limit.
pub record Sent (c : Call) (t : Turn) : Type 0 where
  pub under : c.producer_seqno ≢ c.consumer_seqno
  pub counted : t.call.producer_seqno ≡ (c.producer_seqno + 1) % 2 ^ 64
  pub limit : t.call.consumer_seqno ≡ c.consumer_seqno

module _ (p : Platform) where
  stopped_lem : (c : Call) (silent : Bool) (t : Turn) → stop_aborted p silent c ≡ t → t.ret ≢ pos 0
  unfolding stop_aborted
  stopped_lem c silent t e r = ground (arith, e, r)

  -- The three operations go on in one way.
  goes_on :
      (wait dead : Bool) (stop go t : Turn)
      → stop.ret ≢ pos 0
      → (if wait then none else if dead then some stop else some go) ≡ some t
      → t.ret ≡ pos 0
      → (wait ≡ false) × (dead ≡ false) × (go ≡ t)
  goes_on true dead stop go t bad e r = cc
  goes_on false true stop go t bad e r = absurd (bad (ap (λ (u : Turn). u.ret) (some_inj e) ∙ r))
  goes_on false false stop go t bad e r = (refl, refl, some_inj e)

  under_lem :
      (c : Call) → must_wait c ≡ false → c.aborted ≡ false → c.producer_seqno ≢ c.consumer_seqno
  unfolding must_wait
  under_lem c w a = ground (arith, w, a)

  pub send_lem :
      (m : Message) (c : Call) (t : Turn) → send_message p m c ≡ some t → t.ret ≡ pos 0 → Sent c t
  unfolding send_message function_start_stream function_yield function_end
  send_lem (started seqno) c t e r =
      let (w, a, go) =
        goes_on (must_wait c) c.aborted (stop_aborted p c.ended c) _ t
          (stopped_lem c c.ended _ refl) e r in
      subst (Sent c) go (record { under = under_lem c w a; counted = refl; limit = refl })
  send_lem (fragment seqno v) c t e r =
      let (w, a, go) =
        goes_on (must_wait c) c.aborted (stop_aborted p c.ended c) _ t
          (stopped_lem c c.ended _ refl) e r in
      subst (Sent c) go (record { under = under_lem c w a; counted = refl; limit = refl })
  send_lem (finished seqno) c t e r =
      let (w, a, go) =
        goes_on (must_wait c) c.aborted (stop_aborted p (c.ended || c.responded) c) _ t
          (stopped_lem c (c.ended || c.responded) _ refl) e r in
      subst (Sent c) go (record { under = under_lem c w a; counted = refl; limit = refl })

-- A message that the caller took from its queue.
pub record Consumed (c : Call) (rest : List QueueItem) (t : Turn) : Type 0 where
  pub left : t.call.queue ≡ rest
  pub taken : t.call.consumer_seqno ≡ (c.consumer_seqno + 1) % 2 ^ 64
  pub prefetch : t.call.prefetch ≡ c.prefetch
  pub timedout : t.call.timedout ≡ c.timedout
  pub granted :
      ((t.frames ≡ [])
        × (c.consumer_seqno ≢ c.producer_seqno)
        × (t.call.producer_seqno ≡ c.producer_seqno))
      ⊎ ((c.consumer_seqno ≡ c.producer_seqno)
          × (t.frames ≡ send_continue c.id ((c.producer_seqno + 1) % 2 ^ 64) c.prefetch ∷ [])
          × (t.call.producer_seqno ≡ (c.producer_seqno + c.prefetch) % 2 ^ 64))

module _ (link : Link) where
  refused_lem :
      (c : Call) (t : Turn)
      → is_open (call_status c) ≡ false
      → call_continue link c ≡ ok t
      → t.ret ≢ pos 0
  unfolding call_continue
  refused_lem c t h k r = ground (arith, h, k, r)

  pub continue_lem :
      (c : Call) (q : QueueItem) (rest : List QueueItem) (t : Turn)
      → c.queue ≡ q ∷ rest
      → call_continue link c ≡ ok t
      → t.ret ≡ pos 0
      → Consumed c rest t
  unfolding call_continue grant_more pop_item
  continue_lem c q rest t e k r = elim (Bool-cases (is_open (call_status c))) [
    | inr refused ↦ absurd (refused_lem c t refused k r)
    | inl goes ↦ elim (Bool-cases (c.consumer_seqno == c.producer_seqno)) [
      | inr room ↦ ground arith
      | inl used ↦ ground arith
    ]
  ]

-- A message that arrived in time.
pub record Queued (m : Message) (c d : Call) : Type 0 where
  pub queue : d.queue ≡ c.queue ++ item_of m ∷ []
  pub timedout : d.timedout ≡ false
  pub prefetch : d.prefetch ≡ c.prefetch
  pub producer : d.producer_seqno ≡ c.producer_seqno
  pub consumer : d.consumer_seqno ≡ c.consumer_seqno

pub take_lem : (m : Message) (c : Call) → c.timedout ≡ false → Queued m c (take_message m c)
unfolding take_message
take_lem (started n) c e = ground (arith, e)
take_lem (fragment n v) c e = ground (arith, e)
take_lem (finished n) c e = ground (arith, e)
