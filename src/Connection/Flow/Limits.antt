-- ===== src/Connection/Flow/Limits.antt =====
-- src/rpc_connection.c and src/rpc_service.c: the flow control of a streaming call: what its counters
-- bound, and that the two ends cannot wait for each other.
use librpc.Base.Int.{pos}
use librpc.Connection.Frames.{send_fragment}
use librpc.Object.Types.{Object}
use librpc.Connection.Flow.Order.{Reach-InOrder}
use librpc.Connection.Flow.Credit.{InRange, Step-Credit, Step-log, lengths, increments, Credit}
use librpc.Connection.Flow.{here, next, Reach, Begins, Stream}
use librpc.Connection.Stream.{next_seqno, must_wait, function_yield}
use librpc.Connection.Call.{Call, Turn, Link}
use librpc.Object.Platform.{Platform}
use librpc.Base.{
  true, refl, ◌≢◌, ◌∷◌, some, false, arith, [], sym, ◌≡◌, ◌∙◌, ◌≤◌, ◌^◌, ap, ◌<◌, ◌+◌, length, ℕ,
}

yield_lem :
    (p : Platform) (c : Call) (v : Object)
    → must_wait c ≡ false
    → c.aborted ≡ false
    → (u : Turn) × (function_yield p c v ≡ some u)
      × (u.frames ≡ send_fragment c.id c.producer_seqno v ∷ [])
      × (u.ret ≡ pos 0)
unfolding function_yield
yield_lem p c v w a =
    let u : Turn = record {
      ret = pos 0;
      frames = send_fragment c.id c.producer_seqno v ∷ [];
      call = record c { producer_seqno = next_seqno c; streaming = true };
    } in
    (u, rw (w, a), refl, refl)

module _ {p : Platform} {link : Link} where
  pub Reach-Credit :
      {prefetch : ℕ} {s t : Stream}
      → Begins prefetch s
      → Reach p link s t
      → InRange prefetch t
      → Credit prefetch t
  Reach-Credit {prefetch} {s} b here fits =
      let up = ap increments b.up_empty in
      let log = ap length b.log_empty in
      let consumed = ap length b.consumed_empty in
      record {
        prefetch_set = b.prefetch_set;
        sent = b.nothing_sent ∙ sym log;
        taken = b.none_taken ∙ sym consumed;
        granted = omega (arith, b.first_grant, b.client_even);
        under = omega (arith, b.first_grant, b.nothing_sent);
        behind = omega (arith, b.none_taken);
        ahead = omega (arith, b.client_even, b.room);
      }
  Reach-Credit b (next r st) fits =
      let l = Step-log st in
      Step-Credit st (Reach-InOrder b r) fits (Reach-Credit b r (omega arith))

  -- However the two ends of a streaming call interleave, as long as fewer than 2^64 messages less the
  -- prefetch and 2 are sent: the messages on the way to the caller and those in its queue are together
  -- at most as many as the prefetch, and the sequence numbers count the messages, the method's those
  -- that were sent and the caller's those that were taken.
  pub length-queue_le_prefetch :
      (prefetch : ℕ) (s t : Stream)
      → Begins prefetch s
      → Reach p link s t
      → length t.log + prefetch + 2 < 2 ^ 64
      → (length t.client.queue + length t.down ≤ prefetch)
        × (t.server.producer_seqno ≡ length t.log)
        × (t.client.consumer_seqno ≡ length t.consumed)
  length-queue_le_prefetch prefetch s t b r fits =
      let c = Reach-Credit b r fits in
      let l = lengths t (Reach-InOrder b r) in
      (omega (arith, c.sent, c.taken, c.granted, c.under, c.behind, c.ahead), c.sent, c.taken)

  -- The ends of a streaming call do not wait for each other: where the caller has taken all that was
  -- sent, and nothing is on the way in either direction, a method whose call is not aborted can send
  -- its next fragment at once.
  pub function_yield_goes_on :
      (prefetch : ℕ) (s t : Stream)
      → Begins prefetch s
      → Reach p link s t
      → length t.log + prefetch + 2 < 2 ^ 64
      → t.client.queue ≡ []
      → t.down ≡ []
      → t.up ≡ []
      → t.server.aborted ≡ false
      → (v : Object)
      → (u : Turn) × (function_yield p t.server v ≡ some u)
        × (u.frames ≡ send_fragment t.server.id (length t.log) v ∷ [])
        × (u.ret ≡ pos 0)
  unfolding must_wait
  function_yield_goes_on prefetch s t b r fits qe de ue alive v =
      let c = Reach-Credit b r fits in
      let l = lengths t (Reach-InOrder b r) in
      let q = ap length qe in
      let d = ap length de in
      let u = ap increments ue in
      let room : t.server.producer_seqno ≢ t.server.consumer_seqno =
        omega (arith, c.sent, c.taken, c.granted, c.under, c.behind, c.ahead) in
      let go = yield_lem p t.server v (ground arith) alive in
      (go.0, go.1, go.2 ∙ ap (λ (k : ℕ). send_fragment t.server.id k v ∷ []) c.sent, go.3)
