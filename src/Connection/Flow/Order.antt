-- ===== src/Connection/Flow/Order.antt =====
-- src/rpc_connection.c and src/rpc_service.c: what the steps of a stream keep of the order of its
-- messages.
-- What was sent is what was taken, then what waits in the queue, then what is on the way.
use librpc.Connection.Flow.Counters.{continue_lem, take_lem}
use mathlib.Core.List.{append_assoc, map-append}
use librpc.Connection.Call.{QueueItem, Link}
use librpc.Base.{sym, ap, ◌∙◌, arith, [], false, ◌∷◌, ◌++◌, ◌≡◌, ℕ, List, map}
use librpc.Connection.Flow.{
  kills, hears, here, grants, consumes, arrives, next, Reach, sends, Begins, Step, item_of, map,
  Link, Stream,
}
use librpc.Object.Platform.{Platform}

pub record InOrder (s : Stream) : Type 0 where
  pub order : map item_of s.log ≡ s.consumed ++ (s.client.queue ++ map item_of s.down)
  pub in_time : s.client.timedout ≡ false

took_lem :
    (consumed : List QueueItem) (q : QueueItem) (rest queue down log : List QueueItem)
    → log ≡ consumed ++ (queue ++ down)
    → queue ≡ q ∷ rest
    → log ≡ (consumed ++ q ∷ []) ++ (rest ++ down)
took_lem consumed q rest queue down log e h =
    e
    ∙ ap (λ (l : List QueueItem). consumed ++ (l ++ down)) h
    ∙ sym (append_assoc consumed (q ∷ []) (rest ++ down))

arrived_lem :
    (consumed queue queue' down rest log : List QueueItem) (q : QueueItem)
    → log ≡ consumed ++ (queue ++ down)
    → down ≡ q ∷ rest
    → queue' ≡ queue ++ q ∷ []
    → log ≡ consumed ++ (queue' ++ rest)
arrived_lem consumed queue queue' down rest log q e d n =
    e
    ∙ ap (λ (l : List QueueItem). consumed ++ (queue ++ l)) d
    ∙ ap (λ (l : List QueueItem). consumed ++ l) (sym (append_assoc queue (q ∷ []) rest))
    ∙ ap (λ (l : List QueueItem). consumed ++ (l ++ rest)) (sym n)

module _ {p : Platform} {link : Link} where
  Step-InOrder : {s t : Stream} → Step p link s t → InOrder s → InOrder t
  Step-InOrder {s} (sends m t sent r f) h = record {
    order = simp (map-append, h.order, append_assoc);
    in_time = h.in_time;
  }
  Step-InOrder {s} (arrives m rest e) h =
      let c = take_lem m s.client h.in_time in
      record {
        order =
            arrived_lem _ _ _ _ (map item_of rest) _ (item_of m) h.order (ap (map item_of) e)
              c.queue;
        in_time = c.timedout;
      }
  Step-InOrder {s} (consumes q rest t e k r f) h =
      let c = continue_lem link s.client q rest t e k r in
      record {
        order =
            took_lem _ q _ _ _ _ (h.order) (e ∙ ap (λ (l : List QueueItem). q ∷ l) (sym c.left));
        in_time = c.timedout ∙ h.in_time;
      }
  Step-InOrder {s} (grants q rest seqno increment t e k r f) h =
      let c = continue_lem link s.client q rest t e k r in
      record {
        order =
            took_lem _ q _ _ _ _ (h.order) (e ∙ ap (λ (l : List QueueItem). q ∷ l) (sym c.left));
        in_time = c.timedout ∙ h.in_time;
      }
  Step-InOrder (hears seqno increment rest e) h = record { order = h.order; in_time = h.in_time }
  Step-InOrder kills h = record { order = h.order; in_time = h.in_time }

  pub Reach-InOrder :
      {prefetch : ℕ} {s t : Stream} → Begins prefetch s → Reach p link s t → InOrder t
  Reach-InOrder b here = record {
    order = ground (arith, b.log_empty, b.down_empty, b.queue_empty, b.consumed_empty);
    in_time = b.in_time;
  }
  Reach-InOrder b (next r st) = Step-InOrder st (Reach-InOrder b r)

  -- From the beginning of a streaming call, and however the steps of its two ends and the arrivals of
  -- frames interleave, the caller takes exactly the messages that the method sent, in the order of
  -- sending: what it took, then what waits in its queue, then what is on the way, is what was sent.
  pub map-log :
      (prefetch : ℕ) (s t : Stream)
      → Begins prefetch s
      → Reach p link s t
      → map item_of t.log ≡ t.consumed ++ (t.client.queue ++ map item_of t.down)
  map-log prefetch s t b r = (Reach-InOrder b r).order
