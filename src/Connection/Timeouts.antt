-- ===== src/Connection/Timeouts.antt =====
-- src/rpc_connection.c: the timeout of a call, against everything else that may happen to the call.
use librpc.Base.Int.{pos}
use librpc.Object.Value.{string_create, error_create}
use librpc.Connection.Calls.{fail_outbound}
use librpc.Object.Types.{null, error, Object}
use librpc.Connection.Call.{
  econnaborted, call_set_prefetch, call_error, Turn, pop_item, call_status, receive_fragment,
  call_timeout, call_abort, CallStatus, call_continue, receive, Link, QueueItem, Call,
}
use librpc.Object.Platform.{Platform}
use librpc.Base.{ap, none, codes, some, ℕ, ok, ◌∷◌, false, true, arith, [], Option, ◌≡◌, Bool, List}

-- What happens to an outbound call: an answer that is found for it, the timeout while its source is
-- there, or after an answer has taken the source away, the closing of the connection, or an operation of the client.
pub data CallStep (p : Platform) (link : Link) (c : Call) : Call → Type 0 where
  answered : (s : CallStatus) (v : Option Object) → CallStep p link c (receive s v c).0
  streamed : (v : Option Object) → CallStep p link c (receive_fragment v c).0
  fires : c.timeout ≡ true → c.timedout ≡ false → CallStep p link c (call_timeout p c)
  fires_late : c.timeout ≡ false → CallStep p link c (call_timeout p c)
  fails : CallStep p link c (fail_outbound p c)
  continues : (t : Turn) → call_continue link c ≡ ok t → CallStep p link c t.call
  aborts : CallStep p link c (call_abort link c).call
  prefetches : (n : ℕ) → CallStep p link c (call_set_prefetch c n)

pub data CallReach (p : Platform) (link : Link) (c : Call) : Call → Type 0 where
  begun : CallReach p link c c
  goes_on : {d e : Call} → CallReach p link c d → CallStep p link d e → CallReach p link c e

-- What the timeout source and its flag say of the queue: nothing is queued before the timeout, and
-- nothing but its error after it.
abbrev timeout_error : Platform → QueueItem
timeout_error p = record {
  status = call_error;
  item = some (error (pos 110) (codes "Call timed out") null (string_create p.backtrace));
}

abbrev pub Due : Platform → Bool → Bool → List QueueItem → Type 0
Due p false late queue = Unit {0}
Due p true false queue = queue ≡ []
Due p true true queue = queue ≡ timeout_error p ∷ []

abbrev pub TimesOut : Platform → Call → Type 0
TimesOut p c = Due p c.timeout c.timedout c.queue

-- The same with any error in place of that of the timeout.
abbrev is_error : CallStatus → Bool
is_error call_error = true
is_error _ = false

abbrev one_error : List QueueItem → Bool
one_error (q ∷ []) = is_error q.status
one_error _ = false

abbrev pub Pending : Bool → Bool → List QueueItem → Type 0
Pending false late queue = Unit {0}
Pending true false queue = queue ≡ []
Pending true true queue = one_error queue ≡ true

abbrev pub Timed : Call → Type 0
Timed c = Pending c.timeout c.timedout c.queue

Due-Pending :
    (p : Platform) (timeout late : Bool) (queue : List QueueItem)
    → Due p timeout late queue
    → Pending timeout late queue
Due-Pending p false late queue h = tt
Due-Pending p true false queue h = h
Due-Pending p true true queue h = ap one_error h

TimesOut-Timed : (p : Platform) (c : Call) → TimesOut p c → Timed c
TimesOut-Timed p c h = Due-Pending p c.timeout c.timedout c.queue h

receive-TimesOut :
    (p : Platform) (s : CallStatus) (v : Option Object) (c : Call)
    → TimesOut p c
    → TimesOut p (receive s v c).0
unfolding receive
receive-TimesOut p s v c h = ground (arith, h)

receive_fragment-TimesOut :
    (p : Platform) (v : Option Object) (c : Call)
    → TimesOut p c
    → TimesOut p (receive_fragment v c).0
unfolding receive_fragment
receive_fragment-TimesOut p v c h = ground (arith, h)

call_timeout-TimesOut :
    (p : Platform) (c : Call)
    → c.timeout ≡ true
    → c.timedout ≡ false
    → TimesOut p c
    → TimesOut p (call_timeout p c)
unfolding call_timeout error_create
call_timeout-TimesOut p c e f h = ground (arith, e, f, rw (e, f) at h)

call_timeout-late : (p : Platform) (c : Call) → c.timeout ≡ false → TimesOut p (call_timeout p c)
unfolding call_timeout error_create
call_timeout-late p c e = ground (arith, e)

module _ (p : Platform) (link : Link) where
  call_continue-TimesOut :
      (c : Call) (t : Turn) → call_continue link c ≡ ok t → TimesOut p c → TimesOut p t.call
  unfolding call_continue call_status pop_item
  call_continue-TimesOut c t e h = ground (arith, e, h)

  call_abort-TimesOut : (c : Call) → TimesOut p c → TimesOut p (call_abort link c).call
  unfolding call_abort
  call_abort-TimesOut c h = ground (arith, h)

module _ {p : Platform} {link : Link} where
  CallStep-TimesOut : {c d : Call} → CallStep p link c d → TimesOut p c → TimesOut p d
  unfolding call_set_prefetch fail_outbound
  CallStep-TimesOut {c} (answered s v) h = receive-TimesOut p s v c h
  CallStep-TimesOut {c} (streamed v) h = receive_fragment-TimesOut p v c h
  CallStep-TimesOut {c} (fires e f) h = call_timeout-TimesOut p c e f h
  CallStep-TimesOut {c} (fires_late e) h = call_timeout-late p c e
  CallStep-TimesOut {c} fails h =
      receive-TimesOut p call_error
        (some (error_create p.backtrace econnaborted (codes "Connection closed") none)) c h
  CallStep-TimesOut {c} (continues t e) h = call_continue-TimesOut p link c t e h
  CallStep-TimesOut {c} aborts h = call_abort-TimesOut p link c h
  CallStep-TimesOut {c} (prefetches n) h = h

  -- Whatever happens to an outbound call that was begun with its queue empty: as long as its timeout
  -- source is there and has not fired nothing is queued; and once it has fired, the queue holds one item,
  -- the error of the timeout, whatever answers still arrive and whatever the client does.
  pub CallReach-TimesOut :
      (c d : Call)
      → c.timeout ≡ true
      → c.timedout ≡ false
      → c.queue ≡ []
      → CallReach p link c d
      → TimesOut p d
  CallReach-TimesOut c d e f q begun = rw (e, f) q
  CallReach-TimesOut c d e f q (goes_on r st) =
      CallStep-TimesOut st (CallReach-TimesOut c _ e f q r)
