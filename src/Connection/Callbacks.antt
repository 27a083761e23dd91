-- ===== src/Connection/Callbacks.antt =====
-- src/rpc_connection.c: rpc_callback_worker: a thread of the callback pool at one item of work. The code
-- of the client's callback is an argument: whether it returns true for the call as it is then.
use librpc.Base.Int.{pos}
use librpc.Object.Types.{Object}
use librpc.Connection.Subscriptions.{find_subscription}
use librpc.Object.Dictionary.Typed.{dictionary_get_string}
use librpc.Connection.Call.{
  grant_more, call_stream_start, call_more_available, call_abort, pop_item, call_continue,
  call_status, Turn, Call, CallStatus, Link,
}
use librpc.Connection.State.{event_of, callback_of, Connection, Work, push_work, connection_is_open}
use librpc.Base.{
  arith, refl, fault, ◌++◌, put, get_elem?, ◌>>=◌, [], some, none, find, codes, if◌then◌else◌,
  Outcome, ok, ℕ, ◌≡◌, false, true, Bytes, Bool,
}

abbrev pub is_stream : CallStatus → Bool
is_stream call_more_available = true
is_stream call_stream_start = true
is_stream _ = false

module _ (link : Link) (callback : Call → Bool) where
  -- After the callback of a call: a stream goes on, or is aborted.
  unfoldable pub after_callback : Call → Outcome Turn
  unfolding call_status call_continue call_abort
  after_callback call =
      if is_stream (call_status call)
      then (if callback call then call_continue link call else ok (call_abort link call))
      else ok (record { ret = pos 0; frames = []; call = call })

  unfoldable pub run_call : Bytes → Connection → Outcome Connection
  unfolding after_callback
  run_call key conn = elim (find key conn.calls) [
    | none ↦ ok conn
    | some call ↦
        if call.callback
        then (after_callback call >>= λ t.
            ok (record conn { calls = put key t.call conn.calls; sent = conn.sent ++ t.frames }))
        else ok conn
  ]

-- An event is given to the handlers of its subscription, one after the other, while it is marked as busy;
-- an event for a busy one goes back to the pool. The number is that of the handlers that were run.
unfoldable pub run_event : Object → Connection → Connection × ℕ
unfolding dictionary_get_string find_subscription push_work
run_event event conn =
    elim (find_subscription (dictionary_get_string event (codes "path"))
      (dictionary_get_string event (codes "interface")) (dictionary_get_string event (codes "name"))
      conn.subscriptions) [
        | none ↦ (conn, 0)
        | some i ↦ elim (get_elem? conn.subscriptions i) [
          | none ↦ (conn, 0)
          | some sub ↦
              if sub.busy then (push_work (event_of (some event)) conn, 0) else (conn, sub.handlers)
        ]
      ]

-- rpc_callback_worker
unfoldable pub callback_worker : Link → (Call → Bool) → Work → Connection → Outcome Connection
unfolding connection_is_open run_call run_event
callback_worker link callback (callback_of key) conn =
    if connection_is_open conn then run_call link callback key conn else ok conn
callback_worker link callback (event_of (some event)) conn =
    if connection_is_open conn then ok (run_event event conn).0 else ok conn
callback_worker link callback item conn = ok conn

module _ (link : Link) (callback : Call → Bool) where
  continue_by :
      (call : Call) (r : Outcome Turn)
      → is_stream (call_status call) ≡ true
      → call_continue link call ≡ r
      → (t : Turn) × (call_continue link call ≡ ok t)
  unfolding call_continue call_status grant_more pop_item
  continue_by call (ok t) s e = (t, e)
  continue_by call (fault w) s e = absurd (ground (arith, s, e))

  after_by :
      (call : Call) (r : Outcome Turn)
      → after_callback link callback call ≡ r
      → (t : Turn) × (after_callback link callback call ≡ ok t)
  unfolding after_callback
  after_by call (ok t) e = (t, e)
  after_by call (fault w) e = absurd (
      ground (arith, e, λ (s : is_stream (call_status call) ≡ true). (continue_by call _ s refl).1))

  -- Whatever the callback returns, the worker does not read through NULL: rpc_call_continue is called
  -- only where the queue has an item.
  pub after_callback_runs : (call : Call) → (t : Turn) × (after_callback link callback call ≡ ok t)
  after_callback_runs call = after_by call _ refl
