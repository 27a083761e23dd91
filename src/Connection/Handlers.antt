-- ===== src/Connection/Handlers.antt =====
-- src/rpc_connection.c: the handlers of the frames of calls. A frame without arguments, or whose id is
-- no string, makes some of them read through NULL.
use librpc.Base.Int.{eqb_ℤ}
use librpc.Object.Types.{null, Object}
use librpc.Object.Dictionary.{dictionary_get_value}
use librpc.Object.Value.{error_get_code}
use librpc.Connection.Call.{
  seqno_mod, call_ended, call_stream_start, call_done, enxio, call_error, CallStatus,
  receive_fragment, Call, receive_continue, receive, cancel_timeout_locked,
}
use librpc.Connection.State.{
  spurious_response, callback_of, Connection, push_work, report, with_key,
}
use librpc.Base.{
  [], ◌∷◌, ◌%◌, ◌++◌, bad_access, true, codes, fault, ◌+◌, none, false, ◌&&◌, if◌then◌else◌, put,
  ok, some, Bytes, find, Bool, Outcome, Option,
}

-- A message for the call that was found: it is queued in time, and where `runs` the callback of the
-- call is started.
unfoldable pub deliver : CallStatus → Option Object → Bool → Bytes → Call → Connection → Connection
unfolding receive push_work
deliver s v runs key call conn =
    let r = receive s v call in
    let kept = record conn { calls = put key r.0 conn.calls } in
    if r.1 && runs && call.callback then push_work (callback_of key) kept else kept

-- The arguments are read through once the timeout is known not to have fired.
unfoldable pub in_time_args :
    Call → Connection → Option Object → (Object → Outcome Connection) → Outcome Connection
unfolding cancel_timeout_locked
in_time_args call conn (some args) go = go args
in_time_args call conn none go = elim (cancel_timeout_locked call) [
  | none ↦ ok conn
  | some c ↦ fault bad_access
]

unfoldable pub on_rpc_response : Connection → Option Object → Object → Outcome Connection
unfolding with_key in_time_args deliver
on_rpc_response conn args id = with_key id λ key. elim (find key conn.calls) [
  | none ↦ ok conn
  | some call ↦ in_time_args call conn args λ v. ok (deliver call_done (some v) true key call conn)
]

unfoldable pub on_rpc_start_stream : Connection → Option Object → Object → Outcome Connection
unfolding with_key in_time_args deliver
on_rpc_start_stream conn args id = with_key id λ key. elim (find key conn.calls) [
  | none ↦ ok conn
  | some call ↦
      in_time_args call conn args λ v. ok (deliver call_stream_start (some null) true key call conn)
]

-- The same for a fragment, which may have no payload.
unfoldable pub deliver_fragment : Option Object → Bytes → Call → Connection → Connection
unfolding receive_fragment push_work
deliver_fragment payload key call conn =
    let r = receive_fragment payload call in
    let kept = record conn { calls = put key r.0 conn.calls } in
    if r.1 && call.callback then push_work (callback_of key) kept else kept

unfoldable pub on_rpc_fragment : Connection → Option Object → Object → Outcome Connection
unfolding with_key in_time_args dictionary_get_value deliver_fragment
on_rpc_fragment conn args id = with_key id λ key. elim (find key conn.calls) [
  | none ↦ ok conn
  | some call ↦
      in_time_args call conn args
        λ v. ok (deliver_fragment (dictionary_get_value v (codes "fragment")) key call conn)
]

unfoldable pub on_rpc_continue : Connection → Option Object → Object → Outcome Connection
unfolding with_key receive_continue report
on_rpc_continue conn args id = with_key id λ key. elim (find key conn.inbound_calls) [
  | none ↦ ok (report (spurious_response (some id)) conn)
  | some call ↦
      ok (record conn { inbound_calls = put key (receive_continue args call) conn.inbound_calls })
]

unfoldable pub on_rpc_end : Connection → Option Object → Object → Outcome Connection
unfolding with_key in_time_args deliver report
on_rpc_end conn args id = with_key id λ key. elim (find key conn.calls) [
  | none ↦ ok (report (spurious_response (some id)) conn)
  | some call ↦
      in_time_args call conn args λ v. ok (deliver call_ended (some v) false key call conn)
]

-- The abort handler is run, and cleared, at once.
unfoldable pub on_rpc_abort : Connection → Option Object → Object → Outcome Connection
unfolding with_key report
on_rpc_abort conn args id = with_key id λ key. elim (find key conn.inbound_calls) [
  | none ↦ ok (report (spurious_response (some id)) conn)
  | some call ↦
      let stopped = record call { ended = true; aborted = true; abort_handler = false } in
      let kept = record conn { inbound_calls = put key stopped conn.inbound_calls } in
      ok (if call.abort_handler then record kept { aborts = kept.aborts ++ key ∷ [] } else kept)
]

-- An ENXIO for a call of the other side grants one message: an older client knows no start_stream.
unfoldable pub on_rpc_error : Connection → Option Object → Object → Outcome Connection
unfolding with_key in_time_args deliver report error_get_code
on_rpc_error conn args id = with_key id λ key. elim (find key conn.calls) [
  | some call ↦
      in_time_args call conn args λ v. ok (deliver call_error (some v) false key call conn)
  | none ↦
      let spurious : Outcome Connection = ok (report (spurious_response (some id)) conn) in
      if eqb_ℤ (error_get_code args) enxio
      then elim (find key conn.inbound_calls) [
        | none ↦ spurious
        | some call ↦
            let granted = record call { consumer_seqno = (call.consumer_seqno + 1) % seqno_mod } in
            ok (record conn { inbound_calls = put key granted conn.inbound_calls })
      ]
      else spurious
]
