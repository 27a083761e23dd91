-- ===== src/Connection/Delivery.antt =====
-- src/rpc_connection.c: the frames that one side makes, at the handlers of the other side.
use librpc.Connection.Flow.Counters.{hear_lem}
use librpc.Object.Value.{c_string, string_create}
use librpc.Object.Dictionary.Typed.{dictionary_get_string}
use librpc.Object.Dictionary.{insert, lookup, dictionary_get_value}
use librpc.Connection.State.{Connection}
use librpc.Object.Types.{null, string, Object}
use librpc.Connection.Frames.{
  continue_args, fragment_args, seqno_args, send_end, send_fragment, send_start_stream,
  send_continue,
}
use librpc.Connection.Dispatch.{connection_dispatch}
use librpc.Connection.Handlers.{
  deliver_fragment, on_rpc_end, on_rpc_fragment, on_rpc_continue, on_rpc_start_stream, deliver,
}
use librpc.Connection.Flow.{frame_of, finished, fragment, take_message, started, Message}
use librpc.Connection.Calls.{Dispatched}
use librpc.Connection.Call.{
  receive_fragment, call_ended, call_stream_start, receive, CallStatus, Call, Link,
}
use librpc.Object.Platform.{Platform}
use librpc.Base.{
  false, true, refl, ◌%◌, ◌∙◌, ◌+◌, bytes_eq, arith, ok, put, some, Bool, ◌≡◌, Outcome, ◌^◌, Option,
  find, ◌<◌, ℕ, Bytes,
}

module _ (p : Platform) (link : Link) (dispatch : Call → Dispatched) where
  -- The handler that a frame of a stream comes to.
  handler_of : Message → Connection → Option Object → Object → Outcome Connection
  handler_of (started seqno) = on_rpc_start_stream
  handler_of (fragment seqno v) = on_rpc_fragment
  handler_of (finished seqno) = on_rpc_end

  args_of : Message → Object
  args_of (started seqno) = seqno_args seqno
  args_of (fragment seqno v) = fragment_args seqno v
  args_of (finished seqno) = seqno_args seqno

  routed :
      (key : Bytes) (m : Message) (conn : Connection)
      → connection_dispatch p link dispatch (frame_of (string key) m) conn
        ≡ handler_of m conn (some (args_of m)) (string key)
  unfolding connection_dispatch send_start_stream send_fragment send_end handler_of args_of
      dictionary_get_value dictionary_get_string lookup insert bytes_eq string_create c_string
  routed key (started seqno) conn = refl
  routed key (fragment seqno v) conn = refl
  routed key (finished seqno) conn = refl

  pub routed_continue :
      (key : Bytes) (seqno n : ℕ) (conn : Connection)
      → connection_dispatch p link dispatch (send_continue (string key) seqno n) conn
        ≡ on_rpc_continue conn (some (continue_args seqno n)) (string key)
  unfolding connection_dispatch send_continue dictionary_get_value dictionary_get_string lookup
      insert bytes_eq string_create c_string
  routed_continue key seqno n conn = refl

  deliver_lem :
      (s : CallStatus) (v : Option Object) (runs : Bool) (key : Bytes) (call : Call)
      (conn : Connection)
      → ((deliver s v runs key call conn).calls ≡ put key (receive s v call).0 conn.calls)
        × ((deliver s v runs key call conn).inbound_calls ≡ conn.inbound_calls)
  unfolding deliver
  deliver_lem s v runs key call conn = ground arith

  fragment_lem :
      (payload : Option Object) (key : Bytes) (call : Call) (conn : Connection)
      → ((deliver_fragment payload key call conn).calls
          ≡ put key (receive_fragment payload call).0 conn.calls)
        × ((deliver_fragment payload key call conn).inbound_calls ≡ conn.inbound_calls)
  unfolding deliver_fragment
  fragment_lem payload key call conn = ground arith

  handled :
      (key : Bytes) (m : Message) (call : Call) (conn : Connection)
      → find key conn.calls ≡ some call
      → (c : Connection) × (handler_of m conn (some (args_of m)) (string key) ≡ ok c)
        × (c.calls ≡ put key (take_message m call) conn.calls)
        × (c.inbound_calls ≡ conn.inbound_calls)
  unfolding deliver_fragment handler_of args_of on_rpc_start_stream on_rpc_fragment on_rpc_end
      take_message fragment_args dictionary_get_value lookup insert bytes_eq
  handled key (started seqno) call conn e =
      let d = deliver_lem call_stream_start (some null) true key call conn in
      (deliver call_stream_start (some null) true key call conn, ground (arith, e), d.0, d.1)
  handled key (fragment seqno v) call conn e =
      let d = fragment_lem (some v) key call conn in
      (deliver_fragment (some v) key call conn, ground (arith, e), d.0, d.1)
  handled key (finished seqno) call conn e =
      let d = deliver_lem call_ended (some (seqno_args seqno)) false key call conn in
      (
        deliver call_ended (some (seqno_args seqno)) false key call conn,
        ground (arith, e),
        d.0,
        d.1,
      )

  -- A message of a stream that arrives in a frame, for a call that the connection made, does to that
  -- call what the stream's model says, whatever the connection holds otherwise; every other call stays
  -- as it was.
  pub connection_dispatch-frame_of :
      (key : Bytes) (m : Message) (call : Call) (conn : Connection)
      → find key conn.calls ≡ some call
      → (c : Connection) × (connection_dispatch p link dispatch (frame_of (string key) m) conn
          ≡ ok c)
        × (c.calls ≡ put key (take_message m call) conn.calls)
        × (c.inbound_calls ≡ conn.inbound_calls)
  connection_dispatch-frame_of key m call conn e =
      let h = handled key m call conn e in (h.0, routed key m conn ∙ h.1, h.2, h.3)

  -- A grant that arrives in a frame raises the limit of the call that it names by its increment, and
  -- changes no other call.
  pub connection_dispatch-send_continue :
      (key : Bytes) (seqno n : ℕ) (call : Call) (conn : Connection)
      → n < 2 ^ 64
      → find key conn.inbound_calls ≡ some call
      → connection_dispatch p link dispatch (send_continue (string key) seqno n) conn
        ≡ ok (record conn {
          inbound_calls =
              put key
                (record call { consumer_seqno = (call.consumer_seqno + n) % 2 ^ 64 })
                conn.inbound_calls;
        })
  unfolding on_rpc_continue
  connection_dispatch-send_continue key seqno n call conn h e =
      routed_continue key seqno n conn ∙ ground (arith, e, hear_lem seqno n call h)
