-- ===== src/Connection/Calls.antt =====
-- src/rpc_connection.c: calls that come into being and end: rpc_call_alloc, rpc_connection_call,
-- on_rpc_call, rpc_call_free and rpc_close.
use librpc.Connection.Frames.{pack_frame}
use librpc.Connection.Stream.{function_error}
use librpc.Object.Value.{error_create, string_create}
use librpc.Base.Int.{ℤ}
use librpc.Object.Dictionary.{insert}
use librpc.Object.Types.{fields, nil, string, dictionary, array, Object}
use librpc.Connection.Call.{
  enotsup, inbound_call, econnaborted, call_error, outbound_call, Link, einval, Call, receive,
}
use librpc.Object.Platform.{Platform}
use librpc.Connection.State.{
  with_key, abort_of, transport_error, unpack_value, close_inbound_call, send_all, transmit,
  unpack_string, connection_closed, answer_error, Work, Report, connection_is_open, Connection,
}
use librpc.Base.{
  ok, Outcome, put, ◌∷◌, false, ◌++◌, [], some, ◌||◌, codes, none, true, Bool, drop_key, map,
  if◌then◌else◌, Option, Bytes, Table, List,
}

-- What rpc_call_alloc gives: a call, or what rpc_get_last_error holds then.
pub data Allocated : Type 0 where
  allocated : Call → Allocated
  not_allocated : ℤ → Bytes → Allocated

-- What rpc_server_dispatch or rpc_context_dispatch makes of a call: it is submitted (0), or refused
-- with the code and the message of rc_err, where that is set.
pub data Dispatched : Type 0 where
  submitted : Dispatched
  refused : Option (ℤ × Bytes) → Dispatched

abbrev pub is_array : Object → Bool
is_array (array items) = true
is_array _ = false

unfoldable pub new_call : Object → Option Bytes → Option Bytes → Bytes → Object → Call
new_call id path interface method args = record {
  type = outbound_call;
  path = path;
  interface = interface;
  method_name = method;
  id = id;
  args = args;
  err = none;
  queue = [];
  prefetch = 1;
  producer_seqno = 0;
  consumer_seqno = 0;
  timeout = false;
  timedout = false;
  callback = false;
  abort_handler = false;
  streaming = false;
  responded = false;
  ended = false;
  aborted = false;
}

-- `id` is the given id, or a new one of rpc_new_id.
unfoldable pub call_alloc :
    Connection → Object → Option Bytes → Option Bytes → Option Bytes → Option Object → Allocated
unfolding new_call connection_is_open
call_alloc conn id path interface none args =
    not_allocated einval (codes "Method name not provided")
call_alloc conn id path interface (some method) args =
    if connection_is_open conn
    then elim args [
      | none ↦ allocated (new_call id path interface method (array nil))
      | some v ↦
          if is_array v
          then allocated (new_call id path interface method v)
          else not_allocated einval (codes "Method arguments must be an array")
    ]
    else not_allocated einval (codes "Connection not open.")

unfoldable pub call_payload : Option Bytes → Option Bytes → Bytes → Object → Object
unfolding insert string_create
call_payload path interface method args =
    let start : List (Bytes × Object) = elim path [
      | none ↦ []
      | some s ↦ insert (codes "path") (string_create (some s)) []
    ] in
    let more : List (Bytes × Object) = elim interface [
      | none ↦ start
      | some s ↦ insert (codes "interface") (string_create (some s)) start
    ] in
    dictionary (
      fields
        (insert (codes "args") args (insert (codes "method") (string_create (some method)) more)))

unfoldable pub call_frame : Object → Option Bytes → Option Bytes → Bytes → Object → Object
unfolding pack_frame call_payload
call_frame id path interface method args =
    pack_frame (codes "rpc") (codes "call") (some id) (call_payload path interface method args)

-- rpc_call_free, on the tables of the connection.
unfoldable pub call_free : Bytes → Connection → Connection
call_free key conn = record conn { calls = drop_key key conn.calls }

module _ (p : Platform) (link : Link) where
  -- `new_id` is the string of rpc_new_id. The result has the key of the call, unless it failed.
  unfoldable pub connection_call :
      Connection
      → Bytes
      → Option Bytes
      → Option Bytes
      → Option Bytes
      → Option Object
      → Bool
      → Connection × Option Bytes
  unfolding call_alloc call_frame transmit call_free
  connection_call conn new_id path interface name args callback =
      elim (call_alloc conn (string new_id) path interface name args) [
        | not_allocated code msg ↦ (conn, none)
        | allocated fresh ↦
            let call = record fresh { type = outbound_call; callback = callback; timeout = true } in
            let frame = call_frame call.id path interface call.method_name call.args in
            let r = transmit p link frame (record conn { calls = put new_id call conn.calls }) in
            if r.1 then (r.0, some new_id) else (call_free new_id r.0, none)
      ]

  -- A refused call is answered with the error that the dispatch left, and closed.
  unfoldable pub refuse : Option (ℤ × Bytes) → Call → Bytes → Connection → Connection
  unfolding function_error send_all close_inbound_call
  refuse err call key conn = elim err [
    | none ↦ close_inbound_call key conn
    | some (code, msg) ↦
        let t = function_error p call code msg in
        close_inbound_call key (send_all p link t.frames conn)
  ]

  unfoldable pub on_rpc_call :
      (Call → Dispatched) → Connection → Option Object → Object → Outcome Connection
  unfolding answer_error unpack_string unpack_value call_alloc with_key refuse
  on_rpc_call dispatch conn args id =
      if conn.context
      then elim (call_alloc conn id (unpack_string args (codes "path"))
          (unpack_string args (codes "interface")) (unpack_string args (codes "method"))
          (unpack_value args (codes "args"))) [
            | not_allocated code msg ↦ ok (answer_error p link id code msg conn)
            | allocated fresh ↦
                let call = record fresh { type = inbound_call } in
                with_key id λ key.
                  let kept = record conn { inbound_calls = put key call conn.inbound_calls } in
                  elim (dispatch call) [
                    | submitted ↦ ok kept
                    | refused err ↦ ok (refuse err call key kept)
                  ]
          ]
      else ok (answer_error p link id enotsup (codes "Not supported") conn)

-- What rpc_close does to the calls of the two tables.
unfoldable pub stop_inbound : Call → Call
stop_inbound call = record call { aborted = true }

unfoldable pub fail_outbound : Platform → Call → Call
unfolding receive error_create
fail_outbound p call =
    (receive call_error
      (some (error_create p.backtrace econnaborted (codes "Connection closed") none)) call).0

abort_work : Table Call → List Work
abort_work [] = []
abort_work ((key, call) ∷ rest) =
    if call.abort_handler then abort_of key ∷ abort_work rest else abort_work rest

closing_reports : Connection → List Report
closing_reports conn =
    if conn.error_handler
    then elim (conn.transport_failure) [
      | none ↦ connection_closed ∷ []
      | some e ↦ transport_error e ∷ connection_closed ∷ []
    ]
    else []

abbrev pub on_values {ℓ} : {A : Type ℓ} → (A → A) → Table A → Table A
on_values f t = map (λ e. (e.0, f e.1)) t

-- rpc_close, up to the release of the connection in rpc_connection_do_close.
unfoldable pub close : Platform → Connection → Connection
unfolding stop_inbound fail_outbound abort_work closing_reports
close p conn = if conn.aborted then conn else record conn {
  aborted = true;
  closed = conn.closed || conn.server;
  reports = conn.reports ++ closing_reports conn;
  error_handler = false;
  inbound_calls = on_values stop_inbound conn.inbound_calls;
  work = conn.work ++ abort_work conn.inbound_calls;
  calls = on_values (fail_outbound p) conn.calls;
}
