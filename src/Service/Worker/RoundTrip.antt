-- ===== src/Service/Worker/RoundTrip.antt =====
-- src/rpc_service.c and src/rpc_connection.c: the result of a method, from the worker of the one end to
-- the call of the other.
use librpc.Object.Value.{c_string, string_create}
use librpc.Object.Types.{string, Object}
use librpc.Object.Dictionary.Typed.{dictionary_get_string}
use librpc.Connection.State.{Connection, push_work}
use librpc.Connection.Stream.{function_respond}
use librpc.Object.Dictionary.{insert, lookup, dictionary_get_value}
use librpc.Connection.Frames.{or_null, send_response}
use librpc.Service.Worker.{returned, Result, Run, Object, function_respond, finish, tp_handler}
use librpc.Connection.Dispatch.{connection_dispatch}
use librpc.Connection.Handlers.{deliver, on_rpc_response}
use librpc.Connection.Calls.{Dispatched}
use librpc.Connection.Call.{call_done, call_status, call_result, call_success, receive, Call, Link}
use librpc.Object.Platform.{Platform}
use librpc.Base.{
  ap, ◌∙◌, bytes_eq_refl, ◌∷◌, find-put, arith, refl, none, true, ok, [], some, find, bytes_eq,
  false, ◌≡◌, Bytes, Option,
}

module _ (p : Platform) (link : Link) (dispatch : Call → Dispatched) where
  routed_response :
      (key : Bytes) (o : Option Object) (conn : Connection)
      → connection_dispatch p link dispatch (send_response (string key) o) conn
        ≡ on_rpc_response conn (some (or_null o)) (string key)
  unfolding connection_dispatch send_response dictionary_get_value dictionary_get_string lookup
      insert bytes_eq string_create c_string
  routed_response key o conn = refl

  answered_by :
      (key : Bytes) (v : Object) (call : Call) (conn : Connection)
      → find key conn.calls ≡ some call
      → (c : Connection) × (on_rpc_response conn (some v) (string key) ≡ ok c)
        × (find key c.calls ≡ some (receive call_done (some v) call).0)
  unfolding on_rpc_response deliver push_work
  answered_by key v call conn e = (
    deliver call_done (some v) true key call conn,
    ground (arith, e),
    ground
        (arith, find-put key key (receive call_done (some v) call).0 conn.calls, bytes_eq_refl key),
  )

  received_lem :
      (v : Object) (call : Call)
      → call.timedout ≡ false
      → call.queue ≡ []
      → (call_success (receive call_done (some v) call).0 ≡ true)
        × (call_result (receive call_done (some v) call).0 ≡ some v)
  unfolding receive call_success call_result call_status
  received_lem v call t q = ground (arith, t, q)

  responds :
      (server : Call) (o : Option Object) (block : Call → Run × Result)
      → server.aborted ≡ false
      → server.streaming ≡ false
      → server.responded ≡ false
      → block (record server { consumer_seqno = 1 }) ≡ (
        record { frames = []; call = record server { consumer_seqno = 1 }; closed = false },
        returned o,
      )
      → (a : Run) × (tp_handler p true
            (record { pre_call = none; post_call = none })
            (some block)
            server
          ≡ some a)
        × (a.frames ≡ send_response server.id o ∷ [])
  unfolding tp_handler finish function_respond
  responds server o block alive plain silent e = (
    record {
      frames = send_response server.id o ∷ [];
      call = record server { consumer_seqno = 1 };
      closed = true;
    },
    ground (arith, alive, plain, silent, e),
    refl,
  )

  -- A call that is not aborted, has not streamed and is not answered, over an open connection and in a
  -- context without hooks, whose method returns an object or NULL and does nothing else, is answered by
  -- one frame. Where that frame comes to the caller, which has a call of the same id that has nothing
  -- queued and has not timed out, the caller's call succeeds, and its result is the object that the
  -- method returned, or the null object for NULL.
  pub connection_dispatch-tp_handler :
      (key : Bytes) (o : Option Object) (server client : Call) (block : Call → Run × Result)
      (conn : Connection)
      → server.id ≡ string key
      → server.aborted ≡ false
      → server.streaming ≡ false
      → server.responded ≡ false
      → block (record server { consumer_seqno = 1 }) ≡ (
        record { frames = []; call = record server { consumer_seqno = 1 }; closed = false },
        returned o,
      )
      → find key conn.calls ≡ some client
      → client.timedout ≡ false
      → client.queue ≡ []
      → (frame : Object) × (a : Run) × (c : Connection) × (d : Call) × (tp_handler p true
            (record { pre_call = none; post_call = none })
            (some block)
            server
          ≡ some a)
        × (a.frames ≡ frame ∷ [])
        × (connection_dispatch p link dispatch frame conn ≡ ok c)
        × (find key c.calls ≡ some d)
        × (call_success d ≡ true)
        × (call_result d ≡ some (or_null o))
  connection_dispatch-tp_handler key o server client block conn i alive plain silent e f t q =
      let (a, ran, sent) = responds server o block alive plain silent e in
      let (c, ends, has) = answered_by key (or_null o) client conn f in
      let got = received_lem (or_null o) client t q in
      (
        send_response (string key) o,
        a,
        c,
        (receive call_done (some (or_null o)) client).0,
        ran,
        sent ∙ ap (λ (x : Object). send_response x o ∷ []) i,
        routed_response key o conn ∙ ends,
        has,
        got.0,
        got.1,
      )
