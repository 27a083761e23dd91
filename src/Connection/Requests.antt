-- ===== src/Connection/Requests.antt =====
-- src/rpc_connection.c: a method call from its frame to the other side's table of calls, and the calls
-- that fail on the way.
use librpc.Connection.Stream.{send_err}
use librpc.Base.Int.{ℤ}
use librpc.Object.Dictionary.Typed.{dictionary_get_string}
use librpc.Connection.Dispatch.{connection_dispatch}
use librpc.Object.Dictionary.{dictionary_get_value, insert, lookup}
use librpc.Object.Value.{string_create, c_string}
use librpc.Connection.Calls.{
  new_call, refuse, refused, submitted, is_array, call_frame, on_rpc_call, Dispatched, call_payload,
}
use librpc.Object.Types.{string, Object}
use librpc.Connection.Call.{inbound_call, Call, Link}
use librpc.Connection.State.{connection_is_open, Connection, unpack_value, unpack_string}
use librpc.Object.Platform.{Platform}
use librpc.Base.{
  find-put, find-drop_key, if◌then◌else◌, find, ◌∷◌, drop_key, ◌++◌, arith, ◌∙◌, put, ok, refl,
  codes, false, true, bytes_eq, [], none, ◌≡◌, some, Option, Bytes,
}

-- A C string that may be NULL.
abbrev c_string_or_null : Option Bytes → Option Bytes
c_string_or_null none = none
c_string_or_null (some s) = some (c_string s)

-- A call as the frame of another call names it.
pub record Received (key : Bytes) (path interface : Option Bytes) (method : Bytes) (args : Object)
    (call : Call) : Type 0 where
  pub type_is : call.type ≡ inbound_call
  pub id_is : call.id ≡ string key
  pub path_is : call.path ≡ c_string_or_null path
  pub interface_is : call.interface ≡ c_string_or_null interface
  pub method_is : call.method_name ≡ c_string method
  pub args_are : call.args ≡ args
  pub queue_is : call.queue ≡ []
  pub open_is : call.aborted ≡ false

payload_lem :
    (path interface : Option Bytes) (method : Bytes) (args : Object)
    → (unpack_string (some (call_payload path interface method args)) (codes "path")
        ≡ c_string_or_null path)
      × (unpack_string (some (call_payload path interface method args)) (codes "interface")
          ≡ c_string_or_null interface)
      × (unpack_string (some (call_payload path interface method args)) (codes "method")
          ≡ some (c_string method))
      × (unpack_value (some (call_payload path interface method args)) (codes "args") ≡ some args)
unfolding unpack_string unpack_value call_payload lookup insert bytes_eq string_create
payload_lem none none method args = (refl, refl, refl, refl)
payload_lem none (some i) method args = (refl, refl, refl, refl)
payload_lem (some s) none method args = (refl, refl, refl, refl)
payload_lem (some s) (some i) method args = (refl, refl, refl, refl)

-- The connection after a refusal that is answered.
refused_lem :
    (p : Platform) (link : Link) (key : Bytes) (code : ℤ) (msg : Bytes) (call : Call)
    (conn : Connection)
    → ((f : Object) → link.accepts f ≡ true)
    → refuse p link (some (code, msg)) call key conn ≡ record conn {
      inbound_calls = drop_key key conn.inbound_calls;
      sent = conn.sent ++ send_err p call.id code msg ∷ [];
    }
unfolding refuse
refused_lem p link key code msg call conn l = ground (arith, l (send_err p call.id code msg))

-- The call that on_rpc_call makes of such a frame.
unfoldable pub arrived : Bytes → Option Bytes → Option Bytes → Bytes → Object → Call
unfolding new_call
arrived key path interface method args =
    record (new_call (string key) (c_string_or_null path) (c_string_or_null interface)
      (c_string method) args) { type = inbound_call }

module _ (p : Platform) (link : Link) (dispatch : Call → Dispatched) where
  routed_call :
      (key : Bytes) (path interface : Option Bytes) (method : Bytes) (args : Object)
      (conn : Connection)
      → connection_dispatch p link dispatch
          (call_frame (string key) path interface method args)
          conn
        ≡ on_rpc_call p link dispatch conn
            (some (call_payload path interface method args))
            (string key)
  unfolding connection_dispatch call_frame dictionary_get_value dictionary_get_string lookup insert
      bytes_eq string_create c_string
  routed_call key path interface method args conn = refl

  -- What becomes of the call that a frame describes, on a connection that takes calls.
  call_lem :
      (key : Bytes) (path interface : Option Bytes) (method : Bytes) (args : Object)
      (conn : Connection)
      → conn.context ≡ true
      → connection_is_open conn ≡ true
      → is_array args ≡ true
      → on_rpc_call p link dispatch conn
          (some (call_payload path interface method args))
          (string key)
        ≡ elim (dispatch (arrived key path interface method args)) [
          | submitted ↦ ok (record conn {
            inbound_calls = put key (arrived key path interface method args) conn.inbound_calls;
          })
          | refused err ↦ ok (
              refuse p link err (arrived key path interface method args) key (record conn {
                inbound_calls = put key (arrived key path interface method args) conn.inbound_calls;
              }))
        ]
  unfolding on_rpc_call arrived
  call_lem key path interface method args conn c o a =
      let l = payload_lem path interface method args in ground (arith, c, o, a, l)

  -- A call frame that arrives at an open connection whose context submits the call is entered in the
  -- table of inbound calls, under its id, with the path, the interface, the method and the arguments
  -- that it was made from; a string counts up to its first NUL byte.
  pub connection_dispatch-call_frame :
      (key : Bytes) (path interface : Option Bytes) (method : Bytes) (args : Object)
      (conn : Connection)
      → conn.context ≡ true
      → connection_is_open conn ≡ true
      → is_array args ≡ true
      → dispatch (arrived key path interface method args) ≡ submitted
      → (call : Call) × (connection_dispatch p link dispatch
            (call_frame (string key) path interface method args)
            conn
          ≡ ok (record conn { inbound_calls = put key call conn.inbound_calls }))
        × Received key path interface method args call
  unfolding arrived
  connection_dispatch-call_frame key path interface method args conn c o a d = (
    arrived key path interface method args,
    routed_call key path interface method args conn
        ∙ call_lem key path interface method args conn c o a
        ∙ ground (arith, d),
    record {
      type_is = refl;
      id_is = refl;
      path_is = refl;
      interface_is = refl;
      method_is = refl;
      args_are = refl;
      queue_is = refl;
      open_is = refl;
    },
  )

  -- A call frame that arrives at an open connection whose context refuses this call, over a transport that
  -- takes every frame, is answered by one frame, the error with the code and the message of the
  -- refusal, and leaves no call in the table under its id and the other calls as they were.
  pub connection_dispatch-refused :
      (key : Bytes) (path interface : Option Bytes) (method : Bytes) (args : Object)
      (conn : Connection) (code : ℤ) (msg : Bytes)
      → conn.context ≡ true
      → connection_is_open conn ≡ true
      → is_array args ≡ true
      → dispatch (arrived key path interface method args) ≡ refused (some (code, msg))
      → ((f : Object) → link.accepts f ≡ true)
      → (c : Connection) × (connection_dispatch p link dispatch
            (call_frame (string key) path interface method args)
            conn
          ≡ ok c)
        × (c.sent ≡ conn.sent ++ send_err p (string key) code msg ∷ [])
        × ((j : Bytes)
            → find j c.inbound_calls ≡ (if bytes_eq key j then none else find j conn.inbound_calls))
        × (c.calls ≡ conn.calls)
  unfolding arrived
  connection_dispatch-refused key path interface method args conn code msg c o a d l =
      let call = arrived key path interface method args in
      let kept = record conn { inbound_calls = put key call conn.inbound_calls } in
      let e = refused_lem p link key code msg call kept l in
      (
        record conn {
          inbound_calls = drop_key key kept.inbound_calls;
          sent = conn.sent ++ send_err p (string key) code msg ∷ [];
        },
        routed_call key path interface method args conn
            ∙ call_lem key path interface method args conn c o a
            ∙ ground (arith, d, e),
        refl,
        λ j.
            ground (
              arith,
              find-drop_key key j kept.inbound_calls,
              find-put key j call conn.inbound_calls,
            ),
        refl,
      )
