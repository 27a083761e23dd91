-- ===== src/Connection/State.antt =====
-- src/rpc_connection.c: the state of a connection, and what its handlers share.
use librpc.Connection.Stream.{send_err}
use librpc.Object.Types.{Object}
use librpc.Connection.Call.{Call, Link}
use librpc.Base.Int.{ℤ}
use librpc.Object.Value.{string_get_string_ptr}
use librpc.Object.Dictionary.{dictionary_get_value}
use librpc.Object.Platform.{Platform}
use librpc.Base.{
  bad_access, fault, false, none, true, ℕ, Outcome, [], Table, some, ◌&&◌, drop_key, ◌∷◌, not,
  Option, ◌++◌, if◌then◌else◌, Bool, Bytes, List,
}

-- struct rpc_subscription; its handlers are code of the client, of which only the number is kept.
pub record Subscription : Type 0 where
  pub path : Option Bytes
  pub interface : Option Bytes
  pub name : Option Bytes
  pub refcount : ℤ
  pub busy : Bool
  pub handlers : ℕ

-- What the error handler is called with.
pub data Report : Type 0 where
  spurious_response : Option Object → Report
  transport_error : Object → Report
  connection_closed : Report

-- What is given to the callback pool: a call's callback, an abort handler, or an event (struct work_item).
pub data Work : Type 0 where
  callback_of : Bytes → Work
  abort_of : Bytes → Work
  event_of : Option Object → Work

-- struct rpc_connection. `context`, `server` and `error_handler` say that these are set; `closed` and
-- `aborted` are bits of rco_state; `watching` says that the context's event_watchers has the connection.
-- `sent` are the frames that the transport took, `aborts` the calls whose abort handler was run.
pub record Connection : Type 0 where
  pub context : Bool
  pub server : Bool
  pub error_handler : Bool
  pub transport_failure : Option Object
  pub closed : Bool
  pub aborted : Bool
  pub calls : Table Call
  pub inbound_calls : Table Call
  pub subscriptions : List Subscription
  pub watching : Bool
  pub sent : List Object
  pub reports : List Report
  pub work : List Work
  pub aborts : List Bytes

-- rpc_connection_is_open
unfoldable pub connection_is_open : Connection → Bool
connection_is_open conn = not conn.closed && not conn.aborted

-- A key of a format such as "{s,s}" in rpc_object_unpack.
unfoldable pub unpack_string : Option Object → Bytes → Option Bytes
unfolding dictionary_get_value string_get_string_ptr
unpack_string none key = none
unpack_string (some o) key = elim (dictionary_get_value o key) [
  | none ↦ none
  | some v ↦ string_get_string_ptr v
]

unfoldable pub unpack_value : Option Object → Bytes → Option Object
unfolding dictionary_get_value
unpack_value none key = none
unpack_value (some o) key = dictionary_get_value o key

-- A lookup hashes the string of the id, which has to be one.
unfoldable pub with_key : Object → (Bytes → Outcome Connection) → Outcome Connection
unfolding string_get_string_ptr
with_key id go = elim (string_get_string_ptr id) [ none ↦ fault bad_access | some key ↦ go key ]

unfoldable pub report : Report → Connection → Connection
report r conn =
    if conn.error_handler then record conn { reports = conn.reports ++ r ∷ [] } else conn

unfoldable pub push_work : Work → Connection → Connection
push_work w conn = record conn { work = conn.work ++ w ∷ [] }

module _ (p : Platform) (link : Link) where
  -- rpc_send_frame, and whether the transport took the frame.
  unfoldable pub transmit : Object → Connection → Connection × Bool
  transmit frame conn =
      if link.accepts frame
      then (record conn { sent = conn.sent ++ frame ∷ [] }, true)
      else (conn, false)

  -- rpc_connection_send_err
  unfoldable pub answer_error : Object → ℤ → Bytes → Connection → Connection
  unfolding transmit send_err
  answer_error id code descr conn = (transmit (send_err p id code descr) conn).0

  unfoldable pub send_all : List Object → Connection → Connection
  unfolding transmit
  send_all [] conn = conn
  send_all (f ∷ frames) conn = send_all frames (transmit f conn).0

-- rpc_connection_close_inbound_call
unfoldable pub close_inbound_call : Bytes → Connection → Connection
close_inbound_call key conn = record conn { inbound_calls = drop_key key conn.inbound_calls }
