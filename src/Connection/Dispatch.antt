-- ===== src/Connection/Dispatch.antt =====
-- src/rpc_connection.c: rpc_connection_dispatch: which handler a frame comes to.
use librpc.Connection.Events.{
  on_events_unsubscribe, on_events_subscribe, on_events_event_burst, on_events_event,
}
use librpc.Base.Int.{pos, negsuc, ℤ}
use librpc.Connection.Handlers.{
  on_rpc_error, on_rpc_abort, on_rpc_end, on_rpc_continue, on_rpc_fragment, on_rpc_start_stream,
  on_rpc_response,
}
use librpc.Object.Dictionary.Typed.{dictionary_get_string}
use librpc.Object.Dictionary.{dictionary_get_value}
use librpc.Object.Types.{null, dictionary, Object}
use librpc.Connection.State.{
  spurious_response, report, Connection, answer_error, connection_is_open,
}
use librpc.Connection.Calls.{on_rpc_call, Dispatched}
use librpc.Connection.Call.{einval, enxio, Call, Link}
use librpc.Object.Platform.{Platform}
use librpc.Base.{
  ◌>>=◌, false, ok, true, Outcome, some, ◌&&◌, Bool, bytes_eq, if◌then◌else◌, none, [], Option, ◌∷◌,
  Bytes, codes, List,
}

-- The entries of the table of message handlers, each named for its function.
pub data Handler : Type 0 where
  rpc_call rpc_response rpc_start_stream rpc_fragment rpc_continue rpc_end rpc_abort rpc_error :
      Handler
  events_event events_event_burst events_subscribe events_unsubscribe : Handler

pub record Entry : Type 0 where
  pub namespace : Bytes
  pub name : Bytes
  pub handler : Handler

abbrev entry : Bytes → Bytes → Handler → Entry
entry namespace name handler = record { namespace = namespace; name = name; handler = handler }

unfoldable pub handlers : List Entry
handlers =
    entry (codes "rpc") (codes "call") rpc_call
    ∷ entry (codes "rpc") (codes "response") rpc_response
    ∷ entry (codes "rpc") (codes "start_stream") rpc_start_stream
    ∷ entry (codes "rpc") (codes "fragment") rpc_fragment
    ∷ entry (codes "rpc") (codes "continue") rpc_continue
    ∷ entry (codes "rpc") (codes "end") rpc_end
    ∷ entry (codes "rpc") (codes "abort") rpc_abort
    ∷ entry (codes "rpc") (codes "error") rpc_error
    ∷ entry (codes "events") (codes "event") events_event
    ∷ entry (codes "events") (codes "event_burst") events_event_burst
    ∷ entry (codes "events") (codes "subscribe") events_subscribe
    ∷ entry (codes "events") (codes "unsubscribe") events_unsubscribe
    ∷ []

-- The loop over the table.
unfoldable pub find_handler : Bytes → Bytes → List Entry → Option Handler
find_handler namespace name [] = none
find_handler namespace name (h ∷ rest) =
    if bytes_eq namespace h.namespace && bytes_eq name h.name
    then some h.handler
    else find_handler namespace name rest

module _ (p : Platform) (link : Link) (dispatch : Call → Dispatched) where
  unfoldable pub handle : Handler → Connection → Option Object → Object → Outcome Connection
  unfolding on_rpc_call on_rpc_response on_rpc_start_stream on_rpc_fragment on_rpc_continue
      on_rpc_end on_rpc_abort on_rpc_error on_events_event on_events_event_burst on_events_subscribe
      on_events_unsubscribe
  handle rpc_call conn args id = on_rpc_call p link dispatch conn args id
  handle rpc_response conn args id = on_rpc_response conn args id
  handle rpc_start_stream conn args id = on_rpc_start_stream conn args id
  handle rpc_fragment conn args id = on_rpc_fragment conn args id
  handle rpc_continue conn args id = on_rpc_continue conn args id
  handle rpc_end conn args id = on_rpc_end conn args id
  handle rpc_abort conn args id = on_rpc_abort conn args id
  handle rpc_error conn args id = on_rpc_error conn args id
  handle events_event conn args id = on_events_event conn args id
  handle events_event_burst conn args id = on_events_event_burst conn args id
  handle events_subscribe conn args id = on_events_subscribe conn args id
  handle events_unsubscribe conn args id = on_events_unsubscribe conn args id

  -- The handler that the names of a frame give.
  unfoldable pub route :
      Option Bytes → Option Bytes → Object → Object → Connection → Outcome Connection
  unfolding handlers find_handler handle answer_error dictionary_get_value
  route (some namespace) (some name) id frame conn = elim (find_handler namespace name handlers) [
    | some h ↦ handle h conn (dictionary_get_value frame (codes "args")) id
    | none ↦ ok (answer_error p link id enxio (codes "No request handler found") conn)
  ]
  route _ _ id frame conn = ok (answer_error p link id einval (codes "Malformed request") conn)

  -- rpc_connection_dispatch; an answer to a frame without an id has the id null.
  unfoldable pub connection_dispatch : Object → Connection → Outcome Connection
  unfolding dictionary_get_value dictionary_get_string answer_error route
  connection_dispatch frame conn = elim (dictionary_get_value frame (codes "id")) [
    | none ↦ ok (answer_error p link null einval (codes "Malformed request") conn)
    | some id ↦
        route (dictionary_get_string frame (codes "namespace"))
          (dictionary_get_string frame (codes "name")) id frame conn
  ]

  abbrev is_dictionary : Object → Bool
  is_dictionary (dictionary entries) = true
  is_dictionary _ = false

  -- rpc_recv_msg, without a raw handler: `msg` is what the serializer made of the bytes, and `typed` what
  -- rpct_deserialize and the restoring of descriptors make of an object. The number is the return value.
  unfoldable pub recv_msg :
      (Object → Option Object) → Option Object → Connection → Outcome (Connection × ℤ)
  unfolding connection_is_open report connection_dispatch
  recv_msg typed msg conn =
      let nothing : Outcome (Connection × ℤ) =
        ok (report (spurious_response none) conn, negsuc 0) in
      if connection_is_open conn
      then elim msg [
        | none ↦ nothing
        | some v ↦
            if is_dictionary v
            then elim (typed v) [
              | none ↦ nothing
              | some w ↦ connection_dispatch w conn >>= λ c. ok (c, pos 0)
            ]
            else ok (report (spurious_response (some v)) conn, negsuc 0)
      ]
      else ok (conn, negsuc 0)
