-- ===== src/Connection/Events.antt =====
-- src/rpc_connection.c: the handlers of event frames: events, bursts of events, and the subscriptions of
-- the other side.
use librpc.Connection.Subscriptions.{
  no_refs, take_out, adjust_at, fresh, find_subscription, add_ref,
}
use librpc.Object.Value.{string_get_string_ptr}
use librpc.Base.Int.{negsuc, pos}
use librpc.Object.Types.{array, nil, Object, cons, Items}
use librpc.Connection.State.{
  unpack_string, event_of, Subscription, push_work, unpack_value, Connection,
}
use librpc.Base.{
  ◌==◌, length, abort, bad_access, get_elem?, [], fault, ◌>>=◌, false, true, codes, ◌++◌, ◌∷◌, ok,
  if◌then◌else◌, some, none, Bytes, Outcome, Option, ℕ, List,
}

-- The names of one item of a frame; none where the format "{s,s,s}" finds nothing.
unfoldable pub names_of : Object → Option (Option Bytes × Option Bytes × Option Bytes)
unfolding unpack_value string_get_string_ptr
names_of value = elim (unpack_value (some value) (codes "name")) [
  | some n ↦ some (
    unpack_string (some value) (codes "path"),
    unpack_string (some value) (codes "interface"),
    unpack_string (some value) (codes "name"),
  )
  | none ↦ elim (unpack_value (some value) (codes "interface")) [
    | some n ↦ some (
      unpack_string (some value) (codes "path"),
      unpack_string (some value) (codes "interface"),
      none,
    )
    | none ↦ elim (unpack_value (some value) (codes "path")) [
      | some n ↦ some (unpack_string (some value) (codes "path"), none, none)
      | none ↦ none
    ]
  ]
]

-- The first subscription of the other side adds the connection to the watchers of its context, and
-- the last one takes it out, which asserts that it was in; without a context both read through NULL.
unfoldable pub start_watching : Connection → Outcome Connection
start_watching conn =
    if conn.context then ok (record conn { watching = true }) else fault bad_access

unfoldable pub stop_watching : Connection → Outcome Connection
stop_watching conn =
    if conn.context
    then (if conn.watching then ok (record conn { watching = false }) else fault abort)
    else fault bad_access

-- One round of on_events_subscribe.
unfoldable pub subscribe_one :
    Option Bytes → Option Bytes → Option Bytes → Connection → Outcome Connection
unfolding find_subscription fresh add_ref start_watching
subscribe_one path interface name conn =
    let subs : List Subscription = elim (find_subscription path interface name conn.subscriptions) [
      | none ↦ conn.subscriptions ++ fresh path interface name ∷ []
      | some i ↦ adjust_at i (add_ref (pos 1)) conn.subscriptions
    ] in
    let added = record conn { subscriptions = subs } in
    if length subs == 1 then start_watching added else ok added

-- A reference less for the subscription at an index.
unfoldable pub release_at : ℕ → Connection → Outcome Connection
unfolding add_ref stop_watching
release_at i conn =
    let subs = adjust_at i (add_ref (negsuc 0)) conn.subscriptions in
    let left = take_out i subs in
    if no_refs (get_elem? subs i)
    then (if length left == 0
        then stop_watching (record conn { subscriptions = left })
        else ok (record conn { subscriptions = left }))
    else ok (record conn { subscriptions = subs })

-- One round of on_events_unsubscribe.
unfoldable pub unsubscribe_one :
    Option Bytes → Option Bytes → Option Bytes → Connection → Outcome Connection
unfolding find_subscription release_at
unsubscribe_one path interface name conn =
    elim (find_subscription path interface name conn.subscriptions) [
      | none ↦ ok conn
      | some i ↦ release_at i conn
    ]

unfoldable pub subscribe_all : Items → Connection → Outcome Connection
unfolding names_of subscribe_one
subscribe_all nil conn = ok conn
subscribe_all (cons v rest) conn = elim (names_of v) [
  | none ↦ subscribe_all rest conn
  | some (path, interface, name) ↦ subscribe_one path interface name conn >>= subscribe_all rest
]

unfoldable pub unsubscribe_all : Items → Connection → Outcome Connection
unfolding names_of unsubscribe_one
unsubscribe_all nil conn = ok conn
unsubscribe_all (cons v rest) conn = elim (names_of v) [
  | none ↦ unsubscribe_all rest conn
  | some (path, interface, name) ↦ unsubscribe_one path interface name conn >>= unsubscribe_all rest
]

unfoldable pub on_events_subscribe : Connection → Option Object → Object → Outcome Connection
unfolding subscribe_all
on_events_subscribe conn (some (array items)) id = subscribe_all items conn
on_events_subscribe conn _ id = ok conn

unfoldable pub on_events_unsubscribe : Connection → Option Object → Object → Outcome Connection
unfolding unsubscribe_all
on_events_unsubscribe conn (some (array items)) id = unsubscribe_all items conn
on_events_unsubscribe conn _ id = ok conn

unfoldable pub on_events_event : Connection → Option Object → Object → Outcome Connection
unfolding push_work
on_events_event conn none id = ok conn
on_events_event conn (some event) id = ok (push_work (event_of (some event)) conn)

-- The items of work of a burst carry no event.
burst : Items → Connection → Connection
unfolding push_work
burst nil conn = conn
burst (cons v rest) conn = burst rest (push_work (event_of none) conn)

unfoldable pub on_events_event_burst : Connection → Option Object → Object → Outcome Connection
unfolding burst
on_events_event_burst conn (some (array items)) id = ok (burst items conn)
on_events_event_burst conn _ id = fault bad_access
