-- ===== src/Connection/Subscriptions.antt =====
-- src/rpc_connection.c: the list of subscriptions of a connection, and the subscriptions of this side:
-- rpc_connection_subscribe_event and rpc_connection_unsubscribe_event.
use librpc.Object.Types.{nil, fields, dictionary, cons, array, Object}
use librpc.Object.Value.{string_create}
use librpc.Connection.Call.{Link}
use librpc.Object.Dictionary.{insert}
use librpc.Connection.State.{Connection, transmit, connection_is_open, Subscription}
use librpc.Connection.Frames.{pack_frame}
use librpc.Object.Platform.{Platform}
use librpc.Base.Int.{to_uint32, to_int32, eqb_ℤ, negsuc, ltb_ℤ, pos, ℤ, ◌+ℤ◌}
use librpc.Base.{
  get_elem?, ◌++◌, zero, bytes_eq, [], some, codes, if◌then◌else◌, ◌&&◌, false, suc, true, ◌∷◌,
  Bool, none, Bytes, Option, ℕ, List,
}

option_eq : Option Bytes → Option Bytes → Bool
option_eq none none = true
option_eq (some a) (some b) = bytes_eq a b
option_eq _ _ = false

-- g_strcmp0 on the three names.
unfoldable pub matches : Option Bytes → Option Bytes → Option Bytes → Subscription → Bool
unfolding option_eq
matches path interface name sub =
    option_eq sub.path path && option_eq sub.interface interface && option_eq sub.name name

-- rpc_connection_find_subscription: the first that matches, here with its index.
unfoldable pub find_subscription :
    Option Bytes → Option Bytes → Option Bytes → List Subscription → Option ℕ
unfolding matches
find_subscription path interface name [] = none
find_subscription path interface name (s ∷ rest) =
    if matches path interface name s
    then some 0
    else elim (find_subscription path interface name rest) [ none ↦ none | some i ↦ some (suc i) ]

-- What is done to the subscription at an index; g_ptr_array_remove takes it out.
abbrev pub adjust_at : ℕ → (Subscription → Subscription) → List Subscription → List Subscription
adjust_at i f [] = []
adjust_at zero f (s ∷ rest) = f s ∷ rest
adjust_at (suc i) f (s ∷ rest) = s ∷ adjust_at i f rest

abbrev pub take_out : ℕ → List Subscription → List Subscription
take_out i [] = []
take_out zero (s ∷ rest) = rest
take_out (suc i) (s ∷ rest) = s ∷ take_out i rest

-- rsu_refcount is an int, which wraps.
unfoldable pub add_ref : ℤ → Subscription → Subscription
unfolding ◌+ℤ◌
add_ref n sub = record sub { refcount = to_int32 (to_uint32 (sub.refcount +ℤ n)) }

-- `sub->rsu_refcount == 0`
abbrev pub no_refs : Option Subscription → Bool
no_refs none = false
no_refs (some sub) = eqb_ℤ sub.refcount (pos 0)

-- `sub->rsu_refcount > 0`
abbrev pub has_refs : Option Subscription → Bool
has_refs none = false
has_refs (some sub) = ltb_ℤ (pos 0) sub.refcount

unfoldable pub fresh : Option Bytes → Option Bytes → Option Bytes → Subscription
fresh path interface name = record {
  path = path;
  interface = interface;
  name = name;
  refcount = pos 1;
  busy = false;
  handlers = 0;
}

-- The frames of this side's subscriptions.
unfoldable pub subscription_frame : Bytes → Option Bytes → Option Bytes → Option Bytes → Object
unfolding pack_frame insert string_create
subscription_frame verb path interface name = pack_frame (codes "events") verb none (
    array (
      cons
        (dictionary (
          fields (
            insert (codes "name") (string_create name) (
              insert (codes "interface") (string_create interface)
                (insert (codes "path") (string_create path) [])))))
        nil))

module _ (p : Platform) (link : Link) where
  -- rpc_connection_subscribe_event
  unfoldable pub subscribe_event :
      Option Bytes → Option Bytes → Option Bytes → Connection → Connection × ℤ
  unfolding connection_is_open find_subscription fresh add_ref transmit subscription_frame
  subscribe_event path interface name conn =
      if connection_is_open conn
      then elim (find_subscription path interface name conn.subscriptions) [
        | some i ↦ (
          record conn { subscriptions = adjust_at i (add_ref (pos 1)) conn.subscriptions },
          pos 0,
        )
        | none ↦
            let r =
              transmit p link (subscription_frame (codes "subscribe") path interface name) conn in
            if r.1
            then (
              record r.0 { subscriptions = conn.subscriptions ++ fresh path interface name ∷ [] },
              pos 0,
            )
            else (r.0, negsuc 0)
      ]
      else (conn, negsuc 0)

  -- rpc_connection_unsubscribe_event; a frame that the transport does not take counts as -1.
  unfoldable pub unsubscribe_event :
      Option Bytes → Option Bytes → Option Bytes → Connection → Connection × ℤ
  unfolding connection_is_open find_subscription add_ref transmit subscription_frame
  unsubscribe_event path interface name conn =
      if connection_is_open conn
      then elim (find_subscription path interface name conn.subscriptions) [
        | none ↦ (conn, negsuc 0)
        | some i ↦
            let subs = adjust_at i (add_ref (negsuc 0)) conn.subscriptions in
            if has_refs (get_elem? subs i)
            then (record conn { subscriptions = subs }, pos 0)
            else (let r =
                  transmit p link (subscription_frame (codes "unsubscribe") path interface name)
                    conn in
                (record r.0 { subscriptions = take_out i subs }, if r.1 then pos 0 else negsuc 0))
      ]
      else (conn, negsuc 0)
