-- ===== src/Connection/Watching.antt =====
-- src/rpc_connection.c: the subscriptions of the other side, their reference counts, and whether the
-- connection watches the events of its context.
use librpc.Connection.Subscriptions.{
  take_out, no_refs, fresh, add_ref, adjust_at, find_subscription,
}
use librpc.Connection.References.{
  fresh-Referenced, All-Referenced-le, All-drop_ref, All-take_out, length-take_out, All-adjust_at,
  All-snoc, length-adjust_at, find_subscription-lt, Referenced,
}
use librpc.Connection.Events.{
  on_events_unsubscribe, names_of, subscribe_all, release_at, unsubscribe_all, on_events_subscribe,
  start_watching, subscribe_one, stop_watching, unsubscribe_one,
}
use librpc.Object.Types.{elements, nil, array, Object, cons, Items}
use librpc.Base.Int.{negsuc, pos}
use librpc.Connection.State.{Subscription, Connection}
use librpc.Base.{
  ◌^◌, fault, subst, ◌>>=◌, Outcome, inr, inl, Bool-cases, none, ◌≤◌, length-append, refl, ok,
  false, [], if◌then◌else◌, arith, ◌==◌, ◌+◌, Leaves, ◌∷◌, not, get_elem?, some, ◌++◌, true, Bytes,
  ◌<◌, All, length, ◌≡◌, Option, ℕ, List,
}

-- A connection to whose events only the other side subscribes, with at most `m` references to a
-- subscription.
pub record Served (m : ℕ) (conn : Connection) : Type 0 where
  pub context_set : conn.context ≡ true
  pub referenced : All (Referenced m) conn.subscriptions
  pub watches : conn.watching ≡ not (length conn.subscriptions == 0)

-- The list of subscriptions after a subscription, on both branches.
subscribed-Served :
    (m k : ℕ) (conn : Connection) (subs : List Subscription)
    → Served m conn
    → All (Referenced k) subs
    → length subs ≤ length conn.subscriptions + 1
    → length conn.subscriptions ≤ length subs
    → 0 < length subs
    → Leaves
        (if length subs == 1
          then start_watching (record conn { subscriptions = subs })
          else ok (record conn { subscriptions = subs }))
        (Served k)
unfolding start_watching
subscribed-Served m k conn subs h r l n some_length = elim (Bool-cases (length subs == 1)) [
  | inl one ↦ (
    record conn { subscriptions = subs; watching = true },
    ground (arith, one, h.context_set),
    record { context_set = h.context_set; referenced = r; watches = ground (arith, one) },
  )
  | inr more ↦ (
    record conn { subscriptions = subs },
    ground (arith, more),
    record {
      context_set = h.context_set;
      referenced = r;
      watches = ground (arith, more, h.watches);
    },
  )
]

-- After the removal of a subscription.
removed-Served :
    (m : ℕ) (conn : Connection) (subs : List Subscription)
    → Served m conn
    → All (Referenced m) subs
    → length subs + 1 ≡ length conn.subscriptions
    → Leaves
        (if length subs == 0
          then stop_watching (record conn { subscriptions = subs })
          else ok (record conn { subscriptions = subs }))
        (Served m)
unfolding stop_watching
removed-Served m conn subs h r l = elim (Bool-cases (length subs == 0)) [
  | inl last ↦ (
    record conn { subscriptions = subs; watching = false },
    ground (arith, last, h.context_set, h.watches),
    record { context_set = h.context_set; referenced = r; watches = ground (arith, last) },
  )
  | inr more ↦ (
    record conn { subscriptions = subs },
    ground (arith, more),
    record {
      context_set = h.context_set;
      referenced = r;
      watches = ground (arith, more, h.watches);
    },
  )
]

Served-le : (m k : ℕ) (conn : Connection) → m ≤ k → Served m conn → Served k conn
Served-le m k conn l h = record {
  context_set = h.context_set;
  referenced = All-Referenced-le m k conn.subscriptions l h.referenced;
  watches = h.watches;
}

module _ (path interface name : Option Bytes) (m : ℕ) (conn : Connection) (h : Served m conn) where
  subscribe_by :
      (found : Option ℕ)
      → m + 1 < 2 ^ 31
      → find_subscription path interface name conn.subscriptions ≡ found
      → Leaves (subscribe_one path interface name conn) (Served (m + 1))
  unfolding subscribe_one
  subscribe_by none b e =
      let l = length-append conn.subscriptions (fresh path interface name ∷ []) in
      rw (e, subscribe_one)
        (subscribed-Served m (m + 1) conn (conn.subscriptions ++ fresh path interface name ∷ []) h
          (All-snoc (Referenced (m + 1)) conn.subscriptions (fresh path interface name)
            (All-Referenced-le m (m + 1) conn.subscriptions (omega arith) h.referenced)
            (fresh-Referenced m path interface name))
          (omega arith) (omega arith) (omega arith))
  subscribe_by (some i) b e =
      let l = length-adjust_at i (add_ref (pos 1)) conn.subscriptions in
      let n = find_subscription-lt path interface name conn.subscriptions {i = i} e in
      rw (e, subscribe_one)
        (subscribed-Served m (m + 1) conn (adjust_at i (add_ref (pos 1)) conn.subscriptions) h
          (All-adjust_at m i conn.subscriptions b h.referenced) (omega arith) (omega arith)
          (omega arith))

  unsubscribe_at :
      (i : ℕ) → m < 2 ^ 31 → i < length conn.subscriptions → Leaves (release_at i conn) (Served m)
  unfolding release_at
  unsubscribe_at i b n =
      let subs = adjust_at i (add_ref (negsuc 0)) conn.subscriptions in
      let l = length-adjust_at i (add_ref (negsuc 0)) conn.subscriptions in
      elim (Bool-cases (no_refs (get_elem? subs i))) [
        | inl gone ↦
            let k = length-take_out i subs (omega arith) in
            rw gone (
              removed-Served m conn (take_out i subs) h
                (All-take_out m (add_ref (negsuc 0)) i conn.subscriptions h.referenced)
                (omega arith))
        | inr kept ↦ (
          record conn { subscriptions = subs },
          rw kept refl,
          record {
            context_set = h.context_set;
            referenced = All-drop_ref m i conn.subscriptions b h.referenced kept;
            watches = ground (arith, h.watches, l);
          },
        )
      ]

  unsubscribe_by :
      (found : Option ℕ)
      → m < 2 ^ 31
      → find_subscription path interface name conn.subscriptions ≡ found
      → Leaves (unsubscribe_one path interface name conn) (Served m)
  unfolding unsubscribe_one
  unsubscribe_by none b e = (conn, rw (e, unsubscribe_one) refl, h)
  unsubscribe_by (some i) b e =
      rw (e, unsubscribe_one)
        (unsubscribe_at i b (find_subscription-lt path interface name conn.subscriptions {i = i} e))

then-Leaves :
    (m k : ℕ) (r : Outcome Connection) (f : Connection → Outcome Connection)
    → Leaves r (Served m)
    → ((c : Connection) → Served m c → Leaves (f c) (Served k))
    → Leaves (r >>= f) (Served k)
then-Leaves m k (ok a) f (x, e, h) g = g a (subst (Served m) (cc) h)
then-Leaves m k (fault w) f (x, e, h) g = cc

subscribe_item :
    (rest : Items) (names : Option (Option Bytes × Option Bytes × Option Bytes)) (m k : ℕ)
    (conn : Connection)
    → Served m conn
    → m + 1 < 2 ^ 31
    → ((c : Connection) → Served (m + 1) c → Leaves (subscribe_all rest c) (Served k))
    → Leaves
        (elim names [
          | none ↦ subscribe_all rest conn
          | some (path, interface, name) ↦
              subscribe_one path interface name conn >>= subscribe_all rest
        ])
        (Served k)
subscribe_item rest none m k conn h b g = g conn (Served-le m (m + 1) conn (omega arith) h)
subscribe_item rest (some (path, interface, name)) m k conn h b g =
    then-Leaves (m + 1) k (subscribe_one path interface name conn) (subscribe_all rest)
      (subscribe_by path interface name m conn h _ b refl) g

subscribe_all-Served :
    (xs : Items) (m k : ℕ) (conn : Connection)
    → Served m conn
    → m + length (elements xs) ≤ k
    → k < 2 ^ 31
    → Leaves (subscribe_all xs conn) (Served k)
unfolding subscribe_all
subscribe_all-Served nil m k conn h l b = (conn, refl, Served-le m k conn (omega arith) h)
subscribe_all-Served (cons v rest) m k conn h l b =
    subscribe_item rest (names_of v) m k conn h (omega arith)
      (λ c g. subscribe_all-Served rest (m + 1) k c g (omega arith) b)

unsubscribe_item :
    (rest : Items) (names : Option (Option Bytes × Option Bytes × Option Bytes)) (m : ℕ)
    (conn : Connection)
    → Served m conn
    → m < 2 ^ 31
    → ((c : Connection) → Served m c → Leaves (unsubscribe_all rest c) (Served m))
    → Leaves
        (elim names [
          | none ↦ unsubscribe_all rest conn
          | some (path, interface, name) ↦
              unsubscribe_one path interface name conn >>= unsubscribe_all rest
        ])
        (Served m)
unsubscribe_item rest none m conn h b g = g conn h
unsubscribe_item rest (some (path, interface, name)) m conn h b g =
    then-Leaves m m (unsubscribe_one path interface name conn) (unsubscribe_all rest)
      (unsubscribe_by path interface name m conn h _ b refl) g

unsubscribe_all-Served :
    (xs : Items) (m : ℕ) (conn : Connection)
    → Served m conn
    → m < 2 ^ 31
    → Leaves (unsubscribe_all xs conn) (Served m)
unfolding unsubscribe_all
unsubscribe_all-Served nil m conn h b = (conn, refl, h)
unsubscribe_all-Served (cons v rest) m conn h b =
    unsubscribe_item rest (names_of v) m conn h b (λ c g. unsubscribe_all-Served rest m c g b)

-- How many items a frame has.
abbrev pub item_count : Option Object → ℕ
item_count (some (array xs)) = length (elements xs)
item_count _ = 0

-- On a connection to whose events only the other side subscribes, where every subscription has at least
-- one reference and at most m, and the connection watches the events of its context exactly where it has
-- a subscription, and as long as m and the items of the frame together stay below 2^31, a frame of
-- subscriptions or of unsubscriptions makes no assertion fail, reads through no NULL, and leaves a
-- connection of the same kind, with a limit that is higher by the items of a frame of subscriptions.
pub on_events-Served :
    (m : ℕ) (conn : Connection) (args : Option Object) (id : Object)
    → Served m conn
    → m + item_count args < 2 ^ 31
    → Leaves (on_events_subscribe conn args id) (Served (m + item_count args))
      × Leaves (on_events_unsubscribe conn args id) (Served m)
unfolding on_events_subscribe on_events_unsubscribe
on_events-Served m conn (some (array xs)) id h b = (
  subscribe_all-Served xs m (m + length (elements xs)) conn h (omega arith) b,
  unsubscribe_all-Served xs m conn h (omega arith),
)
on_events-Served m conn none id h b =
    ((conn, refl, Served-le m (m + 0) conn (omega arith) h), (conn, refl, h))
on_events-Served m conn args id h b =
    ((conn, refl, Served-le m (m + 0) conn (omega arith) h), (conn, refl, h))
