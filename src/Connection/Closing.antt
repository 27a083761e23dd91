-- ===== src/Connection/Closing.antt =====
-- src/rpc_connection.c: what rpc_close leaves: nobody waits for a call of the connection any more.
use librpc.Base.Int.{negsuc}
use librpc.Connection.Timeouts.{Timed}
use librpc.Connection.Call.{CallStatus, receive, call_error, Turn, Call}
use librpc.Object.Types.{Object}
use librpc.Connection.State.{Connection}
use librpc.Object.Platform.{Platform}
use librpc.Connection.Stream.{stop_aborted, function_yield}
use librpc.Connection.Calls.{close, on_values, stop_inbound, fail_outbound}
use librpc.Base.{
  Option, some_inj, bytes_eq, ◌++◌, ◌∷◌, refl, inr, sym, subst, true, arith, [], inl, some, ◌≢◌,
  false, Table, ◌≡◌, Bool-cases, All, Bytes, find, List,
}

module _ {ℓ} {A : Type ℓ} where
  find-on_values :
      (f : A → A) (k : Bytes) (t : Table A) {b : A}
      → find k (on_values f t) ≡ some b
      → (a : A) × (find k t ≡ some a) × (b ≡ f a)
  unfolding find
  find-on_values f k [] e = cc
  find-on_values f k ((j, a) ∷ r) e = elim (Bool-cases (bytes_eq j k)) [
    | inl same ↦ (a, rw same, sym (some_inj (rw same at e)))
    | inr other ↦ let i = find-on_values f k r (rw other at e) in (i.0, rw other i.1, i.2)
  ]

module _ {ℓ κ} {A : Type ℓ} where
  All-find :
      (P : A → Type κ) (k : Bytes) (t : Table A) {a : A}
      → All (λ e. P e.1) t
      → find k t ≡ some a
      → P a
  unfolding find
  All-find P k [] h e = cc
  All-find P k ((j, b) ∷ r) h e = elim (Bool-cases (bytes_eq j k)) [
    | inl same ↦ subst P (some_inj (rw same at e)) (h.0)
    | inr other ↦ All-find P k r (h.1) (rw other at e)
  ]

snoc-ne-nil {ℓ} : {A : Type ℓ} (xs : List A) (x : A) → xs ++ x ∷ [] ≢ []
snoc-ne-nil [] x e = cc
snoc-ne-nil (y ∷ xs) x e = cc

receive-queue :
    (s : CallStatus) (v : Option Object) (c : Call) → Timed c → (receive s v c).0.queue ≢ []
unfolding receive
receive-queue s v c h e =
    ground (arith, h, e, snoc-ne-nil c.queue (record { status = s; item = v }))

fail_outbound-queue : (p : Platform) (c : Call) → Timed c → (fail_outbound p c).queue ≢ []
unfolding fail_outbound
fail_outbound-queue p c h = receive-queue call_error _ c h

-- A method that yields on the call is told to stop.
abbrev Stopped : Platform → Object → Call → Type 0
Stopped p v c =
    (t : Turn) × (function_yield p c v ≡ some t)
    × (t.ret ≡ negsuc 0)
    × (t.call.producer_seqno ≡ c.producer_seqno)

function_yield-Stopped : (p : Platform) (v : Object) (d : Call) → Stopped p v (stop_inbound d)
unfolding function_yield stop_inbound
function_yield-Stopped p v d = elim (Bool-cases d.ended) [
  | inl e ↦ (stop_aborted p true (stop_inbound d), ground (arith, e), refl, refl)
  | inr e ↦ (stop_aborted p false (stop_inbound d), ground (arith, e), refl, refl)
]

module _ (p : Platform) (conn : Connection) (first : conn.aborted ≡ false) where
  -- When a connection that was not closed before is closed, and the timeout and the queue of each call
  -- that it made agree as in `Timed`, each of these calls has something in its queue then, so that
  -- rpc_call_wait returns.
  pub close-queue :
      (key : Bytes) (c : Call)
      → All (λ e. Timed e.1) conn.calls
      → find key (close p conn).calls ≡ some c
      → c.queue ≢ []
  unfolding close
  close-queue key c h e =
      let i = find-on_values (fail_outbound p) key conn.calls {b = c} (rw first at e) in
      subst (λ d. d.queue ≢ []) (sym i.2)
        (fail_outbound-queue p i.0 (All-find Timed key conn.calls h i.1))

  -- When a connection that was not closed before is closed, a method that then yields on one of its
  -- inbound calls does not wait for a grant: rpc_function_yield returns -1 and counts no message.
  pub close-function_yield :
      (key : Bytes) (c : Call) (v : Object)
      → find key (close p conn).inbound_calls ≡ some c
      → (t : Turn) × (function_yield p c v ≡ some t)
        × (t.ret ≡ negsuc 0)
        × (t.call.producer_seqno ≡ c.producer_seqno)
  unfolding close
  close-function_yield key c v e =
      let i = find-on_values stop_inbound key conn.inbound_calls {b = c} (rw first at e) in
      subst (Stopped p v) (sym i.2) (function_yield-Stopped p v i.0)
