-- ===== src/Connection/References.antt =====
-- src/rpc_connection.c: lists of subscriptions: their lengths, and the reference counts in them.
use librpc.Base.Int.{to_uint32, to_int32, eqb_ℤ, ℤ, negsuc, pos, ◌+ℤ◌}
use librpc.Connection.State.{Subscription}
use librpc.Connection.Subscriptions.{
  fresh, adjust_at, no_refs, take_out, add_ref, find_subscription,
}
use librpc.Base.{
  lt→ltb, ltb, ◌%◌, ◌^◌, ◌≤◌, refl, zero, ap, false, [], suc, arith, true, some, ◌+◌, ◌∷◌,
  get_elem?, ◌≡◌, ◌++◌, Bytes, length, All, ◌<◌, Option, ℕ, List,
}

-- A count from 1 to the limit.
abbrev InCount : ℕ → ℤ → Type 0
InCount m (pos n) = (0 < n) × (n ≤ m)
InCount m (negsuc n) = ⊥

abbrev pub Referenced : ℕ → Subscription → Type 0
Referenced m sub = InCount m sub.refcount

pub fresh-Referenced :
    (m : ℕ) (path interface name : Option Bytes) → Referenced (m + 1) (fresh path interface name)
unfolding fresh
fresh-Referenced m path interface name = (omega arith, omega arith)

InCount-le : (m k : ℕ) (r : ℤ) → m ≤ k → InCount m r → InCount k r
InCount-le m k (pos n) l h = (h.0, omega (arith, h.1))
InCount-le m k (negsuc n) l h = absurd h

pub All-Referenced-le :
    (m k : ℕ) (subs : List Subscription) → m ≤ k → All (Referenced m) subs → All (Referenced k) subs
All-Referenced-le m k [] l h = tt
All-Referenced-le m k (s ∷ rest) l h =
    (InCount-le m k s.refcount l h.0, All-Referenced-le m k rest l h.1)

InCount-suc :
    (m : ℕ) (r : ℤ)
    → m + 1 < 2 ^ 31
    → InCount m r
    → InCount (m + 1) (to_int32 (to_uint32 (r +ℤ pos 1)))
unfolding ◌+ℤ◌
InCount-suc m (pos n) b h =
    let same : (n + 1) % 2 ^ 32 % 2 ^ 32 ≡ n + 1 = omega (arith, h.1) in
    let low : ltb (n + 1) (2 ^ 31) ≡ true = lt→ltb (n + 1) (2 ^ 31) (omega (arith, h.1)) in
    rw (same, low) (omega (arith, h.1), omega (arith, h.1))
InCount-suc m (negsuc n) b h = absurd h

-- One reference less leaves none, or a count in the range.
InCount-pred :
    (m : ℕ) (r : ℤ)
    → m < 2 ^ 31
    → InCount m r
    → eqb_ℤ (to_int32 (to_uint32 (r +ℤ negsuc 0))) (pos 0) ≡ false
    → InCount m (to_int32 (to_uint32 (r +ℤ negsuc 0)))
unfolding ◌+ℤ◌
InCount-pred m (pos zero) b h e = absurd (omega (arith, h.0))
InCount-pred m (pos (suc zero)) b h e = absurd (ground (arith, e))
InCount-pred m (pos (suc (suc n))) b h e =
    let down : pos (suc (suc n)) +ℤ negsuc 0 ≡ pos (suc n) = ground arith in
    let same : suc n % 2 ^ 32 % 2 ^ 32 ≡ suc n = omega (arith, h.1) in
    let low : ltb (suc n) (2 ^ 31) ≡ true = lt→ltb (suc n) (2 ^ 31) (omega (arith, h.1)) in
    rw (down, same, low) (omega arith, omega (arith, h.1))
InCount-pred m (negsuc n) b h e = absurd h

pub find_subscription-lt :
    (path interface name : Option Bytes) (subs : List Subscription) {i : ℕ}
    → find_subscription path interface name subs ≡ some i
    → i < length subs
unfolding find_subscription
find_subscription-lt path interface name [] e = cc
find_subscription-lt path interface name (s ∷ rest) {i = zero} e = omega arith
find_subscription-lt path interface name (s ∷ rest) {i = suc i} e =
    ground (arith, e, find_subscription-lt path interface name rest {i = i})

pub length-adjust_at :
    (i : ℕ) (f : Subscription → Subscription) (subs : List Subscription)
    → length (adjust_at i f subs) ≡ length subs
length-adjust_at i f [] = refl
length-adjust_at zero f (s ∷ rest) = refl
length-adjust_at (suc i) f (s ∷ rest) = ap suc (length-adjust_at i f rest)

pub length-take_out :
    (i : ℕ) (subs : List Subscription)
    → i < length subs
    → length (take_out i subs) + 1 ≡ length subs
length-take_out i [] h = absurd (omega arith)
length-take_out zero (s ∷ rest) h = omega arith
length-take_out (suc i) (s ∷ rest) h = omega (arith, length-take_out i rest (omega arith))

pub All-snoc :
    (P : Subscription → Type 0) (subs : List Subscription) (s : Subscription)
    → All P subs
    → P s
    → All P (subs ++ s ∷ [])
All-snoc P [] s h k = (k, tt)
All-snoc P (x ∷ rest) s h k = (h.0, All-snoc P rest s h.1 k)

-- One more reference.
pub All-adjust_at :
    (m i : ℕ) (subs : List Subscription)
    → m + 1 < 2 ^ 31
    → All (Referenced m) subs
    → All (Referenced (m + 1)) (adjust_at i (add_ref (pos 1)) subs)
unfolding add_ref
All-adjust_at m i [] b h = tt
All-adjust_at m zero (s ∷ rest) b h =
    (InCount-suc m s.refcount b h.0, All-Referenced-le m (m + 1) rest (omega arith) h.1)
All-adjust_at m (suc i) (s ∷ rest) b h =
    (InCount-le m (m + 1) s.refcount (omega arith) h.0, All-adjust_at m i rest b h.1)

-- One reference less, where some are left.
pub All-drop_ref :
    (m i : ℕ) (subs : List Subscription)
    → m < 2 ^ 31
    → All (Referenced m) subs
    → no_refs (get_elem? (adjust_at i (add_ref (negsuc 0)) subs) i) ≡ false
    → All (Referenced m) (adjust_at i (add_ref (negsuc 0)) subs)
unfolding add_ref
All-drop_ref m i [] b h e = tt
All-drop_ref m zero (s ∷ rest) b h e = (InCount-pred m s.refcount b h.0 e, h.1)
All-drop_ref m (suc i) (s ∷ rest) b h e = (h.0, All-drop_ref m i rest b h.1 e)

pub All-take_out :
    (m : ℕ) (f : Subscription → Subscription) (i : ℕ) (subs : List Subscription)
    → All (Referenced m) subs
    → All (Referenced m) (take_out i (adjust_at i f subs))
All-take_out m f i [] h = tt
All-take_out m f zero (s ∷ rest) h = h.1
All-take_out m f (suc i) (s ∷ rest) h = (h.0, All-take_out m f i rest h.1)
