-- ===== src/Connection/Flow/Credit.antt =====
-- src/rpc_connection.c and src/rpc_service.c: what the counters of a stream say at every moment.
use librpc.Connection.Stream.{function_kill}
use librpc.Object.Value.{int64_get_value}
use librpc.Object.Dictionary.{insert, lookup, dictionary_get_value}
use librpc.Object.Types.{Object}
use librpc.Base.Int.{pos, ℤ, to_int64}
use librpc.Connection.Frames.{send_continue}
use librpc.Base.{inr, inl, suc, refl}
use librpc.Connection.Flow.Counters.{hear_lem, continue_lem, take_lem, send_lem}
use librpc.Connection.Call.{Call, unpack_int64, Link}
use librpc.Connection.Flow.Order.{InOrder}
use librpc.Connection.Flow.{
  function_kill, kills, send_continue, Object, hears, grants, consumes, arrives, item_of, sends,
  Step, Link, Stream,
}
use librpc.Object.Platform.{Platform}
use librpc.Base.{
  codes, bytes_eq, sym, ◌∙◌, map, [], ◌∷◌, length-map, ap, ◌^◌, length-append, arith, ◌≤◌, ◌<◌, ◌+◌,
  length, ◌++◌, ◌≡◌, ℕ, List,
}

-- What the grants on the way add to the limit.
abbrev pub increments : List (ℕ × ℕ) → ℕ
increments [] = 0
increments ((seqno, n) ∷ rest) = n + increments rest

increments-append : (xs ys : List (ℕ × ℕ)) → increments (xs ++ ys) ≡ increments xs + increments ys
increments-append [] ys = omega arith
increments-append ((seqno, n) ∷ xs) ys = omega (arith, increments-append xs ys)

-- The counters, as long as they do not wrap around.
pub record Credit (prefetch : ℕ) (s : Stream) : Type 0 where
  pub prefetch_set : s.client.prefetch ≡ prefetch
  pub sent : s.server.producer_seqno ≡ length s.log
  pub taken : s.client.consumer_seqno ≡ length s.consumed
  pub granted : s.server.consumer_seqno + increments s.up ≡ s.client.producer_seqno + 1
  pub under : s.server.producer_seqno ≤ s.server.consumer_seqno
  pub behind : s.client.consumer_seqno ≤ s.client.producer_seqno
  pub ahead : s.client.producer_seqno + 1 ≤ s.client.consumer_seqno + prefetch

abbrev pub InRange : ℕ → Stream → Type 0
InRange prefetch s = length s.log + prefetch + 2 < 2 ^ 64

pub lengths :
    (s : Stream)
    → InOrder s
    → length s.log ≡ length s.consumed + length s.client.queue + length s.down
lengths s h = omega (
  arith,
  ap length h.order,
  length-map s.log item_of,
  length-map s.down item_of,
  length-append s.consumed (s.client.queue ++ map item_of s.down),
  length-append s.client.queue (map item_of s.down),
)

increment_of : Object → ℤ
unfolding unpack_int64 dictionary_get_value lookup bytes_eq
increment_of frame =
    unpack_int64 (dictionary_get_value frame (codes "args")) (codes "increment") (pos 1)

increment_of-send_continue :
    (id : Object) (seqno n : ℕ) → increment_of (send_continue id seqno n) ≡ to_int64 n
unfolding increment_of send_continue dictionary_get_value lookup insert bytes_eq int64_get_value
increment_of-send_continue id seqno n = refl

to_int64_small : (a b : ℕ) → b + 1 < 2 ^ 64 → to_int64 a ≡ to_int64 b → a ≡ b
to_int64_small a b h e = ground (arith, e)

-- A grant is of the increment that its frame carries.
same_increment :
    (id : Object) (seqno n seqno' n' : ℕ)
    → n' + 1 < 2 ^ 64
    → send_continue id seqno n ∷ [] ≡ send_continue id seqno' n' ∷ []
    → n ≡ n'
same_increment id seqno n seqno' n' h e = to_int64_small n n' h (
    sym (increment_of-send_continue id seqno n)
    ∙ ap increment_of {x = send_continue id seqno n} {y = send_continue id seqno' n'} (cc)
    ∙ increment_of-send_continue id seqno' n')

module _ {p : Platform} {link : Link} where
  pub Step-log : {s t : Stream} → Step p link s t → length s.log ≤ length t.log
  Step-log {s} (sends m t sent r f) = omega (arith, length-append s.log (m ∷ []))
  Step-log (arrives m rest e) = omega arith
  Step-log (consumes q rest t e k r f) = omega arith
  Step-log (grants q rest seqno increment t e k r f) = omega arith
  Step-log (hears seqno increment rest e) = omega arith
  Step-log kills = omega arith

  pub Step-Credit :
      {prefetch : ℕ} {s t : Stream}
      → Step p link s t
      → InOrder s
      → InRange prefetch t
      → Credit prefetch s
      → Credit prefetch t
  unfolding function_kill
  Step-Credit {s} (sends m t sent r f) o fits h =
      let l = length-append s.log (m ∷ []) in
      let c = send_lem p m s.server t sent r in
      record {
        prefetch_set = h.prefetch_set;
        sent = ground arith;
        taken = h.taken;
        granted = ground arith;
        under = ground arith;
        behind = h.behind;
        ahead = h.ahead;
      }
  Step-Credit {s} (arrives m rest e) o fits h =
      let c = take_lem m s.client o.in_time in
      record {
        prefetch_set = c.prefetch ∙ h.prefetch_set;
        sent = h.sent;
        taken = c.consumer ∙ h.taken;
        granted = omega (arith, h.granted, c.producer);
        under = h.under;
        behind = omega (arith, h.behind, c.producer, c.consumer);
        ahead = omega (arith, h.ahead, c.producer, c.consumer);
      }
  Step-Credit {s} (consumes q rest t e k r f) o fits h =
      let c = continue_lem link s.client q rest t e k r in
      let l = length-append s.consumed (q ∷ []) in
      let n = lengths s o in
      let room : length s.client.queue ≡ suc (length rest) = ap length e in
      let u = c.taken in
      elim (c.granted) [
        | inl (fr, ne, pr) ↦ record {
          prefetch_set = c.prefetch ∙ h.prefetch_set;
          sent = h.sent;
          taken = omega arith;
          granted = omega arith;
          under = h.under;
          behind = omega arith;
          ahead = omega arith;
        }
        | inr (eq, fr, pr) ↦ cc
      ]
  Step-Credit {s} (grants q rest seqno increment t e k r f) o fits h =
      let c = continue_lem link s.client q rest t e k r in
      let l = length-append s.consumed (q ∷ []) in
      let n = lengths s o in
      let i = increments-append s.up ((seqno, increment) ∷ []) in
      let room : length s.client.queue ≡ suc (length rest) = ap length e in
      let u = c.taken in
      elim (c.granted) [
        | inl (fr, ne, pr) ↦ cc
        | inr (eq, fr, pr) ↦
            let v : increment ≡ s.client.prefetch =
              same_increment s.client.id _ _ _ _ (omega arith) (sym f ∙ fr) in
            record {
              prefetch_set = c.prefetch ∙ h.prefetch_set;
              sent = h.sent;
              taken = omega arith;
              granted = omega arith;
              under = h.under;
              behind = omega arith;
              ahead = omega arith;
            }
      ]
  Step-Credit {s} (hears seqno increment rest e) o fits h =
      let n = lengths s o in
      let l : increments s.up ≡ increment + increments rest = ap increments e in
      let c = hear_lem seqno increment s.server (omega arith) in
      let pr = ap (λ (d : Call). d.producer_seqno) c in
      let cs = ap (λ (d : Call). d.consumer_seqno) c in
      record {
        prefetch_set = h.prefetch_set;
        sent = pr ∙ h.sent;
        taken = h.taken;
        granted = omega arith;
        under = omega arith;
        behind = h.behind;
        ahead = h.ahead;
      }
  Step-Credit kills o fits h = record {
    prefetch_set = h.prefetch_set;
    sent = h.sent;
    taken = h.taken;
    granted = h.granted;
    under = h.under;
    behind = h.behind;
    ahead = h.ahead;
  }
