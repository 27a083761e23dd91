-- ===== src/Server/Order.antt =====
-- src/rpc_server.c: the order in which a server handles its calls.
use mathlib.Core.List.{append_assoc, map-append, append-nil}
use librpc.Connection.Calls.{Dispatched}
use librpc.Connection.Call.{Call}
use librpc.Server.{
  server_pause, server_close, server_resume, server_dispatch, queue_purge, Dispatched, Handled,
  Server,
}
use librpc.Base.{
  ◌∙◌, not, ◌||◌, sym, length, if◌then◌else◌, true, false, refl, ap, arith, ◌≡◌, Bool, ◌++◌, [],
  map, ◌∷◌, List,
}

-- What happens to a server: a call arrives, or the program pauses, resumes or closes it.
pub data Event : Type 0 where
  arrives : Call → Event
  pauses resumes closes : Event

abbrev pub call_of : Handled → Call
call_of h = h.call

abbrev pub arrivals : List Event → List Call
arrivals [] = []
arrivals (arrives call ∷ events) = call ∷ arrivals events
arrivals (e ∷ events) = arrivals events

-- Calls wait only while the server is paused and not closed.
abbrev pub Settled : Server → Type 0
Settled s = (if s.closed || not s.paused then length s.calls else 0) ≡ 0

nil_of_length : (l : List Call) → length l ≡ 0 → l ≡ []
nil_of_length [] h = refl
nil_of_length (x ∷ l) h = absurd (omega arith)

module _ (dispatch : Call → Dispatched) where
  unfoldable pub happens : Event → Server → Server × List Handled
  unfolding server_dispatch server_resume server_close server_pause
  happens (arrives call) s = let r = server_dispatch dispatch s call in (r.0, r.2)
  happens pauses s = (server_pause s, [])
  happens resumes s = server_resume dispatch s
  happens closes s = server_close dispatch s

  unfoldable pub serve : List Event → Server → Server × List Handled
  serve [] s = (s, [])
  serve (e ∷ events) s =
      let r = happens e s in let later = serve events r.0 in (later.0, r.1 ++ later.1)

  queue_purge-calls :
      (closed : Bool) (calls : List Call) → map call_of (queue_purge dispatch closed calls) ≡ calls
  unfolding queue_purge
  queue_purge-calls closed [] = refl
  queue_purge-calls closed (call ∷ calls) =
      ap (λ (l : List Call). call ∷ l) (queue_purge-calls closed calls)

  happens_lem :
      (e : Event) (s : Server)
      → Settled s
      → Settled (happens e s).0
        × (map call_of (happens e s).1 ++ (happens e s).0.calls ≡ s.calls ++ arrivals (e ∷ []))
  unfolding happens
  happens_lem (arrives call) s h = ground (arith, h, append-nil s.calls, nil_of_length s.calls)
  happens_lem pauses s h = ground (arith, h, append-nil s.calls)
  happens_lem resumes s h = ground (arith, h, queue_purge-calls false s.calls, append-nil s.calls)
  happens_lem closes s h = ground (arith, h, queue_purge-calls true s.calls, append-nil s.calls)

  arrivals-cons :
      (e : Event) (events : List Event)
      → arrivals (e ∷ events) ≡ arrivals (e ∷ []) ++ arrivals events
  arrivals-cons (arrives call) events = refl
  arrivals-cons pauses events = refl
  arrivals-cons resumes events = refl
  arrivals-cons closes events = refl

  -- Whatever happens to a server whose calls wait only while it is paused and not closed: the calls
  -- that were handled, in the order of handling, and then those that wait are the calls that waited at
  -- first and then those that arrived, in the order of arrival; and calls still wait only while the
  -- server is paused and not closed.
  pub serve-arrivals :
      (events : List Event) (s : Server)
      → Settled s
      → Settled (serve events s).0
        × (map call_of (serve events s).1 ++ (serve events s).0.calls ≡ s.calls ++ arrivals events)
  unfolding serve
  serve-arrivals [] s h = (h, sym (append-nil s.calls))
  serve-arrivals (e ∷ events) s h =
      let (k, one) = happens_lem e s h in
      let r = happens e s in
      let (l, more) = serve-arrivals events r.0 k in
      (
        l,
        ap (λ (x : List Call). x ++ (serve events r.0).0.calls)
              (map-append call_of r.1 (serve events r.0).1)
            ∙ append_assoc (map call_of r.1) (map call_of (serve events r.0).1)
                (serve events r.0).0.calls
            ∙ ap (λ (x : List Call). map call_of r.1 ++ x) more
            ∙ sym (append_assoc (map call_of r.1) r.0.calls (arrivals events))
            ∙ ap (λ (x : List Call). x ++ arrivals events) one
            ∙ append_assoc s.calls (arrivals (e ∷ [])) (arrivals events)
            ∙ ap (λ (x : List Call). s.calls ++ x) (sym (arrivals-cons e events)),
      )
