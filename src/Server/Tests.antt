-- ===== src/Server/Tests.antt =====
-- The theorems on servers at concrete inputs.
use librpc.Object.Types.{nil, array, string}
use librpc.Connection.Calls.{submitted, Dispatched, new_call}
use librpc.Server.Order.{
  closes, serve-arrivals, pauses, resumes, arrivals, call_of, happens, arrives, Settled, serve,
  Event,
}
use librpc.Connection.Call.{Call}
use librpc.Server.{Server}
use librpc.Base.{[], refl, ◌≡◌, ◌∷◌, none, ◌++◌, codes, length, false, Bytes, map, true, List}

abbrev takes_all : Call → Dispatched
takes_all c = submitted

abbrev request : Bytes → Call
unfolding new_call
request id = new_call (string id) none none (codes "ping") (array nil)

abbrev paused_server : Server
paused_server = record { paused = true; closed = false; calls = request (codes "1") ∷ [] }

abbrev events : List Event
events =
    arrives (request (codes "2")) ∷ resumes ∷ arrives (request (codes "3")) ∷ pauses ∷ closes ∷ []

serve-arrivals_example :
    Settled (serve takes_all events paused_server).0
    × (map call_of (serve takes_all events paused_server).1
          ++ (serve takes_all events paused_server).0.calls
        ≡ paused_server.calls ++ arrivals events)
serve-arrivals_example = serve-arrivals takes_all events paused_server refl

-- After the pause a call waits; the resumption hands both on.
handled_count : length (serve takes_all events paused_server).1 ≡ 3
unfolding serve happens new_call
handled_count = refl
