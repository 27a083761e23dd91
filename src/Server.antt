-- ===== src/Server.antt =====
-- src/rpc_server.c: the queue of calls of a server that is paused, resumed and closed.
pub mod Order
pub mod Tests
use librpc.Connection.Call.{econnreset, Call}
use librpc.Connection.Calls.{submitted, refused, Dispatched}
use librpc.Base.{
  ◌++◌, ◌==◌, length, codes, not, false, some, ◌||◌, ◌∷◌, true, [], All, Bool, if◌then◌else◌, List,
}

-- struct rpc_server: what the dispatch of calls reads and writes.
pub record Server : Type 0 where
  pub paused : Bool
  pub closed : Bool
  pub calls : List Call

-- A call that left the server's hands, and what became of it.
pub record Handled : Type 0 where
  pub call : Call
  pub outcome : Dispatched

abbrev pub not_active : Dispatched
not_active = refused (some (econnreset, codes "Server not active"))

module _ (dispatch : Call → Dispatched) where
  -- rpc_server_dispatch: the server, what it returns, and the call where it did not keep it. A refused
  -- call is answered and closed by on_rpc_call.
  unfoldable pub server_dispatch : Server → Call → Server × Dispatched × List Handled
  server_dispatch server call =
      if server.closed
      then (server, not_active, record { call = call; outcome = not_active } ∷ [])
      else if server.paused || not (length server.calls == 0)
      then (record server { calls = server.calls ++ call ∷ [] }, submitted, [])
      else (server, dispatch call, record { call = call; outcome = dispatch call } ∷ [])

  -- server_queue_purge; the calls that are refused are answered and closed here.
  unfoldable pub queue_purge : Bool → List Call → List Handled
  queue_purge closed [] = []
  queue_purge closed (call ∷ calls) =
      let rest = queue_purge closed calls in
      record { call = call; outcome = if closed then not_active else dispatch call } ∷ rest

  unfoldable pub server_resume : Server → Server × List Handled
  unfolding queue_purge
  server_resume server =
      if server.closed
      then (server, [])
      else (record server { paused = false; calls = [] }, queue_purge false server.calls)

  -- rpc_server_close, as far as the calls go, where the transport has a teardown.
  unfoldable pub server_close : Server → Server × List Handled
  unfolding queue_purge
  server_close server = (record server { closed = true; calls = [] }, queue_purge true server.calls)

unfoldable pub server_pause : Server → Server
server_pause server = if server.closed then server else record server { paused = true }
