-- ===== src/Service/Worker.antt =====
-- src/rpc_service.c: rpc_context_tp_handler: how a worker thread runs the method of a call.
pub mod Answers
pub mod RoundTrip
use librpc.Service.Registry.{enoent}
use librpc.Connection.Stream.{function_end, function_respond, function_error}
use librpc.Connection.Call.{Call, Turn}
use librpc.Object.Platform.{Platform}
use librpc.Object.Types.{Object}
use librpc.Base.{
  ◌&&◌, is_some, codes, true, not, false, [], if◌then◌else◌, some, ◌||◌, All, none, ◌++◌, Bool,
  Option, List,
}

-- What a method gives back: RPC_FUNCTION_STILL_RUNNING, or an object or NULL.
pub data Result : Type 0 where
  still_running : Result
  returned : Option Object → Result

-- A run of a method or of a whole call: the frames sent, the call that it leaves, and whether
-- rpc_connection_close_inbound_call was called.
pub record Run : Type 0 where
  pub frames : List Object
  pub call : Call
  pub closed : Bool

-- The hooks of a context.
pub record Hooks : Type 0 where
  pub pre_call : Option (Call → Run)
  pub post_call : Option (Call → Result → Run)

abbrev pub after : Run → Run → Run
after a b = record { frames = a.frames ++ b.frames; call = b.call; closed = a.closed || b.closed }

abbrev pub ran : Bool → Turn → Run
ran closes t = record { frames = t.frames; call = t.call; closed = closes }

abbrev pub or_result : Result → Option Object
or_result still_running = none
or_result (returned o) = o

-- What is run where there is something to run.
abbrev pub run_hook : Option (Call → Run) → Call → Run
run_hook none call = record { frames = []; call = call; closed = false }
run_hook (some hook) call = hook call

abbrev pub run_post : Option (Call → Result → Run) → Result → Call → Run
run_post none result call = record { frames = []; call = call; closed = false }
run_post (some hook) result call = hook call result

module _ (p : Platform) where
  -- The answer to a call whose method returned; none where the end of a stream waits for a grant.
  unfoldable pub finish : Call → Result → Option Run
  unfolding function_respond function_end
  finish call result =
      if call.streaming
      then (if call.ended
          then some (record { frames = []; call = call; closed = false })
          else elim (function_end p call) [ none ↦ none | some t ↦ some (ran true t) ])
      else some (ran true (function_respond p call (or_result result)))

  abbrev then_finish : Run → Result → Option Run
  then_finish r result = elim (finish r.call result) [ none ↦ none | some f ↦ some (after r f) ]

  -- After the method; a hook that has answered the call ends it.
  unfoldable pub run_result : Option (Call → Result → Run) → Run → Result → Option Run
  unfolding finish
  run_result post r still_running = some r
  run_result none r (returned o) = then_finish r (returned o)
  run_result (some hook) r (returned o) =
      let s = after r (hook r.call (returned o)) in
      if s.call.responded then some s else then_finish s (returned o)

  -- `connected` is rpc_connection_is_open, and the method what the dispatch found.
  unfoldable pub tp_handler : Bool → Hooks → Option (Call → Run × Result) → Call → Option Run
  unfolding function_error run_result
  tp_handler connected hooks method call =
      if call.aborted || not connected
      then some (record { frames = []; call = call; closed = true })
      else elim method [
        | none ↦ some (ran true (function_error p call enoent (codes "Method not found")))
        | some block ↦
            let started = record call { consumer_seqno = 1 } in
            let before = run_hook hooks.pre_call started in
            let stop = is_some hooks.pre_call && before.call.responded in
            let r = block before.call in
            if stop then some before else run_result hooks.post_call (after before r.0) r.1
      ]
