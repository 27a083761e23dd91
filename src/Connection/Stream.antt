-- ===== src/Connection/Stream.antt =====
-- src/rpc_service.c: the operations of a method that runs on an inbound call, rpc_function_respond_impl
-- to rpc_function_set_async_abort_handler_impl. `none` stands for a call that waits on rc_notify.
use librpc.Base.{
  ◌||◌, ℕ, ◌+◌, ◌%◌, Bool, true, not, ◌&&◌, Option, none, some, [], ◌∷◌, Bytes, codes, ◌==◌,
  if◌then◌else◌,
}
use librpc.Base.Int.{ℤ, pos, negsuc}
use librpc.Object.Types.{Object}
use librpc.Object.Platform.{Platform}
use librpc.Object.Value.{error_create}
use librpc.Connection.Frames.{send_errx, send_response, send_start_stream, send_fragment, send_end}
use librpc.Connection.Call.{Call, Turn, seqno_mod, econnreset}

-- `while (producer == consumer && !aborted) notify_wait()`
unfoldable pub must_wait : Call → Bool
must_wait call = (call.producer_seqno == call.consumer_seqno) && not call.aborted

abbrev pub next_seqno : Call → ℕ
next_seqno call = (call.producer_seqno + 1) % seqno_mod

module _ (p : Platform) where
  -- rpc_connection_send_err, with a message that needs no formatting.
  unfoldable pub send_err : Object → ℤ → Bytes → Object
  unfolding send_errx error_create
  send_err id code descr = send_errx id (error_create p.backtrace code descr none)

  -- rpc_function_error_impl
  unfoldable pub function_error : Call → ℤ → Bytes → Turn
  unfolding send_err
  function_error call code message = record {
    ret = pos 0;
    frames = send_err call.id code message ∷ [];
    call = record call { responded = true };
  }

  unfoldable pub function_error_ex : Call → Object → Turn
  unfolding send_errx
  function_error_ex call exception = record {
    ret = pos 0;
    frames = send_errx call.id exception ∷ [];
    call = record call { responded = true };
  }

  -- What an operation does once the call is aborted: an error is sent unless something ended the call.
  unfoldable pub stop_aborted : Bool → Call → Turn
  unfolding function_error
  stop_aborted silent call =
      if silent
      then record { ret = negsuc 0; frames = []; call = call }
      else (let t = function_error call econnreset (codes "Call aborted") in
          record t { ret = negsuc 0; call = record t.call { ended = true } })

  -- rpc_function_respond_impl; the inbound call is closed then.
  unfoldable pub function_respond : Call → Option Object → Turn
  unfolding send_response
  function_respond call object = record {
    ret = pos 0;
    frames = if call.responded then [] else send_response call.id object ∷ [];
    call = call;
  }

  unfoldable pub function_start_stream : Call → Option Turn
  unfolding must_wait stop_aborted send_start_stream
  function_start_stream call =
      if must_wait call
      then none
      else if call.aborted
      then some (stop_aborted call.ended call)
      else some (record {
        ret = pos 0;
        frames = send_start_stream call.id call.producer_seqno ∷ [];
        call = record call { producer_seqno = next_seqno call; streaming = true };
      })

  unfoldable pub function_yield : Call → Object → Option Turn
  unfolding must_wait stop_aborted send_fragment
  function_yield call fragment =
      if must_wait call
      then none
      else if call.aborted
      then some (stop_aborted call.ended call)
      else some (record {
        ret = pos 0;
        frames = send_fragment call.id call.producer_seqno fragment ∷ [];
        call = record call { producer_seqno = next_seqno call; streaming = true };
      })

  -- rpc_function_end_impl; the inbound call is closed then.
  unfoldable pub function_end : Call → Option Turn
  unfolding must_wait stop_aborted send_end
  function_end call =
      if must_wait call
      then none
      else if call.aborted
      then some (stop_aborted (call.ended || call.responded) call)
      else some (record {
        ret = pos 0;
        frames = if call.ended then [] else send_end call.id call.producer_seqno ∷ [];
        call = record call { producer_seqno = next_seqno call; streaming = true; ended = true };
      })

unfoldable pub function_kill : Call → Call
function_kill call = record call { aborted = true }

unfoldable pub function_should_abort : Call → Bool
function_should_abort call = call.aborted

unfoldable pub function_set_async_abort_handler : Call → Call
function_set_async_abort_handler call = record call { abort_handler = true }
