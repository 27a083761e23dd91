-- ===== src/Service/Tests.antt =====
-- The theorems on the registry at concrete inputs.
use librpc.Base.Int.{negsuc, pos}
use librpc.Service.Worker.RoundTrip.{connection_dispatch-tp_handler}
use librpc.Connection.Frames.{send_start_stream, or_null}
use librpc.Connection.Dispatch.{connection_dispatch}
use librpc.Connection.State.{Connection}
use librpc.Object.Tests.{test_platform}
use librpc.Service.Worker.Answers.{left_open, tp_handler-answers, answers}
use librpc.Connection.Stream.{function_error, must_wait}
use librpc.Service.Worker.{returned, tp_handler, Result, Run}
use librpc.Service.Members.{find_method-register_instance, find_member-register_member}
use librpc.Service.Dispatch.{context_dispatch, method_found, register_instance, find_method}
use librpc.Object.Types.{null, Object, nil, array, string}
use librpc.Connection.Call.{call_result, call_success, Link, Call}
use librpc.Service.Registry.{
  method_member, default_interface, has_interface, register_member, Instance, find_member, Context,
  path_is_valid,
}
use librpc.Connection.Calls.{submitted, new_call}
use librpc.Base.{
  ok, not, ◌||◌, ◌&&◌, if◌then◌else◌, false, refl, ◌∷◌, true, some, none, ◌≡◌, bytes_eq, codes, [],
  find,
}

abbrev service : Instance
service = record {
  path = codes "/disk";
  interfaces = (default_interface, []) ∷ [];
  registered = false;
  destroyed = false;
}

abbrev empty : Context
empty = record { instances = []; emit_queue = [] }

find_member-register_member_example :
    (find_member
        (register_member service none (codes "read") (method_member 9)).0
        none
        (some (codes "read"))
      ≡ (if has_interface service default_interface
            && (bytes_eq default_interface default_interface
                && bytes_eq (codes "read") (codes "read"))
          then some (method_member 9)
          else find_member service none (some (codes "read"))))
    × ((register_member service none (codes "read") (method_member 9)).1
        ≡ (if has_interface service default_interface then pos 0 else negsuc 0))
    × (has_interface service default_interface ≡ false
        → (register_member service none (codes "read") (method_member 9)).0 ≡ service)
find_member-register_member_example =
    find_member-register_member service none none (codes "read") (codes "read") (method_member 9)

abbrev request : Call
unfolding new_call
request = new_call (string (codes "1")) (some (codes "/disk")) none (codes "read") (array nil)

find_method-register_instance_example :
    (find_method
        (register_instance empty
          (register_member service none (codes "read") (method_member 9)).0).0
        request
      ≡ method_found 9)
    × (context_dispatch
          (register_instance empty
            (register_member service none (codes "read") (method_member 9)).0).0
          request
        ≡ submitted)
unfolding find has_interface new_call bytes_eq
find_method-register_instance_example =
    find_method-register_instance empty service (codes "read") 9 request refl refl refl refl refl
      refl

new_instance : path_is_valid (codes "/disk") ≡ true
unfolding path_is_valid
new_instance = refl

-- A method that returns NULL at once.
abbrev block : Call → Run × Result
block c = (record { frames = []; call = c; closed = false }, returned none)

-- A method that started a stream, was granted more, and reports an error.
abbrev failing : Call → Run × Result
failing c =
    let granted = record c { streaming = true; producer_seqno = 1; consumer_seqno = 5 } in
    let t = function_error test_platform granted (pos 5) (codes "broken") in
    (
      record { frames = send_start_stream c.id 0 ∷ t.frames; call = t.call; closed = false },
      returned none,
    )

tp_handler-answers_example :
    (a : Run) × (tp_handler test_platform true
        (record { pre_call = none; post_call = none })
        (some failing)
        request
      ≡ some a)
    × (answers a.frames ≡ (
        if left_open (failing (record request { consumer_seqno = 1 })).0.call
          && not (failing (record request { consumer_seqno = 1 })).0.call.aborted
        then 2
        else 1))
    × (a.closed ≡ (
        (failing (record request { consumer_seqno = 1 })).0.closed
        || not (
            (failing (record request { consumer_seqno = 1 })).0.call.streaming
            && (failing (record request { consumer_seqno = 1 })).0.call.ended)))
unfolding new_call must_wait answers function_error send_start_stream bytes_eq
tp_handler-answers_example =
    tp_handler-answers test_platform request failing none refl refl
      (record { answered = refl; ended_streams = refl }) refl

-- So its caller gets the error and the end of the stream.
failing_answers : left_open (failing request).0.call ≡ true
unfolding new_call function_error left_open
failing_answers = refl

abbrev takes_all : Link
takes_all = record { accepts = λ _. true; last_error = null }

-- The caller's end: one call waits.
abbrev caller : Connection
caller = record {
  context = false;
  server = false;
  error_handler = false;
  transport_failure = none;
  closed = false;
  aborted = false;
  calls = (codes "1", request) ∷ [];
  inbound_calls = [];
  subscriptions = [];
  watching = false;
  sent = [];
  reports = [];
  work = [];
  aborts = [];
}

-- A method that returns a string at once.
abbrev reading : Call → Run × Result
reading c =
    (record { frames = []; call = c; closed = false }, returned (some (string (codes "data"))))

connection_dispatch-tp_handler_example :
    (frame : Object) × (a : Run) × (c : Connection) × (d : Call) × (tp_handler test_platform true
        (record { pre_call = none; post_call = none })
        (some reading)
        request
      ≡ some a)
    × (a.frames ≡ frame ∷ [])
    × (connection_dispatch test_platform takes_all (λ _. submitted) frame caller ≡ ok c)
    × (find (codes "1") c.calls ≡ some d)
    × (call_success d ≡ true)
    × (call_result d ≡ some (or_null (some (string (codes "data")))))
unfolding find new_call bytes_eq
connection_dispatch-tp_handler_example =
    connection_dispatch-tp_handler test_platform takes_all (λ _. submitted) (codes "1")
      (some (string (codes "data"))) request request reading caller refl refl refl refl refl refl
      refl refl
