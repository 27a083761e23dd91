-- ===== src/Connection/Tests.antt =====
-- The theorems on connections at concrete inputs.
use librpc.Object.Value.{c_string}
use librpc.Service.Registry.{method_member, Context, default_interface}
use librpc.Service.Dispatch.{find_method, context_dispatch}
use librpc.Connection.Descriptors.Travel.{restore_fds-serialize_fds, last_or}
use librpc.Connection.Watching.{on_events-Served, Served}
use librpc.Connection.Closing.{close-function_yield, close-queue}
use librpc.Connection.Requests.{
  arrived, connection_dispatch-refused, connection_dispatch-call_frame, Received,
}
use librpc.Connection.Events.{on_events_unsubscribe, on_events_subscribe}
use librpc.Connection.Timeouts.{TimesOut, answered, fires, begun, goes_on, CallReach-TimesOut}
use librpc.Connection.Descriptors.{descriptors, restore_fds, serialize_fds}
use librpc.Connection.Delivery.{connection_dispatch-send_continue, connection_dispatch-frame_of}
use librpc.Connection.Flow.Order.{map-log}
use librpc.Connection.Flow.Limits.{function_yield_goes_on, length-queue_le_prefetch}
use librpc.Base.Int.{negsuc, pos}
use librpc.Connection.Frames.{send_fragment, send_continue}
use librpc.Connection.Dispatch.{connection_dispatch}
use librpc.Object.Types.{end, field, fd, dictionary, cons, nil, array, string, int64, null}
use librpc.Connection.Stream.{send_err, function_yield}
use librpc.Connection.Calls.{
  stop_inbound, fail_outbound, call_frame, close, refused, submitted, Dispatched,
}
use librpc.Connection.State.{connection_is_open, Connection}
use librpc.Object.Tests.{test_platform}
use librpc.Connection.Call.{
  call_timeout, call_done, receive, inbound_call, outbound_call, Link, Turn, Call,
}
use librpc.Connection.Flow.{
  arrives, sends, here, frame_of, next, take_message, item_of, Reach, fragment, send_message,
  Message, Stream, Begins,
}
use librpc.Object.Tests.{test_platform}
use librpc.Base.{
  replicate, if◌then◌else◌, Bytes, ◌≢◌, Leaves, ◌^◌, ◌%◌, put, ok, ◌++◌, some, codes, false, ◌∷◌,
  ◌≡◌, refl, ◌≤◌, none, arith, [], true, ◌+◌, bytes_eq, map, length, find,
}

abbrev link : Link
link = record { accepts = λ f. true; last_error = null }

abbrev takes_all : Call → Dispatched
takes_all c = submitted

abbrev call : Call
call = record {
  type = outbound_call;
  path = none;
  interface = none;
  method_name = codes "m";
  id = string (codes "7");
  args = array nil;
  err = none;
  queue = [];
  prefetch = 2;
  producer_seqno = 0;
  consumer_seqno = 0;
  timeout = true;
  timedout = false;
  callback = true;
  abort_handler = false;
  streaming = false;
  responded = false;
  ended = false;
  aborted = false;
}

abbrev running : Call
running = record call { type = inbound_call; timeout = false; callback = false; consumer_seqno = 1 }

abbrev conn : Connection
conn = record {
  context = true;
  server = true;
  error_handler = true;
  transport_failure = none;
  closed = false;
  aborted = false;
  calls = (codes "7", call) ∷ [];
  inbound_calls = (codes "9", running) ∷ [];
  subscriptions = [];
  watching = false;
  sent = [];
  reports = [];
  work = [];
  aborts = [];
}

abbrev first : Stream
first = record { server = running; client = call; down = []; up = []; log = []; consumed = [] }

first-Begins : Begins 2 first
first-Begins = record {
  room = omega arith;
  prefetch_set = refl;
  first_grant = refl;
  nothing_sent = refl;
  client_even = refl;
  none_taken = refl;
  in_time = refl;
  queue_empty = refl;
  down_empty = refl;
  up_empty = refl;
  log_empty = refl;
  consumed_empty = refl;
}

-- A fragment is sent, and arrives.
abbrev item : Message
item = fragment 0 (int64 (pos 5))

abbrev sent_one : Stream
sent_one = record first {
  server = record running { producer_seqno = 1; streaming = true };
  down = item ∷ [];
  log = item ∷ [];
}

abbrev got_one : Stream
got_one = record sent_one { client = take_message item call; down = [] }

got_one-Reach : Reach test_platform link first got_one
unfolding send_message
got_one-Reach =
    next {t = sent_one}
      (next here (
        sends item
          (record {
            ret = pos 0;
            frames = frame_of running.id item ∷ [];
            call = record running { producer_seqno = 1; streaming = true };
          })
          refl refl refl))
      (arrives item [] refl)

map-log_example :
    map item_of got_one.log ≡ got_one.consumed ++ (got_one.client.queue ++ map item_of got_one.down)
map-log_example = map-log 2 first got_one first-Begins got_one-Reach

length-queue_le_prefetch_example :
    (length got_one.client.queue + length got_one.down ≤ 2)
    × (got_one.server.producer_seqno ≡ length got_one.log)
    × (got_one.client.consumer_seqno ≡ length got_one.consumed)
length-queue_le_prefetch_example =
    length-queue_le_prefetch 2 first got_one first-Begins got_one-Reach (omega arith)

function_yield_goes_on_example :
    (u : Turn) × (function_yield test_platform first.server null ≡ some u)
    × (u.frames ≡ send_fragment first.server.id (length first.log) null ∷ [])
    × (u.ret ≡ pos 0)
function_yield_goes_on_example =
    function_yield_goes_on {p = test_platform} {link = link} 2 first first first-Begins (here)
      (omega arith) refl refl refl refl null

connection_dispatch-frame_of_example :
    (c : Connection) × (connection_dispatch test_platform link takes_all
        (frame_of (string (codes "7")) item)
        conn
      ≡ ok c)
    × (c.calls ≡ put (codes "7") (take_message item call) conn.calls)
    × (c.inbound_calls ≡ conn.inbound_calls)
unfolding find bytes_eq
connection_dispatch-frame_of_example =
    connection_dispatch-frame_of test_platform link takes_all (codes "7") item call conn refl

connection_dispatch-send_continue_example :
    connection_dispatch test_platform link takes_all (send_continue (string (codes "9")) 1 4) conn
    ≡ ok (record conn {
      inbound_calls =
          put (codes "9") (record running { consumer_seqno = (1 + 4) % 2 ^ 64 }) conn.inbound_calls;
    })
unfolding find bytes_eq
connection_dispatch-send_continue_example =
    connection_dispatch-send_continue test_platform link takes_all (codes "9") 1 4 running conn
      (omega arith) refl

-- A context whose only instance, at "/", has the method "ping".
abbrev served : Context
served = record {
  instances =
      (
        codes "/",
        record {
          path = codes "/";
          interfaces = (default_interface, (codes "ping", method_member 1) ∷ []) ∷ [];
          registered = true;
          destroyed = false;
        },
      )
      ∷ [];
  emit_queue = [];
}

served_ping :
    context_dispatch served (arrived (codes "8") (some (codes "/")) none (codes "ping") (array nil))
    ≡ submitted
unfolding context_dispatch arrived find_method find bytes_eq c_string
served_ping = refl

refuses_pong :
    context_dispatch served (arrived (codes "8") none none (codes "pong") (array nil))
    ≡ refused (some (pos 2, codes "Member not found"))
unfolding context_dispatch arrived find_method find bytes_eq c_string
refuses_pong = refl

connection_dispatch-call_frame_example :
    (c : Call) × (connection_dispatch test_platform link
        (context_dispatch served)
        (call_frame (string (codes "8")) (some (codes "/")) none (codes "ping") (array nil))
        conn
      ≡ ok (record conn { inbound_calls = put (codes "8") c conn.inbound_calls }))
    × Received (codes "8") (some (codes "/")) none (codes "ping") (array nil) c
unfolding connection_is_open
connection_dispatch-call_frame_example =
    connection_dispatch-call_frame test_platform link (context_dispatch served) (codes "8")
      (some (codes "/")) none (codes "ping") (array nil) conn refl refl refl served_ping

connection_dispatch-refused_example :
    (c : Connection) × (connection_dispatch test_platform link
        (context_dispatch served)
        (call_frame (string (codes "8")) none none (codes "pong") (array nil))
        conn
      ≡ ok c)
    × (c.sent
        ≡ conn.sent
          ++ send_err test_platform (string (codes "8")) (pos 2) (codes "Member not found") ∷ [])
    × ((j : Bytes)
        → find j c.inbound_calls
          ≡ (if bytes_eq (codes "8") j then none else find j conn.inbound_calls))
    × (c.calls ≡ conn.calls)
unfolding connection_is_open
connection_dispatch-refused_example =
    connection_dispatch-refused test_platform link (context_dispatch served) (codes "8") none none
      (codes "pong") (array nil) conn (pos 2) (codes "Member not found") refl refl refl refuses_pong
      (λ f. refl)

-- The timeout fires, and an answer arrives after it.
CallReach-TimesOut_example :
    TimesOut test_platform (receive call_done (some null) (call_timeout test_platform call)).0
CallReach-TimesOut_example =
    CallReach-TimesOut {p = test_platform} {link = link} call
      (receive call_done (some null) (call_timeout test_platform call)).0 refl refl refl
      (goes_on (goes_on begun (fires refl refl)) (answered call_done (some null)))

close-queue_example : (fail_outbound test_platform call).queue ≢ []
unfolding find bytes_eq close
close-queue_example =
    close-queue test_platform conn refl (codes "7") (fail_outbound test_platform call) (refl, tt)
      refl

close-function_yield_example :
    (t : Turn) × (function_yield test_platform (stop_inbound running) null ≡ some t)
    × (t.ret ≡ negsuc 0)
    × (t.call.producer_seqno ≡ (stop_inbound running).producer_seqno)
unfolding find bytes_eq close
close-function_yield_example =
    close-function_yield test_platform conn refl (codes "9") (stop_inbound running) null refl

on_events-Served_example :
    Leaves
      (on_events_subscribe conn
        (some (array (cons (dictionary (field (codes "name") (string (codes "changed")) end)) nil)))
        null)
      (Served 2)
    × Leaves
        (on_events_unsubscribe conn
          (some
            (array (cons (dictionary (field (codes "name") (string (codes "changed")) end)) nil)))
          null)
        (Served 1)
on_events-Served_example =
    on_events-Served 1 conn
      (some (array (cons (dictionary (field (codes "name") (string (codes "changed")) end)) nil)))
      null (record { context_set = refl; referenced = tt; watches = refl }) (omega arith)

-- Two descriptors in an array.
restore_fds-serialize_fds_example :
    ((serialize_fds (array (cons (fd (pos 5)) (cons (fd (pos 6)) nil))) (pos 0 ∷ []) 0).1.counter
      ≡ length (descriptors (array (cons (fd (pos 5)) (cons (fd (pos 6)) nil)))))
    × (descriptors (
          restore_fds
            (serialize_fds (array (cons (fd (pos 5)) (cons (fd (pos 6)) nil))) (pos 0 ∷ []) 0).0
            (serialize_fds
              (array (cons (fd (pos 5)) (cons (fd (pos 6)) nil)))
              (pos 0 ∷ [])
              0).1.fds)
        ≡ replicate
            (length (descriptors (array (cons (fd (pos 5)) (cons (fd (pos 6)) nil)))))
            (last_or (pos 0) (descriptors (array (cons (fd (pos 5)) (cons (fd (pos 6)) nil))))))
restore_fds-serialize_fds_example =
    restore_fds-serialize_fds (array (cons (fd (pos 5)) (cons (fd (pos 6)) nil))) (pos 0) []

two_become_one :
    restore_fds
      (serialize_fds (array (cons (fd (pos 5)) (cons (fd (pos 6)) nil))) (pos 0 ∷ []) 0).0
      (serialize_fds (array (cons (fd (pos 5)) (cons (fd (pos 6)) nil))) (pos 0 ∷ []) 0).1.fds
    ≡ array (cons (fd (pos 6)) (cons (fd (pos 6)) nil))
unfolding serialize_fds restore_fds
two_become_one = refl
