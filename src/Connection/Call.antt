-- ===== src/Connection/Call.antt =====
-- src/rpc_connection.c: the state of one call, and what a message, a timeout or the client's own
-- operations make of it.
use librpc.Base.{
  ◌>>=◌, ℕ, ◌+◌, ◌%◌, ◌^◌, Bool, true, false, Option, none, some, List, [], ◌∷◌, ◌++◌, Bytes, codes,
  Outcome, ok, fault, bad_access, ◌==◌, if◌then◌else◌,
}
use librpc.Base.Int.{ℤ, pos, negsuc}
use librpc.Object.Types.{Object}
use librpc.Object.Platform.{Platform}
use librpc.Base.Int.{to_uint64}
use librpc.Object.Dictionary.{dictionary_get_value}
use librpc.Object.Value.{int64_get_value, error_create}
use librpc.Connection.Frames.{send_continue, send_abort}

-- rpc_call_status_t
pub data CallStatus : Type 0 where
  call_in_progress call_stream_start call_more_available call_done : CallStatus
  call_error call_aborted call_ended : CallStatus

pub data CallType : Type 0 where
  inbound_call outbound_call : CallType

-- struct queue_item; a NULL item is `none`.
pub record QueueItem : Type 0 where
  pub status : CallStatus
  pub item : Option Object

-- struct rpc_call. The sequence numbers are atomic int64_t, kept as their 64 bits. `timeout` says that
-- the timeout source is there, `callback` and `abort_handler` that these are set.
pub record Call : Type 0 where
  pub type : CallType
  pub path : Option Bytes
  pub interface : Option Bytes
  pub method_name : Bytes
  pub id : Object
  pub args : Object
  pub err : Option Object
  pub queue : List QueueItem
  pub prefetch : ℕ
  pub producer_seqno : ℕ
  pub consumer_seqno : ℕ
  pub timeout : Bool
  pub timedout : Bool
  pub callback : Bool
  pub abort_handler : Bool
  pub streaming : Bool
  pub responded : Bool
  pub ended : Bool
  pub aborted : Bool

-- errno values, as on Linux.
abbrev pub enxio : ℤ
enxio = pos 6

abbrev pub einval : ℤ
einval = pos 22

abbrev pub enotsup : ℤ
enotsup = pos 95

abbrev pub econnaborted : ℤ
econnaborted = pos 103

abbrev pub econnreset : ℤ
econnreset = pos 104

abbrev pub etimedout : ℤ
etimedout = pos 110

unfoldable pub push_item : CallStatus → Option Object → Call → Call
push_item s v call = record call { queue = call.queue ++ (record { status = s; item = v }) ∷ [] }

-- `none` is the return value -1: the timeout has fired.
unfoldable pub cancel_timeout_locked : Call → Option Call
cancel_timeout_locked call =
    if call.timeout
    then (if call.timedout then none else some (record call { timeout = false }))
    else some call

-- rpc_call_status_locked
unfoldable pub call_status : Call → CallStatus
call_status call = elim (call.queue) [ [] ↦ call_in_progress | q ∷ rest ↦ q.status ]

unfoldable pub call_result : Call → Option Object
call_result call = elim (call.queue) [ [] ↦ none | q ∷ rest ↦ q.item ]

abbrev pub is_done : CallStatus → Bool
is_done call_done = true
is_done _ = false

unfoldable pub call_success : Call → Bool
unfolding call_status
call_success call = is_done (call_status call)

unfoldable pub call_set_prefetch : Call → ℕ → Call
call_set_prefetch call nitems = record call { prefetch = nitems }

-- What the handlers of answers do with a call that they found: the call, and whether the message was
-- queued.
unfoldable pub receive : CallStatus → Option Object → Call → Call × Bool
unfolding cancel_timeout_locked push_item
receive s v call = elim (cancel_timeout_locked call) [
  | none ↦ (call, false)
  | some c ↦ (push_item s v c, true)
]

-- on_rpc_fragment: a fragment without payload cancels the timeout, and is dropped.
unfoldable pub receive_fragment : Option Object → Call → Call × Bool
unfolding cancel_timeout_locked push_item
receive_fragment payload call = elim (cancel_timeout_locked call) [
  | none ↦ (call, false)
  | some c ↦ elim payload [
    | none ↦ (c, false)
    | some v ↦ (push_item call_more_available (some v) c, true)
  ]
]

-- The condition under which rpc_call_continue and rpc_call_abort go on.
abbrev pub is_open : CallStatus → Bool
is_open call_in_progress = true
is_open call_more_available = true
is_open call_stream_start = true
is_open _ = false

abbrev pub seqno_mod : ℕ
seqno_mod = 2 ^ 64

-- rpc_call_timeout
unfoldable pub call_timeout : Platform → Call → Call
unfolding push_item error_create
call_timeout p call =
    let late = record call { timedout = true } in
    if call.timeout
    then push_item call_error
        (some (error_create p.backtrace etimedout (codes "Call timed out") none)) late
    else late

-- A key of a format such as "{i,i}" in rpc_object_unpack: a missing key leaves the variable alone.
unfoldable pub unpack_int64 : Option Object → Bytes → ℤ → ℤ
unfolding dictionary_get_value int64_get_value
unpack_int64 none key value = value
unpack_int64 (some o) key value = elim (dictionary_get_value o key) [
  | none ↦ value
  | some v ↦ int64_get_value v
]

-- on_rpc_continue, on the call that it found.
unfoldable pub receive_continue : Option Object → Call → Call
unfolding unpack_int64
receive_continue args call = record call {
  consumer_seqno =
      (call.consumer_seqno + to_uint64 (unpack_int64 args (codes "increment") (pos 1))) % seqno_mod;
}

-- Taking the head of the queue, which has to have one.
unfoldable pub pop_item : Call → Outcome Call
pop_item call = elim (call.queue) [
  | [] ↦ fault bad_access
  | q ∷ rest ↦ ok (record call { queue = rest })
]

-- The transport: whether it takes a frame, and what rpc_get_last_error gives where it does not.
pub record Link : Type 0 where
  pub accepts : Object → Bool
  pub last_error : Object

-- What one operation on a call returns, with the frames that it sent and the call that it leaves.
pub record Turn : Type 0 where
  pub ret : ℤ
  pub frames : List Object
  pub call : Call

module _ (link : Link) where
  -- The frame that grants more messages, sent where the granted ones are used up.
  unfoldable pub grant_more : Call → Turn
  unfolding push_item send_continue
  grant_more call =
      if call.consumer_seqno == call.producer_seqno
      then (let frame =
            send_continue call.id ((call.producer_seqno + 1) % seqno_mod) call.prefetch in
          let granted = record call {
            producer_seqno = (call.producer_seqno + call.prefetch) % seqno_mod;
          } in
          if link.accepts frame
          then record { ret = pos 0; frames = frame ∷ []; call = granted }
          else record {
            ret = negsuc 0;
            frames = [];
            call = push_item call_error (some link.last_error) granted;
          })
      else record { ret = pos 0; frames = []; call = call }

  -- rpc_call_continue, without `sync`.
  unfoldable pub call_continue : Call → Outcome Turn
  unfolding grant_more pop_item call_status
  call_continue call =
      if is_open (call_status call)
      then (let t = grant_more call in
          pop_item (record t.call { consumer_seqno = (t.call.consumer_seqno + 1) % seqno_mod })
          >>= λ c. ok (record t { call = c }))
      else ok (record { ret = negsuc 0; frames = []; call = call })

  unfoldable pub call_abort : Call → Turn
  unfolding call_status cancel_timeout_locked push_item send_abort
  call_abort call =
      if is_open (call_status call)
      then (if link.accepts (send_abort call.id)
          then record {
            ret = pos 0;
            frames = send_abort call.id ∷ [];
            call = elim (cancel_timeout_locked call) [
              | none ↦ call
              | some c ↦ push_item call_aborted none c
            ];
          }
          else record { ret = negsuc 0; frames = []; call = call })
      else record { ret = negsuc 0; frames = []; call = call }
