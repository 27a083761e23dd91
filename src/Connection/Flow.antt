-- ===== src/Connection/Flow.antt =====
-- src/rpc_connection.c and src/rpc_service.c: a streaming call at both of its ends, with the frames in
-- flight between them. The end that runs the method sends by rpc_function_start_stream,
-- rpc_function_yield and rpc_function_end; the caller consumes by rpc_call_continue.
pub mod Counters
pub mod Order
pub mod Credit
pub mod Limits
use librpc.Base.{
  ℕ, zero, ◌+◌, ◌≤◌, ◌<◌, ◌≡◌, Bool, true, false, Option, none, some, List, [], ◌∷◌, ◌++◌, map, ok,
}
use librpc.Base.Int.{pos}
use librpc.Object.Types.{Object, null}
use librpc.Object.Platform.{Platform}
use librpc.Connection.Frames.{
  send_start_stream, send_fragment, send_end, send_continue, seqno_args, continue_args,
}
use librpc.Connection.Call.{
  Call, Turn, Link, QueueItem, call_stream_start, call_more_available, call_ended, is_open, receive,
  receive_fragment, receive_continue, call_continue,
}
use librpc.Connection.Stream.{function_kill, function_start_stream, function_yield, function_end}

-- The messages of a stream, with their sequence numbers.
pub data Message : Type 0 where
  started : ℕ → Message
  fragment : ℕ → Object → Message
  finished : ℕ → Message

abbrev pub frame_of : Object → Message → Object
frame_of id (started seqno) = send_start_stream id seqno
frame_of id (fragment seqno v) = send_fragment id seqno v
frame_of id (finished seqno) = send_end id seqno

-- What the caller finds in its queue for each message.
abbrev pub item_of : Message → QueueItem
item_of (started seqno) = record { status = call_stream_start; item = some null }
item_of (fragment seqno v) = record { status = call_more_available; item = some v }
item_of (finished seqno) = record { status = call_ended; item = some (seqno_args seqno) }

-- The handlers of the three messages, on the call of the caller.
unfoldable pub take_message : Message → Call → Call
unfolding receive receive_fragment
take_message (started seqno) c = (receive call_stream_start (some null) c).0
take_message (fragment seqno v) c = (receive_fragment (some v) c).0
take_message (finished seqno) c = (receive call_ended (some (seqno_args seqno)) c).0

module _ (p : Platform) where
  unfoldable pub send_message : Message → Call → Option Turn
  unfolding function_start_stream function_yield function_end
  send_message (started seqno) c = function_start_stream p c
  send_message (fragment seqno v) c = function_yield p c v
  send_message (finished seqno) c = function_end p c

-- Both ends, the messages on the way to the caller, and the sequence numbers and increments of the
-- grants on the way back. `log` and `consumed` record what was sent and what the caller has taken.
pub record Stream : Type 0 where
  pub server : Call
  pub client : Call
  pub down : List Message
  pub up : List (ℕ × ℕ)
  pub log : List Message
  pub consumed : List QueueItem

-- A step of one end, or a frame that arrives; frames arrive in the order in which they were sent. The
-- method may be told to stop at any time; the caller's timeout does not fire.
pub data Step (p : Platform) (link : Link) (s : Stream) : Stream → Type 0 where
  sends :
      (m : Message) (t : Turn)
      → send_message p m s.server ≡ some t
      → t.ret ≡ pos 0
      → t.frames ≡ frame_of s.server.id m ∷ []
      → Step p link s (record s { server = t.call; down = s.down ++ m ∷ []; log = s.log ++ m ∷ [] })
  arrives :
      (m : Message) (rest : List Message)
      → s.down ≡ m ∷ rest
      → Step p link s (record s { client = take_message m s.client; down = rest })
  consumes :
      (q : QueueItem) (rest : List QueueItem) (t : Turn)
      → s.client.queue ≡ q ∷ rest
      → call_continue link s.client ≡ ok t
      → t.ret ≡ pos 0
      → t.frames ≡ []
      → Step p link s (record s { client = t.call; consumed = s.consumed ++ q ∷ [] })
  grants :
      (q : QueueItem) (rest : List QueueItem) (seqno increment : ℕ) (t : Turn)
      → s.client.queue ≡ q ∷ rest
      → call_continue link s.client ≡ ok t
      → t.ret ≡ pos 0
      → t.frames ≡ send_continue s.client.id seqno increment ∷ []
      → Step p link s (record s {
        client = t.call;
        up = s.up ++ (seqno, increment) ∷ [];
        consumed = s.consumed ++ q ∷ [];
      })
  hears :
      (seqno increment : ℕ) (rest : List (ℕ × ℕ))
      → s.up ≡ (seqno, increment) ∷ rest
      → Step p link s (record s {
        server = receive_continue (some (continue_args seqno increment)) s.server;
        up = rest;
      })
  kills : Step p link s (record s { server = function_kill s.server })

-- A call that was just dispatched, as rpc_context_tp_handler begins it, and its caller's end, with room
-- for `prefetch` messages.
pub record Begins (prefetch : ℕ) (s : Stream) : Type 0 where
  pub room : 0 < prefetch
  pub prefetch_set : s.client.prefetch ≡ prefetch
  pub first_grant : s.server.consumer_seqno ≡ 1
  pub nothing_sent : s.server.producer_seqno ≡ 0
  pub client_even : s.client.producer_seqno ≡ 0
  pub none_taken : s.client.consumer_seqno ≡ 0
  pub in_time : s.client.timedout ≡ false
  pub queue_empty : s.client.queue ≡ []
  pub down_empty : s.down ≡ []
  pub up_empty : s.up ≡ []
  pub log_empty : s.log ≡ []
  pub consumed_empty : s.consumed ≡ []

pub data Reach (p : Platform) (link : Link) (s : Stream) : Stream → Type 0 where
  here : Reach p link s s
  next : {t u : Stream} → Reach p link s t → Step p link t u → Reach p link s u
