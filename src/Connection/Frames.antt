-- ===== src/Connection/Frames.antt =====
-- src/rpc_connection.c: the frames that the two ends of a connection send each other. Each function
-- named after a send gives the frame that it hands to rpc_send_frame.
use librpc.Base.{ℕ, Option, none, some, [], Bytes, codes}
use librpc.Base.Int.{to_int64}
use librpc.Object.Types.{Object, null, int64, dictionary, fields}
use librpc.Object.Value.{string_create}
use librpc.Object.Dictionary.{insert}

abbrev pub or_null : Option Object → Object
or_null none = null
or_null (some o) = o

unfoldable pub pack_frame : Bytes → Bytes → Option Object → Object → Object
unfolding insert string_create
pack_frame ns name id args = dictionary (
    fields (
      insert (codes "args") args (
        insert (codes "id") (or_null id) (
          insert (codes "name") (string_create (some name))
            (insert (codes "namespace") (string_create (some ns)) [])))))

unfoldable pub send_errx : Object → Object → Object
unfolding pack_frame
send_errx id err = pack_frame (codes "rpc") (codes "error") (some id) err

unfoldable pub send_response : Object → Option Object → Object
unfolding pack_frame
send_response id response = pack_frame (codes "rpc") (codes "response") (some id) (or_null response)

-- The arguments of the frames of a stream; a sequence number is an int64_t, kept as its 64 bits.
unfoldable pub seqno_args : ℕ → Object
unfolding insert
seqno_args seqno = dictionary (fields (insert (codes "seqno") (int64 (to_int64 seqno)) []))

unfoldable pub send_start_stream : Object → ℕ → Object
unfolding pack_frame seqno_args
send_start_stream id seqno =
    pack_frame (codes "rpc") (codes "start_stream") (some id) (seqno_args seqno)

unfoldable pub fragment_args : ℕ → Object → Object
unfolding insert
fragment_args seqno fragment = dictionary (
    fields
      (insert (codes "fragment") fragment (insert (codes "seqno") (int64 (to_int64 seqno)) [])))

unfoldable pub send_fragment : Object → ℕ → Object → Object
unfolding pack_frame fragment_args
send_fragment id seqno fragment =
    pack_frame (codes "rpc") (codes "fragment") (some id) (fragment_args seqno fragment)

unfoldable pub send_end : Object → ℕ → Object
unfolding pack_frame seqno_args
send_end id seqno = pack_frame (codes "rpc") (codes "end") (some id) (seqno_args seqno)

-- The arguments that rpc_call_continue packs by the format "{i,i}".
unfoldable pub continue_args : ℕ → ℕ → Object
unfolding insert
continue_args seqno increment = dictionary (
    fields (
      insert (codes "increment") (int64 (to_int64 increment))
        (insert (codes "seqno") (int64 (to_int64 seqno)) [])))

unfoldable pub send_continue : Object → ℕ → ℕ → Object
unfolding pack_frame continue_args
send_continue id seqno increment =
    pack_frame (codes "rpc") (codes "continue") (some id) (continue_args seqno increment)

unfoldable pub send_abort : Object → Object
unfolding pack_frame
send_abort id = pack_frame (codes "rpc") (codes "abort") (some id) null
