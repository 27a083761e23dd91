-- ===== src/Service/Worker/Answers.antt =====
-- src/rpc_service.c: how often a call is answered.
use librpc.Connection.Call.{econnreset, Turn, Call}
use librpc.Base.Int.{pos, ℤ}
use librpc.Object.Value.{c_string, string_create}
use librpc.Object.Dictionary.{insert, lookup, dictionary_get_value}
use librpc.Connection.Frames.{send_response, send_end}
use librpc.Connection.Stream.{
  next_seqno, function_error, stop_aborted, function_end, function_respond, must_wait, send_err,
}
use librpc.Service.Worker.{after, Result, run_result, tp_handler, ran, Call, returned, finish, Run}
use librpc.Object.Types.{Object}
use librpc.Object.Platform.{Platform}
use librpc.Object.Dictionary.Typed.{dictionary_get_string}
use librpc.Base.{
  ap, ◌∙◌, inl, inr, Bool-cases, if◌then◌else◌, refl, true, none, ◌||◌, ◌&&◌, [], not, bytes_eq,
  some, arith, ◌+◌, false, ◌∷◌, codes, Bool, Bytes, ℕ, ◌++◌, ◌≡◌, Option, List,
}

-- The frames that end a call for its caller.
abbrev is_answer_name : Option Bytes → Bool
is_answer_name none = false
is_answer_name (some name) =
    bytes_eq name (codes "response") || bytes_eq name (codes "error") || bytes_eq name (codes "end")

unfoldable pub is_answer : Object → Bool
unfolding dictionary_get_string
is_answer frame = is_answer_name (dictionary_get_string frame (codes "name"))

unfoldable pub answers : List Object → ℕ
unfolding is_answer
answers [] = 0
answers (f ∷ rest) = (if is_answer f then 1 else 0) + answers rest

answers-append : (xs ys : List Object) → answers (xs ++ ys) ≡ answers xs + answers ys
unfolding answers
answers-append [] ys = omega arith
answers-append (x ∷ xs) ys = omega (arith, answers-append xs ys)

-- A method that answers at most once, and says so by the flags of its call.
pub record Behaves (r : Run) : Type 0 where
  pub answered : answers r.frames ≡ (if r.call.responded || r.call.ended then 1 else 0)
  pub ended_streams : (r.call.ended && not r.call.streaming) ≡ false

-- The method streamed and answered, as rpc_function_error does, but did not end the stream.
unfoldable pub left_open : Call → Bool
left_open call = call.streaming && (call.responded && not call.ended)

response_lem : (id : Object) (o : Option Object) → is_answer (send_response id o) ≡ true
unfolding is_answer send_response dictionary_get_value lookup insert bytes_eq string_create c_string
response_lem id o = refl

end_lem : (id : Object) (seqno : ℕ) → is_answer (send_end id seqno) ≡ true
unfolding is_answer send_end dictionary_get_value lookup insert bytes_eq string_create c_string
end_lem id seqno = refl

module _ (p : Platform) where
  error_lem : (id : Object) (code : ℤ) (msg : Bytes) → is_answer (send_err p id code msg) ≡ true
  unfolding is_answer send_err dictionary_get_value lookup insert bytes_eq string_create c_string
  error_lem id code msg = refl

  respond-answers :
      (c : Call) (o : Option Object)
      → answers (function_respond p c o).frames ≡ (if c.responded then 0 else 1)
  unfolding function_respond answers
  respond-answers c o = ground (arith, response_lem c.id o)

  end-answers :
      (c : Call)
      → must_wait c ≡ false
      → c.ended ≡ false
      → (t : Turn) × (function_end p c ≡ some t)
        × (answers t.frames ≡ (if c.responded && c.aborted then 0 else 1))
  unfolding function_end stop_aborted function_error answers
  end-answers c w e = elim (Bool-cases c.aborted) [
    | inl dead ↦ (
      stop_aborted p (c.ended || c.responded) c,
      rw (w, dead) refl,
      ground (arith, e, dead, error_lem c.id econnreset (codes "Call aborted")),
    )
    | inr alive ↦ (
      record {
        ret = pos 0;
        frames = if c.ended then [] else send_end c.id c.producer_seqno ∷ [];
        call = record c { producer_seqno = next_seqno c; streaming = true; ended = true };
      },
      rw (w, alive) refl,
      ground (arith, e, alive, end_lem c.id c.producer_seqno),
    )
  ]

  finish_lem :
      (r : Run) (o : Option Object)
      → Behaves r
      → must_wait r.call ≡ false
      → (f : Run) × (finish p r.call (returned o) ≡ some f)
        × (answers r.frames + answers f.frames
            ≡ (if left_open r.call && not r.call.aborted then 2 else 1))
        × (f.closed ≡ not (r.call.streaming && r.call.ended))
  unfolding finish answers left_open
  finish_lem r o b w = elim (Bool-cases r.call.streaming) [
    | inr plain ↦ (
      ran true (function_respond p r.call o),
      rw plain refl,
      ground (arith, plain, b.answered, b.ended_streams, respond-answers r.call o),
      rw plain refl,
    )
    | inl streams ↦ elim (Bool-cases r.call.ended) [
      | inl over ↦ (
        record { frames = []; call = r.call; closed = false },
        rw (streams, over) refl,
        ground (arith, streams, over, b.answered),
        rw (streams, over) refl,
      )
      | inr going ↦
          let t = end-answers r.call w going in
          (
            ran true t.0,
            ground (arith, streams, going, t.1),
            ground (arith, streams, going, b.answered, t.2),
            rw (streams, going) refl,
          )
    ]
  ]

  -- A call that is not aborted, over an open connection and in a context without hooks, whose method
  -- returns and answers at most once and says so by the flags of the call, is answered exactly once, if
  -- the method does not have to wait for a grant at its end; but where the method streamed, answered by
  -- rpc_function_error and did not end the stream, and the call was not aborted meanwhile, it is
  -- answered twice, since the stream is ended after the error. The call is closed then, but where the
  -- method streamed and ended the stream it is closed only if the method closed it.
  pub tp_handler-answers :
      (call : Call) (block : Call → Run × Result) (o : Option Object)
      → call.aborted ≡ false
      → (block (record call { consumer_seqno = 1 })).1 ≡ returned o
      → Behaves (block (record call { consumer_seqno = 1 })).0
      → must_wait (block (record call { consumer_seqno = 1 })).0.call ≡ false
      → (a : Run) × (tp_handler p true
            (record { pre_call = none; post_call = none })
            (some block)
            call
          ≡ some a)
        × (answers a.frames ≡ (
            if left_open (block (record call { consumer_seqno = 1 })).0.call
              && not (block (record call { consumer_seqno = 1 })).0.call.aborted
            then 2
            else 1))
        × (a.closed ≡ (
            (block (record call { consumer_seqno = 1 })).0.closed
            || not (
                (block (record call { consumer_seqno = 1 })).0.call.streaming
                && (block (record call { consumer_seqno = 1 })).0.call.ended)))
  unfolding tp_handler run_result
  tp_handler-answers call block o alive e b w =
      let r = (block (record call { consumer_seqno = 1 })).0 in
      let f = finish_lem r o b w in
      (
        after r f.0,
        ground (arith, alive, e, f.1),
        answers-append r.frames f.0.frames ∙ f.2,
        ap (λ (x : Bool). r.closed || x) f.3,
      )
