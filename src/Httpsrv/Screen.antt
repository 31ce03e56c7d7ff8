-- ===== src/Httpsrv/Screen.antt =====
-- What the reader of a stream of internal/httpsrv/handler.go has before them when a turn is over.
pub mod Ending
use Prim.Native.String.{◌++◌ as ◌+++◌}
use poe_acp_relay.Base.{
  ℕ, String, ◌≡◌, refl, sym, ap, ◌∙◌, Bool, true, false, List, [], ◌∷◌, ◌++◌, map, arith, inr,
  subst, All, All-middle,
}
use poe_acp_relay.Poeproto.Sse.{SseWriter, event, new_sse_writer, write_meta}
use poe_acp_relay.Router.Types.{
  SinkCall, first_chunk, put_text, put_replace, put_error, put_done, is_user_req,
}
use poe_acp_relay.Router.Drain.Turns.{IsNotDone}
use poe_acp_relay.Router.Agent.{Agent}
use poe_acp_relay.Router.Turn.{RunnerState, TurnOutcome}
use poe_acp_relay.Router.Turn.Finish.{IsOver, EndsOnce}
use poe_acp_relay.Router.Runner.Service.{Service, Reach, fresh_service}
use poe_acp_relay.Router.Runner.Served.{Reach-first_served}
use poe_acp_relay.Httpsrv.Handler.{finish_query}
use poe_acp_relay.Httpsrv.Writer.{
  OrderedWriter, new_ordered_writer, clear_spinner_locked, user_text, user_replace, user_error,
  user_done,
}
use poe_acp_relay.Httpsrv.Sink.{Sink, Action, call, new_sink, sink_call, step, run, calls}
use poe_acp_relay.Httpsrv.Sink.Shown.{
  View, show, render, render_from, shown, shown-text, shown-replace, shown-error, shown-done,
}
use poe_acp_relay.Httpsrv.Sink.Rendering.{opened, run-calls-shown}
use poe_acp_relay.Httpsrv.Answer.{finish_query-closed}

-- What a call of the router means to the reader.
abbrev pub put_on : View → SinkCall → View
put_on v first_chunk = v
put_on v (put_text t) = record v { body = v.body +++ t }
put_on v (put_replace t) = record v { body = t }
put_on v (put_error t et) = record v { errors = v.errors ++ (t, et) ∷ [] }
put_on v put_done = record v { finished = true }

abbrev pub put_all : View → List SinkCall → View
put_all v [] = v
put_all v (c ∷ cs) = put_all (put_on v c) cs

abbrev pub blank : View
blank = record { body = ""; errors = []; finished = false }

pub put_all-append :
    (v : View) (xs ys : List SinkCall) → put_all v (xs ++ ys) ≡ put_all (put_all v xs) ys
put_all-append v [] ys = refl
put_all-append v (x ∷ xs) ys = put_all-append (put_on v x) xs ys

-- An open stream with no spinner on it.
record IsQuiet (s : Sink) : Type 0 where
  unsealed : s.o.closed ≡ false
  bare : s.o.spinner_visible ≡ false
  open_w : s.o.w.closed ≡ false

module _ (io : ℕ → Bool) (up : (k : ℕ) → io k ≡ true) where
  sink_call-put_on :
      (s : Sink) (c : SinkCall)
      → IsQuiet s
      → IsNotDone c
      → (shown (sink_call io s c).o.w ≡ put_on (shown s.o.w) c) × IsQuiet (sink_call io s c)
  unfolding sink_call user_text user_replace user_error clear_spinner_locked show
  sink_call-put_on s first_chunk q _ =
      (refl, record { unsealed = q.unsealed; bare = q.bare; open_w = q.open_w })
  sink_call-put_on s (put_text t) q _ =
      (ground (arith, shown-text io up s.o.w t), ground (arith, shown-text io up s.o.w t))
  sink_call-put_on s (put_replace t) q _ =
      (ground (arith, shown-replace io up s.o.w t), ground (arith, shown-replace io up s.o.w t))
  sink_call-put_on s (put_error t et) q _ =
      (ground (arith, shown-error io up s.o.w t et), ground (arith, shown-error io up s.o.w t et))
  sink_call-put_on s put_done q h = absurd h

  sink_call-done :
      (s : Sink) → IsQuiet s → shown (sink_call io s put_done).o.w ≡ put_on (shown s.o.w) put_done
  unfolding sink_call user_done clear_spinner_locked show
  sink_call-done s q = ground (arith, shown-done io up s.o.w)

  run-put_all :
      (s : Sink) (before : List SinkCall)
      → IsQuiet s
      → All IsNotDone before
      → shown (run io s (map call (before ++ put_done ∷ []))).o.w
        ≡ put_all (shown s.o.w) (before ++ put_done ∷ [])
  unfolding run step
  run-put_all s [] q _ = sink_call-done s q
  run-put_all s (c ∷ before) q (h, hs) =
      let (e, q') = sink_call-put_on s c q h in
      run-put_all (sink_call io s c) before q' hs ∙ ap (λ v. put_all v (before ++ put_done ∷ [])) e

opened-IsQuiet :
    (io : ℕ → Bool)
    → ((k : ℕ) → io k ≡ true)
    → IsQuiet (new_sink (opened io) 0) × (shown (new_sink (opened io) 0).o.w ≡ blank)
unfolding new_sink new_ordered_writer write_meta new_sse_writer event render render_from show
opened-IsQuiet io up = ground (arith, up 0)

-- While the connection holds: once the turn of a query that a session accepted is over, however the
-- session was used and however heartbeat ticks fall between the calls of the turn, the reader has
-- before them exactly what the turn put: its texts one behind the other, a replacement in place of
-- what stood before it, its errors, and the end of the answer.
pub finish_query-shown :
    {A : Type 0} (agent : Agent A) (prompt : String) {st : RunnerState} {a : A} {s : Service A}
    (before after : List (TurnOutcome A)) (o : TurnOutcome A) (io : ℕ → Bool) (hb : ℕ)
    (acts : List Action)
    → Reach agent prompt (fresh_service st a) s
    → s.log ≡ before ++ o ∷ after
    → is_user_req o.req ≡ true
    → calls acts ≡ map call o.puts
    → ((k : ℕ) → io k ≡ true)
    → shown (finish_query io (new_sink (opened io) hb) acts).o.w ≡ put_all blank o.puts
unfolding finish_query
finish_query-shown agent prompt before after o io hb acts reach here user e up =
    let over = subst (All IsOver) here (Reach-first_served agent prompt reach).1 in
    let (puts, split, rest) = (All-middle IsOver before o after over).1 user in
    let sealed =
      (finish_query-closed agent prompt before after o io (new_sink (opened io) hb) acts reach here
        user e).0 in
    let (quiet, clean) = opened-IsQuiet io up in
    run-calls-shown io hb acts up (inr (unfold finish_query in sealed))
    ∙ ap (λ l. shown (run io (new_sink (opened io) 0) l).o.w) (e ∙ ap (map call) split)
    ∙ run-put_all io up (new_sink (opened io) 0) puts quiet rest
    ∙ ap (λ v. put_all v (puts ++ put_done ∷ [])) clean
    ∙ ap (put_all blank) (sym split)
