-- ===== src/Httpsrv/Tests.antt =====
-- The stream of an answer at concrete inputs.
use Prim.Native.String.{◌++◌ as ◌+++◌}
use poe_acp_relay.Base.{false, ◌≡◌, refl, ap, ℕ, inr, Bool, true, List, [], ◌∷◌, map}
use poe_acp_relay.Router.Types.{turn_user, SinkCall, first_chunk, put_text, put_done}
use poe_acp_relay.Router.Turn.{TurnOutcome, run_one_turn}
use poe_acp_relay.Router.TestAgent.{test_agent, test_req, test_runner}
use poe_acp_relay.Httpsrv.Answer.{finish_query-closed}
use poe_acp_relay.Httpsrv.Handler.{finish_query}
use poe_acp_relay.Router.TestService.{served_once, served_once-log}
use poe_acp_relay.Router.Turn.Finish.{run_one_turn_same, answer_of, options_error}
use poe_acp_relay.Router.Drain.Turns.{turn_output}
use poe_acp_relay.Router.Drain.Merging.{put_body}
use poe_acp_relay.Httpsrv.Screen.{put_all, blank, finish_query-shown}
use poe_acp_relay.Httpsrv.Screen.Ending.{ending, notice, run_one_turn-ending}
use poe_acp_relay.Poeproto.Sse.{event, write_meta, new_sse_writer}
use poe_acp_relay.Httpsrv.Writer.{hb_replace, user_text, user_done}
use poe_acp_relay.Httpsrv.Sink.{
  Sink, Action, call, tick, new_sink, spinner, sink_call, heartbeat_tick, step, run, calls,
}
use poe_acp_relay.Httpsrv.Sink.Rendering.{opened, run-calls-shown}
use poe_acp_relay.Httpsrv.Sink.Shown.{shown}

abbrev holds : ℕ → Bool
holds k = true

abbrev acts : List Action
acts = tick ∷ tick ∷ call first_chunk ∷ tick ∷ call (put_text "hi") ∷ tick ∷ call put_done ∷ []

abbrev answered : Sink
answered = run holds (new_sink (opened holds) 1) acts

answered_closed : answered.o.closed ≡ true
unfolding run step new_sink write_meta event new_sse_writer sink_call user_done heartbeat_tick
    hb_replace user_text spinner
answered_closed = refl

run-calls-shown_example :
    shown answered.o.w ≡ shown (run holds (new_sink (opened holds) 0) (calls acts)).o.w
run-calls-shown_example = run-calls-shown holds 1 acts (λ k. refl) (inr answered_closed)

calls-map_call : (cs : List SinkCall) → calls (map call cs) ≡ map call cs
calls-map_call [] = refl
calls-map_call (c ∷ cs) = ap (λ l. call c ∷ l) (calls-map_call cs)

-- The calls of a user turn, behind two ticks.
abbrev first_turn : TurnOutcome ℕ
first_turn = run_one_turn test_agent "rules" 9 0 test_runner (test_req turn_user)

finish_query-closed_example :
    ((finish_query holds
        (new_sink (opened holds) 1)
        (tick ∷ tick ∷ map call first_turn.puts)).o.closed
      ≡ true)
    × ((finish_query holds
          (new_sink (opened holds) 1)
          (tick ∷ tick ∷ map call first_turn.puts)).hb_done
        ≡ true)
finish_query-closed_example =
    finish_query-closed test_agent "rules" [] [] first_turn holds (new_sink (opened holds) 1)
      (tick ∷ tick ∷ map call first_turn.puts) served_once.1 served_once-log
      (rw ((run_one_turn_same test_agent "rules" 9 0 test_runner (test_req turn_user)).1) refl)
      (calls-map_call first_turn.puts)

finish_query-shown_example :
    shown
      (finish_query holds (new_sink (opened holds) 1) (tick ∷ tick ∷ map call first_turn.puts)).o.w
    ≡ put_all blank first_turn.puts
finish_query-shown_example =
    finish_query-shown test_agent "rules" [] [] first_turn holds 1
      (tick ∷ tick ∷ map call first_turn.puts) served_once.1 served_once-log
      (rw ((run_one_turn_same test_agent "rules" 9 0 test_runner (test_req turn_user)).1) refl)
      (calls-map_call first_turn.puts) (λ k. refl)

run_one_turn-ending_example :
    put_all blank first_turn.puts
    ≡ ending (answer_of test_agent "rules" 0 test_runner (test_req turn_user)).0 (
        notice (options_error test_agent 0 test_runner (test_req turn_user))
        +++ put_body (
            turn_output
              (record { sink = 7; hide_thinking = false })
              (answer_of test_agent "rules" 0 test_runner (test_req turn_user)).1))
run_one_turn-ending_example =
    run_one_turn-ending test_agent "rules" 9 0 test_runner (test_req turn_user) refl
