-- ===== src/Router/Runner/Tests.antt =====
-- The runner at concrete inputs.
use poe_acp_relay.Base.{arith, ◌≡◌, refl, true, false, [], ◌∷◌, ◌++◌, All, map}
use poe_acp_relay.Router.Types.{turn_user, turn_reaction}
use poe_acp_relay.Router.Queue.{
  SessionQueue, new_session_queue, push, append_req, pop_or_wait, pop_from, finish_in_flight,
}
use poe_acp_relay.Router.TestAgent.{test_agent, test_req, test_runner}
use poe_acp_relay.Router.Turn.Finish.{IsOver}
use poe_acp_relay.Router.TestService.{served_once}
use poe_acp_relay.Router.Runner.{waits, run_turns}
use poe_acp_relay.Router.Runner.Answered.{run_turns-IsOver}
use poe_acp_relay.Router.Runner.Service.{user_ids, at_hand, over_ids}
use poe_acp_relay.Router.Runner.Served.{Reach-first_served, Reach-all_served}

abbrev two_turns : SessionQueue
two_turns = record {
  q = test_req turn_user ∷ record (test_req turn_reaction) { id = 8 } ∷ [];
  in_flight = false;
  stopped = false;
  notify = true;
}

run_turns-IsOver_example :
    ((run_turns test_agent "rules" (λ k. k) false 3 0 two_turns test_runner 0).ended ≡ waits)
    × ((run_turns test_agent "rules" (λ k. k) false 3 0 two_turns test_runner 0).queue.q ≡ [])
    × (map
          (λ o. o.req.id)
          (run_turns test_agent "rules" (λ k. k) false 3 0 two_turns test_runner 0).log
        ≡ 7 ∷ 8 ∷ [])
    × All IsOver (run_turns test_agent "rules" (λ k. k) false 3 0 two_turns test_runner 0).log
run_turns-IsOver_example =
    run_turns-IsOver test_agent "rules" (λ k. k) false 3 0 two_turns test_runner 0 (omega arith)

Reach-first_served_example :
    (over_ids served_once.0
        ++ (user_ids (at_hand served_once.0.current)
            ++ (user_ids served_once.0.given_up ++ user_ids served_once.0.session.queue.q))
      ≡ user_ids served_once.0.accepted)
    × All IsOver served_once.0.log
Reach-first_served_example = Reach-first_served test_agent "rules" served_once.1

Reach-all_served_example : over_ids served_once.0 ≡ 7 ∷ []
unfolding new_session_queue push append_req pop_or_wait pop_from finish_in_flight
Reach-all_served_example = Reach-all_served test_agent "rules" served_once.1 refl refl refl
