-- ===== src/Router/TestService.antt =====
-- A session to run the tests with, and its state once a turn was served.
use poe_acp_relay.Base.{ℕ, ◌≡◌, refl, [], ◌∷◌}
use poe_acp_relay.Router.Types.{turn_user}
use poe_acp_relay.Router.Queue.{
  new_session_queue, push, append_req, pop_or_wait, pop_from, finish_in_flight,
}
use poe_acp_relay.Router.TestAgent.{test_agent, test_req, test_runner}
use poe_acp_relay.Router.Turn.{run_one_turn}
use poe_acp_relay.Router.Runner.Service.{
  Service, Reach, here, next, submits, asks, runs, finishes, fresh_service,
}

-- One turn is submitted and run, and the runner asks again and sleeps.
abbrev pub start : Service ℕ
start = fresh_service test_runner 0

abbrev pub served_once : (s : Service ℕ) × Reach test_agent "rules" start s
unfolding new_session_queue push append_req pop_or_wait pop_from finish_in_flight
served_once = (
  _,
  next
      (next
        (next (next (next here (submits (test_req turn_user))) (asks refl))
          (runs 9 (test_req turn_user) refl))
        (finishes refl refl))
      (asks refl),
)

pub served_once-log :
    served_once.0.log ≡ run_one_turn test_agent "rules" 9 0 test_runner (test_req turn_user) ∷ []
unfolding new_session_queue push append_req pop_or_wait pop_from finish_in_flight
served_once-log = refl
