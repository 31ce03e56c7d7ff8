-- ===== src/Router/Turn/Tests.antt =====
-- Turns at concrete inputs.
use poe_acp_relay.Base.{◌≡◌, refl, true, false, none}
use poe_acp_relay.Router.Types.{turn_user}
use poe_acp_relay.Router.TestAgent.{test_agent, test_options, test_req, test_runner}
use poe_acp_relay.Router.Turn.{apply_options, apply_model, apply_thinking, run_one_turn}
use poe_acp_relay.Router.Turn.Applied.{apply_options_again}
use poe_acp_relay.Router.Turn.Finish.{EndsOnce, run_one_turn-EndsOnce}

run_one_turn-EndsOnce_example :
    EndsOnce (run_one_turn test_agent "rules" 9 0 test_runner (test_req turn_user)).puts
    × ((run_one_turn test_agent "rules" 9 0 test_runner (test_req turn_user)).req.done ≡ true)
    × ((run_one_turn test_agent "rules" 9 0 test_runner (test_req turn_user)).req.shed ≡ false)
run_one_turn-EndsOnce_example =
    run_one_turn-EndsOnce test_agent "rules" 9 0 test_runner (test_req turn_user) refl

applied : (apply_options test_agent 0 test_runner test_options).0 ≡ none
unfolding apply_options apply_model apply_thinking
applied = refl

apply_options_again_example :
    apply_options test_agent 5 (apply_options test_agent 0 test_runner test_options).1 test_options
    ≡ (none, (apply_options test_agent 0 test_runner test_options).1, 5)
apply_options_again_example = apply_options_again test_agent 0 5 test_runner test_options applied
