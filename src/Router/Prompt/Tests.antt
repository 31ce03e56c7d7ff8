-- ===== src/Router/Prompt/Tests.antt =====
-- Submissions at concrete inputs.
use poe_acp_relay.Base.{
  none, ok, Option, ◌↔◌, ℕ, ◌≡◌, refl, true, false, List, [], ◌∷◌, lookup, String,
}
use poe_acp_relay.Poeproto.Requests.{text_value, Parameter, Attachment}
use poe_acp_relay.Router.Types.{turn_user}
use poe_acp_relay.Router.Query.{Turn, parse_options, is_level}
use poe_acp_relay.Router.TestAgent.{test_agent, test_config, test_options, test_runner, test_req}
use poe_acp_relay.Router.Agent.{StopReason}
use poe_acp_relay.Router.Turn.{run_one_turn}
use poe_acp_relay.Router.Turn.Finish.{answer_of}
use poe_acp_relay.Router.Prompt.Awaited.{awaited-run_one_turn}
use poe_acp_relay.Router.Queue.{push}
use poe_acp_relay.Router.Sessions.{SessionState, RouterState, get_or_create, conv_key}
use poe_acp_relay.Router.TestDisk.{environment}
use poe_acp_relay.Base.Bytes.{Bytes}
use poe_acp_relay.Router.Prompt.{awaited, Submitted, report_reaction, prompt}
use poe_acp_relay.Router.Prompt.Queued.{IsAnswered, prompt-IsAnswered}

abbrev session : SessionState
session = record {
  id = 1;
  conv_id = "c";
  user_id = "u";
  cwd = "/srv/convs/c";
  runner = test_runner;
  queue = record { q = test_req turn_user ∷ []; in_flight = true; stopped = false; notify = true };
  last_used = 0;
  run_stop = false;
  drain_stop = false;
}

abbrev router : RouterState ℕ
router = record { sessions = ("c", session) ∷ []; agent = 0 }

abbrev photo : Attachment
photo = record {
  url = "https://poe/f";
  content_type = "image/png";
  name = "a.png";
  parsed_content = "";
}

abbrev query : List Turn
query =
    record { role = "user"; content = "hello"; message_id = "m1"; attachments = photo ∷ [] } ∷ []

prompt-IsAnswered_example :
    IsAnswered (prompt test_agent test_config environment router 2 8 "c" "u" query test_options 6)
prompt-IsAnswered_example =
    prompt-IsAnswered test_agent test_config environment router 2 8 "c" "u" query test_options 6

abbrev parameters : List (String × Parameter)
parameters = ("thinking", text_value "huge") ∷ ("model", text_value "m2") ∷ []

overlaid : parse_options parameters test_options ≡ record test_options { model = "m2" }
unfolding parse_options is_level lookup
overlaid = refl

-- The reaction waits behind the turn that is queued, and is no user turn.
abbrev reacted : Submitted ℕ (List Bytes)
reacted = report_reaction test_agent test_config environment router 2 8 "c" "u" "m1" "like" "" 6

report_reaction_test : (reacted.calls ≡ []) × (reacted.failure ≡ none)
unfolding report_reaction get_or_create lookup conv_key push
report_reaction_test = (refl, refl)

awaited-run_one_turn_example :
    (awaited none (run_one_turn test_agent "rules" 9 0 test_runner (test_req turn_user)).req ≡ none)
    ↔ ((◌≡◌ {A = Option String} none none)
        × (stop : StopReason) × ((answer_of test_agent "rules" 0 test_runner (test_req turn_user)).0
            ≡ ok stop))
awaited-run_one_turn_example =
    awaited-run_one_turn test_agent "rules" 9 0 test_runner (test_req turn_user) none refl
