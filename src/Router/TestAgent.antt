-- ===== src/Router/TestAgent.antt =====
-- An agent to run the tests with: its state counts the calls, it numbers its sessions, answers with a
-- thought and a message, and can resume one session.
use Prim.Native.Nat.{suc}
use poe_acp_relay.Base.{ok, ℕ, String, true, false, Option, none, [], ◌∷◌}
use poe_acp_relay.Router.Types.{Options, TurnKind, text_block, TurnReq}
use poe_acp_relay.Router.Drain.{message_chunk, thought_chunk}
use poe_acp_relay.Router.Agent.{Agent, max_tokens}
use poe_acp_relay.Router.Turn.{RunnerState}
use poe_acp_relay.Router.Sessions.{Config, RouterState}

abbrev pub test_agent : Agent ℕ
test_agent = record {
  caps = record {
    load_session = false;
    list_sessions = true;
    resume_session = true;
    embedded_context = false;
    system_prompt = false;
  };
  new_session = λ a cwd sys. (ok "new", suc a);
  list_sessions = λ a cwd. (ok [], suc a);
  resume_session = λ a cwd sid. (none, suc a);
  prompt = λ a sid blocks. (ok max_tokens, thought_chunk "hm" ∷ message_chunk "hello" ∷ [], suc a);
  cancel = λ a sid. (none, suc a);
  set_model = λ a sid model. (none, suc a);
  set_config_option = λ a sid key value. (none, suc a);
}

abbrev pub test_options : Options
test_options = record { model = "m"; thinking = "high"; hide_thinking = false }

abbrev pub test_req : TurnKind → TurnReq
test_req kind = record {
  id = 7;
  kind = kind;
  opts = test_options;
  blocks = text_block "hi" ∷ [];
  hide_thinking = false;
  enqueued_at = 5;
  done = false;
  err = none;
  shed = false;
}

abbrev pub test_runner : RunnerState
test_runner = record {
  session_id = "s";
  applied = record { model = ""; thinking = ""; hide_thinking = false };
  pending_system_prompt_inline = true;
}

abbrev pub test_config : Config
test_config = record { state_dir = "/srv"; session_ttl = 100; system_prompt = "rules" }

abbrev pub no_failure : String → Option String
no_failure path = none

abbrev pub empty_router : RouterState ℕ
empty_router = record { sessions = []; agent = 0 }
