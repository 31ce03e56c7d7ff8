-- ===== src/Command/Startup/Tests.antt =====
-- A start at a concrete input: the agent gives one model, and the configuration asks for it.
use poe_acp_relay.Base.{
  ok, err, ◌≡◌, refl, ◌*◌, delete, insert, ℕ, suc, true, false, none, some, List, String, [], ◌∷◌,
  ◌==◌,
}
use poe_acp_relay.Base.Text.{trim_space, fields}
use poe_acp_relay.Poeproto.Requests.{Request}
use poe_acp_relay.Poeproto.Controls.{ParameterControls, SettingsResponse, settings_response_version}
use poe_acp_relay.Policy.{allow_all, parse}
use poe_acp_relay.Config.{FileConfig, opened, load}
use poe_acp_relay.Paramctl.{validate, resolve, has_model}
use poe_acp_relay.Paramctl.Agreement.{shown_sections}
use poe_acp_relay.Router.Types.{Options}
use poe_acp_relay.Router.Query.{parse_options}
use poe_acp_relay.Router.Agent.{end_turn}
use poe_acp_relay.Router.TestDisk.{environment}
use poe_acp_relay.Router.TestAgent.{test_agent, no_failure, empty_router}
use poe_acp_relay.Router.Setup.{new_router}
use poe_acp_relay.Authbroker.{Authenticator}
use poe_acp_relay.Httpsrv.Handler.{Server}
use poe_acp_relay.Httpsrv.Serve.{settings, serve_http}
use poe_acp_relay.Acpclient.{
  InitializeResponse, parse_caps, NewSessionResponse, ModelState, Connection, AgentProc,
  probe_models, connect, models_of,
}
use poe_acp_relay.Command.Startup.{
  Flags, Surroundings, Wired, startup, controls_of, run_command, printed, fatal,
}
use poe_acp_relay.Acpclient.Process.{Processes, start}
use poe_acp_relay.Command.Startup.Shown.{startup-serve_http}

abbrev hello : InitializeResponse
hello = record {
  load_session = false;
  list = false;
  resume = false;
  embedded_context = true;
  meta_keys = [];
  auth_methods = [];
}

abbrev known : ModelState
known = record { available = record { id = "a/m"; name = "M" } ∷ []; current = "a/m" }

abbrev probed : NewSessionResponse
probed = record { session_id = "probe"; models = some known }

abbrev wire : Connection ℕ
wire = record {
  initialize = λ n. (ok hello, suc n);
  new_session = λ cwd blocks n. (ok probed, suc n);
  set_model = λ sid model n. (none, n);
  set_config_option = λ sid key v n. (none, n);
  list_sessions = λ cwd n. (ok [], n);
  resume_session = λ cwd sid n. (none, n);
  prompt = λ sid blocks n. (ok end_turn, n);
  notify_cancel = λ sid n. (none, n);
  authenticate = λ method meta n. (err "no login", n);
  make_temp = λ n. ("/tmp/probe", n);
  remove_all = λ path n. n;
}

abbrev flags : Flags
flags = record {
  permission = "allow-all";
  state_dir = "/s";
  config = "";
  introduction = "hi";
  session_ttl = 50;
  heartbeat_interval = 1;
  allow_attachments = true;
  access_key_env = "KEY";
  secret = "secret";
  agent_cmd = "fir --mode acp";
  agent_dir = "";
  show_version = false;
  print_catalog = false;
}

abbrev file : FileConfig
file = record {
  bot_name = "";
  defaults = record { model = "a/m"; thinking = "low"; hide_thinking = none };
  profile = "";
}

abbrev env : Surroundings
env = record {
  default_config_path = "/c/config.json";
  default_state_dir = "/state";
  open_config = λ path. opened "{}";
  decode = λ text. ok file;
  mkdir = no_failure;
  catalog = λ path. "";
  environ = "HOME=/root" ∷ [];
  to_lower = λ s. s;
  quote = λ s. s;
}

abbrev defaults : Options
defaults = record { model = "a/m"; thinking = "low"; hide_thinking = true }

abbrev client : AgentProc ℕ
client = record {
  conn = 2;
  caps = parse_caps hello;
  sinks = [];
  models = some known;
  auth_methods = [];
}

abbrev running : Wired ℕ
running = record {
  policy = allow_all;
  client = client;
  settled = record {
    config = record { state_dir = "/s"; session_ttl = 50; system_prompt = "" };
    attachment_ttl = 30 * (24 * (3_600 * 1_000_000_000));
  };
  defaults = defaults;
  handler = record {
    heartbeat_interval = 1;
    allow_attachments = true;
    has_broker = true;
    defaults = defaults;
  };
  base = record {
    response_version = settings_response_version;
    allow_attachments = true;
    expand_text_attachments = true;
    introduction_message = "hi";
    parameter_controls = none;
  };
  refetch = none;
}

-- The state is the last command that was started.
abbrev shell : Processes (List String)
shell = record {
  temp_dir = "/tmp";
  stdin_pipe = λ p. (none, p);
  stdout_pipe = λ p. (none, p);
  spawn = λ s p. (none, s.path ∷ s.args);
  interrupt = λ p. p;
  wait_for = λ p. (true, p);
  kill = λ p. p;
  wait = λ p. p;
}

started : startup shell wire env flags [] 0 ≡ ok running
unfolding startup parse trim_space load validate start connect probe_models models_of resolve
    has_model new_router delete insert fields
started = refl

version_test :
    run_command shell wire env (record flags { show_version = true }) "0.1.0" [] 0
    ≡ printed "0.1.0\n"
unfolding run_command
version_test = refl

no_secret_test :
    run_command shell wire env (record flags { secret = ""; print_catalog = true }) "0.1.0" [] 0
    ≡ fatal "missing $KEY (Poe bearer secret)"
unfolding run_command parse trim_space
no_secret_test = refl

abbrev no_login : Authenticator ℕ
no_login = record {
  auth_methods = λ n. [];
  authenticate = λ n method id redirect cancel. (err "none", n);
  to_lower = λ s. s;
  equal_fold = λ s t. s == t;
  quote = λ s. s;
}

abbrev server : Server ℕ
server = record { router = empty_router; pending = [] }

abbrev ask : Request
ask = record {
  kind = "settings";
  query = [];
  message_id = "";
  user_id = "";
  conversation_id = "";
  reaction = "";
  reaction_action = "";
}

startup-serve_http_example :
    (answer : SettingsResponse) × (controls : ParameterControls) × (serve_http test_agent
        running.settled.config environment
        (λ k. true)
        running.handler
        no_login
        running.base
        (some (some (controls_of wire env flags running client)))
        server
        1
        1
        "POST"
        (ok ask)
        0
      ≡ settings answer server)
    × (answer.parameter_controls ≡ some controls)
    × (parse_options (shown_sections controls.sections) running.handler.defaults
        ≡ parse_options [] running.handler.defaults)
startup-serve_http_example =
    startup-serve_http shell wire env flags [] 0 running client test_agent environment (λ k. true)
      no_login server 1 1 ask 0 started refl
