-- ===== src/Httpsrv/Serve/Tests.antt =====
-- The dispatch at concrete inputs.
use poe_acp_relay.Base.{ok, err, ℕ, ◌≡◌, refl, true, false, none, some, [], ◌==◌}
use poe_acp_relay.Poeproto.Requests.{Request}
use poe_acp_relay.Poeproto.Controls.{
  SettingsResponse, ParameterControls, settings_response_version, parameter_controls_api_version,
}
use poe_acp_relay.Router.TestAgent.{test_agent, test_config, test_options, empty_router}
use poe_acp_relay.Router.TestDisk.{environment}
use poe_acp_relay.Authbroker.{Authenticator}
use poe_acp_relay.Httpsrv.Handler.{HandlerConfig, Server}
use poe_acp_relay.Httpsrv.Serve.{answered, settings, serve_http}

abbrev cfg : HandlerConfig
cfg = record {
  heartbeat_interval = 1;
  allow_attachments = true;
  has_broker = false;
  defaults = test_options;
}

abbrev no_login : Authenticator ℕ
no_login = record {
  auth_methods = λ n. [];
  authenticate = λ n method id redirect cancel. (err "none", n);
  to_lower = λ s. s;
  equal_fold = λ s t. s == t;
  quote = λ s. s;
}

abbrev server : Server ℕ
server = record { router = empty_router; pending = [] }

abbrev base : SettingsResponse
base = record {
  response_version = settings_response_version;
  allow_attachments = true;
  expand_text_attachments = true;
  introduction_message = "hi";
  parameter_controls = none;
}

abbrev no_controls : ParameterControls
no_controls = record { api_version = parameter_controls_api_version; sections = [] }

abbrev ask : Request
ask = record {
  kind = "settings";
  query = [];
  message_id = "";
  user_id = "";
  conversation_id = "";
  reaction = "";
  reaction_action = "";
}

wrong_method :
    serve_http test_agent test_config environment
      (λ k. true)
      cfg
      no_login
      base
      none
      server
      1
      1
      "GET"
      (ok ask)
      0
    ≡ answered 405 "method not allowed" server
unfolding serve_http
wrong_method = refl

settings_test :
    serve_http test_agent test_config environment
      (λ k. true)
      cfg
      no_login
      base
      (some (some no_controls))
      server
      1
      1
      "POST"
      (ok ask)
      0
    ≡ settings (record base { parameter_controls = some no_controls }) server
unfolding serve_http
settings_test = refl
