-- ===== src/Command/Startup.antt =====
-- cmd/poe-acp/main.go: how the parts are put together. The flags, the environment and the agent's
-- connection are given; serving and shutting down are not modelled.
pub mod Shown
mod Tests
use Prim.Native.String.{◌++◌ as ◌+++◌}
use poe_acp_relay.Base.{
  Result, ok, err, ℕ, String, Bool, true, false, not, Option, none, some, List, [], ◌∷◌,
  if◌then◌else◌, ◌==◌,
}
use poe_acp_relay.Base.Text.{fields}
use poe_acp_relay.Base.Paths.{join, dir_name}
use poe_acp_relay.Poeproto.Controls.{ParameterControls, SettingsResponse, settings_response_version}
use poe_acp_relay.Policy.{Policy, parse}
use poe_acp_relay.Config.{FileConfig, Opened, load}
use poe_acp_relay.Paramctl.{resolve, build}
use poe_acp_relay.Router.Types.{Options}
use poe_acp_relay.Router.Setup.{Settled, new_router}
use poe_acp_relay.Httpsrv.Handler.{HandlerConfig}
use poe_acp_relay.Acpclient.{Connection, AgentProc, probe_models, models_of}
use poe_acp_relay.Acpclient.Process.{
  StartConfig, Processes, Started, started, refused, panicked, start,
}
use poe_acp_relay.Command.{append_env}

-- The flags that are read behind the parsing, and the bearer secret of the environment.
pub record Flags : Type 0 where
  pub permission : String
  pub state_dir : String
  pub config : String
  pub introduction : String
  pub session_ttl : ℕ
  pub heartbeat_interval : ℕ
  pub allow_attachments : Bool
  pub access_key_env : String
  pub secret : String
  pub agent_cmd : String
  pub agent_dir : String
  pub show_version : Bool
  pub print_catalog : Bool

-- What the command asks of its surroundings: the default paths, the configuration file, `MkdirAll`, the
-- catalogue of skills, and the tables and verbs of Go's library.
pub record Surroundings : Type 0 where
  pub default_config_path : String
  pub default_state_dir : String
  pub open_config : String → Opened
  pub decode : String → Result FileConfig
  pub mkdir : String → Option String
  pub catalog : String → String
  pub environ : List String
  pub to_lower : String → String
  pub quote : String → String

-- The relay as it is wired. `refetch` is the schema that is pushed to Poe, if the bot has a name.
pub record Wired (C : Type 0) : Type 0 where
  pub policy : Policy
  pub client : AgentProc C
  pub settled : Settled
  pub defaults : Options
  pub handler : HandlerConfig
  pub base : SettingsResponse
  pub refetch : Option ParameterControls

abbrev config_path : Surroundings → Flags → String
config_path env flags = if flags.config == "" then env.default_config_path else flags.config

-- The state is kept beside a configuration that was named.
state_dir_of : Surroundings → Flags → String
state_dir_of env flags =
    if not (flags.state_dir == "")
    then flags.state_dir
    else if not (flags.config == "")
    then join (dir_name flags.config ∷ "state" ∷ [])
    else env.default_state_dir

settings_base : Flags → SettingsResponse
settings_base flags = record {
  response_version = settings_response_version;
  allow_attachments = flags.allow_attachments;
  expand_text_attachments = flags.allow_attachments;
  introduction_message = flags.introduction;
  parameter_controls = none;
}

-- How the agent is started: the command is split at its blanks.
start_config : Surroundings → Flags → StartConfig
unfolding state_dir_of
start_config env flags = record {
  command = fields flags.agent_cmd;
  cwd = state_dir_of env flags;
  env = some (
      if flags.agent_dir == ""
      then env.environ
      else append_env env.environ ("FIR_AGENT_DIR=" +++ flags.agent_dir));
  has_policy = true;
}

-- How the command ends up: it prints a text, ends with an error, or serves.
pub data Ran (C : Type 0) : Type 0 where
  printed fatal : String → Ran C
  serving : Wired C → Ran C

module _ (env : Surroundings) (flags : Flags) where
  -- The policy and the configuration; an error is what `main` ends with.
  read_config : Result (Policy × FileConfig)
  read_config = elim (parse env.to_lower env.quote flags.permission) [
    | err e ↦ err ("policy: " +++ e)
    | ok pol ↦
        if flags.secret == ""
        then err ("missing $" +++ (flags.access_key_env +++ " (Poe bearer secret)"))
        else elim (load env.quote env.decode (config_path env flags)
            (env.open_config (config_path env flags))) [
              | err e ↦ err ("config: " +++ e)
              | ok (cfg, found) ↦ ok (pol, cfg)
            ]
  ]

module _ {P C : Type 0} (os : Processes P) (c : Connection C) (env : Surroundings)
    (flags : Flags) where
  -- The wiring behind the router.
  wired : Policy → FileConfig → AgentProc C → Options → Settled → Wired C
  unfolding settings_base
  wired pol cfg client defaults settled = record {
    policy = pol;
    client = client;
    settled = settled;
    defaults = defaults;
    handler = record {
      heartbeat_interval = flags.heartbeat_interval;
      allow_attachments = flags.allow_attachments;
      has_broker = true;
      defaults = defaults;
    };
    base = settings_base flags;
    refetch = if cfg.bot_name == "" then none else some (build (models_of c client).0 defaults);
  }

  -- The part of `main` behind the agent's start; a probe that fails leaves the models unknown.
  wire_agent : Policy → FileConfig → AgentProc C → Result (Wired C)
  unfolding wired state_dir_of
  wire_agent pol cfg a =
      let client = (probe_models c a).1 in
      let (models, current) = models_of c client in
      let defaults = resolve cfg.defaults models current in
      elim (new_router env.mkdir (record {
        has_agent = true;
        state_dir = state_dir_of env flags;
        session_ttl = flags.session_ttl;
        attachment_ttl = 0;
        system_prompt = env.catalog (config_path env flags);
      })) [
        | err e ↦ err ("router: " +++ e)
        | ok settled ↦ ok (wired pol cfg client defaults settled)
      ]

  -- What becomes of the start of the agent; a panic ends `main` too.
  wire_started : Policy → FileConfig → Started C → Result (Wired C)
  unfolding wire_agent
  wire_started pol cfg (started a) = wire_agent pol cfg a
  wire_started pol cfg (refused e) = err ("start agent: " +++ e)
  wire_started pol cfg (panicked e) = err e

  -- The part behind the configuration.
  wire_config : Policy → FileConfig → P → C → Result (Wired C)
  unfolding wire_started start_config
  wire_config pol cfg p conn = elim (env.mkdir (state_dir_of env flags)) [
    | some e ↦ err ("state dir: " +++ e)
    | none ↦ wire_started pol cfg (start os c (start_config env flags) p conn).0
  ]

  -- `main`, up to the server; an error is what it ends with.
  unfoldable pub startup : P → C → Result (Wired C)
  unfolding read_config wire_config
  startup p conn = elim (read_config env flags) [
    | err e ↦ err e
    | ok (pol, cfg) ↦ wire_config pol cfg p conn
  ]

  -- `main` with the flags that only print.
  unfoldable pub run_command : String → P → C → Ran C
  unfolding read_config startup
  run_command version p conn =
      if flags.show_version
      then printed (version +++ "\n")
      else if flags.print_catalog
      then elim (read_config env flags) [
        | err e ↦ fatal e
        | ok _ ↦ printed (env.catalog (config_path env flags))
      ]
      else elim (startup p conn) [ err e ↦ fatal e | ok w ↦ serving w ]

module _ {C : Type 0} (c : Connection C) (env : Surroundings) (flags : Flags) where
  -- The provider of the controls: the agent's models as they are by then, the defaults of the start.
  pub controls_of : Wired C → AgentProc C → ParameterControls
  controls_of w client = build (models_of c client).0 w.defaults
