-- ===== src/Acpclient.antt =====
-- internal/acpclient/agent.go: the client end of ACP, behind JSON-RPC. The connection to the agent is a
-- record of one operation for each request, on a state of its own.
pub mod Files
pub mod Dispatch
pub mod Routing
pub mod Process
mod Tests
use Prim.Native.String.{◌++◌ as ◌+++◌}
use poe_acp_relay.Base.{
  Result, ok, err, ℕ, String, Bool, true, false, not, Option, none, some, List, [], ◌∷◌, ◌++◌, map,
  any, if◌then◌else◌, ◌==◌, Dict, lookup, insert, delete,
}
use poe_acp_relay.Router.Types.{ContentBlock}
use poe_acp_relay.Router.Agent.{Caps, StopReason}
use poe_acp_relay.Authbroker.{AuthMethod, AuthResult}
use poe_acp_relay.Paramctl.{ModelInfo}

-- The parts of an `initialize` response that are read, with what is absent as false or empty.
pub record InitializeResponse : Type 0 where
  pub load_session : Bool
  pub list : Bool
  pub resume : Bool
  pub embedded_context : Bool
  pub meta_keys : List String
  pub auth_methods : List AuthMethod

-- `parseCaps`
unfoldable pub parse_caps : InitializeResponse → Caps
parse_caps r = record {
  load_session = r.load_session;
  list_sessions = r.list;
  resume_session = r.resume;
  embedded_context = r.embedded_context;
  system_prompt = any (λ key. key == "session.systemPrompt") r.meta_keys;
}

-- `acp.SessionModelState`
pub record ModelState : Type 0 where
  pub available : List ModelInfo
  pub current : String

-- `acp.NewSessionResponse`
pub record NewSessionResponse : Type 0 where
  pub session_id : String
  pub models : Option ModelState

-- The values of the `_meta.auth` of a login.
pub data AuthValue : Type 0 where
  flag : Bool → AuthValue
  word : String → AuthValue

-- The requests of the client; `notify_cancel` is a notification. The blocks of `new_session` go into
-- its `_meta`, none leaves it out. Temporary directories are the operating system's.
pub record Connection (C : Type 0) : Type 0 where
  pub initialize : C → Result InitializeResponse × C
  pub new_session : String → Option (List ContentBlock) → C → Result NewSessionResponse × C
  pub set_model : String → String → C → Option String × C
  pub set_config_option : String → String → String → C → Option String × C
  pub list_sessions : String → C → Result (List String) × C
  pub resume_session : String → String → C → Option String × C
  pub prompt : String → List ContentBlock → C → Result StopReason × C
  pub notify_cancel : String → C → Option String × C
  pub authenticate : String → List (String × AuthValue) → C → Result AuthResult × C
  pub make_temp : C → String × C
  pub remove_all : String → C → C

-- `AgentProc`; a sink is known by a number.
pub record AgentProc (C : Type 0) : Type 0 where
  pub conn : C
  pub caps : Caps
  pub sinks : Dict ℕ
  pub models : Option ModelState
  pub auth_methods : List AuthMethod

-- `_meta.auth` of `Authenticate`
auth_meta : String → String → Bool → List (String × AuthValue)
auth_meta id redirect cancel =
    ("interactive", flag true) ∷ (if id == "" then [] else ("id", word id) ∷ [])
    ++ ((if redirect == "" then [] else ("redirect", word redirect) ∷ [])
        ++ (if cancel then ("cancel", flag true) ∷ [] else []))

-- The number of `noopSink`.
abbrev noop_sink : ℕ
noop_sink = 0

module _ {C : Type 0} (c : Connection C) where
  -- `connect`
  unfoldable pub connect : C → Result (AgentProc C) × C
  unfolding parse_caps
  connect conn =
      let (r, conn1) = c.initialize conn in
      elim r [
        | err e ↦ (err ("acp initialize: " +++ e), conn1)
        | ok init ↦ (
          ok (record {
            conn = conn1;
            caps = parse_caps init;
            sinks = [];
            models = none;
            auth_methods = init.auth_methods;
          }),
          conn1,
        )
      ]

  -- What a new session leaves in the client: its sink, and the models if the agent gave some.
  add_session : AgentProc C → ℕ → NewSessionResponse → AgentProc C
  add_session a sink r = record a {
    sinks = insert r.session_id sink a.sinks;
    models = elim r.models [ none ↦ a.models | some m ↦ some m ];
  }

  created : AgentProc C → ℕ → Result NewSessionResponse → Result String × AgentProc C
  unfolding add_session
  created a sink (err e) = (err e, a)
  created a sink (ok resp) = (ok resp.session_id, add_session a sink resp)

  -- `NewSession`
  unfoldable pub new_session :
      AgentProc C → String → ℕ → Option (List ContentBlock) → Result String × AgentProc C
  unfolding created
  new_session a cwd sink blocks =
      let (r, conn) = c.new_session cwd blocks a.conn in created (record a { conn = conn }) sink r

  -- `SetModel`
  pub set_model : AgentProc C → String → String → Option String × AgentProc C
  set_model a sid model =
      let (e, conn) = c.set_model sid model a.conn in (e, record a { conn = conn })

  -- `SetConfigOption`
  pub set_config_option : AgentProc C → String → String → String → Option String × AgentProc C
  set_config_option a sid config v =
      let (e, conn) = c.set_config_option sid config v a.conn in (e, record a { conn = conn })

  -- `Models`
  unfoldable pub models_of : AgentProc C → List ModelInfo × String
  models_of a = elim a.models [ none ↦ ([], "") | some m ↦ (m.available, m.current) ]

  -- The end of `ProbeModels`: the session of the probe has no sink.
  drop_sink : Result String → AgentProc C → Option String × AgentProc C
  drop_sink (err e) a = (some ("probe: new session: " +++ e), a)
  drop_sink (ok sid) a = (none, record a { sinks = delete sid a.sinks })

  -- `ProbeModels` where no models are known.
  probe : AgentProc C → Option String × AgentProc C
  unfolding new_session drop_sink
  probe a =
      let (cwd, conn) = c.make_temp a.conn in
      let (r, a1) = new_session (record a { conn = conn }) cwd noop_sink none in
      let (e, a2) = drop_sink r a1 in (e, record a2 { conn = c.remove_all cwd a2.conn })

  -- `ProbeModels`
  unfoldable pub probe_models : AgentProc C → Option String × AgentProc C
  unfolding probe
  probe_models a = elim a.models [ some m ↦ (none, a) | none ↦ probe a ]

  -- `ListSessions`
  pub list_sessions : AgentProc C → String → Result (List String) × AgentProc C
  list_sessions a cwd = let (r, conn) = c.list_sessions cwd a.conn in (r, record a { conn = conn })

  -- `ResumeSession`
  unfoldable pub resume_session : AgentProc C → String → String → ℕ → Option String × AgentProc C
  resume_session a cwd sid sink =
      let (e, conn) = c.resume_session cwd sid a.conn in
      elim e [
        | some failure ↦ (some failure, record a { conn = conn })
        | none ↦ (none, record a { conn = conn; sinks = insert sid sink a.sinks })
      ]

  -- `Prompt`
  pub prompt : AgentProc C → String → List ContentBlock → Result StopReason × AgentProc C
  prompt a sid blocks = let (r, conn) = c.prompt sid blocks a.conn in (r, record a { conn = conn })

  -- `Cancel`
  pub cancel : AgentProc C → String → Option String × AgentProc C
  cancel a sid = let (e, conn) = c.notify_cancel sid a.conn in (e, record a { conn = conn })

  -- `Authenticate`
  pub authenticate : AgentProc C → String → String → String → Bool → Result AuthResult × AgentProc C
  unfolding auth_meta
  authenticate a method id redirect cancelled =
      let (r, conn) = c.authenticate method (auth_meta id redirect cancelled) a.conn in
      (r, record a { conn = conn })

-- `sinkFor`
pub sink_for : {C : Type 0} → AgentProc C → String → Option ℕ
sink_for a sid = lookup sid a.sinks
