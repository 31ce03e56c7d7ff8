-- ===== src/Command/Startup/Shown.antt =====
-- The defaults of the relay as it is wired: those it shows and those it applies.
use poe_acp_relay.Base.{
  ◌≡◌, refl, sym, ap, ◌∙◌, subst, inl, inr, Result, ok, err, Result-cases, ℕ, String, Bool, true,
  some, Option-cases, Bool-cases, [], ◌==◌,
}
use poe_acp_relay.Poeproto.Requests.{Request}
use poe_acp_relay.Poeproto.Controls.{ParameterControls, SettingsResponse}
use poe_acp_relay.Policy.{Policy, parse}
use poe_acp_relay.Config.{FileConfig, load}
use poe_acp_relay.Config.Valid.{IsValid, load-IsValid}
use poe_acp_relay.Paramctl.{validate, build}
use poe_acp_relay.Paramctl.Agreement.{
  shown_sections, resolve_thinking, parse_options_nil, parse_options-shown_again,
}
use poe_acp_relay.Router.Query.{is_level, parse_options}
use poe_acp_relay.Router.Agent.{Agent}
use poe_acp_relay.Router.Prompt.{Environment}
use poe_acp_relay.Router.Setup.{new_router}
use poe_acp_relay.Authbroker.{Authenticator}
use poe_acp_relay.Httpsrv.Handler.{Server}
use poe_acp_relay.Httpsrv.Serve.{settings, settings_of, serve_http}
use poe_acp_relay.Acpclient.{Connection, AgentProc, probe_models, models_of}
use poe_acp_relay.Acpclient.Process.{Processes, Started, started, refused, panicked}
use poe_acp_relay.Command.Startup.{
  Flags, Surroundings, Wired, state_dir_of, config_path, wire_agent, wire_started, wire_config,
  read_config, startup, controls_of,
}

IsWired : {C : Type 0} → Result (Wired C) → Type 0
IsWired (ok w) = (is_level w.defaults.thinking ≡ true) × (w.handler.defaults ≡ w.defaults)
IsWired (err e) = Unit

-- The configuration that was read is valid.
IsRead : (String → String) → Result (Policy × FileConfig) → Type 0
IsRead quote (ok (pol, cfg)) = validate quote cfg.defaults ≡ ok tt
IsRead quote (err e) = Unit

read_config-IsRead : (env : Surroundings) (flags : Flags) → IsRead env.quote (read_config env flags)
unfolding read_config IsRead
read_config-IsRead env flags =
    let path = config_path env flags in
    elim (Result-cases (parse env.to_lower env.quote flags.permission)) [
      | inr (_, p) ↦ rw (p, IsRead) tt
      | inl (pol, p) ↦ elim (Bool-cases (flags.secret == "")) [
        | inl s ↦ rw (p, s, IsRead) tt
        | inr s ↦ elim (Result-cases (load env.quote env.decode path (env.open_config path))) [
          | inr (_, l) ↦ rw (p, s, l, IsRead) tt
          | inl ((cfg, found), l) ↦
              rw (p, s, l, IsRead)
                (subst (IsValid env.quote) l
                  (load-IsValid env.quote env.decode path (env.open_config path)))
        ]
      ]
    ]

module _ {P C : Type 0} (os : Processes P) (c : Connection C) (env : Surroundings)
    (flags : Flags) where
  wire_agent-IsWired :
      (pol : Policy) (cfg : FileConfig) (a : AgentProc C)
      → validate env.quote cfg.defaults ≡ ok tt
      → IsWired (wire_agent os c env flags pol cfg a)
  unfolding wire_agent IsWired
  wire_agent-IsWired pol cfg a valid =
      let (models, current) = models_of c (probe_models c a).1 in
      elim (Result-cases (
        new_router env.mkdir (record {
          has_agent = true;
          state_dir = state_dir_of env flags;
          session_ttl = flags.session_ttl;
          attachment_ttl = 0;
          system_prompt = env.catalog (config_path env flags);
        }))) [
          | inr (_, r) ↦ rw (r, IsWired) tt
          | inl (settled, r) ↦
              rw (r, IsWired) (resolve_thinking env.quote cfg.defaults models current valid, refl)
        ]

  wire_started-IsWired :
      (pol : Policy) (cfg : FileConfig) (s : Started C)
      → validate env.quote cfg.defaults ≡ ok tt
      → IsWired (wire_started os c env flags pol cfg s)
  unfolding wire_started IsWired
  wire_started-IsWired pol cfg (started a) valid = wire_agent-IsWired pol cfg a valid
  wire_started-IsWired pol cfg (refused e) valid = tt
  wire_started-IsWired pol cfg (panicked e) valid = tt

  wire_config-IsWired :
      (pol : Policy) (cfg : FileConfig) (p : P) (conn : C)
      → validate env.quote cfg.defaults ≡ ok tt
      → IsWired (wire_config os c env flags pol cfg p conn)
  unfolding wire_config IsWired
  wire_config-IsWired pol cfg p conn valid =
      elim (Option-cases (env.mkdir (state_dir_of env flags))) [
        | inr (_, e) ↦ rw (e, IsWired) tt
        | inl e ↦ rw (e, IsWired) (wire_started-IsWired pol cfg _ valid)
      ]

  startup-IsWired : (p : P) (conn : C) → IsWired (startup os c env flags p conn)
  unfolding startup IsWired
  startup-IsWired p conn = elim (Result-cases (read_config env flags)) [
    | inr (_, e) ↦ rw (e, IsWired) tt
    | inl ((pol, cfg), e) ↦
        rw (e, IsWired)
          (wire_config-IsWired pol cfg p conn
            (unfold IsRead in subst (IsRead env.quote) e (read_config-IsRead env flags)))
  ]

shown_defaults :
    {C : Type 0} (c : Connection C) (env : Surroundings) (flags : Flags) (w : Wired C)
    (later : AgentProc C)
    → IsWired (ok w)
    → parse_options (shown_sections (controls_of c env flags w later).sections) w.handler.defaults
      ≡ parse_options [] w.handler.defaults
unfolding IsWired controls_of
shown_defaults c env flags w later (level, same) =
    let shown = shown_sections (build (models_of c later).0 w.defaults).sections in
    ap (parse_options shown) same
    ∙ (parse_options-shown_again (models_of c later).0 w.defaults level
        ∙ (sym same ∙ sym (parse_options_nil w.handler.defaults)))

-- However the relay was started, and whatever models the agent has by the time Poe asks for the
-- settings, the answer has controls such that parameters with the default values that they declare are
-- read as the options that a query without parameters gets.
pub startup-serve_http :
    {P C A S : Type 0} (os : Processes P) (c : Connection C) (env : Surroundings) (flags : Flags)
    (p : P) (conn : C) (w : Wired C) (later : AgentProc C) (agent : Agent A) (penv : Environment S)
    (io : ℕ → Bool) (auth : Authenticator A) (s : Server A) (session id : ℕ) (req : Request)
    (now : ℕ)
    → startup os c env flags p conn ≡ ok w
    → req.kind ≡ "settings"
    → (answer : SettingsResponse) × (controls : ParameterControls) × (serve_http agent
          w.settled.config penv io w.handler auth w.base
          (some (some (controls_of c env flags w later)))
          s
          session
          id
          "POST"
          (ok req)
          now
        ≡ settings answer s)
      × (answer.parameter_controls ≡ some controls)
      × (parse_options (shown_sections controls.sections) w.handler.defaults
          ≡ parse_options [] w.handler.defaults)
unfolding serve_http settings_of
startup-serve_http os c env flags p conn w later agent penv io auth s session id req now up asked =
    let controls = controls_of c env flags w later in
    (
      record w.base { parameter_controls = some controls },
      controls,
      rw asked refl,
      refl,
      shown_defaults c env flags w later (subst IsWired up (startup-IsWired os c env flags p conn)),
    )
