-- ===== src/Httpsrv/Serve.antt =====
-- `ServeHTTP` of internal/httpsrv/handler.go: the dispatch of a request by its method and type.
mod Tests
use Prim.Native.String.{◌++◌ as ◌+++◌}
use poe_acp_relay.Base.{
  Result, ok, err, ℕ, String, Bool, true, false, not, ◌||◌, Option, none, some, if◌then◌else◌, ◌==◌,
}
use poe_acp_relay.Poeproto.Requests.{Request}
use poe_acp_relay.Poeproto.Controls.{ParameterControls, SettingsResponse}
use poe_acp_relay.Router.Agent.{Agent}
use poe_acp_relay.Router.Sessions.{Config}
use poe_acp_relay.Router.Prompt.{Environment}
use poe_acp_relay.Authbroker.{Authenticator}
use poe_acp_relay.Httpsrv.Handler.{HandlerConfig, Server, Answered, handle_query, handle_reaction}

-- The answer of a request: a status with a text, the settings as JSON, or the stream of a query; and
-- what becomes of the server.
pub data Served (A S : Type 0) : Type 0 where
  answered : ℕ → String → Server A → Served A S
  settings : SettingsResponse → Server A → Served A S
  streamed : Answered A S → Served A S

-- The settings, with the controls of the provider if there is one.
unfoldable pub settings_of : SettingsResponse → Option (Option ParameterControls) → SettingsResponse
settings_of base none = base
settings_of base (some controls) = record base { parameter_controls = controls }

module _ {A S : Type 0} (agent : Agent A) (rcfg : Config) (env : Environment S) (io : ℕ → Bool)
    (cfg : HandlerConfig) (auth : Authenticator A) (base : SettingsResponse)
    (provider : Option (Option ParameterControls)) where
  serve_request : Server A → ℕ → ℕ → Request → ℕ → Served A S
  unfolding settings_of
  serve_request s session id req now =
      if req.kind == "settings"
      then settings (settings_of base provider) s
      else if req.kind == "query"
      then streamed (handle_query agent rcfg env io cfg auth s session id req now)
      else if req.kind == "report_reaction"
      then answered 200 "" (handle_reaction agent rcfg env s session id req now)
      else if req.kind == "report_feedback" || req.kind == "report_error"
      then answered 200 "" s
      else answered 400 ("unknown request type: " +++ req.kind) s

  -- `ServeHTTP`; the body is given as `Decode` reads it.
  unfoldable pub serve_http : Server A → ℕ → ℕ → String → Result Request → ℕ → Served A S
  unfolding serve_request
  serve_http s session id method body now =
      if method == "POST"
      then elim body [ err e ↦ answered 400 e s | ok req ↦ serve_request s session id req now ]
      else answered 405 "method not allowed" s
