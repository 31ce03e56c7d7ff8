-- ===== src/Router/Agent.antt =====
-- The agent behind internal/router/router.go's interface `Agent`: a process of its own, which the
-- development takes as a parameter. `A` is its state, and each call returns the state after it.
use poe_acp_relay.Base.{String, Bool, Option, List, Result}
use poe_acp_relay.Router.Types.{ContentBlock}
use poe_acp_relay.Router.Drain.{Update}

-- `acpclient.Caps`
pub record Caps : Type 0 where
  pub load_session : Bool
  pub list_sessions : Bool
  pub resume_session : Bool
  pub embedded_context : Bool
  pub system_prompt : Bool

-- `acp.StopReason`; the protocol's values, and any other text.
pub data StopReason : Type 0 where
  end_turn max_tokens max_turn_requests refusal cancelled : StopReason
  other_reason : String → StopReason

-- `prompt` also gives the session updates that reach the channel before the call returns.
pub record Agent (A : Type 0) : Type 0 where
  pub caps : Caps
  pub new_session : A → String → List ContentBlock → Result String × A
  pub list_sessions : A → String → Result (List String) × A
  pub resume_session : A → String → String → Option String × A
  pub prompt : A → String → List ContentBlock → Result StopReason × List Update × A
  pub cancel : A → String → Option String × A
  pub set_model : A → String → String → Option String × A
  pub set_config_option : A → String → String → String → Option String × A
