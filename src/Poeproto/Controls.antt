-- ===== src/Poeproto/Controls.antt =====
-- The settings answer of internal/poeproto/poeproto.go: the schema of the controls that Poe shows.
use poe_acp_relay.Base.{ℕ, String, Bool, Option, List}
use poe_acp_relay.Poeproto.Requests.{Parameter}

-- `ValueNamePair`
pub record ValueNamePair : Type 0 where
  pub value : String
  pub name : String

-- `Control`; `default_value` is nil or a value of the type of the control.
pub record Control : Type 0 where
  pub control : String
  pub label : String
  pub parameter_name : String
  pub description : String
  pub default_value : Option Parameter
  pub options : List ValueNamePair

-- `Section`
pub record Section : Type 0 where
  pub name : String
  pub collapsed_by_default : Bool
  pub controls : List Control

-- `ParameterControls`
pub record ParameterControls : Type 0 where
  pub api_version : String
  pub sections : List Section

-- `ParameterControlsAPIVersion`
abbrev pub parameter_controls_api_version : String
parameter_controls_api_version = "2"

-- `SettingsResponse`
pub record SettingsResponse : Type 0 where
  pub response_version : ℕ
  pub allow_attachments : Bool
  pub expand_text_attachments : Bool
  pub introduction_message : String
  pub parameter_controls : Option ParameterControls

-- `SettingsResponseVersion`
abbrev pub settings_response_version : ℕ
settings_response_version = 2
