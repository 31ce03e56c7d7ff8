-- ===== src/Paramctl.antt =====
-- internal/paramctl/paramctl.go, with the defaults of internal/config/config.go that it resolves: the
-- options of a conversation that the user has not touched, and the controls that Poe shows for them.
pub mod Agreement
mod Tests
use Prim.Native.String.{◌++◌ as ◌+++◌}
use poe_acp_relay.Base.{
  Result, ok, err, String, Bool, true, false, not, ◌&&◌, ◌||◌, Option, none, some, List, [], ◌∷◌,
  ◌++◌, map, any, is_empty, if◌then◌else◌, ◌==◌,
}
use poe_acp_relay.Poeproto.Requests.{Parameter, text_value, bool_value}
use poe_acp_relay.Poeproto.Controls.{
  ValueNamePair, Control, Section, ParameterControls, parameter_controls_api_version,
}
use poe_acp_relay.Router.Types.{Options}

-- `config.Defaults`; "" and nil leave a field to the built-in default.
pub record Defaults : Type 0 where
  pub model : String
  pub thinking : String
  pub hide_thinking : Option Bool

-- `acpclient.ModelInfo`
pub record ModelInfo : Type 0 where
  pub id : String
  pub name : String

-- `config.Config.Validate`; `quote` stands for the verb `%q`.
unfoldable pub validate : (String → String) → Defaults → Result (Unit {0})
validate quote d =
    let t = d.thinking in
    if t == ""
      || t == "off"
      || t == "minimal"
      || t == "low"
      || t == "medium"
      || t == "high"
      || t == "xhigh"
      || t == "max"
    then ok tt
    else err (
        "defaults.thinking: invalid "
        +++ (quote t +++ " (want off|minimal|low|medium|high|xhigh|max)"))

-- `ThinkingLevels`
abbrev pub thinking_levels : List ValueNamePair
thinking_levels =
    record { value = "off"; name = "Off" }
    ∷ record { value = "minimal"; name = "Minimal" }
    ∷ record { value = "low"; name = "Low" }
    ∷ record { value = "medium"; name = "Medium" }
    ∷ record { value = "high"; name = "High" }
    ∷ record { value = "xhigh"; name = "Extra-high" }
    ∷ record { value = "max"; name = "Max" }
    ∷ []

abbrev default_thinking : String
default_thinking = "medium"

abbrev default_hide_thinking : Bool
default_hide_thinking = true

unfoldable pub has_model : List ModelInfo → String → Bool
has_model models id = any (λ m. m.id == id) models

-- The model that `Resolve` picks: the configured one, else the agent's current one, each only if the
-- agent lists it.
pick_model : Defaults → List ModelInfo → String → String
unfolding has_model
pick_model cfg models current =
    if not (cfg.model == "")
    then if has_model models cfg.model then cfg.model else ""
    else if not (current == "") && has_model models current
    then current
    else ""

unfoldable pub resolve : Defaults → List ModelInfo → String → Options
unfolding pick_model
resolve cfg models current = record {
  model = if is_empty models then "" else pick_model cfg models current;
  thinking = if cfg.thinking == "" then default_thinking else cfg.thinking;
  hide_thinking = elim cfg.hide_thinking [ none ↦ default_hide_thinking | some b ↦ b ];
}

drop_down : String → String → Option Parameter → List ValueNamePair → Control
drop_down label name value options = record {
  control = "drop_down";
  label = label;
  parameter_name = name;
  description = "";
  default_value = value;
  options = options;
}

-- The dropdown of the models, left out where there are none; "" is no default.
model_control : List ModelInfo → String → List Control
unfolding drop_down
model_control [] model = []
model_control (m ∷ ms) model =
    drop_down "Model" "model" (if model == "" then none else some (text_value model))
      (map (λ i. record { value = i.id; name = i.name }) (m ∷ ms))
    ∷ []

hide_control : Bool → Control
hide_control hide = record {
  control = "toggle_switch";
  label = "Hide thinking output";
  parameter_name = "hide_thinking";
  description = "";
  default_value = some (bool_value hide);
  options = [];
}

-- `Build`
pub build : List ModelInfo → Options → ParameterControls
unfolding model_control drop_down hide_control
build models defaults = record {
  api_version = parameter_controls_api_version;
  sections =
      record {
        name = "Options";
        collapsed_by_default = false;
        controls =
            model_control models defaults.model
            ++ drop_down "Thinking" "thinking" (some (text_value defaults.thinking)) thinking_levels
              ∷ hide_control defaults.hide_thinking
              ∷ [];
      }
      ∷ [];
}
