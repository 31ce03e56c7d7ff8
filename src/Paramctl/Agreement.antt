-- ===== src/Paramctl/Agreement.antt =====
-- What the controls declare and offer, against what the relay applies and accepts.
use poe_acp_relay.Base.{
  ok, String, ◌≡◌, refl, sym, ◌∙◌, ◌⊎◌, ◌↔◌, inl, inr, true, false, none, some, List, [], ◌∷◌, ◌++◌,
  arith, any, is_empty, if◌then◌else◌, ◌==◌, Dict, lookup, Bool-cases, eq-cases, subst,
}
use poe_acp_relay.Poeproto.Requests.{Parameter}
use poe_acp_relay.Poeproto.Controls.{Control, Section}
use poe_acp_relay.Router.Types.{Options}
use poe_acp_relay.Router.Query.{is_level, parse_options}
use poe_acp_relay.Paramctl.{
  Defaults, ModelInfo, validate, thinking_levels, has_model, pick_model, resolve, model_control,
  hide_control, drop_down, build,
}

-- The parameters that give each control the value that it declares as its default; a control without a
-- default has none.
abbrev pub shown_controls : List Control → Dict Parameter
shown_controls [] = []
shown_controls (c ∷ cs) =
    let rest = shown_controls cs in
    elim c.default_value [ none ↦ rest | some v ↦ (c.parameter_name, v) ∷ rest ]

abbrev pub shown_sections : List Section → Dict Parameter
shown_sections [] = []
shown_sections (s ∷ ss) = shown_controls s.controls ++ shown_sections ss

-- What `Validate` lets through is "" or a level.
validate-is_level :
    (quote : String → String) (d : Defaults)
    → (d.thinking == "") ≡ false
    → validate quote d ≡ ok tt
    → is_level d.thinking ≡ true
unfolding validate is_level
validate-is_level quote d named h = ground arith

pub resolve_thinking :
    (quote : String → String) (cfg : Defaults) (models : List ModelInfo) (current : String)
    → validate quote cfg ≡ ok tt
    → is_level (resolve cfg models current).thinking ≡ true
unfolding resolve
resolve_thinking quote cfg models current h = elim (Bool-cases (cfg.thinking == "")) [
  | inl e ↦ rw e (unfold is_level in refl)
  | inr e ↦ rw e (validate-is_level quote cfg e h)
]

-- The model that is resolved is one that the agent lists, or none.
pub resolve-has_model :
    (cfg : Defaults) (models : List ModelInfo) (current : String)
    → ((resolve cfg models current).model ≡ "")
      ⊎ (has_model models (resolve cfg models current).model ≡ true)
unfolding resolve pick_model
resolve-has_model cfg models current = ground arith

-- The controls for a level and a model that is shown wherever it is set read back as they were.
parse_options-shown :
    (models : List ModelInfo) (o old : Options)
    → is_level o.thinking ≡ true
    → (is_empty models ≡ true → o.model ≡ "")
    → parse_options (shown_sections (build models o).sections) old
      ≡ record o { model = if o.model == "" then old.model else o.model }
unfolding parse_options build model_control drop_down hide_control lookup
parse_options-shown [] o old level absent = rw (level, absent refl) refl
parse_options-shown (m ∷ ms) o old level absent = elim (Bool-cases (o.model == "")) [
  | inl e ↦ rw (e, level) refl
  | inr e ↦ rw (e, level) refl
]

-- Parameters that give each control what it declares for these options change nothing in them, whatever
-- models the agent has by then.
pub parse_options-shown_again :
    (models : List ModelInfo) (o : Options)
    → is_level o.thinking ≡ true
    → parse_options (shown_sections (build models o).sections) o ≡ o
unfolding parse_options build model_control drop_down hide_control lookup
parse_options-shown_again [] o level = rw level refl
parse_options-shown_again (m ∷ ms) o level = elim (Bool-cases (o.model == "")) [
  | inl e ↦ rw (e, level) refl
  | inr e ↦ rw (e, level) refl
]

-- Without parameters the options stay.
pub parse_options_nil : (o : Options) → parse_options [] o ≡ o
unfolding parse_options lookup
parse_options_nil o = refl

-- Parameters that give each control the default value that it declares are read as the resolved
-- defaults, whatever the options were before; where no model is resolved, and so none is declared, the
-- model stays. Read onto the resolved defaults they give the same as no parameters at all.
pub parse_options-build :
    (quote : String → String) (cfg : Defaults) (models : List ModelInfo) (current : String)
    (old : Options)
    → validate quote cfg ≡ ok tt
    → (parse_options (shown_sections (build models (resolve cfg models current)).sections) old
        ≡ record (resolve cfg models current) {
          model =
              if (resolve cfg models current).model == ""
              then old.model
              else (resolve cfg models current).model;
        })
      × (parse_options
            (shown_sections (build models (resolve cfg models current)).sections)
            (resolve cfg models current)
          ≡ parse_options [] (resolve cfg models current))
parse_options-build quote cfg models current old h =
    let level = resolve_thinking quote cfg models current h in
    (
      parse_options-shown models (resolve cfg models current) old level
          (λ e. unfold resolve in rw e refl),
      parse_options-shown_again models (resolve cfg models current) level
          ∙ sym (parse_options_nil (resolve cfg models current)),
    )

is_level-named : (v : String) → is_level v ≡ true → (v == "") ≡ false
unfolding is_level
is_level-named v h = elim (eq-cases v "") [
  | inl e ↦ ground (arith, subst (λ x. is_level x ≡ true) e h)
  | inr n ↦ n
]

-- One set of thinking levels: a text is a level that a query can ask for exactly where the dropdown
-- offers it, and exactly where the configuration may name it, "" apart.
pub is_level_iff :
    (quote : String → String) (v : String)
    → ((is_level v ≡ true) ↔ (any (λ p. v == p.value) thinking_levels ≡ true))
      × ((is_level v ≡ true) ↔ (
          ((v == "") ≡ false)
          × (validate quote (record { model = ""; thinking = v; hide_thinking = none }) ≡ ok tt)))
unfolding is_level validate
is_level_iff quote v = (
  (λ h. ground (arith, h), λ h. ground (arith, h)),
  (
    λ h. (is_level-named v h, ground (arith, h)),
    λ (n, h).
        validate-is_level quote (record { model = ""; thinking = v; hide_thinking = none }) n h,
  ),
)
