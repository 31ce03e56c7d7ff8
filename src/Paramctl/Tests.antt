-- ===== src/Paramctl/Tests.antt =====
-- Defaults and controls at concrete inputs.
use Prim.Native.String.{◌++◌ as ◌+++◌}
use poe_acp_relay.Base.{
  String, ◌≡◌, refl, true, false, none, some, List, [], ◌∷◌, if◌then◌else◌, ◌==◌,
}
use poe_acp_relay.Router.Types.{Options}
use poe_acp_relay.Router.Query.{parse_options}
use poe_acp_relay.Paramctl.{Defaults, ModelInfo, validate, resolve, build}
use poe_acp_relay.Paramctl.Agreement.{shown_sections, parse_options-build}

abbrev quoted : String → String
quoted s = "\"" +++ (s +++ "\"")

abbrev two_models : List ModelInfo
two_models = record { id = "a/big"; name = "Big" } ∷ record { id = "a/small"; name = "Small" } ∷ []

abbrev chosen : Defaults
chosen = record { model = "a/small"; thinking = "high"; hide_thinking = some false }

abbrev missing : Defaults
missing = record { model = "b/none"; thinking = ""; hide_thinking = none }

abbrev edited : Options
edited = record { model = "a/big"; thinking = "off"; hide_thinking = true }

resolve_test :
    resolve chosen two_models "a/big"
    ≡ record { model = "a/small"; thinking = "high"; hide_thinking = false }
unfolding resolve
resolve_test = refl

resolve_unlisted :
    resolve missing two_models "a/big"
    ≡ record { model = ""; thinking = "medium"; hide_thinking = true }
unfolding resolve
resolve_unlisted = refl

parse_options-build_example :
    (parse_options
        (shown_sections (build two_models (resolve chosen two_models "a/big")).sections)
        edited
      ≡ record (resolve chosen two_models "a/big") {
        model =
            if (resolve chosen two_models "a/big").model == ""
            then edited.model
            else (resolve chosen two_models "a/big").model;
      })
    × (parse_options
          (shown_sections (build two_models (resolve chosen two_models "a/big")).sections)
          (resolve chosen two_models "a/big")
        ≡ parse_options [] (resolve chosen two_models "a/big"))
parse_options-build_example =
    parse_options-build quoted chosen two_models "a/big" edited (unfold validate in refl)
