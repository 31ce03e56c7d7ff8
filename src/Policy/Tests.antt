-- ===== src/Policy/Tests.antt =====
-- The policies on small inputs.
use poe_acp_relay.Base.{ok, String, ◌≡◌, refl, some, [], ◌∷◌}
use poe_acp_relay.Base.Text.{contains, has_prefix, trim_space}
use poe_acp_relay.Policy.{
  parse, read_only, PermissionOption, PermissionRequest, matches, is_writeish, decide,
}
use poe_acp_relay.Policy.Choice.{IsWanted, wanted, decide-IsWanted}

abbrev lower : String → String
lower s = s

abbrev allowing : PermissionOption
allowing = record { option_id = "y"; name = "allow once"; kind = "allow_once" }

abbrev rejecting : PermissionOption
rejecting = record { option_id = "n"; name = "reject"; kind = "reject_once" }

abbrev edit : PermissionRequest
edit = record { title = some "edit main.go"; options = allowing ∷ rejecting ∷ [] }

decide-IsWanted_example :
    IsWanted lower (wanted lower read_only edit) (decide lower read_only edit) edit.options
unfolding is_writeish wanted matches contains has_prefix
decide-IsWanted_example = decide-IsWanted lower read_only edit (refl, (refl, tt)) refl

abbrev only_yes : PermissionRequest
only_yes = record { title = some "read"; options = allowing ∷ [] }

parse_test : parse lower lower " readonly " ≡ ok read_only
unfolding parse trim_space
parse_test = refl
