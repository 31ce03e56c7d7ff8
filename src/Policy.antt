-- ===== src/Policy.antt =====
-- internal/policy/policy.go: how the relay answers the agent's permission requests.
pub mod Choice
mod Tests
use poe_acp_relay.Base.{
  Result, ok, err, String, Bool, true, false, ◌&&◌, ◌||◌, not, Option, none, some, List, [], ◌∷◌,
  any, is_empty, if◌then◌else◌, ◌==◌,
}
use Prim.Native.String.{◌++◌ as ◌+++◌}
use poe_acp_relay.Base.Text.{trim_space, contains}

pub data Policy : Type 0 where
  allow_all read_only deny_all : Policy

-- `acp.PermissionOption` and `acp.RequestPermissionRequest`, in the fields that are read.
pub record PermissionOption : Type 0 where
  pub option_id : String
  pub name : String
  pub kind : String

pub record PermissionRequest : Type 0 where
  pub title : Option String
  pub options : List PermissionOption

-- `to_lower` stands for Go's `strings.ToLower`, and `quote` for the verb `%q`.
module _ (to_lower : String → String) where
  policy_named : (String → String) → String → String → Result Policy
  policy_named quote name key =
      if key == "" || key == "allow-all" || key == "allow"
      then ok allow_all
      else if key == "read-only" || key == "readonly"
      then ok read_only
      else if key == "deny-all" || key == "deny"
      then ok deny_all
      else err ("unknown policy " +++ (quote name +++ " (want allow-all|read-only|deny-all)"))

  -- `Parse`
  unfoldable pub parse : (String → String) → String → Result Policy
  unfolding policy_named
  parse quote name = policy_named quote name (to_lower (trim_space name))

  -- Whether an option is one that `want` asks for: by its name or by its kind.
  pub matches : String → PermissionOption → Bool
  unfolding contains
  matches want o = contains (to_lower o.name) want || contains (to_lower o.kind) want

  -- The loop of `pick`; the id "" counts as none.
  first_match : String → List PermissionOption → String
  unfolding matches
  first_match want [] = ""
  first_match want (o ∷ os) =
      let rest = first_match want os in if matches want o then o.option_id else rest

  first_id : List PermissionOption → String
  first_id [] = ""
  first_id (o ∷ os) = o.option_id

  -- The id of the outcome `Selected`.
  pub pick : List PermissionOption → String → String
  unfolding first_match first_id
  pick options want =
      let chosen = first_match want options in
      if chosen == "" && not (is_empty options) then first_id options else chosen

  abbrev write_verbs : List String
  write_verbs = "write" ∷ "edit" ∷ "bash" ∷ "exec" ∷ "run" ∷ "delete" ∷ "rm " ∷ []

  title_of : Option String → String
  title_of none = ""
  title_of (some t) = to_lower t

  pub is_writeish : PermissionRequest → Bool
  unfolding contains title_of
  is_writeish req = any (λ verb. contains (title_of req.title) verb) write_verbs

  -- `Decide`
  pub decide : Policy → PermissionRequest → String
  unfolding pick is_writeish
  decide allow_all req = pick req.options "allow"
  decide deny_all req = pick req.options "reject"
  decide read_only req =
      if is_writeish req then pick req.options "reject" else pick req.options "allow"
