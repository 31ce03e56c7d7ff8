-- ===== src/Command.antt =====
-- cmd/poe-acp/helpers.go: the settings that are pushed to Poe, the environment of the agent, the
-- default paths and the catalogue of skills.
pub mod Refetch
pub mod Startup
pub mod Routes
pub mod Environ
mod Tests
use Prim.Native.String.{◌++◌ as ◌+++◌}
use poe_acp_relay.Base.{
  Result, ok, err, ℕ, String, Bool, true, false, not, ◌&&◌, Option, none, some, List, [], ◌∷◌, ◌++◌,
  filter, if◌then◌else◌, ◌==◌, nat_eq,
}
use poe_acp_relay.Base.Paths.{join, dir_name}
use poe_acp_relay.Base.Text.{has_prefix}
use poe_acp_relay.Poeproto.Controls.{ParameterControls}
use poe_acp_relay.Skills.{Skill, cut, merge, format_catalog}

-- `schemaHash`; the parameter is the SHA-256 of the JSON text, in hexadecimal.
unfoldable pub schema_hash : (ParameterControls → String) → Option ParameterControls → String
schema_hash digest none = "nil"
schema_hash digest (some controls) = digest controls

pub record PostResponse : Type 0 where
  pub status_code : ℕ
  pub body : String

-- The disk and Poe. `read_file` gives "" where it fails, and `post` the error of the request or of
-- what builds it. `echo` reads `parameter_controls` of a body: none if the body is no JSON, else
-- whether it has the controls.
pub record Push (S : Type 0) : Type 0 where
  pub read_file : String → S → String
  pub post : String → S → Result PostResponse × S
  pub write_file : String → String → S → S
  pub echo : String → Option Bool
  pub path_escape : String → String

abbrev default_base : String
default_base = "https://api.poe.com"

pub endpoint : {S : Type 0} → Push S → String → String → String → String
endpoint ops base bot key =
    (if base == "" then default_base else base)
    +++ ("/bot/fetch_settings/"
        +++ (ops.path_escape bot +++ ("/" +++ (ops.path_escape key +++ "/1.1"))))

-- Whether Poe's answer says that it has taken the controls.
pub is_taken : {S : Type 0} → Push S → PostResponse → Bool
is_taken ops resp =
    nat_eq resp.status_code 200 && elim (ops.echo resp.body) [ none ↦ true | some kept ↦ kept ]

-- `maybeRefetchSettings`; its errors are only logged.
unfoldable pub maybe_refetch_settings :
    {S : Type 0}
    → Push S
    → (ParameterControls → String)
    → String
    → String
    → String
    → Option ParameterControls
    → String
    → S
    → S
unfolding endpoint is_taken schema_hash
maybe_refetch_settings ops digest state_dir bot key controls base s =
    let file = join (state_dir ∷ "last_schema_hash" ∷ []) in
    let hash = schema_hash digest controls in
    if ops.read_file file s == hash
    then s
    else (let (r, s1) = ops.post (endpoint ops base bot key) s in
        elim r [
          | err e ↦ s1
          | ok resp ↦ if is_taken ops resp then ops.write_file file hash s1 else s1
        ])

-- `appendEnv`
env_key : String → String
unfolding cut
env_key kv = elim (cut "=" kv) [ none ↦ kv | some (name, _) ↦ name ] +++ "="

unfoldable pub append_env : List String → String → List String
unfolding env_key
append_env env kv = filter (λ e. not (has_prefix e (env_key kv))) env ++ kv ∷ []

-- `defaultStateDir`; the parameters are `os.Getenv`, the home directory if there is one, and
-- `os.TempDir`.
unfoldable pub default_state_dir : (String → String) → Option String → String → String
unfolding join
default_state_dir getenv home temp =
    if not (getenv "XDG_STATE_HOME" == "")
    then join (getenv "XDG_STATE_HOME" ∷ "poe-acp" ∷ [])
    else elim home [
      | some h ↦ join (h ∷ ".local" ∷ "state" ∷ "poe-acp" ∷ [])
      | none ↦ join (temp ∷ "poe-acp" ∷ [])
    ]

-- `defaultConfigPath`
unfoldable pub default_config_path : (String → String) → Option String → String → String
unfolding join
default_config_path getenv home temp =
    if not (getenv "XDG_CONFIG_HOME" == "")
    then join (getenv "XDG_CONFIG_HOME" ∷ "poe-acp" ∷ "config.json" ∷ [])
    else elim home [
      | some h ↦ join (h ∷ ".config" ∷ "poe-acp" ∷ "config.json" ∷ [])
      | none ↦ join (temp ∷ "poe-acp" ∷ "config.json" ∷ [])
    ]

-- A layer that fails to load is left out.
loaded_or_none : Result (List Skill) → List Skill
loaded_or_none (ok skills) = skills
loaded_or_none (err e) = []

-- `buildSkillsCatalog`; the parameters are `LoadBuiltin`'s result and `LoadDir`.
unfoldable pub build_skills_catalog :
    Result (List Skill) → (String → Result (List Skill)) → String → String
unfolding loaded_or_none dir_name join
build_skills_catalog builtin load_dir config_path =
    let host = load_dir (join (dir_name config_path ∷ "skills" ∷ [])) in
    elim (merge (loaded_or_none builtin ∷ loaded_or_none host ∷ []) []) [
      | [] ↦ ""
      | s ∷ skills ↦ format_catalog (s ∷ skills)
    ]
