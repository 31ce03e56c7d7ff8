-- ===== src/Command/Tests.antt =====
-- The helpers at concrete inputs.
use poe_acp_relay.Base.{ok, err, ◌≡◌, refl, ℕ, suc, String, true, none, some, [], ◌∷◌}
use poe_acp_relay.Base.Text.{has_prefix}
use poe_acp_relay.Skills.{cut, merge}
use poe_acp_relay.Command.{
  Push, PostResponse, maybe_refetch_settings, append_env, default_state_dir, build_skills_catalog,
}

abbrev taken : PostResponse
taken = record { status_code = 200; body = "{}" }

-- The content of its one file, and how often it was asked.
abbrev poe : Push (String × ℕ)
poe = record {
  read_file = λ path s. s.0;
  post = λ url s. (ok taken, (s.0, suc s.1));
  write_file = λ path text s. (text, s.1);
  echo = λ body. some true;
  path_escape = λ text. text;
}

pushed_test :
    maybe_refetch_settings poe (λ controls. "h") "/s" "bot" "key" none "" ("", 0) ≡ ("nil", 1)
unfolding maybe_refetch_settings
pushed_test = refl

append_env_test : append_env ("A=1" ∷ "B=2" ∷ "A=3" ∷ []) "A=4" ≡ "B=2" ∷ "A=4" ∷ []
unfolding append_env cut has_prefix
append_env_test = refl

state_dir_test :
    default_state_dir (λ name. "") (some "/home/u") "/tmp" ≡ "/home/u/.local/state/poe-acp"
unfolding default_state_dir
state_dir_test = refl

no_skills : build_skills_catalog (err "no bundle") (λ dir. ok []) "/etc/poe/config.json" ≡ ""
unfolding build_skills_catalog merge
no_skills = refl
