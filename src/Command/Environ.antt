-- ===== src/Command/Environ.antt =====
-- What `appendEnv` makes of an environment.
use poe_acp_relay.Base.{
  ◌≡◌, refl, ap, ◌∙◌, String, Bool, true, not, List, [], ◌∷◌, ◌++◌, filter, filter-append, arith,
  if◌then◌else◌,
}
use poe_acp_relay.Base.Text.{has_prefix}
use poe_acp_relay.Command.{env_key, append_env}

filter-filter-not :
    (p : String → Bool) (xs : List String) → filter p (filter (λ x. not (p x)) xs) ≡ []
filter-filter-not p [] = refl
filter-filter-not p (x ∷ xs) = ground (arith, filter-filter-not p xs)

-- Of the entries of its name an entry that is appended is the only one left.
append_env_lem :
    (env : List String) (kv : String)
    → has_prefix kv (env_key kv) ≡ true
    → filter (λ e. has_prefix e (env_key kv)) (append_env env kv) ≡ kv ∷ []
unfolding append_env
append_env_lem env kv named =
    filter-append (λ e. has_prefix e (env_key kv))
      (filter (λ e. not (has_prefix e (env_key kv))) env) (kv ∷ [])
    ∙ (ap (λ rest. rest ++ filter (λ e. has_prefix e (env_key kv)) (kv ∷ []))
          (filter-filter-not (λ e. has_prefix e (env_key kv)) env)
        ∙ ap (λ b. if b then kv ∷ [] else []) named)
