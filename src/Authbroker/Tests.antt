-- ===== src/Authbroker/Tests.antt =====
-- The login broker on small inputs.
use poe_acp_relay.Base.{ok, ℕ, ◌+◌, ◌≡◌, refl, none, some, [], ◌∷◌, if◌then◌else◌, ◌==◌, lookup}
use poe_acp_relay.Base.Text.{trim_space}
use poe_acp_relay.Authbroker.{AuthMethod, Authenticator, Outcome, Broker, handle}
use poe_acp_relay.Authbroker.Laws.{handle_pending}

abbrev anthropic : AuthMethod
anthropic = record {
  id = "oauth-anthropic";
  name = "Anthropic";
  description = "";
  method_type = "agent";
}

-- An agent that counts its calls, and asks the first call of a login for a redirect.
abbrev counting : Authenticator ℕ
counting = record {
  auth_methods = λ n. anthropic ∷ [];
  authenticate = λ n method id redirect cancel. (
    ok (record {
      state = if redirect == "" then "needs_redirect" else "ok";
      id = "login-1";
      url = "https://example.com/auth";
      instructions = "";
    }),
    n + 1,
  );
  to_lower = λ s. s;
  equal_fold = λ s t. s == t;
  quote = λ s. s;
}

abbrev fresh : Broker ℕ
fresh = record { pending = []; agent = 0 }

abbrev waiting : Broker ℕ
waiting = record {
  pending = ("conv", record { method_id = "oauth-anthropic"; auth_id = "login-1" }) ∷ [];
  agent = 1;
}

handle_pending_example :
    ((o : Outcome) × ((handle counting waiting "conv" " https://localhost/cb ").0 ≡ ok (some o)))
    × (lookup "conv" (handle counting waiting "conv" " https://localhost/cb ").1.pending ≡ none)
unfolding trim_space lookup
handle_pending_example =
    handle_pending counting waiting "conv" " https://localhost/cb " "conv"
      (record { method_id = "oauth-anthropic"; auth_id = "login-1" }) refl
