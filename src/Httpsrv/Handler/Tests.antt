-- ===== src/Httpsrv/Handler/Tests.antt =====
-- Requests at concrete inputs.
use poe_acp_relay.Base.{ok, err, ℕ, Bool, ◌≡◌, refl, ◌≢◌, true, none, [], ◌∷◌, lookup, ◌==◌}
use poe_acp_relay.Base.Text.{trim_space, has_prefix}
use poe_acp_relay.Poeproto.Requests.{Request}
use poe_acp_relay.Poeproto.Sse.{new_sse_writer, write_meta, event}
use poe_acp_relay.Router.TestAgent.{test_agent, test_config, test_options, empty_router, no_failure}
use poe_acp_relay.Router.TestDisk.{environment}
use poe_acp_relay.Authbroker.{Authenticator, handle, has_pending, is_login_command}
use poe_acp_relay.Httpsrv.Answer.{watch_client_unnamed}
use poe_acp_relay.Router.Sessions.{conv_key}
use poe_acp_relay.Router.Sessions.Reachable as Sessions
use poe_acp_relay.Httpsrv.Handler.{
  watch_client, latest_user_turn, HandlerConfig, Server, broker_of, handle_auth, is_auth_turn,
  submit_query, truncate_runes,
}
use poe_acp_relay.Httpsrv.Handler.{handle_query, query_opened, handle_reaction}
use poe_acp_relay.Router.Query.{latest_user_turn_ref}
use poe_acp_relay.Httpsrv.Handler.Login.{is_auth_turn-handle}

abbrev holds : ℕ → Bool
holds k = true

abbrev settings : HandlerConfig
settings = record {
  heartbeat_interval = 1;
  allow_attachments = true;
  has_broker = true;
  defaults = test_options;
}

abbrev failing : Authenticator ℕ
failing = record {
  auth_methods =
      λ n. record { id = "oauth-x"; name = "X"; description = ""; method_type = "" } ∷ [];
  authenticate = λ n method id redirect cancel. (err "down", n);
  to_lower = λ s. s;
  equal_fold = λ s t. s == t;
  quote = λ s. s;
}

abbrev server : Server ℕ
server = record { router = empty_router; pending = [] }

login : is_auth_turn failing settings server "c" "  /login x" ≡ true
unfolding is_auth_turn is_login_command has_pending trim_space has_prefix lookup
login = refl

is_auth_turn-handle_example :
    ((handle failing (broker_of server) "c" "  /login x").0 ≢ ok none)
    × ((handle_auth holds failing server new_sse_writer "c" "  /login x").0.closed ≡ true)
    × ((handle_auth holds failing server new_sse_writer "c" "  /login x").1.router.sessions ≡ [])
is_auth_turn-handle_example =
    is_auth_turn-handle holds failing settings server new_sse_writer "c" "  /login x" login

abbrev empty_query : Request
empty_query = record {
  kind = "query";
  query = [];
  message_id = "m";
  user_id = "u";
  conversation_id = "c";
  reaction = "";
  reaction_action = "";
}

truncate_test : truncate_runes "grüße" 3 ≡ "grü…"
unfolding truncate_runes
truncate_test = refl

abbrev react : Server ℕ
react =
    handle_reaction test_agent test_config environment server 1 2
      (record empty_query { reaction = "" }) 3

handle_reaction_test : react ≡ server
unfolding handle_reaction
handle_reaction_test = refl

handle_query_test :
    handle_query test_agent test_config environment holds settings failing server 1 2 empty_query 3
    ≡ submit_query test_agent test_config environment holds settings server 1 2 empty_query []
        (write_meta holds new_sse_writer).0
        3
unfolding handle_query query_opened is_auth_turn latest_user_turn latest_user_turn_ref write_meta
    event new_sse_writer
handle_query_test = refl

watch_client_unnamed_example :
    (watch_client test_agent true empty_router "" ≡ empty_router) × (conv_key "" ≡ "default")
watch_client_unnamed_example =
    watch_client_unnamed test_agent test_config no_failure true Sessions.here
