-- ===== src/Router/Sessions/Tests.antt =====
-- The sessions at concrete inputs.
use poe_acp_relay.Base.{
  Result, ok, ◌≡◌, refl, ℕ, String, Bool, true, false, none, [], ◌∷◌, Dict, lookup, IsMap,
}
use poe_acp_relay.Router.Queue.{idle}
use poe_acp_relay.Router.TestAgent.{test_agent, test_config, no_failure, empty_router}
use poe_acp_relay.Router.Sessions.{
  SessionState, RouterState, install, gc_once, new_session_state, with_session_id, try_resume,
  new_agent_session, create, cold, get_or_create, conv_key,
}
use poe_acp_relay.Router.Sessions.Map.{IsFiled, IsSwept, survivor, lookup-gc_once}
use poe_acp_relay.Router.Sessions.Creation.{get_or_create_again}
use poe_acp_relay.Router.Sessions.Reachable.{here, next, requests, Reach-IsFiled}

abbrev entry : ℕ → String → ℕ → SessionState
entry id conv now = new_session_state test_config id conv "u" now

abbrev two : Dict SessionState
two = ("a", entry 1 "a" 0) ∷ ("b", entry 2 "b" 50) ∷ []

two-IsMap : IsMap two
unfolding lookup
two-IsMap = (refl, (refl, tt))

lookup-gc_once_example :
    IsSwept test_config 120 (lookup "a" two) (lookup "a" (gc_once test_config 120 two).0)
lookup-gc_once_example = lookup-gc_once test_config 120 "a" two two-IsMap

swept : survivor test_config 120 (lookup "a" two) ≡ none
unfolding lookup new_session_state idle
swept = refl

abbrev first_call : Result (SessionState × Bool) × RouterState ℕ
first_call = get_or_create test_agent test_config no_failure empty_router 1 "c" "u" 3 10

abbrev made : SessionState
made = with_session_id test_agent test_config (entry 1 "c" 10) "new"

first_ok : first_call.0 ≡ ok (made, true)
unfolding get_or_create cold create try_resume new_agent_session with_session_id install lookup
    new_session_state
first_ok = refl

get_or_create_again_example :
    get_or_create test_agent test_config no_failure first_call.1 2 "c" "u" 4 20
    ≡ (ok (made, false), first_call.1)
get_or_create_again_example =
    get_or_create_again test_agent test_config no_failure empty_router 1 2 "c" "u" "u" 3 4 10 20
      made true first_ok

Reach-IsFiled_example :
    IsFiled
      (get_or_create test_agent test_config no_failure empty_router 1
        (conv_key "")
        "u"
        3
        10).1.sessions
Reach-IsFiled_example =
    Reach-IsFiled test_agent test_config no_failure (next here (requests 1 "" "u" 3 10))

abbrev unnamed : RouterState ℕ
unnamed = (get_or_create test_agent test_config no_failure empty_router 1 (conv_key "") "u" 3 10).1
