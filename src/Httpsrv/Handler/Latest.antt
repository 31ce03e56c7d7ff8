-- ===== src/Httpsrv/Handler/Latest.antt =====
-- The text that the handler's intercept reads, and the text that the router sends to the agent.
use poe_acp_relay.Base.{◌≡◌, refl, arith, inl, inr, List, [], ◌∷◌, Option-cases}
use poe_acp_relay.Router.Query.{Turn, latest_user_turn_ref, latest_user_text}
use poe_acp_relay.Httpsrv.Handler.{latest_user_turn}

-- The handler and the router, each with a loop of its own, read the same text.
latest_user_text-latest_user_turn :
    (turns : List Turn) → latest_user_text turns ≡ latest_user_turn turns
unfolding latest_user_turn latest_user_text latest_user_turn_ref
latest_user_text-latest_user_turn [] = refl
latest_user_text-latest_user_turn (t ∷ ts) = elim (Option-cases (latest_user_turn_ref ts)) [
  | inl free ↦ ground (arith, latest_user_text-latest_user_turn ts, free)
  | inr (found, e) ↦ ground (arith, latest_user_text-latest_user_turn ts, e)
]
