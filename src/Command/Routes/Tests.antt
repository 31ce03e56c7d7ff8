-- ===== src/Command/Routes/Tests.antt =====
-- The routes at concrete inputs.
use poe_acp_relay.Base.{ℕ, List, [], refl, ◌≡◌, All, false}
use poe_acp_relay.Base.Bytes.{Bytes}
use poe_acp_relay.Router.TestAgent.{empty_router}
use poe_acp_relay.Httpsrv.Serve.{Served, answered}
use poe_acp_relay.Command.Routes.{routes, answer, health_route, page}
use poe_acp_relay.Command.Routes.Guarded.{IsGuarded, routes-IsGuarded, has_repeat}

abbrev sent : Served ℕ (List Bytes)
sent = answered 200 "" (record { router = empty_router; pending = [] })

routes-IsGuarded_example :
    All (IsGuarded (λ n. "0") "secret" "Bearer secret" sent empty_router) (routes "/bot")
routes-IsGuarded_example =
    routes-IsGuarded (λ n. "0") "secret" "Bearer secret" sent empty_router "/bot"

health_test : answer (λ n. "0") "secret" health_route sent empty_router "" ≡ page "ok sessions=0\n"
unfolding answer
health_test = refl

repeat_test : has_repeat (routes "/poe") ≡ false
unfolding routes
repeat_test = refl
