-- ===== src/Command/Routes.antt =====
-- The HTTP server of cmd/poe-acp/main.go: which handler stands at which path, and what each answers.
-- The choice of a handler by the path of a request is net/http's.
pub mod Guarded
mod Tests
use Prim.Native.String.{◌++◌ as ◌+++◌}
use poe_acp_relay.Base.{
  Result, ℕ, String, Bool, true, false, Option, List, [], ◌∷◌, ◌++◌, if◌then◌else◌, ◌==◌,
}
use poe_acp_relay.Poeproto.Requests.{Request, bearer_auth}
use poe_acp_relay.Router.Sessions.{RouterState}
use poe_acp_relay.Router.Setup.{DebugInfo, debug, len}
use poe_acp_relay.Httpsrv.Serve.{Served}

pub data Route : Type 0 where
  poe_route debug_route health_route : Route

-- The patterns of `main`'s `ServeMux`; the Poe endpoint also stands at "/poe".
unfoldable pub routes : String → List (String × Route)
routes poe_path =
    (poe_path, poe_route)
    ∷ ((if poe_path == "/poe" then [] else ("/poe", poe_route) ∷ [])
        ++ ("/debug/sessions", debug_route) ∷ ("/healthz", health_route) ∷ [])

-- What a request is answered with: `BearerAuth`'s refusal, the answer of `ServeHTTP`, the sessions of
-- `DebugHandler` with their number, or a page.
pub data Reply (A S : Type 0) : Type 0 where
  unauthorized : Reply A S
  relayed : Served A S → Reply A S
  dumped : List DebugInfo → ℕ → Reply A S
  page : String → Reply A S

module _ {A S : Type 0} (decimal : ℕ → String) (secret : String) where
  -- What a handler answers to a request with this `Authorization` header; `served` is what `ServeHTTP`
  -- makes of the request.
  unfoldable pub answer : Route → Served A S → RouterState A → String → Reply A S
  answer poe_route served r header =
      if bearer_auth secret header then relayed served else unauthorized
  answer debug_route served r header =
      if bearer_auth secret header then dumped (debug r) (len r) else unauthorized
  answer health_route served r header = page ("ok sessions=" +++ (decimal (len r) +++ "\n"))
