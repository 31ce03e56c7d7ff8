-- ===== src/Command/Routes/Guarded.antt =====
-- Who is answered.
use Prim.Native.String.{◌++◌ as ◌+++◌}
use poe_acp_relay.Base.{
  ℕ, String, Bool, true, false, List, [], ◌∷◌, ◌≡◌, ◌≢◌, refl, ◌⊎◌, inl, inr, ◌↔◌, All, Bool-cases,
  ◌==◌, arith, if◌then◌else◌, ◌||◌, eq_iff,
}
use poe_acp_relay.Poeproto.Requests.{bearer_auth}
use poe_acp_relay.Poeproto.Tokens.{bearer_auth-header}
use poe_acp_relay.Router.Sessions.{RouterState}
use poe_acp_relay.Router.Setup.{debug, len}
use poe_acp_relay.Httpsrv.Serve.{Served}
use poe_acp_relay.Command.Routes.{
  Route, poe_route, debug_route, health_route, routes, Reply, unauthorized, relayed, dumped, answer,
}

-- The header that lets a request through.
abbrev pub IsLetThrough : String → String → Type 0
IsLetThrough secret header = (header ≡ "Bearer " +++ secret) × ((secret == "") ≡ false)

-- `BearerAuth` around a handler that answers something.
guarded :
    {A S : Type 0} (secret header : String) (reply : Reply A S)
    → reply ≢ unauthorized
    → ((if bearer_auth secret header then reply else unauthorized) ≢ unauthorized)
      ↔ IsLetThrough secret header
guarded secret header reply answers = elim (Bool-cases (bearer_auth secret header)) [
  | inl e ↦ rw e ((λ _. (bearer_auth-header secret header).0 e), (λ _. answers))
  | inr e ↦ rw e (
    (λ other. absurd (other refl)),
    (λ h. absurd (let good = (bearer_auth-header secret header).1 h in cc)),
  )
]

module _ {A S : Type 0} (decimal : ℕ → String) (secret header : String) (served : Served A S)
    (r : RouterState A) where
  -- The handler refuses a request exactly where its header does not let it through.
  abbrev pub AsksFor : Route → Type 0
  AsksFor route =
      (answer decimal secret route served r header ≢ unauthorized) ↔ IsLetThrough secret header

  abbrev pub IsGuarded : String × Route → Type 0
  IsGuarded entry = (entry.0 ≡ "/healthz") ⊎ AsksFor entry.1

  poe_route-AsksFor : AsksFor poe_route
  unfolding answer
  poe_route-AsksFor = guarded secret header (relayed served) (λ same. cc)

  debug_route-AsksFor : AsksFor debug_route
  unfolding answer
  debug_route-AsksFor = guarded secret header (dumped (debug r) (len r)) (λ same. cc)

  -- Whatever path the operator gives to the Poe endpoint: at each pattern of the server but "/healthz"
  -- a request is answered exactly where its header is "Bearer " and the secret, and the secret is not
  -- empty.
  pub routes-IsGuarded : (poe_path : String) → All IsGuarded (routes poe_path)
  unfolding routes
  routes-IsGuarded poe_path =
      let behind : All IsGuarded
          (("/debug/sessions", debug_route) ∷ ("/healthz", health_route) ∷ []) =
        (inr debug_route-AsksFor, (inl refl, tt)) in
      elim (Bool-cases (poe_path == "/poe")) [
        | inl e ↦ rw e (inr poe_route-AsksFor, behind)
        | inr e ↦ rw e (inr poe_route-AsksFor, (inr poe_route-AsksFor, behind))
      ]

-- The patterns that stand twice, on which `Handle` panics.
abbrev is_in : String → List (String × Route) → Bool
is_in p [] = false
is_in p ((q, route) ∷ rest) = p == q || is_in p rest

abbrev pub has_repeat : List (String × Route) → Bool
has_repeat [] = false
has_repeat ((p, route) ∷ rest) = is_in p rest || has_repeat rest

-- A pattern is registered twice exactly where the Poe endpoint is put at the path of another page.
pub has_repeat-routes :
    (poe_path : String)
    → (has_repeat (routes poe_path) ≡ true)
      ↔ ((poe_path ≡ "/debug/sessions") ⊎ (poe_path ≡ "/healthz"))
unfolding routes
has_repeat-routes poe_path =
    ground
      (arith, eq_iff poe_path "/poe", eq_iff poe_path "/debug/sessions", eq_iff poe_path "/healthz")
