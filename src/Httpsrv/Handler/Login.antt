-- ===== src/Httpsrv/Handler/Login.antt =====
-- Login turns: the handler's intercept and the broker.
use poe_acp_relay.Base.{
  Result, ok, err, ℕ, String, ◌≡◌, refl, ◌≢◌, Bool, true, Option, none, some, arith,
}
use poe_acp_relay.Poeproto.Sse.{SseWriter, write_done}
use poe_acp_relay.Authbroker.{Authenticator, Outcome, handle}
use poe_acp_relay.Authbroker.Laws.{handle_forwards, is_login_command-trim_space, has_pending-lookup}
use poe_acp_relay.Httpsrv.Handler.{
  HandlerConfig, Server, broker_of, write_outcome, handle_auth, is_auth_turn,
}

write_done-closed : (io : ℕ → Bool) (w : SseWriter) → (write_done io w).0.closed ≡ true
unfolding write_done
write_done-closed io w = refl

write_outcome-closed :
    (io : ℕ → Bool) (w : SseWriter) (reply : Result (Option Outcome))
    → (write_outcome io w reply).closed ≡ true
unfolding write_outcome
write_outcome-closed io w (err e) = write_done-closed io _
write_outcome-closed io w (ok none) = write_done-closed io _
write_outcome-closed io w (ok (some o)) = write_done-closed io _

module _ {A : Type 0} (io : ℕ → Bool) (auth : Authenticator A) where
  -- What the handler takes for an auth turn the broker answers, with an outcome or an error: it never
  -- finds that the turn is not its own. The stream is ended, and no session is touched.
  pub is_auth_turn-handle :
      (cfg : HandlerConfig) (s : Server A) (w : SseWriter) (conv latest : String)
      → is_auth_turn auth cfg s conv latest ≡ true
      → ((handle auth (broker_of s) conv latest).0 ≢ ok none)
        × ((handle_auth io auth s w conv latest).0.closed ≡ true)
        × ((handle_auth io auth s w conv latest).1.router.sessions ≡ s.router.sessions)
  unfolding handle_auth is_auth_turn
  is_auth_turn-handle cfg s w conv latest h = (
    λ e.
        (let (free, plain) = (handle_forwards auth (broker_of s) conv latest).0 e in
          ground (
            arith,
            h,
            is_login_command-trim_space latest,
            has_pending-lookup auth (broker_of s) conv free,
            plain,
          )),
    write_outcome-closed io w (handle auth (broker_of s) conv latest).0,
    refl,
  )
