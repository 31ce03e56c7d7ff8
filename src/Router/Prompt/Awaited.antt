-- ===== src/Router/Prompt/Awaited.antt =====
-- What `Prompt` returns once the runner has run its turn. A turn that is dropped without being run is
-- not spoken of.
use poe_acp_relay.Base.{
  Result, ok, err, ℕ, String, ◌≡◌, refl, sym, ◌∙◌, ◌↔◌, false, Option, none, some, arith,
}
use poe_acp_relay.Router.Types.{TurnReq}
use poe_acp_relay.Router.Agent.{
  Agent, StopReason, end_turn, max_tokens, max_turn_requests, refusal, cancelled, other_reason,
}
use poe_acp_relay.Router.Turn.{RunnerState, terminal, is_stale, run_one_turn}
use poe_acp_relay.Router.Turn.Finish.{answer_of, run_one_turn-err}
use poe_acp_relay.Router.Prompt.{awaited}

abbrev IsReply : Result StopReason → Type 0
IsReply reply = (stop : StopReason) × (reply ≡ ok stop)

terminal-IsReply : (reply : Result StopReason) → ((terminal reply).1 ≡ none) ↔ IsReply reply
unfolding terminal
terminal-IsReply (err e) = ((λ h. absurd (cc)), (λ h. absurd (ground (arith, h.1))))
terminal-IsReply (ok end_turn) = ((λ _. (end_turn, refl)), (λ _. refl))
terminal-IsReply (ok max_tokens) = ((λ _. (max_tokens, refl)), (λ _. refl))
terminal-IsReply (ok max_turn_requests) = ((λ _. (max_turn_requests, refl)), (λ _. refl))
terminal-IsReply (ok refusal) = ((λ _. (refusal, refl)), (λ _. refl))
terminal-IsReply (ok cancelled) = ((λ _. (cancelled, refl)), (λ _. refl))
terminal-IsReply (ok (other_reason r)) = ((λ _. (other_reason r, refl)), (λ _. refl))

awaited-none :
    (gone : Option String) (req : TurnReq)
    → (awaited gone req ≡ none) ↔ ((gone ≡ none) × (req.err ≡ none))
unfolding awaited
awaited-none none req = ((λ h. (refl, h)), (λ h. h.1))
awaited-none (some e) req = ground arith

-- Of a turn that the runner has run, and that was not stale: `Prompt` returns no error exactly where
-- the agent gave a reply, whatever its reason to stop, and the caller had not gone away before; an
-- option that was not applied is no error.
pub awaited-run_one_turn :
    {A : Type 0} (agent : Agent A) (prompt : String) (now : ℕ) (a : A) (st : RunnerState)
    (req : TurnReq) (gone : Option String)
    → is_stale now req ≡ false
    → (awaited gone (run_one_turn agent prompt now a st req).req ≡ none)
      ↔ ((gone ≡ none) × (stop : StopReason) × ((answer_of agent prompt a st req).0 ≡ ok stop))
awaited-run_one_turn agent prompt now a st req gone fresh =
    let r = (run_one_turn agent prompt now a st req).req in
    let same = run_one_turn-err agent prompt now a st req fresh in
    let waits = awaited-none gone r in
    let reply = terminal-IsReply (answer_of agent prompt a st req).0 in
    (
      (λ h.
          let (stayed, fine) = waits.0 h in
          let (stop, e) = reply.0 (sym same ∙ fine) in (stayed, stop, e)),
      (λ h. let (stayed, stop, e) = h in waits.1 (stayed, same ∙ reply.1 (stop, e))),
    )
