-- ===== src/Router/Runner/Served.antt =====
-- What becomes of the user turns that a session accepts.
use poe_acp_relay.Base.{String, false, ◌≡◌, sym, ap, ◌∙◌, [], ◌++◌, append-nil, arith, All}
use poe_acp_relay.Router.Queue.Bound.{asleep}
use poe_acp_relay.Router.Agent.{Agent}
use poe_acp_relay.Router.Turn.{RunnerState}
use poe_acp_relay.Router.Turn.Finish.{IsOver}
use poe_acp_relay.Router.Runner.Service.{
  user_ids, at_hand, Service, fresh_service, over_ids, Reach, here, next,
}
use poe_acp_relay.Router.Runner.Fair.{
  IsFair, fresh-IsFair, Step-IsFair, nothing_at_hand, nothing_between,
}

module _ {A : Type 0} (agent : Agent A) (prompt : String) where
  Reach-keeps :
      {s t : Service A} → IsFair agent prompt s → Reach agent prompt s t → IsFair agent prompt t
  Reach-keeps v here = v
  Reach-keeps v (next r st) = Step-IsFair agent prompt st (Reach-keeps v r)

  -- After any interleaving of submitters, the runner's turns, a shutdown and other callers of the
  -- agent: the user turns that are over, the one at hand, those that a shutdown gave back and those
  -- that wait make up, in this order, the user turns that were accepted, in the order of acceptance,
  -- none lost and none twice; and each turn that is over is closed, and a user's ended its sink once.
  pub Reach-first_served :
      {st : RunnerState} {a : A} {s : Service A}
      → Reach agent prompt (fresh_service st a) s
      → (over_ids s
            ++ (user_ids (at_hand s.current) ++ (user_ids s.given_up ++ user_ids s.session.queue.q))
          ≡ user_ids s.accepted)
        × All IsOver s.log
  Reach-first_served {st} {a} reach =
      let v = Reach-keeps (fresh-IsFair agent prompt st a) reach in (v.served, v.over)

  -- When the runner sleeps, no token waits for it and the queue was not stopped, then every user turn
  -- that was accepted has been run, in the order of acceptance.
  pub Reach-all_served :
      {st : RunnerState} {a : A} {s : Service A}
      → Reach agent prompt (fresh_service st a) s
      → s.session.runner ≡ asleep
      → s.session.queue.notify ≡ false
      → s.session.queue.stopped ≡ false
      → over_ids s ≡ user_ids s.accepted
  Reach-all_served {st} {a} {s} reach sleeping quiet up =
      let v = Reach-keeps (fresh-IsFair agent prompt st a) reach in
      let free = nothing_at_hand agent prompt s (λ busy. cc) v in
      let empty : s.session.queue.q ≡ [] = ground (arith, v.inv.awake sleeping) in
      sym (append-nil (over_ids s))
      ∙ (ap (λ l. over_ids s ++ user_ids l) (sym empty)
          ∙ nothing_between agent prompt s free (v.kept up) v)
