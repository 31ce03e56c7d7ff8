-- ===== src/Router/Runner/Answered.antt =====
-- The runner's loop by itself, and the turns that waited.
use poe_acp_relay.Base.{
  ℕ, suc, zero, ◌<◌, String, Bool, true, false, ◌≡◌, refl, ap, List, [], ◌∷◌, map, arith, length,
  All, Bool-cases, inl, inr,
}
use poe_acp_relay.Router.Types.{TurnReq}
use poe_acp_relay.Router.Queue.{SessionQueue, pop_from, pop_or_wait, finish_in_flight}
use poe_acp_relay.Router.Agent.{Agent}
use poe_acp_relay.Router.Turn.{RunnerState, run_one_turn}
use poe_acp_relay.Router.Turn.Finish.{IsOver, run_one_turn_same, run_one_turn-IsOver}
use poe_acp_relay.Router.Runner.{Loop, LoopEnd, waits, returned, run_turns}

abbrev pub end_of : Bool → LoopEnd
end_of true = returned
end_of false = waits

module _ {A : Type 0} (agent : Agent A) (prompt : String) (clock : ℕ → ℕ) (stop : Bool) where
  -- What the loop leaves of so many requests in a queue.
  abbrev HasRun : List TurnReq → Loop A → Type 0
  HasRun rs l =
      (l.ended ≡ end_of stop)
      × (l.queue.q ≡ [])
      × (map (λ o. o.req.id) l.log ≡ map (λ r. r.id) rs)
      × All IsOver l.log

  run_turns-HasRun :
      (rounds k : ℕ) (rs : List TurnReq) (busy closed token : Bool) (st : RunnerState) (a : A)
      → length rs < rounds
      → HasRun rs (
          run_turns agent prompt clock stop rounds k
            (record { q = rs; in_flight = busy; stopped = closed; notify = token })
            st
            a)
  unfolding run_turns pop_or_wait pop_from finish_in_flight
  run_turns-HasRun zero k rs busy closed token st a h = absurd (omega arith)
  run_turns-HasRun (suc rounds) k [] busy closed token st a h = elim (Bool-cases stop) [
    | inl e ↦ rw e (refl, refl, refl, tt)
    | inr e ↦ rw e (refl, refl, refl, tt)
  ]
  run_turns-HasRun (suc rounds) k (r ∷ rs) busy closed token st a h =
      let o = run_one_turn agent prompt (clock k) a st r in
      let (ended, empty, same, over) =
        run_turns-HasRun rounds (suc k) rs false closed token o.session o.agent (omega arith) in
      (
        ended,
        empty,
        rw ((run_one_turn_same agent prompt (clock k) a st r).0) (ap (λ l. r.id ∷ l) same),
        (run_one_turn-IsOver agent prompt (clock k) a st r, over),
      )

  -- With one round more than there are turns in the queue the loop does not run out of rounds. It
  -- has then run each turn once, in order, and each is over; the queue is empty; and the loop has
  -- returned where it was told to stop, and waits otherwise.
  pub run_turns-IsOver :
      (rounds k : ℕ) (sq : SessionQueue) (st : RunnerState) (a : A)
      → length sq.q < rounds
      → ((run_turns agent prompt clock stop rounds k sq st a).ended ≡ end_of stop)
        × ((run_turns agent prompt clock stop rounds k sq st a).queue.q ≡ [])
        × (map (λ o. o.req.id) (run_turns agent prompt clock stop rounds k sq st a).log
            ≡ map (λ r. r.id) sq.q)
        × All IsOver (run_turns agent prompt clock stop rounds k sq st a).log
  run_turns-IsOver rounds k sq st a h =
      run_turns-HasRun rounds k sq.q sq.in_flight sq.stopped sq.notify st a h
