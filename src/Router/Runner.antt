-- ===== src/Router/Runner.antt =====
-- `runTurns` of internal/router/router.go: the goroutine that owns the prompts of one session. It
-- takes the turns of the session's queue one by one and runs each to its end.
pub mod Answered
pub mod Service
pub mod Fair
pub mod Served
mod Tests
use poe_acp_relay.Base.{ℕ, suc, zero, String, Bool, List, [], ◌∷◌}
use poe_acp_relay.Router.Types.{TurnReq}
use poe_acp_relay.Router.Queue.{SessionQueue, popped, exits, sleeps, pop_or_wait, finish_in_flight}
use poe_acp_relay.Router.Agent.{Agent}
use poe_acp_relay.Router.Turn.{RunnerState, TurnOutcome, run_one_turn}

-- How far the loop has come: it sleeps in `popOrWait`, it has returned, or the rounds are used up.
pub data LoopEnd : Type 0 where
  waits returned unfinished : LoopEnd

pub record Loop (A : Type 0) : Type 0 where
  pub queue : SessionQueue
  pub state : RunnerState
  pub agent : A
  pub log : List (TurnOutcome A)
  pub ended : LoopEnd

module _ {A : Type 0} (agent : Agent A) (prompt : String) (clock : ℕ → ℕ) (stop : Bool) where
  -- A turn in front of the rest of the loop.
  abbrev pub logged : TurnOutcome A → Loop A → Loop A
  logged o l = record l { log = o ∷ l.log }

  -- So many rounds of the loop, while nobody else uses the queue. `clock k` is the time at the start
  -- of the turn with that number, and `stop` says that the stop channel is closed.
  unfoldable pub run_turns : ℕ → ℕ → SessionQueue → RunnerState → A → Loop A
  run_turns zero k sq st a = record {
    queue = sq;
    state = st;
    agent = a;
    log = [];
    ended = unfinished;
  }
  run_turns (suc rounds) k sq st a = elim (pop_or_wait sq stop) [
    | popped req sq' ↦
        let o = run_one_turn agent prompt (clock k) a st req in
        logged o (run_turns rounds (suc k) (finish_in_flight sq') o.session o.agent)
    | exits ↦ record { queue = sq; state = st; agent = a; log = []; ended = returned }
    | sleeps sq' ↦ record { queue = sq'; state = st; agent = a; log = []; ended = waits }
  ]
