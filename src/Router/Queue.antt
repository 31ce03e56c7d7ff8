-- ===== src/Router/Queue.antt =====
-- `sessionQueue` of internal/router/router.go: the FIFO of pending turns of one session. Each
-- method holds the mutex throughout, so it is one step on the queue's state.
pub mod Order
pub mod Bound
mod Tests
use poe_acp_relay.Base.{
  ℕ, Bool, true, false, not, ◌&&◌, Option, none, some, List, [], ◌∷◌, ◌++◌, map, length, leb,
  is_empty, if◌then◌else◌,
}
use poe_acp_relay.Router.Types.{TurnReq, is_reaction, session_queue_cap}

-- `notify` says that the channel of capacity 1 holds its token.
pub record SessionQueue : Type 0 where
  pub q : List TurnReq
  pub in_flight : Bool
  pub stopped : Bool
  pub notify : Bool

unfoldable pub new_session_queue : SessionQueue
new_session_queue = record { q = []; in_flight = false; stopped = false; notify = false }

-- What a call of `push` leaves: the queue, whether it took the request, and the request that it
-- shed to make room.
pub record Pushed : Type 0 where
  pub queue : SessionQueue
  pub accepted : Bool
  pub dropped : Option TurnReq

-- `dropped.shed = true; close(dropped.done)`
abbrev pub mark_shed : TurnReq → TurnReq
mark_shed r = record r { shed = true; done = true }

-- The loop that looks for the oldest reaction, with the queue that is left without it.
unfoldable pub take_reaction : List TurnReq → Option (TurnReq × List TurnReq)
take_reaction [] = none
take_reaction (r ∷ rs) =
    let later = take_reaction rs in
    if is_reaction r.kind
    then some (r, rs)
    else elim later [ none ↦ none | some (d, rest) ↦ some (d, r ∷ rest) ]

unfoldable pub append_req : SessionQueue → List TurnReq → TurnReq → Option TurnReq → Pushed
append_req sq q req dropped = record {
  queue = record sq { q = q ++ req ∷ []; notify = true };
  accepted = true;
  dropped = dropped;
}

unfoldable pub reject_req : SessionQueue → Pushed
reject_req sq = record { queue = sq; accepted = false; dropped = none }

-- A full queue: shed the oldest reaction, else refuse a reaction, else grow past the cap.
push_full : SessionQueue → TurnReq → Option (TurnReq × List TurnReq) → Pushed
unfolding append_req reject_req
push_full sq req (some (d, rest)) = append_req sq rest req (some (mark_shed d))
push_full sq req none = if is_reaction req.kind then reject_req sq else append_req sq sq.q req none

unfoldable pub push : SessionQueue → TurnReq → Pushed
unfolding push_full take_reaction
push sq req =
    if sq.stopped
    then reject_req sq
    else if leb session_queue_cap (length sq.q)
    then push_full sq req (take_reaction sq.q)
    else append_req sq sq.q req none

-- One round of `popOrWait`, whose `select` reads the stop channel and the token: the oldest request
-- with the queue after it, the end of the runner, or a runner that sleeps. With nothing queued a
-- token is consumed and the loop comes back to the same test.
pub data Popped : Type 0 where
  popped : TurnReq → SessionQueue → Popped
  exits : Popped
  sleeps : SessionQueue → Popped

unfoldable pub pop_from : SessionQueue → Bool → List TurnReq → Popped
pop_from sq stop (r ∷ rs) = popped r (record sq { q = rs; in_flight = true })
pop_from sq true [] = exits
pop_from sq false [] = sleeps (record sq { notify = false })

-- `popOrWait` from one test of the queue on. A `select` that takes `runStop` although a request was pushed
-- after the queue was found empty is the exit before that push.
unfoldable pub pop_or_wait : SessionQueue → Bool → Popped
unfolding pop_from
pop_or_wait sq stop = pop_from sq stop sq.q

unfoldable pub finish_in_flight : SessionQueue → SessionQueue
finish_in_flight sq = record sq { in_flight = false }

unfoldable pub idle : SessionQueue → Bool
idle sq = not sq.in_flight && is_empty sq.q

-- `stop` closes the queue; the requests that were pending come back shed and done.
unfoldable pub stop : SessionQueue → SessionQueue × List TurnReq
stop sq = (record sq { q = []; stopped = true }, map mark_shed sq.q)
