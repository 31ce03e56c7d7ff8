-- ===== src/Router/Queue/Tests.antt =====
-- The queue at concrete inputs.
use poe_acp_relay.Base.{
  ℕ, ◌≡◌, refl, ◌⊎◌, ◌↔◌, ◌≤◌, true, false, none, some, List, [], ◌∷◌, ◌++◌, filter, length, All,
}
use poe_acp_relay.Router.Types.{
  TurnKind, turn_user, turn_reaction, TurnReq, is_user_req, session_queue_cap,
}
use poe_acp_relay.Router.Queue.{SessionQueue, new_session_queue, mark_shed, push, stop, idle}
use poe_acp_relay.Router.Queue.Order.{filter-push, push-refuses_iff, stop-push-idle}
use poe_acp_relay.Router.Queue.Bound.{Inv, here, next, pushes, fresh_session, Reach-Inv}

abbrev request : ℕ → TurnKind → TurnReq
request id kind = record {
  id = id;
  kind = kind;
  opts = record { model = ""; thinking = ""; hide_thinking = false };
  blocks = [];
  hide_thinking = false;
  enqueued_at = 0;
  done = false;
  err = none;
  shed = false;
}

abbrev users : ℕ → List TurnReq
users ℕ.zero = []
users (ℕ.suc n) = request n turn_user ∷ users n

abbrev queue_of : List TurnReq → SessionQueue
queue_of rs = record { q = rs; in_flight = false; stopped = false; notify = true }

-- Thirty-one user turns with a reaction behind the first: a full queue.
abbrev full_list : List TurnReq
full_list = request 40 turn_user ∷ request 50 turn_reaction ∷ users 30

abbrev full : SessionQueue
full = queue_of full_list

abbrev newcomer : TurnReq
newcomer = request 60 turn_user

filter-push_example :
    filter is_user_req (push full newcomer).queue.q ≡ filter is_user_req full_list ++ newcomer ∷ []
filter-push_example = filter-push full newcomer refl

full-push : (push full newcomer).dropped ≡ some (mark_shed (request 50 turn_reaction))
unfolding push
full-push = refl

push-refuses_iff_example :
    (((push (queue_of (users 32)) (request 60 turn_reaction)).accepted ≡ false) ↔ (
      ((queue_of (users 32)).stopped ≡ true)
      ⊎ ((turn_reaction ≡ turn_reaction)
          × (session_queue_cap ≤ length (users 32))
          × All (λ r. r.kind ≡ turn_user) (users 32))))
    × (((push (queue_of (users 32)) (request 60 turn_reaction)).accepted ≡ true)
        ⊎ (((push (queue_of (users 32)) (request 60 turn_reaction)).queue ≡ queue_of (users 32))
            × ((push (queue_of (users 32)) (request 60 turn_reaction)).dropped ≡ none)))
push-refuses_iff_example = push-refuses_iff (queue_of (users 32)) (request 60 turn_reaction)

stop-push-idle_example :
    ((push (queue_of []) newcomer).accepted ≡ true)
    × ((stop (push (queue_of []) newcomer).queue).1 ≡ mark_shed newcomer ∷ [])
    × ((stop (push (queue_of []) newcomer).queue).0.q ≡ [])
stop-push-idle_example = stop-push-idle (queue_of []) newcomer (unfold idle in refl) refl

Reach-Inv_example : Inv (record fresh_session { queue = (push fresh_session.queue newcomer).queue })
unfolding new_session_queue
Reach-Inv_example = Reach-Inv (next here (pushes newcomer))
