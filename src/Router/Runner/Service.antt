-- ===== src/Router/Runner/Service.antt =====
-- A session in use: submitters, its runner with the agent, sweeps and other callers of the agent, in
-- any order.
use poe_acp_relay.Base.{
  ℕ, String, Bool, true, false, ◌≡◌, refl, sym, ap, ◌∙◌, ◌⊎◌, inl, inr, Option, none, some, List,
  [], ◌∷◌, ◌++◌, append_assoc, append-nil, map, map-append, arith, filter, filter-append,
  if◌then◌else◌,
}
use poe_acp_relay.Router.Types.{TurnReq, is_user_req}
use poe_acp_relay.Router.Queue.{
  SessionQueue, append_req, reject_req, push, Popped, popped, exits, sleeps, pop_from, pop_or_wait,
  finish_in_flight, stop,
}
use poe_acp_relay.Router.Queue.Order.{filter-OldestReaction, push_cases}
use poe_acp_relay.Router.Queue.Bound.{
  Session, running, asking, asleep, fresh_session, Inv, fresh-Inv, Step-Inv,
}
use poe_acp_relay.Router.Queue
use poe_acp_relay.Router.Queue.Bound
use poe_acp_relay.Router.Agent.{Agent}
use poe_acp_relay.Router.Turn.{RunnerState, TurnOutcome, run_one_turn}

-- The identities of the user turns among some requests.
abbrev pub user_ids : List TurnReq → List ℕ
user_ids rs = map (λ r. r.id) (filter is_user_req rs)

abbrev pub taken : Bool → TurnReq → List TurnReq
taken accepted req = if accepted then req ∷ [] else []

abbrev pub at_hand : Option TurnReq → List TurnReq
at_hand none = []
at_hand (some req) = req ∷ []

pub user_ids-append : (xs ys : List TurnReq) → user_ids (xs ++ ys) ≡ user_ids xs ++ user_ids ys
user_ids-append xs ys =
    ap (map (λ r. r.id)) (filter-append is_user_req xs ys)
    ∙ map-append (λ r. r.id) (filter is_user_req xs) (filter is_user_req ys)

pub user_ids-stop : (sq : SessionQueue) → user_ids (stop sq).1 ≡ user_ids sq.q
unfolding stop
user_ids-stop sq = go sq.q
  where
    go : (rs : List TurnReq) → user_ids (map Queue.mark_shed rs) ≡ user_ids rs
    go [] = refl
    go (r ∷ rs) = ground (arith, go rs)

-- A push adds what it accepts behind the user turns of the queue, and displaces none of them.
pub user_ids-push :
    (sq : SessionQueue) (req : TurnReq)
    → user_ids (push sq req).queue.q ≡ user_ids sq.q ++ user_ids (taken (push sq req).accepted req)
unfolding append_req reject_req
user_ids-push sq req =
    push_cases (λ p. user_ids p.queue.q ≡ user_ids sq.q ++ user_ids (taken p.accepted req)) sq req
      (sym (append-nil (user_ids sq.q))) (λ up short. user_ids-append sq.q (req ∷ []))
      (λ up users user. user_ids-append sq.q (req ∷ []))
      (λ r rest up o.
        user_ids-append rest (req ∷ [])
        ∙ ap (λ l. map (λ x. x.id) l ++ user_ids (req ∷ [])) (filter-OldestReaction o))

pub push_stopped : (sq : SessionQueue) (req : TurnReq) → (push sq req).queue.stopped ≡ sq.stopped
unfolding append_req reject_req
push_stopped sq req =
    push_cases (λ p. p.queue.stopped ≡ sq.stopped) sq req refl (λ _ _. refl) (λ _ _ _. refl)
      (λ _ _ _ _. refl)

-- What `popOrWait` gives on an empty queue, and on one with a turn.
pub pop_empty :
    (sq : SessionQueue) (stopping : Bool)
    → sq.q ≡ []
    → (pop_or_wait sq stopping ≡ exits)
      ⊎ (pop_or_wait sq stopping ≡ sleeps (record sq { notify = false }))
unfolding pop_or_wait pop_from
pop_empty sq true e = inl (rw e refl)
pop_empty sq false e = inr (rw e refl)

pub pop_first :
    (sq : SessionQueue) (stopping : Bool) (r : TurnReq) (rs : List TurnReq)
    → sq.q ≡ r ∷ rs
    → pop_or_wait sq stopping ≡ popped r (record sq { q = rs; in_flight = true })
unfolding pop_or_wait pop_from
pop_first sq stopping r rs e = rw e refl

pub user_ids-same :
    (r s : TurnReq) → r.id ≡ s.id → r.kind ≡ s.kind → user_ids (r ∷ []) ≡ user_ids (s ∷ [])
user_ids-same r s e k = ground arith

pub append₄ : (l c g q t : List ℕ) → l ++ (c ++ (g ++ (q ++ t))) ≡ (l ++ (c ++ (g ++ q))) ++ t
append₄ l c g q t = simp append_assoc refl

-- The session with its runner: the turn that was taken from the queue, the turns that are over, the
-- requests that a shutdown gave back, and those that pushes accepted since the start.
pub record Service (A : Type 0) : Type 0 where
  pub session : Session
  pub state : RunnerState
  pub agent : A
  pub current : Option TurnReq
  pub log : List (TurnOutcome A)
  pub given_up : List TurnReq
  pub accepted : List TurnReq

-- What the runner holds after it has asked the queue.
abbrev pub in_hand : {A : Type 0} → Service A → Popped → Option TurnReq
in_hand s (popped r sq) = some r
in_hand s exits = s.current
in_hand s (sleeps sq) = s.current

abbrev pub logged : {A : Type 0} → Service A → TurnOutcome A → Service A
logged s o = record s { state = o.session; agent = o.agent; current = none; log = s.log ++ o ∷ [] }

abbrev pub fresh_service : {A : Type 0} → RunnerState → A → Service A
fresh_service st a = record {
  session = fresh_session;
  state = st;
  agent = a;
  current = none;
  log = [];
  given_up = [];
  accepted = [];
}

-- The user turns that are over, in order.
abbrev pub over_ids : {A : Type 0} → Service A → List ℕ
over_ids s = user_ids (map (λ o. o.req) s.log)

module _ {A : Type 0} (agent : Agent A) (prompt : String) where
  -- The steps of the session's queue and runner, with `runOneTurn` between the runner's question and
  -- its `finishInFlight`. `gcOnce` and `install` may close the session at any time, and other callers
  -- may change the agent.
  pub data Step (s : Service A) : Service A → Type 0 where
    submits :
        (req : TurnReq)
        → Step s (record s {
          session = record s.session { queue = (push s.session.queue req).queue };
          accepted = s.accepted ++ taken (push s.session.queue req).accepted req;
        })
    asks :
        s.session.runner ≡ asking
        → Step s (record s {
          session = Bound.after_pop s.session (pop_or_wait s.session.queue s.session.run_stop);
          current = in_hand s (pop_or_wait s.session.queue s.session.run_stop);
        })
    runs :
        (now : ℕ) (req : TurnReq)
        → s.current ≡ some req
        → Step s (logged s (run_one_turn agent prompt now s.agent s.state req))
    finishes :
        s.session.runner ≡ running
        → s.current ≡ none
        → Step s (record s {
          session = record s.session { queue = finish_in_flight s.session.queue; runner = asking };
        })
    wakes :
        s.session.runner ≡ asleep
        → (s.session.queue.notify ≡ true) ⊎ (s.session.run_stop ≡ true)
        → Step s (record s { session = record s.session { runner = asking } })
    closes : Step s (record s { session = record s.session { run_stop = true } })
    stops :
        s.session.run_stop ≡ true
        → Step s (record s {
          session = record s.session { queue = (stop s.session.queue).0 };
          given_up = s.given_up ++ (stop s.session.queue).1;
        })
    agent_moves : (a : A) → Step s (record s { agent = a })

  pub data Reach (s : Service A) : Service A → Type 0 where
    here : Reach s s
    next : {t u : Service A} → Reach s t → Step t u → Reach s u
