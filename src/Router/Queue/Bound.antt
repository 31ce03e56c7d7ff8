-- ===== src/Router/Queue/Bound.antt =====
-- The size of the queue, and the sleep of its runner.
use poe_acp_relay.Base.{
  suc, ◌≤◌, ◌≡◌, refl, subst, ◌⊎◌, ◌↔◌, inl, inr, Bool, true, false, List, [], ◌∷◌, ◌++◌, arith,
  length, length-append, All, All-append,
}
use poe_acp_relay.Router.Types.{TurnReq, turn_user, turn_reaction, session_queue_cap}
use poe_acp_relay.Router.Queue.{
  SessionQueue, new_session_queue, append_req, reject_req, push, Popped, popped, exits, sleeps,
  pop_from, pop_or_wait, finish_in_flight, stop,
}
use poe_acp_relay.Router.Queue.Order.{OldestReaction, push_cases}

abbrev pub AllUsers : List TurnReq → Type 0
AllUsers rs = All (λ r. r.kind ≡ turn_user) rs

-- The queue is within its cap, or it holds user turns only.
abbrev pub IsBounded : SessionQueue → Type 0
IsBounded sq = (length sq.q ≤ session_queue_cap) ⊎ AllUsers sq.q

-- What the runner of the session does: it runs a turn or is about to ask for one, sleeps in
-- `popOrWait`, or has returned.
pub data Runner : Type 0 where
  running asking asleep gone : Runner

pub record Session : Type 0 where
  pub queue : SessionQueue
  pub runner : Runner
  pub run_stop : Bool

-- The next state of the runner by what `popOrWait` gives it.
abbrev pub after_pop : Session → Popped → Session
after_pop s (popped r sq) = record s { queue = sq; runner = running }
after_pop s exits = record s { runner = gone }
after_pop s (sleeps sq) = record s { queue = sq; runner = asleep }

-- A step of the session: a submitter pushes, the runner asks for a turn, finishes one, or is woken by
-- a token or by the stop channel, and `gcOnce` or `install` closes the stop channel and then the
-- queue.
pub data Step (s : Session) : Session → Type 0 where
  pushes : (req : TurnReq) → Step s (record s { queue = (push s.queue req).queue })
  asks : s.runner ≡ asking → Step s (after_pop s (pop_or_wait s.queue s.run_stop))
  finishes :
      s.runner ≡ running → Step s (record s { queue = finish_in_flight s.queue; runner = asking })
  wakes :
      s.runner ≡ asleep
      → (s.queue.notify ≡ true) ⊎ (s.run_stop ≡ true)
      → Step s (record s { runner = asking })
  closes : Step s (record s { run_stop = true })
  stops : s.run_stop ≡ true → Step s (record s { queue = (stop s.queue).0 })

pub data Reach (s : Session) : Session → Type 0 where
  here : Reach s s
  next : {t u : Session} → Reach s t → Step t u → Reach s u

-- The session as `getOrCreate` makes it.
abbrev pub fresh_session : Session
unfolding new_session_queue
fresh_session = record { queue = new_session_queue; runner = asking; run_stop = false }

-- `awake`: a runner sleeps over an empty queue, or with its token ready. `busy`: the queue counts a
-- turn as in flight exactly while the runner runs one. `ended`: the runner returns only when it was
-- told to. `drained`: a stopped queue holds nothing, so no request is left behind.
pub record Inv (s : Session) : Type 0 where
  pub bounded : IsBounded s.queue
  pub awake : s.runner ≡ asleep → (s.queue.q ≡ []) ⊎ (s.queue.notify ≡ true)
  pub busy : (s.queue.in_flight ≡ true) ↔ (s.runner ≡ running)
  pub ended : s.runner ≡ gone → s.run_stop ≡ true
  pub drained : s.queue.stopped ≡ true → (s.queue.q ≡ []) × (s.run_stop ≡ true)

length-OldestReaction :
    {rs : List TurnReq} {d : TurnReq} {rest : List TurnReq}
    → OldestReaction rs d rest
    → length rs ≡ suc (length rest)
length-OldestReaction {d} o =
    rw (o.whole, o.left)
      (omega (arith, length-append o.before (d ∷ o.after), length-append o.before o.after))

not-AllUsers :
    (before after : List TurnReq) (d : TurnReq)
    → d.kind ≡ turn_reaction
    → ¬ AllUsers (before ++ d ∷ after)
not-AllUsers [] after d r (u, _) = ground arith
not-AllUsers (x ∷ before) after d r (_, h) = not-AllUsers before after d r h

push-IsBounded : (sq : SessionQueue) (req : TurnReq) → IsBounded sq → IsBounded (push sq req).queue
unfolding append_req reject_req
push-IsBounded sq req h =
    push_cases (λ p. IsBounded p.queue) sq req h
      (λ _ short. inl (omega (arith, length-append sq.q (req ∷ []))))
      (λ _ users user. inr (All-append _ sq.q (req ∷ []) users (user, tt)))
      (λ r rest _ o. shed r rest o h)
  where
    shed :
        (r : TurnReq) (rest : List TurnReq)
        → OldestReaction sq.q r rest
        → IsBounded sq
        → (length (rest ++ req ∷ []) ≤ session_queue_cap) ⊎ AllUsers (rest ++ req ∷ [])
    shed r rest o (inl short) =
        inl (omega (arith, length-append rest (req ∷ []), length-OldestReaction o))
    shed r rest o (inr users) =
        absurd (not-AllUsers o.before o.after r o.reaction (subst AllUsers o.whole users))

push_shape :
    (sq : SessionQueue) (req : TurnReq)
    → ((push sq req).queue ≡ sq)
      ⊎ ((rs : List TurnReq) × (sq.stopped ≡ false)
          × ((push sq req).queue ≡ record sq { q = rs; notify = true }))
unfolding append_req reject_req
push_shape sq req =
    push_cases
      (λ p.
        (p.queue ≡ sq)
        ⊎ ((rs : List TurnReq) × (sq.stopped ≡ false)
            × (p.queue ≡ record sq { q = rs; notify = true })))
      sq req (inl refl) (λ up _. inr (_, up, refl)) (λ up _ _. inr (_, up, refl))
      (λ r rest up _. inr (_, up, refl))

pub Step-Inv : {s t : Session} → Step s t → Inv s → Inv t
unfolding pop_or_wait pop_from finish_in_flight stop
Step-Inv {s} (pushes req) v = record {
  bounded = push-IsBounded s.queue req v.bounded;
  awake = ground (arith, push_shape s.queue req, v.awake);
  busy = ground (arith, push_shape s.queue req, v.busy);
  ended = v.ended;
  drained = ground (arith, push_shape s.queue req, v.drained);
}
Step-Inv {s} (asks e) v = ground arith
Step-Inv {s} (finishes e) v = ground arith
Step-Inv {s} (wakes e w) v = ground arith
Step-Inv {s} closes v = ground arith
Step-Inv {s} (stops e) v = ground arith

Reach-preserves : {s t : Session} → Inv s → Reach s t → Inv t
Reach-preserves v here = v
Reach-preserves v (next r st) = Step-Inv st (Reach-preserves v r)

pub fresh-Inv : Inv fresh_session
unfolding new_session_queue
fresh-Inv = record {
  bounded = inl (omega arith);
  awake = λ e. cc;
  busy = (λ e. cc, λ e. cc);
  ended = λ e. cc;
  drained = λ e. cc;
}

-- After any interleaving of submitters, the runner and a shutdown: the queue holds at most 32 requests
-- or user turns only; a sleeping runner has an empty queue or a token to wake it; a turn is marked in
-- flight exactly while the runner runs it; the runner is gone only after a shutdown; and a stopped
-- queue is empty, its runner told to stop.
pub Reach-Inv : {s : Session} → Reach fresh_session s → Inv s
Reach-Inv r = Reach-preserves fresh-Inv r
