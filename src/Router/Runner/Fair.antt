-- ===== src/Router/Runner/Fair.antt =====
-- The order of service, as an invariant of a session in use.
use poe_acp_relay.Base.{
  ℕ, String, false, ◌≡◌, ◌≢◌, refl, sym, ap, subst, ◌∙◌, inl, inr, none, some, List, [], ◌∷◌, ◌++◌,
  append_assoc, append-nil, map, map-append, All, All-append, List-cases, Bool-cases, Option-cases,
}
use poe_acp_relay.Router.Types.{TurnReq}
use poe_acp_relay.Router.Queue.{
  SessionQueue, append_req, reject_req, push, Popped, popped, exits, sleeps, pop_from, pop_or_wait,
  finish_in_flight, stop,
}
use poe_acp_relay.Router.Queue.Bound.{
  Session, running, asking, asleep, fresh_session, Inv, fresh-Inv, Step-Inv,
}
use poe_acp_relay.Router.Queue
use poe_acp_relay.Router.Queue.Bound
use poe_acp_relay.Router.Agent.{Agent}
use poe_acp_relay.Router.Turn.{RunnerState, TurnOutcome, run_one_turn}
use poe_acp_relay.Router.Turn.Finish.{IsOver, run_one_turn_same, run_one_turn-IsOver}
use poe_acp_relay.Router.Runner.Service.{
  user_ids, taken, at_hand, user_ids-append, user_ids-stop, user_ids-push, push_stopped, pop_empty,
  pop_first, user_ids-same, append₄, Service, in_hand, fresh_service, over_ids, Step, submits, asks,
  runs, finishes, wakes, closes, stops, agent_moves,
}

module _ {A : Type 0} (agent : Agent A) (prompt : String) where
  -- First come, first served: the user turns that are over, the one at hand, those that a shutdown
  -- gave back and those that wait are, in this order, the accepted ones.
  pub record IsFair (s : Service A) : Type 0 where
    pub inv : Inv s.session
    pub busy : (req : TurnReq) → s.current ≡ some req → s.session.runner ≡ running
    pub kept : s.session.queue.stopped ≡ false → s.given_up ≡ []
    pub served :
        over_ids s
          ++ (user_ids (at_hand s.current) ++ (user_ids s.given_up ++ user_ids s.session.queue.q))
        ≡ user_ids s.accepted
    pub over : All IsOver s.log

  pub fresh-IsFair : (st : RunnerState) (a : A) → IsFair (fresh_service st a)
  fresh-IsFair st a = record {
    inv = fresh-Inv;
    busy = λ req e. absurd (cc);
    kept = λ _. refl;
    served = unfold Queue.new_session_queue in refl;
    over = tt;
  }

  submits-served :
      (s : Service A) (req : TurnReq)
      → IsFair s
      → over_ids s
          ++ (user_ids (at_hand s.current)
              ++ (user_ids s.given_up ++ user_ids (push s.session.queue req).queue.q))
        ≡ user_ids (s.accepted ++ taken (push s.session.queue req).accepted req)
  submits-served s req v =
      rw
        (
          user_ids-push s.session.queue req,
          user_ids-append s.accepted (taken (push s.session.queue req).accepted req),
        )
        (append₄ (over_ids s) (user_ids (at_hand s.current)) (user_ids s.given_up)
            (user_ids s.session.queue.q) (user_ids (taken (push s.session.queue req).accepted req))
          ∙ ap (λ l. l ++ user_ids (taken (push s.session.queue req).accepted req)) v.served)

  runs-served :
      (s : Service A) (now : ℕ) (req : TurnReq)
      → s.current ≡ some req
      → IsFair s
      → user_ids
            (map (λ o. o.req) (s.log ++ run_one_turn agent prompt now s.agent s.state req ∷ []))
          ++ (user_ids s.given_up ++ user_ids s.session.queue.q)
        ≡ user_ids s.accepted
  runs-served s now req e v =
      let o = run_one_turn agent prompt now s.agent s.state req in
      let (id, kind) = run_one_turn_same agent prompt now s.agent s.state req in
      rw (map-append (λ (x : TurnOutcome A). x.req) s.log (o ∷ [])) (
        rw (user_ids-append (map (λ x. x.req) s.log) (o.req ∷ [])) (
          rw (user_ids-same o.req req id kind) (
            append_assoc (over_ids s) (user_ids (req ∷ []))
              (user_ids s.given_up ++ user_ids s.session.queue.q)
            ∙ subst
                (λ c.
                  over_ids s
                    ++ (user_ids (at_hand c) ++ (user_ids s.given_up ++ user_ids s.session.queue.q))
                  ≡ user_ids s.accepted)
                e v.served)))

  stops-served :
      (s : Service A)
      → IsFair s
      → over_ids s
          ++ (user_ids (at_hand s.current)
              ++ (user_ids (s.given_up ++ (stop s.session.queue).1) ++ []))
        ≡ user_ids s.accepted
  stops-served s v = rw (user_ids-append s.given_up (stop s.session.queue).1) (
      rw (user_ids-stop s.session.queue)
        (rw (append-nil (user_ids s.given_up ++ user_ids s.session.queue.q)) v.served))

  -- The service after the runner's question.
  abbrev asked : Service A → Popped → Service A
  asked s p = record s { session = Bound.after_pop s.session p; current = in_hand s p }

  asks-empty :
      (s : Service A)
      → s.session.runner ≡ asking
      → s.session.queue.q ≡ []
      → IsFair s
      → IsFair (asked s (pop_or_wait s.session.queue s.session.run_stop))
  asks-empty s e empty v =
      let w = Step-Inv (Bound.asks e) v.inv in
      elim (pop_empty s.session.queue s.session.run_stop empty) [
        | inl p ↦ rw p record {
          inv = subst (λ x. Inv (Bound.after_pop s.session x)) p w;
          busy = λ r found. absurd (let k = v.busy r found in cc);
          kept = v.kept;
          served = v.served;
          over = v.over;
        }
        | inr p ↦ rw p record {
          inv = subst (λ x. Inv (Bound.after_pop s.session x)) p w;
          busy = λ r found. absurd (let k = v.busy r found in cc);
          kept = v.kept;
          served = v.served;
          over = v.over;
        }
      ]

  nothing_given :
      (s : Service A) (r : TurnReq) (rs : List TurnReq)
      → s.session.queue.q ≡ r ∷ rs
      → IsFair s
      → s.given_up ≡ []
  nothing_given s r rs first v = elim (Bool-cases s.session.queue.stopped) [
    | inl closed ↦ absurd (let (empty, _) = v.inv.drained closed in cc)
    | inr up ↦ v.kept up
  ]

  -- With no turn at hand and none given back, there are the turns that are over and those that wait.
  pub nothing_between :
      (s : Service A)
      → s.current ≡ none
      → s.given_up ≡ []
      → IsFair s
      → over_ids s ++ user_ids s.session.queue.q ≡ user_ids s.accepted
  nothing_between s free g v =
      ap (λ l. over_ids s ++ (user_ids l ++ user_ids s.session.queue.q)) (sym g)
      ∙ (ap
            (λ c.
              over_ids s
              ++ (user_ids (at_hand c) ++ (user_ids s.given_up ++ user_ids s.session.queue.q)))
            (sym free)
          ∙ v.served)

  pub nothing_at_hand : (s : Service A) → s.session.runner ≢ running → IsFair s → s.current ≡ none
  nothing_at_hand s other v = elim (Option-cases s.current) [
    | inl free ↦ free
    | inr (x, found) ↦ absurd (other (v.busy x found))
  ]

  asks-first :
      (s : Service A) (r : TurnReq) (rs : List TurnReq)
      → s.session.runner ≡ asking
      → s.session.queue.q ≡ r ∷ rs
      → IsFair s
      → IsFair (asked s (pop_or_wait s.session.queue s.session.run_stop))
  asks-first s r rs e first v =
      let p = pop_first s.session.queue s.session.run_stop r rs first in
      rw p record {
        inv = subst (λ x. Inv (Bound.after_pop s.session x)) p (Step-Inv (Bound.asks e) v.inv);
        busy = λ _ _. refl;
        kept = v.kept;
        served = rw (nothing_given s r rs first v) (
            ap (λ l. over_ids s ++ l) (sym (user_ids-append (r ∷ []) rs))
            ∙ (ap (λ l. over_ids s ++ user_ids l) (sym first)
                ∙ nothing_between s (nothing_at_hand s (λ busy. cc) v)
                    (nothing_given s r rs first v) v));
        over = v.over;
      }

  asks-IsFair :
      (s : Service A)
      → s.session.runner ≡ asking
      → IsFair s
      → IsFair (asked s (pop_or_wait s.session.queue s.session.run_stop))
  asks-IsFair s e v = elim (List-cases s.session.queue.q) [
    | inl empty ↦ asks-empty s e empty v
    | inr (r, rs, first) ↦ asks-first s r rs e first v
  ]

  -- Every step keeps the service fair.
  pub Step-IsFair : {s t : Service A} → Step agent prompt s t → IsFair s → IsFair t
  Step-IsFair {s} (submits req) v = record {
    inv = Step-Inv (Bound.pushes req) v.inv;
    busy = v.busy;
    kept = λ up. v.kept (sym (push_stopped s.session.queue req) ∙ up);
    served = submits-served s req v;
    over = v.over;
  }
  Step-IsFair {s} (asks e) v = asks-IsFair s e v
  Step-IsFair {s} (runs now req e) v = record {
    inv = v.inv;
    busy = λ r no. absurd (cc);
    kept = v.kept;
    served = runs-served s now req e v;
    over =
        All-append IsOver s.log _ v.over
          (run_one_turn-IsOver agent prompt now s.agent s.state req, tt);
  }
  Step-IsFair {s} (finishes e free) v = record {
    inv = Step-Inv (Bound.finishes e) v.inv;
    busy = λ r found. absurd (cc);
    kept = unfold finish_in_flight in v.kept;
    served = unfold finish_in_flight in v.served;
    over = v.over;
  }
  Step-IsFair {s} (wakes e w) v = record {
    inv = Step-Inv (Bound.wakes e w) v.inv;
    busy = λ r found. absurd (let k = v.busy r found in cc);
    kept = v.kept;
    served = v.served;
    over = v.over;
  }
  Step-IsFair {s} closes v = record {
    inv = Step-Inv Bound.closes v.inv;
    busy = v.busy;
    kept = v.kept;
    served = v.served;
    over = v.over;
  }
  Step-IsFair {s} (stops e) v = record {
    inv = Step-Inv (Bound.stops e) v.inv;
    busy = v.busy;
    kept = λ up. absurd (unfold stop in cc);
    served = unfold stop in stops-served s v;
    over = v.over;
  }
  Step-IsFair {s} (agent_moves a) v = record {
    inv = v.inv;
    busy = v.busy;
    kept = v.kept;
    served = v.served;
    over = v.over;
  }
