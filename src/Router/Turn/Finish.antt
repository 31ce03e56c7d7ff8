-- ===== src/Router/Turn/Finish.antt =====
-- How a turn ends: the last call on its sink, and what the request and the session come back with.
use poe_acp_relay.Base.{
  Result, ok, err, ℕ, String, ◌≡◌, refl, sym, ap, ◌∙◌, Bool, true, false, Option, none, some, List,
  [], ◌∷◌, ◌++◌, append_assoc, arith, map, ◌+◌, ◌<◌, Bool-cases, inl, inr, All, All-append,
}
use poe_acp_relay.Router.Types.{
  TurnReq, turn_reaction, reaction_max_age, is_reaction, is_user_req, SinkCall, put_done,
}
use poe_acp_relay.Router.Drain.{Update, tagged}
use poe_acp_relay.Router.Drain.Turns.{
  Turn, turn_output, IsNotDone, turn_output-All, drain_chunks-turn_msgs,
}
use poe_acp_relay.Router.Agent.{
  Agent, StopReason, end_turn, max_tokens, max_turn_requests, refusal, cancelled, other_reason,
}
use poe_acp_relay.Router.Turn.{
  RunnerState, drained, terminal, option_notice, inline_prompt, options_for, run_fresh_turn,
  is_stale, run_one_turn, TurnOutcome,
}

untag : (k : ℕ) (cs : List SinkCall) → map (λ p. p.1) (tagged k cs) ≡ cs
untag k [] = refl
untag k (c ∷ cs) = ap (λ l. c ∷ l) (untag k cs)

-- What the drain goroutine writes for a turn are the calls for its chunks.
pub drained-turn_output :
    (k : ℕ) (hide : Bool) (us : List Update)
    → drained k hide us ≡ turn_output (record { sink = k; hide_thinking = hide }) us
unfolding drained
drained-turn_output k hide us =
    let t : Turn = record {
      late = [];
      td = record { sink = k; hide_thinking = hide };
      chunks = us;
      ack = k;
    } in
    ap (map (λ p. p.1)) (drain_chunks-turn_msgs t) ∙ untag k (turn_output t.td us)

drained-All : (k : ℕ) (hide : Bool) (us : List Update) → All IsNotDone (drained k hide us)
drained-All k hide us = rw (drained-turn_output k hide us) (turn_output-All _ us)

option_notice-All : (e : Option String) → All IsNotDone (option_notice e)
unfolding option_notice
option_notice-All none = tt
option_notice-All (some e) = (tt, (tt, tt))

-- The list ends in `put_done`, which stands nowhere else in it.
abbrev pub EndsOnce : List SinkCall → Type 0
EndsOnce cs = (before : List SinkCall) × (cs ≡ before ++ put_done ∷ []) × All IsNotDone before

terminal-EndsOnce : (r : Result StopReason) → EndsOnce (terminal r).0
unfolding terminal
terminal-EndsOnce (err e) = (_ ∷ [], refl, (tt, tt))
terminal-EndsOnce (ok end_turn) = ([], refl, tt)
terminal-EndsOnce (ok max_tokens) = (_ ∷ [], refl, (tt, tt))
terminal-EndsOnce (ok max_turn_requests) = (_ ∷ [], refl, (tt, tt))
terminal-EndsOnce (ok refusal) = (_ ∷ [], refl, (tt, tt))
terminal-EndsOnce (ok cancelled) = (_ ∷ [], refl, (tt, tt))
terminal-EndsOnce (ok (other_reason r)) = ([], refl, tt)

append-EndsOnce : (xs ys : List SinkCall) → All IsNotDone xs → EndsOnce ys → EndsOnce (xs ++ ys)
append-EndsOnce xs ys h (before, e, k) = (
  xs ++ before,
  ap (λ l. xs ++ l) e ∙ sym (append_assoc xs before (put_done ∷ [])),
  All-append IsNotDone xs before h k,
)

-- A turn that was run is closed, and a user's has ended its sink once.
abbrev pub IsOver : {A : Type 0} → TurnOutcome A → Type 0
IsOver o = (o.req.done ≡ true) × (is_user_req o.req ≡ true → EndsOnce o.puts)

module _ {A : Type 0} (agent : Agent A) where
  -- Every turn that is not a stale reaction ends its sink exactly once, by the last call, whatever the
  -- agent answers; the request comes back closed, and shed only if it was before.
  pub run_one_turn-EndsOnce :
      (prompt : String) (now : ℕ) (a : A) (st : RunnerState) (req : TurnReq)
      → is_stale now req ≡ false
      → EndsOnce (run_one_turn agent prompt now a st req).puts
        × ((run_one_turn agent prompt now a st req).req.done ≡ true)
        × ((run_one_turn agent prompt now a st req).req.shed ≡ req.shed)
  unfolding run_one_turn
  run_one_turn-EndsOnce prompt now a st req h = rw h (
    append-EndsOnce _ _ (option_notice-All _)
        (append-EndsOnce _ _ (drained-All req.id req.hide_thinking _) (terminal-EndsOnce _)),
    refl,
    refl,
  )

  -- A reaction that has waited for more than a minute is closed as shed, and its turn makes no call on
  -- its sink and none of the agent, and leaves the session as it was.
  pub run_one_turn_stale :
      (prompt : String) (now : ℕ) (a : A) (st : RunnerState) (req : TurnReq)
      → req.kind ≡ turn_reaction
      → req.enqueued_at + reaction_max_age < now
      → run_one_turn agent prompt now a st req ≡ record {
        req = record req { shed = true; done = true };
        session = st;
        puts = [];
        agent = a;
      }
  unfolding run_one_turn
  run_one_turn_stale prompt now a st req k late =
      let e : is_stale now req ≡ true = ground arith in rw e

  -- A reaction changes neither the options that count as applied nor the system prompt that waits for
  -- the next user turn.
  pub run_one_turn_reaction :
      (prompt : String) (now : ℕ) (a : A) (st : RunnerState) (req : TurnReq)
      → req.kind ≡ turn_reaction
      → (run_one_turn agent prompt now a st req).session ≡ st
  unfolding run_one_turn run_fresh_turn options_for inline_prompt
  run_one_turn_reaction prompt now a st req k =
      let r : is_reaction req.kind ≡ true = ground arith in
      elim (Bool-cases (is_stale now req)) [ inl stale ↦ rw stale | inr fresh ↦ ground arith ]

  -- A turn keeps the identity and the kind of its request.
  pub run_one_turn_same :
      (prompt : String) (now : ℕ) (a : A) (st : RunnerState) (req : TurnReq)
      → ((run_one_turn agent prompt now a st req).req.id ≡ req.id)
        × ((run_one_turn agent prompt now a st req).req.kind ≡ req.kind)
  unfolding run_one_turn run_fresh_turn
  run_one_turn_same prompt now a st req = elim (Bool-cases (is_stale now req)) [
    | inl e ↦ rw e (refl, refl)
    | inr e ↦ rw e (refl, refl)
  ]

  pub run_one_turn-IsOver :
      (prompt : String) (now : ℕ) (a : A) (st : RunnerState) (req : TurnReq)
      → IsOver (run_one_turn agent prompt now a st req)
  run_one_turn-IsOver prompt now a st req = elim (Bool-cases (is_stale now req)) [
    | inl e ↦ unfold run_one_turn in rw e (refl, λ u. absurd (ground arith))
    | inr e ↦
        let (ends, closed, _) = run_one_turn-EndsOnce prompt now a st req e in (closed, λ _. ends)
  ]

  -- What becomes of the options of a turn, and what the agent then answers to its blocks.
  pub options_error : A → RunnerState → TurnReq → Option String
  options_error a st req = (options_for agent a st req).0

  pub answer_of : String → A → RunnerState → TurnReq → Result StopReason × List Update × A
  answer_of prompt a st req =
      let (e, st', a') = options_for agent a st req in
      agent.prompt a' st.session_id (inline_prompt prompt req.kind st' req.blocks).0

  -- The calls of a turn that is not a stale reaction: a notice, the agent's chunks, and the end.
  pub run_one_turn-puts :
      (prompt : String) (now : ℕ) (a : A) (st : RunnerState) (req : TurnReq)
      → is_stale now req ≡ false
      → (run_one_turn agent prompt now a st req).puts
        ≡ option_notice (options_error a st req)
          ++ (turn_output
                (record { sink = req.id; hide_thinking = req.hide_thinking })
                (answer_of prompt a st req).1
              ++ (terminal (answer_of prompt a st req).0).0)
  unfolding run_one_turn run_fresh_turn options_error answer_of
  run_one_turn-puts prompt now a st req fresh = rw fresh (
      ap
        (λ l.
          option_notice (options_error a st req)
          ++ (l ++ (terminal (answer_of prompt a st req).0).0))
        (drained-turn_output req.id req.hide_thinking _))

  -- The error of a turn that is not a stale reaction is the agent's.
  pub run_one_turn-err :
      (prompt : String) (now : ℕ) (a : A) (st : RunnerState) (req : TurnReq)
      → is_stale now req ≡ false
      → (run_one_turn agent prompt now a st req).req.err
        ≡ (terminal (answer_of prompt a st req).0).1
  unfolding run_one_turn run_fresh_turn answer_of
  run_one_turn-err prompt now a st req fresh = rw fresh refl
