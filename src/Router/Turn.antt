-- ===== src/Router/Turn.antt =====
-- `applyOptions` and `runOneTurn` of internal/router/router.go: one queued turn, from its options to
-- the last call on its sink.
pub mod Applied
pub mod Finish
mod Tests
use Prim.Native.String.{◌++◌ as ◌+++◌}
use poe_acp_relay.Base.{
  Result, ok, err, ℕ, ◌-◌, String, Bool, true, false, not, ◌&&◌, Option, none, some, List, [], ◌∷◌,
  ◌++◌, if◌then◌else◌, ◌==◌, map, ltb,
}
use poe_acp_relay.Router.Types.{
  Options, ContentBlock, text_block, TurnKind, turn_user, turn_reaction, is_reaction, TurnReq,
  reaction_max_age, SinkCall, first_chunk, put_text, put_replace, put_error, put_done,
}
use poe_acp_relay.Router.Drain.{
  Update, TurnDef, notif, begin_turn, end_turn, new_drain, drain_chunks,
}
use poe_acp_relay.Router.Agent.{
  Agent, StopReason, end_turn as ended, max_tokens, max_turn_requests, refusal, cancelled,
  other_reason,
}

-- The fields of `sessionState` that belong to the runner.
pub record RunnerState : Type 0 where
  pub session_id : String
  pub applied : Options
  pub pending_system_prompt_inline : Bool

-- What follows the system prompt in front of the text of a first turn.
abbrev pub inline_clause : String
inline_clause =
    "The block above is durable system context. Preserve it verbatim across any summarisation of this conversation.\n\n"

-- The fallback for an agent without the system-prompt capability: the prompt goes in front of the
-- first text block, once.
inline_first : String → List ContentBlock → List ContentBlock
inline_first prompt (text_block t ∷ bs) =
    text_block ((prompt +++ ("\n" +++ inline_clause)) +++ t) ∷ bs
inline_first prompt bs = bs

inline_prompt :
    String → TurnKind → RunnerState → List ContentBlock → List ContentBlock × RunnerState
unfolding inline_first
inline_prompt prompt kind st blocks =
    if not (is_reaction kind) && (st.pending_system_prompt_inline && not (prompt == ""))
    then (inline_first prompt blocks, record st { pending_system_prompt_inline = false })
    else (blocks, st)

-- What the drain goroutine writes to the sink of a turn between its begin and the acknowledgement of
-- its end, where the agent sends these updates.
pub drained : ℕ → Bool → List Update → List SinkCall
drained sink hide updates =
    map (λ p. p.1)
      (drain_chunks new_drain (begin_turn td ∷ (map notif updates ++ end_turn sink ∷ []))).out
  where
    td : TurnDef
    td = record { sink = sink; hide_thinking = hide }

-- The last calls on the sink, and the error of the request.
unfoldable pub terminal : Result StopReason → List SinkCall × Option String
terminal (err e) = (put_error ("acp prompt: " +++ e) "user_caused_error" ∷ put_done ∷ [], some e)
terminal (ok max_tokens) = (put_text "\n\n_(response truncated: max tokens)_" ∷ put_done ∷ [], none)
terminal (ok max_turn_requests) =
    (put_text "\n\n_(response truncated: max turns)_" ∷ put_done ∷ [], none)
terminal (ok refusal) =
    (put_error "agent refused the request" "user_caused_error" ∷ put_done ∷ [], none)
terminal (ok cancelled) = (put_replace "_(cancelled)_" ∷ put_done ∷ [], none)
terminal (ok ended) = (put_done ∷ [], none)
terminal (ok (other_reason r)) = (put_done ∷ [], none)

-- A notice on the sink for an option that was not applied.
unfoldable pub option_notice : Option String → List SinkCall
option_notice none = []
option_notice (some e) = first_chunk ∷ put_text ("_(option not applied: " +++ (e +++ ")_\n\n")) ∷ []

-- A reaction that has waited for more than a minute.
abbrev pub is_stale : ℕ → TurnReq → Bool
is_stale now req = is_reaction req.kind && ltb reaction_max_age (now - req.enqueued_at)

-- What a turn leaves: the request, closed; the session; the calls on the request's sink; the agent.
pub record TurnOutcome (A : Type 0) : Type 0 where
  pub req : TurnReq
  pub session : RunnerState
  pub puts : List SinkCall
  pub agent : A

module _ {A : Type 0} (agent : Agent A) where
  -- `SetModel`, if a model is asked for that is not the applied one.
  apply_model : A → RunnerState → String → Option String × RunnerState × A
  apply_model a st model =
      if not (model == "") && not (model == st.applied.model)
      then (let (e, a') = agent.set_model a st.session_id model in
          elim e [
            | none ↦ (none, record st { applied = record st.applied { model = model } }, a')
            | some e' ↦ (some ("set_model " +++ (model +++ (": " +++ e'))), st, a')
          ])
      else (none, st, a)

  -- A level that the agent rejects counts as applied.
  apply_thinking : A → RunnerState → String → RunnerState × A
  apply_thinking a st level =
      if not (level == "") && not (level == st.applied.thinking)
      then (
        record st { applied = record st.applied { thinking = level } },
        (agent.set_config_option a st.session_id "thinking_level" level).1,
      )
      else (st, a)

  -- The first part is the error; after an error of the model the thinking level is left alone.
  pub apply_options : A → RunnerState → Options → Option String × RunnerState × A
  apply_options a st opts =
      let (e, st', a') = apply_model a st opts.model in
      elim e [
        | none ↦ let (st'', a'') = apply_thinking a' st' opts.thinking in (none, st'', a'')
        | some e' ↦ (some e', st', a')
      ]

  -- `applyOptions`, for a user turn.
  options_for : A → RunnerState → TurnReq → Option String × RunnerState × A
  unfolding apply_options
  options_for a st req = if is_reaction req.kind then (none, st, a) else apply_options a st req.opts

  -- A turn that is run: options, the inlined system prompt, the prompt, and the end.
  run_fresh_turn : String → A → RunnerState → TurnReq → TurnOutcome A
  unfolding options_for inline_prompt drained terminal option_notice
  run_fresh_turn prompt a st req =
      let (e, st', a') = options_for a st req in
      let (blocks, st'') = inline_prompt prompt req.kind st' req.blocks in
      let (reply, updates, a'') = agent.prompt a' st.session_id blocks in
      let (last, failure) = terminal reply in
      record {
        req = record req { err = failure; done = true };
        session = st'';
        puts = option_notice e ++ (drained req.id req.hide_thinking updates ++ last);
        agent = a'';
      }

  -- `now` is the clock at the start of the turn; a clock that runs backwards makes no reaction stale.
  pub run_one_turn : String → ℕ → A → RunnerState → TurnReq → TurnOutcome A
  unfolding run_fresh_turn
  run_one_turn prompt now a st req =
      if is_stale now req
      then record {
        req = record req { shed = true; done = true };
        session = st;
        puts = [];
        agent = a;
      }
      else run_fresh_turn prompt a st req
