-- ===== src/Router/Turn/Applied.antt =====
-- The options of a session, and what of them the agent has been told.
use poe_acp_relay.Base.{String, ◌≡◌, none, arith, eq_iff, ◌⊎◌}
use poe_acp_relay.Router.Types.{Options}
use poe_acp_relay.Router.Agent.{Agent}
use poe_acp_relay.Router.Turn.{RunnerState, apply_model, apply_thinking, apply_options}

-- What is asked for is nothing, or what is applied already.
abbrev pub IsSettled : String → String → Type 0
IsSettled asked applied = (asked ≡ "") ⊎ (applied ≡ asked)

module _ {A : Type 0} (agent : Agent A) where
  apply_model_applied :
      (a : A) (st : RunnerState) (model : String)
      → (apply_model agent a st model).0 ≡ none
      → IsSettled model (apply_model agent a st model).1.applied.model
  unfolding apply_model
  apply_model_applied a st model h = ground (arith, eq_iff model "", eq_iff model st.applied.model)

  apply_model_settled :
      (a : A) (st : RunnerState) (model : String)
      → IsSettled model st.applied.model
      → apply_model agent a st model ≡ (none, st, a)
  unfolding apply_model
  apply_model_settled a st model h = ground (arith, eq_iff model "", eq_iff model st.applied.model)

  apply_thinking_applied :
      (a : A) (st : RunnerState) (level : String)
      → IsSettled level (apply_thinking agent a st level).0.applied.thinking
        × ((apply_thinking agent a st level).0.applied.model ≡ st.applied.model)
  unfolding apply_thinking
  apply_thinking_applied a st level =
      (ground (arith, eq_iff level "", eq_iff level st.applied.thinking), ground arith)

  apply_thinking_settled :
      (a : A) (st : RunnerState) (level : String)
      → IsSettled level st.applied.thinking
      → apply_thinking agent a st level ≡ (st, a)
  unfolding apply_thinking
  apply_thinking_settled a st level h =
      ground (arith, eq_iff level "", eq_iff level st.applied.thinking)

  apply_options_settled :
      (a : A) (st : RunnerState) (opts : Options)
      → IsSettled opts.model st.applied.model
      → IsSettled opts.thinking st.applied.thinking
      → apply_options agent a st opts ≡ (none, st, a)
  unfolding apply_options
  apply_options_settled a st opts m t =
      ground
        (arith, apply_model_settled a st opts.model m, apply_thinking_settled a st opts.thinking t)

  apply_options_applied :
      (a : A) (st : RunnerState) (opts : Options)
      → (apply_options agent a st opts).0 ≡ none
      → IsSettled opts.model (apply_options agent a st opts).1.applied.model
        × IsSettled opts.thinking (apply_options agent a st opts).1.applied.thinking
  unfolding apply_options
  apply_options_applied a st opts h =
      let m = apply_model agent a st opts.model in
      let t = apply_thinking_applied m.2 m.1 opts.thinking in
      ground (arith, apply_model_applied a st opts.model, t)

  -- Options that were applied with no error stay applied: asking for them again, in whatever state the
  -- agent then is, makes no call of the agent, changes nothing of the session and reports no error.
  pub apply_options_again :
      (a b : A) (st : RunnerState) (opts : Options)
      → (apply_options agent a st opts).0 ≡ none
      → apply_options agent b (apply_options agent a st opts).1 opts
        ≡ (none, (apply_options agent a st opts).1, b)
  apply_options_again a b st opts h =
      let (m, t) = apply_options_applied a st opts h in apply_options_settled b _ opts m t
