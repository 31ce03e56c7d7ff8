-- ===== src/Acpclient/Routing.antt =====
-- Whose updates go where.
use poe_acp_relay.Base.{
  ◌≡◌, refl, sym, ap, subst, ◌∙◌, inl, inr, Result, ok, err, ℕ, String, Option, none, some, List,
  if◌then◌else◌, ◌==◌, eq_iff, arith, Dict, lookup, insert, delete, lookup-insert, lookup-delete,
  eq-cases, ◌≢◌, Option-cases,
}
use poe_acp_relay.Router.Types.{ContentBlock}
use poe_acp_relay.Acpclient.{
  AgentProc, Connection, NewSessionResponse, ModelState, add_session, created, probe, new_session,
  probe_models, sink_for, noop_sink, drop_sink,
}

-- An entry that is put in and taken out again was not there before.
lookup-delete-insert :
    (key other : String) (v : ℕ) (m : Dict ℕ)
    → lookup key m ≡ none
    → lookup other (delete key (insert key v m)) ≡ lookup other m
lookup-delete-insert key other v m fresh = elim (eq-cases key other) [
  | inl e ↦
      lookup-delete key other (insert key v m)
      ∙ (ap (λ b. if b then none else lookup other (insert key v m)) ((eq_iff key other).1 e)
          ∙ sym (subst (λ k. lookup k m ≡ none) e fresh))
  | inr n ↦
      lookup-delete key other (insert key v m)
      ∙ (ap (λ b. if b then none else lookup other (insert key v m)) n
          ∙ (lookup-insert key other v m ∙ ap (λ b. if b then some v else lookup other m) n))
]

err≢ok : {A : Type 0} (e : String) (x : A) → err e ≢ ok x
err≢ok e x h = ground (arith, h)

pub ok_inj : {A : Type 0} (x y : A) → ok x ≡ ok y → x ≡ y
ok_inj x y h = ground (arith, h)

probe_models_known :
    {C : Type 0} (c : Connection C) (a : AgentProc C) (m : ModelState)
    → a.models ≡ some m
    → probe_models c a ≡ (none, a)
unfolding probe_models
probe_models_known {C = C} c a m e =
    ap (λ o. elim o as (λ _. Option String × AgentProc C) [ some m ↦ (none, a) | none ↦ probe c a ])
      e

probe_models_unknown :
    {C : Type 0} (c : Connection C) (a : AgentProc C)
    → a.models ≡ none
    → probe_models c a ≡ probe c a
unfolding probe_models
probe_models_unknown {C = C} c a e =
    ap (λ o. elim o as (λ _. Option String × AgentProc C) [ some m ↦ (none, a) | none ↦ probe c a ])
      e

module _ {C : Type 0} (c : Connection C) where
  lookup-created :
      (a : AgentProc C) (sink : ℕ) (r : Result NewSessionResponse) (sid other : String)
      → (created c a sink r).0 ≡ ok sid
      → lookup other (created c a sink r).1.sinks
        ≡ (if sid == other then some sink else lookup other a.sinks)
  unfolding created add_session
  lookup-created a sink (err e) sid other made = absurd (err≢ok e sid made)
  lookup-created a sink (ok resp) sid other made =
      lookup-insert resp.session_id other sink a.sinks
      ∙ ap (λ k. if k == other then some sink else lookup other a.sinks)
          (ok_inj resp.session_id sid made)

  -- A session that was made has the sink that was given for it, and each other session has the sink
  -- that it had.
  pub sink_for-new_session :
      (a : AgentProc C) (cwd sid other : String) (sink : ℕ) (blocks : Option (List ContentBlock))
      → (new_session c a cwd sink blocks).0 ≡ ok sid
      → sink_for (new_session c a cwd sink blocks).1 other
        ≡ (if sid == other then some sink else sink_for a other)
  unfolding new_session sink_for
  sink_for-new_session a cwd sid other sink blocks made =
      let (r, conn) = c.new_session cwd blocks a.conn in
      lookup-created (record a { conn = conn }) sink r sid other made

  drop_sink-created :
      (a : AgentProc C) (sink : ℕ) (r : Result NewSessionResponse) (other : String)
      → ((resp : NewSessionResponse) → r ≡ ok resp → lookup resp.session_id a.sinks ≡ none)
      → lookup other (drop_sink c (created c a sink r).0 (created c a sink r).1).1.sinks
        ≡ lookup other a.sinks
  unfolding created add_session drop_sink
  drop_sink-created a sink (err e) other fresh = refl
  drop_sink-created a sink (ok resp) other fresh =
      lookup-delete-insert resp.session_id other sink a.sinks (fresh resp refl)

  lookup-probe :
      (a : AgentProc C) (sid : String)
      → ((conn : C) (cwd : String) (resp : NewSessionResponse)
          → (c.new_session cwd none conn).0 ≡ ok resp
          → lookup resp.session_id a.sinks ≡ none)
      → lookup sid (probe c a).1.sinks ≡ lookup sid a.sinks
  unfolding probe new_session
  lookup-probe a sid fresh =
      let (cwd, conn) = c.make_temp a.conn in
      let (r, after) = c.new_session cwd none conn in
      drop_sink-created (record a { conn = after }) noop_sink r sid
        (λ resp e. fresh conn cwd resp e)

  -- A probe for models leaves each session with the sink that it had, where the agent gives the probe's
  -- session an id that is not in use.
  pub sink_for-probe_models :
      (a : AgentProc C) (sid : String)
      → ((conn : C) (cwd : String) (resp : NewSessionResponse)
          → (c.new_session cwd none conn).0 ≡ ok resp
          → lookup resp.session_id a.sinks ≡ none)
      → sink_for (probe_models c a).1 sid ≡ sink_for a sid
  unfolding probe_models sink_for
  sink_for-probe_models a sid fresh = elim (Option-cases a.models) [
    | inr (m, e) ↦ ap (λ p. lookup sid p.1.sinks) (probe_models_known c a m e)
    | inl e ↦ ap (λ p. lookup sid p.1.sinks) (probe_models_unknown c a e) ∙ lookup-probe a sid fresh
  ]
