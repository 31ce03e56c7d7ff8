-- ===== src/Router/Prompt/Reactions.antt =====
-- What a reaction does to the conversation it is about.
use poe_acp_relay.Base.{
  ok, ℕ, String, ◌≡◌, refl, ◌∙◌, Bool, false, some, [], arith, filter, lookup, lookup-insert,
  eq_refl, Bool-cases, inl, inr, append-nil,
}
use poe_acp_relay.Router.Types.{is_user_req}
use poe_acp_relay.Router.Queue.{push}
use poe_acp_relay.Router.Queue.Order.{filter-push}
use poe_acp_relay.Router.Agent.{Agent}
use poe_acp_relay.Router.Sessions.{Config, SessionState, RouterState, get_or_create, conv_key}
use poe_acp_relay.Router.Sessions.Creation.{lookup-get_or_create}
use poe_acp_relay.Router.Prompt.{
  Environment, push_to, submit_reaction, reaction_req, report_reaction,
}

module _ {A S : Type 0} where
  submit_reaction-users :
      (r : RouterState A) (disk : S) (st : SessionState) (id now : ℕ) (text : String)
      → lookup st.conv_id r.sessions ≡ some st
      → st.queue.stopped ≡ false
      → (st' : SessionState) × (lookup st.conv_id
            (submit_reaction r disk st (reaction_req id text now)).router.sessions
          ≡ some st')
        × (filter is_user_req st'.queue.q ≡ filter is_user_req st.queue.q)
        × ((submit_reaction r disk st (reaction_req id text now)).calls ≡ [])
  unfolding submit_reaction push_to reaction_req
  submit_reaction-users r disk st id now text found up =
      let req = reaction_req id text now in
      elim (Bool-cases (push st.queue req).accepted) [
        | inl e ↦ rw e (
          record st { queue = (push st.queue req).queue },
          lookup-insert st.conv_id st.conv_id _ r.sessions ∙ ground (arith, eq_refl st.conv_id),
          filter-push st.queue req up ∙ append-nil (filter is_user_req st.queue.q),
          refl,
        )
        | inr e ↦ rw e (st, found, refl, refl)
      ]

module _ {A S : Type 0} (agent : Agent A) (cfg : Config) (env : Environment S) where
  -- A reaction whose conversation has, or gets, a session with an open queue, filed under its
  -- conversation, leaves the queued user turns of that session as they were, whether or not the
  -- reaction itself is queued, and makes no call on a sink.
  pub report_reaction-users :
      (r : RouterState A) (session id : ℕ) (conv user message_id kind action : String) (now : ℕ)
      (st : SessionState) (seed : Bool)
      → (get_or_create agent cfg env.mkdir r session (conv_key conv) user 0 now).0 ≡ ok (st, seed)
      → st.conv_id ≡ conv_key conv
      → st.queue.stopped ≡ false
      → (st' : SessionState) × (lookup st.conv_id
            (report_reaction agent cfg env r session id conv user message_id kind action
              now).router.sessions
          ≡ some st')
        × (filter is_user_req st'.queue.q ≡ filter is_user_req st.queue.q)
        × ((report_reaction agent cfg env r session id conv user message_id kind action now).calls
            ≡ [])
  unfolding report_reaction
  report_reaction-users r session id conv user message_id kind action now st seed got filed up =
      let r' = (get_or_create agent cfg env.mkdir r session (conv_key conv) user 0 now).1 in
      let here =
        lookup-get_or_create agent cfg env.mkdir r session (conv_key conv) user 0 now st seed
          st.conv_id got in
      rw (got, report_reaction)
        (submit_reaction-users r' env.disk st id now _
          (here ∙ ground (arith, filed, eq_refl (conv_key conv))) up)
