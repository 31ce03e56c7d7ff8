-- ===== src/Router/Sessions/Reachable.antt =====
-- The router's map after any sequence of its operations.
use poe_acp_relay.Base.{
  Result-cases, ℕ, String, ◌≡◌, refl, subst, ap, ◌∙◌, false, Option, none, [], ◌==◌, lookup,
  Option-cases, Bool-cases, inl, inr,
}
use poe_acp_relay.Router.Agent.{Agent}
use poe_acp_relay.Router.Sessions.{
  Config, SessionState, RouterState, install, new_session_state, create, cold, get_or_create,
  conv_key, cancel, touch, gc_once,
}
use poe_acp_relay.Router.Sessions.Map.{IsFiled, install-IsFiled, touch-IsFiled, gc_once-IsFiled}
use poe_acp_relay.Router.Sessions.Creation.{create_entry}

module _ {A : Type 0} (agent : Agent A) (cfg : Config) (mkdir : String → Option String) where
  -- The operations that write the map, in any order: a request for a conversation, all at once or with
  -- its last step, `install`, behind other operations; the end of a turn; a sweep. The agent may change
  -- by itself.
  pub data Step (r : RouterState A) : RouterState A → Type 0 where
    requests :
        (id : ℕ) (conv user : String) (query now : ℕ)
        → Step r (get_or_create agent cfg mkdir r id (conv_key conv) user query now).1
    installs :
        (st : SessionState) (conv : String)
        → st.conv_id ≡ conv_key conv
        → Step r (record r { sessions = (install r.sessions st.conv_id st).sessions })
    touches : (conv : String) (now : ℕ) → Step r (record r { sessions = touch r.sessions conv now })
    sweeps : (now : ℕ) → Step r (record r { sessions = (gc_once cfg now r.sessions).0 })
    cancels : (conv : String) → Step r (cancel agent r conv).1
    agent_moves : (a : A) → Step r (record r { agent = a })

  pub data Reach (r : RouterState A) : RouterState A → Type 0 where
    here : Reach r r
    next : {s t : RouterState A} → Reach r s → Step s t → Reach r t

  conv_key-ne : (conv : String) → (conv_key conv == "") ≡ false
  unfolding conv_key
  conv_key-ne conv = elim (Bool-cases (conv == "")) [ inl e ↦ rw e | inr e ↦ rw e e ]

  cold-IsFiled :
      (r : RouterState A) (st : SessionState) (query : ℕ)
      → (st.conv_id == "") ≡ false
      → IsFiled r.sessions
      → IsFiled (cold agent cfg mkdir r st query).1.sessions
  unfolding cold
  cold-IsFiled r st query h f = elim (Option-cases (mkdir st.cwd)) [
    | inr (x, e) ↦ rw (e, cold) f
    | inl e ↦ elim (Result-cases (create agent cfg r.agent st query).0) [
      | inr (x, made) ↦ rw (e, cold) (rw (made, cold) f)
      | inl (c, made) ↦
          let (same, _) = create_entry agent cfg mkdir r.agent st query c made in
          rw (e, cold)
            (rw (made, cold)
              (subst (λ k. IsFiled (install r.sessions k c.session).sessions) same
                (install-IsFiled r.sessions c.session (ap (λ k. k == "") same ∙ h) f)))
    ]
  ]

  Step-IsFiled : {r s : RouterState A} → Step r s → IsFiled r.sessions → IsFiled s.sessions
  unfolding get_or_create cancel
  Step-IsFiled {r} (requests id conv user query now) f =
      elim (Option-cases (lookup (conv_key conv) r.sessions)) [
        | inr (x, e) ↦ rw (e, get_or_create) f
        | inl e ↦
            rw (e, get_or_create)
              (cold-IsFiled r _ query (unfold new_session_state in conv_key-ne conv) f)
      ]
  Step-IsFiled {r} (installs st conv e) f =
      install-IsFiled r.sessions st (ap (λ k. k == "") e ∙ conv_key-ne conv) f
  Step-IsFiled {r} (touches conv now) f = touch-IsFiled r.sessions conv now f
  Step-IsFiled {r} (sweeps now) f = gc_once-IsFiled cfg now r.sessions f
  Step-IsFiled {r} (cancels conv) f = elim (Option-cases (lookup conv r.sessions)) [
    | inl e ↦ rw (e, cancel) f
    | inr (x, e) ↦ rw (e, cancel) f
  ]
  Step-IsFiled {r} (agent_moves a) f = f

  empty-IsFiled : IsFiled []
  unfolding lookup
  empty-IsFiled = record { unique = tt; named = refl; filed = λ j st e. cc }

  Reach-keeps : {r s : RouterState A} → IsFiled r.sessions → Reach r s → IsFiled s.sessions
  Reach-keeps f here = f
  Reach-keeps f (next r st) = Step-IsFiled st (Reach-keeps f r)

  -- After any sequence of operations of a router that began with no session: a conversation has one
  -- entry, each entry is filed under its own conversation, and no entry is filed under "".
  pub Reach-IsFiled :
      {a : A} {r : RouterState A}
      → Reach (record { sessions = []; agent = a }) r
      → IsFiled r.sessions
  Reach-IsFiled reach = Reach-keeps empty-IsFiled reach

  -- After any sequence of operations of a router that began with no session, `Cancel` for the id ""
  -- finds no session: it changes nothing and the agent hears nothing.
  pub cancel_unnamed :
      {a : A} {r : RouterState A}
      → Reach (record { sessions = []; agent = a }) r
      → cancel agent r "" ≡ (none, r)
  unfolding cancel
  cancel_unnamed {r} reach = let e = (Reach-IsFiled reach).named in rw (e, cancel)
