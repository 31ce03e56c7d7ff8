-- ===== src/Router/Sessions/Creation.antt =====
-- `getOrCreate`: which session a conversation gets, when it is seeded, and what errors leave behind.
use poe_acp_relay.Base.{
  ok, err, Result-cases, ℕ, String, ◌≡◌, refl, ap, ◌∙◌, Bool, true, false, ◌&&◌, Option, none, some,
  arith, if◌then◌else◌, ◌==◌, eq_iff, eq_refl, lookup, Option-cases, inl, inr, ◌<◌,
}
use poe_acp_relay.Router.Agent.{Agent}
use poe_acp_relay.Router.Sessions.{
  Config, SessionState, Created, RouterState, install, new_session_state, with_session_id,
  try_resume, new_agent_session, create, cold, get_or_create,
}
use poe_acp_relay.Router.Sessions.Map.{lookup-install}

module _ {A : Type 0} (agent : Agent A) (cfg : Config) (mkdir : String → Option String) where
  -- An entry that is made has the fields it was given.
  pub create_entry :
      (a : A) (st : SessionState) (query : ℕ) (c : Created)
      → (create agent cfg a st query).0 ≡ ok c
      → (c.session.conv_id ≡ st.conv_id) × (c.session.id ≡ st.id)
  unfolding create new_agent_session with_session_id
  create_entry a st query c h = (ground arith, ground arith)

  cold_ok :
      (r : RouterState A) (st w : SessionState) (seed : Bool) (query : ℕ)
      → (cold agent cfg mkdir r st query).0 ≡ ok (w, seed)
      → (c : Created) × ((create agent cfg r.agent st query).0 ≡ ok c)
        × (w ≡ (install r.sessions st.conv_id c.session).winner)
        × (seed ≡ (c.fresh_seed && (install r.sessions st.conv_id c.session).won))
        × ((cold agent cfg mkdir r st query).1 ≡ record {
          sessions = (install r.sessions st.conv_id c.session).sessions;
          agent = (create agent cfg r.agent st query).1;
        })
  unfolding cold
  cold_ok r st w seed query h = elim (Result-cases (create agent cfg r.agent st query).0) [
    | inl (c, e) ↦ (c, e, ground arith, ground arith, ground arith)
    | inr (x, e) ↦ absurd (ground arith)
  ]

  cold_err :
      (r : RouterState A) (st : SessionState) (query : ℕ) (e : String)
      → (cold agent cfg mkdir r st query).0 ≡ err e
      → (cold agent cfg mkdir r st query).1.sessions ≡ r.sessions
  unfolding cold
  cold_err r st query e h = ground arith

  new_conv :
      (id : ℕ) (conv user : String) (now : ℕ)
      → (new_session_state cfg id conv user now).conv_id ≡ conv
  unfolding new_session_state
  new_conv id conv user now = refl

  -- A conversation that gets a session has it in the map afterwards, and no other entry changes.
  pub lookup-get_or_create :
      (r : RouterState A) (id : ℕ) (conv user : String) (query now : ℕ) (w : SessionState)
      (seed : Bool) (j : String)
      → (get_or_create agent cfg mkdir r id conv user query now).0 ≡ ok (w, seed)
      → lookup j (get_or_create agent cfg mkdir r id conv user query now).1.sessions
        ≡ (if conv == j then some w else lookup j r.sessions)
  unfolding get_or_create
  lookup-get_or_create r id conv user query now w seed j h =
      elim (Option-cases (lookup conv r.sessions)) [
        | inl e ↦
            let st = new_session_state cfg id conv user now in
            let (c, _, same, _, after) = cold_ok r st w seed query (rw (e, get_or_create) at h) in
            rw (e, get_or_create)
              (ground (
                arith,
                after,
                same,
                new_conv id conv user now,
                lookup-install r.sessions conv j c.session,
              ))
        | inr (x, e) ↦ ground (arith, eq_iff conv j)
      ]

  -- When a request for a conversation succeeds, the next request for it, whatever its query and time,
  -- gets the same session, changes neither the map nor the agent, and is not told to seed it.
  pub get_or_create_again :
      (r : RouterState A) (id id' : ℕ) (conv user user' : String) (query query' now now' : ℕ)
      (w : SessionState) (seed : Bool)
      → (get_or_create agent cfg mkdir r id conv user query now).0 ≡ ok (w, seed)
      → get_or_create agent cfg mkdir
          (get_or_create agent cfg mkdir r id conv user query now).1
          id'
          conv
          user'
          query'
          now'
        ≡ (ok (w, false), (get_or_create agent cfg mkdir r id conv user query now).1)
  get_or_create_again r id id' conv user user' query query' now now' w seed h = hit _ (
      lookup-get_or_create r id conv user query now w seed conv h
      ∙ ap (λ b. if b then some w else lookup conv r.sessions) (eq_refl conv))
    where
      hit :
          (r' : RouterState A)
          → lookup conv r'.sessions ≡ some w
          → get_or_create agent cfg mkdir r' id' conv user' query' now' ≡ (ok (w, false), r')
      hit r' e = unfold get_or_create in ground (arith, e)

  -- A request that fails leaves the map as it was.
  pub get_or_create_err :
      (r : RouterState A) (id : ℕ) (conv user : String) (query now : ℕ) (e : String)
      → (get_or_create agent cfg mkdir r id conv user query now).0 ≡ err e
      → (get_or_create agent cfg mkdir r id conv user query now).1.sessions ≡ r.sessions
  unfolding get_or_create
  get_or_create_err r id conv user query now e h =
      ground (arith, cold_err r (new_session_state cfg id conv user now) query e)

  create_seed :
      (a : A) (st : SessionState) (query : ℕ) (c : Created)
      → (create agent cfg a st query).0 ≡ ok c
      → c.fresh_seed ≡ true
      → (1 < query) × ((try_resume agent cfg a st).0 ≡ none)
  unfolding create new_agent_session
  create_seed a st query c h s = (ground arith, ground arith)

  -- A prompt is seeded with the transcript only where the query has earlier turns, the conversation had
  -- no session, none could be resumed, and the session is the one that this request made.
  pub get_or_create_seed :
      (r : RouterState A) (id : ℕ) (conv user : String) (query now : ℕ) (w : SessionState)
      → (get_or_create agent cfg mkdir r id conv user query now).0 ≡ ok (w, true)
      → (1 < query)
        × (lookup conv r.sessions ≡ none)
        × ((try_resume agent cfg r.agent (new_session_state cfg id conv user now)).0 ≡ none)
        × (w.id ≡ id)
  unfolding get_or_create
  get_or_create_seed r id conv user query now w h = elim (Option-cases (lookup conv r.sessions)) [
    | inl e ↦
        let st = new_session_state cfg id conv user now in
        let (c, made, same, seeded, _) = cold_ok r st w true query (rw (e, get_or_create) at h) in
        let fresh : c.fresh_seed ≡ true = ground (arith, seeded) in
        let (more, none_resumed) = create_seed r.agent st query c made fresh in
        (more, e, none_resumed, won_id c.session e same (create_entry r.agent st query c made).1)
    | inr (x, e) ↦ absurd (ground arith)
  ]
    where
      won_id :
          (s : SessionState)
          → lookup conv r.sessions ≡ none
          → w ≡ (install r.sessions (new_session_state cfg id conv user now).conv_id s).winner
          → s.id ≡ (new_session_state cfg id conv user now).id
          → w.id ≡ id
      won_id s e same k = unfold new_session_state install in ground arith
