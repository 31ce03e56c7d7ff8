-- ===== src/Router/Sessions.antt =====
-- The sessions of internal/router/router.go: `getOrCreate`, `install`, `touch`, `gcOnce`, `Cancel`. A
-- map is read and written under the router's mutex, and the agent is called outside it.
pub mod Map
pub mod Creation
pub mod Reachable
mod Tests
use Prim.Native.String.{◌++◌ as ◌+++◌}
use poe_acp_relay.Base.{
  Result, ok, err, ℕ, ◌+◌, String, Bool, true, false, not, ◌&&◌, Option, none, some, List, [], ◌∷◌,
  length, ltb, if◌then◌else◌, ◌==◌, Dict, lookup, insert, delete,
}
use poe_acp_relay.Base.Paths.{join}
use poe_acp_relay.Router.Types.{Options, ContentBlock, text_block, TurnReq}
use poe_acp_relay.Router.Queue.{SessionQueue, new_session_queue, idle, stop}
use poe_acp_relay.Router.Agent.{Agent}
use poe_acp_relay.Router.Turn.{RunnerState}

-- The fields of `Config` that sessions depend on. `system_prompt` is what `New` made of it.
pub record Config : Type 0 where
  pub state_dir : String
  pub session_ttl : ℕ
  pub system_prompt : String

-- `sessionState`. `id` is the identity of the pointer; `run_stop` and `drain_stop` say that the
-- channels are closed.
pub record SessionState : Type 0 where
  pub id : ℕ
  pub conv_id : String
  pub user_id : String
  pub cwd : String
  pub runner : RunnerState
  pub queue : SessionQueue
  pub last_used : ℕ
  pub run_stop : Bool
  pub drain_stop : Bool

abbrev pub no_options : Options
no_options = record { model = ""; thinking = ""; hide_thinking = false }

-- The session as `getOrCreate` makes it, with no agent session yet.
pub new_session_state : Config → ℕ → String → String → ℕ → SessionState
unfolding new_session_queue join
new_session_state cfg id conv user now = record {
  id = id;
  conv_id = conv;
  user_id = user;
  cwd = join (cfg.state_dir ∷ "convs" ∷ conv ∷ []);
  runner = record { session_id = ""; applied = no_options; pending_system_prompt_inline = false };
  queue = new_session_queue;
  last_used = now;
  run_stop = false;
  drain_stop = false;
}

-- Both stop channels are closed and the queue is stopped; the requests that were pending are shed.
shut_down : SessionState → SessionState × List TurnReq
shut_down st =
    let (q, pending) = stop st.queue in
    (record st { queue = q; run_stop = true; drain_stop = true }, pending)

-- `install`: the map, the winner, and whether the new session won. A loser is shut down.
pub record Installed : Type 0 where
  pub sessions : Dict SessionState
  pub winner : SessionState
  pub won : Bool
  pub loser : Option (SessionState × List TurnReq)

pub install : Dict SessionState → String → SessionState → Installed
unfolding shut_down
install sessions conv st = elim (lookup conv sessions) [
  | none ↦ record { sessions = insert conv st sessions; winner = st; won = true; loser = none }
  | some existing ↦ record {
    sessions = sessions;
    winner = existing;
    won = false;
    loser = some (shut_down st);
  }
]

pub touch : Dict SessionState → String → ℕ → Dict SessionState
touch sessions conv now = elim (lookup conv sessions) [
  | none ↦ sessions
  | some st ↦ insert conv (record st { last_used = now }) sessions
]

-- Idle for longer than the TTL: `lastUsedNs < now - ttl`.
abbrev pub is_expired : Config → ℕ → SessionState → Bool
is_expired cfg now st = idle st.queue && ltb (st.last_used + cfg.session_ttl) now

-- The loop of `gcOnce` over the entries, with the map and the sessions that were shut down so far.
gc_loop : Config → ℕ → Dict SessionState → Dict SessionState → Dict SessionState × List SessionState
unfolding shut_down
gc_loop cfg now [] sessions = (sessions, [])
gc_loop cfg now ((id, st) ∷ rest) sessions =
    let (kept, gone) =
      gc_loop cfg now rest (if is_expired cfg now st then delete id sessions else sessions) in
    (kept, if is_expired cfg now st then (shut_down st).0 ∷ gone else gone)

pub gc_once : Config → ℕ → Dict SessionState → Dict SessionState × List SessionState
unfolding gc_loop
gc_once cfg now sessions = gc_loop cfg now sessions sessions

-- The agent session of a new entry, and whether the next prompt is to be seeded; `query` is the
-- number of turns of the query.
pub record Created : Type 0 where
  pub session : SessionState
  pub fresh_seed : Bool

module _ {A : Type 0} (agent : Agent A) (cfg : Config) where
  -- Where the agent lacks the capability the system prompt waits for the first user turn.
  with_session_id : SessionState → String → SessionState
  with_session_id st sid = record st {
    runner = record st.runner {
      session_id = sid;
      pending_system_prompt_inline = not (cfg.system_prompt == "") && not agent.caps.system_prompt;
    };
  }

  -- Tier 1: the first session that the agent lists, if it can be resumed.
  pub try_resume : A → SessionState → Option String × A
  try_resume a st =
      if agent.caps.list_sessions && agent.caps.resume_session
      then (let (listed, a') = agent.list_sessions a st.cwd in
          elim listed [
            | ok (sid ∷ _) ↦
                (let (e, a'') = agent.resume_session a' st.cwd sid in
                  elim e [ none ↦ (some sid, a'') | some _ ↦ (none, a'') ])
            | _ ↦ (none, a')
          ])
      else (none, a)

  system_blocks : List ContentBlock
  system_blocks =
      if not (cfg.system_prompt == "") && agent.caps.system_prompt
      then text_block cfg.system_prompt ∷ []
      else []

  -- Tier 2: a new session, seeded if the query has earlier turns.
  new_agent_session : A → SessionState → ℕ → Result Created × A
  unfolding with_session_id system_blocks
  new_agent_session a st query =
      let (reply, a') = agent.new_session a st.cwd system_blocks in
      elim reply [
        | ok sid ↦ (ok (record { session = with_session_id st sid; fresh_seed = ltb 1 query }), a')
        | err e ↦ (err ("acp new session: " +++ e), a')
      ]

  pub create : A → SessionState → ℕ → Result Created × A
  create a st query =
      let (resumed, a') = try_resume a st in
      elim resumed [
        | some sid ↦ (ok (record { session = with_session_id st sid; fresh_seed = false }), a')
        | none ↦ new_agent_session a' st query
      ]

-- `if convID == "" { convID = "default" }`, as `Prompt` and `ReportReaction` begin.
unfoldable pub conv_key : String → String
conv_key conv = if conv == "" then "default" else conv

-- The router's map and the agent's state.
pub record RouterState (A : Type 0) : Type 0 where
  pub sessions : Dict SessionState
  pub agent : A

module _ {A : Type 0} (agent : Agent A) (cfg : Config) (mkdir : String → Option String) where
  -- The cold path of `getOrCreate`. `mkdir` is the file system's: its error, if it fails.
  pub cold : RouterState A → SessionState → ℕ → Result (SessionState × Bool) × RouterState A
  cold r st query = elim (mkdir st.cwd) [
    | some e ↦ (err ("mkdir conv dir: " +++ e), r)
    | none ↦
        (let (made, a) = create agent cfg r.agent st query in
          elim made [
            | err e ↦ (err e, record r { agent = a })
            | ok c ↦
                (let i = install r.sessions st.conv_id c.session in
                  (
                    ok (i.winner, c.fresh_seed && i.won),
                    record { sessions = i.sessions; agent = a },
                  ))
          ])
  ]

  -- `getOrCreate`, with nothing else between its steps. `id` is the identity of the entry that it may
  -- make.
  unfoldable pub get_or_create :
      RouterState A → ℕ → String → String → ℕ → ℕ → Result (SessionState × Bool) × RouterState A
  get_or_create r id conv user query now = elim (lookup conv r.sessions) [
    | some existing ↦ (ok (existing, false), r)
    | none ↦ cold r (new_session_state cfg id conv user now) query
  ]

module _ {A : Type 0} (agent : Agent A) where
  -- `Cancel`
  pub cancel : RouterState A → String → Option String × RouterState A
  cancel r conv = elim (lookup conv r.sessions) [
    | none ↦ (none, r)
    | some st ↦
        (let (e, a) = agent.cancel r.agent st.runner.session_id in (e, record r { agent = a }))
  ]
