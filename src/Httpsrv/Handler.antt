-- ===== src/Httpsrv/Handler.antt =====
-- `Handler` of internal/httpsrv/handler.go: what becomes of a decoded request.
pub mod Latest
pub mod Login
pub mod Refused
mod Tests
use Prim.Native.String.{◌++◌ as ◌+++◌}
use poe_acp_relay.Base.{
  Result, ok, err, ℕ, String, Bool, true, false, not, ◌&&◌, ◌||◌, Option, none, some, List, [], ◌∷◌,
  map, if◌then◌else◌, ◌==◌, Dict, leb,
}
use poe_acp_relay.Poeproto.Requests.{Message, Request, latest_parameters}
use poe_acp_relay.Poeproto.Sse.{
  SseWriter, SseError, new_sse_writer, write_meta, write_text, write_error, write_done,
}
use poe_acp_relay.Router.Types.{Options}
use poe_acp_relay.Router.Query.{Turn, latest_user_turn_ref, parse_options}
use poe_acp_relay.Router.Agent.{Agent}
use poe_acp_relay.Router.Sessions.{Config, RouterState, cancel}
use poe_acp_relay.Router.Prompt.{Environment, Submitted, prompt, report_reaction}
use poe_acp_relay.Authbroker.{
  Authenticator, PendingEntry, Outcome, Broker, is_login_command, handle, has_pending,
}
use poe_acp_relay.Httpsrv.Sink.{Sink, Action, call, new_sink, run, stop}

-- `latestUserTurn`, which searches from the end as `latestUserTurnRef` does.
unfoldable pub latest_user_turn : List Turn → String
latest_user_turn turns = elim (latest_user_turn_ref turns) [
  | some found ↦ found.content
  | none ↦ ""
]

-- `Config`, with the router's defaults; `has_broker` says that `AuthBroker` is set.
pub record HandlerConfig : Type 0 where
  pub heartbeat_interval : ℕ
  pub allow_attachments : Bool
  pub has_broker : Bool
  pub defaults : Options

-- The router with its agent, and the broker's pending logins with the same agent.
pub record Server (A : Type 0) : Type 0 where
  pub router : RouterState A
  pub pending : Dict PendingEntry

abbrev pub broker_of : {A : Type 0} → Server A → Broker A
broker_of s = record { pending = s.pending; agent = s.router.agent }

abbrev pub with_broker : {A : Type 0} → Server A → Broker A → Server A
with_broker s b = record { router = record s.router { agent = b.agent }; pending = b.pending }

-- The copy of a message for the router; attachments are stripped where they are not allowed.
unfoldable pub to_turn : HandlerConfig → Message → Turn
to_turn cfg m = record {
  role = m.role;
  content = m.content;
  message_id = m.message_id;
  attachments = if cfg.allow_attachments then m.attachments else [];
}

module _ (io : ℕ → Bool) where
  -- What `handleAuth` writes for the broker's answer.
  unfoldable pub write_outcome : SseWriter → Result (Option Outcome) → SseWriter
  write_outcome w (err e) = (write_done io (write_error io w e "user_caused_error").0).0
  write_outcome w (ok none) = (write_done io w).0
  write_outcome w (ok (some o)) =
      let w' = if not (o.text == "") then (write_text io w o.text).0 else w in (write_done io w').0

  module _ {A : Type 0} (auth : Authenticator A) where
    -- `handleAuth`
    unfoldable pub handle_auth : Server A → SseWriter → String → String → SseWriter × Server A
    unfolding write_outcome
    handle_auth s w conv text =
        let (reply, b) = handle auth (broker_of s) conv text in
        (write_outcome w reply, with_broker s b)

module _ {A : Type 0} (auth : Authenticator A) where
  -- The intercept of `handleQuery`: the text is a login command, or answers a pending login.
  unfoldable pub is_auth_turn : HandlerConfig → Server A → String → String → Bool
  is_auth_turn cfg s conv latest =
      cfg.has_broker
      && (not (latest == "") && (has_pending auth (broker_of s) conv || is_login_command latest))

-- How `handleQuery` leaves the request: the stream could not be opened; it was an auth turn, whose
-- stream is given; or the prompt was submitted with a sink, on which its calls were made.
pub data Answered (A S : Type 0) : Type 0 where
  not_opened : Server A → Answered A S
  auth_answered : SseWriter → Server A → Answered A S
  prompted : Sink → Submitted A S → Dict PendingEntry → Answered A S

module _ {A S : Type 0} (agent : Agent A) (rcfg : Config) (env : Environment S) where
  -- `handleReaction`: a request without a reaction is dropped. Errors are logged.
  unfoldable pub handle_reaction : Server A → ℕ → ℕ → Request → ℕ → Server A
  handle_reaction s session id req now =
      if req.reaction == ""
      then s
      else (let p =
            report_reaction agent rcfg env s.router session id req.conversation_id req.user_id
              req.message_id req.reaction req.reaction_action now in
          record s { router = p.router })

  module _ (io : ℕ → Bool) (cfg : HandlerConfig) where
    -- The part of `handleQuery` behind the intercept: the options, the sink, and the prompt.
    unfoldable pub submit_query :
        Server A → ℕ → ℕ → Request → List Turn → SseWriter → ℕ → Answered A S
    submit_query s session id req turns w now =
        let p =
          prompt agent rcfg env s.router session id req.conversation_id req.user_id turns
            (parse_options (latest_parameters req) cfg.defaults) now in
        prompted (run io (new_sink w cfg.heartbeat_interval) (map call p.calls)) p s.pending

    module _ (auth : Authenticator A) where
      -- `handleQuery` on an opened stream.
      unfoldable pub query_opened :
          Server A → ℕ → ℕ → Request → List Turn → SseWriter → ℕ → Answered A S
      unfolding submit_query
      query_opened s session id req turns w now =
          if is_auth_turn auth cfg s req.conversation_id (latest_user_turn turns)
          then (let (w', s') =
                handle_auth io auth s w req.conversation_id (latest_user_turn turns) in
              auth_answered w' s')
          else submit_query s session id req turns w now

      -- `handleQuery`, up to the wait for the turn.
      unfoldable pub handle_query : Server A → ℕ → ℕ → Request → ℕ → Answered A S
      unfolding query_opened to_turn
      handle_query s session id req now =
          let (w, e) = write_meta io new_sse_writer in
          elim e [
            | some failed ↦ not_opened s
            | none ↦ query_opened s session id req (map (to_turn cfg) req.query) w now
          ]

-- The end of `handleQuery`, behind the wait: what the router and the heartbeat do with the sink in the
-- meantime, and the deferred `stop`.
unfoldable pub finish_query : (ℕ → Bool) → Sink → List Action → Sink
finish_query io s acts = stop (run io s acts)

module _ {A : Type 0} (agent : Agent A) where
  -- The goroutine that watches the client: where it goes away before the prompt returns, the agent is
  -- told to stop. The error is dropped.
  unfoldable pub watch_client : Bool → RouterState A → String → RouterState A
  watch_client gone r conv = if gone then (cancel agent r conv).1 else r

-- `truncateRunes`, by characters. A text that fits in bytes fits in characters.
take_runes : ℕ → String → String
take_runes ℕ.zero s = ""
take_runes (ℕ.suc n) String.[] = ""
take_runes (ℕ.suc n) (String.◌∷◌ c s) = String.◌∷◌ c (take_runes n s)

count_runes : String → ℕ
count_runes String.[] = 0
count_runes (String.◌∷◌ c s) = ℕ.suc (count_runes s)

unfoldable pub truncate_runes : String → ℕ → String
unfolding take_runes count_runes
truncate_runes s n =
    if leb n 0 then "" else if leb (count_runes s) n then s else take_runes n s +++ "…"
