-- ===== src/Router/Prompt.antt =====
-- `Prompt` and `ReportReaction` of internal/router/router.go, up to the push of the turn, and what
-- `Prompt` returns once the runner has run it.
pub mod Queued
pub mod Reactions
pub mod Awaited
mod Tests
use Prim.Native.String.{◌++◌ as ◌+++◌}
use poe_acp_relay.Base.{
  Result, ok, err, map_ok, ℕ, String, Bool, true, false, not, Option, none, some, List, [], ◌∷◌,
  ◌++◌, filter, length, if◌then◌else◌, ◌==◌, insert,
}
use poe_acp_relay.Poeproto.Requests.{Attachment}
use poe_acp_relay.Router.Types.{
  Options, ContentBlock, text_block, TurnKind, turn_user, turn_reaction, TurnReq, SinkCall,
  put_error, put_done,
}
use poe_acp_relay.Router.Query.{Turn, latest_user_turn_ref, latest_user_text, flatten_transcript}
use poe_acp_relay.Router.Queue.{Pushed, push}
use poe_acp_relay.Router.Attachments.{Limits, Codecs, Os}
use poe_acp_relay.Router.Attachments.Blocks.{attach_all}
use poe_acp_relay.Router.Agent.{Agent}
use poe_acp_relay.Router.Sessions.{
  Config, SessionState, no_options, RouterState, get_or_create, conv_key,
}

-- The environment of a submission besides the agent: `MkdirAll`; what the attachments need, with the
-- state of the disk and the network when the call is made; and the verb `%q`.
pub record Environment (S : Type 0) : Type 0 where
  pub mkdir : String → Option String
  pub limits : Limits
  pub codecs : Codecs
  pub os : Os S
  pub disk : S
  pub quote : String → String

-- What a submission leaves: the calls on the query's sink, the error that is returned at once, the
-- request that was queued, and what its push did; `panic` is what an attachment panicked with, which
-- goes up to the server, and `disk` the disk after the call.
pub record Submitted (A S : Type 0) : Type 0 where
  pub calls : List SinkCall
  pub failure : Option String
  pub queued : Option TurnReq
  pub dropped : Option TurnReq
  pub panic : Option String
  pub router : RouterState A
  pub disk : S

module _ {A : Type 0} where
  -- `st.queue.push(req)`: the session in the map is the one that holds the queue.
  pub push_to : RouterState A → SessionState → TurnReq → RouterState A
  push_to r st req = record r {
    sessions = insert st.conv_id (record st { queue = (push st.queue req).queue }) r.sessions;
  }

module _ {A S : Type 0} where
  -- An error that the user sees, and the end of the sink.
  refused : RouterState A → S → String → String → Submitted A S
  refused r disk shown failure = record {
    calls = put_error shown "user_caused_error" ∷ put_done ∷ [];
    failure = some failure;
    queued = none;
    dropped = none;
    panic = none;
    router = r;
    disk = disk;
  }

  -- The end of `Prompt` but for the wait.
  submit_user : RouterState A → S → SessionState → TurnReq → Submitted A S
  unfolding refused push_to
  submit_user r disk st req =
      let p = push st.queue req in
      if p.accepted
      then record {
        calls = [];
        failure = none;
        queued = some req;
        dropped = p.dropped;
        panic = none;
        router = push_to r st req;
        disk = disk;
      }
      else refused r disk "relay: session unavailable" "session queue stopped"

  -- The end of `ReportReaction`; a refused reaction is logged, and no error.
  submit_reaction : RouterState A → S → SessionState → TurnReq → Submitted A S
  unfolding push_to
  submit_reaction r disk st req =
      let p = push st.queue req in
      if p.accepted
      then record {
        calls = [];
        failure = none;
        queued = some req;
        dropped = p.dropped;
        panic = none;
        router = push_to r st req;
        disk = disk;
      }
      else record {
        calls = [];
        failure = none;
        queued = none;
        dropped = none;
        panic = none;
        router = r;
        disk = disk;
      }

  -- A panic ends the call; its deferred functions change nothing of the router.
  panicking : RouterState A → S → String → Submitted A S
  panicking r disk e = record {
    calls = [];
    failure = none;
    queued = none;
    dropped = none;
    panic = some e;
    router = r;
    disk = disk;
  }

-- The subdirectory of a message without an id is named by its content.
message_dir : Codecs → Turn → String
message_dir codecs t =
    if t.message_id == "" then "anon-" +++ codecs.short_hash t.content else t.message_id

abbrev pub attachments_of : Option Turn → List Attachment
attachments_of none = []
attachments_of (some t) = t.attachments

module _ {S : Type 0} (env : Environment S) where
  -- The blocks of the latest turn's attachments, or a panic.
  attached : Bool → String → Option Turn → Result (List ContentBlock) × S
  unfolding message_dir
  attached embedded cwd none = (ok [], env.disk)
  attached embedded cwd (some t) =
      let (r, _, disk) =
        attach_all env.limits env.codecs env.os cwd (message_dir env.codecs t) embedded
          t.attachments [] env.disk in
      (r, disk)

  -- The content blocks of a prompt: its text, or the transcript, and the latest turn's attachments.
  pub prompt_blocks : Bool → String → List Turn → Bool → Result (List ContentBlock) × S
  unfolding attached flatten_transcript latest_user_text
  prompt_blocks embedded cwd query seed =
      let (r, disk) = attached embedded cwd (latest_user_turn_ref query) in
      let text = if seed then flatten_transcript query else latest_user_text query in
      (map_ok (λ blocks. text_block text ∷ blocks) r, disk)

pub user_req : ℕ → Options → List ContentBlock → ℕ → TurnReq
user_req id opts blocks now = record {
  id = id;
  kind = turn_user;
  opts = opts;
  blocks = blocks;
  hide_thinking = opts.hide_thinking;
  enqueued_at = now;
  done = false;
  err = none;
  shed = false;
}

-- The text that tells the agent of a reaction.
reaction_text : (String → String) → String → String → String → String
reaction_text quote kind action message_id =
    "[poe-acp:out-of-band reaction]\n"
    +++ (("The user reacted "
          +++ (quote kind
              +++ (" (" +++ (action +++ (") to your message " +++ (message_id +++ ".\n"))))))
        +++ ("Acknowledge silently — your reply will NOT be shown to the user.\n"
            +++ "Update any in-memory/preference notes if relevant."))

pub reaction_req : ℕ → String → ℕ → TurnReq
reaction_req id text now = record {
  id = id;
  kind = turn_reaction;
  opts = no_options;
  blocks = text_block text ∷ [];
  hide_thinking = false;
  enqueued_at = now;
  done = false;
  err = none;
  shed = false;
}

module _ {A S : Type 0} (agent : Agent A) (cfg : Config) (env : Environment S) where
  -- The part of `Prompt` behind the content blocks.
  submit_blocks :
      RouterState A
      → SessionState
      → ℕ
      → Options
      → ℕ
      → Result (List ContentBlock) × S
      → Submitted A S
  unfolding submit_user user_req panicking
  submit_blocks r st id opts now (ok blocks, disk) =
      submit_user r disk st (user_req id opts blocks now)
  submit_blocks r st id opts now (err e, disk) = panicking r disk e

  -- `Prompt`, up to its wait. `session` and `id` are the identities of the session that it may make and
  -- of its request, and `now` the time of both.
  pub prompt : RouterState A → ℕ → ℕ → String → String → List Turn → Options → ℕ → Submitted A S
  unfolding refused submit_blocks prompt_blocks
  prompt r session id conv user query opts now =
      if latest_user_text query == ""
      then refused r env.disk "empty user message" "empty user message"
      else (let (got, r') =
            get_or_create agent cfg env.mkdir r session (conv_key conv) user (length query) now in
          elim got [
            | err e ↦ refused r' env.disk ("relay: " +++ e) e
            | ok (st, seed) ↦
                submit_blocks r' st id opts now
                  (prompt_blocks env agent.caps.embedded_context st.cwd query seed)
          ])

  -- `ReportReaction`; the empty action counts as "added".
  pub report_reaction :
      RouterState A → ℕ → ℕ → String → String → String → String → String → ℕ → Submitted A S
  unfolding submit_reaction reaction_text reaction_req
  report_reaction r session id conv user message_id kind action now =
      let (got, r') = get_or_create agent cfg env.mkdir r session (conv_key conv) user 0 now in
      elim got [
        | err e ↦ record {
          calls = [];
          failure = some ("reaction: getOrCreate: " +++ e);
          queued = none;
          dropped = none;
          panic = none;
          router = r';
          disk = env.disk;
        }
        | ok (st, seed) ↦ submit_reaction r' env.disk st (
            reaction_req id
              (reaction_text env.quote kind (if action == "" then "added" else action) message_id)
              now)
      ]

-- The wait of `Prompt` for its turn, once the runner has closed the request: the request's error or,
-- where the caller's context ended before, that of the context if the request has none.
unfoldable pub awaited : Option String → TurnReq → Option String
awaited none req = req.err
awaited (some gone) req = elim req.err [ some e ↦ some e | none ↦ some gone ]
