-- ===== src/Lib.antt =====
-- poe-acp: a relay between Poe's bot protocol and an agent that speaks ACP over its standard streams.
-- Poe posts a query to the HTTP server; the handler turns it into a prompt of the router, which keeps
-- one agent session for each conversation, queues the turns of a session, and streams what the agent
-- answers back as server-sent events. Reactions are queued as turns whose answer is dropped, and
-- `/login` turns go to a broker that carries a two-call login over the turns of a chat.
--
-- What is modelled, and where:
--   Base           shared notation: Boolean tests on native numbers, lists, maps as association lists
--                  with one entry for each key, results, paths (`filepath.Join`), text functions
--                  (`strings.TrimSpace`, `HasPrefix`, `TrimPrefix`, `sort.Strings`), and strings as
--                  bytes (`Bytes`).
--   Router         internal/router/router.go.
--     Types, Agent the data of a turn, and the interface `Agent` as a record of operations.
--     Query        turns, `latestUserText`, `flattenTranscript`, `ParseOptions`.
--     Queue        `sessionQueue`: `push`, `popOrWait`, `finishInFlight`, `idle`, `stop`; the runner's
--                  loop `runTurns`, submitters and a shutdown are the steps of `Queue.Bound`.
--     Drain        `drainChunks` and `drainProcessChunk`; `Drain.Turns` gives the list of calls that a
--                  turn's sink should get, `Drain.Merging` and `Drain.Hidden` are about its text.
--     Turn         `runOneTurn` and `applyOptions`.
--     Sessions     `getOrCreate`, `install`, `touch`, `gcOnce`, `Cancel`; `Sessions.Reachable` runs
--                  them in any order.
--     Prompt       `Prompt` and `ReportReaction`, up to the push of the turn, and what `Prompt` returns
--                  once its turn is over.
--     Runner       `runTurns`: as a loop by itself (`Runner.Answered`), and with submitters, a shutdown
--                  and other callers of the agent as a step relation (`Service`, `Fair`, `Served`).
--     Attachments  `attachmentBlocks`, `downloadAttachment` and the file names; the panics of
--                  internal/router/attachment_io_must.go are errors of `attach_all`.
--     Sweep        `sweepAttachmentsOnce`.
--     Setup        `New`, a tick of `RunGC`, `Len` and `Debug`.
--     TestAgent, TestDisk, TestService
--                  the agent, the disk and the session that the tests of several modules run with.
--   Poeproto       internal/poeproto/poeproto.go: `Sse` is `SSEWriter`, `Wire` the text of its frames and
--                  a reader of them, `Body` `Decode` from a request's body, `Requests` the requests behind
--                  the JSON decoder, `normaliseReaction` and `BearerAuth`, `Controls` the settings
--                  answer.
--   Httpsrv        internal/httpsrv/handler.go: `Writer` is `orderedWriter`, `Sink` is `sink` with its
--                  heartbeat goroutine, `Sink.Shown` what a reader of the stream is shown, `Answer`
--                  a turn of the router on such a sink, up to the end of `handleQuery`, `Screen` what
--                  its reader is left with, `Handler` is `handleQuery`, `handleAuth` and
--                  `handleReaction`, `Serve` is `ServeHTTP`.
--   Authbroker     internal/authbroker/authbroker.go.
--   Policy         internal/policy/policy.go.
--   Paramctl       internal/paramctl/paramctl.go, with `Defaults` and `Validate` of
--                  internal/config/config.go, which it resolves.
--   Skills         internal/skills/skills.go: the parts on text and `Merge`; `Loading` is `LoadDir` and
--                  `LoadBuiltin`.
--   Acpclient      internal/acpclient/agent.go behind JSON-RPC: the requests to the agent; `Dispatch` the
--                  agent's own (`Delivered` an update's way to its session's channel), `Files` its file
--                  calls, `Process` `Start` and `Close` with the panic of
--                  internal/acpclient/spawn_must.go.
--   Config         internal/config/config.go: `Load` around the JSON decoder.
--   Command        cmd/poe-acp/helpers.go; `Startup` is cmd/poe-acp/main.go up to its server,
--                  `Routes` the handlers of the server.
--   Debuglog       internal/debuglog/debuglog.go.
--
-- How: state is a record that each operation takes and returns; a method that holds its mutex is one
-- step, and goroutines are the order of such steps: a list of actions (`Httpsrv.Sink`), a step
-- relation (`Router.Queue.Bound`, `Router.Runner.Service`, `Router.Sessions.Reachable`), or the order of the messages on a
-- channel (`Router.Drain`). A channel that is only closed is a Boolean; the channel of capacity 1 is
-- whether it holds its token. Pointers that are compared or handed on have an identity, a number.
-- Times are natural numbers of nanoseconds. Every loop is structural recursion but two: `uniqueName`
-- runs on fuel, one round more than there are names in use (`Router.Attachments.Names.Free`), and
-- `runTurns` on rounds, one more than there are turns in the queue (`Router.Runner.Answered`). Machine
-- integers wrap around where a sum can pass their bound (`window_end` of `Acpclient.Files`).
--
-- Parameters: the agent (a record of operations on a state of its own, with no law assumed), the
-- operating system and the network (records of operations, on a state of their own where they change
-- something), the connection (which of the writes go through), Go's Unicode tables, SHA-256, base64,
-- MIME types, the verb `%q`, `json.Marshal` and its decoder, and the calls of `os/exec`.
-- `Agent.prompt` gives the updates that reach the channel before it returns.
--
-- Not modelled: JSON, HTTP, contexts and logging, which are the standard library's work; the parsing of
-- flags, the listening socket, signals and the shutdown of the command. `Prompt` and `handleQuery` run
-- with no other goroutine between their steps; the steps of a session's queue, of its runner and of the
-- session map come in any order. A turn is one step of its session: while it runs, the session's drain
-- goroutine is taken to be there.
pub mod Base
pub mod Poeproto
pub mod Httpsrv
pub mod Router
pub mod Authbroker
pub mod Policy
pub mod Paramctl
pub mod Skills
pub mod Acpclient
pub mod Config
pub mod Command
pub mod Debuglog
