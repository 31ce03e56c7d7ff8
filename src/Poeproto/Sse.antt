-- ===== src/Poeproto/Sse.antt =====
-- `SSEWriter` of internal/poeproto/poeproto.go: server-sent events on an open HTTP response.
use poe_acp_relay.Base.{
  ℕ, suc, String, Bool, true, false, Option, none, some, List, [], ◌∷◌, ◌++◌, if◌then◌else◌, ◌==◌,
}

-- One event frame with the fields of its JSON payload that vary. The error type "" is left out of the
-- payload.
pub data Event : Type 0 where
  meta : Event
  text : String → Event
  replace_response : String → Event
  error : String → String → Event
  done : Event

pub data SseError : Type 0 where
  sse_closed write_failed : SseError

-- `sent` are the frames on the wire, oldest first, and `writes` counts the attempts to write one.
pub record SseWriter : Type 0 where
  pub closed : Bool
  pub writes : ℕ
  pub sent : List Event

-- `NewSSEWriter`, on a response that can flush.
unfoldable pub new_sse_writer : SseWriter
new_sse_writer = record { closed = false; writes = 0; sent = [] }

-- The connection is the environment's: `io k` says that the k-th write goes through.
module _ (io : ℕ → Bool) where
  -- `event`; the payloads are maps of strings, which always marshal.
  unfoldable pub event : SseWriter → Event → SseWriter × Option SseError
  event s e =
      if s.closed
      then (s, some sse_closed)
      else if io s.writes
      then (record s { writes = suc s.writes; sent = s.sent ++ e ∷ [] }, none)
      else (record s { writes = suc s.writes }, some write_failed)

  unfoldable pub write_meta : SseWriter → SseWriter × Option SseError
  write_meta s = event s meta

  unfoldable pub write_text : SseWriter → String → SseWriter × Option SseError
  write_text s chunk = if chunk == "" then (s, none) else event s (text chunk)

  unfoldable pub write_replace : SseWriter → String → SseWriter × Option SseError
  write_replace s chunk = event s (replace_response chunk)

  unfoldable pub write_error : SseWriter → String → String → SseWriter × Option SseError
  write_error s message error_type = event s (error message error_type)

  -- The stream is closed whether or not the event could be written.
  unfoldable pub write_done : SseWriter → SseWriter × Option SseError
  write_done s = let (s', e) = event s done in (record s' { closed = true }, e)
