-- ===== src/Httpsrv/Writer.antt =====
-- `orderedWriter` of internal/httpsrv/handler.go: the stream that user writes and heartbeat frames
-- share. Each method holds the mutex throughout, so it is one step on the state.
use poe_acp_relay.Base.{
  ℕ, String, Bool, true, false, not, ◌&&◌, ◌||◌, Option, none, if◌then◌else◌, ◌==◌,
}
use poe_acp_relay.Poeproto.Sse.{
  SseWriter, SseError, write_text, write_replace, write_error, write_done,
}

pub record OrderedWriter : Type 0 where
  pub w : SseWriter
  pub real_written : Bool
  pub closed : Bool
  pub spinner_visible : Bool

-- `&orderedWriter{w: w}`
unfoldable pub new_ordered_writer : SseWriter → OrderedWriter
new_ordered_writer w = record {
  w = w;
  real_written = false;
  closed = false;
  spinner_visible = false;
}

module _ (io : ℕ → Bool) where
  -- The error of the clearing write is dropped.
  unfoldable pub clear_spinner_locked : OrderedWriter → OrderedWriter
  clear_spinner_locked o =
      if not o.real_written && o.spinner_visible
      then record o { w = (write_replace io o.w "").0; spinner_visible = false }
      else o

  -- A write of the inner writer, with its error passed on.
  abbrev with_writer : OrderedWriter → SseWriter × Option SseError → OrderedWriter × Option SseError
  with_writer o (w, e) = (record o { w = w }, e)

  unfoldable pub user_text : OrderedWriter → String → OrderedWriter × Option SseError
  unfolding clear_spinner_locked
  user_text o s =
      if o.closed
      then (o, none)
      else (let o' = clear_spinner_locked o in
          with_writer (record o' { real_written = true }) (write_text io o'.w s))

  unfoldable pub user_replace : OrderedWriter → String → OrderedWriter × Option SseError
  user_replace o s =
      if o.closed
      then (o, none)
      else with_writer (record o { real_written = true; spinner_visible = false })
          (write_replace io o.w s)

  unfoldable pub user_error : OrderedWriter → String → String → OrderedWriter × Option SseError
  unfolding clear_spinner_locked
  user_error o message et =
      if o.closed
      then (o, none)
      else (let o' = clear_spinner_locked o in
          with_writer (record o' { real_written = true }) (write_error io o'.w message et))

  unfoldable pub user_done : OrderedWriter → OrderedWriter × Option SseError
  unfolding clear_spinner_locked
  user_done o =
      if o.closed
      then (o, none)
      else (let o' = clear_spinner_locked o in
          with_writer (record o' { closed = true }) (write_done io o'.w))

  -- The second part is `gateOpen`, the third the error.
  unfoldable pub hb_replace : OrderedWriter → String → OrderedWriter × Bool × Option SseError
  hb_replace o s =
      if o.real_written || o.closed
      then (o, false, none)
      else (let (w, e) = write_replace io o.w s in
          (record o { w = w; spinner_visible = not (s == "") }, true, e))
