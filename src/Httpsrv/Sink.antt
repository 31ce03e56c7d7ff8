-- ===== src/Httpsrv/Sink.antt =====
-- `sink` of internal/httpsrv/handler.go: the router's view of the stream, and the heartbeat goroutine
-- that animates the spinner until the first user write.
pub mod Shown
pub mod Rendering
pub mod Gate
use Prim.Native.String.{◌++◌ as ◌+++◌}
use poe_acp_relay.Base.{
  ℕ, zero, suc, ◌+◌, ◌-◌, ◌%◌, String, Bool, true, false, not, ◌||◌, List, [], ◌∷◌, if◌then◌else◌,
}
use poe_acp_relay.Poeproto.Sse.{SseWriter}
use poe_acp_relay.Router.Types.{SinkCall, first_chunk, put_text, put_replace, put_error, put_done}
use poe_acp_relay.Httpsrv.Writer.{
  OrderedWriter, new_ordered_writer, user_text, user_replace, user_error, user_done, hb_replace,
}

-- `hb_done` and `hb_exited` say that the channels are closed; `spin_tick` is the goroutine's own.
pub record Sink : Type 0 where
  pub o : OrderedWriter
  pub hb_done : Bool
  pub hb_exited : Bool
  pub spin_tick : ℕ

-- `newSink`; with an interval of 0 no heartbeat is started.
unfoldable pub new_sink : SseWriter → ℕ → Sink
unfolding new_ordered_writer
new_sink w zero = record {
  o = new_ordered_writer w;
  hb_done = true;
  hb_exited = true;
  spin_tick = 0;
}
new_sink w (suc hb) = record {
  o = new_ordered_writer w;
  hb_done = false;
  hb_exited = false;
  spin_tick = 0;
}

-- `strings.Repeat(".", n)`
dots : ℕ → String
dots zero = ""
dots (suc n) = "." +++ dots n

-- The frame of the n-th tick: one, two or three dots.
unfoldable pub spinner : ℕ → String
unfolding dots
spinner n = "> _Thinking" +++ (dots (1 + (n - 1) % 3) +++ "_")

-- What can happen to a sink next: a call of the router, a tick of the heartbeat's ticker, or the
-- heartbeat finding `hbDone` closed. Where both are ready Go's `select` takes either.
pub data Action : Type 0 where
  call : SinkCall → Action
  tick : Action
  wake : Action

-- `stop`
abbrev pub stop : Sink → Sink
stop s = record s { hb_done = true }

module _ (io : ℕ → Bool) where
  unfoldable pub sink_call : Sink → SinkCall → Sink
  sink_call s first_chunk = stop s
  sink_call s (put_text t) = record s { o = (user_text io s.o t).0 }
  sink_call s (put_replace t) = record s { o = (user_replace io s.o t).0 }
  sink_call s (put_error t et) = record s { o = (user_error io s.o t et).0; hb_done = true }
  sink_call s put_done = record s { o = (user_done io s.o).0; hb_done = true }

  -- One round of `heartbeat` in which the ticker fires; a closed gate ends the goroutine.
  unfoldable pub heartbeat_tick : Sink → Sink
  heartbeat_tick s =
      if s.hb_exited
      then s
      else (let n = suc s.spin_tick in
          let (o, gate_open, _) = hb_replace io s.o (spinner n) in
          record s { o = o; spin_tick = n; hb_exited = not gate_open })

  unfoldable pub step : Sink → Action → Sink
  step s (call c) = sink_call s c
  step s tick = heartbeat_tick s
  step s wake = record s { hb_exited = s.hb_exited || s.hb_done }

  unfoldable pub run : Sink → List Action → Sink
  run s [] = s
  run s (a ∷ rest) = run (step s a) rest

-- The calls of the router among the actions, in order: the same run without a heartbeat.
abbrev pub calls : List Action → List Action
calls [] = []
calls (call c ∷ rest) = call c ∷ calls rest
calls (tick ∷ rest) = calls rest
calls (wake ∷ rest) = calls rest
