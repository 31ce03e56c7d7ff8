-- ===== src/Httpsrv/Sink/Rendering.antt =====
-- The spinner, and what the reader of a stream sees.
use poe_acp_relay.Base.{
  ℕ, zero, String, ◌≡◌, Bool, true, false, List, [], ◌∷◌, arith, suc, Bool-cases, ◌⊎◌, inl, inr,
  eq_iff,
}
use poe_acp_relay.Poeproto.Sse.{SseWriter, event, new_sse_writer, write_meta}
use poe_acp_relay.Httpsrv.Writer.{
  OrderedWriter, clear_spinner_locked, user_text, user_replace, user_error, user_done, hb_replace,
}
use poe_acp_relay.Router.Types.{SinkCall, first_chunk, put_text, put_replace, put_error, put_done}
use poe_acp_relay.Httpsrv.Sink.{
  Sink, Action, call, tick, wake, new_sink, spinner, sink_call, heartbeat_tick, step, run, calls,
}
use poe_acp_relay.Httpsrv.Sink.Shown.{
  show, render, render_from, shown, shown-text, shown-replace, shown-error, shown-done,
}

-- A run with a heartbeat beside the same run without one: `s` and `t` agree on what was written, and
-- on what is shown, but for a spinner that is on screen; a user write or the end clears it.
record Agree (s t : OrderedWriter) : Type 0 where
  real : s.real_written ≡ t.real_written
  closed : s.closed ≡ t.closed
  quiet : t.spinner_visible ≡ false
  real_gone : s.real_written ≡ true → s.spinner_visible ≡ false
  closed_gone : s.closed ≡ true → s.spinner_visible ≡ false
  blank : t.real_written ≡ false → t.closed ≡ false → (shown t.w).body ≡ ""
  open_s : s.closed ≡ false → s.w.closed ≡ false
  open_t : t.closed ≡ false → t.w.closed ≡ false
  errors : (shown s.w).errors ≡ (shown t.w).errors
  finished : (shown s.w).finished ≡ (shown t.w).finished
  body : s.spinner_visible ≡ false → (shown s.w).body ≡ (shown t.w).body

module _ (io : ℕ → Bool) (up : (k : ℕ) → io k ≡ true) where
  hb_replace-Agree : (s t : OrderedWriter) (f : String) → Agree s t → Agree (hb_replace io s f).0 t
  unfolding hb_replace show
  hb_replace-Agree s t f a = ground (arith, shown-replace io up s.w f, eq_iff f "")

  -- Clearing the spinner before a user write leaves what the other run shows.
  record Cleared (s t : OrderedWriter) : Type 0 where
    c_real : s.real_written ≡ t.real_written
    c_open_s : s.w.closed ≡ false
    c_open_t : t.w.closed ≡ false
    c_gone : s.spinner_visible ≡ false
    c_quiet : t.spinner_visible ≡ false
    c_closed_s : s.closed ≡ false
    c_closed_t : t.closed ≡ false
    c_shown : shown s.w ≡ shown t.w

  clear_spinner_locked-Cleared :
      (s t : OrderedWriter)
      → Agree s t
      → s.closed ≡ false
      → Cleared (clear_spinner_locked io s) (clear_spinner_locked io t)
  unfolding clear_spinner_locked show
  clear_spinner_locked-Cleared s t a e = ground (arith, shown-replace io up s.w "")

  user_text-Agree :
      (s t : OrderedWriter) (f : String)
      → Agree s t
      → Agree (user_text io s f).0 (user_text io t f).0
  unfolding user_text show
  user_text-Agree s t f a = elim (Bool-cases s.closed) [
    | inl e ↦ ground arith
    | inr e ↦
        let c = clear_spinner_locked-Cleared s t a e in
        ground (
          arith,
          shown-text io up (clear_spinner_locked io s).w f,
          shown-text io up (clear_spinner_locked io t).w f,
        )
  ]

  user_replace-Agree :
      (s t : OrderedWriter) (f : String)
      → Agree s t
      → Agree (user_replace io s f).0 (user_replace io t f).0
  unfolding user_replace show
  user_replace-Agree s t f a = ground (arith, shown-replace io up s.w f, shown-replace io up t.w f)

  user_error-Agree :
      (s t : OrderedWriter) (f et : String)
      → Agree s t
      → Agree (user_error io s f et).0 (user_error io t f et).0
  unfolding user_error show
  user_error-Agree s t f et a = elim (Bool-cases s.closed) [
    | inl e ↦ ground arith
    | inr e ↦
        let c = clear_spinner_locked-Cleared s t a e in
        ground (
          arith,
          shown-error io up (clear_spinner_locked io s).w f et,
          shown-error io up (clear_spinner_locked io t).w f et,
        )
  ]

  user_done-Agree : (s t : OrderedWriter) → Agree s t → Agree (user_done io s).0 (user_done io t).0
  unfolding user_done show
  user_done-Agree s t a = elim (Bool-cases s.closed) [
    | inl e ↦ ground arith
    | inr e ↦
        let c = clear_spinner_locked-Cleared s t a e in
        ground (
          arith,
          shown-done io up (clear_spinner_locked io s).w,
          shown-done io up (clear_spinner_locked io t).w,
        )
  ]

  sink_call-Agree :
      (s t : Sink) (c : SinkCall) → Agree s.o t.o → Agree (sink_call io s c).o (sink_call io t c).o
  unfolding sink_call
  sink_call-Agree s t first_chunk a = a
  sink_call-Agree s t (put_text f) a = user_text-Agree s.o t.o f a
  sink_call-Agree s t (put_replace f) a = user_replace-Agree s.o t.o f a
  sink_call-Agree s t (put_error f et) a = user_error-Agree s.o t.o f et a
  sink_call-Agree s t put_done a = user_done-Agree s.o t.o a

  heartbeat_tick-Agree : (s t : Sink) → Agree s.o t.o → Agree (heartbeat_tick io s).o t.o
  unfolding heartbeat_tick
  heartbeat_tick-Agree s t a = elim (Bool-cases s.hb_exited) [
    | inl e ↦ simp e a
    | inr e ↦ simp e (hb_replace-Agree s.o t.o (spinner (suc s.spin_tick)) a)
  ]

  run-Agree :
      (s t : Sink) (acts : List Action)
      → Agree s.o t.o
      → Agree (run io s acts).o (run io t (calls acts)).o
  unfolding run step
  run-Agree s t [] a = a
  run-Agree s t (call c ∷ acts) a =
      run-Agree (sink_call io s c) (sink_call io t c) acts (sink_call-Agree s t c a)
  run-Agree s t (tick ∷ acts) a =
      run-Agree (heartbeat_tick io s) t acts (heartbeat_tick-Agree s t a)
  run-Agree s t (wake ∷ acts) a = run-Agree (step io s wake) t acts a

-- The stream as `handleQuery` hands it to the sink, its `meta` event written.
abbrev pub opened : (ℕ → Bool) → SseWriter
opened io = (write_meta io new_sse_writer).0

new_sink-Agree :
    (io : ℕ → Bool) (hb : ℕ)
    → ((k : ℕ) → io k ≡ true)
    → Agree (new_sink (opened io) hb).o (new_sink (opened io) 0).o
unfolding new_sink write_meta new_sse_writer event render render_from show
new_sink-Agree io zero up = ground (arith, up 0)
new_sink-Agree io (suc hb) up = ground (arith, up 0)

Agree-shown :
    (s t : OrderedWriter)
    → Agree s t
    → (s.real_written ≡ true) ⊎ (s.closed ≡ true)
    → shown s.w ≡ shown t.w
Agree-shown s t a settled = ground arith

-- While the connection holds, and once a user write or the end of the stream has come: however the
-- heartbeat's ticks fall between the router's calls, the reader is shown exactly what the same calls
-- show with no heartbeat: the body, the errors and whether the answer has ended.
pub run-calls-shown :
    (io : ℕ → Bool) (hb : ℕ) (acts : List Action)
    → ((k : ℕ) → io k ≡ true)
    → ((run io (new_sink (opened io) hb) acts).o.real_written ≡ true)
      ⊎ ((run io (new_sink (opened io) hb) acts).o.closed ≡ true)
    → shown (run io (new_sink (opened io) hb) acts).o.w
      ≡ shown (run io (new_sink (opened io) 0) (calls acts)).o.w
run-calls-shown io hb acts up settled =
    Agree-shown _ _ (run-Agree io up _ _ acts (new_sink-Agree io hb up)) settled
