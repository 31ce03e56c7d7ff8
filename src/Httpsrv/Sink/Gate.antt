-- ===== src/Httpsrv/Sink/Gate.antt =====
-- The gate of the ordered writer: what can no longer be written, and when the heartbeat ends.
use poe_acp_relay.Base.{
  ℕ, ◌≡◌, refl, Bool, true, false, List, [], ◌∷◌, arith, any, ◌||◌, ◌⊎◌, ap, ◌∙◌, ◌≢◌,
}
use poe_acp_relay.Httpsrv.Writer.{
  OrderedWriter, clear_spinner_locked, user_text, user_replace, user_error, user_done, hb_replace,
}
use poe_acp_relay.Router.Types.{SinkCall, first_chunk, put_text, put_replace, put_error, put_done}
use poe_acp_relay.Httpsrv.Sink.{
  Sink, Action, call, tick, wake, sink_call, heartbeat_tick, step, run, calls,
}

module _ (io : ℕ → Bool) where
  sink_call-closed : (s : Sink) (c : SinkCall) → s.o.closed ≡ true → (sink_call io s c).o ≡ s.o
  unfolding sink_call user_text user_replace user_error user_done
  sink_call-closed s first_chunk h = refl
  sink_call-closed s (put_text t) h = ground arith
  sink_call-closed s (put_replace t) h = ground arith
  sink_call-closed s (put_error t et) h = ground arith
  sink_call-closed s put_done h = ground arith

  step-closed : (s : Sink) (a : Action) → s.o.closed ≡ true → (step io s a).o ≡ s.o
  unfolding step heartbeat_tick hb_replace
  step-closed s (call c) h = sink_call-closed s c h
  step-closed s tick h = ground arith
  step-closed s wake h = refl

  -- Once the stream has ended, whatever the router and the heartbeat still do, the writer stays as it
  -- is, and no frame is added.
  pub run-closed : (s : Sink) (acts : List Action) → s.o.closed ≡ true → (run io s acts).o ≡ s.o
  unfolding run
  run-closed s [] h = refl
  run-closed s (a ∷ acts) h =
      let e = step-closed s a h in
      run-closed (step io s a) acts (ap (λ (o : OrderedWriter). o.closed) e ∙ h) ∙ e

  -- The gate is closed: no heartbeat frame may follow.
  abbrev pub IsShut : Sink → Type 0
  IsShut s = (s.o.real_written ≡ true) ⊎ (s.o.closed ≡ true)

  sink_call-IsShut : (s : Sink) (c : SinkCall) → IsShut s → IsShut (sink_call io s c)
  unfolding sink_call user_text user_replace user_error user_done clear_spinner_locked
  sink_call-IsShut s first_chunk h = h
  sink_call-IsShut s (put_text t) h = ground arith
  sink_call-IsShut s (put_replace t) h = ground arith
  sink_call-IsShut s (put_error t et) h = ground arith
  sink_call-IsShut s put_done h = ground arith

  step-IsShut : (s : Sink) (a : Action) → IsShut s → IsShut (step io s a)
  unfolding step heartbeat_tick hb_replace
  step-IsShut s (call c) h = sink_call-IsShut s c h
  step-IsShut s tick h = ground arith
  step-IsShut s wake h = h

  run-IsShut : (s : Sink) (acts : List Action) → IsShut s → IsShut (run io s acts)
  unfolding run
  run-IsShut s [] h = h
  run-IsShut s (a ∷ acts) h = run-IsShut (step io s a) acts (step-IsShut s a h)

  -- Once a user write has landed or the stream has ended, at every later point a tick of the heartbeat
  -- writes nothing, and ends the heartbeat if it still runs.
  pub heartbeat_tick-run :
      (s : Sink) (acts : List Action)
      → IsShut s
      → ((heartbeat_tick io (run io s acts)).o ≡ (run io s acts).o)
        × ((heartbeat_tick io (run io s acts)).hb_exited ≡ true)
  heartbeat_tick-run s acts h = shut (run io s acts) (run-IsShut s acts h)
    where
      shut :
          (t : Sink)
          → IsShut t
          → ((heartbeat_tick io t).o ≡ t.o) × ((heartbeat_tick io t).hb_exited ≡ true)
      shut t k = unfold heartbeat_tick hb_replace in ground arith

  -- The first call that writes text, a replacement or an error closes the gate, unless the stream has
  -- ended already.
  pub sink_call-real_written :
      (s : Sink) (c : SinkCall) → c ≢ first_chunk → IsShut (record s { o = (sink_call io s c).o })
  unfolding sink_call user_text user_replace user_error user_done clear_spinner_locked
  sink_call-real_written s first_chunk h = absurd (h refl)
  sink_call-real_written s (put_text t) h = ground arith
  sink_call-real_written s (put_replace t) h = ground arith
  sink_call-real_written s (put_error t et) h = ground arith
  sink_call-real_written s put_done h = ground arith

abbrev pub is_done_call : Action → Bool
is_done_call (call put_done) = true
is_done_call _ = false

pub any-calls : (acts : List Action) → any is_done_call (calls acts) ≡ any is_done_call acts
any-calls [] = refl
any-calls (call c ∷ acts) = ap (λ b. is_done_call (call c) || b) (any-calls acts)
any-calls (tick ∷ acts) = any-calls acts
any-calls (wake ∷ acts) = any-calls acts

sink_call_done : (io : ℕ → Bool) (s : Sink) → (sink_call io s put_done).o.closed ≡ true
unfolding sink_call user_done
sink_call_done io s = ground arith

-- A run in which the router ends the stream leaves it sealed.
pub run-any :
    (io : ℕ → Bool) (s : Sink) (acts : List Action)
    → any is_done_call acts ≡ true
    → (run io s acts).o.closed ≡ true
unfolding run step
run-any io s [] h = cc
run-any io s (call put_done ∷ acts) h =
    let e = sink_call_done io s in
    ap (λ (o : OrderedWriter). o.closed) (run-closed io (sink_call io s put_done) acts e) ∙ e
run-any io s (a ∷ acts) h = run-any io (step io s a) acts h
