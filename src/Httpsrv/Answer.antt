-- ===== src/Httpsrv/Answer.antt =====
-- A turn of the router on the stream of internal/httpsrv/handler.go.
use poe_acp_relay.Base.{
  ℕ, String, ◌≡◌, refl, sym, ap, ◌∙◌, Bool, true, false, List, [], ◌∷◌, ◌++◌, map, any, Option,
  Bool-cases, inl, inr, arith, All, All-middle, subst,
}
use poe_acp_relay.Router.Types.{TurnReq, is_user_req, SinkCall, put_done}
use poe_acp_relay.Router.Agent.{Agent}
use poe_acp_relay.Router.Turn.{RunnerState, TurnOutcome, is_stale, run_one_turn}
use poe_acp_relay.Router.Turn.Finish.{IsOver, run_one_turn-EndsOnce}
use poe_acp_relay.Router.Runner.Service.{Service, Reach, fresh_service}
use poe_acp_relay.Router.Runner.Served.{Reach-first_served}
use poe_acp_relay.Router.Sessions.{Config, RouterState, conv_key}
use poe_acp_relay.Router.Sessions.Reachable.{cancel_unnamed}
use poe_acp_relay.Router.Sessions.Reachable as Sessions
use poe_acp_relay.Httpsrv.Handler.{finish_query, watch_client}
use poe_acp_relay.Httpsrv.Sink.{Sink, Action, call, run, calls}
use poe_acp_relay.Httpsrv.Sink.Gate.{is_done_call, any-calls, run-any}

pub any-EndsOnce :
    (before : List SinkCall) → any is_done_call (map call (before ++ put_done ∷ [])) ≡ true
any-EndsOnce [] = refl
any-EndsOnce (c ∷ before) = ground (arith, any-EndsOnce before)

-- Once the turn of a query that a session accepted is over, however the session was used and however
-- heartbeat ticks fall between the calls of the turn, and whether or not its writes go through: the
-- stream is sealed when `handleQuery` returns, and the heartbeat is told to stop.
pub finish_query-closed :
    {A : Type 0} (agent : Agent A) (prompt : String) {st : RunnerState} {a : A} {s : Service A}
    (before after : List (TurnOutcome A)) (o : TurnOutcome A) (io : ℕ → Bool) (sink : Sink)
    (acts : List Action)
    → Reach agent prompt (fresh_service st a) s
    → s.log ≡ before ++ o ∷ after
    → is_user_req o.req ≡ true
    → calls acts ≡ map call o.puts
    → ((finish_query io sink acts).o.closed ≡ true) × ((finish_query io sink acts).hb_done ≡ true)
unfolding finish_query
finish_query-closed agent prompt before after o io sink acts reach here user e =
    let over = subst (All IsOver) here (Reach-first_served agent prompt reach).1 in
    let (puts, split, _) = (All-middle IsOver before o after over).1 user in
    (
      run-any io sink acts (
          sym (any-calls acts)
          ∙ ap (any is_done_call) (e ∙ ap (map call) split)
          ∙ any-EndsOnce puts),
      refl,
    )

-- However heartbeat ticks fall between the calls of a turn that is not a stale reaction, and whether or
-- not its writes go through, the stream is sealed when the turn is over.
pub run-run_one_turn-closed :
    {A : Type 0} (agent : Agent A) (prompt : String) (now : ℕ) (a : A) (st : RunnerState)
    (req : TurnReq) (io : ℕ → Bool) (s : Sink) (acts : List Action)
    → is_stale now req ≡ false
    → calls acts ≡ map call (run_one_turn agent prompt now a st req).puts
    → (run io s acts).o.closed ≡ true
run-run_one_turn-closed agent prompt now a st req io s acts fresh e =
    let ((before, split, _), _, _) = run_one_turn-EndsOnce agent prompt now a st req fresh in
    run-any io s acts
      (sym (any-calls acts) ∙ ap (any is_done_call) (e ∙ ap (map call) split) ∙ any-EndsOnce before)

-- After any sequence of operations of a router that began with no session: when the client of a query
-- without a conversation id goes away, the goroutine that watches it finds no session, and the agent is
-- not told to stop, although the query runs as the conversation "default".
pub watch_client_unnamed :
    {A : Type 0} (agent : Agent A) (cfg : Config) (mkdir : String → Option String) {a : A}
    {r : RouterState A} (gone : Bool)
    → Sessions.Reach agent cfg mkdir (record { sessions = []; agent = a }) r
    → (watch_client agent gone r "" ≡ r) × (conv_key "" ≡ "default")
unfolding watch_client conv_key
watch_client_unnamed agent cfg mkdir {a} {r} gone reach = elim (Bool-cases gone) [
  | inl e ↦ rw e (ap (λ p. p.1) (cancel_unnamed agent cfg mkdir reach), refl)
  | inr e ↦ rw e (refl, refl)
]
