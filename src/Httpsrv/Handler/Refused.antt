-- ===== src/Httpsrv/Handler/Refused.antt =====
-- Queries whose prompt is turned away, and their stream.
use poe_acp_relay.Base.{
  ℕ, String, ◌≡◌, refl, ap, ◌∙◌, Bool, true, none, some, List, map, any, ◌⊎◌, inl, inr, [], ◌∷◌,
}
use poe_acp_relay.Poeproto.Requests.{Request, latest_parameters}
use poe_acp_relay.Poeproto.Sse.{SseWriter}
use poe_acp_relay.Router.Types.{SinkCall, TurnReq, put_error}
use poe_acp_relay.Router.Query.{Turn, parse_options}
use poe_acp_relay.Router.Agent.{Agent}
use poe_acp_relay.Router.Turn.Finish.{EndsOnce}
use poe_acp_relay.Router.Sessions.{Config}
use poe_acp_relay.Router.Prompt.{Environment, Submitted}
use poe_acp_relay.Router.Prompt.Queued.{prompt-IsAnswered}
use poe_acp_relay.Httpsrv.Sink.{Sink, call, new_sink, run}
use poe_acp_relay.Httpsrv.Sink.Gate.{is_done_call, run-any}
use poe_acp_relay.Httpsrv.Answer.{any-EndsOnce}
use poe_acp_relay.Httpsrv.Handler.{HandlerConfig, Server, prompted, submit_query}

any_ended : (cs : List SinkCall) → EndsOnce cs → any is_done_call (map call cs) ≡ true
any_ended cs (before, split, _) =
    ap (λ l. any is_done_call (map call l)) split ∙ any-EndsOnce before

module _ {A S : Type 0} (io : ℕ → Bool) (agent : Agent A) where
  -- A query that is passed to the router leaves a sink and a submission: a turn is queued, with no
  -- error; or the stream has ended and the caller has an error; or an attachment panicked, nothing is
  -- queued, and the sink is as it was opened.
  pub submit_query-closed :
      (cfg : HandlerConfig) (rcfg : Config) (env : Environment S) (s : Server A) (session id : ℕ)
      (req : Request) (turns : List Turn) (w : SseWriter) (now : ℕ)
      → (sink : Sink) × (p : Submitted A S) × (submit_query agent rcfg env io cfg s session id req
            turns w now
          ≡ prompted sink p s.pending)
        × (((t : TurnReq) × (p.queued ≡ some t) × (p.failure ≡ none))
            ⊎ (((e : String) × (sink.o.closed ≡ true) × (p.failure ≡ some e))
                ⊎ ((e : String) × (p.panic ≡ some e)
                    × (p.queued ≡ none)
                    × (sink ≡ new_sink w cfg.heartbeat_interval))))
  unfolding submit_query
  submit_query-closed cfg rcfg env s session id req turns w now = (
    _,
    _,
    refl,
    elim (prompt-IsAnswered agent rcfg env s.router session id req.conversation_id req.user_id turns
        (parse_options (latest_parameters req) cfg.defaults) now) [
          | inl (t, q, _, f, _) ↦ inl (t, q, f)
          | inr (inl (e, q, (shown, k), f, _)) ↦ inr (
              inl (
                e,
                run-any io (new_sink w cfg.heartbeat_interval) _
                    (any_ended _ (put_error shown "user_caused_error" ∷ [], k, (tt, tt))),
                f,
              ))
          | inr (inr (e, q, k, f)) ↦ inr (
              inr (
                e,
                f,
                q,
                ap (λ cs. run io (new_sink w cfg.heartbeat_interval) (map call cs)) k
                    ∙ (unfold run in refl),
              ))
        ],
  )
