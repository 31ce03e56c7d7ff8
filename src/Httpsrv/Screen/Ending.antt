-- ===== src/Httpsrv/Screen/Ending.antt =====
-- What the reader is left with, by what the agent answered.
use Prim.Native.String.{◌++◌ as ◌+++◌}
use package.text.Mathlib.TextLemmas.{append_assoc as str_append_assoc, append-nil, nil-append}
use poe_acp_relay.Base.{
  Result, ok, err, ℕ, String, ◌≡◌, refl, sym, ap, ◌∙◌, true, false, Option, none, some, List, [],
  ◌∷◌, ◌++◌, All, All-append, append_assoc,
}
use poe_acp_relay.Router.Types.{
  TurnReq, SinkCall, first_chunk, put_text, put_replace, put_error, put_done,
}
use poe_acp_relay.Router.Drain.{TurnDef}
use poe_acp_relay.Router.Drain.Turns.{turn_output, IsText, turn_output-IsText}
use poe_acp_relay.Router.Drain.Merging.{put_body, put_body-append}
use poe_acp_relay.Router.Agent.{
  Agent, StopReason, end_turn, max_tokens, max_turn_requests, refusal, cancelled, other_reason,
}
use poe_acp_relay.Router.Turn.{RunnerState, terminal, option_notice, is_stale, run_one_turn}
use poe_acp_relay.Router.Turn.Finish.{options_error, answer_of, run_one_turn-puts}
use poe_acp_relay.Httpsrv.Sink.Shown.{View}
use poe_acp_relay.Httpsrv.Screen.{put_all, put_all-append, blank}

-- Calls that add texts add them to the body, and nothing else.
put_all-IsText :
    (v : View) (cs : List SinkCall)
    → All IsText cs
    → put_all v cs ≡ record v { body = v.body +++ put_body cs }
unfolding put_body
put_all-IsText v [] _ = ap (λ t. record v { body = t }) (sym (append-nil v.body))
put_all-IsText v (first_chunk ∷ cs) (_, h) = put_all-IsText v cs h
put_all-IsText v (put_text t ∷ cs) (_, h) =
    put_all-IsText (record v { body = v.body +++ t }) cs h
    ∙ ap (λ s. record v { body = s }) (str_append_assoc v.body t (put_body cs))
put_all-IsText v (put_replace t ∷ cs) (h, _) = absurd h
put_all-IsText v (put_error t et ∷ cs) (h, _) = absurd h
put_all-IsText v (put_done ∷ cs) (h, _) = absurd h

-- The end of an answer by its outcome, where the chunks have left a text.
abbrev ended_at : String → View
ended_at t = record { body = t; errors = []; finished = true }

abbrev failed_at : String → String → View
failed_at t e = record { body = t; errors = (e, "user_caused_error") ∷ []; finished = true }

abbrev pub ending : Result StopReason → String → View
ending (err e) t = failed_at t ("acp prompt: " +++ e)
ending (ok refusal) t = failed_at t "agent refused the request"
ending (ok cancelled) t = ended_at "_(cancelled)_"
ending (ok max_tokens) t = ended_at (t +++ "\n\n_(response truncated: max tokens)_")
ending (ok max_turn_requests) t = ended_at (t +++ "\n\n_(response truncated: max turns)_")
ending (ok end_turn) t = ended_at t
ending (ok (other_reason r)) t = ended_at t

terminal-ending :
    (reply : Result StopReason) (t : String)
    → put_all (record { body = t; errors = []; finished = false }) (terminal reply).0
      ≡ ending reply t
unfolding terminal
terminal-ending (err e) t = refl
terminal-ending (ok end_turn) t = refl
terminal-ending (ok max_tokens) t = refl
terminal-ending (ok max_turn_requests) t = refl
terminal-ending (ok refusal) t = refl
terminal-ending (ok cancelled) t = refl
terminal-ending (ok (other_reason r)) t = refl

-- The notice in front of an answer whose options were not all applied.
abbrev pub notice : Option String → String
notice none = ""
notice (some e) = "_(option not applied: " +++ (e +++ ")_\n\n")

option_notice-notice :
    (e : Option String) → All IsText (option_notice e) × (put_body (option_notice e) ≡ notice e)
unfolding option_notice put_body
option_notice-notice none = (tt, refl)
option_notice-notice (some e) = ((tt, (tt, tt)), append-nil _)

-- Texts and then the end of an answer.
put_all-texts :
    (texts : List SinkCall) (reply : Result StopReason)
    → All IsText texts
    → put_all blank (texts ++ (terminal reply).0) ≡ ending reply (put_body texts)
put_all-texts texts reply h =
    put_all-append blank texts (terminal reply).0
    ∙ ap (λ v. put_all v (terminal reply).0)
        (put_all-IsText blank texts h
          ∙ ap (λ t. record blank { body = t }) (nil-append (put_body texts)))
    ∙ terminal-ending reply (put_body texts)

-- A turn that is not a stale reaction leaves the reader with the notice of an option that was not
-- applied and the text of the agent's chunks, ended as its answer asks for: an error beside the text,
-- a remark behind it, or "cancelled" in its place.
pub run_one_turn-ending :
    {A : Type 0} (agent : Agent A) (prompt : String) (now : ℕ) (a : A) (st : RunnerState)
    (req : TurnReq)
    → is_stale now req ≡ false
    → put_all blank (run_one_turn agent prompt now a st req).puts
      ≡ ending (answer_of agent prompt a st req).0 (
          notice (options_error agent a st req)
          +++ put_body (
              turn_output
                (record { sink = req.id; hide_thinking = req.hide_thinking })
                (answer_of agent prompt a st req).1))
run_one_turn-ending agent prompt now a st req fresh =
    let e = options_error agent a st req in
    let (reply, us, _) = answer_of agent prompt a st req in
    let td : TurnDef = record { sink = req.id; hide_thinking = req.hide_thinking } in
    let (plain, says) = option_notice-notice e in
    let out = turn_output td us in
    ap (put_all blank) (
      run_one_turn-puts agent prompt now a st req fresh
      ∙ sym (append_assoc (option_notice e) out (terminal reply).0))
    ∙ put_all-texts (option_notice e ++ out) reply
        (All-append IsText (option_notice e) out plain (turn_output-IsText td us))
    ∙ ap (ending reply) (put_body-append (option_notice e) out ∙ ap (λ t. t +++ put_body out) says)
