-- ===== src/Acpclient/Dispatch/Delivered/Tests.antt =====
-- Two sessions whose updates are mixed.
use poe_acp_relay.Base.{
  List, String, ok, err, ◌≡◌, refl, ℕ, false, none, [], ◌∷◌, if◌then◌else◌, ◌==◌, lookup,
}
use poe_acp_relay.Router.Drain.{
  message_chunk, TurnDef, begin_turn, end_turn, new_drain, drain_chunks, tagged,
}
use poe_acp_relay.Router.Drain.Turns.{turn_output}
use poe_acp_relay.Policy.{allow_all}
use poe_acp_relay.Acpclient.{AgentProc, sink_for}
use poe_acp_relay.Acpclient.Dispatch.{Host, Decoders}
use poe_acp_relay.Acpclient.Dispatch.Delivered.{
  Waiting, send, dispatch_all, updates_for, drain_chunks-dispatch_all,
}

abbrev host : Host Waiting
host = record {
  read_file = λ path s. err "no file";
  mkdir_all = λ path s. (none, s);
  write_file = λ path text s. (none, s);
  on_update = λ k u s. (none, s);
}

-- The text of a notification is the session that it is about; one of them is malformed.
abbrev decoders : Decoders
decoders = record {
  update = λ p. if p == "" then err "empty" else ok (p, message_chunk p);
  permission = λ p. err "none";
  read = λ p. err "none";
  write = λ p. err "none";
}

abbrev client : AgentProc ℕ
client = record {
  conn = 0;
  caps = record {
    load_session = false;
    list_sessions = false;
    resume_session = false;
    embedded_context = false;
    system_prompt = false;
  };
  sinks = ("a", 1) ∷ ("b", 2) ∷ [];
  models = none;
  auth_methods = [];
}

abbrev turn_def : TurnDef
turn_def = record { sink = 7; hide_thinking = false }

abbrev during : List String
during = "a" ∷ "b" ∷ "" ∷ "c" ∷ "b" ∷ []

drain_chunks-dispatch_all_example :
    (drain_chunks new_drain (
      dispatch_all decoders client host
        (λ s. s)
        allow_all
        ("b" ∷ [])
        (send 2 (end_turn 5) (
          dispatch_all decoders client host
            (λ s. s)
            allow_all
            during
            (send 2
              (begin_turn turn_def)
              (dispatch_all decoders client host (λ s. s) allow_all ("b" ∷ "a" ∷ []) (λ j. [])))))
        2)).out
    ≡ tagged 7 (turn_output turn_def (updates_for decoders client 2 during))
drain_chunks-dispatch_all_example =
    drain_chunks-dispatch_all decoders client host (λ s. s) allow_all ("b" ∷ "a" ∷ []) during
      ("b" ∷ []) 2 5 turn_def

-- What that is.
mixed_updates : updates_for decoders client 2 during ≡ message_chunk "b" ∷ message_chunk "b" ∷ []
unfolding updates_for sink_for lookup
mixed_updates = refl
