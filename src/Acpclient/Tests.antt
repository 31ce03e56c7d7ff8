-- ===== src/Acpclient/Tests.antt =====
-- The client at concrete inputs.
use Prim.Native.Nat.{◌^◌}
use poe_acp_relay.Base.{
  ok, err, ◌≡◌, refl, ℕ, suc, ◌+◌, ◌-◌, ◌≤◌, arith, String, true, false, none, some, List, [], ◌∷◌,
  ◌++◌, length, drop, if◌then◌else◌, ◌==◌,
}
use poe_acp_relay.Router.Agent.{end_turn}
use poe_acp_relay.Acpclient.{
  InitializeResponse, Connection, AgentProc, new_session, sink_for, parse_caps, NewSessionResponse,
}
use poe_acp_relay.Acpclient.Files.{window, read_text_file, replied}
use poe_acp_relay.Acpclient.Files.Window.{window-slice, window-window_end}
use poe_acp_relay.Acpclient.Routing.{sink_for-new_session}

abbrev hello : InitializeResponse
hello = record {
  load_session = false;
  list = true;
  resume = true;
  embedded_context = false;
  meta_keys = "session.systemPrompt" ∷ [];
  auth_methods = [];
}

abbrev new : NewSessionResponse
new = record { session_id = "new"; models = none }

-- Its state counts the requests.
abbrev wire : Connection ℕ
wire = record {
  initialize = λ n. (ok hello, suc n);
  new_session = λ cwd blocks n. (ok new, suc n);
  set_model = λ sid model n. (none, suc n);
  set_config_option = λ sid key v n. (none, suc n);
  list_sessions = λ cwd n. (ok [], suc n);
  resume_session = λ cwd sid n. (none, suc n);
  prompt = λ sid blocks n. (ok end_turn, suc n);
  notify_cancel = λ sid n. (none, suc n);
  authenticate = λ method meta n. (err "no login", suc n);
  make_temp = λ n. ("/tmp/probe", n);
  remove_all = λ path n. n;
}

abbrev client : AgentProc ℕ
client = record {
  conn = 0;
  caps = parse_caps hello;
  sinks = ("old", 4) ∷ [];
  models = none;
  auth_methods = [];
}

sink_for-new_session_example :
    sink_for (new_session wire client "/w" 5 none).1 "old"
    ≡ (if "new" == "old" then some 5 else sink_for client "old")
sink_for-new_session_example =
    sink_for-new_session wire client "/w" "new" "old" 5 none (unfold new_session in refl)

abbrev three : List String
three = "a" ∷ "b" ∷ "c" ∷ []

window-slice_example :
    (front : List String) × (back : List String) × (window (some 2) (some 1) three ≡ some front)
    × (window (some (2 + 1)) none three ≡ some back)
    × (length front ≤ 1)
    × (front ++ back ≡ drop (2 - 1) three)
window-slice_example = window-slice 2 1 three (omega arith) (omega arith) (omega arith)

-- The largest `int` as a limit.
window-window_end_example : window (some 2) (some (2 ^ 63 - 1)) three ≡ none
window-window_end_example =
    window-window_end 2 (2 ^ 63 - 1) three (omega arith) (omega arith) (omega arith) (omega arith)
      (omega arith)

read_test :
    read_text_file (λ path. ok "a\nb\nc\n") (record { path = "/f"; line = some 2; limit = some 1 })
    ≡ replied "b"
unfolding read_text_file
read_test = refl
