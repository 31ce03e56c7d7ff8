-- ===== src/Acpclient/Process/Tests.antt =====
-- Starting and closing at concrete inputs.
use poe_acp_relay.Base.{
  ok, err, Bool, true, false, none, some, [], ◌∷◌, ◌≡◌, refl, String, Option, ℕ, arith,
  if◌then◌else◌, ◌==◌,
}
use poe_acp_relay.Router.Agent.{end_turn}
use poe_acp_relay.Acpclient.{Connection}
use poe_acp_relay.Acpclient.Process.{StartConfig, Processes, start, close}
use poe_acp_relay.Acpclient.Process.Ended.{AreFaithful, IsClean, start-close}

-- The state says whether the child runs. It does not end by itself.
abbrev shell : Processes Bool
shell = record {
  temp_dir = "/tmp";
  stdin_pipe = λ p. (none, p);
  stdout_pipe = λ p. (none, p);
  spawn = λ s p. if s.path == "fir" then (none, true) else (some "not found", p);
  interrupt = λ p. p;
  wait_for = λ p. (false, p);
  kill = λ p. false;
  wait = λ p. false;
}

abbrev found : Bool → Bool → Option String × Bool
found b p = if b then (none, true) else (some "not found", p)

found-failed : (b p : Bool) (e : String) → (found b p).0 ≡ some e → (found b p).1 ≡ p
found-failed b p e h = ground arith

faithful : AreFaithful shell (λ p. p)
faithful = record {
  stdin = λ p. refl;
  stdout = λ p. refl;
  failed = λ s p e h. found-failed (s.path == "fir") p e h;
  waited = λ p. refl;
  seen = λ p h. absurd (cc);
}

-- The agent of this connection refuses to initialize.
abbrev mute : Connection ℕ
mute = record {
  initialize = λ n. (err "closed", n);
  new_session = λ cwd blocks n. (err "closed", n);
  set_model = λ sid model n. (none, n);
  set_config_option = λ sid key v n. (none, n);
  list_sessions = λ cwd n. (ok [], n);
  resume_session = λ cwd sid n. (none, n);
  prompt = λ sid blocks n. (ok end_turn, n);
  notify_cancel = λ sid n. (none, n);
  authenticate = λ method meta n. (err "no login", n);
  make_temp = λ n. ("/tmp/probe", n);
  remove_all = λ path n. n;
}

abbrev fir : StartConfig
fir = record { command = "fir" ∷ []; cwd = ""; env = none; has_policy = true }

start-close_example :
    IsClean shell (λ p. p) faithful mute 0 (start shell mute fir false 0)
    × (close shell true (start shell mute fir false 0).1 ≡ false)
start-close_example = start-close shell (λ p. p) faithful mute fir false 0 refl
