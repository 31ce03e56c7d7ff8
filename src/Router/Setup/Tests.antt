-- ===== src/Router/Setup/Tests.antt =====
-- A router's configuration at concrete inputs.
use poe_acp_relay.Base.{◌≡◌, refl, ok, arith, true, false, none, some}
use poe_acp_relay.Router.Queue.{new_session_queue, idle}
use poe_acp_relay.Router.Sessions.{SessionState, no_options, is_expired}
use poe_acp_relay.Router.Sweep.{DirEntry, is_past}
use poe_acp_relay.Router.Setup.{RawConfig, Settled, new_router}
use poe_acp_relay.Router.Setup.Swept.{is_past-is_expired}

-- Sessions that last longer than attachments are meant to.
abbrev hasty : RawConfig
hasty = record {
  has_agent = true;
  state_dir = "/s";
  session_ttl = 50;
  attachment_ttl = 10;
  system_prompt = "";
}

abbrev settled : Settled
settled = record {
  config = record { state_dir = "/s"; session_ttl = 50; system_prompt = "" };
  attachment_ttl = 50;
}

abbrev old_file : DirEntry
old_file = record { name = "f"; is_dir = false; info = some (true, 20) }

abbrev quiet : SessionState
quiet = record {
  id = 1;
  conv_id = "c";
  user_id = "u";
  cwd = "/s/convs/c";
  runner = record { session_id = "x"; applied = no_options; pending_system_prompt_inline = false };
  queue = new_session_queue;
  last_used = 20;
  run_stop = false;
  drain_stop = false;
}

settled_test : new_router (λ path. none) hasty ≡ ok settled
unfolding new_router
settled_test = refl

is_past-is_expired_example : is_expired settled.config 71 quiet ≡ true
unfolding new_session_queue
is_past-is_expired_example =
    is_past-is_expired (λ path. none) hasty settled old_file quiet true 20 71 settled_test refl
      (unfold is_past in refl) (omega arith) (unfold idle in refl)
