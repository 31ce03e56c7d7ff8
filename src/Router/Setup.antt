-- ===== src/Router/Setup.antt =====
-- `New`, `RunGC`, `Len` and `Debug` of internal/router/router.go.
pub mod Swept
mod Tests
use Prim.Native.String.{compare, ◌++◌ as ◌+++◌}
use text.Mathlib.Text.{is_le}
use poe_acp_relay.Base.{
  Result, ok, err, ℕ, ◌*◌, String, Bool, true, false, Option, none, some, List, [], ◌∷◌, map,
  length, ltb, nat_eq, if◌then◌else◌, ◌==◌,
}
use poe_acp_relay.Base.Paths.{join}
use poe_acp_relay.Router.Sessions.{Config, SessionState, RouterState, gc_once}
use poe_acp_relay.Router.Sweep.{Disk, sweep_attachments_once}

-- The fields of `Config` that `New` looks at; times are not negative.
pub record RawConfig : Type 0 where
  pub has_agent : Bool
  pub state_dir : String
  pub session_ttl : ℕ
  pub attachment_ttl : ℕ
  pub system_prompt : String

-- The configuration of a router: that of its sessions, and the time that attachments last.
pub record Settled : Type 0 where
  pub config : Config
  pub attachment_ttl : ℕ

abbrev hour : ℕ
hour = 3_600 * 1_000_000_000

-- `defaultAttachmentTTL`
abbrev default_attachment_ttl : ℕ
default_attachment_ttl = 30 * (24 * hour)

-- `reactionContractClause`
abbrev reaction_contract_clause : String
reaction_contract_clause =
    "Out-of-band turn contract:\n"
    +++ ("\n"
        +++ ("Some user messages you receive will begin with the line \"[poe-acp:out-of-band ...]\".\n"
            +++ ("These are synthetic turns injected by the relay (poe-acp), NOT typed by\n"
                +++ ("the user. The most common kind is a reaction event (\"[poe-acp:out-of-band reaction]\")\n"
                    +++ ("telling you that the user added or removed a reaction (👍, 👎, etc.) on\n"
                        +++ ("one of your earlier messages.\n"
                            +++ ("\n"
                                +++ ("Rules for out-of-band turns:\n"
                                    +++ ("  - Do not address the user. Your reply will NOT be shown to them.\n"
                                        +++ ("  - Keep the reply terse — a one-line acknowledgement is fine. The\n"
                                            +++ ("    relay discards the response; it exists only so your in-session\n"
                                                +++ ("    memory / preference notes reflect the new information.\n"
                                                    +++ ("  - Do not invoke tools that have user-visible side effects unless\n"
                                                        +++ ("    the marker explicitly requests it."))))))))))))))

settled_session_ttl : ℕ → ℕ
settled_session_ttl ttl = if nat_eq ttl 0 then 2 * hour else ttl

-- The time of attachments, at least that of sessions.
settled_attachment_ttl : ℕ → ℕ → ℕ
settled_attachment_ttl session_ttl ttl =
    let chosen = if nat_eq ttl 0 then default_attachment_ttl else ttl in
    if ltb chosen session_ttl then session_ttl else chosen

settled_prompt : String → String
settled_prompt prompt =
    if prompt == "" then "" else reaction_contract_clause +++ ("\n\n" +++ prompt)

-- `New`; `mkdir` stands for `os.MkdirAll`, and gives the error.
unfoldable pub new_router : (String → Option String) → RawConfig → Result Settled
unfolding settled_session_ttl settled_attachment_ttl settled_prompt
new_router mkdir raw =
    if raw.has_agent
    then if raw.state_dir == ""
      then err "router: empty StateDir"
      else elim (mkdir (join (raw.state_dir ∷ "convs" ∷ []))) [
        | some e ↦ err ("mkdir state: " +++ e)
        | none ↦
            let session_ttl = settled_session_ttl raw.session_ttl in
            ok (record {
              config = record {
                state_dir = raw.state_dir;
                session_ttl = session_ttl;
                system_prompt = settled_prompt raw.system_prompt;
              };
              attachment_ttl = settled_attachment_ttl session_ttl raw.attachment_ttl;
            })
      ]
    else err "router: nil Agent"

-- `Len`
pub len : {A : Type 0} → RouterState A → ℕ
len r = length r.sessions

-- `DebugInfo`
pub record DebugInfo : Type 0 where
  pub conv_id : String
  pub user_id : String
  pub session_id : String
  pub cwd : String
  pub last_used : ℕ

debug_info : SessionState → DebugInfo
debug_info st = record {
  conv_id = st.conv_id;
  user_id = st.user_id;
  session_id = st.runner.session_id;
  cwd = st.cwd;
  last_used = st.last_used;
}

-- `sort.Slice` by conversation, which no two sessions share.
insert_info : DebugInfo → List DebugInfo → List DebugInfo
insert_info i [] = i ∷ []
insert_info i (j ∷ infos) =
    let later = j ∷ insert_info i infos in
    if is_le (compare i.conv_id j.conv_id) then i ∷ j ∷ infos else later

sort_infos : List DebugInfo → List DebugInfo
unfolding insert_info
sort_infos [] = []
sort_infos (i ∷ infos) = insert_info i (sort_infos infos)

-- `Debug`
unfoldable pub debug : {A : Type 0} → RouterState A → List DebugInfo
unfolding sort_infos debug_info
debug r = sort_infos (map (λ entry. debug_info entry.1) r.sessions)

-- One tick of `RunGC`: the sessions, then the files.
pub gc_tick : {A S : Type 0} → Settled → Disk S → ℕ → RouterState A → S → RouterState A × S
unfolding sweep_attachments_once
gc_tick cfg disk now r s = (
  record r { sessions = (gc_once cfg.config now r.sessions).0 },
  sweep_attachments_once disk cfg.attachment_ttl now cfg.config.state_dir s,
)
