-- ===== src/Acpclient/Dispatch.antt =====
-- `dispatch` of internal/acpclient/agent.go: the requests that the agent makes.
pub mod Delivered
use poe_acp_relay.Base.{Result, ok, err, ℕ, String, Option, none, some, if◌then◌else◌, ◌==◌}
use poe_acp_relay.Router.Drain.{Update}
use poe_acp_relay.Policy.{Policy, PermissionRequest, decide}
use poe_acp_relay.Acpclient.{AgentProc, sink_for}
use poe_acp_relay.Acpclient.Files.{
  ReadRequest, WriteRequest, replied, refused, panicked, read_text_file, write_text_file,
}

-- The JSON decoder at the parameters of the four methods.
pub record Decoders : Type 0 where
  pub update : String → Result (String × Update)
  pub permission : String → Result PermissionRequest
  pub read : String → Result ReadRequest
  pub write : String → Result WriteRequest

-- The disk, and the sinks, whose `OnUpdate` may fail.
pub record Host (S : Type 0) : Type 0 where
  pub read_file : String → S → Result String
  pub mkdir_all : String → S → Option String × S
  pub write_file : String → String → S → Option String × S
  pub on_update : ℕ → Update → S → Option String × S

pub data Answer : Type 0 where
  done : Answer
  chose : String → Answer
  content : String → Answer
  invalid_params : String → Answer
  internal_error : String → Answer
  method_not_found : String → Answer
  crashed : Answer

module _ {S C : Type 0} (host : Host S) (a : AgentProc C) where
  -- `sessionUpdate`; an update of a session without a sink is dropped.
  pub session_update : String → Update → S → Option String × S
  session_update sid u s = elim (sink_for a sid) [
    | none ↦ (none, s)
    | some sink ↦ host.on_update sink u s
  ]

  update_answer : Result (String × Update) → S → Answer × S
  unfolding session_update
  update_answer (err e) s = (invalid_params e, s)
  update_answer (ok (sid, u)) s =
      let (e, s1) = session_update sid u s in
      (elim e [ none ↦ done | some failure ↦ internal_error failure ], s1)

read_answer : {S : Type 0} → Host S → Result ReadRequest → S → Answer
read_answer host (err e) s = invalid_params e
read_answer host (ok req) s = elim (read_text_file (λ path. host.read_file path s) req) [
  | replied text ↦ content text
  | refused e ↦ internal_error e
  | panicked ↦ crashed
]

write_answer : {S : Type 0} → Host S → Result WriteRequest → S → Answer × S
write_answer host (err e) s = (invalid_params e, s)
write_answer host (ok req) s =
    let (r, s1) = write_text_file host.mkdir_all host.write_file req s in
    (elim r [ replied _ ↦ done | refused e ↦ internal_error e | panicked ↦ crashed ], s1)

permission_answer : (String → String) → Policy → Result PermissionRequest → Answer
permission_answer to_lower policy (err e) = invalid_params e
permission_answer to_lower policy (ok req) = chose (decide to_lower policy req)

-- `dispatch`; `to_lower` is what the policy takes.
pub dispatch :
    {S C : Type 0}
    → Host S
    → Decoders
    → (String → String)
    → Policy
    → AgentProc C
    → String
    → String
    → S
    → Answer × S
unfolding update_answer permission_answer read_answer write_answer
dispatch host decoders to_lower policy a method params s =
    if method == "session/update"
    then update_answer host a (decoders.update params) s
    else if method == "session/request_permission"
    then (permission_answer to_lower policy (decoders.permission params), s)
    else if method == "fs/read_text_file"
    then (read_answer host (decoders.read params) s, s)
    else if method == "fs/write_text_file"
    then write_answer host (decoders.write params) s
    else (method_not_found method, s)
