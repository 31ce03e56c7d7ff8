-- ===== src/Acpclient/Process.antt =====
-- `Start` and `Close` of internal/acpclient/agent.go, with the panic of
-- internal/acpclient/spawn_must.go: the agent's process. The operating system is a record of
-- operations on a state of its own.
pub mod Ended
mod Tests
use Prim.Native.String.{◌++◌ as ◌+++◌}
use poe_acp_relay.Base.{
  Result, ok, err, String, Bool, true, false, not, Option, none, some, List, [], ◌∷◌, if◌then◌else◌,
  ◌==◌,
}
use poe_acp_relay.Acpclient.{Connection, AgentProc, connect}

-- The fields of `Config` that `Start` reads; an environment that is not given is inherited.
pub record StartConfig : Type 0 where
  pub command : List String
  pub cwd : String
  pub env : Option (List String)
  pub has_policy : Bool

-- What the child is started with.
pub record Spawn : Type 0 where
  pub path : String
  pub args : List String
  pub dir : String
  pub env : Option (List String)

-- The calls of `os/exec` on one command. `wait_for` is the wait for the child's end or the timer,
-- whichever comes first, and says whether the child has ended; `wait` is the wait for its end.
pub record Processes (P : Type 0) : Type 0 where
  pub temp_dir : String
  pub stdin_pipe : P → Option String × P
  pub stdout_pipe : P → Option String × P
  pub spawn : Spawn → P → Option String × P
  pub interrupt : P → P
  pub wait_for : P → Bool × P
  pub kill : P → P
  pub wait : P → P

pub data Started (C : Type 0) : Type 0 where
  started : AgentProc C → Started C
  refused panicked : String → Started C

-- What `mustPipe` panics with.
must_pipe : String → String → String
must_pipe which e = "acpclient: " +++ (which +++ (" pipe: " +++ e))

spawn_of : String → StartConfig → String → List String → Spawn
spawn_of temp_dir cfg path args = record {
  path = path;
  args = args;
  dir = if cfg.cwd == "" then temp_dir else cfg.cwd;
  env = cfg.env;
}

module _ {P : Type 0} (os : Processes P) where
  module _ {C : Type 0} (c : Connection C) where
    -- The handshake with a child that runs; where it fails the child is killed.
    shake_hands : P → C → Started C × P
    shake_hands p conn = elim (connect c conn).0 [
      | ok a ↦ (started a, p)
      | err e ↦ (refused e, os.kill p)
    ]

    spawned : StartConfig → String → List String → P → C → Started C × P
    unfolding shake_hands spawn_of
    spawned cfg path args p conn =
        let (failed, p') = os.spawn (spawn_of os.temp_dir cfg path args) p in
        elim failed [ some e ↦ (refused ("start agent: " +++ e), p') | none ↦ shake_hands p' conn ]

    piped : StartConfig → String → List String → P → C → Started C × P
    unfolding spawned must_pipe
    piped cfg path args p conn =
        let (e1, p1) = os.stdin_pipe p in
        elim e1 [
          | some e ↦ (panicked (must_pipe "stdin" e), p1)
          | none ↦
              let (e2, p2) = os.stdout_pipe p1 in
              elim e2 [
                | some e ↦ (panicked (must_pipe "stdout" e), p2)
                | none ↦ spawned cfg path args p2 conn
              ]
        ]

    start_command : StartConfig → List String → P → C → Started C × P
    unfolding piped
    start_command cfg [] p conn = (refused "acpclient: empty Command", p)
    start_command cfg (path ∷ args) p conn =
        if cfg.has_policy then piped cfg path args p conn else (refused "acpclient: nil Policy", p)

    -- `Start`
    unfoldable pub start : StartConfig → P → C → Started C × P
    unfolding start_command
    start cfg p conn = start_command cfg cfg.command p conn

  -- `Close`; it never reports an error.
  unfoldable pub close : Bool → P → P
  close has_process p =
      if not has_process
      then p
      else (let (ended, p') = os.wait_for (os.interrupt p) in
          if ended then p' else os.wait (os.kill p'))
