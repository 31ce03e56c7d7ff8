-- ===== src/Acpclient/Process/Ended.antt =====
-- What is left of the agent's process when `Start` gives no client, and after `Close`.
use poe_acp_relay.Base.{
  err, Result-cases, Option-cases, Bool-cases, String, Bool, true, false, some, List, [], ◌∷◌, ◌≡◌,
  refl, ◌∙◌, ◌⊎◌, inl, inr,
}
use poe_acp_relay.Acpclient.{Connection, AgentProc, connect}
use poe_acp_relay.Acpclient.Process.{
  StartConfig, Spawn, Processes, Started, started, refused, spawn_of, shake_hands, spawned, piped,
  start_command, start, close,
}

-- What `os/exec` promises of a child: pipes and a start that fails make none, and the child has ended
-- once `Wait` has returned. Of `Kill`, which does not wait, nothing is taken.
pub record AreFaithful {P : Type 0} (os : Processes P) (alive : P → Bool) : Type 0 where
  pub stdin : (p : P) → alive (os.stdin_pipe p).1 ≡ alive p
  pub stdout : (p : P) → alive (os.stdout_pipe p).1 ≡ alive p
  pub failed :
      (s : Spawn) (p : P) (e : String)
      → (os.spawn s p).0 ≡ some e
      → alive (os.spawn s p).1 ≡ alive p
  pub waited : (p : P) → alive (os.wait p) ≡ false
  pub seen : (p : P) → (os.wait_for p).0 ≡ true → alive (os.wait_for p).1 ≡ false

module _ {P C : Type 0} (os : Processes P) (alive : P → Bool) (faithful : AreFaithful os alive)
    (c : Connection C) where
  -- The outcome is a client; or there is no child; or the handshake failed, which is the error, and the
  -- last call was `Kill`.
  abbrev pub IsClean : C → Started C × P → Type 0
  IsClean conn r =
      ((a : AgentProc C) × (r.0 ≡ started a))
      ⊎ ((alive r.1 ≡ false)
          ⊎ ((q : P) × (e : String) × ((connect c conn).0 ≡ err e)
              × (r.0 ≡ refused e)
              × (r.1 ≡ os.kill q)))

  shake_hands-IsClean : (p : P) (conn : C) → IsClean conn (shake_hands os c p conn)
  unfolding shake_hands
  shake_hands-IsClean p conn = elim (Result-cases (connect c conn).0) [
    | inl (a, e) ↦ rw (e, shake_hands) (inl (a, refl))
    | inr (x, e) ↦ rw (e, shake_hands) (inr (inr (p, x, refl, refl, refl)))
  ]

  spawned-IsClean :
      (cfg : StartConfig) (path : String) (args : List String) (p : P) (conn : C)
      → alive p ≡ false
      → IsClean conn (spawned os c cfg path args p conn)
  unfolding spawned
  spawned-IsClean cfg path args p conn dead =
      elim (Option-cases (os.spawn (spawn_of os.temp_dir cfg path args) p).0) [
        | inl e ↦ rw (e, spawned) (shake_hands-IsClean _ conn)
        | inr (x, e) ↦ rw (e, spawned) (inr (inl (faithful.failed _ p x e ∙ dead)))
      ]

  piped-IsClean :
      (cfg : StartConfig) (path : String) (args : List String) (p : P) (conn : C)
      → alive p ≡ false
      → IsClean conn (piped os c cfg path args p conn)
  unfolding piped
  piped-IsClean cfg path args p conn dead =
      let p1 = (os.stdin_pipe p).1 in
      let one = faithful.stdin p ∙ dead in
      let two = faithful.stdout p1 ∙ one in
      elim (Option-cases (os.stdin_pipe p).0) [
        | inr (x, e) ↦ rw (e, piped) (inr (inl one))
        | inl e ↦ elim (Option-cases (os.stdout_pipe p1).0) [
          | inr (x, d) ↦ rw (e, d, piped) (inr (inl two))
          | inl d ↦ rw (e, d, piped) (spawned-IsClean cfg path args _ conn two)
        ]
      ]

  start_command-IsClean :
      (cfg : StartConfig) (command : List String) (p : P) (conn : C)
      → alive p ≡ false
      → IsClean conn (start_command os c cfg command p conn)
  unfolding start_command
  start_command-IsClean cfg [] p conn dead = inr (inl dead)
  start_command-IsClean cfg (path ∷ args) p conn dead = elim (Bool-cases cfg.has_policy) [
    | inl e ↦ rw e (piped-IsClean cfg path args p conn dead)
    | inr e ↦ rw e (inr (inl dead))
  ]

  close-ended : (p : P) → alive (close os true p) ≡ false
  unfolding close
  close-ended p =
      let q = os.interrupt p in
      elim (Bool-cases (os.wait_for q).0) [
        | inl e ↦ rw e (faithful.seen q e)
        | inr e ↦ rw e (faithful.waited _)
      ]

  -- With calls of `os/exec` that keep their promises, and no child to begin with: a start gives a
  -- client; or there is no child; or it fails with the error of the handshake, and the last call was a
  -- `Kill` of the child, whose end is not waited for. Once `Close` of a client has returned there is no
  -- child.
  pub start-close :
      (cfg : StartConfig) (p : P) (conn : C)
      → alive p ≡ false
      → IsClean conn (start os c cfg p conn)
        × (alive (close os true (start os c cfg p conn).1) ≡ false)
  unfolding start
  start-close cfg p conn dead = (start_command-IsClean cfg cfg.command p conn dead, close-ended _)
