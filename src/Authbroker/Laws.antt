-- ===== src/Authbroker/Laws.antt =====
-- What a turn does to the pending logins, and what of the first call comes back in the second.
use poe_acp_relay.Base.{
  ok, String, ◌≡◌, refl, ap, ◌∙◌, ◌↔◌, false, none, some, arith, if◌then◌else◌, ◌==◌, eq_iff,
  eq_refl, eq-cases, lookup, insert, delete, lookup-insert, lookup-delete, Option-cases, Bool-cases,
  inl, inr,
}
use poe_acp_relay.Base.Text.{trim_space}
use poe_acp_relay.Base.Text.Trimming.{trim_space_idem}
use poe_acp_relay.Authbroker.{
  has_pending, AuthResult, Authenticator, PendingEntry, Outcome, Broker, is_login_command,
  resolve_method_id, started, start_method, start, complete, cancel, handle_command, handle,
}

-- Blanks around a text do not make it a login command, or keep it from being one.
pub is_login_command-trim_space :
    (text : String) → is_login_command (trim_space text) ≡ is_login_command text
unfolding is_login_command
is_login_command-trim_space text = rw (trim_space_idem text) refl

module _ {A : Type 0} (auth : Authenticator A) where
  complete_pending :
      (b : Broker A) (conv j : String) (e : PendingEntry) (t : String)
      → lookup j (complete auth b conv e t).1.pending
        ≡ (if t == "" then lookup j b.pending else lookup j (delete conv b.pending))
  unfolding complete
  complete_pending b conv j e t = ground arith

  cancel_pending :
      (b : Broker A) (conv j : String) (e : PendingEntry)
      → lookup j (cancel auth b conv e).1.pending ≡ lookup j (delete conv b.pending)
  unfolding cancel
  cancel_pending b conv j e = ground arith

  complete_by :
      (b : Broker A) (conv : String) (e : PendingEntry) (t : String)
      → t == "" ≡ false
      → (complete auth b conv e t).1.agent
        ≡ (auth.authenticate b.agent e.method_id e.auth_id t false).1
  unfolding complete
  complete_by b conv e t h = ground (arith, h)

  -- A turn of a conversation with a pending login is always an auth turn, whatever the agent answers:
  -- its result is an outcome, never an error and never left to the prompt path. It ends the login
  -- unless it is blank, and no other conversation's login changes.
  pub handle_pending :
      (b : Broker A) (conv text j : String) (e : PendingEntry)
      → lookup conv b.pending ≡ some e
      → ((o : Outcome) × ((handle auth b conv text).0 ≡ ok (some o)))
        × (lookup j (handle auth b conv text).1.pending ≡ (
            if conv == j
            then (if trim_space text == "" then some e else none)
            else lookup j b.pending))
  unfolding handle
  handle_pending b conv text j e h =
      rw (h, handle)
        elim (eq-cases (trim_space text) "/cancel-login") [
          | inl q ↦ rw q (
            ((cancel auth b conv e).0, refl),
            cancel_pending b conv j e ∙ (lookup-delete conv j b.pending),
          )
          | inr q ↦ rw q (
            ((complete auth b conv e (trim_space text)).0, refl),
            complete_pending b conv j e (trim_space text)
                ∙ ground (arith, h, eq_iff conv j, lookup-delete conv j b.pending),
          )
        ]

  -- A turn is left to the prompt path exactly when its conversation has no pending login and its
  -- text, trimmed, is not a login command.
  pub handle_forwards :
      (b : Broker A) (conv text : String)
      → (handle auth b conv text).0 ≡ ok none
        ↔ ((lookup conv b.pending ≡ none) × (is_login_command (trim_space text) ≡ false))
  unfolding handle handle_command
  handle_forwards b conv text = elim (Option-cases (lookup conv b.pending)) [
    | inr (e, h) ↦ rw (h, handle) ground arith
    | inl h ↦
        rw (h, handle)
          elim (Bool-cases (is_login_command (trim_space text))) [
            | inr q ↦ rw (q, handle_command) ((λ _. (refl, refl)), (λ _. refl))
            | inl q ↦ rw (q, handle_command) (ground arith)
          ]
  ]

  start_redirect :
      (b : Broker A) (conv provider method : String) (res : AuthResult) (a : A)
      → lookup conv b.pending ≡ none
      → resolve_method_id auth b.agent provider ≡ ok method
      → auth.authenticate b.agent method "" "" false ≡ (ok res, a)
      → res.state ≡ "needs_redirect"
      → (start auth b conv provider).1 ≡ record {
        pending = insert conv (record { method_id = method; auth_id = res.id }) b.pending;
        agent = a;
      }
  unfolding start start_method started
  start_redirect b conv provider method res a h p k r =
      rw (start, p, start_method, h, k, started, r)
        (ap
          (λ x.
            (let e : PendingEntry = record { method_id = method; auth_id = res.id } in
              let b' : Broker A = record { pending = insert conv e b.pending; agent = x.1 } in b'))
          k)

  handle_second :
      (b : Broker A) (conv text : String) (e : PendingEntry)
      → lookup conv b.pending ≡ some e
      → (trim_space text == "") ≡ false
      → (trim_space text == "/cancel-login") ≡ false
      → (handle auth b conv text).1.agent
        ≡ (auth.authenticate b.agent e.method_id e.auth_id (trim_space text) false).1
  unfolding handle
  handle_second b conv text e h t c = rw (h, handle) rw c (complete_by b conv e (trim_space text) t)

  -- When `start`, on a provider that resolves to a method, was answered with a redirect, the conversation's next turn, neither blank nor
  -- `/cancel-login`, reaches the agent as the second call of that login: with the method of the first
  -- call, the login id that the agent gave then, and the trimmed text.
  pub handle-start :
      (b : Broker A) (conv provider method text : String) (res : AuthResult) (a : A)
      → lookup conv b.pending ≡ none
      → resolve_method_id auth b.agent provider ≡ ok method
      → auth.authenticate b.agent method "" "" false ≡ (ok res, a)
      → res.state ≡ "needs_redirect"
      → (trim_space text == "") ≡ false
      → (trim_space text == "/cancel-login") ≡ false
      → (handle auth (start auth b conv provider).1 conv text).1.agent
        ≡ (auth.authenticate a method res.id (trim_space text) false).1
  handle-start b conv provider method text res a h p k r t c =
      let e : PendingEntry = record { method_id = method; auth_id = res.id } in
      rw (start_redirect b conv provider method res a h p k r) (
        handle_second (record { pending = insert conv e b.pending; agent = a }) conv text e
          (lookup-insert conv conv e b.pending ∙ ground (arith, eq_refl conv)) t c)

  -- A conversation without an entry waits for no redirect.
  pub has_pending-lookup :
      (b : Broker A) (conv : String)
      → lookup conv b.pending ≡ none
      → has_pending auth b conv ≡ false
  unfolding has_pending
  has_pending-lookup b conv h = rw (h, has_pending) refl
