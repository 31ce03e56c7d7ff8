-- ===== src/Router/Setup/Swept.antt =====
-- How long attachments last against the sessions that may name them.
use poe_acp_relay.Base.{
  ◌≡◌, refl, sym, ◌∙◌, subst, inl, inr, Result, ok, err, ℕ, ◌+◌, ◌≤◌, ◌<◌, String, Bool, true, ◌&&◌,
  Option, some, ltb, [], ◌∷◌, ◌==◌, arith, Bool-cases, Option-cases,
}
use poe_acp_relay.Base.Paths.{join}
use poe_acp_relay.Router.Queue.{idle}
use poe_acp_relay.Router.Sessions.{SessionState, is_expired}
use poe_acp_relay.Router.Sweep.{DirEntry, is_past}
use poe_acp_relay.Router.Setup.{
  RawConfig, Settled, settled_session_ttl, settled_attachment_ttl, new_router,
}

settled_attachment_ttl_lem :
    (session_ttl ttl : ℕ) → session_ttl ≤ settled_attachment_ttl session_ttl ttl
unfolding settled_attachment_ttl
settled_attachment_ttl_lem session_ttl ttl = ground arith

IsSettled : Result Settled → Type 0
IsSettled (ok s) = s.config.session_ttl ≤ s.attachment_ttl
IsSettled (err e) = Unit

new_router-IsSettled :
    (mkdir : String → Option String) (raw : RawConfig) → IsSettled (new_router mkdir raw)
unfolding new_router IsSettled
new_router-IsSettled mkdir raw = elim (Bool-cases raw.has_agent) [
  | inr e ↦ rw (e, IsSettled) tt
  | inl e ↦ elim (Bool-cases (raw.state_dir == "")) [
    | inl d ↦ rw (e, d, IsSettled) tt
    | inr d ↦ elim (Option-cases (mkdir (join (raw.state_dir ∷ "convs" ∷ [])))) [
      | inr (_, m) ↦ rw (e, d, m, IsSettled) tt
      | inl m ↦
          rw (e, d, m, IsSettled)
            (settled_attachment_ttl_lem (settled_session_ttl raw.session_ttl) raw.attachment_ttl)
    ]
  ]
]

is_past-written :
    (ttl now : ℕ) (e : DirEntry) (regular : Bool) (written : ℕ)
    → e.info ≡ some (regular, written)
    → is_past ttl now e ≡ true
    → written + ttl < now
unfolding is_past
is_past-written ttl now e regular written info past =
    let read : is_past ttl now e ≡ (regular && ltb (written + ttl) now) = rw info refl in
    ground (arith, sym read ∙ past)

-- With what `New` makes of any configuration, a file of an attachment is past its time only when each
-- idle session that was last used no later than the file was written has expired.
pub is_past-is_expired :
    (mkdir : String → Option String) (raw : RawConfig) (cfg : Settled) (e : DirEntry)
    (st : SessionState) (regular : Bool) (written now : ℕ)
    → new_router mkdir raw ≡ ok cfg
    → e.info ≡ some (regular, written)
    → is_past cfg.attachment_ttl now e ≡ true
    → st.last_used ≤ written
    → idle st.queue ≡ true
    → is_expired cfg.config now st ≡ true
unfolding IsSettled
is_past-is_expired mkdir raw cfg e st regular written now made info past used quiet =
    let kept = subst IsSettled made (new_router-IsSettled mkdir raw) in
    let late = is_past-written cfg.attachment_ttl now e regular written info past in
    rw quiet (ground (arith, kept, late, used))
