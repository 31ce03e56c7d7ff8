-- ===== src/Router/Sessions/Map.antt =====
-- The map of sessions: what `install`, `touch` and `gcOnce` do to it, entry by entry.
use poe_acp_relay.Base.{
  ℕ, ◌+◌, ◌<◌, String, ◌≡◌, refl, sym, subst, ap, ◌∙◌, Bool, true, false, List, is_empty, ◌&&◌,
  Option, none, some, [], ◌∷◌, arith, any, if◌then◌else◌, ◌==◌, eq_iff, eq-cases, eq-false, Dict,
  lookup, insert, delete, lookup-insert, lookup-delete, IsMap, insert-IsMap, delete-IsMap,
  Option-cases, Bool-cases, inl, inr,
}
use poe_acp_relay.Router.Types.{TurnReq}
use poe_acp_relay.Router.Queue.{idle}
use poe_acp_relay.Router.Sessions.{
  Config, SessionState, install, touch, is_expired, gc_loop, gc_once,
}

-- `install` puts the winner under its conversation and leaves the other entries: an entry that is there
-- wins over a new one and is not replaced.
pub lookup-install :
    (m : Dict SessionState) (conv j : String) (st : SessionState)
    → lookup j (install m conv st).sessions
      ≡ (if conv == j then some (install m conv st).winner else lookup j m)
unfolding install
lookup-install m conv j st = elim (Option-cases (lookup conv m)) [
  | inl e ↦ rw (e, install) (lookup-insert conv j st m)
  | inr (w, e) ↦ rw (e, install) (ground (arith, eq_iff conv j))
]

-- Some entry of the list with this key is expired.
abbrev is_doomed : Config → ℕ → String → Dict SessionState → Bool
is_doomed cfg now j es = any (λ e. e.0 == j && is_expired cfg now e.1) es

lookup-gc_loop :
    (cfg : Config) (now : ℕ) (j : String) (es m : Dict SessionState)
    → lookup j (gc_loop cfg now es m).0 ≡ (if is_doomed cfg now j es then none else lookup j m)
unfolding gc_loop
lookup-gc_loop cfg now j [] m = refl
lookup-gc_loop cfg now j ((k, st) ∷ es) m = elim (Bool-cases (is_expired cfg now st)) [
  | inl e ↦ rw e (lookup-gc_loop cfg now j es (delete k m) ∙ ground (arith, lookup-delete k j m))
  | inr e ↦ rw e (lookup-gc_loop cfg now j es m ∙ ground arith)
]

-- What becomes of an entry.
abbrev pub survivor : Config → ℕ → Option SessionState → Option SessionState
survivor cfg now none = none
survivor cfg now (some st) = if is_expired cfg now st then none else some st

is_doomed-missing :
    (cfg : Config) (now : ℕ) (j : String) (m : Dict SessionState)
    → lookup j m ≡ none
    → is_doomed cfg now j m ≡ false
unfolding lookup
is_doomed-missing cfg now j [] h = refl
is_doomed-missing cfg now j ((k, st) ∷ m) h = elim (Bool-cases (k == j)) [
  | inl e ↦ absurd (ground arith)
  | inr e ↦ rw e (is_doomed-missing cfg now j m (rw e at h))
]

is_doomed-lookup :
    (cfg : Config) (now : ℕ) (j : String) (m : Dict SessionState)
    → IsMap m
    → (if is_doomed cfg now j m then none else lookup j m) ≡ survivor cfg now (lookup j m)
unfolding lookup
is_doomed-lookup cfg now j [] h = refl
is_doomed-lookup cfg now j ((k, st) ∷ m) (fresh, h) = elim (Bool-cases (k == j)) [
  | inl e ↦
      let gone =
        is_doomed-missing cfg now j m (subst (λ x. lookup x m ≡ none) ((eq_iff k j).0 e) fresh) in
      rw (e, gone) (elim (Bool-cases (is_expired cfg now st)) [ inl x ↦ rw x | inr x ↦ rw x ])
  | inr e ↦ rw e (is_doomed-lookup cfg now j m h)
]

lookup-gc_once-survivor :
    (cfg : Config) (now : ℕ) (j : String) (m : Dict SessionState)
    → IsMap m
    → lookup j (gc_once cfg now m).0 ≡ survivor cfg now (lookup j m)
unfolding gc_once
lookup-gc_once-survivor cfg now j m h =
    lookup-gc_loop cfg now j m m ∙ is_doomed-lookup cfg now j m h

-- A session that may go: no turn of it runs, none waits, and it was last used longer ago than the TTL.
abbrev pub IsUnused : Config → ℕ → SessionState → Type 0
IsUnused cfg now st =
    (st.queue.q ≡ []) × (st.queue.in_flight ≡ false) × (st.last_used + cfg.session_ttl < now)

is_expired-IsUnused :
    (cfg : Config) (now : ℕ) (st : SessionState)
    → is_expired cfg now st ≡ true
    → IsUnused cfg now st
unfolding idle
is_expired-IsUnused cfg now st h =
    (empty_nil st.queue.q (ground (arith, h)), ground (arith, h), ground (arith, h))
  where
    empty_nil : (l : List TurnReq) → is_empty l ≡ true → l ≡ []
    empty_nil [] h = refl
    empty_nil (x ∷ l) h = absurd (cc)

IsUnused-is_expired :
    (cfg : Config) (now : ℕ) (st : SessionState)
    → IsUnused cfg now st
    → is_expired cfg now st ≡ true
unfolding idle
IsUnused-is_expired cfg now st (none_wait, none_runs, old) =
    rw (none_wait, none_runs) (ground (arith, old))

-- What a sweep does to a conversation: where it has no session it gets none; an unused session goes, and
-- any other stays as it is.
pub data IsSwept (cfg : Config) (now : ℕ) : Option SessionState → Option SessionState → Type 0 where
  missing : IsSwept cfg now none none
  dropped : {st : SessionState} → IsUnused cfg now st → IsSwept cfg now (some st) none
  kept : {st : SessionState} → ¬ IsUnused cfg now st → IsSwept cfg now (some st) (some st)

survivor-IsSwept :
    (cfg : Config) (now : ℕ) (o : Option SessionState) → IsSwept cfg now o (survivor cfg now o)
survivor-IsSwept cfg now none = missing
survivor-IsSwept cfg now (some st) = elim (Bool-cases (is_expired cfg now st)) [
  | inl e ↦ rw e (dropped (is_expired-IsUnused cfg now st e))
  | inr e ↦ rw e (kept (λ u. absurd (ground (arith, e, IsUnused-is_expired cfg now st u))))
]

-- A sweep drops exactly the sessions without a queued or a running turn that were last used longer ago
-- than the TTL; any other stays as it is, and none is added.
pub lookup-gc_once :
    (cfg : Config) (now : ℕ) (j : String) (m : Dict SessionState)
    → IsMap m
    → IsSwept cfg now (lookup j m) (lookup j (gc_once cfg now m).0)
lookup-gc_once cfg now j m h =
    subst (IsSwept cfg now (lookup j m)) (sym (lookup-gc_once-survivor cfg now j m h))
      (survivor-IsSwept cfg now (lookup j m))

gc_loop-IsMap :
    (cfg : Config) (now : ℕ) (es m : Dict SessionState) → IsMap m → IsMap (gc_loop cfg now es m).0
unfolding gc_loop
gc_loop-IsMap cfg now [] m h = h
gc_loop-IsMap cfg now ((k, st) ∷ es) m h =
    gc_loop-IsMap cfg now es _ (elim (Bool-cases (is_expired cfg now st)) [
      | inl e ↦ rw e (delete-IsMap k m h)
      | inr e ↦ rw e h
    ])

-- What the router's operations keep of the map: a key stands once, each entry is filed under its own
-- conversation, and no conversation is unnamed.
pub record IsFiled (m : Dict SessionState) : Type 0 where
  pub unique : IsMap m
  pub named : lookup "" m ≡ none
  pub filed : (j : String) (st : SessionState) → lookup j m ≡ some st → st.conv_id ≡ j

insert-IsFiled :
    (m : Dict SessionState) (st : SessionState)
    → (st.conv_id == "") ≡ false
    → IsFiled m
    → IsFiled (insert st.conv_id st m)
insert-IsFiled m st h f = record {
  unique = insert-IsMap st.conv_id st m f.unique;
  named = lookup-insert st.conv_id "" st m ∙ rw h f.named;
  filed = λ j x e. elim (eq-cases st.conv_id j) [
    | inl k ↦ ground (arith, lookup-insert st.conv_id j st m, eq_iff st.conv_id j)
    | inr k ↦ f.filed j x (ground (arith, lookup-insert st.conv_id j st m, eq_iff st.conv_id j))
  ];
}

pub install-IsFiled :
    (m : Dict SessionState) (st : SessionState)
    → (st.conv_id == "") ≡ false
    → IsFiled m
    → IsFiled (install m st.conv_id st).sessions
unfolding install
install-IsFiled m st h f = elim (Option-cases (lookup st.conv_id m)) [
  | inl e ↦ rw (e, install) (insert-IsFiled m st h f)
  | inr (w, e) ↦ rw (e, install) f
]

absent : {st : SessionState} → ◌≡◌ {A = Option SessionState} none (some st) → ⊥
absent e = cc

pub touch-IsFiled :
    (m : Dict SessionState) (conv : String) (now : ℕ) → IsFiled m → IsFiled (touch m conv now)
unfolding touch
touch-IsFiled m conv now f = elim (Option-cases (lookup conv m)) [
  | inl e ↦ rw (e, touch) f
  | inr (st, e) ↦
      let same = f.filed conv st e in
      let touched : SessionState = record st { last_used = now } in
      rw (e, touch)
        (subst (λ k. IsFiled (insert k touched m)) same
          (insert-IsFiled m touched
            (eq-false st.conv_id ""
              (λ u. absent (sym f.named ∙ ap (λ k. lookup k m) (sym u ∙ same) ∙ e)))
            f))
]

pub gc_once-IsFiled :
    (cfg : Config) (now : ℕ) (m : Dict SessionState) → IsFiled m → IsFiled (gc_once cfg now m).0
gc_once-IsFiled cfg now m f = record {
  unique = unfold gc_once in gc_loop-IsMap cfg now m m f.unique;
  named = lookup-gc_once-survivor cfg now "" m f.unique ∙ ap (survivor cfg now) f.named;
  filed = λ j st e.
      f.filed j st
        (survived (lookup j m) st (sym (lookup-gc_once-survivor cfg now j m f.unique) ∙ e));
}
  where
    survived :
        (o : Option SessionState) (st : SessionState) → survivor cfg now o ≡ some st → o ≡ some st
    survived none st e = e
    survived (some x) st e = ground arith
