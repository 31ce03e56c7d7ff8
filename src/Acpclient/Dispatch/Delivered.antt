-- ===== src/Acpclient/Dispatch/Delivered.antt =====
-- The way of an update from the agent's notification to the sink of a turn: `dispatch` and
-- `sessionUpdate` of internal/acpclient/agent.go, with `OnUpdate` and `drainChunks` of
-- internal/router/router.go behind them.
mod Tests
use poe_acp_relay.Base.{
  Result, ok, err, ◌≡◌, refl, sym, ap, ◌∙◌, ℕ, String, true, false, arith, Option, none, some, List,
  [], ◌∷◌, ◌++◌, map, append_assoc, append-nil, map-append, Option-cases, Result-cases,
  if◌then◌else◌, nat_eq, Bool-cases, inl, inr,
}
use poe_acp_relay.Router.Drain.{
  Update, TurnDef, ChunkMsg, notif, begin_turn, end_turn, new_drain, drain_chunks, on_update,
  tagged,
}
use poe_acp_relay.Router.Drain.Turns.{turn_output, turn_msgs, drain_chunks-turn_msgs_late}
use poe_acp_relay.Policy.{Policy}
use poe_acp_relay.Acpclient.{AgentProc, sink_for}
use poe_acp_relay.Acpclient.Dispatch.{Host, Decoders, update_answer, session_update, dispatch}

-- What waits in the channel of each session; a session is the sink of its own updates.
abbrev pub Waiting : Type 0
Waiting = ℕ → List ChunkMsg

-- The session's `OnUpdate`, while its goroutine is there.
deliver : ℕ → Update → Waiting → Option String × Waiting
deliver k u s = (none, λ j. if nat_eq k j then on_update false u (s j) else s j)

-- A message of the router to the goroutine of one session.
abbrev pub send : ℕ → ChunkMsg → Waiting → Waiting
send k m s j = if nat_eq k j then s j ++ m ∷ [] else s j

-- The sinks of a host are the sessions.
abbrev session_host : Host Waiting → Host Waiting
session_host host = record host { on_update = deliver }

module _ {C : Type 0} (decoders : Decoders) (a : AgentProc C) where
  -- What a notification says to one session.
  update_for : ℕ → Result (String × Update) → List Update
  update_for k (err e) = []
  update_for k (ok (sid, u)) = elim (sink_for a sid) [
    | none ↦ []
    | some sink ↦ if nat_eq sink k then u ∷ [] else []
  ]

  pub updates_for : ℕ → List String → List Update
  unfolding update_for
  updates_for k [] = []
  updates_for k (params ∷ rest) = update_for k (decoders.update params) ++ updates_for k rest

  module _ (host : Host Waiting) (to_lower : String → String) (policy : Policy) where
    -- Notifications, in the order in which their handlers reach the channels.
    pub dispatch_all : List String → Waiting → Waiting
    unfolding deliver
    dispatch_all [] s = s
    dispatch_all (params ∷ rest) s =
        dispatch_all rest
          (dispatch (session_host host) decoders to_lower policy a "session/update" params s).1

    deliver-update :
        (sid : String) (u : Update) (s : Waiting) (k : ℕ)
        → (update_answer (session_host host) a (ok (sid, u)) s).1 k
          ≡ s k ++ map notif (update_for k (ok (sid, u)))
    unfolding update_answer session_update deliver on_update update_for
    deliver-update sid u s k = elim (Option-cases (sink_for a sid)) [
      | inl e ↦ rw (e, map, update_answer, session_update) (sym (append-nil (s k)))
      | inr (sink, e) ↦ elim (Bool-cases (nat_eq sink k)) [
        | inl same ↦ rw (e, update_answer, session_update, deliver, same, map) refl
        | inr other ↦ rw (e, other, map, update_answer, session_update) (sym (append-nil (s k)))
      ]
    ]

    dispatch-update_for :
        (params : String) (s : Waiting) (k : ℕ)
        → (dispatch (session_host host) decoders to_lower policy a "session/update" params s).1 k
          ≡ s k ++ map notif (update_for k (decoders.update params))
    unfolding dispatch
    dispatch-update_for params s k = elim (Result-cases (decoders.update params)) [
      | inl ((sid, u), h) ↦ rw h (deliver-update sid u s k)
      | inr (e, h) ↦ rw h (unfold update_answer update_for in sym (append-nil (s k)))
    ]

    -- The channel of a session gets the updates that are its own, in the order of their handlers.
    dispatch_all-updates_for :
        (all : List String) (s : Waiting) (k : ℕ)
        → dispatch_all all s k ≡ s k ++ map notif (updates_for k all)
    unfolding dispatch_all updates_for
    dispatch_all-updates_for [] s k = sym (append-nil (s k))
    dispatch_all-updates_for (params ∷ rest) s k =
        dispatch_all-updates_for rest _ k
        ∙ ap (λ l. l ++ map notif (updates_for k rest)) (dispatch-update_for params s k)
        ∙ append_assoc (s k) (map notif (update_for k (decoders.update params))) _
        ∙ ap (λ l. s k ++ l) (sym (map-append notif (update_for k (decoders.update params)) _))

    -- The channel of a session, from empty, through one turn of it.
    channel_lem :
        (before during after : List String) (k ack : ℕ) (td : TurnDef)
        → dispatch_all after
            (send k
              (end_turn ack)
              (dispatch_all during (send k (begin_turn td) (dispatch_all before (λ j. [])))))
            k
          ≡ turn_msgs (record {
            late = updates_for k before;
            td = td;
            chunks = updates_for k during;
            ack = ack;
          })
            ++ map notif (updates_for k after)
    channel_lem before during after k ack td =
        let s1 = dispatch_all before (λ j. []) in
        let s2 = dispatch_all during (send k (begin_turn td) s1) in
        let own : nat_eq k k ≡ true = ground arith in
        let one : s1 k ≡ map notif (updates_for k before) =
          dispatch_all-updates_for before (λ j. []) k in
        let two : s2 k ≡ (s1 k ++ begin_turn td ∷ []) ++ map notif (updates_for k during) =
          dispatch_all-updates_for during (send k (begin_turn td) s1) k
          ∙ ap
              (λ b.
                (if b then s1 k ++ begin_turn td ∷ [] else s1 k)
                ++ map notif (updates_for k during))
              own in
        dispatch_all-updates_for after (send k (end_turn ack) s2) k
        ∙ ap
            (λ b.
              (if b then s2 k ++ end_turn ack ∷ [] else s2 k) ++ map notif (updates_for k after))
            own
        ∙ ap (λ l. (l ++ end_turn ack ∷ []) ++ map notif (updates_for k after))
            (two ∙ ap (λ l. (l ++ begin_turn td ∷ []) ++ map notif (updates_for k during)) one)
        ∙ simp (append_assoc) refl

    -- A turn of one session, on a channel that was empty: whatever notifications to whatever sessions
    -- have been handled before the turn's begin, between its begin and its end, and after its end, and
    -- in whatever order their handlers came, the sink of the turn gets exactly the calls for its own
    -- session's updates that were handled between, in that order.
    pub drain_chunks-dispatch_all :
        (before during after : List String) (k ack : ℕ) (td : TurnDef)
        → (drain_chunks new_drain (
            dispatch_all after
              (send k
                (end_turn ack)
                (dispatch_all during (send k (begin_turn td) (dispatch_all before (λ j. [])))))
              k)).out
          ≡ tagged td.sink (turn_output td (updates_for k during))
    drain_chunks-dispatch_all before during after k ack td =
        ap (λ l. (drain_chunks new_drain l).out) (channel_lem before during after k ack td)
        ∙ drain_chunks-turn_msgs_late
            (record {
              late = updates_for k before;
              td = td;
              chunks = updates_for k during;
              ack = ack;
            })
            (updates_for k after)
