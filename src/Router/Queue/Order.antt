-- ===== src/Router/Queue/Order.antt =====
-- The order of the queue: what `push` appends, what it sheds, and what becomes of user turns.
use poe_acp_relay.Base.{
  ◌≤◌, ◌≡◌, refl, sym, ap, ◌∙◌, ◌↔◌, true, false, none, some, List, [], ◌∷◌, ◌++◌, arith, length,
  filter, filter-append, All, append-nil, Option-cases, inl, inr, ◌⊎◌, ◌<◌, Bool-cases, dec_lt,
}
use poe_acp_relay.Router.Types.{
  TurnKind, TurnReq, turn_user, turn_reaction, is_user_req, session_queue_cap,
}
use poe_acp_relay.Router.Queue.{
  SessionQueue, Pushed, mark_shed, take_reaction, append_req, reject_req, push_full, push, idle,
  stop,
}

-- The split of a list at its oldest reaction.
pub record OldestReaction (rs : List TurnReq) (d : TurnReq) (rest : List TurnReq) : Type 0 where
  pub before : List TurnReq
  pub after : List TurnReq
  pub whole : rs ≡ before ++ d ∷ after
  pub left : rest ≡ before ++ after
  pub users : All (λ r. r.kind ≡ turn_user) before
  pub reaction : d.kind ≡ turn_reaction

TurnKind-cases : (k : TurnKind) → (k ≡ turn_reaction) ⊎ (k ≡ turn_user)
TurnKind-cases turn_reaction = inl refl
TurnKind-cases turn_user = inr refl

-- What `take_reaction` finds behind a user turn, in terms of the rest of the queue.
take_reaction-user :
    (r : TurnReq) (rs : List TurnReq) (d : TurnReq) (rest : List TurnReq)
    → r.kind ≡ turn_user
    → take_reaction (r ∷ rs) ≡ some (d, rest)
    → (later : List TurnReq) × (take_reaction rs ≡ some (d, later)) × (rest ≡ r ∷ later)
unfolding take_reaction
take_reaction-user r rs d rest u e = elim (Option-cases (take_reaction rs)) [
  | inl missed ↦ ground arith
  | inr ((d', later), found) ↦ (later, ground arith, ground arith)
]

take_reaction-reaction :
    (r : TurnReq) (rs : List TurnReq) (d : TurnReq) (rest : List TurnReq)
    → r.kind ≡ turn_reaction
    → take_reaction (r ∷ rs) ≡ some (d, rest)
    → (d ≡ r) × (rest ≡ rs)
unfolding take_reaction
take_reaction-reaction r rs d rest u e = (ground arith, ground arith)

pub take_reaction-OldestReaction :
    (rs : List TurnReq) (d : TurnReq) (rest : List TurnReq)
    → take_reaction rs ≡ some (d, rest)
    → OldestReaction rs d rest
take_reaction-OldestReaction [] d rest e = absurd (unfold take_reaction in cc)
take_reaction-OldestReaction (r ∷ rs) d rest e = elim (TurnKind-cases r.kind) [
  | inl here ↦
      let (same, left) = take_reaction-reaction r rs d rest here e in
      record {
        before = [];
        after = rs;
        whole = ap (λ x. x ∷ rs) (sym same);
        left = left;
        users = tt;
        reaction = rw same here;
      }
  | inr user ↦
      let (later, found, left) = take_reaction-user r rs d rest user e in
      let o = take_reaction-OldestReaction rs d later found in
      record {
        before = r ∷ o.before;
        after = o.after;
        whole = ap (λ l. r ∷ l) o.whole;
        left = left ∙ ap (λ l. r ∷ l) o.left;
        users = (user, o.users);
        reaction = o.reaction;
      }
]

pub take_reaction-none :
    (rs : List TurnReq) → take_reaction rs ≡ none → All (λ r. r.kind ≡ turn_user) rs
unfolding take_reaction
take_reaction-none [] e = tt
take_reaction-none (r ∷ rs) e = ground (arith, take_reaction-none rs)

take_reaction_of_All :
    (rs : List TurnReq) → All (λ r. r.kind ≡ turn_user) rs → take_reaction rs ≡ none
unfolding take_reaction
take_reaction_of_All [] h = refl
take_reaction_of_All (r ∷ rs) (u, h) = ground (arith, take_reaction_of_All rs h)

pub filter-OldestReaction :
    {rs : List TurnReq} {d : TurnReq} {rest : List TurnReq}
    → OldestReaction rs d rest
    → filter is_user_req rest ≡ filter is_user_req rs
filter-OldestReaction {d} o =
    rw (o.whole, o.left)
      (ground (
        arith,
        filter-append is_user_req o.before o.after,
        filter-append is_user_req o.before (d ∷ o.after),
        o.reaction,
      ))

-- An open queue keeps its user turns in order and takes a new one behind them, however full it is.
-- A reaction displaces none.
pub filter-push :
    (sq : SessionQueue) (req : TurnReq)
    → sq.stopped ≡ false
    → filter is_user_req (push sq req).queue.q
      ≡ filter is_user_req sq.q ++ filter is_user_req (req ∷ [])
unfolding push push_full append_req reject_req
filter-push sq req h = elim (Option-cases (take_reaction sq.q)) [
  | inl missed ↦
      ground
        (arith, filter-append is_user_req sq.q (req ∷ []), append-nil (filter is_user_req sq.q))
  | inr ((d, rest), found) ↦ ground (
    arith,
    filter-append is_user_req sq.q (req ∷ []),
    filter-append is_user_req rest (req ∷ []),
    filter-OldestReaction (take_reaction-OldestReaction sq.q d rest found),
  )
]

-- When `push` sheds a request, the queue was open and full, the request is its oldest reaction, it
-- comes back marked shed and done, and the queue is what was left with the new request at its end.
pub push-OldestReaction :
    (sq : SessionQueue) (req d : TurnReq)
    → (push sq req).dropped ≡ some d
    → (r : TurnReq) × (rest : List TurnReq) × (d ≡ mark_shed r)
      × OldestReaction sq.q r rest
      × ((push sq req).queue.q ≡ rest ++ req ∷ [])
      × (session_queue_cap ≤ length sq.q)
      × (sq.stopped ≡ false)
unfolding push push_full append_req reject_req
push-OldestReaction sq req d e = elim (Option-cases (take_reaction sq.q)) [
  | inl missed ↦ absurd (ground arith)
  | inr ((r, rest), found) ↦ (
    r,
    rest,
    ground arith,
    take_reaction-OldestReaction sq.q r rest found,
    ground arith,
    ground arith,
    ground arith,
  )
]

-- A push is accepted, or changes nothing.
push_outcome :
    (sq : SessionQueue) (req : TurnReq)
    → ((push sq req).accepted ≡ true)
      ⊎ (((push sq req).queue ≡ sq) × ((push sq req).dropped ≡ none))
unfolding push push_full append_req reject_req
push_outcome sq req = elim (Option-cases (take_reaction sq.q)) [
  | inl missed ↦ ground (arith, missed)
  | inr ((r, rest), found) ↦ ground (arith, found)
]

-- `push` refuses a request exactly when the queue is stopped, or full of user turns while the
-- request is a reaction; a push that is refused leaves the queue as it was and drops nothing.
pub push-refuses_iff :
    (sq : SessionQueue) (req : TurnReq)
    → (((push sq req).accepted ≡ false) ↔ (
        (sq.stopped ≡ true)
        ⊎ ((req.kind ≡ turn_reaction)
            × (session_queue_cap ≤ length sq.q)
            × All (λ r. r.kind ≡ turn_user) sq.q)))
      × (((push sq req).accepted ≡ true)
          ⊎ (((push sq req).queue ≡ sq) × ((push sq req).dropped ≡ none)))
unfolding push push_full append_req reject_req
push-refuses_iff sq req = elim (Option-cases (take_reaction sq.q)) [
  | inl missed ↦ (
    (λ e. ground (arith, take_reaction-none sq.q missed), λ h. ground (arith, missed)),
    push_outcome sq req,
  )
  | inr ((r, rest), found) ↦
      ((λ e. ground arith, λ h. ground (arith, take_reaction_of_All sq.q)), push_outcome sq req)
]

-- The outcomes of `push`.
module _ (sq : SessionQueue) (req : TurnReq) where
  abbrev IsFull : Type 0
  IsFull = session_queue_cap ≤ length sq.q

  push_room :
      sq.stopped ≡ false
      → length sq.q < session_queue_cap
      → push sq req ≡ append_req sq sq.q req none
  unfolding push
  push_room up short = ground arith

  push_missed :
      sq.stopped ≡ false → IsFull → take_reaction sq.q ≡ none → push sq req ≡ push_full sq req none
  unfolding push
  push_missed up full missed = ground arith

  push_found :
      (r : TurnReq) (rest : List TurnReq)
      → sq.stopped ≡ false
      → IsFull
      → take_reaction sq.q ≡ some (r, rest)
      → push sq req ≡ append_req sq rest req (some (mark_shed r))
  unfolding push push_full
  push_found r rest up full found = ground arith

-- What `push` can have done, as an elimination rule: `P` holds of its outcome if it holds of each.
pub push_cases {ℓ} :
    (P : Pushed → Type ℓ) (sq : SessionQueue) (req : TurnReq)
    → P (reject_req sq)
    → (sq.stopped ≡ false → length sq.q < session_queue_cap → P (append_req sq sq.q req none))
    → (sq.stopped ≡ false
        → All (λ r. r.kind ≡ turn_user) sq.q
        → req.kind ≡ turn_user
        → P (append_req sq sq.q req none))
    → ((r : TurnReq) (rest : List TurnReq)
        → sq.stopped ≡ false
        → OldestReaction sq.q r rest
        → P (append_req sq rest req (some (mark_shed r))))
    → P (push sq req)
unfolding push_full
push_cases P sq req refused room grown shed = elim (Bool-cases sq.stopped) [
  | inl closed ↦ let e : push sq req ≡ reject_req sq = unfold push in ground arith in rw e refused
  | inr up ↦ elim (dec_lt (length sq.q) session_queue_cap) [
    | yes short ↦ rw (push_room sq req up short) (room up short)
    | no long ↦
        let full : session_queue_cap ≤ length sq.q = omega arith in
        elim (Option-cases (take_reaction sq.q)) [
          | inl missed ↦ rw (push_missed sq req up full missed) (elim (TurnKind-cases req.kind) [
            | inl reaction ↦ simp reaction refused
            | inr user ↦ simp user (grown up (take_reaction-none sq.q missed) user)
          ])
          | inr ((r, rest), found) ↦
              rw (push_found sq req r rest up full found)
                (shed r rest up (take_reaction-OldestReaction sq.q r rest found))
        ]
  ]
]

idle-empty : (sq : SessionQueue) → idle sq ≡ true → sq.q ≡ []
unfolding idle
idle-empty sq h = ground arith

-- A request that is pushed onto an open queue after `idle` was found true is accepted, and a `stop`
-- that comes next gives it back done and shed and leaves the queue empty.
pub stop-push-idle :
    (sq : SessionQueue) (req : TurnReq)
    → idle sq ≡ true
    → sq.stopped ≡ false
    → ((push sq req).accepted ≡ true)
      × ((stop (push sq req).queue).1 ≡ mark_shed req ∷ [])
      × ((stop (push sq req).queue).0.q ≡ [])
unfolding stop append_req
stop-push-idle sq req h up =
    let empty = idle-empty sq h in
    let room = push_room sq req up (omega (arith, ap length empty)) in
    (ground (arith, room), ground (arith, room, empty), ground arith)
