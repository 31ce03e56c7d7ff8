-- ===== src/Router/Drain/Turns.antt =====
-- Which sink gets what, over the turns of a session.
use poe_acp_relay.Base.{
  ℕ, ◌≡◌, refl, sym, ap, ◌∙◌, Bool, false, none, some, List, [], ◌∷◌, ◌++◌, map, append_assoc,
  append-nil, map-append, String, All, All-append, arith, Bool-cases, inl, inr, ◌==◌, ◌||◌, ◌&&◌,
}
use poe_acp_relay.Router.Types.{SinkCall, first_chunk, put_text, put_done}
use poe_acp_relay.Router.Drain.{
  Update, message_chunk, thought_chunk, other_update, put_chunk, chunk_message, chunk_thought,
  TurnDef, ChunkMsg, notif, begin_turn, end_turn, ChunkKind, chunk_none, new_drain, Drain, Chunked,
  is_thought, drain_process_chunk, tagged, drain_msg, drain_chunks,
}

-- The calls on its sink for the chunks of one turn.
unfoldable pub turn_puts : TurnDef → Bool → ChunkKind → List Update → List SinkCall
turn_puts td first mode [] = []
turn_puts td first mode (u ∷ us) =
    let c = drain_process_chunk u td first mode in c.puts ++ turn_puts td c.first c.chunk_mode us

unfoldable pub turn_output : TurnDef → List Update → List SinkCall
unfolding turn_puts
turn_output td us = turn_puts td false chunk_none us

-- One turn as it passes through the channel: chunks that came too late for the turn before it, its
-- begin, its chunks, and its end.
pub record Turn : Type 0 where
  pub late : List Update
  pub td : TurnDef
  pub chunks : List Update
  pub ack : ℕ

abbrev pub turn_msgs : Turn → List ChunkMsg
turn_msgs t = map notif t.late ++ (begin_turn t.td ∷ (map notif t.chunks ++ end_turn t.ack ∷ []))

abbrev pub all_msgs : List Turn → List ChunkMsg
all_msgs [] = []
all_msgs (t ∷ ts) = turn_msgs t ++ all_msgs ts

abbrev pub all_puts : List Turn → List (ℕ × SinkCall)
all_puts [] = []
all_puts (t ∷ ts) = tagged t.td.sink (turn_output t.td t.chunks) ++ all_puts ts

drain_chunks-append :
    (d : Drain) (xs ys : List ChunkMsg)
    → drain_chunks d (xs ++ ys) ≡ drain_chunks (drain_chunks d xs) ys
unfolding drain_chunks
drain_chunks-append d [] ys = refl
drain_chunks-append d (x ∷ xs) ys = drain_chunks-append (drain_msg d x) xs ys

drain_msg_late : (d : Drain) (u : Update) → d.td ≡ none → drain_msg d (notif u) ≡ d
unfolding drain_msg
drain_msg_late d u h = ground arith

-- Chunks outside a turn change nothing.
drain_chunks_late : (d : Drain) (us : List Update) → d.td ≡ none → drain_chunks d (map notif us) ≡ d
unfolding drain_chunks
drain_chunks_late d [] h = refl
drain_chunks_late d (u ∷ us) h =
    ap (λ e. drain_chunks e (map notif us)) (drain_msg_late d u h) ∙ drain_chunks_late d us h

-- The state after the chunks of a turn: only the loop's variables and the output change.
chunks_drained : Drain → TurnDef → Chunked → List SinkCall → Drain
chunks_drained d td c puts = record d {
  first = c.first;
  chunk_mode = c.chunk_mode;
  out = d.out ++ tagged td.sink puts;
}

drain_msg_chunk :
    (d : Drain) (td : TurnDef) (u : Update)
    → d.td ≡ some td
    → drain_msg d (notif u)
      ≡ chunks_drained d td
          (drain_process_chunk u td d.first d.chunk_mode)
          (drain_process_chunk u td d.first d.chunk_mode).puts
unfolding drain_msg chunks_drained
drain_msg_chunk d td u h = ground arith

drain_chunks_turn :
    (d : Drain) (td : TurnDef) (us : List Update)
    → d.td ≡ some td
    → ((drain_chunks d (map notif us)).out
        ≡ d.out ++ tagged td.sink (turn_puts td d.first d.chunk_mode us))
      × ((drain_chunks d (map notif us)).acks ≡ d.acks)
unfolding turn_puts chunks_drained
drain_chunks_turn d td [] h =
    (unfold drain_chunks in sym (append-nil d.out), unfold drain_chunks in refl)
drain_chunks_turn d td (u ∷ us) h =
    let c = drain_process_chunk u td d.first d.chunk_mode in
    let d' = chunks_drained d td c c.puts in
    let e : drain_chunks d (map notif (u ∷ us)) ≡ drain_chunks d' (map notif us) =
      unfold drain_chunks in ap (λ x. drain_chunks x (map notif us)) (drain_msg_chunk d td u h) in
    let (out, acks) = drain_chunks_turn d' td us h in
    let later = turn_puts td c.first c.chunk_mode us in
    (
      ap (λ (x : Drain). x.out) e
          ∙ out
          ∙ append_assoc d.out (tagged td.sink c.puts) (tagged td.sink later)
          ∙ ap (λ l. d.out ++ l) (sym (map-append _ c.puts later)),
      ap (λ (x : Drain). x.acks) e ∙ acks,
    )

-- One turn, from outside a turn to outside a turn.
turn_msgs-drained :
    (d : Drain) (t : Turn)
    → d.td ≡ none
    → ((drain_chunks d (turn_msgs t)).td ≡ none)
      × ((drain_chunks d (turn_msgs t)).out ≡ d.out ++ tagged t.td.sink (turn_output t.td t.chunks))
      × ((drain_chunks d (turn_msgs t)).acks ≡ d.acks ++ t.ack ∷ [])
unfolding turn_output
turn_msgs-drained d t h =
    let begun = drain_msg d (begin_turn t.td) in
    let e : drain_chunks d (turn_msgs t)
        ≡ drain_msg (drain_chunks begun (map notif t.chunks)) (end_turn t.ack) =
      drain_chunks-append d (map notif t.late) _
      ∙ ap (λ x. drain_chunks x (begin_turn t.td ∷ (map notif t.chunks ++ end_turn t.ack ∷ [])))
          (drain_chunks_late d t.late h)
      ∙ (unfold drain_chunks in drain_chunks-append begun (map notif t.chunks) _) in
    let (out, acks) = drain_chunks_turn begun t.td t.chunks (unfold drain_msg in refl) in
    rw e (unfold drain_msg in (refl, out, ap (λ l. l ++ t.ack ∷ []) acks))

all_msgs-drained :
    (d : Drain) (ts : List Turn)
    → d.td ≡ none
    → ((drain_chunks d (all_msgs ts)).out ≡ d.out ++ all_puts ts)
      × ((drain_chunks d (all_msgs ts)).acks ≡ d.acks ++ map (λ t. t.ack) ts)
all_msgs-drained d [] h = unfold drain_chunks in (sym (append-nil d.out), sym (append-nil d.acks))
all_msgs-drained d (t ∷ ts) h =
    let (quiet, out, acks) = turn_msgs-drained d t h in
    let (outs, ackss) = all_msgs-drained (drain_chunks d (turn_msgs t)) ts quiet in
    rw (drain_chunks-append d (turn_msgs t) (all_msgs ts)) (
      outs ∙ ap (λ l. l ++ all_puts ts) out ∙ append_assoc d.out _ (all_puts ts),
      ackss ∙ ap (λ l. l ++ map (λ (x : Turn). x.ack) ts) acks ∙ append_assoc d.acks _ _,
    )

-- Over a whole session: each turn's sink gets exactly the calls for the chunks of that turn, in order,
-- chunks that arrive outside a turn reach no sink, and each end of a turn is acknowledged once, in
-- order.
pub drain_chunks-all_msgs :
    (ts : List Turn)
    → ((drain_chunks new_drain (all_msgs ts)).out ≡ all_puts ts)
      × ((drain_chunks new_drain (all_msgs ts)).acks ≡ map (λ t. t.ack) ts)
unfolding new_drain
drain_chunks-all_msgs ts = all_msgs-drained new_drain ts refl

-- One turn through a new loop.
pub drain_chunks-turn_msgs :
    (t : Turn)
    → (drain_chunks new_drain (turn_msgs t)).out ≡ tagged t.td.sink (turn_output t.td t.chunks)
unfolding new_drain
drain_chunks-turn_msgs t = (turn_msgs-drained new_drain t refl).1

-- One turn through a new loop, with chunks that come too late for it.
pub drain_chunks-turn_msgs_late :
    (t : Turn) (late : List Update)
    → (drain_chunks new_drain (turn_msgs t ++ map notif late)).out
      ≡ tagged t.td.sink (turn_output t.td t.chunks)
unfolding new_drain
drain_chunks-turn_msgs_late t late =
    let (quiet, out, _) = turn_msgs-drained new_drain t refl in
    ap (λ (d : Drain). d.out)
      (drain_chunks-append new_drain (turn_msgs t) (map notif late)
        ∙ drain_chunks_late (drain_chunks new_drain (turn_msgs t)) late quiet)
    ∙ out

-- The chunks of a turn never end it.
abbrev pub IsNotDone : SinkCall → Type 0
IsNotDone put_done = ⊥
IsNotDone _ = Unit

-- What holds of the two calls that chunks make holds of all that a turn's chunks put.
module _ (P : SinkCall → Type 0) (begins : P first_chunk)
    (writes : (t : String) → P (put_text t)) where
  put_chunk-All :
      (k : ChunkKind) (t : String) (td : TurnDef) (first : Bool) (mode : ChunkKind)
      → All P (put_chunk k t td first mode).puts
  unfolding put_chunk
  put_chunk-All k t td first mode =
      elim (Bool-cases (t == "" || (is_thought k && td.hide_thinking))) [
        | inl e ↦ rw e tt
        | inr e ↦ elim (Bool-cases first) [
          | inl d ↦ rw (e, d) (writes _, tt)
          | inr d ↦ rw (e, d) (begins, (writes _, tt))
        ]
      ]

  turn_puts-All :
      (td : TurnDef) (us : List Update) (first : Bool) (mode : ChunkKind)
      → All P (turn_puts td first mode us)
  unfolding turn_puts drain_process_chunk
  turn_puts-All td [] first mode = tt
  turn_puts-All td (message_chunk t ∷ us) first mode =
      let c = put_chunk chunk_message t td first mode in
      All-append P c.puts _ (put_chunk-All chunk_message t td first mode)
        (turn_puts-All td us c.first c.chunk_mode)
  turn_puts-All td (thought_chunk t ∷ us) first mode =
      let c = put_chunk chunk_thought t td first mode in
      All-append P c.puts _ (put_chunk-All chunk_thought t td first mode)
        (turn_puts-All td us c.first c.chunk_mode)
  turn_puts-All td (other_update ∷ us) first mode = turn_puts-All td us first mode

pub turn_output-All : (td : TurnDef) (us : List Update) → All IsNotDone (turn_output td us)
unfolding turn_output
turn_output-All td us = turn_puts-All IsNotDone tt (λ t. tt) td us false chunk_none

-- A call that adds a text at most.
abbrev pub IsText : SinkCall → Type 0
IsText first_chunk = Unit
IsText (put_text t) = Unit
IsText _ = ⊥

pub turn_output-IsText : (td : TurnDef) (us : List Update) → All IsText (turn_output td us)
unfolding turn_output
turn_output-IsText td us = turn_puts-All IsText tt (λ t. tt) td us false chunk_none
