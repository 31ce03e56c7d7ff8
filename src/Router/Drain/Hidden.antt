-- ===== src/Router/Drain/Hidden.antt =====
-- What thoughts leave on the sink of a turn that hides them.
use poe_acp_relay.Base.{◌≡◌, refl, ap, Bool, true, false, not, List, [], ◌∷◌, ◌++◌, arith, filter}
use poe_acp_relay.Router.Drain.{
  Update, message_chunk, thought_chunk, other_update, TurnDef, ChunkKind, chunk_none, chunk_message,
  chunk_thought, put_chunk, drain_process_chunk,
}
use poe_acp_relay.Router.Drain.Turns.{turn_puts, turn_output}

abbrev pub is_thought_update : Update → Bool
is_thought_update (thought_chunk t) = true
is_thought_update _ = false

turn_puts-hidden :
    (td : TurnDef) (us : List Update) (first : Bool) (mode : ChunkKind)
    → td.hide_thinking ≡ true
    → turn_puts td first mode us
      ≡ turn_puts td first mode (filter (λ u. not (is_thought_update u)) us)
unfolding turn_puts drain_process_chunk
turn_puts-hidden td [] first mode h = refl
turn_puts-hidden td (message_chunk t ∷ us) first mode h =
    ap (λ l. (put_chunk chunk_message t td first mode).puts ++ l) (turn_puts-hidden td us _ _ h)
turn_puts-hidden td (thought_chunk t ∷ us) first mode h =
    let e : put_chunk chunk_thought t td first mode
        ≡ record { first = first; chunk_mode = mode; puts = [] } =
      unfold put_chunk in ground arith in
    rw e (turn_puts-hidden td us first mode h)
turn_puts-hidden td (other_update ∷ us) first mode h = turn_puts-hidden td us first mode h

-- Where thoughts are hidden, a turn puts what it would put if the agent had sent none.
pub turn_output-hidden :
    (td : TurnDef) (us : List Update)
    → td.hide_thinking ≡ true
    → turn_output td us ≡ turn_output td (filter (λ u. not (is_thought_update u)) us)
unfolding turn_output
turn_output-hidden td us h = turn_puts-hidden td us false chunk_none h
