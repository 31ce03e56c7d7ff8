-- ===== src/Router/Drain/Tests.antt =====
-- The drain loop at concrete inputs.
use Prim.Native.String.{◌++◌ as ◌+++◌}
use poe_acp_relay.Base.{◌≡◌, refl, true, false, List, [], ◌∷◌}
use poe_acp_relay.Router.Types.{first_chunk, put_text}
use poe_acp_relay.Router.Drain.{
  Update, message_chunk, thought_chunk, other_update, TurnDef, chunk_thought, new_drain,
  drain_chunks, drain_process_chunk,
}
use poe_acp_relay.Router.Drain.Turns.{
  Turn, turn_puts, turn_output, all_msgs, all_puts, drain_chunks-all_msgs,
}
use poe_acp_relay.Router.Drain.Merging.{put_body, turn_output-append}

abbrev visible : TurnDef
visible = record { sink = 3; hide_thinking = false }

abbrev hiding : TurnDef
hiding = record { sink = 4; hide_thinking = true }

abbrev updates : List Update
updates = thought_chunk "a\nb" ∷ other_update ∷ message_chunk "c" ∷ []

turn_output_runs :
    turn_output visible updates
    ≡ first_chunk ∷ put_text "> _Thinking…_\n> a\n> b" ∷ put_text "\n\nc" ∷ []
unfolding turn_output turn_puts drain_process_chunk
turn_output_runs = refl

abbrev two_turns : List Turn
two_turns =
    record { late = []; td = visible; chunks = updates; ack = 0 }
    ∷ record { late = message_chunk "late" ∷ []; td = hiding; chunks = updates; ack = 1 }
    ∷ []

drain_chunks-all_msgs_example :
    ((drain_chunks new_drain (all_msgs two_turns)).out ≡ all_puts two_turns)
    × ((drain_chunks new_drain (all_msgs two_turns)).acks ≡ 0 ∷ 1 ∷ [])
drain_chunks-all_msgs_example = drain_chunks-all_msgs two_turns

turn_output-append_example :
    put_body (turn_output visible (thought_chunk ("a\n" +++ "b") ∷ []))
    ≡ put_body (turn_output visible (thought_chunk "a\n" ∷ thought_chunk "b" ∷ []))
turn_output-append_example = turn_output-append visible [] [] chunk_thought "a\n" "b"
