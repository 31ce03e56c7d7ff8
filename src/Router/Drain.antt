-- ===== src/Router/Drain.antt =====
-- `drainChunks` and `drainProcessChunk` of internal/router/router.go: the goroutine that takes a
-- session's chunk messages in arrival order and writes them to the sink of the current turn.
pub mod Turns
pub mod Merging
pub mod Hidden
mod Tests
use Prim.Native.Char.{Char, code}
use Prim.Native.String
use Prim.Native.String.{◌++◌ as ◌+++◌}
use poe_acp_relay.Base.{
  ℕ, String, Bool, true, false, ◌&&◌, ◌||◌, Option, none, some, List, [], ◌∷◌, ◌++◌, if◌then◌else◌,
  ◌==◌, map, nat_eq,
}
use poe_acp_relay.Router.Types.{SinkCall, first_chunk, put_text}

-- The session updates that the router tells apart: text of the answer, text of a thought, and all
-- others (tool calls, plans, chunks that are no text).
pub data Update : Type 0 where
  message_chunk : String → Update
  thought_chunk : String → Update
  other_update : Update

-- `turnDef`, with the identity of the sink.
pub record TurnDef : Type 0 where
  pub sink : ℕ
  pub hide_thinking : Bool

-- `chunkMsg`; an end of a turn carries the identity of the channel that acknowledges it.
pub data ChunkMsg : Type 0 where
  notif : Update → ChunkMsg
  begin_turn : TurnDef → ChunkMsg
  end_turn : ℕ → ChunkMsg

pub data ChunkKind : Type 0 where
  chunk_none chunk_message chunk_thought : ChunkKind

-- The local variables of `drainChunks`, with what it has done: the calls on sinks, each with its
-- sink, and the acknowledgements.
pub record Drain : Type 0 where
  pub td : Option TurnDef
  pub first : Bool
  pub chunk_mode : ChunkKind
  pub out : List (ℕ × SinkCall)
  pub acks : List ℕ

pub new_drain : Drain
new_drain = record { td = none; first = false; chunk_mode = chunk_none; out = []; acks = [] }

-- `strings.ReplaceAll` of one character, given by its number.
pub replace_char : ℕ → String → String → String
replace_char k new String.[] = ""
replace_char k new (String.◌∷◌ c s) =
    if nat_eq (code c) k then new +++ replace_char k new s else String.◌∷◌ c (replace_char k new s)

-- What stands between the last chunk and one of this kind.
chunk_prefix : ChunkKind → ChunkKind → String
chunk_prefix chunk_none chunk_thought = "> _Thinking…_\n> "
chunk_prefix chunk_message chunk_thought = "\n\n> _Thinking…_\n> "
chunk_prefix chunk_thought chunk_message = "\n\n"
chunk_prefix _ _ = ""

-- A thought is quoted on every line.
chunk_text : ChunkKind → String → String
chunk_text chunk_thought t = replace_char 10 "\n> " t
chunk_text _ t = t

abbrev pub is_thought : ChunkKind → Bool
is_thought chunk_thought = true
is_thought _ = false

-- The variables `first` and `chunkMode` after a chunk, and the calls on the turn's sink.
pub record Chunked : Type 0 where
  pub first : Bool
  pub chunk_mode : ChunkKind
  pub puts : List SinkCall

put_chunk : ChunkKind → String → TurnDef → Bool → ChunkKind → Chunked
unfolding chunk_prefix chunk_text replace_char
put_chunk kind t td first mode =
    if t == "" || (is_thought kind && td.hide_thinking)
    then record { first = first; chunk_mode = mode; puts = [] }
    else record {
      first = true;
      chunk_mode = kind;
      puts =
          (if first then [] else first_chunk ∷ [])
          ++ put_text (chunk_prefix mode kind +++ chunk_text kind t) ∷ [];
    }

pub drain_process_chunk : Update → TurnDef → Bool → ChunkKind → Chunked
unfolding put_chunk
drain_process_chunk (message_chunk t) td first mode = put_chunk chunk_message t td first mode
drain_process_chunk (thought_chunk t) td first mode = put_chunk chunk_thought t td first mode
drain_process_chunk other_update td first mode = record {
  first = first;
  chunk_mode = mode;
  puts = [];
}

abbrev pub tagged : ℕ → List SinkCall → List (ℕ × SinkCall)
tagged k = map (λ c. (k, c))

drain_chunk : Drain → Option TurnDef → Update → Drain
drain_chunk d none u = d
drain_chunk d (some td) u =
    let c = drain_process_chunk u td d.first d.chunk_mode in
    record d { first = c.first; chunk_mode = c.chunk_mode; out = d.out ++ tagged td.sink c.puts }

-- One message of the loop.
pub drain_msg : Drain → ChunkMsg → Drain
unfolding drain_chunk drain_process_chunk
drain_msg d (begin_turn td) = record d { td = some td; first = false; chunk_mode = chunk_none }
drain_msg d (end_turn k) = record d { td = none; acks = d.acks ++ k ∷ [] }
drain_msg d (notif u) = drain_chunk d d.td u

unfoldable pub drain_chunks : Drain → List ChunkMsg → Drain
unfolding drain_msg
drain_chunks d [] = d
drain_chunks d (m ∷ ms) = drain_chunks (drain_msg d m) ms

-- `OnUpdate` on what waits in `chunkCh`; `gone` says that `drainStop` is what its `select` takes. A full
-- channel only makes it wait.
unfoldable pub on_update : Bool → Update → List ChunkMsg → List ChunkMsg
on_update gone u waiting = if gone then waiting else waiting ++ notif u ∷ []
