-- ===== src/Router/Types.antt =====
-- The data of internal/router/router.go: options, content blocks, queued turns.
use poe_acp_relay.Base.{ℕ, String, Bool, true, false, not, Option, List, ◌*◌}

-- `Options`; "" leaves a field as it is.
pub record Options : Type 0 where
  pub model : String
  pub thinking : String
  pub hide_thinking : Bool

-- The variants of `acp.ContentBlock` that the router builds: text, an inline image (base64 data,
-- MIME type), a link (name, URI, MIME type) and an embedded text resource (URI, text, MIME type).
pub data ContentBlock : Type 0 where
  text_block : String → ContentBlock
  image_block : String → String → ContentBlock
  resource_link : String → String → Option String → ContentBlock
  text_resource : String → String → Option String → ContentBlock

pub data TurnKind : Type 0 where
  turn_user turn_reaction : TurnKind

abbrev pub is_reaction : TurnKind → Bool
is_reaction turn_reaction = true
is_reaction turn_user = false

-- `turnReq`. `id` is the identity of the pointer, `done` says that the channel is closed, and
-- `enqueued_at` counts nanoseconds.
pub record TurnReq : Type 0 where
  pub id : ℕ
  pub kind : TurnKind
  pub opts : Options
  pub blocks : List ContentBlock
  pub hide_thinking : Bool
  pub enqueued_at : ℕ
  pub done : Bool
  pub err : Option String
  pub shed : Bool

abbrev pub is_user_req : TurnReq → Bool
is_user_req r = not (is_reaction r.kind)

-- `reactionMaxAge`, 60 seconds in nanoseconds.
abbrev pub reaction_max_age : ℕ
reaction_max_age = 60 * 1_000_000_000

-- `sessionQueueCap`
abbrev pub session_queue_cap : ℕ
session_queue_cap = 32

-- The calls of the interface `ChunkSink`. Their errors are ignored by the router.
pub data SinkCall : Type 0 where
  first_chunk : SinkCall
  put_text : String → SinkCall
  put_replace : String → SinkCall
  put_error : String → String → SinkCall
  put_done : SinkCall
