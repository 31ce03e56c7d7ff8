-- ===== src/Poeproto/Wire.antt =====
-- The frames of `SSEWriter.event` in internal/poeproto/poeproto.go, as text on the wire.
pub mod Reading
use Prim.Native.String.{◌++◌ as ◌+++◌}
use poe_acp_relay.Base.{String, Bool, true, List, [], ◌∷◌, if◌then◌else◌, ◌==◌, ◌++◌}
use poe_acp_relay.Poeproto.Sse.{Event, meta, text, replace_response, error, done}

-- The values of a payload.
pub data Value : Type 0 where
  word : String → Value
  flag : Bool → Value

abbrev pub Payload : Type 0
Payload = List (String × Value)

-- The name of an event, and its payload: a map, whose keys `json.Marshal` sorts.
unfoldable pub event_name : Event → String
event_name meta = "meta"
event_name (text t) = "text"
event_name (replace_response t) = "replace_response"
event_name (error t et) = "error"
event_name done = "done"

unfoldable pub payload : Event → Payload
payload meta = ("content_type", word "text/markdown") ∷ []
payload (text t) = ("text", word t) ∷ []
payload (replace_response t) = ("text", word t) ∷ []
payload (error t et) =
    ("allow_retry", flag true)
    ∷ ((if et == "" then [] else ("error_type", word et) ∷ []) ++ ("text", word t) ∷ [])
payload done = []

-- What `event` prints; the parameter is `json.Marshal`.
unfoldable pub frame : (Payload → String) → Event → String
frame marshal e =
    "event: " +++ (event_name e +++ ("\n" +++ ("data: " +++ (marshal (payload e) +++ "\n\n"))))

-- The body of a response with these events.
unfoldable pub wire : (Payload → String) → List Event → String
wire marshal [] = ""
wire marshal (e ∷ es) = frame marshal e +++ wire marshal es
