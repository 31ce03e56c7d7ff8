-- ===== src/Poeproto/Tests.antt =====
-- Requests at concrete inputs.
use Prim.Native.String.{◌++◌ as ◌+++◌}
use poe_acp_relay.Base.{ok, List, [], ◌∷◌, String, ◌≡◌, refl, some, map, All, if◌then◌else◌, ◌==◌}
use poe_acp_relay.Base.Text.{has_prefix, trim_prefix, drop_prefix}
use poe_acp_relay.Poeproto.Sse.{Event, meta, text, replace_response, done}
use poe_acp_relay.Poeproto.Wire.{word, Payload, payload, event_name, frame, wire}
use poe_acp_relay.Poeproto.Wire.Reading.{IsCoded, read_events, read_events-wire}
use poe_acp_relay.Poeproto.Requests.{normalise_reaction, Request, decode, latest_user_text}

signed_reaction_test : normalise_reaction "-like" "" ≡ ("like", "removed")
unfolding normalise_reaction
signed_reaction_test = refl

abbrev secret : String
secret = "s3cret"

abbrev reaction_request : Request
reaction_request = record {
  kind = "report_reaction";
  query =
      record { role = "user"; content = "hi"; message_id = ""; parameters = []; attachments = [] }
      ∷ record { role = "bot"; content = "ho"; message_id = ""; parameters = []; attachments = [] }
      ∷ [];
  message_id = "m";
  user_id = "u";
  conversation_id = "c";
  reaction = "-like";
  reaction_action = "";
}

decode_test :
    decode reaction_request
    ≡ ok (record reaction_request { reaction = "like"; reaction_action = "removed" })
unfolding decode
decode_test = refl

latest_user_text_test : latest_user_text reaction_request ≡ "hi"
unfolding latest_user_text
latest_user_text_test = refl

-- An encoder that is good for payloads of one text.
abbrev marshal : Payload → String
marshal ((k, word t) ∷ []) = k +++ ("=" +++ t)
marshal _ = "{}"

abbrev unmarshal : String → Payload
unmarshal s =
    if s == "{}"
    then []
    else if has_prefix s "text="
    then ("text", word (trim_prefix s "text=")) ∷ []
    else ("content_type", word (trim_prefix s "content_type=")) ∷ []

abbrev sent : List Event
sent = meta ∷ text "data: x" ∷ replace_response "" ∷ done ∷ []

sent-IsCoded : All (IsCoded marshal unmarshal) sent
unfolding payload has_prefix trim_prefix drop_prefix
sent-IsCoded = ((refl, refl), ((refl, refl), ((refl, refl), ((refl, refl), tt))))

read_events-wire_example : read_events unmarshal (wire marshal sent) ≡ map some sent
read_events-wire_example = read_events-wire marshal unmarshal sent sent-IsCoded

wire_test :
    wire marshal (text "hi" ∷ done ∷ []) ≡ "event: text\ndata: text=hi\n\nevent: done\ndata: {}\n\n"
unfolding wire frame event_name payload
wire_test = refl
