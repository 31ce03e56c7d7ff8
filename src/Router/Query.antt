-- ===== src/Router/Query.antt =====
-- The queries of internal/router/router.go: turns, their latest user turn, the transcript that seeds a
-- session, and the options of the `parameters` dict.
pub mod Overlay
use Prim.Native.String.{◌++◌ as ◌+++◌}
use poe_acp_relay.Base.{
  String, Bool, true, false, ◌||◌, Option, none, some, List, [], ◌∷◌, if◌then◌else◌, ◌==◌, Dict,
  lookup,
}
use poe_acp_relay.Poeproto.Requests.{Attachment, Parameter, text_value, bool_value, other_value}
use poe_acp_relay.Router.Types.{Options}

-- `Turn`. Its `Attachment` has the fields of the wire type, which `handleQuery` copies.
pub record Turn : Type 0 where
  pub role : String
  pub content : String
  pub message_id : String
  pub attachments : List Attachment

-- `latestUserTurnRef`; the source's loop runs from the end.
unfoldable pub latest_user_turn_ref : List Turn → Option Turn
latest_user_turn_ref [] = none
latest_user_turn_ref (t ∷ ts) =
    let later = latest_user_turn_ref ts in
    elim later [ some found ↦ some found | none ↦ if t.role == "user" then some t else none ]

-- `latestUserText`
unfoldable pub latest_user_text : List Turn → String
latest_user_text [] = ""
latest_user_text (t ∷ ts) =
    let later = latest_user_text ts in
    elim (latest_user_turn_ref ts) [
      | some found ↦ later
      | none ↦ if t.role == "user" then t.content else ""
    ]

role_label : String → String
role_label role =
    if role == "user"
    then "User"
    else if role == "bot"
    then "Assistant"
    else if role == "system"
    then "System"
    else role

transcript_turns : List Turn → String
unfolding role_label
transcript_turns [] = ""
transcript_turns (t ∷ ts) =
    (role_label t.role +++ (": " +++ (t.content +++ "\n\n"))) +++ transcript_turns ts

-- `flattenTranscript`
unfoldable pub flatten_transcript : List Turn → String
unfolding transcript_turns
flatten_transcript q =
    "[Resuming a prior conversation. Transcript so far:]\n\n"
    +++ (transcript_turns q
        +++ "[End of prior transcript. Respond to the latest User message above.]")

-- The levels that `ParseOptions` takes from the dict.
unfoldable pub is_level : String → Bool
is_level v =
    v == "off"
    || v == "minimal"
    || v == "low"
    || v == "medium"
    || v == "high"
    || v == "xhigh"
    || v == "max"

overlay_text : Option Parameter → String → String
overlay_text (some (text_value v)) old = v
overlay_text _ old = old

overlay_level : Option Parameter → String → String
unfolding is_level
overlay_level (some (text_value v)) old = if is_level v then v else old
overlay_level _ old = old

overlay_bool : Option Parameter → Bool → Bool
overlay_bool (some (bool_value b)) old = b
overlay_bool _ old = old

-- `ParseOptions`
unfoldable pub parse_options : Dict Parameter → Options → Options
unfolding overlay_text overlay_level overlay_bool
parse_options params defaults = record {
  model = overlay_text (lookup "model" params) defaults.model;
  thinking = overlay_level (lookup "thinking" params) defaults.thinking;
  hide_thinking = overlay_bool (lookup "hide_thinking" params) defaults.hide_thinking;
}
