-- ===== src/Poeproto/Requests.antt =====
-- The requests of internal/poeproto/poeproto.go, behind the JSON decoder: reactions, the latest user
-- message, and the bearer token.

use Prim.Native.Char.{code}
use poe_acp_relay.Base.{
  String, Bool, not, ◌&&◌, Option, none, some, List, [], ◌∷◌, if◌then◌else◌, ◌==◌, nat_eq, Result,
  ok, err, ◌||◌,
}
use poe_acp_relay.Base.Text.{has_prefix, drop_prefix}

-- `Attachment`
pub record Attachment : Type 0 where
  pub url : String
  pub content_type : String
  pub name : String
  pub parsed_content : String

-- A value of a `parameters` dict as far as the relay tells values apart.
pub data Parameter : Type 0 where
  text_value : String → Parameter
  bool_value : Bool → Parameter
  other_value : Parameter

-- `Message`; a `parameters` dict that is absent is empty.
pub record Message : Type 0 where
  pub role : String
  pub content : String
  pub message_id : String
  pub parameters : List (String × Parameter)
  pub attachments : List Attachment

-- `Request`
pub record Request : Type 0 where
  pub kind : String
  pub query : List Message
  pub message_id : String
  pub user_id : String
  pub conversation_id : String
  pub reaction : String
  pub reaction_action : String

-- The last message of a user. The source's loop runs from the end.
unfoldable pub latest_user_message : List Message → Option Message
latest_user_message [] = none
latest_user_message (m ∷ ms) =
    let later = latest_user_message ms in
    elim later [ some found ↦ some found | none ↦ if m.role == "user" then some m else none ]

-- `LatestUserText`
unfoldable pub latest_user_text : Request → String
unfolding latest_user_message
latest_user_text r = elim (latest_user_message r.query) [ none ↦ "" | some m ↦ m.content ]

-- `LatestParameters`; `nil` reads as the empty dict.
pub latest_parameters : Request → List (String × Parameter)
unfolding latest_user_message
latest_parameters r = elim (latest_user_message r.query) [ none ↦ [] | some m ↦ m.parameters ]

-- The sign in front of a reaction, with the reaction that follows it.
signed_reaction : String → String × String
signed_reaction String.[] = ("", "added")
signed_reaction (String.◌∷◌ c s) =
    if nat_eq (code c) b'+'
    then (s, "added")
    else if nat_eq (code c) b'-'
    then (s, "removed")
    else (String.◌∷◌ c s, "added")

-- `normaliseReaction`
unfoldable pub normalise_reaction : String → String → String × String
unfolding signed_reaction
normalise_reaction reaction action =
    if action == "added" || action == "removed"
    then (reaction, action)
    else signed_reaction reaction

-- `Decode`, behind the JSON decoder.
unfoldable pub decode : Request → Result Request
unfolding normalise_reaction
decode req =
    if req.kind == ""
    then err "poe request missing type"
    else if req.kind == "report_reaction"
    then (let (reaction, action) = normalise_reaction req.reaction req.reaction_action in
        ok (record req { reaction = reaction; reaction_action = action }))
    else ok req

-- `BearerAuth`: whether the request reaches the next handler. The lengths and slices of the source
-- compare bytes; a text that has the prefix is cut behind it.
unfoldable pub bearer_auth : String → String → Bool
unfolding has_prefix drop_prefix
bearer_auth secret header =
    not (secret == "") && (has_prefix header "Bearer " && drop_prefix header "Bearer " == secret)
