-- ===== src/Router/Query/Overlay.antt =====
-- The parameters of a query are untrusted: what of them reaches the options.
use poe_acp_relay.Base.{
  String, ◌≡◌, refl, ◌⊎◌, inl, inr, Bool, true, Option, none, some, arith, Dict, lookup, Bool-cases,
}
use poe_acp_relay.Router.Types.{Options}
use poe_acp_relay.Poeproto.Requests.{Parameter, text_value, bool_value, other_value}
use poe_acp_relay.Router.Query.{overlay_text, overlay_level, overlay_bool, is_level, parse_options}

overlay_text_again :
    (p : Option Parameter) (old : String) → overlay_text p (overlay_text p old) ≡ overlay_text p old
unfolding overlay_text
overlay_text_again none old = refl
overlay_text_again (some (text_value v)) old = refl
overlay_text_again (some (bool_value b)) old = refl
overlay_text_again (some other_value) old = refl

overlay_level_again :
    (p : Option Parameter) (old : String)
    → overlay_level p (overlay_level p old) ≡ overlay_level p old
unfolding overlay_level
overlay_level_again none old = refl
overlay_level_again (some (text_value v)) old = ground arith
overlay_level_again (some (bool_value b)) old = refl
overlay_level_again (some other_value) old = refl

overlay_bool_again :
    (p : Option Parameter) (old : Bool) → overlay_bool p (overlay_bool p old) ≡ overlay_bool p old
unfolding overlay_bool
overlay_bool_again none old = refl
overlay_bool_again (some (text_value v)) old = refl
overlay_bool_again (some (bool_value b)) old = refl
overlay_bool_again (some other_value) old = refl

overlay_level-known :
    (p : Option Parameter) (old : String)
    → (is_level (overlay_level p old) ≡ true) ⊎ (overlay_level p old ≡ old)
unfolding overlay_level
overlay_level-known none old = inr refl
overlay_level-known (some (text_value v)) old = elim (Bool-cases (is_level v)) [
  | inl e ↦ inl (rw e e)
  | inr e ↦ inr (rw e refl)
]
overlay_level-known (some (bool_value b)) old = inr refl
overlay_level-known (some other_value) old = inr refl

-- Whatever the parameters are, the thinking level is one of the seven levels or the default, and
-- reading the same parameters over the result changes nothing more.
pub parse_options_again :
    (params : Dict Parameter) (defaults : Options)
    → ((is_level (parse_options params defaults).thinking ≡ true)
        ⊎ ((parse_options params defaults).thinking ≡ defaults.thinking))
      × (parse_options params (parse_options params defaults) ≡ parse_options params defaults)
unfolding parse_options
parse_options_again params defaults = (
  overlay_level-known (lookup "thinking" params) defaults.thinking,
  cc (
    overlay_text_again (lookup "model" params) defaults.model,
    overlay_level_again (lookup "thinking" params) defaults.thinking,
    overlay_bool_again (lookup "hide_thinking" params) defaults.hide_thinking,
  ),
)
