-- ===== src/Poeproto/Tokens.antt =====
-- The bearer token and the normal form of a reaction.

use Prim.Native.Char.{code}
use package.text.Mathlib.TextEquality.{Char-path}
use Prim.Native.String.{◌++◌ as ◌+++◌}
use package.text.Mathlib.TextLemmas.{nil-append, cons-append}
use poe_acp_relay.Base.{
  nat_eq, ap, sym, ◌∙◌, String, ◌≡◌, refl, ◌↔◌, true, false, arith, ◌==◌, eq_iff, inl, inr, ◌⊎◌,
}
use poe_acp_relay.Base.Text.{has_prefix, drop_prefix}
use poe_acp_relay.Poeproto.Requests.{normalise_reaction, bearer_auth}

has_prefix-append : (p t : String) → has_prefix (p +++ t) p ≡ true
unfolding has_prefix
has_prefix-append String.[] t = refl
has_prefix-append (String.◌∷◌ c p) t =
    rw (cons-append c p t) (ground (arith, has_prefix-append p t))

drop_prefix-append : (p t : String) → drop_prefix (p +++ t) p ≡ t
unfolding drop_prefix
drop_prefix-append String.[] t = nil-append t
drop_prefix-append (String.◌∷◌ c p) t = rw (cons-append c p t) (drop_prefix-append p t)

-- A bearer token reaches the next handler exactly where it is the configured secret and the secret is
-- not empty.
pub bearer_auth_iff :
    (secret token : String)
    → (bearer_auth secret ("Bearer " +++ token) ≡ true)
      ↔ (((secret == "") ≡ false) × (token ≡ secret))
unfolding bearer_auth
bearer_auth_iff secret token =
    rw (has_prefix-append "Bearer " token, drop_prefix-append "Bearer " token) ground
      (arith, eq_iff token secret)

-- A text with a prefix is the prefix and what is left without it.
prefix_split : (s p : String) → has_prefix s p ≡ true → s ≡ p +++ drop_prefix s p
unfolding has_prefix drop_prefix
prefix_split s String.[] h = sym (nil-append s)
prefix_split String.[] (String.◌∷◌ d p) h = cc
prefix_split (String.◌∷◌ c s) (String.◌∷◌ d p) h =
    let e : nat_eq (code c) (code d) ≡ true = ground (arith, h) in
    let rest = prefix_split s p (ground (arith, h)) in
    rw (cons-append d p (drop_prefix s p))
      (ap (λ x. String.◌∷◌ x s) (Char-path c d (ground (arith, e))) ∙ ap (λ t. String.◌∷◌ d t) rest)

-- A header is good exactly where it is "Bearer " and the configured secret, and the secret is not
-- empty.
pub bearer_auth-header :
    (secret header : String)
    → (bearer_auth secret header ≡ true)
      ↔ ((header ≡ "Bearer " +++ secret) × ((secret == "") ≡ false))
bearer_auth-header secret header = (
  (λ h.
      let s = header_split secret header h in
      let token = drop_prefix header "Bearer " in
      let good = (bearer_auth_iff secret token).0 (ap (bearer_auth secret) (sym s) ∙ h) in
      (s ∙ ap (λ t. "Bearer " +++ t) good.1, good.0)),
  (λ h. ap (bearer_auth secret) h.0 ∙ (bearer_auth_iff secret secret).1 (h.1, refl)),
)
  where
    header_split :
        (sec head : String)
        → bearer_auth sec head ≡ true
        → head ≡ "Bearer " +++ drop_prefix head "Bearer "
    header_split sec head h = prefix_split head "Bearer " (unfold bearer_auth in ground (arith, h))

abbrev IsAction : String → Type 0
IsAction action = (action ≡ "added") ⊎ (action ≡ "removed")

normalise_reaction-IsAction :
    (reaction action : String) → IsAction (normalise_reaction reaction action).1
unfolding normalise_reaction
normalise_reaction-IsAction String.[] action =
    ground (arith, eq_iff action "added", eq_iff action "removed")
normalise_reaction-IsAction (String.◌∷◌ c s) action =
    ground (arith, eq_iff action "added", eq_iff action "removed")

normalise_reaction_kept :
    (reaction action : String)
    → IsAction action
    → normalise_reaction reaction action ≡ (reaction, action)
unfolding normalise_reaction
normalise_reaction_kept reaction action (inl e) = rw e refl
normalise_reaction_kept reaction action (inr e) = rw e refl

-- The action of a normalised reaction is "added" or "removed", and normalising it again changes
-- nothing: no second sign is taken off.
pub normalise_reaction_again :
    (reaction action : String)
    → (((normalise_reaction reaction action).1 ≡ "added")
        ⊎ ((normalise_reaction reaction action).1 ≡ "removed"))
      × (normalise_reaction
            (normalise_reaction reaction action).0
            (normalise_reaction reaction action).1
          ≡ normalise_reaction reaction action)
normalise_reaction_again reaction action =
    let known = normalise_reaction-IsAction reaction action in
    (known, normalise_reaction_kept (normalise_reaction reaction action).0 _ known)
