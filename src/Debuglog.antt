-- ===== src/Debuglog.antt =====
-- internal/debuglog/debuglog.go: whether debug logging is on, and the line that a message becomes.
use Prim.Native.String.{◌++◌ as ◌+++◌}
use poe_acp_relay.Base.{
  String, Bool, true, false, ◌||◌, ◌≡◌, refl, Option, none, some, if◌then◌else◌, ◌==◌,
}
use poe_acp_relay.Base.Text.{trim_space}

-- `truthy`; the parameter is `strings.ToLower`.
unfoldable pub truthy : (String → String) → String → Bool
unfolding trim_space
truthy to_lower s =
    let t = to_lower (trim_space s) in
    t == "1" || t == "true" || t == "yes" || t == "on" || t == "y" || t == "t"

-- `enabled` once `main` has read its flags: `init` reads the variable, and the flag turns logging on
-- whatever the variable says.
unfoldable pub enabled : (String → String) → String → Bool → Bool
unfolding truthy
enabled to_lower variable debug_flag = if debug_flag then true else truthy to_lower variable

-- `Logf`, of a formatted message.
unfoldable pub logf : Bool → String → Option String
logf on message = if on then some ("[dbg] " +++ message) else none

flag_test : enabled (λ s. s) "off" true ≡ true
unfolding enabled
flag_test = refl

variable_test : enabled (λ s. s) " yes " false ≡ true
unfolding enabled truthy trim_space
variable_test = refl
