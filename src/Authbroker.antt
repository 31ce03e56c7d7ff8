-- ===== src/Authbroker.antt =====
-- internal/authbroker/authbroker.go: the two-call login that a chat carries over its turns.
pub mod Laws
mod Tests
use Prim.Native.String.{◌++◌ as ◌+++◌}
use poe_acp_relay.Base.{
  Result, ok, err, String, Bool, true, false, ◌||◌, Option, none, some, List, [], ◌∷◌, map, filter,
  if◌then◌else◌, ◌==◌, Dict, lookup, insert, delete,
}
use poe_acp_relay.Base.Paths.{join_text}
use poe_acp_relay.Base.Text.{trim_space, has_prefix, trim_prefix, sort_text}

-- `acpclient.AuthMethod`
pub record AuthMethod : Type 0 where
  pub id : String
  pub name : String
  pub description : String
  pub method_type : String

-- `acpclient.AuthResult`
pub record AuthResult : Type 0 where
  pub state : String
  pub id : String
  pub url : String
  pub instructions : String

-- `Authenticator`, the agent's side, with its state `A`: a method, a login id, a redirect URL and
-- whether to cancel. `to_lower`, `equal_fold` and `quote` stand for Go's Unicode tables
-- (`strings.ToLower`, `strings.EqualFold`) and for the verb `%q`.
pub record Authenticator (A : Type 0) : Type 0 where
  pub auth_methods : A → List AuthMethod
  pub authenticate : A → String → String → String → Bool → Result AuthResult × A
  pub to_lower : String → String
  pub equal_fold : String → String → Bool
  pub quote : String → String

pub record PendingEntry : Type 0 where
  pub method_id : String
  pub auth_id : String

pub record Outcome : Type 0 where
  pub text : String
  pub url : String
  pub instructions : String

abbrev pub say : String → Outcome
say t = record { text = t; url = ""; instructions = "" }

-- `pending`, and the agent's state.
pub record Broker (A : Type 0) : Type 0 where
  pub pending : Dict PendingEntry
  pub agent : A

unfoldable pub is_login_command : String → Bool
unfolding trim_space has_prefix
is_login_command text =
    let t = trim_space text in
    t == "/login" || has_prefix t "/login " || t == "/logins" || t == "/cancel-login"

-- Methods of type "agent"; an empty type counts as that.
pub is_loginable : AuthMethod → Bool
is_loginable m = m.method_type == "" || m.method_type == "agent"

pub filter_loginable : List AuthMethod → List AuthMethod
unfolding is_loginable
filter_loginable = filter is_loginable

abbrev pub short_id : AuthMethod → String
short_id m = trim_prefix m.id "oauth-"

method_line : AuthMethod → String
method_line m =
    ("- `/login " +++ (short_id m +++ ("` — " +++ m.name)))
    +++ ((if m.description == "" then "" else " (" +++ (m.description +++ ")")) +++ "\n")

method_lines : List AuthMethod → String
unfolding method_line
method_lines [] = ""
method_lines (m ∷ ms) = method_line m +++ method_lines ms

list_methods : List AuthMethod → Outcome
unfolding method_lines
list_methods [] = say "No OAuth login methods available."
list_methods (m ∷ ms) = say ("Available login methods:\n\n" +++ method_lines (m ∷ ms))

module _ {A : Type 0} (auth : Authenticator A) where
  -- The loop of `resolveMethodID` over the methods.
  find_method : String → String → List AuthMethod → Option String
  find_method provider want [] = none
  find_method provider want (m ∷ ms) =
      if m.id == provider || auth.equal_fold (short_id m) want
      then some m.id
      else find_method provider want ms

  unknown_provider : String → List AuthMethod → String
  unfolding sort_text join_text
  unknown_provider provider methods =
      "unknown provider "
      +++ (auth.quote provider
          +++ (". Available: " +++ join_text ", " (sort_text (map short_id methods))))

  resolve_in : String → List AuthMethod → Result String
  unfolding find_method unknown_provider
  resolve_in provider [] = err "the agent advertises no OAuth login methods"
  resolve_in provider (m ∷ ms) =
      elim (find_method provider (auth.to_lower (trim_space provider)) (m ∷ ms)) [
        | some id ↦ ok id
        | none ↦ err (unknown_provider provider (m ∷ ms))
      ]

  pub resolve_method_id : A → String → Result String
  unfolding resolve_in filter_loginable
  resolve_method_id a provider = resolve_in provider (filter_loginable (auth.auth_methods a))

  -- What a result that asks for no redirect is answered with; `done` is the message of a success.
  settled_text : String → String → String
  settled_text done state =
      if state == "ok" || state == ""
      then done
      else if state == "cancelled"
      then "Login cancelled."
      else "Login returned unexpected state: " +++ (auth.quote state +++ ".")

  redirect_outcome : AuthResult → Outcome
  redirect_outcome res = record {
    text =
        ("Open this URL to authenticate, then paste the URL of the page you land on (even if it fails to load):\n\n"
          +++ (res.url +++ "\n"))
        +++ (if res.instructions == "" then "" else "\n" +++ (res.instructions +++ "\n"));
    url = res.url;
    instructions = res.instructions;
  }

  -- The answer to the first call of a login.
  started : Broker A → String → String → AuthResult → Outcome × Broker A
  unfolding settled_text redirect_outcome
  started b conv method res =
      if res.state == "needs_redirect"
      then (
        redirect_outcome res,
        record b {
          pending = insert conv (record { method_id = method; auth_id = res.id }) b.pending;
        },
      )
      else (say (settled_text ("✅ Already authenticated (" +++ (method +++ ").")) res.state), b)

  -- `start`, behind the resolution of the method.
  start_method : Broker A → String → String → Result Outcome × Broker A
  start_method b conv method = elim (lookup conv b.pending) [
    | some e ↦ (
      ok (
          say (
            "A login is already in progress ("
            +++ (e.method_id +++ "). Paste the redirect URL or send `/cancel-login`."))),
      b,
    )
    | none ↦
        (let (reply, a) = auth.authenticate b.agent method "" "" false in
          elim reply [
            | err e ↦ (err ("authenticate " +++ (method +++ (": " +++ e))), record b { agent = a })
            | ok res ↦
                (let (o, b') = started (record b { agent = a }) conv method res in (ok o, b'))
          ])
  ]

  pub start : Broker A → String → String → Result Outcome × Broker A
  unfolding start_method
  start b conv provider = elim (resolve_method_id b.agent provider) [
    | err e ↦ (ok (say e), b)
    | ok method ↦ start_method b conv method
  ]

  pub complete : Broker A → String → PendingEntry → String → Outcome × Broker A
  unfolding settled_text
  complete b conv entry redirect =
      if redirect == ""
      then (say "Empty paste — send the redirect URL or `/cancel-login`.", b)
      else (let (reply, a) =
            auth.authenticate b.agent entry.method_id entry.auth_id redirect false in
          let b' : Broker A = record { pending = delete conv b.pending; agent = a } in
          elim reply [
            | err e ↦ (
              say (
                  "❌ Login failed: "
                  +++ (e
                      +++ ("\n\nSend `/login "
                          +++ (trim_prefix entry.method_id "oauth-" +++ "` to try again.")))),
              b',
            )
            | ok res ↦ (
              say (settled_text ("✅ Authenticated (" +++ (entry.method_id +++ ").")) res.state),
              b',
            )
          ])

  pub cancel : Broker A → String → PendingEntry → Outcome × Broker A
  cancel b conv entry =
      let (reply, a) = auth.authenticate b.agent entry.method_id entry.auth_id "" true in
      let b' : Broker A = record { pending = delete conv b.pending; agent = a } in
      elim reply [
        | err e ↦ (say ("Login cancelled (agent reported: " +++ (e +++ ").")), b')
        | ok res ↦ (say "Login cancelled.", b')
      ]

  -- A turn of a conversation without a pending login; `none` leaves it to the prompt path.
  pub handle_command : Broker A → String → String → Result (Option Outcome) × Broker A
  unfolding list_methods
  handle_command b conv t =
      if is_login_command t
      then if t == "/cancel-login"
        then (ok (some (say "No login in progress.")), b)
        else if t == "/login" || t == "/logins"
        then (ok (some (list_methods (filter_loginable (auth.auth_methods b.agent)))), b)
        else (let (reply, b') = start b conv (trim_space (trim_prefix t "/login")) in
            elim reply [ ok o ↦ (ok (some o), b') | err e ↦ (err e, b') ])
      else (ok none, b)

  pub handle : Broker A → String → String → Result (Option Outcome) × Broker A
  handle b conv text = elim (lookup conv b.pending) [
    | some entry ↦
        (let t = trim_space text in
          let (o, b') =
            if t == "/cancel-login" then cancel b conv entry else complete b conv entry t in
          (ok (some o), b'))
    | none ↦ handle_command b conv (trim_space text)
  ]

  -- `HasPending`
  unfoldable pub has_pending : Broker A → String → Bool
  has_pending b conv = elim (lookup conv b.pending) [ some e ↦ true | none ↦ false ]
