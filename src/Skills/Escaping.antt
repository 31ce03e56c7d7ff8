-- ===== src/Skills/Escaping.antt =====
-- The escapes of the catalogue of internal/skills/skills.go, and a reader of entities.
pub mod Entry
use Prim.Native.Char.{Char, code}
use Prim.Native.String.{◌++◌ as ◌+++◌}
use text.Mathlib.TextEquality.{Char-path}
use poe_acp_relay.Base.{
  ◌≡◌, refl, ap, inl, inr, String, Bool, true, not, ◌&&◌, Option, none, some, nat_eq, if◌then◌else◌,
  ◌==◌, Bool-cases, arith, ◌∙◌, ℕ,
}
use poe_acp_relay.Skills.{prepend, escape_char, escape_xml}

-- What an entity stands for; another is left as it is.
entity : String → String
entity name =
    if name == "amp"
    then "&"
    else if name == "lt"
    then "<"
    else if name == "gt"
    then ">"
    else "&" +++ (name +++ ";")

-- A reader of entities; `some name` is an entity that has begun.
pub unescape : Option String → String → String
unfolding entity prepend
unescape none String.[] = ""
unescape (some name) String.[] = "&" +++ name
unescape none (String.◌∷◌ c s) =
    let after = unescape (some "") s in
    let plain = String.◌∷◌ c (unescape none s) in if nat_eq (code c) b'&' then after else plain
unescape (some name) (String.◌∷◌ c s) =
    let after = prepend (entity name) (unescape none s) in
    let longer = unescape (some (name +++ String.◌∷◌ c "")) s in
    if nat_eq (code c) b';' then after else longer

char_at : (d c : Char) → nat_eq (code c) (code d) ≡ true → d ≡ c
char_at d c h = Char-path d c (ground (arith, h))

unescape-escape_char :
    (c : Char) (t : String)
    → unescape none (prepend (escape_char c) t) ≡ String.◌∷◌ c (unescape none t)
unfolding unescape escape_char prepend
unescape-escape_char c t = elim (Bool-cases (nat_eq (code c) b'&')) [
  | inl e ↦ rw e (ap (λ x. String.◌∷◌ x (unescape none t)) (char_at "&" c e))
  | inr e ↦ elim (Bool-cases (nat_eq (code c) b'<')) [
    | inl d ↦ rw (e, d) (ap (λ x. String.◌∷◌ x (unescape none t)) (char_at "<" c d))
    | inr d ↦ elim (Bool-cases (nat_eq (code c) b'>')) [
      | inl f ↦ rw (e, d, f) (ap (λ x. String.◌∷◌ x (unescape none t)) (char_at ">" c f))
      | inr f ↦ rw (e, d, f) (rw (e, unescape) refl)
    ]
  ]
]

unescape-escape_xml : (s : String) → unescape none (escape_xml s) ≡ s
unfolding escape_xml
unescape-escape_xml String.[] = unfold unescape in refl
unescape-escape_xml (String.◌∷◌ c s) =
    unescape-escape_char c (escape_xml s) ∙ ap (λ t. String.◌∷◌ c t) (unescape-escape_xml s)

-- A text without a character.
abbrev pub lacks : ℕ → String → Bool
lacks k String.[] = true
lacks k (String.◌∷◌ c s) = not (nat_eq (code c) k) && lacks k s

lacks-prepend :
    (k : ℕ) (s t : String) → lacks k s ≡ true → lacks k t ≡ true → lacks k (prepend s t) ≡ true
unfolding prepend
lacks-prepend k String.[] t h g = g
lacks-prepend k (String.◌∷◌ c s) t h g = ground (arith, h, g, lacks-prepend k s t)

escape_char-lacks :
    (c : Char) → (lacks b'<' (escape_char c) ≡ true) × (lacks b'>' (escape_char c) ≡ true)
unfolding escape_char
escape_char-lacks c = elim (Bool-cases (nat_eq (code c) b'&')) [
  | inl e ↦ rw (e, lacks) (refl, refl)
  | inr e ↦ elim (Bool-cases (nat_eq (code c) b'<')) [
    | inl d ↦ rw (e, d, lacks) (refl, refl)
    | inr d ↦ elim (Bool-cases (nat_eq (code c) b'>')) [
      | inl f ↦ rw (e, d, f, lacks) (refl, refl)
      | inr f ↦ rw (e, d, f, lacks) (ground (arith, d), ground (arith, f))
    ]
  ]
]

escape_xml-lacks :
    (s : String) → (lacks b'<' (escape_xml s) ≡ true) × (lacks b'>' (escape_xml s) ≡ true)
unfolding escape_xml
escape_xml-lacks String.[] = (refl, refl)
escape_xml-lacks (String.◌∷◌ c s) =
    let (no_open, no_close) = escape_char-lacks c in
    let (rest_open, rest_close) = escape_xml-lacks s in
    (
      lacks-prepend b'<' (escape_char c) (escape_xml s) no_open rest_open,
      lacks-prepend b'>' (escape_char c) (escape_xml s) no_close rest_close,
    )

-- Reading the entities of an escaped text gives the text back, and an escaped text has neither `<` nor
-- `>`.
pub escape_xml_lem :
    (s : String)
    → (unescape none (escape_xml s) ≡ s)
      × (lacks b'<' (escape_xml s) ≡ true)
      × (lacks b'>' (escape_xml s) ≡ true)
escape_xml_lem s = (unescape-escape_xml s, (escape_xml-lacks s).0, (escape_xml-lacks s).1)
