-- ===== src/Skills/Escaping/Entry.antt =====
-- The entry of a skill in the catalogue, read back by its tags.
use Prim.Native.Char.{Char, code}
use Prim.Native.String.{◌++◌ as ◌+++◌}
use poe_acp_relay.Base.{
  ◌≡◌, refl, ap, ◌∙◌, inl, inr, String, Bool, true, false, none, List, [], ◌∷◌, map, nat_eq,
  if◌then◌else◌, Bool-cases, arith,
}
use package.text.Mathlib.TextLemmas.{nil-append, cons-append}
use poe_acp_relay.Skills.{Skill, prepend, escape_xml, catalog_entry}
use poe_acp_relay.Skills.Escaping.{unescape, lacks, escape_xml_lem}

-- A character in front of the first stretch.
abbrev longer : Char → List String → List String
longer c [] = String.◌∷◌ c "" ∷ []
longer c (t ∷ ts) = String.◌∷◌ c t ∷ ts

-- A reader of tags: the stretches of text between them; `true` stands in a tag, up to its `>`.
unfoldable pub texts : Bool → String → List String
texts true String.[] = []
texts false String.[] = "" ∷ []
texts true (String.◌∷◌ c s) =
    let outside = texts false s in
    let inside = texts true s in if nat_eq (code c) b'>' then outside else inside
texts false (String.◌∷◌ c s) =
    let inside = texts true s in
    let rest = texts false s in if nat_eq (code c) b'<' then "" ∷ inside else longer c rest

prepend_lem : (s t : String) → s +++ t ≡ prepend s t
unfolding prepend
prepend_lem String.[] t = nil-append t
prepend_lem (String.◌∷◌ c s) t = cons-append c s t ∙ ap (λ r. String.◌∷◌ c r) (prepend_lem s t)

-- A text without `<` is one stretch, up to the tag behind it.
texts-lacks :
    (t rest : String)
    → lacks b'<' t ≡ true
    → texts false (prepend t (String.◌∷◌ "<" rest)) ≡ t ∷ texts true rest
unfolding texts prepend
texts-lacks String.[] rest h = refl
texts-lacks (String.◌∷◌ c t) rest h = elim (Bool-cases (nat_eq (code c) b'<')) [
  | inl e ↦ absurd (ground (arith, h, e))
  | inr e ↦ rw (e, texts) (ap (longer c) (texts-lacks t rest (ground (arith, h, e))))
]

-- An entry with texts that are escaped.
entry_of : String → String → String → String
unfolding prepend
entry_of n d p = prepend "  <skill>\n    <name>" (
    prepend n (
      prepend "</name>\n    <description>" (
        prepend d
          (prepend "</description>\n    <location>" (prepend p "</location>\n  </skill>\n")))))

catalog_entry-entry_of :
    (s : Skill)
    → catalog_entry s ≡ entry_of (escape_xml s.name) (escape_xml s.description) (escape_xml s.path)
unfolding catalog_entry entry_of
catalog_entry-entry_of s =
    prepend_lem "  <skill>\n    <name>" _
    ∙ ap (prepend "  <skill>\n    <name>") (
        prepend_lem (escape_xml s.name) _
        ∙ ap (prepend (escape_xml s.name)) (
            prepend_lem "</name>\n    <description>" _
            ∙ ap (prepend "</name>\n    <description>") (
                prepend_lem (escape_xml s.description) _
                ∙ ap (prepend (escape_xml s.description)) (
                    prepend_lem "</description>\n    <location>" _
                    ∙ ap (prepend "</description>\n    <location>")
                        (prepend_lem (escape_xml s.path) _)))))

texts-entry_of :
    (n d p : String)
    → lacks b'<' n ≡ true
    → lacks b'<' d ≡ true
    → lacks b'<' p ≡ true
    → texts false (entry_of n d p)
      ≡ "  " ∷ "\n    " ∷ n ∷ "\n    " ∷ d ∷ "\n    " ∷ p ∷ "\n  " ∷ "\n" ∷ []
unfolding entry_of texts
texts-entry_of n d p one two three =
    ap (λ l. "  " ∷ "\n    " ∷ l)
      (texts-lacks n _ one
        ∙ ap (λ l. n ∷ "\n    " ∷ l)
            (texts-lacks d _ two ∙ ap (λ l. d ∷ "\n    " ∷ l) (texts-lacks p _ three)))

-- The entry of a skill in the catalogue, cut at its tags and read as entities, has its name, its
-- description and its path, each whole and in its place, whatever they are, and nothing else but the
-- layout.
pub catalog_entry_lem :
    (s : Skill)
    → map (unescape none) (texts false (catalog_entry s))
      ≡ "  " ∷ "\n    " ∷ s.name ∷ "\n    " ∷ s.description ∷ "\n    " ∷ s.path ∷ "\n  " ∷ "\n" ∷ []
unfolding catalog_entry
catalog_entry_lem s =
    let (name, no_name_tag, _) = escape_xml_lem s.name in
    let (description, no_description_tag, _) = escape_xml_lem s.description in
    let (path, no_path_tag, _) = escape_xml_lem s.path in
    ap (λ t. map (unescape none) (texts false t)) (catalog_entry-entry_of s)
    ∙ (ap (map (unescape none)) (texts-entry_of _ _ _ no_name_tag no_description_tag no_path_tag)
        ∙ (unfold unescape in rw (name, description, path) refl))
