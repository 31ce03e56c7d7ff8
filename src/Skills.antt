-- ===== src/Skills.antt =====
-- internal/skills/skills.go: the frontmatter of a skill, the catalogue that an agent is given, and the
-- layers of skills.
pub mod Escaping
pub mod Merging
pub mod Loading
mod Tests
use Prim.Native.Char.{Char, code}
use Prim.Native.String.{compare, ◌++◌ as ◌+++◌}
use text.Mathlib.Text.{is_le}
use poe_acp_relay.Base.Paths.{split_char}
use poe_acp_relay.Base.Text.{has_prefix, drop_prefix, trim_space}
use poe_acp_relay.Base.{
  String, Bool, true, false, ◌&&◌, ◌||◌, Option, none, some, List, [], ◌∷◌, nat_eq, any, filter,
  map, not, Dict, insert, if◌then◌else◌, ◌==◌,
}

-- `Skill`
pub record Skill : Type 0 where
  pub name : String
  pub description : String
  pub path : String

-- Concatenation that goes by the characters of the first text.
unfoldable pub prepend : String → String → String
prepend String.[] t = t
prepend (String.◌∷◌ c s) t = String.◌∷◌ c (prepend s t)

-- `escapeXML` at one character.
escape_char : Char → String
escape_char c =
    if nat_eq (code c) b'&'
    then "&amp;"
    else if nat_eq (code c) b'<'
    then "&lt;"
    else if nat_eq (code c) b'>'
    then "&gt;"
    else String.◌∷◌ c ""

-- `escapeXML`
unfoldable pub escape_xml : String → String
unfolding escape_char prepend
escape_xml String.[] = ""
escape_xml (String.◌∷◌ c s) = prepend (escape_char c) (escape_xml s)

pub catalog_entry : Skill → String
unfolding escape_xml
catalog_entry s =
    "  <skill>\n    <name>"
    +++ (escape_xml s.name
        +++ ("</name>\n    <description>"
            +++ (escape_xml s.description
                +++ ("</description>\n    <location>"
                    +++ (escape_xml s.path +++ "</location>\n  </skill>\n")))))

catalog_entries : List Skill → String
unfolding catalog_entry
catalog_entries [] = ""
catalog_entries (s ∷ skills) = catalog_entry s +++ catalog_entries skills

-- `FormatCatalog`
unfoldable pub format_catalog : List Skill → String
unfolding catalog_entries
format_catalog [] = ""
format_catalog (s ∷ skills) =
    ("The following skills provide specialized instructions for specific tasks.\n"
      +++ ("Use your read tool to load a skill's SKILL.md when the task matches its description.\n"
          +++ ("Skill body paths are absolute and stable for the lifetime of this session.\n\n"
              +++ "<available_skills>\n")))
    +++ (catalog_entries (s ∷ skills) +++ "</available_skills>\n")

-- What `parseFrontmatter` reads.
pub record Front : Type 0 where
  pub name : String
  pub description : String
  pub builtin : Bool

abbrev pub no_front : Front
no_front = record { name = ""; description = ""; builtin = false }

-- `strings.Cut`: the text before a separator, and what follows it.
unfoldable pub cut : String → String → Option (String × String)
unfolding has_prefix drop_prefix
cut sep String.[] = if sep == "" then some ("", "") else none
cut sep (String.◌∷◌ c s) =
    let later = cut sep s in
    if has_prefix (String.◌∷◌ c s) sep
    then some ("", drop_prefix (String.◌∷◌ c s) sep)
    else elim later [ none ↦ none | some (before, after) ↦ some (String.◌∷◌ c before, after) ]

is_quote : Char → Bool
is_quote c = nat_eq (code c) 34 || nat_eq (code c) 39

trim_quotes_left : String → String
unfolding is_quote
trim_quotes_left String.[] = ""
trim_quotes_left (String.◌∷◌ c s) = if is_quote c then trim_quotes_left s else String.◌∷◌ c s

trim_quotes_right : String → String
unfolding is_quote
trim_quotes_right String.[] = ""
trim_quotes_right (String.◌∷◌ c s) =
    let rest = trim_quotes_right s in if rest == "" && is_quote c then "" else String.◌∷◌ c rest

-- One line of the frontmatter; another key than the three is left out.
read_line : Front → String → Front
unfolding cut trim_space trim_quotes_left trim_quotes_right
read_line front line = elim (cut ":" line) [
  | none ↦ front
  | some (before, after) ↦
      let key = trim_space before in
      let v = trim_quotes_right (trim_quotes_left (trim_space after)) in
      if key == "name"
      then record front { name = v }
      else if key == "description"
      then record front { description = v }
      else if key == "builtin"
      then record front { builtin = v == "true" }
      else front
]

read_lines : Front → List String → Front
unfolding read_line
read_lines front [] = front
read_lines front (line ∷ lines) = read_lines (read_line front line) lines

-- `parseFrontmatter`
unfoldable pub parse_frontmatter : String → Front
unfolding read_lines cut has_prefix drop_prefix split_char
parse_frontmatter body =
    if has_prefix body "---\n"
    then elim (cut "\n---" (drop_prefix body "---\n")) [
      | none ↦ no_front
      | some (block, _) ↦ read_lines no_front (split_char 10 block)
    ]
    else no_front

-- `sort.Slice` by name. Go leaves the order of equal names open; here they stay as they were.
insert_by_name : Skill → List Skill → List Skill
insert_by_name s [] = s ∷ []
insert_by_name s (t ∷ skills) =
    let later = t ∷ insert_by_name s skills in
    if is_le (compare s.name t.name) then s ∷ t ∷ skills else later

unfoldable pub sort_by_name : List Skill → List Skill
unfolding insert_by_name
sort_by_name [] = []
sort_by_name (s ∷ skills) = insert_by_name s (sort_by_name skills)

-- The loops of `Merge` over the layers: `by[s.Name] = s`.
file_layer : Dict Skill → List Skill → Dict Skill
unfolding insert
file_layer by [] = by
file_layer by (s ∷ layer) = file_layer (insert s.name s by) layer

file_layers : Dict Skill → List (List Skill) → Dict Skill
unfolding file_layer
file_layers by [] = by
file_layers by (layer ∷ layers) = file_layers (file_layer by layer) layers

-- Whether a name is in the set of those that are dropped.
pub is_disabled : List String → String → Bool
is_disabled disable name = any (λ d. d == name) disable

-- `Merge`; the order of Go's map does not matter, since no name stands twice in it.
unfoldable pub merge : List (List Skill) → List String → List Skill
unfolding file_layers sort_by_name is_disabled
merge layers disable = sort_by_name (
    map (λ entry. entry.1)
      (filter (λ entry. not (is_disabled disable entry.0)) (file_layers [] layers)))
