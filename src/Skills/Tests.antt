-- ===== src/Skills/Tests.antt =====
-- Skills at concrete inputs.
use Prim.Native.String.{◌++◌ as ◌+++◌}
use poe_acp_relay.Base.{
  ok, ◌≡◌, refl, String, map, true, false, none, some, List, [], ◌∷◌, if◌then◌else◌, ◌==◌,
}
use poe_acp_relay.Base.Paths.{join}
use poe_acp_relay.Skills.{Skill, catalog_entry, parse_frontmatter, escape_xml, merge, is_disabled}
use poe_acp_relay.Skills.Escaping.{unescape}
use poe_acp_relay.Skills.Escaping.Entry.{texts, catalog_entry_lem}
use poe_acp_relay.Skills.Merging.{find_skill, last_of_layers, IsSorted, AreNamedOnce, merge_lem}
use poe_acp_relay.Skills.Loading.{HostFiles, listed, load_dir}

abbrev release_body : String
release_body =
    "---\nname: release\ndescription: \"cut a <release>\"\nbuiltin: true\n---\n# Release\n"

frontmatter_test :
    parse_frontmatter release_body
    ≡ record { name = "release"; description = "cut a <release>"; builtin = true }
unfolding parse_frontmatter
frontmatter_test = refl

abbrev skill : String → String → Skill
skill name description = record { name = name; description = description; path = "/s/" +++ name }

abbrev layers : List (List Skill)
layers =
    (skill "update" "old" ∷ skill "deploy" "d" ∷ [])
    ∷ (skill "update" "new" ∷ skill "noise" "n" ∷ [])
    ∷ []

merge_test : merge layers ("noise" ∷ []) ≡ skill "deploy" "d" ∷ skill "update" "new" ∷ []
unfolding merge
merge_test = refl

escape_test : escape_xml "a <b> & c" ≡ "a &lt;b&gt; &amp; c"
unfolding escape_xml
escape_test = refl

catalog_entry_lem_example :
    map (unescape none) (texts false (catalog_entry (skill "a" "</skill> & <b>")))
    ≡ "  " ∷ "\n    " ∷ "a" ∷ "\n    " ∷ "</skill> & <b>" ∷ "\n    " ∷ "/s/a" ∷ "\n  " ∷ "\n" ∷ []
catalog_entry_lem_example = catalog_entry_lem (skill "a" "</skill> & <b>")

merge_lem_example :
    ((name : String)
      → find_skill name (merge layers ("noise" ∷ []))
        ≡ (if is_disabled ("noise" ∷ []) name then none else last_of_layers name layers none))
    × IsSorted (merge layers ("noise" ∷ []))
    × AreNamedOnce (merge layers ("noise" ∷ []))
merge_lem_example = merge_lem layers ("noise" ∷ [])

abbrev home : HostFiles
home = record {
  abs = λ path. ok path;
  read_dir = λ path.
      listed
        (record { name = "rel"; is_dir = true } ∷ record { name = "x.txt"; is_dir = false } ∷ []);
  read_file = λ path. if path == "/h/rel/SKILL.md" then some release_body else none;
}

abbrev loaded : List Skill
loaded = record { name = "release"; description = "cut a <release>"; path = "/h/rel/SKILL.md" } ∷ []

load_dir_test : load_dir home "/h" ≡ ok loaded
unfolding load_dir parse_frontmatter join
load_dir_test = refl
