-- ===== src/Skills/Loading.antt =====
-- `LoadDir`, `LoadBuiltin` and `bundleHashFS` of internal/skills/skills.go. The embedded files are the
-- list of what `fs.WalkDir` visits; the disk is a record of operations on a state of its own.
pub mod Listed
use Prim.Native.String.{◌++◌ as ◌+++◌}
use poe_acp_relay.Base.{
  Result, ok, err, String, Bool, true, false, not, ◌&&◌, ◌||◌, Option, none, some, List, [], ◌∷◌,
  if◌then◌else◌, ◌==◌,
}
use poe_acp_relay.Base.Paths.{base_name, dir_name, join, clean, split_char, join_text}
use poe_acp_relay.Base.Text.{trim_prefix}
use poe_acp_relay.Skills.{Skill, parse_frontmatter, sort_by_name}

-- An entry of a directory, as `os.ReadDir` gives it.
pub record Entry : Type 0 where
  pub name : String
  pub is_dir : Bool

pub data Listing : Type 0 where
  missing : Listing
  unreadable : String → Listing
  listed : List Entry → Listing

-- `filepath.Abs`, `os.ReadDir`, and `os.ReadFile`, none where it fails.
pub record HostFiles : Type 0 where
  pub abs : String → Result String
  pub read_dir : String → Listing
  pub read_file : String → Option String

pub skill_path : String → Entry → String
skill_path abs e = join (abs ∷ e.name ∷ "SKILL.md" ∷ [])

-- The skill of one directory, if it has one with a description.
load_entry : HostFiles → String → Entry → Option Skill
unfolding skill_path
load_entry host abs e = elim e.is_dir [
  | false ↦ none
  | true ↦ elim (host.read_file (skill_path abs e)) [
    | none ↦ none
    | some body ↦
        let front = parse_frontmatter body in
        if front.description == ""
        then none
        else some (record {
          name = if front.name == "" then e.name else front.name;
          description = front.description;
          path = skill_path abs e;
        })
  ]
]

load_entries : HostFiles → String → List Entry → List Skill
unfolding load_entry
load_entries host abs [] = []
load_entries host abs (e ∷ entries) =
    let rest = load_entries host abs entries in
    elim (load_entry host abs e) [ none ↦ rest | some s ↦ s ∷ rest ]

load_listing : HostFiles → String → Listing → Result (List Skill)
unfolding load_entries sort_by_name
load_listing host abs missing = ok []
load_listing host abs (unreadable e) = err e
load_listing host abs (listed entries) = ok (sort_by_name (load_entries host abs entries))

-- `LoadDir`
unfoldable pub load_dir : HostFiles → String → Result (List Skill)
unfolding load_listing
load_dir host path =
    if path == ""
    then ok []
    else elim (host.abs path) [ err e ↦ err e | ok abs ↦ load_listing host abs (host.read_dir abs) ]

-- What `fs.WalkDir` visits in the bundle: a path, whether it is a directory, and the file's content or
-- the error of the walk or the read.
pub record Visit : Type 0 where
  pub path : String
  pub is_dir : Bool
  pub walk_error : Option String
  pub content : Result String

-- The text that `bundleHashFS` hashes; `nul`, the byte 0, ends each path and each content.
bundle_text : String → List Visit → Result String
bundle_text nul [] = ok ""
bundle_text nul (v ∷ visits) =
    let rest = bundle_text nul visits in
    elim v.walk_error [
      | some e ↦ err e
      | none ↦ elim v.is_dir [
        | true ↦ rest
        | false ↦ elim v.content [
          | err e ↦ err e
          | ok b ↦ elim rest [
            | err e ↦ err e
            | ok more ↦ ok (v.path +++ (nul +++ (b +++ (nul +++ more))))
          ]
        ]
      ]
    ]

-- `bundleHashFS`; `sha256` stands for the digest in hexadecimal.
pub bundle_hash_fs : (String → String) → String → List Visit → Result String
unfolding bundle_text
bundle_hash_fs sha256 nul visits = elim (bundle_text nul visits) [
  | err e ↦ err e
  | ok t ↦ ok (sha256 t)
]

-- The disk that the bundle is written to.
pub record Target (S : Type 0) : Type 0 where
  pub mkdir_all : String → S → Option String × S
  pub read_file : String → S → Option String
  pub write_file : String → String → S → Option String × S

module _ {S : Type 0} (target : Target S) where
  -- A file is written only where the disk has another content or none.
  pub write_if_changed : String → String → S → Option String × S
  write_if_changed path body s =
      if elim (target.read_file path s) [ none ↦ false | some found ↦ found == body ]
      then (none, s)
      else target.write_file path body s

  -- A built-in skill is put on the disk; it is named by its directory where its frontmatter does not.
  extract : String → Visit → String → S → Result (Option Skill) × S
  unfolding write_if_changed dir_name base_name
  extract root v body s =
      let front = parse_frontmatter body in
      let rel = trim_prefix v.path "bundle/" in
      let dst = join (root ∷ rel ∷ []) in
      if front.builtin
      then (let (made, s1) = target.mkdir_all (dir_name dst) s in
          elim made [
            | some e ↦ (err e, s1)
            | none ↦
                let (written, s2) = write_if_changed dst body s1 in
                elim written [
                  | some e ↦ (err e, s2)
                  | none ↦ (
                    ok (
                        some (record {
                          name = if front.name == "" then base_name (dir_name rel) else front.name;
                          description = front.description;
                          path = dst;
                        })),
                    s2,
                  )
                ]
          ])
      else (ok none, s)

  visit : String → Visit → S → Result (Option Skill) × S
  unfolding extract base_name
  visit root v s = elim v.walk_error [
    | some e ↦ (err e, s)
    | none ↦
        if v.is_dir || not (base_name v.path == "SKILL.md")
        then (ok none, s)
        else elim v.content [ err e ↦ (err e, s) | ok body ↦ extract root v body s ]
  ]

  visit_all : String → List Visit → S → Result (List Skill) × S
  unfolding visit
  visit_all root [] s = (ok [], s)
  visit_all root (v ∷ visits) s =
      let (r, s1) = visit root v s in
      elim r [
        | err e ↦ (err e, s1)
        | ok found ↦
            let (rest, s2) = visit_all root visits s1 in
            elim rest [
              | err e ↦ (err e, s2)
              | ok skills ↦ (ok (elim found [ none ↦ skills | some skill ↦ skill ∷ skills ]), s2)
            ]
      ]

  -- `LoadBuiltin`, with the digest's first twelve digits and the directory for temporary files.
  pub load_builtin : Result String → String → List Visit → S → Result (List Skill) × S
  unfolding visit_all
  load_builtin hash temp_dir visits s = elim hash [
    | err e ↦ (err ("hash bundle: " +++ e), s)
    | ok digits ↦
        let (r, s1) =
          visit_all (join (temp_dir ∷ ("poe-acp-" +++ digits) ∷ "skills" ∷ [])) visits s in
        elim r [ err e ↦ (err e, s1) | ok skills ↦ (ok (sort_by_name skills), s1) ]
  ]
