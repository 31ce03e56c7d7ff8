-- ===== src/Skills/Loading/Listed.antt =====
-- What `LoadDir` and `LoadBuiltin` of internal/skills/skills.go return.
use Prim.Native.String.{compare}
use text.Mathlib.Text.{is_le}
use poe_acp_relay.Base.{
  Result, ok, err, ◌≡◌, refl, subst, inl, inr, String, true, false, Option, none, some, List, [],
  ◌∷◌, ◌==◌, All, Bool-cases, Option-cases,
}
use poe_acp_relay.Skills.{Skill, parse_frontmatter, insert_by_name, sort_by_name}
use poe_acp_relay.Skills.Merging.{IsSorted, sort_by_name-IsSorted}
use poe_acp_relay.Skills.Loading.{
  Entry, Listing, missing, unreadable, listed, HostFiles, skill_path, load_entry, load_entries,
  load_listing, load_dir,
}

-- A skill that was read from its file in a directory of its own: with the file's description, and the
-- file's name for it or else the directory's.
abbrev pub IsRead : HostFiles → String → Skill → Type 0
IsRead host abs s =
    (e : Entry) × (body : String) × (e.is_dir ≡ true)
    × (host.read_file (skill_path abs e) ≡ some body)
    × (s.path ≡ skill_path abs e)
    × (s.description ≡ (parse_frontmatter body).description)
    × ((s.description == "") ≡ false)

IsLoaded : HostFiles → String → Option Skill → Type 0
IsLoaded host abs none = Unit
IsLoaded host abs (some s) = IsRead host abs s

load_entry-IsLoaded :
    (host : HostFiles) (abs : String) (e : Entry) → IsLoaded host abs (load_entry host abs e)
unfolding load_entry IsLoaded
load_entry-IsLoaded host abs e = elim (Bool-cases e.is_dir) [
  | inr n ↦ rw (n, IsLoaded) tt
  | inl d ↦ elim (Option-cases (host.read_file (skill_path abs e))) [
    | inl r ↦ rw (d, r, IsLoaded) tt
    | inr (body, r) ↦ elim (Bool-cases ((parse_frontmatter body).description == "")) [
      | inl q ↦ rw (d, r, q, IsLoaded) tt
      | inr q ↦ rw (d, r, q, IsLoaded) (e, body, d, r, refl, refl, q)
    ]
  ]
]

load_entries-IsRead :
    (host : HostFiles) (abs : String) (entries : List Entry)
    → All (IsRead host abs) (load_entries host abs entries)
unfolding load_entries IsLoaded
load_entries-IsRead host abs [] = tt
load_entries-IsRead host abs (e ∷ entries) = elim (Option-cases (load_entry host abs e)) [
  | inl n ↦ rw (n, All) (load_entries-IsRead host abs entries)
  | inr (s, found) ↦
      rw (found, All)
        (
          subst (IsLoaded host abs) found (load_entry-IsLoaded host abs e),
          load_entries-IsRead host abs entries,
        )
]

insert_by_name-All :
    (P : Skill → Type 0) (s : Skill) (skills : List Skill)
    → P s
    → All P skills
    → All P (insert_by_name s skills)
unfolding insert_by_name
insert_by_name-All P s [] p h = (p, tt)
insert_by_name-All P s (t ∷ skills) p (q, h) = elim (Bool-cases (is_le (compare s.name t.name))) [
  | inl e ↦ rw e (p, (q, h))
  | inr e ↦ rw e (q, insert_by_name-All P s skills p h)
]

sort_by_name-All :
    (P : Skill → Type 0) (skills : List Skill) → All P skills → All P (sort_by_name skills)
unfolding sort_by_name
sort_by_name-All P [] h = tt
sort_by_name-All P (s ∷ skills) (p, h) =
    insert_by_name-All P s (sort_by_name skills) p (sort_by_name-All P skills h)

IsSound : HostFiles → String → Result (List Skill) → Type 0
IsSound host abs (ok skills) = IsSorted skills × All (IsRead host abs) skills
IsSound host abs (err e) = Unit

load_listing-IsSound :
    (host : HostFiles) (abs : String) (l : Listing) → IsSound host abs (load_listing host abs l)
unfolding load_listing IsSound
load_listing-IsSound host abs missing = (tt, tt)
load_listing-IsSound host abs (unreadable e) = tt
load_listing-IsSound host abs (listed entries) =
    let skills = load_entries host abs entries in
    (
      sort_by_name-IsSorted skills,
      sort_by_name-All (IsRead host abs) skills (load_entries-IsRead host abs entries),
    )

load_dir-IsSound :
    (host : HostFiles) (path abs : String)
    → host.abs path ≡ ok abs
    → IsSound host abs (load_dir host path)
unfolding load_dir IsSound
load_dir-IsSound host path abs found = elim (Bool-cases (path == "")) [
  | inl e ↦ rw (e, IsSound) (tt, tt)
  | inr e ↦ rw (e, found, IsSound) (load_listing-IsSound host abs (host.read_dir abs))
]

-- Where `LoadDir` returns skills, they are sorted by name, and each was read from the file of a
-- directory: with that file's description, which is not empty.
pub load_dir-IsRead :
    (host : HostFiles) (path abs : String) (skills : List Skill)
    → host.abs path ≡ ok abs
    → load_dir host path ≡ ok skills
    → IsSorted skills × All (IsRead host abs) skills
unfolding IsSound
load_dir-IsRead host path abs skills found loaded =
    subst (IsSound host abs) loaded (load_dir-IsSound host path abs found)
