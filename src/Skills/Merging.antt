-- ===== src/Skills/Merging.antt =====
-- What `Merge` of internal/skills/skills.go keeps, and in which order.
use Prim.Native.String.{compare}
use Prim.Native.String.compare
use text.Mathlib.TextPositions.{compare_refl}
use text.Mathlib.Text.{is_le}
use poe_acp_relay.Base.{
  ◌≡◌, refl, sym, ap, subst, ◌∙◌, inl, inr, String, true, false, not, Option, none, some, List, [],
  ◌∷◌, filter, map, if◌then◌else◌, ◌==◌, eq_iff, eq-cases, arith, Dict, lookup, insert,
  lookup-insert, Bool-cases, IsMap, insert-IsMap,
}
use poe_acp_relay.Skills.{
  Skill, insert_by_name, sort_by_name, file_layer, file_layers, is_disabled, merge,
}

-- The skill of a name.
abbrev pub find_skill : String → List Skill → Option Skill
find_skill name [] = none
find_skill name (s ∷ skills) = if s.name == name then some s else find_skill name skills

-- The last skill of a name, or the one before them all.
abbrev pub last_skill : String → List Skill → Option Skill → Option Skill
last_skill name [] old = old
last_skill name (s ∷ skills) old = last_skill name skills (if s.name == name then some s else old)

abbrev pub last_of_layers : String → List (List Skill) → Option Skill → Option Skill
last_of_layers name [] old = old
last_of_layers name (layer ∷ layers) old = last_of_layers name layers (last_skill name layer old)

-- Sorted by name.
abbrev pub IsSorted : List Skill → Type 0
IsSorted [] = Unit
IsSorted (s ∷ []) = Unit
IsSorted (s ∷ t ∷ skills) = (is_le (compare s.name t.name) ≡ true) × IsSorted (t ∷ skills)

compare_swap : (s t : String) → is_le (compare s t) ≡ false → is_le (compare t s) ≡ true
compare_swap String.[] String.[] h = ground (arith, h, compare.nil-nil)
compare_swap String.[] (String.◌∷◌ d t) h = ground (arith, h, compare.nil-cons d t)
compare_swap (String.◌∷◌ c s) String.[] h = rw (compare.nil-cons c s) refl
compare_swap (String.◌∷◌ c s) (String.◌∷◌ d t) h =
    let longer = sym (ap is_le (compare.cons-cons c d s t)) ∙ h in
    rw (compare.cons-cons d c t s) (ground (arith, longer, compare_swap s t))

find_skill-insert_by_name :
    (name : String) (s : Skill) (skills : List Skill)
    → find_skill name (insert_by_name s skills)
      ≡ (if s.name == name then some s else find_skill name skills)
unfolding insert_by_name
find_skill-insert_by_name name s [] = refl
find_skill-insert_by_name name s (t ∷ skills) = elim (Bool-cases (is_le (compare s.name t.name))) [
  | inl e ↦ rw e refl
  | inr e ↦
      rw (e, find_skill-insert_by_name name s skills)
        (ground (arith, e, eq_iff s.name name, eq_iff t.name name, compare_refl name))
]

find_skill-sort_by_name :
    (name : String) (skills : List Skill)
    → find_skill name (sort_by_name skills) ≡ find_skill name skills
unfolding sort_by_name
find_skill-sort_by_name name [] = refl
find_skill-sort_by_name name (s ∷ skills) =
    rw (find_skill-insert_by_name name s (sort_by_name skills), find_skill-sort_by_name name skills)
      refl

tail-IsSorted : (t : Skill) (skills : List Skill) → IsSorted (t ∷ skills) → IsSorted skills
tail-IsSorted t [] h = tt
tail-IsSorted t (u ∷ skills) h = h.1

-- A first skill stays first where it is not after the one that is inserted.
insert_by_name_after :
    (t s : Skill) (skills : List Skill)
    → is_le (compare t.name s.name) ≡ true
    → IsSorted (t ∷ skills)
    → IsSorted (insert_by_name s skills)
    → IsSorted (t ∷ insert_by_name s skills)
unfolding insert_by_name
insert_by_name_after t s [] le h k = (le, tt)
insert_by_name_after t s (u ∷ skills) le (lu, h) k =
    elim (Bool-cases (is_le (compare s.name u.name))) [
      | inl e ↦ rw e (le, (e, h))
      | inr e ↦ rw e (
        lu,
        subst IsSorted (ap (λ b. if b then s ∷ u ∷ skills else u ∷ insert_by_name s skills) e) k,
      )
    ]

insert_by_name-IsSorted :
    (s : Skill) (skills : List Skill) → IsSorted skills → IsSorted (insert_by_name s skills)
unfolding insert_by_name
insert_by_name-IsSorted s [] h = tt
insert_by_name-IsSorted s (t ∷ skills) h = elim (Bool-cases (is_le (compare s.name t.name))) [
  | inl e ↦ rw e (e, h)
  | inr e ↦ rw e (
      insert_by_name_after t s skills (compare_swap s.name t.name e) h
        (insert_by_name-IsSorted s skills (tail-IsSorted t skills h)))
]

pub sort_by_name-IsSorted : (skills : List Skill) → IsSorted (sort_by_name skills)
unfolding sort_by_name
sort_by_name-IsSorted [] = tt
sort_by_name-IsSorted (s ∷ skills) =
    insert_by_name-IsSorted s (sort_by_name skills) (sort_by_name-IsSorted skills)

-- No two skills have the same name.
abbrev pub AreNamedOnce : List Skill → Type 0
AreNamedOnce [] = Unit
AreNamedOnce (s ∷ skills) = (find_skill s.name skills ≡ none) × AreNamedOnce skills

insert_by_name-AreNamedOnce :
    (s : Skill) (skills : List Skill)
    → find_skill s.name skills ≡ none
    → AreNamedOnce skills
    → AreNamedOnce (insert_by_name s skills)
unfolding insert_by_name
insert_by_name-AreNamedOnce s [] fresh h = (refl, tt)
insert_by_name-AreNamedOnce s (t ∷ skills) fresh (once, h) =
    elim (Bool-cases (is_le (compare s.name t.name))) [
      | inl e ↦ rw e (fresh, (once, h))
      | inr e ↦ elim (eq-cases t.name s.name) [
        | inl same ↦ absurd (ground (arith, fresh, eq_iff t.name s.name))
        | inr other ↦ rw e (
          find_skill-insert_by_name t.name s skills
              ∙ ground (arith, once, eq_iff s.name t.name, eq_iff t.name s.name),
          insert_by_name-AreNamedOnce s skills (ground (arith, fresh)) h,
        )
      ]
    ]

sort_by_name-AreNamedOnce :
    (skills : List Skill) → AreNamedOnce skills → AreNamedOnce (sort_by_name skills)
unfolding sort_by_name
sort_by_name-AreNamedOnce [] h = tt
sort_by_name-AreNamedOnce (s ∷ skills) (once, h) =
    insert_by_name-AreNamedOnce s (sort_by_name skills)
      (find_skill-sort_by_name s.name skills ∙ once) (sort_by_name-AreNamedOnce skills h)

-- In what `Merge` files, each skill stands under its own name.
abbrev IsNamed : Dict Skill → Type 0
IsNamed [] = Unit
IsNamed (entry ∷ by) = (entry.1.name ≡ entry.0) × IsNamed by

insert-IsNamed : (s : Skill) (by : Dict Skill) → IsNamed by → IsNamed (insert s.name s by)
unfolding insert
insert-IsNamed s [] h = (refl, tt)
insert-IsNamed s (entry ∷ by) (n, h) = elim (Bool-cases (entry.0 == s.name)) [
  | inl e ↦ rw (e, insert) (refl, h)
  | inr e ↦ rw (e, insert) (n, insert-IsNamed s by h)
]

file_layer-IsNamed :
    (by : Dict Skill) (layer : List Skill) → IsNamed by → IsNamed (file_layer by layer)
unfolding file_layer
file_layer-IsNamed by [] h = h
file_layer-IsNamed by (s ∷ layer) h =
    file_layer-IsNamed (insert s.name s by) layer (insert-IsNamed s by h)

file_layers-IsNamed :
    (by : Dict Skill) (layers : List (List Skill)) → IsNamed by → IsNamed (file_layers by layers)
unfolding file_layers
file_layers-IsNamed by [] h = h
file_layers-IsNamed by (layer ∷ layers) h =
    file_layers-IsNamed (file_layer by layer) layers (file_layer-IsNamed by layer h)

lookup-file_layer :
    (name : String) (by : Dict Skill) (layer : List Skill)
    → lookup name (file_layer by layer) ≡ last_skill name layer (lookup name by)
unfolding file_layer
lookup-file_layer name by [] = refl
lookup-file_layer name by (s ∷ layer) =
    lookup-file_layer name (insert s.name s by) layer
    ∙ ap (last_skill name layer) (lookup-insert s.name name s by)

lookup-file_layers :
    (name : String) (by : Dict Skill) (layers : List (List Skill))
    → lookup name (file_layers by layers) ≡ last_of_layers name layers (lookup name by)
unfolding file_layers
lookup-file_layers name by [] = refl
lookup-file_layers name by (layer ∷ layers) =
    lookup-file_layers name (file_layer by layer) layers
    ∙ ap (last_of_layers name layers) (lookup-file_layer name by layer)

-- The skill of a name among those that are not disabled.
find_skill_enabled :
    (name : String) (disable : List String) (by : Dict Skill)
    → IsNamed by
    → find_skill name
        (map (λ entry. entry.1) (filter (λ entry. not (is_disabled disable entry.0)) by))
      ≡ (if is_disabled disable name then none else lookup name by)
unfolding lookup
find_skill_enabled name disable [] h = ground arith
find_skill_enabled name disable (entry ∷ by) (n, h) =
    let kept = find_skill_enabled name disable by h in
    elim (Bool-cases (is_disabled disable entry.0)) [
      | inl d ↦ elim (eq-cases entry.0 name) [
        | inl e ↦ rw (d, kept) (rw (subst (λ x. is_disabled disable x ≡ true) e d) refl)
        | inr e ↦ rw (d, kept, e) refl
      ]
      | inr d ↦ elim (eq-cases entry.0 name) [
        | inl e ↦
            rw (d, kept, n)
              (rw (subst (λ x. is_disabled disable x ≡ false) e d, (eq_iff entry.0 name).1 e) refl)
        | inr e ↦ rw (d, kept, n, e) refl
      ]
    ]

-- The skills that are left of a map in which a key stands once.
enabled-AreNamedOnce :
    (disable : List String) (by : Dict Skill)
    → IsNamed by
    → IsMap by
    → AreNamedOnce (map (λ entry. entry.1) (filter (λ entry. not (is_disabled disable entry.0)) by))
enabled-AreNamedOnce disable [] h u = tt
enabled-AreNamedOnce disable (entry ∷ by) (n, h) (fresh, u) =
    elim (Bool-cases (is_disabled disable entry.0)) [
      | inl d ↦ rw d (enabled-AreNamedOnce disable by h u)
      | inr d ↦ rw d (
        ap (λ k. find_skill k (map (λ e. e.1) (filter (λ e. not (is_disabled disable e.0)) by))) n
            ∙ find_skill_enabled entry.0 disable by h
            ∙ rw d fresh,
        enabled-AreNamedOnce disable by h u,
      )
    ]

file_layer-IsMap : (by : Dict Skill) (layer : List Skill) → IsMap by → IsMap (file_layer by layer)
unfolding file_layer
file_layer-IsMap by [] h = h
file_layer-IsMap by (s ∷ layer) h =
    file_layer-IsMap (insert s.name s by) layer (insert-IsMap s.name s by h)

file_layers-IsMap :
    (by : Dict Skill) (layers : List (List Skill)) → IsMap by → IsMap (file_layers by layers)
unfolding file_layers
file_layers-IsMap by [] h = h
file_layers-IsMap by (layer ∷ layers) h =
    file_layers-IsMap (file_layer by layer) layers (file_layer-IsMap by layer h)

-- Of each name `Merge` keeps the last skill of the last layer that has one, and none if the name is
-- disabled; and what it returns is sorted by name, with each name once.
pub merge_lem :
    (layers : List (List Skill)) (disable : List String)
    → ((name : String)
        → find_skill name (merge layers disable)
          ≡ (if is_disabled disable name then none else last_of_layers name layers none))
      × IsSorted (merge layers disable)
      × AreNamedOnce (merge layers disable)
unfolding merge lookup
merge_lem layers disable = (
  λ name.
      find_skill-sort_by_name name (
        map (λ entry. entry.1)
          (filter (λ entry. not (is_disabled disable entry.0)) (file_layers [] layers)))
      ∙ (find_skill_enabled name disable (file_layers [] layers) (file_layers-IsNamed [] layers tt)
          ∙ ap (λ found. if is_disabled disable name then none else found)
              (lookup-file_layers name [] layers)),
  sort_by_name-IsSorted (
      map (λ entry. entry.1)
        (filter (λ entry. not (is_disabled disable entry.0)) (file_layers [] layers))),
  sort_by_name-AreNamedOnce
      (map (λ entry. entry.1)
        (filter (λ entry. not (is_disabled disable entry.0)) (file_layers [] layers)))
      (enabled-AreNamedOnce disable (file_layers [] layers) (file_layers-IsNamed [] layers tt)
        (file_layers-IsMap [] layers tt)),
)
