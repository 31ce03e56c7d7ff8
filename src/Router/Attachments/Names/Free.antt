-- ===== src/Router/Attachments/Names/Free.antt =====
-- The names that `uniqueName` tries.
use mathlib.Core.List.{append_cancel_left, append_cancel_right}
use poe_acp_relay.Base.{
  ◌≡◌, refl, sym, inl, inr, ℕ, zero, suc, ◌<◌, ◌≤◌, true, false, not, some, List, [], ◌∷◌, ◌++◌,
  length, filter, length-filter, arith, Bool-cases, ◌∙◌, ◌≢◌,
}
use poe_acp_relay.Base.Bytes.{
  Bytes, bytes_eq, bytes_eq_iff, EndsWith, is_used, decimal, decimal_inj,
}
use poe_acp_relay.Router.Attachments.Names.Capped.{ext-EndsWith}
use poe_acp_relay.Router.Attachments.Names.{
  ext, trim_suffix, candidate, first_free, unique_name, free_name,
}

remove : Bytes → List Bytes → List Bytes
remove x used = filter (λ u. not (bytes_eq x u)) used

is_used-remove :
    (x y : Bytes) (used : List Bytes) → y ≢ x → is_used y (remove x used) ≡ is_used y used
unfolding is_used remove
is_used-remove x y [] h = refl
is_used-remove x y (u ∷ used) h =
    ground (arith, is_used-remove x y used h, bytes_eq_iff x u, bytes_eq_iff y u, h)

length-remove :
    (x : Bytes) (used : List Bytes) → is_used x used ≡ true → length (remove x used) < length used
unfolding is_used remove
length-remove x [] h = ground (arith, h)
length-remove x (u ∷ used) h =
    ground (arith, h, length-remove x used, length-filter (λ u. not (bytes_eq x u)) used)

candidate_inj : (stem end : Bytes) (i j : ℕ) → candidate stem end i ≡ candidate stem end j → i ≡ j
unfolding candidate
candidate_inj stem end i j h = decimal_inj i j (
    append_cancel_left (b'-' ∷ []) (decimal i) (decimal j) (
      append_cancel_left stem (b'-' ∷ decimal i) (b'-' ∷ decimal j)
        (append_cancel_right (stem ++ b'-' ∷ decimal i) (stem ++ b'-' ∷ decimal j) end h)))

first_free-remove :
    (fuel : ℕ) (stem end : Bytes) (used : List Bytes) (i j : ℕ)
    → i < j
    → first_free fuel stem end (remove (candidate stem end i) used) j
      ≡ first_free fuel stem end used j
unfolding first_free
first_free-remove zero stem end used i j h = refl
first_free-remove (suc fuel) stem end used i j h =
    rw
      (
        is_used-remove (candidate stem end i) (candidate stem end j) used
            (λ e. absurd (omega (arith, candidate_inj stem end j i e))),
        first_free-remove fuel stem end used i (suc j) (omega arith),
      )
      refl

first_free-found :
    (fuel : ℕ) (stem end : Bytes) (used : List Bytes) (i : ℕ)
    → length used < fuel
    → (j : ℕ) × (i ≤ j)
      × (first_free fuel stem end used i ≡ some (candidate stem end j))
      × (is_used (candidate stem end j) used ≡ false)
unfolding first_free
first_free-found zero stem end used i h = absurd (omega arith)
first_free-found (suc fuel) stem end used i h =
    elim (Bool-cases (is_used (candidate stem end i) used)) [
      | inl e ↦
          let (j, le, found, free) =
            first_free-found fuel stem end (remove (candidate stem end i) used) (suc i)
              (omega (arith, length-remove (candidate stem end i) used e)) in
          rw e (
            j,
            omega (arith, le),
            sym (first_free-remove fuel stem end used i (suc i) (omega arith)) ∙ found,
            sym (
                  is_used-remove (candidate stem end i) (candidate stem end j) used
                    (λ q. absurd (omega (arith, le, candidate_inj stem end j i q))))
                ∙ free,
          )
      | inr e ↦ rw e (i, omega arith, refl, e)
    ]

-- `uniqueName` ends with a name that is not in use and keeps the extension, within a round more than
-- there are used names.
pub unique_name-found :
    (name : Bytes) (used : List Bytes)
    → (found : Bytes) × (unique_name name used ≡ some found)
      × (is_used found used ≡ false)
      × EndsWith found (ext name)
unfolding unique_name candidate
unique_name-found name used = elim (Bool-cases (is_used name used)) [
  | inl e ↦
      let stem = trim_suffix name (ext name) in
      let (j, le, found, free) =
        first_free-found (suc (length used)) stem (ext name) used 2 (omega arith) in
      rw e (candidate stem (ext name) j, found, free, (stem ++ b'-' ∷ decimal j, refl))
  | inr e ↦ rw e (name, refl, e, ext-EndsWith name)
]

pub free_name-found :
    (name : Bytes) (used : List Bytes) → is_used (free_name name used) used ≡ false
unfolding free_name
free_name-found name used =
    let (found, is, free, _) = unique_name-found name used in rw (is, free_name) free
