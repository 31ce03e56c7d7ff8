-- ===== src/Base/Text/Trimming.antt =====
-- What `strings.TrimSpace` leaves.
use Prim.Native.Char.{Char, code}
use Prim.Native.String.{String}
use mathlib.Core.Path.{◌≡◌, refl, ap, ◌∙◌}
use mathlib.Core.Logic.{inl, inr}
use mathlib.Core.Bool.{true, false, ◌&&◌}
use native.Mathlib.Omega.{arith}
use text.Mathlib.Text.{◌==◌}
use poe_acp_relay.Base.Tests.{Bool-cases}
use poe_acp_relay.Base.Text.{is_space, trim_left, trim_right, trim_space}

trim_right_end :
    (c : Char) (s : String)
    → (trim_right s == "" && is_space (code c)) ≡ true
    → trim_right (String.◌∷◌ c s) ≡ ""
unfolding trim_right
trim_right_end c s h = rw h refl

trim_right_kept :
    (c : Char) (s : String)
    → (trim_right s == "" && is_space (code c)) ≡ false
    → trim_right (String.◌∷◌ c s) ≡ String.◌∷◌ c (trim_right s)
unfolding trim_right
trim_right_kept c s h = rw h refl

trim_right_idem : (s : String) → trim_right (trim_right s) ≡ trim_right s
trim_right_idem String.[] = unfold trim_right in refl
trim_right_idem (String.◌∷◌ c s) = elim (Bool-cases (trim_right s == "" && is_space (code c))) [
  | inl e ↦ rw (trim_right_end c s e) (unfold trim_right in refl)
  | inr e ↦
      let same = trim_right_idem s in
      rw (trim_right_kept c s e) (
        trim_right_kept c (trim_right s) (ap (λ t. t == "" && is_space (code c)) same ∙ e)
        ∙ ap (λ t. String.◌∷◌ c t) same)
]

trim_left-trim_right :
    (s : String) → trim_left (trim_right (trim_left s)) ≡ trim_right (trim_left s)
unfolding trim_left
trim_left-trim_right String.[] = unfold trim_right in refl
trim_left-trim_right (String.◌∷◌ c s) = elim (Bool-cases (is_space (code c))) [
  | inl e ↦ rw (e, trim_left) (trim_left-trim_right s)
  | inr e ↦ unfold trim_right in ground (arith, e)
]

pub trim_space_idem : (s : String) → trim_space (trim_space s) ≡ trim_space s
unfolding trim_space
trim_space_idem s = ap trim_right (trim_left-trim_right s) ∙ trim_right_idem (trim_left s)
