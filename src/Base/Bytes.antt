-- ===== src/Base/Bytes.antt =====
-- Go's strings as bytes: equality, `%d`, and `path/filepath.Ext`.
use Prim.Native.Nat.{ℕ, zero, suc, ◌+◌, ◌-◌, ◌*◌, ◌/◌, ◌%◌, ◌≤◌}
use mathlib.Core.Path.{◌≡◌, refl, subst, ap, sym, ◌∙◌}
use mathlib.Core.Logic.{◌↔◌, inl, inr}
use mathlib.Core.Bool.{Bool, true, false, ◌&&◌}
use mathlib.Core.List.{List, [], ◌∷◌, ◌++◌}
use native.Mathlib.Omega.{arith}
use poe_acp_relay.Base.Tests.{if◌then◌else◌, nat_eq, Bool-cases}
use poe_acp_relay.Base.Lists.{any}

abbrev pub Bytes : Type 0
Bytes = List ℕ

-- `strings.HasSuffix`
abbrev pub EndsWith : Bytes → Bytes → Type 0
EndsWith s end = (front : Bytes) × (s ≡ front ++ end)

unfoldable pub bytes_eq : Bytes → Bytes → Bool
bytes_eq [] [] = true
bytes_eq [] (d ∷ t) = false
bytes_eq (c ∷ s) [] = false
bytes_eq (c ∷ s) (d ∷ t) = nat_eq c d && bytes_eq s t

bytes_eq_refl : (s : Bytes) → bytes_eq s s ≡ true
unfolding bytes_eq
bytes_eq_refl [] = refl
bytes_eq_refl (c ∷ s) = ground (arith, bytes_eq_refl s)

bytes_eq_sound : (s t : Bytes) → bytes_eq s t ≡ true → s ≡ t
unfolding bytes_eq
bytes_eq_sound [] [] h = refl
bytes_eq_sound [] (d ∷ t) h = ground (arith, h)
bytes_eq_sound (c ∷ s) [] h = ground (arith, h)
bytes_eq_sound (c ∷ s) (d ∷ t) h = ground (arith, h, bytes_eq_sound s t)

pub bytes_eq_iff : (s t : Bytes) → (bytes_eq s t ≡ true) ↔ (s ≡ t)
bytes_eq_iff s t = (bytes_eq_sound s t, λ e. subst (λ u. bytes_eq s u ≡ true) e (bytes_eq_refl s))

-- A member of a `map[string]struct{}`.
unfoldable pub is_used : Bytes → List Bytes → Bool
is_used name used = any (bytes_eq name) used

emit : ℕ → ℕ → Bytes → Bytes
emit zero n out = out
emit (suc k) n out =
    let rest = emit k (n / 10) ((b'0' + n % 10) ∷ out) in if nat_eq n 0 then out else rest

-- The verb `%d`.
unfoldable pub decimal : ℕ → Bytes
unfolding emit
decimal n = if nat_eq n 0 then b'0' ∷ [] else emit n n []

scan : Bytes → ℕ → ℕ
scan [] n = n
scan (c ∷ s) n = scan s (n * 10 + (c - b'0'))

scan-emit : (k n : ℕ) (out : Bytes) → n ≤ k → scan (emit k n out) 0 ≡ scan out n
unfolding emit
scan-emit zero n out h = ap (scan out) (omega arith)
scan-emit (suc k) n out h = elim (Bool-cases (nat_eq n 0)) [
  | inl e ↦ rw e (ap (scan out) (ground arith))
  | inr e ↦ rw e (
      scan-emit k (n / 10) ((b'0' + n % 10) ∷ out) (ground arith)
      ∙ unfold scan in ap (scan out) (omega arith))
]

scan-decimal : (n : ℕ) → scan (decimal n) 0 ≡ n
unfolding decimal scan
scan-decimal n = elim (Bool-cases (nat_eq n 0)) [
  | inl e ↦ rw e (ground arith)
  | inr e ↦ rw e (scan-emit n n [] (omega arith))
]

pub decimal_inj : (m n : ℕ) → decimal m ≡ decimal n → m ≡ n
decimal_inj m n e = sym (scan-decimal m) ∙ (ap (λ s. scan s 0) e ∙ scan-decimal n)
