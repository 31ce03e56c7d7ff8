-- ===== src/Router/Attachments/Names/Capped.antt =====
-- The extension of a name, and what `capName` keeps.
use poe_acp_relay.Base.{
  ◌≡◌, refl, sym, ap, inl, inr, ℕ, ◌-◌, ◌<◌, ◌≤◌, [], ◌∷◌, length, length-append, append-nil, take,
  length-take, leb, nat_eq, arith, Bool-cases,
}
use poe_acp_relay.Base.Bytes.{Bytes, EndsWith}
use poe_acp_relay.Router.Attachments.Names.{
  Scanned, dotted, stopped, nothing, ext_step, ext_scan, scanned_ext, ext, cap_name,
}

EndsWith-nil : (s : Bytes) → EndsWith s []
EndsWith-nil s = (s, sym (append-nil s))

-- A scan that ends in a text has found it at the end.
IsEnd : Scanned → Bytes → Type 0
IsEnd (dotted e) s = EndsWith s e
IsEnd _ s = Unit

ext_step-IsEnd : (c : ℕ) (s : Bytes) (r : Scanned) → IsEnd r s → IsEnd (ext_step c s r) (c ∷ s)
unfolding ext_step IsEnd
ext_step-IsEnd c s (dotted e) (front, h) = (c ∷ front, ap (λ t. c ∷ t) h)
ext_step-IsEnd c s stopped h = tt
ext_step-IsEnd c s nothing h = elim (Bool-cases (nat_eq c b'/')) [
  | inl e ↦ rw e tt
  | inr e ↦ elim (Bool-cases (nat_eq c b'.')) [
    | inl d ↦ rw (e, d) ([], refl)
    | inr d ↦ rw (e, d) tt
  ]
]

ext_scan-IsEnd : (s : Bytes) → IsEnd (ext_scan s) s
unfolding ext_scan
ext_scan-IsEnd [] = unfold IsEnd in tt
ext_scan-IsEnd (c ∷ s) = ext_step-IsEnd c s (ext_scan s) (ext_scan-IsEnd s)

scanned_ext-EndsWith : (r : Scanned) (s : Bytes) → IsEnd r s → EndsWith s (scanned_ext r)
unfolding scanned_ext IsEnd
scanned_ext-EndsWith (dotted e) s h = h
scanned_ext-EndsWith stopped s h = EndsWith-nil s
scanned_ext-EndsWith nothing s h = EndsWith-nil s

pub ext-EndsWith : (s : Bytes) → EndsWith s (ext s)
unfolding ext
ext-EndsWith s = scanned_ext-EndsWith (ext_scan s) s (ext_scan-IsEnd s)

-- A capped name is within the bound, and ends with the extension of the name where that is shorter
-- than the bound; a name within the bound stays.
pub cap_name_lem :
    (name : Bytes) (max : ℕ)
    → (length (cap_name name max) ≤ max)
      × (length name ≤ max → cap_name name max ≡ name)
      × (length (ext name) < max → EndsWith (cap_name name max) (ext name))
unfolding cap_name
cap_name_lem name max = elim (Bool-cases (leb (length name) max)) [
  | inl e ↦ rw e (ground (arith, e), λ _. refl, λ _. ext-EndsWith name)
  | inr e ↦ elim (Bool-cases (leb max (length (ext name)))) [
    | inl l ↦
        rw (e, l)
          (length-take max name, λ h. absurd (ground (arith, e)), λ h. absurd (ground (arith, l)))
    | inr l ↦
        rw (e, l)
          (
            rw (length-append (take (max - length (ext name)) name) (ext name))
                (ground (arith, length-take (max - length (ext name)) name, l)),
            λ h. absurd (ground (arith, e)),
            λ h. (take (max - length (ext name)) name, refl),
          )
  ]
]
