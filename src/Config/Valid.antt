-- ===== src/Config/Valid.antt =====
-- What `Load` of internal/config/config.go lets through.
use poe_acp_relay.Base.{◌≡◌, refl, inl, inr, Result, ok, err, Result-cases, String, Bool}
use poe_acp_relay.Paramctl.{validate}
use poe_acp_relay.Config.{FileConfig, Opened, missing, unreadable, opened, load}

abbrev pub IsValid : (String → String) → Result (FileConfig × Bool) → Type 0
IsValid quote (ok (cfg, found)) = validate quote cfg.defaults ≡ ok tt
IsValid quote (err e) = Unit

pub load-IsValid :
    (quote : String → String) (decode : String → Result FileConfig) (path : String) (o : Opened)
    → IsValid quote (load quote decode path o)
unfolding load
load-IsValid quote decode path missing = unfold validate in refl
load-IsValid quote decode path (unreadable e) = tt
load-IsValid quote decode path (opened text) = elim (Result-cases (decode text)) [
  | inr (_, e) ↦ rw (e, IsValid) tt
  | inl (cfg, e) ↦ elim (Result-cases (validate quote cfg.defaults)) [
    | inr (_, v) ↦ rw (e, v, IsValid) tt
    | inl (tt, v) ↦ rw (e, v, IsValid) v
  ]
]
