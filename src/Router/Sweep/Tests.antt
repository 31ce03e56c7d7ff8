-- ===== src/Router/Sweep/Tests.antt =====
-- A sweep at a concrete disk, whose state is what has been removed.
use poe_acp_relay.Base.{
  ◌≡◌, refl, ℕ, String, true, false, none, some, Option, List, [], ◌∷◌, ◌==◌, if◌then◌else◌,
}
use poe_acp_relay.Base.Paths.{join}
use poe_acp_relay.Router.Sweep.{DirEntry, Disk, sweep_attachments_once}
use poe_acp_relay.Router.Sweep.Expired.{MayGo, sweep_attachments_once-keeps}

abbrev dir : String → DirEntry
dir name = record { name = name; is_dir = true; info = none }

abbrev plain_file : String → ℕ → DirEntry
plain_file name written = record { name = name; is_dir = false; info = some (true, written) }

abbrev listing : String → Option (List DirEntry)
listing path =
    if path == "/s/convs"
    then some (dir "c1" ∷ plain_file "notes" 0 ∷ [])
    else if path == "/s/convs/c1/.poe-attachments"
    then some (dir "m1" ∷ dir "m2" ∷ [])
    else if path == "/s/convs/c1/.poe-attachments/m1"
    then some (plain_file "old" 3 ∷ [])
    else if path == "/s/convs/c1/.poe-attachments/m2"
    then some (plain_file "old" 3 ∷ plain_file "new" 95 ∷ [])
    else none

abbrev shelf : Disk (List String)
shelf = record { read_dir = λ path s. listing path; remove = λ path s. (true, path ∷ s) }

sweep_test :
    sweep_attachments_once shelf 10 100 "/s" []
    ≡ "/s/convs/c1/.poe-attachments/m2/old" ∷ "/s/convs/c1/.poe-attachments/m1"
      ∷ "/s/convs/c1/.poe-attachments/m1/old" ∷ []
unfolding sweep_attachments_once join
sweep_test = refl

-- All that has been removed was expired.
abbrev AllMayGo : List String → Type 0
AllMayGo [] = Unit
AllMayGo (path ∷ gone) = MayGo shelf 10 100 (join ("/s" ∷ "convs" ∷ [])) path × AllMayGo gone

sweep_attachments_once-keeps_example : AllMayGo (sweep_attachments_once shelf 10 100 "/s" [])
sweep_attachments_once-keeps_example =
    sweep_attachments_once-keeps shelf 10 100 AllMayGo "/s" (λ path s may h. (may, h)) [] tt
