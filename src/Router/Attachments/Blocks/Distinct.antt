-- ===== src/Router/Attachments/Blocks/Distinct.antt =====
-- The names that the attachments of a message put into use, compared as bytes.
use poe_acp_relay.Base.{◌≡◌, false, List, [], ◌∷◌}
use poe_acp_relay.Base.Bytes.{Bytes, is_used}

-- Each name stands once.
abbrev pub IsDistinct : List Bytes → Type 0
IsDistinct [] = Unit
IsDistinct (name ∷ used) = (is_used name used ≡ false) × IsDistinct used
