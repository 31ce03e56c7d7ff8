-- ===== src/Router/Attachments/Blocks/Tests.antt =====
-- Attachments at concrete inputs.
use poe_acp_relay.Base.{◌≡◌, refl, String, true, false, some, List, [], ◌∷◌}
use poe_acp_relay.Base.Bytes.{Bytes, EndsWith, bytes_eq, is_used, decimal}
use poe_acp_relay.Poeproto.Requests.{Attachment}
use poe_acp_relay.Router.Attachments.{max_attachment_bytes, preferred_name, fallback_name}
use poe_acp_relay.Router.TestDisk.{codes, small, plain, disk}
use poe_acp_relay.Router.Attachments.Names.{free_name, ext, cap_name, unique_name}
use poe_acp_relay.Router.Attachments.Names.Free.{unique_name-found}
use poe_acp_relay.Router.Attachments.Download.{download_attachment}
use poe_acp_relay.Router.Attachments.Download.Capped.{IsKept, download_attachment-IsKept}
use poe_acp_relay.Router.Attachments.Blocks.{attach_all}

abbrev image : String → Attachment
image name = record {
  url = "https://poe/f";
  content_type = "image/png";
  name = name;
  parsed_content = "";
}

abbrev gone : Attachment
gone = record { url = "https://poe/gone"; content_type = ""; name = "g.txt"; parsed_content = "" }

abbrev twice : List Attachment
twice = image "a.png" ∷ gone ∷ image "a.png" ∷ []

two_files :
    (attach_all small plain (disk true) "/w" "m1" false twice [] []).1
    ≡ codes "a-2.png" ∷ codes "a.png" ∷ []
unfolding attach_all download_attachment preferred_name fallback_name free_name cap_name
    max_attachment_bytes is_used bytes_eq decimal
two_files = refl

hostile_name :
    (attach_all small plain (disk true) "/w" "m1" false (image "../x" ∷ []) [] []).1
    ≡ codes "attachment-00c0ffee.bin" ∷ []
unfolding attach_all download_attachment preferred_name fallback_name free_name cap_name
    max_attachment_bytes is_used bytes_eq decimal
hostile_name = refl

download_attachment-IsKept_example :
    IsKept small []
      (download_attachment small plain (disk true) "/w" "m1" [] (image "a.png") []).0
      (download_attachment small plain (disk true) "/w" "m1" [] (image "a.png") []).1
download_attachment-IsKept_example =
    download_attachment-IsKept small plain (disk true) "/w" "m1" [] (image "a.png") []

unique_name-found_example :
    (found : Bytes) × (unique_name (codes "a.png") (codes "a.png" ∷ codes "a-2.png" ∷ [])
      ≡ some found)
    × (is_used found (codes "a.png" ∷ codes "a-2.png" ∷ []) ≡ false)
    × EndsWith found (ext (codes "a.png"))
unique_name-found_example = unique_name-found (codes "a.png") (codes "a.png" ∷ codes "a-2.png" ∷ [])

third_name :
    unique_name (codes "a.png") (codes "a.png" ∷ codes "a-2.png" ∷ []) ≡ some (codes "a-3.png")
unfolding unique_name is_used bytes_eq decimal
third_name = refl

capped_name : cap_name (codes "holiday.jpeg") 8 ≡ codes "hol.jpeg"
unfolding cap_name
capped_name = refl
