-- ===== src/Router/Attachments/Blocks.antt =====
-- `attachmentBlocks` of internal/router/router.go, and the loop of `Prompt` over the attachments of a
-- message.
pub mod Distinct
pub mod Offered
mod Tests
use poe_acp_relay.Base.{
  Result, ok, err, map_ok, String, Bool, true, false, not, ◌&&◌, Option, none, some, List, [], ◌∷◌,
  ◌++◌, leb, if◌then◌else◌, ◌==◌, ℕ,
}
use poe_acp_relay.Base.Bytes.{Bytes}
use poe_acp_relay.Base.Paths.{join}
use poe_acp_relay.Poeproto.Requests.{Attachment}
use poe_acp_relay.Router.Types.{ContentBlock, image_block}
use poe_acp_relay.Router.Attachments.{
  Limits, max_inline_image_bytes, Codecs, Os, Fetched, fetched, failed, panicked,
  attachment_dir_name, text_resource_block, resource_link_block_https, file_resource_link_block,
  is_inline_image,
}
use poe_acp_relay.Router.Attachments.Download.{download_attachment}

-- `filepath.Join(cwd, attachmentDirName, msgID, finalName)`
pub file_path : Codecs → String → String → Bytes → String
file_path codecs cwd msg_id name = join (cwd ∷ attachment_dir_name ∷ msg_id ∷ codecs.text name ∷ [])

module _ {S : Type 0} (cfg : Limits) (codecs : Codecs) (os : Os S) where
  -- The link to a file and, where the file is an image that may go inline, its pixels.
  file_blocks : String → String → ℕ → Attachment → S → List ContentBlock × S
  file_blocks path name size a s =
      let link = file_resource_link_block codecs name path a.content_type in
      if is_inline_image a.content_type && leb size (max_inline_image_bytes cfg)
      then (let (r, s1) = os.read_file path s in
          elim r [
            | err e ↦ (link ∷ [], s1)
            | ok content ↦ (link ∷ image_block (codecs.base64 content) a.content_type ∷ [], s1)
          ])
      else (link ∷ [], s)

  -- What an attachment becomes, by what its download ended with; an error is a panic.
  offer : String → String → Attachment → Fetched → S → Result (List ContentBlock) × S
  unfolding file_path file_blocks
  offer cwd msg_id a (failed e) s = (ok (resource_link_block_https a ∷ []), s)
  offer cwd msg_id a (panicked e) s = (err e, s)
  offer cwd msg_id a (fetched name size) s =
      let path = file_path codecs cwd msg_id name in
      let (blocks, s') = file_blocks path (codecs.text name) size a s in (ok blocks, s')

  -- `attachmentBlocks`
  pub attachment_blocks :
      String
      → String
      → List Bytes
      → Attachment
      → Bool
      → S
      → Result (List ContentBlock) × List Bytes × S
  unfolding offer
  attachment_blocks cwd msg_id used a embedded s =
      if embedded && not (a.parsed_content == "")
      then (ok (text_resource_block a.url a.parsed_content a.content_type ∷ []), used, s)
      else (let (r, used', s1) = download_attachment cfg codecs os cwd msg_id used a s in
          let (blocks, s2) = offer cwd msg_id a r s1 in (blocks, used', s2))

  -- The loop of `Prompt`: attachments without a URL are left out, and a panic ends it.
  pub attach_all :
      String
      → String
      → Bool
      → List Attachment
      → List Bytes
      → S
      → Result (List ContentBlock) × List Bytes × S
  unfolding attachment_blocks
  attach_all cwd msg_id embedded [] used s = (ok [], used, s)
  attach_all cwd msg_id embedded (a ∷ others) used s = elim (a.url == "") [
    | true ↦ attach_all cwd msg_id embedded others used s
    | false ↦
        let (r, used', s1) = attachment_blocks cwd msg_id used a embedded s in
        elim r [
          | err e ↦ (err e, used', s1)
          | ok blocks ↦
              let (rest, used2, s2) = attach_all cwd msg_id embedded others used' s1 in
              (map_ok (λ more. blocks ++ more) rest, used2, s2)
        ]
  ]
