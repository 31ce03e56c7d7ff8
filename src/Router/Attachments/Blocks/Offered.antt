-- ===== src/Router/Attachments/Blocks/Offered.antt =====
-- The forms in which the attachments of a message that have a URL reach the agent: the pre-parsed text,
-- a link to a file, with its pixels or without, or a link to where Poe keeps it.
use poe_acp_relay.Base.{
  ok, Result-cases, ◌≡◌, refl, inl, inr, ℕ, String, Bool, true, false, not, ◌&&◌, none, List, [],
  ◌∷◌, ◌++◌, leb, ◌==◌, Bool-cases, arith, eq_iff,
}
use poe_acp_relay.Base.Bytes.{Bytes}
use poe_acp_relay.Poeproto.Requests.{Attachment}
use poe_acp_relay.Router.Types.{ContentBlock, image_block}
use poe_acp_relay.Router.Attachments.Names.{free_name}
use poe_acp_relay.Router.Attachments.{
  Limits, Codecs, Os, Fetched, fetched, failed, panicked, fallback_name, text_resource_block,
  resource_link_block_https, file_resource_link_block, is_inline_image, max_inline_image_bytes,
}
use poe_acp_relay.Router.Attachments.Download.{download_attachment}
use poe_acp_relay.Router.Attachments.Download.Quiet.{panics, download_attachment-panics}
use poe_acp_relay.Router.Attachments.Blocks.{
  file_path, file_blocks, offer, attachment_blocks, attach_all,
}

-- The forms in which an attachment reaches the agent.
pub data IsOffer (codecs : Codecs) (a : Attachment) : List ContentBlock → Type 0 where
  parsed :
      (a.parsed_content == "") ≡ false
      → IsOffer codecs a (text_resource_block a.url a.parsed_content a.content_type ∷ [])
  remote : IsOffer codecs a (resource_link_block_https a ∷ [])
  local :
      (name path : String)
      → IsOffer codecs a (file_resource_link_block codecs name path a.content_type ∷ [])
  pixels :
      (name path : String) (content : Bytes)
      → is_inline_image a.content_type ≡ true
      → IsOffer codecs a (
          file_resource_link_block codecs name path a.content_type
          ∷ image_block (codecs.base64 content) a.content_type
          ∷ [])

-- Blocks that are the forms of the attachments that have a URL, in order.
pub data AreOffers (codecs : Codecs) : List Attachment → List ContentBlock → Type 0 where
  done : AreOffers codecs [] []
  skip :
      {a : Attachment} {others : List Attachment} {blocks : List ContentBlock}
      → a.url ≡ ""
      → AreOffers codecs others blocks
      → AreOffers codecs (a ∷ others) blocks
  take :
      {a : Attachment} {others : List Attachment} {group blocks : List ContentBlock}
      → IsOffer codecs a group
      → AreOffers codecs others blocks
      → AreOffers codecs (a ∷ others) (group ++ blocks)

module _ {S : Type 0} (cfg : Limits) (codecs : Codecs) (os : Os S) where
  file_blocks-IsOffer :
      (path name : String) (size : ℕ) (a : Attachment) (s : S)
      → IsOffer codecs a (file_blocks cfg codecs os path name size a s).0
  unfolding file_blocks
  file_blocks-IsOffer path name size a s = elim (Bool-cases (is_inline_image a.content_type)) [
    | inr e ↦ rw e (local name path)
    | inl e ↦ elim (Bool-cases (leb size (max_inline_image_bytes cfg))) [
      | inr d ↦ rw (e, d) (local name path)
      | inl d ↦ elim (Result-cases (os.read_file path s).0) [
        | inl (content, r) ↦ rw (e, d, r) (pixels name path content e)
        | inr (_, r) ↦ rw (e, d, r) (local name path)
      ]
    ]
  ]

  offer-IsOffer :
      (cwd msg_id : String) (a : Attachment) (r : Fetched) (s : S)
      → panics r ≡ false
      → (blocks : List ContentBlock) × ((offer cfg codecs os cwd msg_id a r s).0 ≡ ok blocks)
        × IsOffer codecs a blocks
  unfolding offer
  offer-IsOffer cwd msg_id a (failed e) s h = (resource_link_block_https a ∷ [], refl, remote)
  offer-IsOffer cwd msg_id a (panicked e) s h = absurd (ground (arith, h))
  offer-IsOffer cwd msg_id a (fetched name size) s h =
      let path = file_path codecs cwd msg_id name in
      (
        (file_blocks cfg codecs os path (codecs.text name) size a s).0,
        refl,
        file_blocks-IsOffer path (codecs.text name) size a s,
      )

  attachment_blocks-IsOffer :
      (cwd msg_id : String) (embedded : Bool) (used : List Bytes) (a : Attachment) (s : S)
      → ((root : ℕ) (a' : Attachment) (used' : List Bytes) (s' : S)
          → (os.create root (free_name (fallback_name codecs a') used') s').0 ≡ none)
      → ((root : ℕ) (name : Bytes) (s' : S) → (os.close root name s').0 ≡ none)
      → (blocks : List ContentBlock) × ((attachment_blocks cfg codecs os cwd msg_id used a embedded
            s).0
          ≡ ok blocks)
        × IsOffer codecs a blocks
  unfolding attachment_blocks
  attachment_blocks-IsOffer cwd msg_id embedded used a s accepts closes =
      elim (Bool-cases (embedded && not (a.parsed_content == ""))) [
        | inl e ↦ rw e (
          text_resource_block a.url a.parsed_content a.content_type ∷ [],
          refl,
          parsed (ground (arith, e)),
        )
        | inr e ↦
            let (r, _, s1) = download_attachment cfg codecs os cwd msg_id used a s in
            rw e (
              offer-IsOffer cwd msg_id a r s1
                (download_attachment-panics cfg codecs os accepts closes cwd msg_id used a s))
      ]

  -- Where a directory takes the fallback name of any attachment, made free, and files close without an
  -- error, a message's attachments never fail its prompt: each that has a URL becomes its pre-parsed
  -- text, a link to its file, with its pixels or without, or a link to its URL, in order.
  pub attach_all-AreOffers :
      (cwd msg_id : String) (embedded : Bool) (attachments : List Attachment) (used : List Bytes)
      (s : S)
      → ((root : ℕ) (a : Attachment) (used' : List Bytes) (s' : S)
          → (os.create root (free_name (fallback_name codecs a) used') s').0 ≡ none)
      → ((root : ℕ) (name : Bytes) (s' : S) → (os.close root name s').0 ≡ none)
      → (blocks : List ContentBlock) × ((attach_all cfg codecs os cwd msg_id embedded attachments
            used s).0
          ≡ ok blocks)
        × AreOffers codecs attachments blocks
  unfolding attach_all
  attach_all-AreOffers cwd msg_id embedded [] used s accepts closes = ([], refl, done)
  attach_all-AreOffers cwd msg_id embedded (a ∷ others) used s accepts closes =
      let (group, is, offered) =
        attachment_blocks-IsOffer cwd msg_id embedded used a s accepts closes in
      let (_, after, s1) = attachment_blocks cfg codecs os cwd msg_id used a embedded s in
      elim (Bool-cases (a.url == "")) [
        | inl e ↦
            let (rest, is', more) =
              attach_all-AreOffers cwd msg_id embedded others used s accepts closes in
            rw (e, attach_all) (rest, is', skip ((eq_iff a.url "").0 e) more)
        | inr e ↦
            let (rest, is', more) =
              attach_all-AreOffers cwd msg_id embedded others after s1 accepts closes in
            rw (e, attach_all, is, is') (group ++ rest, refl, take offered more)
      ]
