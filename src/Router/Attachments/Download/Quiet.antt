-- ===== src/Router/Attachments/Download/Quiet.antt =====
-- When no download panics.
use Prim.Native.Nat.{◌/◌}
use poe_acp_relay.Base.{
  ok, Result-cases, ◌≡◌, refl, inl, inr, ℕ, suc, String, Bool, true, false, not, ◌&&◌, none, List,
  ltb, nat_eq, Bool-cases, Option-cases,
}
use poe_acp_relay.Base.Bytes.{Bytes}
use poe_acp_relay.Poeproto.Requests.{Attachment}
use poe_acp_relay.Router.Attachments.Names.{free_name}
use poe_acp_relay.Router.Attachments.{
  Limits, max_attachment_bytes, Codecs, Os, Response, Fetched, panicked, fallback_name,
  preferred_name,
}
use poe_acp_relay.Router.Attachments.Download.{
  create_file, fill_file, store_file, take_response, fetch, open_message_dir, download_attachment,
}

abbrev pub panics : Fetched → Bool
panics (panicked e) = true
panics _ = false

module _ {S : Type 0} (cfg : Limits) (codecs : Codecs) (os : Os S)
    (accepts : (root : ℕ) (a : Attachment) (used : List Bytes) (s : S)
      → (os.create root (free_name (fallback_name codecs a) used) s).0 ≡ none)
    (closes : (root : ℕ) (name : Bytes) (s : S) → (os.close root name s).0 ≡ none) where
  create_file_accepted :
      (root : ℕ) (used : List Bytes) (a : Attachment) (s : S)
      → (name : Bytes) × ((create_file cfg codecs os root used a s).0 ≡ ok name)
  unfolding create_file
  create_file_accepted root used a s =
      let name = free_name (preferred_name codecs a) used in
      elim (Option-cases (os.create root name s).0) [
        | inl e ↦ rw (e, create_file) (name, refl)
        | inr (_, e) ↦
            rw (e, create_file, accepts root a used (os.create root name s).1)
              (free_name (fallback_name codecs a) used, refl)
      ]

  fill_file-panics :
      (root : ℕ) (name : Bytes) (resp : Response) (s : S)
      → panics (fill_file cfg codecs os root name resp s).0 ≡ false
  unfolding fill_file
  fill_file-panics root name resp s =
      let ((n, copied), s1) = os.copy root name (suc (max_attachment_bytes cfg)) resp s in
      elim (Option-cases copied) [
        | inr (_, e) ↦ rw (panics, closes root name s1, e) refl
        | inl e ↦ elim (Bool-cases (ltb (max_attachment_bytes cfg) n)) [
          | inl l ↦ rw (panics, closes root name s1, e, l) refl
          | inr l ↦ rw (panics, closes root name s1, e, l) refl
        ]
      ]

  store_file-panics :
      (root : ℕ) (used : List Bytes) (a : Attachment) (resp : Response) (s : S)
      → panics (store_file cfg codecs os root used a resp s).0 ≡ false
  unfolding store_file
  store_file-panics root used a resp s =
      let (name, e) = create_file_accepted root used a s in
      rw (e, panics) (fill_file-panics root name resp (create_file cfg codecs os root used a s).1)

  take_response-panics :
      (root : ℕ) (used : List Bytes) (a : Attachment) (resp : Response) (s : S)
      → panics (take_response cfg codecs os root used a resp s).0 ≡ false
  unfolding take_response
  take_response-panics root used a resp s =
      let big = ltb 0 resp.content_length && ltb (max_attachment_bytes cfg) resp.content_length in
      elim (Bool-cases (not (nat_eq (resp.status_code / 100) 2))) [
        | inl e ↦ rw (e, panics) refl
        | inr e ↦ elim (Bool-cases big) [
          | inl d ↦ rw (e, d, panics) refl
          | inr d ↦ rw (e, d, panics) (store_file-panics root used a resp s)
        ]
      ]

  fetch-panics :
      (root : ℕ) (used : List Bytes) (a : Attachment) (s : S)
      → panics (fetch cfg codecs os root used a s).0 ≡ false
  unfolding fetch
  fetch-panics root used a s = elim (Result-cases (os.get a.url s).0) [
    | inl (resp, e) ↦ rw (e, panics) (take_response-panics root used a resp (os.get a.url s).1)
    | inr (_, e) ↦ rw (e, panics) refl
  ]

  pub download_attachment-panics :
      (cwd msg_id : String) (used : List Bytes) (a : Attachment) (s : S)
      → panics (download_attachment cfg codecs os cwd msg_id used a s).0 ≡ false
  unfolding download_attachment
  download_attachment-panics cwd msg_id used a s =
      let (opened, s1) = open_message_dir cfg codecs os cwd msg_id s in
      elim (Result-cases opened) [
        | inl (root, e) ↦ rw (e, panics) (fetch-panics root used a s1)
        | inr (_, e) ↦ rw (e, panics) refl
      ]
