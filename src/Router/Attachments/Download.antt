-- ===== src/Router/Attachments/Download.antt =====
-- `openMessageDir` and `downloadAttachment` of internal/router/router.go, with the two panics of
-- internal/router/attachment_io_must.go.
pub mod Capped
pub mod Quiet
use Prim.Native.Nat.{◌/◌}
use Prim.Native.String.{◌++◌ as ◌+++◌}
use poe_acp_relay.Base.{
  Result, ok, err, ℕ, suc, String, Bool, true, false, not, ◌&&◌, Option, none, some, List, [], ◌∷◌,
  ltb, nat_eq, if◌then◌else◌, ◌==◌,
}
use poe_acp_relay.Base.Bytes.{Bytes, decimal}
use poe_acp_relay.Base.Paths.{join}
use poe_acp_relay.Poeproto.Requests.{Attachment}
use poe_acp_relay.Router.Attachments.Names.{free_name}
use poe_acp_relay.Router.Attachments.{
  Limits, max_attachment_bytes, Codecs, Response, made, already_there, unmade, Os, Fetched, fetched,
  failed, panicked, attachment_dir_name, fallback_name, preferred_name,
}

-- What `mustOpen` and `mustClose` panic with.
must_open : String → String
must_open e = "router: fallback attachment OpenFile rejected: " +++ e

must_close : String → String
must_close e = "router: attachment Close failed after successful copy: " +++ e

module _ {S : Type 0} (cfg : Limits) (codecs : Codecs) (os : Os S) where
  -- The parent directory is closed on each way out.
  open_message : ℕ → String → S → Result ℕ × S
  open_message parent msg_id s =
      let (r, s1) = os.mkdir parent msg_id s in
      elim r [
        | unmade e ↦ (err e, os.close_root parent s1)
        | _ ↦ let (sub, s2) = os.open_sub parent msg_id s1 in (sub, os.close_root parent s2)
      ]

  pub open_message_dir : String → String → S → Result ℕ × S
  unfolding open_message
  open_message_dir cwd msg_id s =
      let base = join (cwd ∷ attachment_dir_name ∷ []) in
      let (e, s1) = os.mkdir_all base s in
      elim e [
        | some failure ↦ (err failure, s1)
        | none ↦
            let (parent, s2) = os.open_root base s1 in
            elim parent [ err failure ↦ (err failure, s2) | ok p ↦ open_message p msg_id s2 ]
      ]

  -- The file of an attachment: under its own name, or under the fallback where that is refused. An
  -- error is `mustOpen`'s panic.
  create_file : ℕ → List Bytes → Attachment → S → Result Bytes × S
  unfolding must_open
  create_file root used a s =
      let name = free_name (preferred_name codecs a) used in
      let (e1, s1) = os.create root name s in
      elim e1 [
        | none ↦ (ok name, s1)
        | some _ ↦
            let other = free_name (fallback_name codecs a) used in
            let (e2, s2) = os.create root other s1 in
            elim e2 [ none ↦ (ok other, s2) | some e ↦ (err (must_open e), s2) ]
      ]

  -- The copy into an open file; one byte more than the cap shows an overflow.
  fill_file : ℕ → Bytes → Response → S → Fetched × S
  unfolding must_close
  fill_file root name resp s =
      let cap = max_attachment_bytes cfg in
      let ((n, copied), s1) = os.copy root name (suc cap) resp s in
      let (closed, s2) = os.close root name s1 in
      elim closed [
        | some e ↦ (panicked (must_close e), s2)
        | none ↦ elim copied [
          | some e ↦ (failed e, os.remove root name s2)
          | none ↦
              if ltb cap n
              then (
                failed ("attachment exceeds cap " +++ (codecs.text (decimal cap) +++ " bytes")),
                os.remove root name s2,
              )
              else (fetched name n, s2)
        ]
      ]

  -- The body of a response that is good, into a file; the names in use grow by the file's.
  store_file : ℕ → List Bytes → Attachment → Response → S → Fetched × List Bytes × S
  unfolding create_file fill_file
  store_file root used a resp s =
      let (created, s1) = create_file root used a s in
      elim created [
        | err e ↦ (panicked e, used, s1)
        | ok name ↦ let (r, s2) = fill_file root name resp s1 in (r, name ∷ used, s2)
      ]

  take_response : ℕ → List Bytes → Attachment → Response → S → Fetched × List Bytes × S
  unfolding store_file
  take_response root used a resp s =
      let cap = max_attachment_bytes cfg in
      if not (nat_eq (resp.status_code / 100) 2)
      then (failed ("http " +++ codecs.text (decimal resp.status_code)), used, s)
      else if ltb 0 resp.content_length && ltb cap resp.content_length
      then (
        failed (
            "declared content-length "
            +++ (codecs.text (decimal resp.content_length)
                +++ (" exceeds cap " +++ codecs.text (decimal cap)))),
        used,
        s,
      )
      else store_file root used a resp s

  fetch : ℕ → List Bytes → Attachment → S → Fetched × List Bytes × S
  unfolding take_response
  fetch root used a s =
      let (got, s1) = os.get a.url s in
      elim got [
        | err e ↦ (failed e, used, s1)
        | ok resp ↦
            let (r, used', s2) = take_response root used a resp s1 in
            (r, used', os.close_body resp s2)
      ]

  -- `downloadAttachment`; the path of the file is the caller's, from its name. The response's body and
  -- the directory are closed on each way out, a panic included.
  unfoldable pub download_attachment :
      String → String → List Bytes → Attachment → S → Fetched × List Bytes × S
  unfolding open_message_dir fetch
  download_attachment cwd msg_id used a s =
      let (opened, s1) = open_message_dir cwd msg_id s in
      elim opened [
        | err e ↦ (failed ("open message dir: " +++ e), used, s1)
        | ok root ↦ let (r, used', s2) = fetch root used a s1 in (r, used', os.close_root root s2)
      ]
