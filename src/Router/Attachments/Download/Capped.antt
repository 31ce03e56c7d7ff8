-- ===== src/Router/Attachments/Download/Capped.antt =====
-- What a download leaves: the size of its file and its name.
use Prim.Native.Nat.{◌/◌}
use poe_acp_relay.Base.{
  Result, ok, err, Result-cases, ◌≡◌, refl, subst, ◌⊎◌, inl, inr, ℕ, suc, ◌≤◌, String, false, not,
  ◌&&◌, List, ◌∷◌, arith, ltb, nat_eq, Bool-cases, Option-cases,
}
use poe_acp_relay.Base.Bytes.{Bytes, is_used}
use poe_acp_relay.Poeproto.Requests.{Attachment}
use poe_acp_relay.Router.Attachments.Names.{free_name}
use poe_acp_relay.Router.Attachments.Names.Free.{free_name-found}
use poe_acp_relay.Router.Attachments.{
  Limits, max_attachment_bytes, Codecs, Response, Os, Fetched, fetched, failed, panicked,
  fallback_name, preferred_name,
}
use poe_acp_relay.Router.Attachments.Download.{
  create_file, fill_file, store_file, take_response, fetch, open_message_dir, download_attachment,
}

-- The names in use grow at most by one that was free.
abbrev pub Grows : List Bytes → List Bytes → Type 0
Grows used after =
    (after ≡ used) ⊎ ((name : Bytes) × (is_used name used ≡ false) × (after ≡ name ∷ used))

-- A file is within the cap, and its name is the one that came into use.
abbrev pub IsKept : Limits → List Bytes → Fetched → List Bytes → Type 0
IsKept cfg used (fetched name n) after =
    (n ≤ max_attachment_bytes cfg) × (is_used name used ≡ false) × (after ≡ name ∷ used)
IsKept cfg used (failed e) after = Grows used after
IsKept cfg used (panicked e) after = Grows used after

abbrev IsFree : List Bytes → Result Bytes → Type 0
IsFree used (ok name) = is_used name used ≡ false
IsFree used (err e) = Unit

module _ {S : Type 0} (cfg : Limits) (codecs : Codecs) (os : Os S) where
  create_file-IsFree :
      (root : ℕ) (used : List Bytes) (a : Attachment) (s : S)
      → IsFree used (create_file cfg codecs os root used a s).0
  unfolding create_file
  create_file-IsFree root used a s =
      let name = free_name (preferred_name codecs a) used in
      let other = free_name (fallback_name codecs a) used in
      elim (Option-cases (os.create root name s).0) [
        | inl e ↦ rw (e, IsFree) (free_name-found (preferred_name codecs a) used)
        | inr (_, e) ↦
            rw (e, IsFree)
              (elim (Option-cases (os.create root other (os.create root name s).1).0) [
                | inl d ↦ rw (d, IsFree) (free_name-found (fallback_name codecs a) used)
                | inr (_, d) ↦ rw (d, IsFree) tt
              ])
      ]

  fill_file-IsKept :
      (root : ℕ) (used : List Bytes) (name : Bytes) (resp : Response) (s : S)
      → is_used name used ≡ false
      → IsKept cfg used (fill_file cfg codecs os root name resp s).0 (name ∷ used)
  unfolding fill_file
  fill_file-IsKept root used name resp s free =
      let s1 = (os.copy root name (suc (max_attachment_bytes cfg)) resp s).1 in
      let n = (os.copy root name (suc (max_attachment_bytes cfg)) resp s).0.0 in
      elim (Option-cases (os.close root name s1).0) [
        | inr (_, e) ↦ rw (e, IsKept) (inr (name, free, refl))
        | inl e ↦
            elim (Option-cases (os.copy root name (suc (max_attachment_bytes cfg)) resp s).0.1) [
              | inr (_, d) ↦ rw (e, d, IsKept) (inr (name, free, refl))
              | inl d ↦ elim (Bool-cases (ltb (max_attachment_bytes cfg) n)) [
                | inl l ↦ rw (e, d, l, IsKept) (inr (name, free, refl))
                | inr l ↦ rw (e, d, l, IsKept) (ground (arith, l), free, refl)
              ]
            ]
      ]

  store_file-IsKept :
      (root : ℕ) (used : List Bytes) (a : Attachment) (resp : Response) (s : S)
      → (let r = store_file cfg codecs os root used a resp s in IsKept cfg used r.0 r.1)
  unfolding store_file
  store_file-IsKept root used a resp s =
      elim (Result-cases (create_file cfg codecs os root used a s).0) [
        | inl (name, e) ↦
            let free = subst (IsFree used) e (create_file-IsFree root used a s) in
            rw (e, IsKept, store_file)
              (fill_file-IsKept root used name resp (create_file cfg codecs os root used a s).1
                free)
        | inr (_, e) ↦ rw (e, IsKept, store_file) (inl refl)
      ]

  take_response-IsKept :
      (root : ℕ) (used : List Bytes) (a : Attachment) (resp : Response) (s : S)
      → (let r = take_response cfg codecs os root used a resp s in IsKept cfg used r.0 r.1)
  unfolding take_response
  take_response-IsKept root used a resp s =
      elim (Bool-cases (not (nat_eq (resp.status_code / 100) 2))) [
        | inl e ↦ rw (e, IsKept) (inl refl)
        | inr e ↦
            elim (Bool-cases
              (ltb 0 resp.content_length && ltb (max_attachment_bytes cfg) resp.content_length)) [
                | inl d ↦ rw (e, d, IsKept) (inl refl)
                | inr d ↦ rw (e, d, IsKept) (store_file-IsKept root used a resp s)
              ]
      ]

  fetch-IsKept :
      (root : ℕ) (used : List Bytes) (a : Attachment) (s : S)
      → (let r = fetch cfg codecs os root used a s in IsKept cfg used r.0 r.1)
  unfolding fetch
  fetch-IsKept root used a s = elim (Result-cases (os.get a.url s).0) [
    | inl (resp, e) ↦
        rw (e, IsKept, fetch) (take_response-IsKept root used a resp (os.get a.url s).1)
    | inr (_, e) ↦ rw (e, IsKept, fetch) (inl refl)
  ]

  -- A download that ends with a file has kept it within the cap, under a name that was not in
  -- use, compared as bytes, and has put that name into use; one that ends otherwise puts at most a free
  -- name into use.
  pub download_attachment-IsKept :
      (cwd msg_id : String) (used : List Bytes) (a : Attachment) (s : S)
      → (let r = download_attachment cfg codecs os cwd msg_id used a s in IsKept cfg used r.0 r.1)
  unfolding download_attachment
  download_attachment-IsKept cwd msg_id used a s =
      let opened = open_message_dir cfg codecs os cwd msg_id s in
      elim (Result-cases opened.0) [
        | inl (root, e) ↦ rw (e, IsKept, download_attachment) (fetch-IsKept root used a opened.1)
        | inr (_, e) ↦ rw (e, IsKept, download_attachment) (inl refl)
      ]
