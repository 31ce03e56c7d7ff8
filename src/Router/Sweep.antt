-- ===== src/Router/Sweep.antt =====
-- `sweepAttachmentsOnce` of internal/router/router.go: the files of attachments that are past their
-- time are removed, and the directories of messages that are left with none.
pub mod Expired
mod Tests
use poe_acp_relay.Base.{
  ℕ, zero, suc, ◌+◌, String, Bool, true, false, ◌&&◌, Option, none, some, List, [], ◌∷◌, ltb,
  nat_eq, if◌then◌else◌,
}
use poe_acp_relay.Base.Paths.{join}
use poe_acp_relay.Router.Attachments.{attachment_dir_name}

-- An `fs.DirEntry`. `info` is whether the file is a regular one and the time when it was last written,
-- or none where `Info` fails.
pub record DirEntry : Type 0 where
  pub name : String
  pub is_dir : Bool
  pub info : Option (Bool × ℕ)

-- `os.ReadDir`, none where it fails, and `os.Remove`, true where it succeeds, on a state of their own.
pub record Disk (S : Type 0) : Type 0 where
  pub read_dir : String → S → Option (List DirEntry)
  pub remove : String → S → Bool × S

-- The test of a file; the cutoff is `ttl` before `now`.
unfoldable pub is_past : ℕ → ℕ → DirEntry → Bool
is_past ttl now e = elim e.info [
  | none ↦ false
  | some (regular, written) ↦ regular && ltb (written + ttl) now
]

pub entry_path : String → DirEntry → String
entry_path dir e = join (dir ∷ e.name ∷ [])

module _ {S : Type 0} (disk : Disk S) (ttl now : ℕ) where
  -- The files of a message, with the count of those that stay.
  unfoldable pub sweep_files : String → List DirEntry → ℕ → S → ℕ × S
  unfolding is_past entry_path
  sweep_files dir [] live s = (live, s)
  sweep_files dir (e ∷ files) live s = elim (is_past ttl now e) [
    | true ↦
        let (gone, s1) = disk.remove (entry_path dir e) s in
        sweep_files dir files (if gone then live else suc live) s1
    | false ↦ sweep_files dir files (suc live) s
  ]

  sweep_message : String → DirEntry → S → S
  unfolding sweep_files entry_path
  sweep_message root e s =
      if e.is_dir
      then elim (disk.read_dir (entry_path root e) s) [
        | none ↦ s
        | some files ↦
            let (live, s1) = sweep_files (entry_path root e) files 0 s in
            if nat_eq live 0 then (disk.remove (entry_path root e) s1).1 else s1
      ]
      else s

  sweep_messages : String → List DirEntry → S → S
  unfolding sweep_message
  sweep_messages root [] s = s
  sweep_messages root (e ∷ dirs) s = sweep_messages root dirs (sweep_message root e s)

  -- The attachments of one conversation.
  sweep_conv : String → DirEntry → S → S
  unfolding sweep_messages
  sweep_conv convs e s =
      let root = join (convs ∷ e.name ∷ attachment_dir_name ∷ []) in
      if e.is_dir
      then elim (disk.read_dir root s) [ none ↦ s | some dirs ↦ sweep_messages root dirs s ]
      else s

  sweep_convs : String → List DirEntry → S → S
  unfolding sweep_conv
  sweep_convs convs [] s = s
  sweep_convs convs (e ∷ dirs) s = sweep_convs convs dirs (sweep_conv convs e s)

  -- `sweepAttachmentsOnce`; a `ttl` of 0 stands for any that is not positive, and turns the sweep off.
  unfoldable pub sweep_attachments_once : String → S → S
  unfolding sweep_convs
  sweep_attachments_once state_dir s =
      let convs = join (state_dir ∷ "convs" ∷ []) in
      if nat_eq ttl 0
      then s
      else elim (disk.read_dir convs s) [ none ↦ s | some dirs ↦ sweep_convs convs dirs s ]
