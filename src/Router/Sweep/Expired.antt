-- ===== src/Router/Sweep/Expired.antt =====
-- What a sweep may remove.
use poe_acp_relay.Base.{
  ◌≡◌, sym, ap, ◌∙◌, inl, inr, ℕ, suc, ◌+◌, ◌<◌, String, true, some, List, [], ◌∷◌, ◌++◌, nat_eq,
  arith, if◌then◌else◌, Bool-cases, Option-cases, append_assoc,
}
use poe_acp_relay.Base.Paths.{join}
use poe_acp_relay.Router.Attachments.{attachment_dir_name}
use poe_acp_relay.Router.Sweep.{
  DirEntry, Disk, is_past, entry_path, sweep_files, sweep_message, sweep_messages, sweep_conv,
  sweep_convs, sweep_attachments_once,
}

-- A regular file that was last written longer ago than the TTL.
abbrev pub IsOld : ℕ → ℕ → DirEntry → Type 0
IsOld ttl now e = (written : ℕ) × (e.info ≡ some (true, written)) × (written + ttl < now)

is_past-IsOld : (ttl now : ℕ) (e : DirEntry) → is_past ttl now e ≡ true → IsOld ttl now e
unfolding is_past
is_past-IsOld ttl now e h = elim (Option-cases e.info) [
  | inl i ↦ absurd (ground (arith, h, i))
  | inr ((regular, written), i) ↦ elim (Bool-cases regular) [
    | inl r ↦ (written, i ∙ ap (λ b. some (b, written)) r, ground (arith, h, i, r))
    | inr r ↦ absurd (ground (arith, h, i, r))
  ]
]

module _ {S : Type 0} (disk : Disk S) where
  -- An entry of a directory, at some time.
  abbrev pub IsListed : String → DirEntry → Type 0
  IsListed dir e =
      (s : S) × (before : List DirEntry) × (after : List DirEntry) × (disk.read_dir dir s
        ≡ some (before ++ e ∷ after))

  abbrev pub attachments_root : String → DirEntry → String
  attachments_root convs conv = join (convs ∷ conv.name ∷ attachment_dir_name ∷ [])

  -- The directory of a message, in the attachments of a conversation.
  pub data IsMessageDir (convs : String) : String → Type 0 where
    message_dir :
        (conv msg : DirEntry)
        → IsListed convs conv
        → conv.is_dir ≡ true
        → IsListed (attachments_root convs conv) msg
        → msg.is_dir ≡ true
        → IsMessageDir convs (entry_path (attachments_root convs conv) msg)

  -- From this state of the disk on the files, which are old, can be removed one after the other.
  pub data AreGone (ttl now : ℕ) (dir : String) : List DirEntry → S → Type 0 where
    all_gone : {s : S} → AreGone ttl now dir [] s
    one_gone :
        {e : DirEntry} {files : List DirEntry} {s : S}
        → IsOld ttl now e
        → (disk.remove (entry_path dir e) s).0 ≡ true
        → AreGone ttl now dir files (disk.remove (entry_path dir e) s).1
        → AreGone ttl now dir (e ∷ files) s

  -- The removals that are asked for: of an old regular file in the directory of a message, and of such
  -- a directory when every entry in it was an old regular file and has been removed.
  pub data MayGo (ttl now : ℕ) (convs : String) : String → Type 0 where
    file :
        (dir : String) (e : DirEntry)
        → IsMessageDir convs dir
        → IsListed dir e
        → IsOld ttl now e
        → MayGo ttl now convs (entry_path dir e)
    emptied :
        (dir : String) (files : List DirEntry) (s : S)
        → IsMessageDir convs dir
        → disk.read_dir dir s ≡ some files
        → AreGone ttl now dir files s
        → MayGo ttl now convs dir

  listed_next :
      (dir : String) (s : S) (before : List DirEntry) (e : DirEntry) (after : List DirEntry)
      → disk.read_dir dir s ≡ some (before ++ e ∷ after)
      → disk.read_dir dir s ≡ some ((before ++ e ∷ []) ++ after)
  listed_next dir s before e after h = h ∙ ap some (sym (append_assoc before (e ∷ []) after))

  -- No file was counted, so all are gone.
  sweep_files-AreGone :
      (ttl now : ℕ) (dir : String) (files : List DirEntry) (live : ℕ) (s : S)
      → (sweep_files disk ttl now dir files live s).0 ≡ 0
      → (live ≡ 0) × AreGone ttl now dir files s
  unfolding sweep_files
  sweep_files-AreGone ttl now dir [] live s h = (h, all_gone)
  sweep_files-AreGone ttl now dir (e ∷ files) live s h =
      let (gone, s1) = disk.remove (entry_path dir e) s in
      elim (Bool-cases (is_past ttl now e)) [
        | inl past ↦ elim (Bool-cases gone) [
          | inl g ↦
              let (none_lives, others) =
                sweep_files-AreGone ttl now dir files live s1 (rw (past, g, sweep_files) at h) in
              (none_lives, one_gone (is_past-IsOld ttl now e past) g others)
          | inr g ↦ absurd (
              omega (
                arith,
                (sweep_files-AreGone ttl now dir files (suc live) s1
                    (rw (past, g, sweep_files) at h)).0,
              ))
        ]
        | inr stays ↦ absurd (
            omega (
              arith,
              (sweep_files-AreGone ttl now dir files (suc live) s (rw (stays, sweep_files) at h)).0,
            ))
      ]

module _ {S : Type 0} (disk : Disk S) (ttl now : ℕ) (convs : String) (P : S → Type 0)
    (removal : (path : String) (s : S)
      → MayGo disk ttl now convs path
      → P s
      → P (disk.remove path s).1) where
  sweep_files-keeps :
      (dir : String) (read : S) (before files : List DirEntry) (live : ℕ) (s : S)
      → IsMessageDir disk convs dir
      → disk.read_dir dir read ≡ some (before ++ files)
      → P s
      → P (sweep_files disk ttl now dir files live s).1
  unfolding sweep_files
  sweep_files-keeps dir read before [] live s place is h = h
  sweep_files-keeps dir read before (e ∷ files) live s place is h =
      let next = listed_next disk dir read before e files is in
      elim (Bool-cases (is_past ttl now e)) [
        | inl past ↦
            let (gone, s1) = disk.remove (entry_path dir e) s in
            let may = file dir e place (read, before, files, is) (is_past-IsOld ttl now e past) in
            rw (past, sweep_files)
              (sweep_files-keeps dir read (before ++ e ∷ []) files (if gone then live else suc live)
                s1 place next (removal (entry_path dir e) s may h))
        | inr stays ↦
            rw (stays, sweep_files)
              (sweep_files-keeps dir read (before ++ e ∷ []) files (suc live) s place next h)
      ]

  -- The directories of messages of one conversation.
  module _ (conv : DirEntry) (of_convs : IsListed disk convs conv)
      (is_conv : conv.is_dir ≡ true) where
    abbrev root : String
    root = attachments_root disk convs conv

    sweep_message-keeps :
        (e : DirEntry) (s : S)
        → IsListed disk root e
        → P s
        → P (sweep_message disk ttl now root e s)
    unfolding sweep_message
    sweep_message-keeps e s of_root h = elim (Bool-cases e.is_dir) [
      | inr n ↦ rw n h
      | inl d ↦
          let dir = entry_path root e in
          let place = message_dir conv e of_convs is_conv of_root d in
          elim (Option-cases (disk.read_dir dir s)) [
            | inl r ↦ rw (d, r) h
            | inr (files, r) ↦
                let (live, s1) = sweep_files disk ttl now dir files 0 s in
                let swept = sweep_files-keeps dir s [] files 0 s place r h in
                elim (Bool-cases (nat_eq live 0)) [
                  | inl z ↦
                      let gone =
                        (sweep_files-AreGone disk ttl now dir files 0 s (ground (arith, z))).1 in
                      rw (d, r, z) (removal dir s1 (emptied dir files s place r gone) swept)
                  | inr z ↦ rw (d, r, z) swept
                ]
          ]
    ]

    sweep_messages-keeps :
        (read : S) (before dirs : List DirEntry) (s : S)
        → disk.read_dir root read ≡ some (before ++ dirs)
        → P s
        → P (sweep_messages disk ttl now root dirs s)
    unfolding sweep_messages
    sweep_messages-keeps read before [] s is h = h
    sweep_messages-keeps read before (e ∷ dirs) s is h =
        sweep_messages-keeps read (before ++ e ∷ []) dirs (sweep_message disk ttl now root e s)
          (listed_next disk root read before e dirs is)
          (sweep_message-keeps e s (read, before, dirs, is) h)

  sweep_conv-keeps :
      (e : DirEntry) (s : S) → IsListed disk convs e → P s → P (sweep_conv disk ttl now convs e s)
  unfolding sweep_conv
  sweep_conv-keeps e s of_convs h = elim (Bool-cases e.is_dir) [
    | inr n ↦ rw n h
    | inl d ↦ elim (Option-cases (disk.read_dir (attachments_root disk convs e) s)) [
      | inl r ↦ rw (d, r) h
      | inr (dirs, r) ↦ rw (d, r) (sweep_messages-keeps e of_convs d s [] dirs s r h)
    ]
  ]

  sweep_convs-keeps :
      (read : S) (before dirs : List DirEntry) (s : S)
      → disk.read_dir convs read ≡ some (before ++ dirs)
      → P s
      → P (sweep_convs disk ttl now convs dirs s)
  unfolding sweep_convs
  sweep_convs-keeps read before [] s is h = h
  sweep_convs-keeps read before (e ∷ dirs) s is h =
      sweep_convs-keeps read (before ++ e ∷ []) dirs (sweep_conv disk ttl now convs e s)
        (listed_next disk convs read before e dirs is)
        (sweep_conv-keeps e s (read, before, dirs, is) h)

-- What holds of the disk, and is kept by each removal of one of two kinds, still holds after a sweep:
-- the removal of a regular file, listed in the directory of a message under the conversations of the
-- state directory, that was last written longer ago than the TTL; and of such a directory, when each
-- entry that was listed in it was such a file, and could be removed.
pub sweep_attachments_once-keeps :
    {S : Type 0} (disk : Disk S) (ttl now : ℕ) (P : S → Type 0) (state_dir : String)
    → ((path : String) (s : S)
        → MayGo disk ttl now (join (state_dir ∷ "convs" ∷ [])) path
        → P s
        → P (disk.remove path s).1)
    → (s : S) → P s
    → P (sweep_attachments_once disk ttl now state_dir s)
unfolding sweep_attachments_once
sweep_attachments_once-keeps disk ttl now P state_dir removal s h =
    let convs = join (state_dir ∷ "convs" ∷ []) in
    elim (Bool-cases (nat_eq ttl 0)) [
      | inl z ↦ rw z h
      | inr n ↦ elim (Option-cases (disk.read_dir convs s)) [
        | inl r ↦ rw (n, r) h
        | inr (dirs, r) ↦ rw (n, r) (sweep_convs-keeps disk ttl now convs P removal s [] dirs s r h)
      ]
    ]
