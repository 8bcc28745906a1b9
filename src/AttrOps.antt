-- ===== src/AttrOps.antt =====
-- file_meta_ops.cpp: the operations on a file's document (`mgridfs_getattr`, `mgridfs_fgetattr`,
-- `mgridfs_readlink`, `mgridfs_unlink`, `mgridfs_symlink`, `mgridfs_rename`, `mgridfs_chmod`,
-- `mgridfs_chown`, `mgridfs_utime`, `mgridfs_utimens`).
pub mod Links
pub mod Unsupported
pub mod Shown
pub mod Documents
pub mod Keeps
pub mod Symlinks
use mgridfs.Base.{
  ℕ, ◌+◌, ◌-◌, ◌*◌, ◌/◌, ◌%◌, ◌^◌, Option, none, some, List, [], ◌∷◌, ◌++◌, ◌==◌, if◌then◌else◌,
  length, take, tabulate, ℤ, pos, neg, Name, bytes,
}
use mgridfs.LocalFile.{LocalFile, enoent, eio, ebadf}
use mgridfs.Handle.{is_valid, name_or_empty}
use mgridfs.Utils.{get512_block_count, get_path_basename}
use mgridfs.Server.{GridFile, Meta, Changes, no_meta, named, by_name, by_id}
use mgridfs.World.{
  Env, World, Action, done, ◌>>=◌, ◌>>◌, return, catching, ask, command, draw, world,
}
use mgridfs.LocalFs.{find_by_name}
use mgridfs.Ops.{this_handle, s_isdir, s_isreg, s_islnk, entry_changes, einval, enotsup}

-- The fields of `struct stat` that are set; times in seconds.
pub record Stat : Type 0 where
  pub st_uid : ℕ
  pub st_gid : ℕ
  pub st_mode : ℕ
  pub st_ctime : ℕ
  pub st_mtime : ℕ
  pub st_nlink : ℕ
  pub st_size : ℕ
  pub st_blocks : ℕ

-- `bzero`.
abbrev pub no_stat : Stat
no_stat = record {
  st_uid = 0;
  st_gid = 0;
  st_mode = 0;
  st_ctime = 0;
  st_mtime = 0;
  st_nlink = 0;
  st_size = 0;
  st_blocks = 0;
}

abbrev pub field_or : Option ℕ → ℕ → ℕ
field_or none d = d
field_or (some n) d = n

abbrev pub sized : ℕ → Stat → Stat
sized n s = record s { st_size = n; st_blocks = get512_block_count n }

-- The size of a regular file: that of the file in memory, if there is one.
abbrev pub regular_size : Option LocalFile → GridFile → ℕ
regular_size none g = g.content_length
regular_size (some f) g = f.size

-- The part of `mgridfs_getattr` behind the look-up; `obj_size` is the size of a document.
unfoldable pub stat_of : (Meta → ℕ) → Option LocalFile → GridFile → Stat
stat_of obj_size local g =
    let ctime = g.upload_date / 1000 in
    let mode = field_or g.metadata.mode 365 in
    let common : Stat = record no_stat {
      st_uid = field_or g.metadata.uid 1;
      st_gid = field_or g.metadata.gid 1;
      st_mode = mode;
      st_ctime = ctime;
      st_mtime = elim g.metadata.last_updated [ none ↦ ctime | some ms ↦ ms / 1000 ];
      st_nlink = 1;
    } in
    if s_isdir mode
    then sized (obj_size g.metadata) (record common { st_nlink = 2 })
    else if s_isreg mode
    then sized (regular_size local g) common
    else if s_islnk mode
    then sized (length (name_or_empty g.metadata.target)) common
    else common

-- `strncpy` and the terminating null: the caller's buffer of `len` bytes.
unfoldable pub link_buffer : ℕ → Name → List ℕ
link_buffer len target =
    let shown = take (len - 1) target in
    shown ++ tabulate (λ i. 0) 0 (len - 1 - length shown) ++ (0 ∷ [])

-- Updates with `$set`, of the metadata, of the mode, of the owner, of the time and of the name.
abbrev pub set_metadata : Meta → Changes
set_metadata m = record { filename = none; upload_date = none; metadata = m }

abbrev pub chmod_changes : ℕ → Changes
chmod_changes mode = set_metadata (record no_meta { mode = some mode })

abbrev pub chown_changes : ℕ → ℕ → Changes
chown_changes uid gid = set_metadata (record no_meta { uid = some uid; gid = some gid })

abbrev pub utime_changes : ℕ → Changes
utime_changes ms = set_metadata (record no_meta { last_updated = some ms })

abbrev pub rename_changes : Name → Changes
rename_changes destfile = record {
  filename = some destfile;
  upload_date = none;
  metadata = record no_meta { base = some (get_path_basename destfile) };
}

-- `S_IFLNK | S_IRWXU | S_IRWXG | S_IRWXO`.
abbrev pub link_mode : ℕ
link_mode = 40960 + 511

module _ (e : Env) where
  open e.server use {connect, grid_fs, find_file, store_file, remove_file, update, obj_size}

  -- The caller's `struct stat` is left alone on an error.
  unfoldable pub mgridfs_getattr : Name → Action (World e.server.Db) (ℤ × Option Stat)
  mgridfs_getattr file =
      catching
        (do
          command connect
          command grid_fs
          found ← ask (find_file (named file))
          w ← world
          elim found [
            | none ↦ return (neg enoent, none)
            | some g ↦ return (pos 0, some (stat_of obj_size (find_by_name file w.files) g))
          ])
        (return (neg eio, none))

  unfoldable pub mgridfs_fgetattr : Name → ℕ → Action (World e.server.Db) (ℤ × Option Stat)
  unfolding mgridfs_getattr
  mgridfs_fgetattr file fh w =
      let h = this_handle w file fh in
      if is_valid w.handles h then mgridfs_getattr h.filename w else done (neg ebadf, none) w

  unfoldable pub mgridfs_readlink : Name → ℕ → Action (World e.server.Db) (ℤ × Option (List ℕ))
  mgridfs_readlink file len =
      if len == 0
      then return (neg einval, none)
      else catching
          (do
            command connect
            command grid_fs
            found ← ask (find_file (named file))
            elim found [
              | none ↦ return (neg enoent, none)
              | some g ↦ return (pos 0, some (link_buffer len (name_or_empty g.metadata.target)))
            ])
          (return (neg eio, none))

  unfoldable pub mgridfs_unlink : Name → Action (World e.server.Db) ℤ
  mgridfs_unlink file =
      catching (do command connect; command grid_fs; command (remove_file file); return (pos 0))
        (return (neg eio))

  unfoldable pub mgridfs_symlink : Name → Name → Action (World e.server.Db) ℤ
  mgridfs_symlink srcfile destfile =
      catching
        (do
          command connect
          command grid_fs
          oid ← command (store_file [] destfile)
          elim oid [
            | none ↦ return (neg eio)
            | some id ↦ do
              m ← draw e
              command (
                  update (by_id id) (
                    entry_changes (bytes "slink") destfile m.now e.context.uid e.context.gid
                      link_mode (some srcfile)))
              return (pos 0)
          ])
        (return (neg eio))

  -- An update by file name that must meet a document.
  unfoldable pub update_named : Name → Changes → Action (World e.server.Db) ℤ
  update_named file changes =
      catching
        (do
          command connect
          n ← command (update (by_name file) changes)
          return (if n == 0 then neg enoent else pos 0))
        (return (neg eio))

  unfoldable pub mgridfs_rename : Name → Name → Action (World e.server.Db) ℤ
  unfolding update_named
  mgridfs_rename srcfile destfile = update_named srcfile (rename_changes destfile)

  unfoldable pub mgridfs_chmod : Name → ℕ → Action (World e.server.Db) ℤ
  unfolding update_named
  mgridfs_chmod file mode = update_named file (chmod_changes mode)

  unfoldable pub mgridfs_chown : Name → ℕ → ℕ → Action (World e.server.Db) ℤ
  unfolding update_named
  mgridfs_chown file uid gid = update_named file (chown_changes uid gid)

  -- The argument is `time->modtime`, in seconds, if `time` is not null.
  unfoldable pub mgridfs_utime : Name → Option ℕ → Action (World e.server.Db) ℤ
  unfolding update_named
  mgridfs_utime file none = do m ← draw e; update_named file (utime_changes m.now)
  mgridfs_utime file (some modtime) = update_named file (utime_changes (modtime * 1000 % 2 ^ 64))

  -- The arguments are `tv[0].tv_sec` and `tv[1].tv_sec`; `time(NULL)` is in seconds.
  unfoldable pub mgridfs_utimens : Name → ℕ → ℕ → Action (World e.server.Db) ℤ
  unfolding mgridfs_utime
  mgridfs_utimens file access modification =
      if modification == 0
      then mgridfs_utime file (some modification)
      else (do m ← draw e; mgridfs_utime file (some (m.now / 1000)))
