-- ===== src/DirOps.antt =====
-- dir_meta_ops.cpp and fs_meta_ops.cpp: the operations on directories, the root directory, and the
-- statistics of the file system.
pub mod Open
pub mod Root
pub mod Keeps
pub mod Made
pub mod Listing
use mgridfs.Base.{
  ℕ, Bool, true, false, ◌&&◌, Option, none, some, List, [], ◌∷◌, ◌++◌, ltb, ◌==◌, if◌then◌else◌, ℤ,
  pos, neg, sub64, Name, bytes, is_empty,
}
use mgridfs.LocalFile.{enoent, eio, ebadf}
use mgridfs.Handle.{is_some, is_valid}
use mgridfs.Server.{GridFile, Stats, named, directory_named, by_id}
use mgridfs.World.{Env, World, Action, done, ◌>>=◌, ◌>>◌, return, catching, ask, command, draw}
use mgridfs.AttrOps.{field_or}
use mgridfs.FileOps.{assign, is_zero}
use mgridfs.Ops.{
  this_handle, unassign, or_bit, s_isdir, entry_changes, eacces, enotdir, enfile, enotempty,
}

-- The entries that `mgridfs_readdir` gives to the filler; an entry without a name is passed over,
-- also where the name is not a text and `String()` throws.
unfoldable pub entries : List (Option Name) → List Name
entries [] = []
entries (none ∷ es) = entries es
entries (some n ∷ es) = if is_empty n then entries es else n ∷ entries es

abbrev pub dots : List Name
dots = bytes "." ∷ bytes ".." ∷ []

-- The fields of `struct statvfs` that are set, but for the two that are computed in floating point.
pub record StatVfs : Type 0 where
  pub f_bsize : ℕ
  pub f_frsize : ℕ
  pub f_blocks : ℕ
  pub f_bfree : ℕ
  pub f_bavail : ℕ
  pub f_files : ℕ
  pub f_ffree : ℕ
  pub f_namemax : ℕ

-- `scaled b u n` is `static_cast<long>(b * 1.0 / u * n)`, in floating point.
unfoldable pub statvfs_of : (ℕ → ℕ → ℕ → ℕ) → Stats → StatVfs
statvfs_of scaled s =
    let avail = sub64 s.file_size s.storage_size in
    let total_objects = scaled s.file_size (sub64 s.file_size avail) s.objects in
    let known = ltb 0 avail && ltb 0 s.file_size in
    record {
      f_bsize = 1;
      f_frsize = 1;
      f_blocks = s.file_size;
      f_bfree = avail;
      f_bavail = avail;
      f_files = if known then total_objects else s.objects;
      f_ffree = if known then sub64 total_objects s.objects else 0;
      f_namemax = 1000;
    }

module _ (e : Env) where
  open e.server use {
    Oid, connect, grid_fs, find_file, store_file, remove_file, update, list_directory, db_stats,
    absent_int,
  }

  -- The stored object is completed, if it is valid.
  abbrev pub complete_directory : Name → ℕ → ℕ → ℕ → Option Oid → Action (World e.server.Db) ℤ
  complete_directory path mode uid gid none = return (neg enoent)
  complete_directory path mode uid gid (some id) = do
    m ← draw e
    command (update (by_id id) (entry_changes (bytes "directory") path m.now uid gid mode none))
    return (pos 0)

  unfoldable pub mgridfs_create_directory : Name → ℕ → ℕ → ℕ → Action (World e.server.Db) ℤ
  mgridfs_create_directory path mode uid gid =
      catching
        (do
          command grid_fs
          oid ← command (store_file [] path)
          complete_directory path (or_bit 14 mode) uid gid oid)
        (return (neg eio))

  unfoldable pub mgridfs_mkdir : Name → ℕ → Action (World e.server.Db) ℤ
  unfolding mgridfs_create_directory
  mgridfs_mkdir path mode =
      catching (do command connect; mgridfs_create_directory path mode e.context.uid e.context.gid)
        (return (neg eio))

  unfoldable pub mgridfs_rmdir : Name → Action (World e.server.Db) ℤ
  mgridfs_rmdir path =
      catching
        (do
          command connect
          found ← ask (list_directory path)
          elim found [
            | n ∷ ns ↦ return (neg enotempty)
            | [] ↦ do command grid_fs; command (remove_file path); return (pos 0)
          ])
        (return (neg eio))

  -- The cases of `mgridfs_opendir` on what was found.
  abbrev pub directory_code : Option GridFile → ℤ
  directory_code none = neg enoent
  directory_code (some g) =
      if s_isdir (field_or g.metadata.mode absent_int) then pos 0 else neg enotdir

  -- The look-up of `mgridfs_opendir`, in its `try` block.
  unfoldable pub check_directory : Name → Action (World e.server.Db) ℤ
  check_directory path =
      catching
        (do
          command connect
          command grid_fs
          found ← ask (find_file (named path))
          return (directory_code found))
        (return (neg eio))

  -- The result, and `ffinfo->fh` if it is set.
  unfoldable pub mgridfs_opendir : Name → Action (World e.server.Db) (ℤ × Option ℕ)
  unfolding check_directory assign
  mgridfs_opendir path = do
    code ← check_directory path
    if is_zero code
        then (do a ← assign e path; return ((if a.0 == 0 then neg enfile else pos 0), some a.0))
        else return (code, none)

  -- The result, and the names that are given to the filler in their order.
  unfoldable pub mgridfs_readdir : Name → ℕ → Action (World e.server.Db) (ℤ × List Name)
  unfolding entries
  mgridfs_readdir path fh w =
      let listing : Action (World e.server.Db) (ℤ × List Name) =
        catching
          (do
            command connect
            command grid_fs
            found ← ask (list_directory path)
            return (pos 0, dots ++ entries found))
          (return (neg eio, dots)) in
      if is_valid w.handles (this_handle w path fh) then listing w else done (neg ebadf, []) w

  unfoldable pub mgridfs_releasedir : Name → ℕ → Action (World e.server.Db) ℤ
  mgridfs_releasedir path fh w =
      let h = this_handle w path fh in
      if is_valid w.handles h then (unassign h >> return (pos 0)) w else done (neg ebadf) w

  unfoldable pub mgridfs_fsyncdir : Action (World e.server.Db) ℤ
  mgridfs_fsyncdir = return (neg eacces)

  -- The part of `mgridfs_load_or_create_root` behind the creation: the root is looked up again.
  unfoldable pub confirm_root : Bool → Action (World e.server.Db) ℤ
  confirm_root false = return (neg eio)
  confirm_root true = do
    found ← ask (find_file (directory_named (bytes "/")))
    return (if is_some found then pos 0 else neg enoent)

  -- What it does when the root was found, or not.
  unfoldable pub root_cases : ℕ → ℕ → Option GridFile → Action (World e.server.Db) ℤ
  unfolding mgridfs_create_directory confirm_root
  root_cases uid gid (some g) = return (pos 0)
  root_cases uid gid none = do
    code ← mgridfs_create_directory (bytes "/") 448 uid gid
    confirm_root (is_zero code)

  -- The root directory is made if the server has none; `uid` and `gid` are those of the process.
  unfoldable pub mgridfs_load_or_create_root : ℕ → ℕ → Action (World e.server.Db) ℤ
  unfolding root_cases
  mgridfs_load_or_create_root uid gid =
      catching
        (do
          command connect
          command grid_fs
          found ← ask (find_file (directory_named (bytes "/")))
          root_cases uid gid found)
        (return (neg eio))

  -- The result, and the caller's `struct statvfs` if it is filled in.
  unfoldable pub mgridfs_statfs : (ℕ → ℕ → ℕ → ℕ) → Action (World e.server.Db) (ℤ × Option StatVfs)
  unfolding statvfs_of
  mgridfs_statfs scaled =
      catching
        (do
          command connect
          found ← ask db_stats
          elim found [
            | none ↦ return (neg eio, none)
            | some s ↦ return (pos 0, some (statvfs_of scaled s))
          ])
        (return (neg eio, none))
