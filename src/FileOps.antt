-- ===== src/FileOps.antt =====
-- file_meta_ops.cpp: the operations that open, save and close files: `mgridfs_create`,
-- `mgridfs_open`, `mgridfs_flush`, `mgridfs_fsync` and `mgridfs_release`.
pub mod Open
pub mod Create
pub mod Release
pub mod LoadLocal
pub mod Writable
pub mod Save
pub mod Answered
pub mod Keeps
pub mod Session
pub mod Fresh
pub mod Life
pub mod Reopen
use mgridfs.Base.{
  ℕ, Bool, true, false, not, Option, none, some, [], ◌==◌, if◌then◌else◌, ℤ, pos, negsuc, neg, Name,
  bytes,
}
use mgridfs.LocalFile.{LocalFile, set_size, write, read, enoent, eio, ebadf, enomem}
use mgridfs.Handle.{FileHandle, assign_handle, is_valid}
use mgridfs.Server.{Reply, GridFile, ok, thrown, named, by_id}
use mgridfs.World.{
  Env, World, Action, done, ◌>>=◌, ◌>>◌, return, catching, attempt, total, ask, command, draw,
  world, set_handles,
}
use mgridfs.Sync.{flush, open_remote}
use mgridfs.LocalFs.{find_by_name, create_file, release_file}
use mgridfs.Ops.{
  this_handle, unassign, keep, is_rdonly, o_creat, o_trunc, or_bit, entry_changes, enfile,
}

abbrev pub is_zero : ℤ → Bool
is_zero (pos n) = n == 0
is_zero (negsuc n) = false

module _ (e : Env) where
  open e.server use {connect, grid_fs, find_file, store_file, update, num_chunks, get_chunk}

  -- The `try` block of `mgridfs_create`: false if the stored object is invalid.
  unfoldable pub create_remote : Name → ℕ → Action (World e.server.Db) Bool
  create_remote file mode = do
    command connect
    command grid_fs
    oid ← command (store_file [] file)
    elim oid [
      | none ↦ return false
      | some id ↦ do
        m ← draw e
        command (
            update (by_id id)
              (entry_changes (bytes "file") file m.now e.context.uid e.context.gid mode none))
        return true
    ]

  -- `assignHandle` of a new object, kept in the state.
  unfoldable pub assign : Name → Action (World e.server.Db) (ℕ × FileHandle)
  assign file = do
    w ← world
    a ← total (assign_handle (this_handle w file 0) w.handles)
    set_handles a.2
    return (a.0, a.1)

  -- The end of `mgridfs_create`: the file in memory was made, or not.
  abbrev pub made_local : FileHandle → Option LocalFile → Action (World e.server.Db) (ℤ × ℕ)
  made_local h none = unassign h >> return (neg enomem, h.fh)
  made_local h (some f) = return (pos 0, h.fh)

  unfoldable pub create_local : Name → Action (World e.server.Db) (ℤ × ℕ)
  unfolding assign
  create_local file = do
    a ← assign file
    if a.0 == 0 then return (neg enfile, a.0) else (create_file e file >>= made_local a.1)

  -- What follows the `try` block; `fh` is the handle that the call was given.
  unfoldable pub created : Name → ℕ → Reply Bool → Action (World e.server.Db) (ℤ × ℕ)
  unfolding create_local
  created file fh thrown = return (neg eio, fh)
  created file fh (ok stored) = if stored then create_local file else return (neg ebadf, fh)

  unfoldable pub mgridfs_create : Name → ℕ → ℕ → Action (World e.server.Db) (ℤ × ℕ)
  unfolding create_remote created
  mgridfs_create file mode fh = do
    r ← attempt (create_remote file (or_bit 15 mode))
    created file fh r

  -- `O_TRUNC` of a file that is in memory.
  unfoldable pub truncate_opened : Name → Action (World e.server.Db) ℤ
  truncate_opened file = do
    w ← world
    m ← draw e
    elim (find_by_name file w.files) [
      | none ↦ return (pos 0)
      | some f ↦ do
        fits ← keep file (set_size m.chunks e.options.max_mem_file_size 0 f)
        return (if fits then pos 0 else neg eio)
    ]

  -- A file that exists, opened for writing.
  unfoldable pub open_local : Name → ℕ → Action (World e.server.Db) ℤ
  unfolding truncate_opened
  open_local file flags = do
    made ← create_file e file
    elim made [
      | none ↦ return (neg enomem)
      | some f ↦ do
        code ← open_remote e f >>= keep file
        if not (is_zero code)
            then (release_file e file >> return (neg eio))
            else if o_trunc flags
            then truncate_opened file
            else return (pos 0)
    ]

  -- The cases of `mgridfs_open` on the remote file: it exists or not.
  unfoldable pub open_cases :
      Name → ℕ → FileHandle → Option GridFile → Action (World e.server.Db) (ℤ × ℕ)
  unfolding open_local mgridfs_create
  open_cases file flags h (some g) =
      if is_rdonly flags
      then return (pos 0, h.fh)
      else (do code ← open_local file flags; return (code, h.fh))
  open_cases file flags h none = do
    unassign h
    if o_creat flags then mgridfs_create file e.context.umask h.fh else return (neg enoent, h.fh)

  -- The `try` block of `mgridfs_open`; the handle is assigned, and the file is not in memory.
  unfoldable pub open_found : Name → ℕ → FileHandle → Action (World e.server.Db) (ℤ × ℕ)
  unfolding open_cases
  open_found file flags h = do
    command connect
    command grid_fs
    found ← ask (find_file (named file))
    open_cases file flags h found

  -- A new handle for a file that is in memory or not.
  unfoldable pub open_assigned :
      Name → ℕ → FileHandle → Option LocalFile → Action (World e.server.Db) (ℤ × ℕ)
  unfolding open_found
  open_assigned file flags h (some f) = return (pos 0, h.fh)
  open_assigned file flags h none =
      catching (open_found file flags h) (unassign h >> return (neg eio, h.fh))

  unfoldable pub mgridfs_open : Name → ℕ → Action (World e.server.Db) (ℤ × ℕ)
  unfolding open_assigned assign
  mgridfs_open file flags = do
    a ← assign file
    w ← world
    if a.0 == 0
        then return (neg enfile, a.0)
        else open_assigned file flags a.1 (find_by_name file w.files)

  -- `LocalGridFile::flush` of the file that was found.
  unfoldable pub flush_held : Name → Option LocalFile → Action (World e.server.Db) ℤ
  flush_held name none = return (neg ebadf)
  flush_held name (some f) = do r ← flush e f; keep name r

  -- Of a file opened for reading there is nothing to save.
  unfoldable pub mgridfs_flush : Name → ℕ → ℕ → Action (World e.server.Db) ℤ
  unfolding flush_held
  mgridfs_flush file flags fh w =
      let h = this_handle w file fh in
      if not (is_valid w.handles h)
      then done (neg ebadf) w
      else if is_rdonly flags
      then done (pos 0) w
      else flush_held h.filename (find_by_name h.filename w.files) w

  unfoldable pub mgridfs_fsync : Name → ℕ → ℕ → ℕ → Action (World e.server.Db) ℤ
  unfolding flush_held
  mgridfs_fsync file param flags fh w =
      let h = this_handle w file fh in
      if not (is_valid w.handles h)
      then done (neg ebadf) w
      else if is_rdonly flags
      then done (pos 0) w
      else flush_held h.filename (find_by_name h.filename w.files) w

  abbrev pub flush_if_dirty : Name → LocalFile → Action (World e.server.Db) (Unit {0})
  flush_if_dirty name f = if f.dirty then ((flush e f >>= keep name) >> return tt) else return tt

  abbrev pub release_local : Name → Option LocalFile → Action (World e.server.Db) (Unit {0})
  release_local name none = return tt
  release_local name (some f) = do flush_if_dirty name f; release_file e name; return tt

  unfoldable pub mgridfs_release : Name → ℕ → Action (World e.server.Db) ℤ
  mgridfs_release file fh w =
      let h = this_handle w file fh in
      if is_valid w.handles h
      then (release_local h.filename (find_by_name h.filename w.files)
            >> unassign h
            >> return (pos 0))
          w
      else done (pos 0) w
