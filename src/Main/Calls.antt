-- ===== src/Main/Calls.antt =====
-- Every operation in the table keeps the state consistent and throws nothing, at any arguments.
use mgridfs.Base.{ℕ, ◌≡◌, Option, none, some, arith, pos, neg}
use mgridfs.LocalFile.Valid.{Limits}
use mgridfs.World.{Env, World, Action}
use mgridfs.World.Quiet.{Never}
use mgridfs.LocalFs.Consistent.{Keeps, Keeps-return}
use mgridfs.LocalFs.Keeps.{Anything}
use mgridfs.AttrOps
use mgridfs.AttrOps.Unsupported
use mgridfs.DataOps
use mgridfs.DirOps
use mgridfs.FileOps
use mgridfs.Main.{
  Call, Answer, mgridfs_ops, mgridfs_init, mgridfs_destroy, init, destroy, statfs, getattr,
  fgetattr, access, setxattr, getxattr, listxattr, removexattr, chmod, chown, utime, utimens, mknod,
  mkdir, rmdir, opendir, readdir, releasedir, fsyncdir, link, readlink, unlink, symlink, create,
  open_file, read, read_buf, write, write_buf, flush, release, rename, truncate, ftruncate, fsync,
  lock, bmap, ioctl, poll, flock, fallocate,
}

abbrev Kept : (e : Env) → {A : Type 0} → Option (Action (World e.server.Db) A) → Type 0
Kept e none = Unit {0}
Kept e (some m) = Keeps e Anything Never m

module _ (e : Env) (l : Limits e.options.max_mem_file_size e.options.mem_chunk_size)
    (scaled : ℕ → ℕ → ℕ → ℕ) where
  ops-Kept : (c : Call) → Kept e (mgridfs_ops e scaled c)
  unfolding mgridfs_ops mgridfs_init mgridfs_destroy Unsupported.mgridfs_setxattr
      Unsupported.mgridfs_removexattr Unsupported.mgridfs_mknod DirOps.mgridfs_fsyncdir
      Unsupported.mgridfs_lock Unsupported.mgridfs_bmap Unsupported.mgridfs_ioctl
      Unsupported.mgridfs_poll Unsupported.mgridfs_flock
  ops-Kept init = Keeps-return tt tt
  ops-Kept destroy = Keeps-return tt tt
  ops-Kept statfs = DirOps.Keeps.mgridfs_statfs-Keeps e scaled
  ops-Kept (getattr file) = AttrOps.Keeps.mgridfs_getattr-Keeps e file
  ops-Kept (fgetattr file fh) = AttrOps.Keeps.mgridfs_fgetattr-Keeps e file fh
  ops-Kept (access file mask) = tt
  ops-Kept (setxattr file name value flags) = Keeps-return (pos 0) tt
  ops-Kept (getxattr file name value) = AttrOps.Keeps.mgridfs_getxattr-Keeps e file name value
  ops-Kept (listxattr file list) = AttrOps.Keeps.mgridfs_listxattr-Keeps e file list
  ops-Kept (removexattr file attr) = Keeps-return (pos 0) tt
  ops-Kept (chmod file mode) = AttrOps.Keeps.mgridfs_chmod-Keeps e file mode
  ops-Kept (chown file uid gid) = AttrOps.Keeps.mgridfs_chown-Keeps e file uid gid
  ops-Kept (utime file time) = AttrOps.Keeps.mgridfs_utime-Keeps e file time
  ops-Kept (utimens file access_time modification) =
      AttrOps.Keeps.mgridfs_utimens-Keeps e file access_time modification
  ops-Kept (mknod file mode dev) = Keeps-return (neg 95) tt
  ops-Kept (mkdir path mode) = DirOps.Keeps.mgridfs_mkdir-Keeps e path mode
  ops-Kept (rmdir path) = DirOps.Keeps.mgridfs_rmdir-Keeps e path
  ops-Kept (opendir path) = DirOps.Keeps.mgridfs_opendir-Keeps e path
  ops-Kept (readdir path fh) = DirOps.Keeps.mgridfs_readdir-Keeps e path fh
  ops-Kept (releasedir path fh) = DirOps.Keeps.mgridfs_releasedir-Keeps e path fh
  ops-Kept (fsyncdir path param fh) = Keeps-return (neg 13) tt
  ops-Kept (link srcfile destfile) = tt
  ops-Kept (readlink file len) = AttrOps.Keeps.mgridfs_readlink-Keeps e file len
  ops-Kept (unlink file) = AttrOps.Keeps.mgridfs_unlink-Keeps e file
  ops-Kept (symlink srcfile destfile) = AttrOps.Keeps.mgridfs_symlink-Keeps e srcfile destfile
  ops-Kept (create file mode fh) = FileOps.Keeps.mgridfs_create-Keeps e l file mode fh
  ops-Kept (open_file file flags) = FileOps.Keeps.mgridfs_open-Keeps e l file flags
  ops-Kept (read file len offset flags fh) =
      DataOps.Keeps.mgridfs_read-Keeps e file len offset flags fh
  ops-Kept (read_buf file size offset fh) = tt
  ops-Kept (write file buf offset fh) = DataOps.Keeps.mgridfs_write-Keeps e file buf offset fh
  ops-Kept (write_buf file offset fh) = tt
  ops-Kept (flush file flags fh) = FileOps.Keeps.mgridfs_flush-Keeps e file flags fh
  ops-Kept (release file fh) = FileOps.Keeps.mgridfs_release-Keeps e file fh
  ops-Kept (rename srcfile destfile) = AttrOps.Keeps.mgridfs_rename-Keeps e srcfile destfile
  ops-Kept (truncate file len) = DataOps.Keeps.mgridfs_truncate-Keeps e file len
  ops-Kept (ftruncate file offset fh) = DataOps.Keeps.mgridfs_ftruncate-Keeps e file offset fh
  ops-Kept (fsync file param flags fh) = FileOps.Keeps.mgridfs_fsync-Keeps e file param flags fh
  ops-Kept (lock file fh cmd) = Keeps-return (neg 95) tt
  ops-Kept (bmap file blocksize) = Keeps-return (neg 95) tt
  ops-Kept (ioctl file cmd fh flags) = Keeps-return (neg 95) tt
  ops-Kept (poll file fh) = Keeps-return (neg 95) tt
  ops-Kept (flock file fh op) = Keeps-return (neg 95) tt
  ops-Kept (fallocate file mode offset len fh) =
      DataOps.Keeps.mgridfs_fallocate-Keeps e file mode offset len fh

  -- An operation of the table, run in a consistent state, throws nothing out of the handler, and the
  -- state that it leaves is consistent.
  pub mgridfs_ops-Keeps :
      (c : Call) {m : Action (World e.server.Db) (Answer c)}
      → mgridfs_ops e scaled c ≡ some m
      → Keeps e Anything Never m
  mgridfs_ops-Keeps c {m} q = at_some (mgridfs_ops e scaled c) (ops-Kept c) q
    where
      at_some :
          (o : Option (Action (World e.server.Db) (Answer c)))
          → Kept e o
          → o ≡ some m
          → Keeps e Anything Never m
      at_some none k q = absurd (ground arith)
      at_some (some n) k q = let same : n ≡ m = cc q in rw (← same) k
