-- ===== src/Main.antt =====
-- main.cpp: the table of the FUSE operations, and `main`. Two handlers of fs_meta_ops.cpp that only
-- trace, `mgridfs_init` and `mgridfs_destroy`, stand here too.
pub mod Calls
pub mod Reach
pub mod Runs
use mgridfs.Base.{ℕ, Option, none, some, List, ℤ, Name}
use mgridfs.World.{Env, World, Action, ◌>>=◌, ◌>>◌, return}
use mgridfs.Logger.{Manager, new_manager}
use mgridfs.Options.{FsOptions, mgridfs_options, fuse_option_callback}
use mgridfs.DirOps.{
  StatVfs, mgridfs_statfs, mgridfs_mkdir, mgridfs_rmdir, mgridfs_opendir, mgridfs_readdir,
  mgridfs_releasedir, mgridfs_fsyncdir,
}
use mgridfs.AttrOps.{
  Stat, mgridfs_getattr, mgridfs_fgetattr, mgridfs_chmod, mgridfs_chown, mgridfs_utime,
  mgridfs_utimens, mgridfs_readlink, mgridfs_unlink, mgridfs_symlink, mgridfs_rename,
}
use mgridfs.AttrOps.Unsupported.{
  mgridfs_setxattr, mgridfs_getxattr, mgridfs_listxattr, mgridfs_removexattr, mgridfs_mknod,
  mgridfs_lock, mgridfs_bmap, mgridfs_ioctl, mgridfs_poll, mgridfs_flock,
}
use mgridfs.FileOps.{mgridfs_create, mgridfs_open, mgridfs_flush, mgridfs_release, mgridfs_fsync}
use mgridfs.DataOps.{
  mgridfs_read, mgridfs_write, mgridfs_truncate, mgridfs_ftruncate, mgridfs_fallocate,
}
use mgridfs.Mount.{FuseOptParse, Started, exited, refused, started, from_command_line}

-- A request of the kernel: an operation of `struct fuse_operations` with its arguments. Of
-- `struct fuse_file_info` these are the handle and the flags.
pub data Call : Type 0 where
  init : Call
  destroy : Call
  statfs : Call
  getattr : Name → Call
  fgetattr : Name → ℕ → Call
  access : Name → ℕ → Call
  setxattr : Name → Name → List ℕ → ℕ → Call
  getxattr : Name → Name → List ℕ → Call
  listxattr : Name → List ℕ → Call
  removexattr : Name → Name → Call
  chmod : Name → ℕ → Call
  chown : Name → ℕ → ℕ → Call
  utime : Name → Option ℕ → Call
  utimens : Name → ℕ → ℕ → Call
  mknod : Name → ℕ → ℕ → Call
  mkdir : Name → ℕ → Call
  rmdir : Name → Call
  opendir : Name → Call
  readdir : Name → ℕ → Call
  releasedir : Name → ℕ → Call
  fsyncdir : Name → ℕ → ℕ → Call
  link : Name → Name → Call
  readlink : Name → ℕ → Call
  unlink : Name → Call
  symlink : Name → Name → Call
  create : Name → ℕ → ℕ → Call
  open_file : Name → ℕ → Call
  read : Name → ℕ → ℕ → ℕ → ℕ → Call
  read_buf : Name → ℕ → ℕ → ℕ → Call
  write : Name → List ℕ → ℕ → ℕ → Call
  write_buf : Name → ℕ → ℕ → Call
  flush : Name → ℕ → ℕ → Call
  release : Name → ℕ → Call
  rename : Name → Name → Call
  truncate : Name → ℕ → Call
  ftruncate : Name → ℕ → ℕ → Call
  fsync : Name → ℕ → ℕ → ℕ → Call
  lock : Name → ℕ → ℕ → Call
  bmap : Name → ℕ → Call
  ioctl : Name → ℕ → ℕ → ℕ → Call
  poll : Name → ℕ → Call
  flock : Name → ℕ → ℕ → Call
  fallocate : Name → ℕ → ℕ → ℕ → ℕ → Call

-- What an operation gives back.
abbrev pub Answer : Call → Type 0
Answer init = Unit {0}
Answer destroy = Unit {0}
Answer statfs = ℤ × Option StatVfs
Answer (getattr file) = ℤ × Option Stat
Answer (fgetattr file fh) = ℤ × Option Stat
Answer (access file mask) = ℤ
Answer (setxattr file name value flags) = ℤ
Answer (getxattr file name value) = ℤ × List ℕ
Answer (listxattr file list) = ℤ × List ℕ
Answer (removexattr file attr) = ℤ
Answer (chmod file mode) = ℤ
Answer (chown file uid gid) = ℤ
Answer (utime file time) = ℤ
Answer (utimens file access_time modification) = ℤ
Answer (mknod file mode dev) = ℤ
Answer (mkdir path mode) = ℤ
Answer (rmdir path) = ℤ
Answer (opendir path) = ℤ × Option ℕ
Answer (readdir path fh) = ℤ × List Name
Answer (releasedir path fh) = ℤ
Answer (fsyncdir path param fh) = ℤ
Answer (link srcfile destfile) = ℤ
Answer (readlink file len) = ℤ × Option (List ℕ)
Answer (unlink file) = ℤ
Answer (symlink srcfile destfile) = ℤ
Answer (create file mode fh) = ℤ × ℕ
Answer (open_file file flags) = ℤ × ℕ
Answer (read file len offset flags fh) = ℤ × List ℕ
Answer (read_buf file size offset fh) = ℤ
Answer (write file buf offset fh) = ℤ
Answer (write_buf file offset fh) = ℤ
Answer (flush file flags fh) = ℤ
Answer (release file fh) = ℤ
Answer (rename srcfile destfile) = ℤ
Answer (truncate file len) = ℤ
Answer (ftruncate file offset fh) = ℤ
Answer (fsync file param flags fh) = ℤ
Answer (lock file fh cmd) = ℤ
Answer (bmap file blocksize) = ℤ
Answer (ioctl file cmd fh flags) = ℤ
Answer (poll file fh) = ℤ
Answer (flock file fh op) = ℤ
Answer (fallocate file mode offset len fh) = ℤ

module _ (e : Env) where
  unfoldable pub mgridfs_init : Action (World e.server.Db) (Unit {0})
  mgridfs_init = return tt

  unfoldable pub mgridfs_destroy : Action (World e.server.Db) (Unit {0})
  mgridfs_destroy = return tt

  -- `mgridfsOps`: the function that `main` puts into a field, if it puts one. `scaled` is the
  -- floating-point product of `mgridfs_statfs`.
  unfoldable pub mgridfs_ops :
      (ℕ → ℕ → ℕ → ℕ) → (c : Call) → Option (Action (World e.server.Db) (Answer c))
  unfolding mgridfs_init mgridfs_destroy
  mgridfs_ops scaled init = some mgridfs_init
  mgridfs_ops scaled destroy = some mgridfs_destroy
  mgridfs_ops scaled statfs = some (mgridfs_statfs e scaled)
  mgridfs_ops scaled (getattr file) = some (mgridfs_getattr e file)
  mgridfs_ops scaled (fgetattr file fh) = some (mgridfs_fgetattr e file fh)
  mgridfs_ops scaled (access file mask) = none
  mgridfs_ops scaled (setxattr file name value flags) =
      some (mgridfs_setxattr e file name value flags)
  mgridfs_ops scaled (getxattr file name value) = some (mgridfs_getxattr e file name value)
  mgridfs_ops scaled (listxattr file list) = some (mgridfs_listxattr e file list)
  mgridfs_ops scaled (removexattr file attr) = some (mgridfs_removexattr e file attr)
  mgridfs_ops scaled (chmod file mode) = some (mgridfs_chmod e file mode)
  mgridfs_ops scaled (chown file uid gid) = some (mgridfs_chown e file uid gid)
  mgridfs_ops scaled (utime file time) = some (mgridfs_utime e file time)
  mgridfs_ops scaled (utimens file access_time modification) =
      some (mgridfs_utimens e file access_time modification)
  mgridfs_ops scaled (mknod file mode dev) = some (mgridfs_mknod e file mode dev)
  mgridfs_ops scaled (mkdir path mode) = some (mgridfs_mkdir e path mode)
  mgridfs_ops scaled (rmdir path) = some (mgridfs_rmdir e path)
  mgridfs_ops scaled (opendir path) = some (mgridfs_opendir e path)
  mgridfs_ops scaled (readdir path fh) = some (mgridfs_readdir e path fh)
  mgridfs_ops scaled (releasedir path fh) = some (mgridfs_releasedir e path fh)
  mgridfs_ops scaled (fsyncdir path param fh) = some (mgridfs_fsyncdir e)
  mgridfs_ops scaled (link srcfile destfile) = none
  mgridfs_ops scaled (readlink file len) = some (mgridfs_readlink e file len)
  mgridfs_ops scaled (unlink file) = some (mgridfs_unlink e file)
  mgridfs_ops scaled (symlink srcfile destfile) = some (mgridfs_symlink e srcfile destfile)
  mgridfs_ops scaled (create file mode fh) = some (mgridfs_create e file mode fh)
  mgridfs_ops scaled (open_file file flags) = some (mgridfs_open e file flags)
  mgridfs_ops scaled (read file len offset flags fh) =
      some (mgridfs_read e file len offset flags fh)
  mgridfs_ops scaled (read_buf file size offset fh) = none
  mgridfs_ops scaled (write file buf offset fh) = some (mgridfs_write e file buf offset fh)
  mgridfs_ops scaled (write_buf file offset fh) = none
  mgridfs_ops scaled (flush file flags fh) = some (mgridfs_flush e file flags fh)
  mgridfs_ops scaled (release file fh) = some (mgridfs_release e file fh)
  mgridfs_ops scaled (rename srcfile destfile) = some (mgridfs_rename e srcfile destfile)
  mgridfs_ops scaled (truncate file len) = some (mgridfs_truncate e file len)
  mgridfs_ops scaled (ftruncate file offset fh) = some (mgridfs_ftruncate e file offset fh)
  mgridfs_ops scaled (fsync file param flags fh) = some (mgridfs_fsync e file param flags fh)
  mgridfs_ops scaled (lock file fh cmd) = some (mgridfs_lock e file fh cmd)
  mgridfs_ops scaled (bmap file blocksize) = some (mgridfs_bmap e file blocksize)
  mgridfs_ops scaled (ioctl file cmd fh flags) = some (mgridfs_ioctl e file cmd fh flags)
  mgridfs_ops scaled (poll file fh) = some (mgridfs_poll e file fh)
  mgridfs_ops scaled (flock file fh op) = some (mgridfs_flock e file fh op)
  mgridfs_ops scaled (fallocate file mode offset len fh) =
      some (mgridfs_fallocate e file mode offset len fh)

  -- How the process ends: 1 if the options are refused. What `fuse_main` returns is not looked at.
  unfoldable pub run_started :
      (FsOptions → Action (World e.server.Db) ℤ) → Started → Action (World e.server.Db) ℕ
  run_started fuse_main exited = return 0
  run_started fuse_main refused = return 1
  run_started fuse_main (started o m) = fuse_main o >> return 0

  unfoldable pub main :
      FuseOptParse
      → (FsOptions → Action (World e.server.Db) ℤ)
      → ℕ
      → ℕ
      → List Name
      → Action (World e.server.Db) ℕ
  unfolding run_started
  main fuse_opt_parse fuse_main euid egid arguments = do
    r ←
        from_command_line e euid egid new_manager
          (fuse_opt_parse mgridfs_options fuse_option_callback arguments)
    run_started fuse_main r
