-- ===== src/AttrOps/Unsupported.antt =====
-- file_meta_ops.cpp: the operations that are not supported, and those on extended attributes, which do
-- nothing. They leave the state alone; an argument that is only traced is not looked at.
use mgridfs.Base.{ℕ, List, [], ◌∷◌, ℤ, pos, neg, Name}
use mgridfs.Ops.{enotsup}
use mgridfs.World.{Env, World, Action, return}

module _ (e : Env) where
  unfoldable pub mgridfs_mknod : Name → ℕ → ℕ → Action (World e.server.Db) ℤ
  mgridfs_mknod file mode dev = return (neg enotsup)

  unfoldable pub mgridfs_link : Name → Name → Action (World e.server.Db) ℤ
  mgridfs_link srcfile destfile = return (neg enotsup)

  unfoldable pub mgridfs_read_buf : Name → ℕ → ℕ → ℕ → Action (World e.server.Db) ℤ
  mgridfs_read_buf file size offset fh = return (neg enotsup)

  unfoldable pub mgridfs_write_buf : Name → ℕ → ℕ → Action (World e.server.Db) ℤ
  mgridfs_write_buf file offset fh = return (neg enotsup)

  unfoldable pub mgridfs_lock : Name → ℕ → ℕ → Action (World e.server.Db) ℤ
  mgridfs_lock file fh cmd = return (neg enotsup)

  unfoldable pub mgridfs_bmap : Name → ℕ → Action (World e.server.Db) ℤ
  mgridfs_bmap file blocksize = return (neg enotsup)

  unfoldable pub mgridfs_ioctl : Name → ℕ → ℕ → ℕ → Action (World e.server.Db) ℤ
  mgridfs_ioctl file cmd fh flags = return (neg enotsup)

  unfoldable pub mgridfs_poll : Name → ℕ → Action (World e.server.Db) ℤ
  mgridfs_poll file fh = return (neg enotsup)

  unfoldable pub mgridfs_flock : Name → ℕ → ℕ → Action (World e.server.Db) ℤ
  mgridfs_flock file fh op = return (neg enotsup)

  unfoldable pub mgridfs_setxattr : Name → Name → List ℕ → ℕ → Action (World e.server.Db) ℤ
  mgridfs_setxattr file name value flags = return (pos 0)

  -- The caller's buffer is emptied, if it has room for the null.
  unfoldable pub mgridfs_getxattr : Name → Name → List ℕ → Action (World e.server.Db) (ℤ × List ℕ)
  mgridfs_getxattr file name [] = return (pos 0, [])
  mgridfs_getxattr file name (b ∷ bs) = return (pos 0, 0 ∷ bs)

  unfoldable pub mgridfs_listxattr : Name → List ℕ → Action (World e.server.Db) (ℤ × List ℕ)
  mgridfs_listxattr file [] = return (pos 0, [])
  mgridfs_listxattr file (b ∷ bs) = return (pos 0, 0 ∷ bs)

  -- The key map is searched for a message only.
  unfoldable pub mgridfs_removexattr : Name → Name → Action (World e.server.Db) ℤ
  mgridfs_removexattr file attr = return (pos 0)
