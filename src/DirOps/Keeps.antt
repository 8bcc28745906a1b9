-- ===== src/DirOps/Keeps.antt =====
-- The handlers of directories and of the file system keep the state consistent, and throw nothing.
use mgridfs.Base.{
  ℕ, Option, none, some, List, [], ◌∷◌, ◌++◌, ◌==◌, if◌then◌else◌, ℤ, pos, neg, Name, bytes,
}
use mgridfs.Handle.{is_valid}
use mgridfs.Server.{Stats, named, by_id}
use mgridfs.World.{Env, World, ◌>>=◌, return, command}
use mgridfs.LocalFs.Consistent.{
  Consistent, Leaves-if, Leaves-done, Keeps, Keeps-return, Keeps-bind, Keeps-draw, Keeps-if,
  Keeps-ask, Keeps-command, Keeps-catching, Keeps-session,
}
use mgridfs.LocalFs.Keeps.{Anything, unassign-Keeps}
use mgridfs.Ops.{this_handle, or_bit, entry_changes}
use mgridfs.FileOps.{is_zero}
use mgridfs.FileOps.Keeps.{assign-Keeps}
use mgridfs.DirOps.{
  dots, entries, complete_directory, mgridfs_create_directory, mgridfs_mkdir, mgridfs_rmdir,
  directory_code, check_directory, mgridfs_opendir, mgridfs_readdir, mgridfs_releasedir, StatVfs,
  statvfs_of, mgridfs_statfs,
}

module _ (e : Env) {R : World e.server.Db → Type 0} where
  open e.server use {
    Oid, connect, grid_fs, find_file, store_file, remove_file, update, list_directory, db_stats,
  }

  create_directory-Keeps :
      (path : Name) (mode uid gid : ℕ)
      → Keeps e Anything R (mgridfs_create_directory e path mode uid gid)
  unfolding mgridfs_create_directory
  create_directory-Keeps path mode uid gid =
      Keeps-catching
        (Keeps-bind (Keeps-command grid_fs (λ a. tt)) (λ a t.
          Keeps-bind (Keeps-command (store_file [] path) (λ oid. tt)) (λ oid u. completed oid)))
        (Keeps-return (neg 5) tt)
    where
      completed :
          (oid : Option Oid)
          → Keeps e Anything (Consistent e) (complete_directory e path (or_bit 14 mode) uid gid oid)
      completed none = Keeps-return (neg 2) tt
      completed (some id) = Keeps-bind Keeps-draw (λ m t.
          Keeps-bind
            (Keeps-command
              (update (by_id id)
                (entry_changes (bytes "directory") path m.now uid gid (or_bit 14 mode) none))
              (λ n. tt))
            (λ n u. Keeps-return (pos 0) tt))

module _ (e : Env) {R : World e.server.Db → Type 0} where
  open e.server use {
    Oid, connect, grid_fs, find_file, store_file, remove_file, update, list_directory, db_stats,
  }

  pub mgridfs_mkdir-Keeps :
      (path : Name) (mode : ℕ) → Keeps e Anything R (mgridfs_mkdir e path mode)
  unfolding mgridfs_mkdir
  mgridfs_mkdir-Keeps path mode =
      Keeps-catching
        (Keeps-bind (Keeps-command connect (λ a. tt))
          (λ a t. create_directory-Keeps e path mode e.context.uid e.context.gid))
        (Keeps-return (neg 5) tt)

  pub mgridfs_rmdir-Keeps : (path : Name) → Keeps e Anything R (mgridfs_rmdir e path)
  unfolding mgridfs_rmdir
  mgridfs_rmdir-Keeps path =
      Keeps-catching
        (Keeps-bind (Keeps-command connect (λ a. tt)) (λ a t.
          Keeps-bind (Keeps-ask (list_directory path) (λ found. tt)) (λ found u. removed found)))
        (Keeps-return (neg 5) tt)
    where
      removed :
          (found : List (Option Name))
          → Keeps e {A = ℤ} Anything (Consistent e) (elim found [
            | n ∷ ns ↦ return (neg 39)
            | [] ↦ command grid_fs >>= λ t. command (remove_file path) >>= λ t'. return (pos 0)
          ])
      removed (n ∷ ns) = Keeps-return (neg 39) tt
      removed [] = Keeps-bind (Keeps-command grid_fs (λ a. tt)) (λ a t.
          Keeps-bind (Keeps-command (remove_file path) (λ b. tt)) (λ b u. Keeps-return (pos 0) tt))

  check_directory-Keeps : (path : Name) → Keeps e Anything R (check_directory e path)
  unfolding check_directory
  check_directory-Keeps path =
      Keeps-catching
        (Keeps-session (
          Keeps-bind (Keeps-ask (find_file (named path)) (λ found. tt))
            (λ found u. Keeps-return (directory_code e found) tt)))
        (Keeps-return (neg 5) tt)

  pub mgridfs_opendir-Keeps : (path : Name) → Keeps e Anything R (mgridfs_opendir e path)
  unfolding mgridfs_opendir
  mgridfs_opendir-Keeps path = Keeps-bind (check_directory-Keeps path) (λ code t.
      Keeps-if (is_zero code)
        (λ y.
          Keeps-bind (assign-Keeps e path)
            (λ a u. Keeps-return ((if a.0 == 0 then neg 23 else pos 0), some a.0) tt))
        (λ n. Keeps-return (code, none) tt))

  pub mgridfs_readdir-Keeps :
      (path : Name) (fh : ℕ) → Keeps e Anything R (mgridfs_readdir e path fh)
  unfolding mgridfs_readdir
  mgridfs_readdir-Keeps path fh = record {
    run = λ w c.
        Leaves-if (is_valid w.handles (this_handle w path fh))
          (λ y.
            (Keeps-catching
                (Keeps-session (
                  Keeps-bind (Keeps-ask (list_directory path) (λ found. tt))
                    (λ found u. Keeps-return (pos 0, dots ++ entries found) tt)))
                (Keeps-return (neg 5, dots) tt)).run
              w c)
          (λ n. Leaves-done (neg 9, []) w c tt);
  }

  pub mgridfs_releasedir-Keeps :
      (path : Name) (fh : ℕ) → Keeps e Anything R (mgridfs_releasedir e path fh)
  unfolding mgridfs_releasedir
  mgridfs_releasedir-Keeps path fh = record {
    run = λ w c.
        let k = this_handle w path fh in
        Leaves-if (is_valid w.handles k)
          (λ y. (Keeps-bind (unassign-Keeps k) (λ t u. Keeps-return (pos 0) tt)).run w c)
          (λ n. Leaves-done (neg 9) w c tt);
  }

  pub mgridfs_statfs-Keeps : (scaled : ℕ → ℕ → ℕ → ℕ) → Keeps e Anything R (mgridfs_statfs e scaled)
  unfolding mgridfs_statfs
  mgridfs_statfs-Keeps scaled =
      Keeps-catching
        (Keeps-bind (Keeps-command connect (λ a. tt))
          (λ a t. Keeps-bind (Keeps-ask db_stats (λ found. tt)) (λ found u. answer found)))
        (Keeps-return (neg 5, none) tt)
    where
      answer :
          (found : Option Stats)
          → Keeps e {A = ℤ × Option StatVfs} Anything (Consistent e) (elim found [
            | none ↦ return (neg 5, none)
            | some s ↦ return (pos 0, some (statvfs_of scaled s))
          ])
      answer none = Keeps-return (neg 5, none) tt
      answer (some s) = Keeps-return (pos 0, some (statvfs_of scaled s)) tt
