-- ===== src/AttrOps/Keeps.antt =====
-- The handlers of documents keep the state consistent, and throw nothing.
use mgridfs.Base.{
  ℕ, ◌*◌, ◌/◌, ◌%◌, ◌^◌, Option, none, some, List, [], ◌∷◌, ◌==◌, if◌then◌else◌, ℤ, pos, neg, Name,
  bytes,
}
use mgridfs.Handle.{is_valid}
use mgridfs.Handle
use mgridfs.Server.{GridFile, Changes, named, by_name, by_id}
use mgridfs.World.{Env, World, ◌>>=◌, return, command, draw}
use mgridfs.LocalFs.{find_by_name}
use mgridfs.LocalFs.Consistent.{
  Keeps-session, Consistent, Leaves-if, Leaves-done, Keeps, Keeps-return, Keeps-bind, Keeps-draw,
  Keeps-world, Keeps-if, Keeps-ask, Keeps-command, Keeps-catching,
}
use mgridfs.LocalFs.Keeps.{Anything}
use mgridfs.Ops.{this_handle, entry_changes}
use mgridfs.AttrOps.{
  Stat, stat_of, link_buffer, link_mode, mgridfs_getattr, mgridfs_fgetattr, mgridfs_readlink,
  mgridfs_unlink, mgridfs_symlink, update_named, mgridfs_rename, mgridfs_chmod, mgridfs_chown,
  mgridfs_utime, mgridfs_utimens, rename_changes, chmod_changes, chown_changes, utime_changes,
}
use mgridfs.AttrOps.Unsupported.{mgridfs_getxattr, mgridfs_listxattr}

module _ (e : Env) {R : World e.server.Db → Type 0} where
  open e.server use {Oid, connect, grid_fs, find_file, store_file, remove_file, update, obj_size}

  pub mgridfs_getattr-Keeps : (file : Name) → Keeps e Anything R (mgridfs_getattr e file)
  unfolding mgridfs_getattr
  mgridfs_getattr-Keeps file =
      Keeps-catching
        (Keeps-session (
          (Keeps-bind (Keeps-ask (find_file (named file)) (λ found. tt))
            (λ found u. Keeps-bind Keeps-world (λ w c. answer w found)))))
        (Keeps-return (neg 5, none) tt)
    where
      answer :
          (w : World e.server.Db) (found : Option GridFile)
          → Keeps e {A = ℤ × Option Stat} Anything (Consistent e) (elim found [
            | none ↦ return (neg 2, none)
            | some g ↦ return (pos 0, some (stat_of obj_size (find_by_name file w.files) g))
          ])
      answer w none = Keeps-return (neg 2, none) tt
      answer w (some g) =
          Keeps-return (pos 0, some (stat_of obj_size (find_by_name file w.files) g)) tt

  pub mgridfs_fgetattr-Keeps :
      (file : Name) (fh : ℕ) → Keeps e Anything R (mgridfs_fgetattr e file fh)
  unfolding mgridfs_fgetattr
  mgridfs_fgetattr-Keeps file fh = record {
    run = λ w c.
        let k = this_handle w file fh in
        Leaves-if (is_valid w.handles k) (λ y. (mgridfs_getattr-Keeps k.filename).run w c)
          (λ n. Leaves-done (neg 9, none) w c tt);
  }

  pub mgridfs_readlink-Keeps :
      (file : Name) (len : ℕ) → Keeps e Anything R (mgridfs_readlink e file len)
  unfolding mgridfs_readlink
  mgridfs_readlink-Keeps file len =
      Keeps-if (len == 0) (λ y. Keeps-return (neg 22, none) tt)
        (λ n.
          Keeps-catching
            (Keeps-session (
              (Keeps-bind (Keeps-ask (find_file (named file)) (λ found. tt))
                (λ found u. answer found))))
            (Keeps-return (neg 5, none) tt))
    where
      answer :
          (found : Option GridFile)
          → Keeps e {A = ℤ × Option (List ℕ)} Anything (Consistent e) (elim found [
            | none ↦ return (neg 2, none)
            | some g ↦
                return (pos 0, some (link_buffer len (Handle.name_or_empty g.metadata.target)))
          ])
      answer none = Keeps-return (neg 2, none) tt
      answer (some g) =
          Keeps-return (pos 0, some (link_buffer len (Handle.name_or_empty g.metadata.target))) tt

  pub mgridfs_unlink-Keeps : (file : Name) → Keeps e Anything R (mgridfs_unlink e file)
  unfolding mgridfs_unlink
  mgridfs_unlink-Keeps file =
      Keeps-catching
        (Keeps-session (
          (Keeps-bind (Keeps-command (remove_file file) (λ b. tt))
            (λ b u. Keeps-return (pos 0) tt))))
        (Keeps-return (neg 5) tt)

  pub mgridfs_symlink-Keeps :
      (srcfile destfile : Name) → Keeps e Anything R (mgridfs_symlink e srcfile destfile)
  unfolding mgridfs_symlink
  mgridfs_symlink-Keeps srcfile destfile =
      Keeps-catching
        (Keeps-session
          ((Keeps-bind (Keeps-command (store_file [] destfile) (λ oid. tt)) (λ oid u. stored oid))))
        (Keeps-return (neg 5) tt)
    where
      stored :
          (oid : Option Oid)
          → Keeps e {A = ℤ} Anything (Consistent e) (elim oid [
            | none ↦ return (neg 5)
            | some id ↦ draw e >>= λ m.
                command (
                  update (by_id id) (
                    entry_changes
                      (bytes "slink")
                      destfile
                      m.now
                      e.context.uid
                      e.context.gid
                      link_mode
                      (some srcfile)))
                >>= λ t. return (pos 0)
          ])
      stored none = Keeps-return (neg 5) tt
      stored (some id) = Keeps-bind Keeps-draw (λ m t.
          Keeps-bind
            (Keeps-command
              (update (by_id id) (
                entry_changes (bytes "slink") destfile m.now e.context.uid e.context.gid link_mode
                  (some srcfile)))
              (λ n. tt))
            (λ n u. Keeps-return (pos 0) tt))

  update_named-Keeps :
      (file : Name) (changes : Changes) → Keeps e Anything R (update_named e file changes)
  unfolding update_named
  update_named-Keeps file changes =
      Keeps-catching
        (Keeps-bind (Keeps-command connect (λ a. tt)) (λ a t.
          Keeps-bind (Keeps-command (update (by_name file) changes) (λ n. tt))
            (λ n u. Keeps-return (if n == 0 then neg 2 else pos 0) tt)))
        (Keeps-return (neg 5) tt)

  pub mgridfs_rename-Keeps :
      (srcfile destfile : Name) → Keeps e Anything R (mgridfs_rename e srcfile destfile)
  unfolding mgridfs_rename
  mgridfs_rename-Keeps srcfile destfile = update_named-Keeps srcfile (rename_changes destfile)

  pub mgridfs_chmod-Keeps :
      (file : Name) (mode : ℕ) → Keeps e Anything R (mgridfs_chmod e file mode)
  unfolding mgridfs_chmod
  mgridfs_chmod-Keeps file mode = update_named-Keeps file (chmod_changes mode)

  pub mgridfs_chown-Keeps :
      (file : Name) (uid gid : ℕ) → Keeps e Anything R (mgridfs_chown e file uid gid)
  unfolding mgridfs_chown
  mgridfs_chown-Keeps file uid gid = update_named-Keeps file (chown_changes uid gid)

  pub mgridfs_utime-Keeps :
      (file : Name) (time : Option ℕ) → Keeps e Anything R (mgridfs_utime e file time)
  unfolding mgridfs_utime
  mgridfs_utime-Keeps file none =
      Keeps-bind Keeps-draw (λ m t. update_named-Keeps file (utime_changes m.now))
  mgridfs_utime-Keeps file (some modtime) =
      update_named-Keeps file (utime_changes (modtime * 1000 % 2 ^ 64))

  pub mgridfs_utimens-Keeps :
      (file : Name) (access modification : ℕ)
      → Keeps e Anything R (mgridfs_utimens e file access modification)
  unfolding mgridfs_utimens
  mgridfs_utimens-Keeps file access modification =
      Keeps-if (modification == 0) (λ y. mgridfs_utime-Keeps file (some modification))
        (λ n. Keeps-bind Keeps-draw (λ m t. mgridfs_utime-Keeps file (some (m.now / 1000))))

  pub mgridfs_getxattr-Keeps :
      (file name : Name) (value : List ℕ) → Keeps e Anything R (mgridfs_getxattr e file name value)
  unfolding mgridfs_getxattr
  mgridfs_getxattr-Keeps file name [] = Keeps-return (pos 0, []) tt
  mgridfs_getxattr-Keeps file name (b ∷ bs) = Keeps-return (pos 0, 0 ∷ bs) tt

  pub mgridfs_listxattr-Keeps :
      (file : Name) (list : List ℕ) → Keeps e Anything R (mgridfs_listxattr e file list)
  unfolding mgridfs_listxattr
  mgridfs_listxattr-Keeps file [] = Keeps-return (pos 0, []) tt
  mgridfs_listxattr-Keeps file (b ∷ bs) = Keeps-return (pos 0, 0 ∷ bs) tt
