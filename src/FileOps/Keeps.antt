-- ===== src/FileOps/Keeps.antt =====
-- The handlers that open, save and close files keep the state consistent, and throw nothing.
use mgridfs.Base.{
  ℕ, Bool, true, false, not, Option, none, some, [], ◌==◌, if◌then◌else◌, ℤ, pos, neg, Name, bytes,
}
use mgridfs.LocalFile.{LocalFile, set_size}
use mgridfs.LocalFile.Valid.{Limits}
use mgridfs.Handle.{FileHandle, is_valid, assign_handle}
use mgridfs.Handle.Assign
use mgridfs.Handle.Wrap.{assign_handle-IsValid}
use mgridfs.Server.{Reply, GridFile, ok, thrown, named, by_id}
use mgridfs.World.{Env, World, ◌>>=◌, ◌>>◌, return, done, command, draw}
use mgridfs.LocalFs.{find_by_name, release_file}
use mgridfs.LocalFs.Consistent.{
  Keeps-session, Consistent, Leaves, Leaves-if, Leaves-done, Keeps, Keeps-return, Keeps-bind,
  Keeps-draw, Keeps-world, Keeps-set_handles, Keeps-total, Keeps-if, Keeps-ask, Keeps-command,
  Keeps-catching, Keeps-attempt,
}
use mgridfs.LocalFs.Keeps.{
  Anything, HeldIf, find-HeldIf, set_size-Held, Keeps-put, flush-Keeps, create_file-Keeps,
  release_file-Keeps, unassign-Keeps,
}
use mgridfs.Sync.{open_remote}
use mgridfs.Sync.Keeps.{open_remote-Keeps}
use mgridfs.Ops.{this_handle, keep, is_rdonly, o_creat, o_trunc, or_bit, entry_changes}
use mgridfs.FileOps.{
  is_zero, create_remote, assign, made_local, create_local, created, mgridfs_create,
  truncate_opened, open_local, open_cases, open_found, open_assigned, mgridfs_open, flush_held,
  mgridfs_flush, mgridfs_fsync, release_local, mgridfs_release,
}

module _ (e : Env) where
  open e.server use {connect, grid_fs, store_file, update}

  create_remote-Keeps :
      (file : Name) (mode : ℕ) → Keeps e Anything (Consistent e) (create_remote e file mode)
  unfolding create_remote
  create_remote-Keeps file mode =
      Keeps-session
        ((Keeps-bind (Keeps-command (store_file [] file) (λ oid. tt)) (λ oid u. stored oid)))
    where
      stored :
          (oid : Option e.server.Oid)
          → Keeps e {A = Bool} Anything (Consistent e) (elim oid [
            | none ↦ return false
            | some id ↦ draw e >>= λ m.
                command (
                  update
                    (by_id id)
                    (entry_changes (bytes "file") file m.now e.context.uid e.context.gid mode none))
                >>= λ t. return true
          ])
      stored none = Keeps-return false tt
      stored (some id) = Keeps-bind Keeps-draw (λ m t.
          Keeps-bind
            (Keeps-command
              (update (by_id id)
                (entry_changes (bytes "file") file m.now e.context.uid e.context.gid mode none))
              (λ n. tt))
            (λ n u. Keeps-return true tt))

module _ (e : Env) {R : World e.server.Db → Type 0} where
  pub assign-Keeps : (file : Name) → Keeps e Anything R (assign e file)
  unfolding assign
  assign-Keeps file = Keeps-bind Keeps-world (λ w c.
      Keeps-bind
        (Keeps-total {Q = λ a. Assign.IsValid a.2} (assign_handle (this_handle w file 0) w.handles)
          (λ a q. assign_handle-IsValid (this_handle w file 0) w.handles c.handles q))
        (λ a v. Keeps-bind (Keeps-set_handles a.2 v) (λ t u. Keeps-return (a.0, a.1) tt)))

  module _ (l : Limits e.options.max_mem_file_size e.options.mem_chunk_size) where
    made_local-Keeps :
        (h : FileHandle) (o : Option LocalFile) → Keeps e Anything R (made_local e h o)
    made_local-Keeps h none = Keeps-bind (unassign-Keeps h) (λ t u. Keeps-return (neg 12, h.fh) tt)
    made_local-Keeps h (some f) = Keeps-return (pos 0, h.fh) tt

    create_local-Keeps : (file : Name) → Keeps e Anything R (create_local e file)
    unfolding create_local
    create_local-Keeps file = Keeps-bind (assign-Keeps file) (λ a t.
        Keeps-if (a.0 == 0) (λ y. Keeps-return (neg 23, a.0) tt)
          (λ n. Keeps-bind (create_file-Keeps file l) (λ o h. made_local-Keeps a.1 o)))

    created-Keeps :
        (file : Name) (fh : ℕ) (r : Reply Bool) → Keeps e Anything R (created e file fh r)
    unfolding created
    created-Keeps file fh thrown = Keeps-return (neg 5, fh) tt
    created-Keeps file fh (ok stored) =
        Keeps-if stored (λ y. create_local-Keeps file) (λ n. Keeps-return (neg 9, fh) tt)

    pub mgridfs_create-Keeps :
        (file : Name) (mode fh : ℕ) → Keeps e Anything R (mgridfs_create e file mode fh)
    unfolding mgridfs_create
    mgridfs_create-Keeps file mode fh =
        Keeps-bind (Keeps-attempt (create_remote-Keeps e file (or_bit 15 mode)))
          (λ r t. created-Keeps file fh r)

    truncate_opened-Keeps : (file : Name) → Keeps e Anything R (truncate_opened e file)
    unfolding truncate_opened
    truncate_opened-Keeps file = Keeps-bind Keeps-world (λ w c.
        Keeps-bind Keeps-draw
          (λ m t. opened m.chunks (find_by_name file w.files) (find-HeldIf e file w c)))
      where
        opened :
            (alloc : mgridfs.LocalFile.Alloc) (o : Option LocalFile)
            → HeldIf e file o
            → Keeps e {A = ℤ} Anything R (elim o [
              | none ↦ return (pos 0)
              | some f ↦
                  (keep file (set_size alloc e.options.max_mem_file_size 0 f) >>= λ fits.
                  return (if fits then pos 0 else neg 5))
            ])
        opened alloc none h = Keeps-return (pos 0) tt
        opened alloc (some f) h =
            let r = set_size alloc e.options.max_mem_file_size 0 f in
            Keeps-bind (Keeps-put file r.1 r.0 (set_size-Held e file alloc 0 f h))
              (λ fits u. Keeps-return (if fits then pos 0 else neg 5) tt)

    pub open_local-Keeps : (file : Name) (flags : ℕ) → Keeps e Anything R (open_local e file flags)
    unfolding open_local
    open_local-Keeps file flags = Keeps-bind (create_file-Keeps file l) (λ made h. loaded made h)
      where
        loaded :
            (o : Option LocalFile)
            → HeldIf e file o
            → Keeps e {A = ℤ} Anything R (elim o [
              | none ↦ return (neg 12)
              | some f ↦
                  ((open_remote e f >>= keep file) >>= λ code.
                  if not (is_zero code)
                  then (release_file e file >> return (neg 5))
                  else if o_trunc flags
                  then truncate_opened e file
                  else return (pos 0))
            ])
        loaded none h = Keeps-return (neg 12) tt
        loaded (some f) h =
            Keeps-bind (Keeps-bind (open_remote-Keeps e file f h) (λ r k. Keeps-put file r.1 r.0 k))
              (λ code t.
                Keeps-if (not (is_zero code))
                  (λ y. Keeps-bind (release_file-Keeps file) (λ b u. Keeps-return (neg 5) tt))
                  (λ n.
                    Keeps-if (o_trunc flags) (λ y. truncate_opened-Keeps file)
                      (λ n'. Keeps-return (pos 0) tt)))

module _ (e : Env) (l : Limits e.options.max_mem_file_size e.options.mem_chunk_size) where
  open e.server use {connect, grid_fs, find_file}

  open_cases-Keeps :
      (file : Name) (flags : ℕ) (h : FileHandle) (o : Option GridFile)
      → Keeps e Anything (Consistent e) (open_cases e file flags h o)
  unfolding open_cases
  open_cases-Keeps file flags h (some g) =
      Keeps-if (is_rdonly flags) (λ y. Keeps-return (pos 0, h.fh) tt)
        (λ n. Keeps-bind (open_local-Keeps e l file flags) (λ code t. Keeps-return (code, h.fh) tt))
  open_cases-Keeps file flags h none = Keeps-bind (unassign-Keeps h) (λ t u.
      Keeps-if (o_creat flags) (λ y. mgridfs_create-Keeps e l file e.context.umask h.fh)
        (λ n. Keeps-return (neg 2, h.fh) tt))

  module _ {R : World e.server.Db → Type 0} where
    open_assigned-Keeps :
        (file : Name) (flags : ℕ) (h : FileHandle) (o : Option LocalFile)
        → Keeps e Anything R (open_assigned e file flags h o)
    unfolding open_assigned open_found
    open_assigned-Keeps file flags h (some f) = Keeps-return (pos 0, h.fh) tt
    open_assigned-Keeps file flags h none =
        Keeps-catching
          (Keeps-session (
            (Keeps-bind (Keeps-ask (find_file (named file)) (λ found. tt))
              (λ found u. open_cases-Keeps file flags h found))))
          (Keeps-bind (unassign-Keeps h) (λ t u. Keeps-return (neg 5, h.fh) tt))

    pub mgridfs_open-Keeps :
        (file : Name) (flags : ℕ) → Keeps e Anything R (mgridfs_open e file flags)
    unfolding mgridfs_open
    mgridfs_open-Keeps file flags = Keeps-bind (assign-Keeps e file) (λ a t.
        Keeps-bind Keeps-world (λ w c.
          Keeps-if (a.0 == 0) (λ y. Keeps-return (neg 23, a.0) tt)
            (λ n. open_assigned-Keeps file flags a.1 (find_by_name file w.files))))

module _ (e : Env) {R : World e.server.Db → Type 0} where
  flush_held-Keeps :
      (name : Name) (o : Option LocalFile)
      → HeldIf e name o
      → Keeps e Anything R (flush_held e name o)
  unfolding flush_held
  flush_held-Keeps name none h = Keeps-return (neg 9) tt
  flush_held-Keeps name (some f) h =
      Keeps-bind (flush-Keeps name f h) (λ r k. Keeps-put name r.1 r.0 k)

  flush_open-Keeps :
      (k : FileHandle) (flags : ℕ) (w : World e.server.Db)
      → Consistent e w
      → Leaves e Anything R (
          if not (is_valid w.handles k)
          then done (neg 9) w
          else if is_rdonly flags
          then done (pos 0) w
          else flush_held e k.filename (find_by_name k.filename w.files) w)
  flush_open-Keeps k flags w c =
      Leaves-if (not (is_valid w.handles k)) (λ y. Leaves-done (neg 9) w c tt)
        (λ n.
          Leaves-if (is_rdonly flags) (λ y. Leaves-done (pos 0) w c tt)
            (λ n'.
              (flush_held-Keeps k.filename (find_by_name k.filename w.files)
                  (find-HeldIf e k.filename w c)).run
                w c))

  pub mgridfs_flush-Keeps :
      (file : Name) (flags fh : ℕ) → Keeps e Anything R (mgridfs_flush e file flags fh)
  unfolding mgridfs_flush
  mgridfs_flush-Keeps file flags fh = record {
    run = λ w c. flush_open-Keeps (this_handle w file fh) flags w c;
  }

  pub mgridfs_fsync-Keeps :
      (file : Name) (param flags fh : ℕ) → Keeps e Anything R (mgridfs_fsync e file param flags fh)
  unfolding mgridfs_fsync
  mgridfs_fsync-Keeps file param flags fh = record {
    run = λ w c. flush_open-Keeps (this_handle w file fh) flags w c;
  }

  release_local-Keeps :
      (name : Name) (o : Option LocalFile)
      → HeldIf e name o
      → Keeps e Anything R (release_local e name o)
  release_local-Keeps name none h = Keeps-return tt tt
  release_local-Keeps name (some f) h =
      Keeps-bind {P = Anything}
        (Keeps-if f.dirty
          (λ y.
            Keeps-bind (Keeps-bind (flush-Keeps name f h) (λ r k. Keeps-put name r.1 r.0 k))
              (λ code t. Keeps-return tt tt))
          (λ n. Keeps-return tt tt))
        (λ t u. Keeps-bind (release_file-Keeps name) (λ b u'. Keeps-return tt tt))

  pub mgridfs_release-Keeps :
      (file : Name) (fh : ℕ) → Keeps e Anything R (mgridfs_release e file fh)
  unfolding mgridfs_release
  mgridfs_release-Keeps file fh = record {
    run = λ w c.
        let k = this_handle w file fh in
        Leaves-if (is_valid w.handles k)
          (λ y.
            (Keeps-bind
                (Keeps-bind
                  (release_local-Keeps k.filename (find_by_name k.filename w.files)
                    (find-HeldIf e k.filename w c))
                  (λ t u. unassign-Keeps k))
                (λ t u. Keeps-return (pos 0) tt)).run
              w c)
          (λ n. Leaves-done (pos 0) w c tt);
  }
