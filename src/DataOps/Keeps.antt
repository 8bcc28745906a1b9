-- ===== src/DataOps/Keeps.antt =====
-- The handlers that move bytes or set sizes keep the state consistent, and throw nothing.
use mgridfs.Base.{
  ℕ, zero, suc, ◌+◌, ◌%◌, not, ◌||◌, Option, none, some, List, [], leb, ◌==◌, if◌then◌else◌, length,
  ℤ, pos, neg, add64, to_int, off_le, off_neg, Name, is_empty,
}
use mgridfs.LocalFile.{LocalFile, Alloc, set_size, write}
use mgridfs.LocalFile.Write.{write-IsValid}
use mgridfs.LocalFile.Akin.{write-Akin}
use mgridfs.Handle.{is_valid}
use mgridfs.Server.{GridFile, named}
use mgridfs.World.{Env, World, ◌>>=◌, return, total, done}
use mgridfs.LocalFs.{find_by_name}
use mgridfs.LocalFs.Consistent.{
  Keeps-session, Held, Consistent, Leaves, Leaves-if, Leaves-done, Keeps, Keeps-return, Keeps-bind,
  Keeps-draw, Keeps-total, Keeps-if, Keeps-ask, Keeps-catching,
}
use mgridfs.LocalFs.Keeps.{Anything, Akin-Held, set_size-Held, HeldIf, find-HeldIf, Keeps-put}
use mgridfs.Ops.{this_handle, is_rdonly}
use mgridfs.DataOps.{
  write_held, mgridfs_write, truncate_held, mgridfs_truncate, mgridfs_ftruncate, fallocate_held,
  mgridfs_fallocate, remote_chunks, serve, remote_read, mgridfs_read, copied,
}

module _ (e : Env) {R : World e.server.Db → Type 0} where
  write_held-Keeps :
      (buf : List ℕ) (offset : ℕ) (name : Name) (o : Option LocalFile)
      → HeldIf e name o
      → Keeps e Anything R (write_held e buf offset name o)
  unfolding write_held
  write_held-Keeps buf offset name none h = Keeps-return (neg 9) tt
  write_held-Keeps buf offset name (some f) h = Keeps-bind Keeps-draw (λ m t.
      Keeps-bind
        (Keeps-total {Q = λ r. Held e name r.1}
          (write m.chunks e.options.max_mem_file_size buf offset f)
          (λ r q.
            Akin-Held e name h (write-IsValid m.chunks f buf offset h.valid q)
              (write-Akin m.chunks f buf offset h.valid q)))
        (λ r q. Keeps-put name r.1 r.0 q))

  pub mgridfs_write-Keeps :
      (file : Name) (buf : List ℕ) (offset fh : ℕ)
      → Keeps e Anything R (mgridfs_write e file buf offset fh)
  unfolding mgridfs_write
  mgridfs_write-Keeps file buf offset fh = record {
    run = λ w c.
        let k = this_handle w file fh in
        Leaves-if (not (is_valid w.handles k)) (λ y. Leaves-done (neg 9) w c tt)
          (λ n.
            (write_held-Keeps buf offset k.filename (find_by_name k.filename w.files)
                (find-HeldIf e k.filename w c)).run
              w c);
  }

  truncate_held-Keeps :
      (len : ℕ) (name : Name) (o : Option LocalFile)
      → HeldIf e name o
      → Keeps e Anything R (truncate_held e len name o)
  unfolding truncate_held
  truncate_held-Keeps len name none h = Keeps-return (neg 9) tt
  truncate_held-Keeps len name (some f) h = Keeps-bind Keeps-draw (λ m t.
      let r = set_size m.chunks e.options.max_mem_file_size len f in
      Keeps-bind (Keeps-put name r.1 r.0 (set_size-Held e name m.chunks len f h))
        (λ fits u. Keeps-return (if fits then pos 0 else neg 5) tt))

  pub mgridfs_truncate-Keeps :
      (file : Name) (len : ℕ) → Keeps e Anything R (mgridfs_truncate e file len)
  unfolding mgridfs_truncate
  mgridfs_truncate-Keeps file len = record {
    run = λ w c.
        (truncate_held-Keeps len file (find_by_name file w.files) (find-HeldIf e file w c)).run w c;
  }

  pub mgridfs_ftruncate-Keeps :
      (file : Name) (offset fh : ℕ) → Keeps e Anything R (mgridfs_ftruncate e file offset fh)
  unfolding mgridfs_ftruncate
  mgridfs_ftruncate-Keeps file offset fh = record {
    run = λ w c.
        let k = this_handle w file fh in
        Leaves-if (is_valid w.handles k) (λ y. (mgridfs_truncate-Keeps k.filename offset).run w c)
          (λ n. Leaves-done (neg 9) w c tt);
  }

  fallocate_held-Keeps :
      (size : ℕ) (name : Name) (o : Option LocalFile)
      → HeldIf e name o
      → Keeps e Anything R (fallocate_held e size name o)
  unfolding fallocate_held
  fallocate_held-Keeps size name none h = Keeps-return (neg 9) tt
  fallocate_held-Keeps size name (some f) h = Keeps-bind Keeps-draw (λ m t.
      let r = set_size m.chunks e.options.max_mem_file_size size f in
      Keeps-bind (Keeps-put name r.1 r.0 (set_size-Held e name m.chunks size f h))
        (λ fits u. Keeps-return (if fits then pos 1 else pos 0) tt))

  pub mgridfs_fallocate-Keeps :
      (file : Name) (mode offset len fh : ℕ)
      → Keeps e Anything R (mgridfs_fallocate e file mode offset len fh)
  unfolding mgridfs_fallocate
  mgridfs_fallocate-Keeps file mode offset len fh = record {
    run = λ w c.
        let k = this_handle w file fh in
        Leaves-if (not (is_valid w.handles k)) (λ y. Leaves-done (neg 9) w c tt)
          (λ n.
            (fallocate_held-Keeps (add64 len offset) k.filename (find_by_name k.filename w.files)
                (find-HeldIf e k.filename w c)).run
              w c);
  }

module _ (e : Env) where
  open e.server use {connect, grid_fs, find_file, get_chunk}

  remote_chunks-Keeps :
      (g : GridFile) (len offset n i : ℕ) (got : List ℕ)
      → Keeps e Anything (Consistent e) (remote_chunks e g len offset n i got)
  unfolding remote_chunks
  remote_chunks-Keeps g len offset zero i got = Keeps-return (to_int (length got), got) tt
  remote_chunks-Keeps g len offset (suc n) i got =
      Keeps-if (leb len (length got)) (λ y. Keeps-return (to_int (length got), got) tt)
        (λ k.
          Keeps-bind (Keeps-ask (get_chunk g i) (λ c. tt))
            (λ c t. next (λ got'. remote_chunks-Keeps g len offset n (i + 1) got') c))
    where
      next :
          ((got' : List ℕ)
            → Keeps e Anything (Consistent e) (remote_chunks e g len offset n (i + 1) got'))
          → (c : Option (List ℕ))
          → Keeps e {A = ℤ × List ℕ} Anything (Consistent e) (elim c [
            | none ↦ return (neg 5, [])
            | some buf ↦
                (total (copied len (if length got == 0 then offset % g.chunk_size else 0) buf got)
                  >>= λ got'. remote_chunks e g len offset n (i + 1) got')
          ])
      next rest none = Keeps-return (neg 5, []) tt
      next rest (some buf) =
          Keeps-bind
            (Keeps-total (copied len (if length got == 0 then offset % g.chunk_size else 0) buf got)
              (λ a q. tt))
            (λ got' t. rest got')

  serve-Keeps :
      (len offset : ℕ) (o : Option GridFile)
      → Keeps e Anything (Consistent e) (serve e len offset o)
  unfolding serve
  serve-Keeps len offset none = Keeps-return (neg 9, []) tt
  serve-Keeps len offset (some g) =
      Keeps-if (off_neg offset || off_le g.content_length offset) (λ y. Keeps-return (pos 0, []) tt)
        (λ n. remote_chunks-Keeps g len offset _ _ [])

  remote_read-Keeps :
      {R : World e.server.Db → Type 0} (file : Name) (len offset : ℕ)
      → Keeps e Anything R (remote_read e file len offset)
  unfolding remote_read
  remote_read-Keeps file len offset =
      Keeps-catching
        (Keeps-session (
          (Keeps-bind (Keeps-ask (find_file (named file)) (λ found. tt))
            (λ found u. serve-Keeps len offset found))))
        (Keeps-return (neg 5, []) tt)

  pub mgridfs_read-Keeps :
      {R : World e.server.Db → Type 0} (file : Name) (len offset flags fh : ℕ)
      → Keeps e Anything R (mgridfs_read e file len offset flags fh)
  unfolding mgridfs_read
  mgridfs_read-Keeps {R} file len offset flags fh = record {
    run = λ w c.
        let k = this_handle w file fh in
        Leaves-if (len == 0) (λ y. Leaves-done (pos 0, []) w c tt)
          (λ n.
            Leaves-if (not (is_valid w.handles k) || is_empty k.filename)
              (λ y. Leaves-done (neg 9, []) w c tt)
              (λ n'. held w c (find_by_name k.filename w.files)));
  }
    where
      held :
          (w : World e.server.Db)
          → Consistent e w
          → (o : Option LocalFile)
          → Leaves e Anything R (elim o [
            | some f ↦ total (mgridfs.LocalFile.read len offset f) w
            | none ↦ if is_rdonly flags then remote_read e file len offset w else done (neg 9, []) w
          ])
      held w c none =
          Leaves-if (is_rdonly flags) (λ y. (remote_read-Keeps file len offset).run w c)
            (λ n. Leaves-done (neg 9, []) w c tt)
      held w c (some f) = (Keeps-total (mgridfs.LocalFile.read len offset f) (λ a q. tt)).run w c
