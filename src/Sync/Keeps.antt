-- ===== src/Sync/Keeps.antt =====
-- The loading of a file in memory keeps it a file of its name, and the state consistent, also where it
-- is broken off.
use mgridfs.Base.{
  ℕ, zero, suc, ◌+◌, ◌≡◌, refl, Option, none, some, List, arith, ltb, length, ℤ, neg, add64, Name,
}
use mgridfs.LocalFile.{LocalFile, Alloc, raw_write, set_size}
use mgridfs.LocalFile.RawWrite.{raw_write-IsValid}
use mgridfs.LocalFile.Akin.{raw_write-Akin}
use mgridfs.Server.{Reply, GridFile, ok, thrown, named}
use mgridfs.World.{Env, World, ◌>>=◌, return, total}
use mgridfs.LocalFs.Consistent.{
  Keeps-session, Held, Keeps, Keeps-return, Keeps-bind, Keeps-draw, Keeps-total, Keeps-if,
  Keeps-ask, Keeps-attempt,
}
use mgridfs.LocalFs.Keeps.{Anything, Akin-Held, set_size-Held, clean-Held}
use mgridfs.Sync.{
  Load, full, null_chunk, threw, opened, after_write, load_chunks, init_local_buffers, fill_from,
  open_remote,
}

abbrev HeldLoad : (e : Env) → Name → Load → Type 0
HeldLoad e n (full f) = Held e n f
HeldLoad e n (null_chunk f) = Held e n f
HeldLoad e n (threw f) = Held e n f

opened-Held : (e : Env) (n : Name) (l : Load) → HeldLoad e n l → Held e n (opened l).1
opened-Held e n (full f) h = clean-Held e n f h
opened-Held e n (null_chunk f) h = h
opened-Held e n (threw f) h = h

written-Held :
    (e : Env) (n : Name) (f : LocalFile) (o : Option (ℤ × LocalFile)) {f' : LocalFile}
    → ((code : ℤ) (g : LocalFile) → o ≡ some (code, g) → Held e n g)
    → after_write o ≡ some f'
    → Held e n f'
written-Held e n f none k q = absurd (ground arith)
written-Held e n f (some (code, g)) {f'} k q =
    let same : g ≡ f' = cc q in rw (← same) (k code g refl)

module _ (e : Env) {R : World e.server.Db → Type 0} (name : Name) where
  open e.server use {connect, grid_fs, find_file, num_chunks, get_chunk}

  load_chunks-Keeps :
      (g : GridFile) (n i offset : ℕ) (f : LocalFile)
      → Held e name f
      → Keeps e (HeldLoad e name) R (load_chunks e g n i offset f)
  unfolding load_chunks
  load_chunks-Keeps g zero i offset f h = Keeps-return (full f) h
  load_chunks-Keeps g (suc n) i offset f h =
      Keeps-bind (Keeps-attempt (Keeps-ask {Q = Anything} (get_chunk g i) (λ c. tt)))
        (λ r t. next (λ buf f' k. load_chunks-Keeps g n (i + 1) (add64 offset (length buf)) f' k) r)
    where
      next :
          ((buf : List ℕ) (f' : LocalFile)
            → Held e name f'
            → Keeps e
                (HeldLoad e name)
                R
                (load_chunks e g n (i + 1) (add64 offset (length buf)) f'))
          → (r : Reply (Option (List ℕ)))
          → Keeps e {A = Load} (HeldLoad e name) R (elim r [
            | thrown ↦ return (threw f)
            | ok none ↦ return (null_chunk f)
            | ok (some buf) ↦
                (total (after_write (raw_write buf offset f)) >>= λ f'.
                load_chunks e g n (i + 1) (add64 offset (length buf)) f')
          ])
      next rest thrown = Keeps-return (threw f) h
      next rest (ok none) = Keeps-return (null_chunk f) h
      next rest (ok (some buf)) =
          Keeps-bind
            (Keeps-total {Q = Held e name} (after_write (raw_write buf offset f)) (λ f' q.
              written-Held e name f (raw_write buf offset f)
                (λ code g' q'.
                  Akin-Held e name h (raw_write-IsValid buf offset f h.valid q')
                    (raw_write-Akin buf offset f q'))
                q))
            (λ f' k. rest buf f' k)

  init_local_buffers-Keeps :
      (alloc : Alloc) (g : GridFile) (f : LocalFile)
      → Held e name f
      → Keeps e (HeldLoad e name) R (init_local_buffers e alloc g f)
  unfolding init_local_buffers
  init_local_buffers-Keeps alloc g f h =
      let r = set_size alloc e.options.max_mem_file_size g.content_length f in
      let k = set_size-Held e name alloc g.content_length f h in
      Keeps-if r.0 (λ y. load_chunks-Keeps g (num_chunks g) 0 0 r.1 k)
        (λ n. Keeps-return (null_chunk r.1) k)

  pub open_remote-Keeps :
      (f : LocalFile) → Held e name f → Keeps e (λ r. Held e name r.1) R (open_remote e f)
  unfolding open_remote fill_from
  open_remote-Keeps f h = Keeps-bind Keeps-draw (λ m t.
      Keeps-bind
        (Keeps-attempt
          (Keeps-session ((Keeps-ask {Q = Anything} (find_file (named f.filename)) (λ found. tt)))))
        (λ r u. next m.chunks r))
    where
      next :
          (alloc : Alloc) (r : Reply (Option GridFile))
          → Keeps e {A = ℤ × LocalFile}
              (λ r. Held e name r.1)
              R
              (elim r [
                | thrown ↦ return (neg 5, f)
                | ok none ↦ return (neg 9, f)
                | ok (some g) ↦ fill_from e alloc f g
              ])
      next alloc thrown = Keeps-return (neg 5, f) h
      next alloc (ok none) = Keeps-return (neg 9, f) h
      next alloc (ok (some g)) =
          Keeps-if (ltb e.options.max_mem_file_size g.content_length)
            (λ y. Keeps-return (neg 30, f) h)
            (λ n.
              Keeps-bind (init_local_buffers-Keeps alloc g f h)
                (λ l k. Keeps-return (opened l) (opened-Held e name l k)))
