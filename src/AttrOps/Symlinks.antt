-- ===== src/AttrOps/Symlinks.antt =====
-- `mgridfs_readlink` of a symbolic link that `mgridfs_symlink` has made.
use mgridfs.Base.{
  ℕ, ◌-◌, ◌<◌, min, ◌≡◌, refl, ap, ◌∙◌, ◌⊎◌, inl, inr, false, Option, none, some, List, [], ◌∷◌,
  arith, ◌==◌, length, take, drop, ℤ, pos, neg, Name, bytes,
}
use mgridfs.LocalFile.{eio}
use mgridfs.Server.{GridFile, Meta, by_id, named, ok}
use mgridfs.Server.Laws.{NameLaws, merge}
use mgridfs.World.{Env, World, Action, ask, command, return, ◌>>=◌, ◌>>◌, catching}
use mgridfs.World.Ends.{Ends, Ends-weaken}
use mgridfs.World.Quiet.{
  Same, Quiet, Always, Never, Quiet-return, Quiet-ask, Quiet-command, Quiet-bind, Quiet-catching,
  Quiet-draw,
}
use mgridfs.Ops.{entry_changes}
use mgridfs.AttrOps.{link_buffer, link_mode, name_or_empty, mgridfs_symlink, mgridfs_readlink}
use mgridfs.AttrOps.Links.{link_buffer_lem}

-- A buffer of `len` bytes with the target as far as it fits before the null at the end.
pub record Target (len : ℕ) (target : Name) (buf : List ℕ) : Type 0 where
  pub size : length buf ≡ len
  pub shown : take (min (len - 1) (length target)) buf ≡ take (len - 1) target
  pub null : drop (len - 1) buf ≡ 0 ∷ []

link_buffer-Target :
    (len : ℕ) (target : Name) → 0 < len → Target len target (link_buffer len target)
link_buffer-Target len target h =
    let (size, shown, null) = link_buffer_lem len target h in
    record { size = size; shown = shown; null = null }

module _ (e : Env) (laws : NameLaws e.server) where
  open e.server use {Db, Oid, connect, grid_fs, find_file, store_file, update}

  -- The document of that name is a link to the target.
  abbrev Points : Name → Name → Db → Type 0
  Points file target db = (m : Meta) × (laws.metadata db file ≡ some m) × (m.target ≡ some target)

  symlink-Points :
      (srcfile destfile : Name)
      → Quiet Always
          (λ code db. ((code ≡ pos 0) × Points destfile srcfile db) ⊎ (code ≡ neg eio))
          Never
          (mgridfs_symlink e srcfile destfile)
  unfolding mgridfs_symlink
  symlink-Points srcfile destfile =
      Quiet-catching {S = Always}
        (Quiet-bind {P = λ a. Always} (Quiet-command connect (λ db a p h. tt) (λ db p. tt)) (λ a.
          Quiet-bind {P = λ b. Always} (Quiet-command grid_fs (λ db b p h. tt) (λ db p. tt)) (λ b.
            Quiet-bind {P = λ oid db. (id : Oid) → oid ≡ some id → Stored db id}
              (Quiet-command (store_file [] destfile)
                (λ db oid p h id q. laws.stored [] destfile db id (h ∙ ap ok q)) (λ db p. tt))
              (λ oid. completed oid))))
        (Quiet-return (neg eio) (λ db p. inr refl))
    where
      Stored : Db → Oid → Type 0
      Stored db id = laws.Owns db destfile id × ((m : Meta) × (laws.metadata db destfile ≡ some m))

      completed :
          (oid : Option Oid)
          → Quiet {Db = Db} {A = ℤ}
              (λ db. (id : Oid) → oid ≡ some id → Stored db id)
              (λ code db. ((code ≡ pos 0) × Points destfile srcfile db) ⊎ (code ≡ neg eio))
              Always
              (elim oid [
                | none ↦ return (neg eio)
                | some id ↦ do
                  m ← mgridfs.World.draw e
                  command (
                      update (by_id id) (
                        entry_changes
                          (bytes "slink")
                          destfile
                          m.now
                          e.context.uid
                          e.context.gid
                          link_mode
                          (some srcfile)))
                  return (pos 0)
              ])
      completed none = Quiet-return (neg eio) (λ db p. inr refl)
      completed (some id) =
          Quiet-bind {P = λ m db. (i : Oid) → ◌≡◌ {A = Option Oid} (some id) (some i) → Stored db i}
            (Quiet-draw e)
            (λ m.
              let ch =
                entry_changes (bytes "slink") destfile m.now e.context.uid e.context.gid link_mode
                  (some srcfile) in
              Quiet-bind {P = λ n. Points destfile srcfile}
                (Quiet-command (update (by_id id) ch)
                  (λ db n p h.
                    let (owns, old) = p id refl in
                    (
                      merge ch.metadata old.0,
                      laws.updated id ch db destfile old.0 n owns old.1 refl h,
                      refl,
                    ))
                  (λ db p. tt))
                (λ n. Quiet-return (pos 0) (λ db p. inl (refl, p))))

  readlink-Points :
      (file target : Name) (len : ℕ)
      → 0 < len
      → Quiet
          (Points file target)
          (λ r db.
            ((buf : List ℕ) × (r ≡ (pos 0, some buf)) × Target len target buf)
            ⊎ (r ≡ (neg eio, none)))
          Never
          (mgridfs_readlink e file len)
  unfolding mgridfs_readlink
  readlink-Points file target len some_room =
      let z : (len == 0) ≡ false = ground arith in
      rw z (
        Quiet-catching {S = Always}
          (Quiet-bind {P = λ a. Points file target}
            (Quiet-command connect (λ db a p h. (p.0, laws.connect_keeps db file ∙ p.1, p.2))
              (λ db p. tt))
            (λ a.
              Quiet-bind {P = λ b. Points file target}
                (Quiet-command grid_fs (λ db b p h. (p.0, laws.grid_fs_keeps db file ∙ p.1, p.2))
                  (λ db p. tt))
                (λ b.
                  Quiet-bind
                    {P = λ found db.
                      (g : GridFile) × (found ≡ some g) × (g.metadata.target ≡ some target)}
                    (Quiet-ask (find_file (named file)) (λ db found p h. there db found p h)
                      (λ db p. tt))
                    (λ found. shown found))))
          (Quiet-return (neg eio, none) (λ db p. inr refl)))
    where
      there :
          (db : Db) (found : Option GridFile)
          → Points file target db
          → find_file (named file) db ≡ ok found
          → (g : GridFile) × (found ≡ some g) × (g.metadata.target ≡ some target)
      there db none p h = absurd (cc (laws.missing file db h, p.1))
      there db (some g) p h =
          let same : g.metadata ≡ p.0 = cc (laws.found file db g h, p.1) in
          (g, refl, ap (λ m. m.target) same ∙ p.2)

      shown :
          (found : Option GridFile)
          → Quiet {Db = Db} {A = ℤ × Option (List ℕ)}
              (λ db. (g : GridFile) × (found ≡ some g) × (g.metadata.target ≡ some target))
              (λ r db.
                ((buf : List ℕ) × (r ≡ (pos 0, some buf)) × Target len target buf)
                ⊎ (r ≡ (neg eio, none)))
              Always
              (elim found [
                | none ↦ return (neg 2, none)
                | some g ↦ return (pos 0, some (link_buffer len (name_or_empty g.metadata.target)))
              ])
      shown none = record { run = λ w p. absurd (cc p.1) }
      shown (some g) = Quiet-return _ (λ db p.
          let same : g ≡ p.0 = cc p.1 in
          let to : g.metadata.target ≡ some target = ap (λ k. k.metadata.target) same ∙ p.2 in
          inl (
            link_buffer len target,
            ap (λ t. (pos 0, some (link_buffer len (name_or_empty t)))) to,
            link_buffer-Target len target some_room,
          ))

  -- `mgridfs_symlink` always returns 0 or `-EIO`, and leaves the handles and the files in memory as
  -- they are; after a 0 `mgridfs_readlink` with a buffer that is not empty gives the target of the
  -- link, as far as it fits before the null at the end of the buffer, or fails with `-EIO`. The server
  -- keeps to its laws.
  pub mgridfs_readlink-mgridfs_symlink :
      (srcfile destfile : Name) (len : ℕ) (w : World Db)
      → 0 < len
      → Ends
          (λ code v.
            Same w v
            × (((code ≡ pos 0)
                  × Ends
                      (λ r u.
                        ((buf : List ℕ) × (r ≡ (pos 0, some buf)) × Target len srcfile buf)
                        ⊎ (r ≡ (neg eio, none)))
                      Never
                      (mgridfs_readlink e destfile len v))
                ⊎ (code ≡ neg eio)))
          Never
          (mgridfs_symlink e srcfile destfile w)
  mgridfs_readlink-mgridfs_symlink srcfile destfile len w some_room =
      Ends-weaken _ ((symlink-Points srcfile destfile).run w tt) (λ code v t. (t.0, read v t.1))
        (λ v t. absurd t.1)
    where
      read :
          {code : ℤ} (v : World Db)
          → ((code ≡ pos 0) × Points destfile srcfile v.db) ⊎ (code ≡ neg eio)
          → ((code ≡ pos 0)
              × Ends
                  (λ r u.
                    ((buf : List ℕ) × (r ≡ (pos 0, some buf)) × Target len srcfile buf)
                    ⊎ (r ≡ (neg eio, none)))
                  Never
                  (mgridfs_readlink e destfile len v))
            ⊎ (code ≡ neg eio)
      read v (inl (z, p)) = inl (
        z,
        Ends-weaken _ ((readlink-Points destfile srcfile len some_room).run v p) (λ r u s. s.1)
            (λ u s. absurd s.1),
      )
      read v (inr q) = inr q
