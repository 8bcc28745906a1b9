-- ===== src/AttrOps/Documents.antt =====
-- The updates of a document by name, and what `mgridfs_getattr` says of it afterwards.
use mgridfs.Base.{
  ℕ, ◌<◌, ◌≡◌, refl, ◌∙◌, ◌⊎◌, inl, inr, none, some, arith, ◌==◌, if◌then◌else◌, ℤ, pos, neg, Name,
}
use mgridfs.Server.{GridFile, Changes, by_name, ok}
use mgridfs.Server.Laws.{DocumentLaws, changed}
use mgridfs.World.{Env, World}
use mgridfs.World.Ends.{Ends, Ends-weaken}
use mgridfs.World.Quiet.{
  Same, Never, Always, Quiet, Quiet-return, Quiet-bind, Quiet-command, Quiet-catching,
}
use mgridfs.Utils.{get_path_basename}
use mgridfs.AttrOps.{
  mgridfs_getattr, update_named, mgridfs_chmod, mgridfs_chown, mgridfs_rename, chmod_changes,
  chown_changes, rename_changes,
}
use mgridfs.AttrOps.Shown.{Answered, getattr-Answered}

module _ (e : Env) (laws : DocumentLaws e.server) where
  open e.server use {Db, connect, find_file, update, grid_fs}

  -- The end of an update by name: it is done, or the server has thrown.
  abbrev Done : (Db → Type 0) → ℤ → Db → Type 0
  Done After code db = ((code ≡ pos 0) × After db) ⊎ (code ≡ neg 5)

  update_named-Done :
      {R : Db → Type 0} (file : Name) (ch : Changes) (Before After : Db → Type 0)
      → ((db : Db) → Before db → Before (connect db).1)
      → ((db : Db) (n : ℕ)
          → Before db
          → (update (by_name file) ch db).0 ≡ ok n
          → (0 < n) × After (update (by_name file) ch db).1)
      → Quiet Before (Done After) R (update_named e file ch)
  unfolding update_named
  update_named-Done file ch Before After keep step =
      Quiet-catching {S = Always}
        (Quiet-bind {P = λ a. Before} (Quiet-command connect (λ db a p h. keep db p) (λ db p. tt))
          (λ a.
            Quiet-bind {P = λ n db. (0 < n) × After db}
              (Quiet-command (update (by_name file) ch) (λ db n p h. step db n p h) (λ db p. tt))
              (λ n. Quiet-return _ (λ db p. inl (met n p.0, p.1)))))
        (Quiet-return (neg 5) (λ db p. inr refl))
    where
      met : (n : ℕ) → 0 < n → ◌≡◌ {A = ℤ} (if n == 0 then neg 2 else pos 0) (pos 0)
      met n h = ground arith

  -- An update of the fields of a document that is there, and what is said of the file afterwards.
  updated_lem :
      (file : Name) (ch : Changes) (g : GridFile) (w : World Db)
      → ch.filename ≡ none
      → laws.document w.db file ≡ some g
      → Ends
          (λ code v.
            Same w v
            × (((code ≡ pos 0)
                  × (laws.document v.db file ≡ some (changed ch g))
                  × Ends (λ r u. Answered (changed ch g) r) Never (mgridfs_getattr e file v))
                ⊎ (code ≡ neg 5)))
          Never
          (update_named e file ch w)
  updated_lem file ch g w fields there =
      Ends-weaken _
        ((update_named-Done file ch (λ db. laws.document db file ≡ some g)
            (λ db. laws.document db file ≡ some (changed ch g))
            (λ db p. laws.connect_keeps db file ∙ p)
            (λ db n p h.
              (laws.meets file ch db g n p h, laws.updates file ch db g n p h fields))).run
          w there)
        (λ code v t. (t.0, answered v t.1)) (λ v t. absurd t.1)
    where
      answered :
          {code : ℤ} (v : World Db)
          → Done (λ db. laws.document db file ≡ some (changed ch g)) code v.db
          → ((code ≡ pos 0)
              × (laws.document v.db file ≡ some (changed ch g))
              × Ends (λ r u. Answered (changed ch g) r) Never (mgridfs_getattr e file v))
            ⊎ (code ≡ neg 5)
      answered v (inl (z, d)) = inl (z, d, getattr-Answered e laws file (changed ch g) v d)
      answered v (inr q) = inr q

  -- A change of the mode of a file that the server has always returns 0 or `-EIO`, and changes neither
  -- the handles nor the files in memory. After a 0 the document has the new mode, and everything else
  -- in it is as before; and `mgridfs_getattr` shows the mode, owner, group and times of that document,
  -- or returns `-EIO`. The server keeps to its laws.
  pub mgridfs_getattr-mgridfs_chmod :
      (file : Name) (mode : ℕ) (g : GridFile) (w : World Db)
      → laws.document w.db file ≡ some g
      → Ends
          (λ code v.
            Same w v
            × (((code ≡ pos 0)
                  × (laws.document v.db file
                      ≡ some (record g { metadata = record g.metadata { mode = some mode } }))
                  × Ends
                      (λ r u.
                        Answered (record g { metadata = record g.metadata { mode = some mode } }) r)
                      Never
                      (mgridfs_getattr e file v))
                ⊎ (code ≡ neg 5)))
          Never
          (mgridfs_chmod e file mode w)
  unfolding mgridfs_chmod
  mgridfs_getattr-mgridfs_chmod file mode g w there =
      updated_lem file (chmod_changes mode) g w refl there

  -- The same for a change of the owner and group: these are the new ones, and everything
  -- else in the document is as before.
  pub mgridfs_getattr-mgridfs_chown :
      (file : Name) (uid gid : ℕ) (g : GridFile) (w : World Db)
      → laws.document w.db file ≡ some g
      → Ends
          (λ code v.
            Same w v
            × (((code ≡ pos 0)
                  × (laws.document v.db file
                      ≡ some (record g {
                        metadata = record g.metadata { uid = some uid; gid = some gid };
                      }))
                  × Ends
                      (λ r u.
                        Answered
                          (record g {
                            metadata = record g.metadata { uid = some uid; gid = some gid };
                          })
                          r)
                      Never
                      (mgridfs_getattr e file v))
                ⊎ (code ≡ neg 5)))
          Never
          (mgridfs_chown e file uid gid w)
  unfolding mgridfs_chown
  mgridfs_getattr-mgridfs_chown file uid gid g w there =
      updated_lem file (chown_changes uid gid) g w refl there

  -- A rename of a file that the server has, to a name that it does not have, always returns 0 or
  -- `-EIO`; after a 0 the new name has the document, whose `metadata.filename` is the last part of the
  -- new name, but whose `metadata.directory`, by which directories are listed, is the old one.
  pub mgridfs_rename_directory :
      (srcfile destfile : Name) (g : GridFile) (w : World Db)
      → laws.document w.db srcfile ≡ some g
      → laws.document w.db destfile ≡ none
      → Ends
          (λ code v.
            ((code ≡ pos 0)
              × ((g' : GridFile) × (laws.document v.db destfile ≡ some g')
                  × (g'.metadata.base ≡ some (get_path_basename destfile))
                  × (g'.metadata.directory ≡ g.metadata.directory)))
            ⊎ (code ≡ neg 5))
          Never
          (mgridfs_rename e srcfile destfile w)
  unfolding mgridfs_rename
  mgridfs_rename_directory srcfile destfile g w there absent =
      let ch = rename_changes destfile in
      Ends-weaken _
        ((update_named-Done srcfile ch
            (λ db. (laws.document db srcfile ≡ some g) × (laws.document db destfile ≡ none))
            (λ db.
              (g' : GridFile) × (laws.document db destfile ≡ some g')
              × (g'.metadata.base ≡ some (get_path_basename destfile))
              × (g'.metadata.directory ≡ g.metadata.directory))
            (λ db p. (laws.connect_keeps db srcfile ∙ p.0, laws.connect_keeps db destfile ∙ p.1))
            (λ db n p h. (
              laws.meets srcfile ch db g n p.0 h,
              (changed ch g, laws.renames srcfile destfile ch db g n p.0 p.1 h refl, refl, refl),
            ))).run
          w (there, absent))
        (λ code v t. t.1) (λ v t. absurd t.1)
