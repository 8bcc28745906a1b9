-- ===== src/AttrOps/Shown.antt =====
-- What `mgridfs_getattr` says of a document that the server has.
use mgridfs.Base.{
  ℕ, ◌/◌, ◌≡◌, refl, ◌∙◌, ◌⊎◌, inl, inr, Option, none, some, Bool-cases, Option-cases, ℤ, pos, neg,
  Name,
}
use mgridfs.LocalFile.{LocalFile}
use mgridfs.Server.{GridFile, Changes, named, by_name, ok}
use mgridfs.Server.Laws.{DocumentLaws}
use mgridfs.World.{Env, World, ◌>>=◌, ◌>>◌, return, ask, command, catching, world}
use mgridfs.World.Ends.{Ends, Ends-done, Ends-bind, Ends-ask, Ends-command, Ends-catching}
use mgridfs.World.Quiet.{Never}
use mgridfs.LocalFs.{find_by_name}
use mgridfs.Ops.{s_isdir, s_isreg, s_islnk}
use mgridfs.AttrOps.{Stat, stat_of, field_or, mgridfs_getattr}

-- The time of the last update in seconds, or else that of the upload.
abbrev pub seconds : ℕ → Option ℕ → ℕ
seconds t none = t
seconds t (some ms) = ms / 1000

-- The fields that `mgridfs_getattr` takes from the document, whatever the kind of the file.
pub record Shows (g : GridFile) (s : Stat) : Type 0 where
  pub mode : s.st_mode ≡ field_or g.metadata.mode 365
  pub uid : s.st_uid ≡ field_or g.metadata.uid 1
  pub gid : s.st_gid ≡ field_or g.metadata.gid 1
  pub ctime : s.st_ctime ≡ g.upload_date / 1000
  pub mtime : s.st_mtime ≡ seconds (g.upload_date / 1000) g.metadata.last_updated

mtime_lem :
    (g : GridFile)
    → elim g.metadata.last_updated as (λ o. ℕ) [ none ↦ g.upload_date / 1000 | some ms ↦ ms / 1000 ]
      ≡ seconds (g.upload_date / 1000) g.metadata.last_updated
mtime_lem g = elim (Option-cases g.metadata.last_updated) [
  | inl e ↦ rw e refl
  | inr (ms, e) ↦ rw e refl
]

stat_of-Shows :
    (obj_size : mgridfs.Server.Meta → ℕ) (local : Option LocalFile) (g : GridFile)
    → Shows g (stat_of obj_size local g)
unfolding stat_of
stat_of-Shows obj_size local g =
    let mode = field_or g.metadata.mode 365 in
    elim (Bool-cases (s_isdir mode)) [
      | inl y ↦
          rw y (record { mode = refl; uid = refl; gid = refl; ctime = refl; mtime = mtime_lem g })
      | inr n ↦ elim (Bool-cases (s_isreg mode)) [
        | inl y ↦
            rw (n, y)
              (record { mode = refl; uid = refl; gid = refl; ctime = refl; mtime = mtime_lem g })
        | inr n' ↦ elim (Bool-cases (s_islnk mode)) [
          | inl y ↦
              rw (n, n', y)
                (record { mode = refl; uid = refl; gid = refl; ctime = refl; mtime = mtime_lem g })
          | inr n'' ↦
              rw (n, n', n'')
                (record { mode = refl; uid = refl; gid = refl; ctime = refl; mtime = mtime_lem g })
        ]
      ]
    ]

-- The answer of `mgridfs_getattr` for a document.
abbrev pub Answered : GridFile → ℤ × Option Stat → Type 0
Answered g r = ((s : Stat) × (r ≡ (pos 0, some s)) × Shows g s) ⊎ (r ≡ (neg 5, none))

module _ (e : Env) (laws : DocumentLaws e.server) where
  open e.server use {Db, connect, grid_fs, find_file, update}

  pub getattr-Answered :
      (file : Name) (g : GridFile) (w : World Db)
      → laws.document w.db file ≡ some g
      → Ends (λ r v. Answered g r) Never (mgridfs_getattr e file w)
  unfolding mgridfs_getattr
  getattr-Answered file g w there =
      Ends-catching {S = λ v. Unit {0}}
        (do
          command connect
          command grid_fs
          found ← ask (find_file (named file))
          w' ← world
          elim found [
            | none ↦ return (neg 2, none)
            | some g' ↦
                return (pos 0, some (stat_of e.server.obj_size (find_by_name file w'.files) g'))
          ])
        (return (neg 5, none)) w
        (Ends-bind {P = λ a v. laws.document v.db file ≡ some g} (command connect) _ w
          (Ends-command connect w (λ a h. laws.connect_keeps w.db file ∙ there) tt)
          (λ a v t.
            Ends-bind {P = λ b u. laws.document u.db file ≡ some g} (command grid_fs) _ v
              (Ends-command grid_fs v (λ b h. laws.grid_fs_keeps v.db file ∙ t) tt)
              (λ b u t'.
                Ends-bind {P = λ found x. found ≡ some g} (ask (find_file (named file))) _ u
                  (Ends-ask (find_file (named file)) u
                    (λ found h. laws.found file u.db found h ∙ t') tt)
                  (λ found x q. answer found x q))))
        (λ v t. Ends-done (neg 5, none) v (inr refl))
    where
      answer :
          (found : Option GridFile) (x : World Db)
          → found ≡ some g
          → Ends {W = World Db} {A = ℤ × Option Stat}
              (λ r v. Answered g r)
              (λ v. Unit {0})
              ((world >>= λ w'.
                  elim found as (λ o. mgridfs.World.Action (World Db) (ℤ × Option Stat)) [
                    | none ↦ return (neg 2, none)
                    | some g' ↦
                        return
                          (pos 0, some (stat_of e.server.obj_size (find_by_name file w'.files) g'))
                  ])
                x)
      answer none x q = absurd (cc q)
      answer (some g') x q =
          let same : g' ≡ g = cc q in
          let s = stat_of e.server.obj_size (find_by_name file x.files) g' in
          Ends-done (pos 0, some s) x
            (inl (
              s,
              refl,
              rw (← same) (stat_of-Shows e.server.obj_size (find_by_name file x.files) g'),
            ))
