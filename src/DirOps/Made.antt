-- ===== src/DirOps/Made.antt =====
-- The document that `mgridfs_mkdir` makes.
use mgridfs.Base.{ℕ, ◌≡◌, refl, ap, ◌∙◌, Option, none, some, [], arith, ℤ, pos, neg, Name, bytes}
use mgridfs.LocalFile.{eio}
use mgridfs.Utils.{get_path_basename, get_path_dirname}
use mgridfs.Server.{Meta, by_id, ok}
use mgridfs.Server.Laws.{ListingLaws, merge}
use mgridfs.World.{Env}
use mgridfs.World.Quiet.{
  Quiet, Always, Never, Quiet-return, Quiet-command, Quiet-bind, Quiet-catching, Quiet-draw,
}
use mgridfs.Ops.{or_bit, entry_changes}
use mgridfs.DirOps.{complete_directory, mgridfs_create_directory, mgridfs_mkdir}

module _ (e : Env) (laws : ListingLaws e.server) where
  open e.server use {Db, Oid, connect, grid_fs, store_file, update, list_directory}

  -- The document of an entry with that path.
  pub record Entry (path : Name) (db : Db) : Type 0 where
    pub id : Oid
    pub meta : Meta
    pub there : laws.entry db id ≡ some meta
    pub base : meta.base ≡ some (get_path_basename path)
    pub directory : meta.directory ≡ some (get_path_dirname path)

  -- With the result 0 the entry is there.
  abbrev pub Made : Name → ℤ → Db → Type 0
  Made path code db = code ≡ pos 0 → Entry path db

  complete_directory-Made :
      (path : Name) (mode uid gid : ℕ) (oid : Option Oid)
      → Quiet
          (λ db. (id : Oid) → oid ≡ some id → (m : Meta) × (laws.entry db id ≡ some m))
          (Made path)
          Always
          (complete_directory e path mode uid gid oid)
  complete_directory-Made path mode uid gid none =
      Quiet-return (neg 2) (λ db p z. absurd (ground arith))
  complete_directory-Made path mode uid gid (some id) =
      Quiet-bind
        {P = λ m db.
          (i : Oid)
          → ◌≡◌ {A = Option Oid} (some id) (some i)
          → (k : Meta) × (laws.entry db i ≡ some k)}
        (Quiet-draw e)
        (λ m.
          let ch = entry_changes (bytes "directory") path m.now uid gid mode none in
          Quiet-bind {P = λ n. Entry path}
            (Quiet-command (update (by_id id) ch)
              (λ db n p h. record {
                id = id;
                meta = merge ch.metadata (p id refl).0;
                there = laws.updated id ch db (p id refl).0 n (p id refl).1 h;
                base = refl;
                directory = refl;
              })
              (λ db p. tt))
            (λ n. Quiet-return (pos 0) (λ db p z. p)))

  create_directory-Made :
      (path : Name) (mode uid gid : ℕ)
      → Quiet Always (Made path) Always (mgridfs_create_directory e path mode uid gid)
  unfolding mgridfs_create_directory
  create_directory-Made path mode uid gid =
      Quiet-catching {S = Always}
        (Quiet-bind {P = λ a. Always} (Quiet-command grid_fs (λ db a p h. tt) (λ db p. tt)) (λ a.
          Quiet-bind
            {P = λ oid db. (id : Oid) → oid ≡ some id → (m : Meta) × (laws.entry db id ≡ some m)}
            (Quiet-command (store_file [] path)
              (λ db oid p h id q. laws.stored [] path db id (h ∙ ap ok q)) (λ db p. tt))
            (λ oid. complete_directory-Made path (or_bit 14 mode) uid gid oid)))
        (Quiet-return (neg eio) (λ db p z. absurd (ground arith)))

  -- `mgridfs_mkdir` that returns 0 has made the entry.
  pub mkdir-Made :
      (path : Name) (mode : ℕ) → Quiet Always (Made path) Never (mgridfs_mkdir e path mode)
  unfolding mgridfs_mkdir
  mkdir-Made path mode =
      Quiet-catching {S = Always}
        (Quiet-bind {P = λ a. Always} (Quiet-command connect (λ db a p h. tt) (λ db p. tt))
          (λ a. create_directory-Made path mode e.context.uid e.context.gid))
        (Quiet-return (neg eio) (λ db p z. absurd (ground arith)))
