-- ===== src/DirOps/Root.antt =====
-- `mgridfs_load_or_create_root`, on any server.
use mgridfs.Base.{
  ℕ, ◌≡◌, Bool, true, false, Option, none, some, [], arith, if◌then◌else◌, ℤ, pos, neg, Name, bytes,
}
use mgridfs.Handle.{is_some}
use mgridfs.Server.{GridFile, directory_named, by_id, ok}
use mgridfs.World.{Env, World}
use mgridfs.World.Ends.{Ends, Ends-weaken}
use mgridfs.World.Quiet.{
  Same, Quiet, Always, Never, Quiet-return, Quiet-ask, Quiet-command, Quiet-bind, Quiet-catching,
  Quiet-draw,
}
use mgridfs.Ops.{or_bit, entry_changes}
use mgridfs.FileOps.{is_zero}
use mgridfs.DirOps.{
  complete_directory, mgridfs_create_directory, confirm_root, root_cases,
  mgridfs_load_or_create_root,
}

module _ (e : Env) where
  open e.server use {Db, Oid, connect, grid_fs, find_file, store_file, update}

  complete_directory-Quiet :
      (path : Name) (mode uid gid : ℕ) (oid : Option Oid)
      → Quiet Always (λ code. Always) Always (complete_directory e path mode uid gid oid)
  complete_directory-Quiet path mode uid gid none = Quiet-return (neg 2) (λ db p. tt)
  complete_directory-Quiet path mode uid gid (some id) =
      Quiet-bind {P = λ m. Always} (Quiet-draw e) (λ m.
        Quiet-bind {P = λ n. Always}
          (Quiet-command
            (update (by_id id) (entry_changes (bytes "directory") path m.now uid gid mode none))
            (λ db n p h. tt) (λ db p. tt))
          (λ n. Quiet-return (pos 0) (λ db p. tt)))

  create_directory-Quiet :
      (path : Name) (mode uid gid : ℕ)
      → Quiet Always (λ code. Always) Always (mgridfs_create_directory e path mode uid gid)
  unfolding mgridfs_create_directory
  create_directory-Quiet path mode uid gid =
      Quiet-catching {S = Always}
        (Quiet-bind {P = λ a. Always} (Quiet-command grid_fs (λ db a p h. tt) (λ db p. tt)) (λ a.
          Quiet-bind {P = λ oid. Always}
            (Quiet-command (store_file [] path) (λ db oid p h. tt) (λ db p. tt))
            (λ oid. complete_directory-Quiet path (or_bit 14 mode) uid gid oid)))
        (Quiet-return (neg 5) (λ db p. tt))

  -- With the result 0 the server finds the root directory.
  abbrev pub Rooted : ℤ → Db → Type 0
  Rooted code db =
      code ≡ pos 0 → (g : GridFile) × (find_file (directory_named (bytes "/")) db ≡ ok (some g))

  answer_lem :
      (found : Option GridFile) (db : Db)
      → find_file (directory_named (bytes "/")) db ≡ ok found
      → Rooted (if is_some found then pos 0 else neg 2) db
  answer_lem none db h z = absurd (ground arith)
  answer_lem (some g) db h z = (g, h)

  confirm_root-Quiet : (made : Bool) → Quiet Always Rooted Always (confirm_root e made)
  unfolding confirm_root
  confirm_root-Quiet false = Quiet-return (neg 5) (λ db p z. absurd (ground arith))
  confirm_root-Quiet true =
      Quiet-bind {P = λ found db. find_file (directory_named (bytes "/")) db ≡ ok found}
        (Quiet-ask (find_file (directory_named (bytes "/"))) (λ db found p h. h) (λ db p. tt))
        (λ found.
          Quiet-return (if is_some found then pos 0 else neg 2) (λ db p. answer_lem found db p))

  root_cases-Quiet :
      (uid gid : ℕ) (found : Option GridFile)
      → Quiet
          (λ db. find_file (directory_named (bytes "/")) db ≡ ok found)
          Rooted
          Always
          (root_cases e uid gid found)
  unfolding root_cases
  root_cases-Quiet uid gid (some g) = Quiet-return (pos 0) (λ db p z. (g, p))
  root_cases-Quiet uid gid none =
      Quiet-bind {P = λ code. Always}
        (record { run = λ w p. (create_directory-Quiet (bytes "/") 448 uid gid).run w tt })
        (λ code. confirm_root-Quiet (is_zero code))

  load_root-Quiet :
      (uid gid : ℕ) → Quiet Always Rooted Never (mgridfs_load_or_create_root e uid gid)
  unfolding mgridfs_load_or_create_root
  load_root-Quiet uid gid =
      Quiet-catching {S = Always}
        (Quiet-bind {P = λ a. Always} (Quiet-command connect (λ db a p h. tt) (λ db p. tt)) (λ a.
          Quiet-bind {P = λ b. Always} (Quiet-command grid_fs (λ db b p h. tt) (λ db p. tt)) (λ b.
            Quiet-bind {P = λ found db. find_file (directory_named (bytes "/")) db ≡ ok found}
              (Quiet-ask (find_file (directory_named (bytes "/"))) (λ db found p h. h) (λ db p. tt))
              (λ found. root_cases-Quiet uid gid found))))
        (Quiet-return (neg 5) (λ db p z. absurd (ground arith)))

  -- `mgridfs_load_or_create_root` always returns, and changes neither the handles nor the files in
  -- memory; with the result 0 the server finds the root directory afterwards. It is so on any server.
  pub mgridfs_load_or_create_root-Rooted :
      (uid gid : ℕ) (w : World Db)
      → Ends (λ code v. Same w v × Rooted code v.db) Never (mgridfs_load_or_create_root e uid gid w)
  mgridfs_load_or_create_root-Rooted uid gid w =
      Ends-weaken (mgridfs_load_or_create_root e uid gid w) ((load_root-Quiet uid gid).run w tt)
        (λ code v t. t) (λ v t. t.1)
