-- ===== src/Sync/Lookup.antt =====
-- The look-up at the start of `openRemote`, in its `try` block.
use mgridfs.Base.{ℕ, ◌≡◌, ◌∙◌, Option, some, List, arith, Name}
use mgridfs.Server.{GridFile, Reply, named, ok}
use mgridfs.Server.Laws.{ReadLaws}
use mgridfs.World.{Env, World, Action, ◌>>◌, attempt, ask, command}
use mgridfs.World.Ends.{Ends, Ends-tried}
use mgridfs.World.Quiet.{Same, Always, Never, Quiet, Quiet-bind, Quiet-ask, Quiet-command}

module _ (e : Env) (laws : ReadLaws e.server) (buf : List ℕ) (name : Name) where
  open e.server use {Db, connect, grid_fs, find_file}

  -- What is known of the file that was looked for.
  abbrev pub Sought : Option GridFile → Db → Type 0
  Sought found db = (laws.store.stored db name ≡ some buf) × (find_file (named name) db ≡ ok found)

  abbrev pub look_up : Action (World Db) (Option GridFile)
  look_up = do command connect; command grid_fs; ask (find_file (named name))

  Sought-Quiet : Quiet (λ db. laws.store.stored db name ≡ some buf) Sought Always look_up
  Sought-Quiet =
      Quiet-bind {P = λ a db. laws.store.stored db name ≡ some buf}
        (Quiet-command connect (λ db a p h. laws.store.connect_keeps db name ∙ p) (λ db p. tt))
        (λ a.
          Quiet-bind {P = λ b db. laws.store.stored db name ≡ some buf}
            (Quiet-command grid_fs (λ db b p h. laws.store.grid_fs_keeps db name ∙ p) (λ db p. tt))
            (λ b. Quiet-ask (find_file (named name)) (λ db found p h. (p, h)) (λ db p. tt)))

  -- The reply, if there is one, is what the server has under that name.
  abbrev pub Replied : World Db → Reply (Option GridFile) → World Db → Type 0
  Replied w r u = Same w u × ((found : Option GridFile) → r ≡ ok found → Sought found u.db)

  pub look_up-Replied :
      (w : World Db)
      → laws.store.stored w.db name ≡ some buf
      → Ends (Replied w) Never (attempt look_up w)
  look_up-Replied w stored =
      Ends-tried look_up w (Sought-Quiet.run w stored)
        (λ found u t. (t.0, λ x q. let same : found ≡ x = cc q in rw (← same) t.1))
        (λ u t. (t.0, λ x q. absurd (ground arith)))
