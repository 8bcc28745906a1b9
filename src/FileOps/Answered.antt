-- ===== src/FileOps/Answered.antt =====
-- The flush of an open file on a server that answers everything.
use mgridfs.Base.{ℕ, ◌≡◌, ap, ◌≢◌, true, false, none, some, List, pos, Name}
use mgridfs.LocalFile.{LocalFile}
use mgridfs.LocalFile.Valid.{IsValid}
use mgridfs.Server.Laws.{ReadLaws, Calm}
use mgridfs.World.{Env, World}
use mgridfs.World.Ends.{Ends, Ends-done, Ends-bind, Ends-both, Ends-weaken}
use mgridfs.World.Quiet.{Never}
use mgridfs.Sync.{flush}
use mgridfs.Sync.Answered.{flush_succeeds}
use mgridfs.LocalFs.{find_by_name, put}
use mgridfs.Ops.{keep, is_rdonly}
use mgridfs.DataOps.Write.{Open, this_handle-open, is_valid-open}
use mgridfs.FileOps.{flush_held, mgridfs_flush}
use mgridfs.FileOps.Save.{Saved, mgridfs_flush-Saved}

module _ (e : Env) (calm : Calm e.server) (laws : ReadLaws e.server)
    (room : (t : ℕ) → (e.moment t).buffer ≢ none) (w : World e.server.Db) (file name : Name)
    (fh flags : ℕ) (f : LocalFile) (o : Open w fh name) (held : find_by_name name w.files ≡ some f)
    (v : IsValid e.options.max_mem_file_size f) (writing : is_rdonly flags ≡ false)
    (dirty : f.dirty ≡ true) where
  flush_code :
      (old : List ℕ)
      → laws.store.stored w.db f.filename ≡ some old
      → Ends (λ code u. code ≡ pos 0) Never (mgridfs_flush e file flags fh w)
  unfolding mgridfs_flush flush_held
  flush_code old there =
      rw (this_handle-open w file name fh o, is_valid-open w name fh o, writing, held)
        (Ends-bind (flush e f) (keep name) w (flush_succeeds e calm laws room f old w v dirty there)
          (λ r u t. Ends-done r.0 (record u { files = put name r.1 u.files }) (ap (λ p. p.0) t.0)))

  -- On a server that answers everything and keeps to its laws, and with memory at hand, a flush through
  -- a handle that is open for writing, of a changed file that the server has, returns 0; the server has
  -- the bytes of the file then, the file in memory is clean and otherwise as before, and so are the
  -- handles.
  pub mgridfs_flush_succeeds :
      (old : List ℕ)
      → laws.store.stored w.db f.filename ≡ some old
      → Ends
          (λ code u.
            (code ≡ pos 0) × Saved e laws.store w file name fh flags f o held v writing dirty u)
          Never
          (mgridfs_flush e file flags fh w)
  mgridfs_flush_succeeds old there =
      Ends-weaken (mgridfs_flush e file flags fh w)
        (Ends-both (mgridfs_flush e file flags fh w) (flush_code old there)
          (mgridfs_flush-Saved e laws.store w file name fh flags f o held v writing dirty))
        (λ code u t. (t.0, t.1 t.0)) (λ u t. t)
