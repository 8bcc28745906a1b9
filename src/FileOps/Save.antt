-- ===== src/FileOps/Save.antt =====
-- `mgridfs_flush` of an open file.
use mgridfs.Base.{ℕ, ◌≡◌, ap, ◌∙◌, true, false, some, pos, Name, name_eq_refl}
use mgridfs.LocalFile.{LocalFile}
use mgridfs.LocalFile.Contents.{contents}
use mgridfs.LocalFile.Valid.{IsValid}
use mgridfs.Server.Laws.{StoreLaws}
use mgridfs.World.{Env, World}
use mgridfs.World.Ends.{Ends, Ends-done, Ends-bind, Ends-both}
use mgridfs.World.Quiet.{Same, Never}
use mgridfs.Sync.{flush}
use mgridfs.Sync.Flush.{Flushed, flush-Flushed, flush_saves}
use mgridfs.LocalFs.{find_by_name, put}
use mgridfs.LocalFs.Map.{find-put}
use mgridfs.Ops.{keep, is_rdonly}
use mgridfs.DataOps.Write.{Open, this_handle-open, is_valid-open}
use mgridfs.FileOps.{flush_held, mgridfs_flush}

module _ (e : Env) (laws : StoreLaws e.server) (w : World e.server.Db) (file name : Name)
    (fh flags : ℕ) (f : LocalFile) (o : Open w fh name) (held : find_by_name name w.files ≡ some f)
    (v : IsValid e.options.max_mem_file_size f) (writing : is_rdonly flags ≡ false)
    (dirty : f.dirty ≡ true) where
  -- The state after a flush with the result 0.
  pub record Saved (u : World e.server.Db) : Type 0 where
    pub stored : laws.stored u.db f.filename ≡ some (contents f)
    pub clean : find_by_name name u.files ≡ some (record f { dirty = false })
    pub handles : u.handles ≡ w.handles

  -- On a server that keeps what it stores, a flush through a handle that is open for writing, of a
  -- file with changes, always returns; with the result 0 the server has the bytes of the file under
  -- its name, the file in memory is clean and otherwise as before, and so are the handles.
  pub mgridfs_flush-Saved :
      Ends (λ code u. code ≡ pos 0 → Saved u) Never (mgridfs_flush e file flags fh w)
  unfolding mgridfs_flush flush_held
  mgridfs_flush-Saved =
      rw (this_handle-open w file name fh o, is_valid-open w name fh o, writing, held)
        (Ends-bind
          {P = λ r u.
            (Same w u × Flushed f r)
            × (r.0 ≡ pos 0 → laws.stored u.db f.filename ≡ some (contents f))}
          (flush e f) (keep name) w
          (Ends-both (flush e f w) (flush-Flushed e f w) (flush_saves e f laws w v dirty))
          (λ r u s.
            Ends-done r.0 (record u { files = put name r.1 u.files })
              (λ z. record {
                stored = s.1 z;
                clean =
                    let there : find_by_name name u.files ≡ some f =
                      ap (find_by_name name) s.0.0.files ∙ held in
                    rw (find-put name r.1 u.files name, name_eq_refl name, there)
                      (ap some (s.0.1.clean z));
                handles = s.0.0.handles;
              })))
