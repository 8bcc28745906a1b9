-- ===== src/FileOps/Writable.antt =====
-- `mgridfs_open` for writing, of a file that the server has and that is not in memory: the file that is
-- in memory then, and the handle, also where the load is broken off.
use mgridfs.Base.{
  ℕ, ◌+◌, ◌*◌, ◌%◌, ◌^◌, ◌<◌, ◌≡◌, refl, ap, ◌∙◌, ◌≢◌, inl, inr, false, Option, none, some, List,
  arith, ◌==◌, length, ℤ, pos, negsuc, Name, is_empty,
}
use mgridfs.LocalFile.Valid.{Limits}
use mgridfs.Server.Laws.{ReadLaws}
use mgridfs.World.Quiet.{Never}
use mgridfs.LocalFs.{find_by_name}
use mgridfs.Ops.{is_rdonly, o_trunc}
use mgridfs.FileOps.{open_local, open_cases, open_found, open_assigned, mgridfs_open}
use mgridfs.FileOps.Open.{taken, table_lem, find_new, unassign_taken, assign_lem}
use mgridfs.Handle.{Handles, left_find, assign_handle, unassign_handle, file_handle}
use mgridfs.Handle.Assign.{IsValid, Assigned, assign_handle-Assigned}
use mgridfs.Server.{GridFile, named, ok}
use mgridfs.World.{Env, World, ask, command}
use mgridfs.World.Ends.{
  Ends, Ends-done, Ends-bind, Ends-weaken, Ends-ask, Ends-command, Ends-catching,
}
use mgridfs.FileOps.LoadLocal.{InMemory, LocalEnd, open_local-Ends}

-- The result of the call. On the way through the load an error leaves the handle assigned.
pub data Writable (m : ℕ) (file : Name) (buf : List ℕ) (st : Handles) {Db : Type 0} (r : ℤ × ℕ)
    (v : World Db) : Type 0 where
  ready :
      r.0 ≡ pos 0
      → left_find r.1 st.table ≡ none
      → left_find r.1 v.handles.table ≡ some file
      → InMemory m file buf v.files
      → Writable m file buf st r v
  leaked :
      (n : ℕ)
      → r.0 ≡ negsuc n
      → left_find r.1 st.table ≡ none
      → left_find r.1 v.handles.table ≡ some file
      → Writable m file buf st r v
  refused :
      (n : ℕ)
      → r.0 ≡ negsuc n
      → ((j : ℕ) → left_find j v.handles.table ≡ left_find j st.table)
      → Writable m file buf st r v

module _ (e : Env) (laws : ReadLaws e.server) (file : Name) (buf : List ℕ)
    (l : Limits e.options.max_mem_file_size e.options.mem_chunk_size)
    (aligned : (g : GridFile) (db : e.server.Db) (i : ℕ)
      → e.server.find_file (named file) db ≡ ok (some g)
      → (i * g.chunk_size + 1) % e.options.mem_chunk_size ≢ 0) where
  open e.server use {Db, connect, grid_fs, find_file}

  module _ (flags : ℕ) (whole : o_trunc flags ≡ false) where
    module _ (writing : is_rdonly flags ≡ false) (st : Handles)
        (a : Assigned
          (record { filename = file; fh = 0 })
          st
          (assign_handle (record { filename = file; fh = 0 }) st)) where
      -- The handle is assigned, the file is not in memory, and the server has it.
      record Before (v : World Db) : Type 0 where
        handles : v.handles ≡ a.after
        absent : find_by_name file v.files ≡ none
        stored : laws.store.stored v.db file ≡ some buf

      has_handle : (v : World Db) → v.handles ≡ a.after → left_find a.fh v.handles.table ≡ some file
      has_handle v h =
          ap (left_find a.fh) (table_lem file st a v.handles h) ∙ find_new a.fh file st.table

      ended :
          (w v : World Db) (code : ℤ)
          → w.handles ≡ a.after
          → LocalEnd e laws file buf l aligned w code v
          → Writable e.options.max_mem_file_size file buf st (code, a.fh) v
      ended w v code h (same, inl (zero_code, held)) =
          ready zero_code a.fresh (has_handle v (same ∙ h)) held
      ended w v code h (same, inr (n, failed)) = leaked n failed a.fresh (has_handle v (same ∙ h))

      open_cases-Writable :
          (found : Option GridFile) (w : World Db)
          → Before w
          → find_file (named file) w.db ≡ ok found
          → Ends
              (Writable e.options.max_mem_file_size file buf st)
              (λ v. v.handles ≡ a.after)
              (open_cases e file flags (taken file st a) found w)
      unfolding open_cases
      open_cases-Writable none w b q = absurd (cc (laws.missing file w.db q, b.stored))
      open_cases-Writable (some g) w b q = rw writing (
          Ends-bind {P = LocalEnd e laws file buf l aligned w} (open_local e file flags) _ w
            (Ends-weaken _
              (open_local-Ends e laws file buf l aligned flags whole w b.absent b.stored)
              (λ c v t. t) (λ v t. absurd t))
            (λ code v t. Ends-done (code, a.fh) v (ended w v code b.handles t)))

      open_found-Writable :
          (w : World Db)
          → Before w
          → Ends
              (Writable e.options.max_mem_file_size file buf st)
              (λ v. v.handles ≡ a.after)
              (open_found e file flags (taken file st a) w)
      unfolding open_found
      open_found-Writable w b =
          Ends-bind {P = λ t v. Before v} (command connect) _ w
            (Ends-command connect w
              (λ t q. record {
                handles = b.handles;
                absent = b.absent;
                stored = laws.store.connect_keeps w.db file ∙ b.stored;
              })
              b.handles)
            (λ t v b1.
              Ends-bind {P = λ t' u. Before u} (command grid_fs) _ v
                (Ends-command grid_fs v
                  (λ t' q. record {
                    handles = b1.handles;
                    absent = b1.absent;
                    stored = laws.store.grid_fs_keeps v.db file ∙ b1.stored;
                  })
                  b1.handles)
                (λ t' u b2.
                  Ends-bind {P = λ found x. Before x × (find_file (named file) x.db ≡ ok found)}
                    (ask (find_file (named file))) _ u
                    (Ends-ask (find_file (named file)) u (λ found q. (b2, q)) b2.handles)
                    (λ found x s. open_cases-Writable found x s.0 s.1)))

    -- `mgridfs_open` for writing and without truncation, of a file that the server has and that is not
    -- in memory, always returns: with 0, a new handle of the file, and the file in memory with the
    -- bytes that the server has; or with an error and all handles as before; or, if the file could not
    -- be made or loaded, with an error and a new handle that stays assigned. The server keeps to its
    -- laws, no chunk of the stored file starts at the last byte of a chunk in memory, the path is not
    -- empty, the options are in range and the counter of the handles is far from its wrap.
    pub mgridfs_open-Writable :
        (w : World Db)
        → IsValid w.handles
        → is_empty file ≡ false
        → w.handles.next + length w.handles.table + 1 < 2 ^ 64
        → is_rdonly flags ≡ false
        → find_by_name file w.files ≡ none
        → laws.store.stored w.db file ≡ some buf
        → Ends
            (Writable e.options.max_mem_file_size file buf w.handles)
            Never
            (mgridfs_open e file flags w)
    unfolding mgridfs_open open_assigned assign_handle file_handle
    mgridfs_open-Writable w valid nonempty no_wrap writing absent stored =
        let a =
          assign_handle-Assigned (record { filename = file; fh = 0 }) w.handles valid nonempty
            no_wrap in
        let v : World Db = record w { handles = a.after } in
        let nonzero : (a.fh == 0) ≡ false = ground (arith, a.nonzero) in
        rw (assign_lem e w file a, nonzero, absent)
          (Ends-catching {S = λ u. u.handles ≡ a.after}
            (open_found e file flags (taken file w.handles a)) _ v
            (open_found-Writable writing w.handles a v
              (record { handles = refl; absent = absent; stored = stored }))
            (λ u h.
              Ends-done (negsuc 4, a.fh)
                (record u { handles = (unassign_handle (taken file w.handles a) u.handles).1 })
                (refused 4 refl (unassign_taken file w.handles a u.handles h))))
