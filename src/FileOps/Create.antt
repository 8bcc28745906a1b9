-- ===== src/FileOps/Create.antt =====
-- `mgridfs_create`: the handle and the file in memory that it leaves.
use mgridfs.Base.{
  ℕ, ◌+◌, ◌^◌, ◌<◌, ◌≡◌, refl, Bool, true, false, Option, none, some, [], arith, ◌==◌, length, ℤ,
  pos, negsuc, neg, Name, bytes, is_empty,
}
use mgridfs.LocalFile.{LocalFile, new_file}
use mgridfs.Handle.{Handles, assign_handle, file_handle, unassign_handle}
use mgridfs.Handle.Assign.{IsValid, Assigned, assign_handle-Assigned}
use mgridfs.Server.{Reply, ok, thrown, by_id}
use mgridfs.World.{Env, World, ◌>>=◌, return, command, draw, attempt}
use mgridfs.World.Ends.{Ends, Ends-done, Ends-if, Ends-bind, Ends-attempt, Ends-weaken}
use mgridfs.World.Quiet.{
  Same, Quiet, Always, Never, Quiet-return, Quiet-command, Quiet-bind, Quiet-draw,
}
use mgridfs.LocalFs.{Files, find_by_name, insert_file, create_file}
use mgridfs.LocalFs.Map.{or_new, find-insert_file_same}
use mgridfs.Ops.{or_bit, entry_changes}
use mgridfs.FileOps.{create_remote, create_local, created, made_local, mgridfs_create}
use mgridfs.FileOps.Open.{Opened, refused, taken, taken-Opened, unassign_taken, assign_lem}

module _ (e : Env) (file : Name) where
  open e.server use {Db, Oid, connect, grid_fs, store_file, update}

  create_remote-Quiet : (mode : ℕ) → Quiet Always (λ a. Always) Always (create_remote e file mode)
  unfolding create_remote
  create_remote-Quiet mode =
      Quiet-bind {P = λ a. Always} (Quiet-command connect (λ db a p h. tt) (λ db p. tt)) (λ a.
        Quiet-bind {P = λ b. Always} (Quiet-command grid_fs (λ db b p h. tt) (λ db p. tt)) (λ b.
          Quiet-bind {P = λ oid. Always}
            (Quiet-command (store_file [] file) (λ db oid p h. tt) (λ db p. tt))
            (λ oid. stored oid)))
    where
      stored :
          (oid : Option Oid)
          → Quiet {Db = Db} Always
              (λ a. Always)
              Always
              (elim oid [
                | none ↦ return false
                | some id ↦ draw e >>= λ m.
                    command (
                      update (by_id id) (
                        entry_changes
                          (bytes "file")
                          file
                          m.now
                          e.context.uid
                          e.context.gid
                          mode
                          none))
                    >>= λ n. return true
              ])
      stored none = Quiet-return false (λ db p. tt)
      stored (some id) = Quiet-bind {P = λ m. Always} (Quiet-draw e) (λ m.
          Quiet-bind {P = λ n. Always}
            (Quiet-command
              (update (by_id id)
                (entry_changes (bytes "file") file m.now e.context.uid e.context.gid mode none))
              (λ db n p h. tt) (λ db p. tt))
            (λ n. Quiet-return true (λ db p. tt)))

  -- The file that is in memory if the call succeeds.
  abbrev kept : Files → LocalFile
  kept fs = or_new (new_file e.options.mem_chunk_size file) (find_by_name file fs)

  -- The result of a creation: that of an open, and with the result 0 a file in memory, which is a new
  -- one unless there was one before.
  pub record Created (st : Handles) (fs : Files) (r : ℤ × ℕ) (v : World Db) : Type 0 where
    pub handle : Opened file st r.0 r.1 v.handles
    pub held : r.0 ≡ pos 0 → find_by_name file v.files ≡ some (kept fs)

  create_file-Ends :
      (w : World Db)
      → Ends
          (λ f v.
            (v.handles ≡ w.handles)
            × ((g : LocalFile) → f ≡ some g → find_by_name file v.files ≡ some (kept w.files)))
          Never
          (create_file e file w)
  unfolding create_file
  create_file-Ends w =
      let f = new_file e.options.mem_chunk_size file in
      let w1 : World Db = record w { time = w.time + 1 } in
      Ends-if (e.moment w.time).object _ _ w1
        (λ y.
          Ends-done (some f) (record w1 { files = insert_file file f w.files })
            (refl, λ g h. find-insert_file_same file f w.files))
        (λ n. Ends-done none w1 (refl, λ g h. absurd (cc h)))

  made_local-Created :
      (w v : World Db)
      (a : Assigned
        (record { filename = file; fh = 0 })
        w.handles
        (assign_handle (record { filename = file; fh = 0 }) w.handles))
      (f : Option LocalFile)
      → v.handles ≡ a.after
      → ((g : LocalFile) → f ≡ some g → find_by_name file v.files ≡ some (kept w.files))
      → Ends (Created w.handles w.files) Never (made_local e (taken file w.handles a) f v)
  made_local-Created w v a none h k =
      Ends-done (negsuc 11, a.fh)
        (record v { handles = (unassign_handle (taken file w.handles a) v.handles).1 })
        (record {
          handle = refused 11 refl (unassign_taken file w.handles a v.handles h);
          held = λ z. absurd (ground arith);
        })
  made_local-Created w v a (some g) h k =
      Ends-done (pos 0, a.fh) v
        (record { handle = taken-Opened file w.handles a v.handles h; held = λ z. k g refl })

  moved :
      (st st' : Handles) (fs fs' : Files) (r : ℤ × ℕ) (u : World Db)
      → st ≡ st'
      → fs ≡ fs'
      → Created st fs r u
      → Created st' fs' r u
  moved st st' fs fs' r u h k c = rw (h, k) at c

  module _ (nonempty : is_empty file ≡ false) where
    create_local-Created :
        (w : World Db)
        → IsValid w.handles
        → w.handles.next + length w.handles.table + 1 < 2 ^ 64
        → Ends (Created w.handles w.files) Never (create_local e file w)
    unfolding create_local assign_handle file_handle
    create_local-Created w valid no_wrap =
        let a =
          assign_handle-Assigned (record { filename = file; fh = 0 }) w.handles valid nonempty
            no_wrap in
        let v : World Db = record w { handles = a.after } in
        let nonzero : (a.fh == 0) ≡ false = ground (arith, a.nonzero) in
        rw (assign_lem e w file a, nonzero)
          (Ends-bind
            {P = λ f u.
              (u.handles ≡ v.handles)
              × ((g : LocalFile) → f ≡ some g → find_by_name file u.files ≡ some (kept v.files))}
            (create_file e file) (made_local e (taken file w.handles a)) v (create_file-Ends v)
            (λ f u s. made_local-Created w u a f s.0 s.1))

    created-Created :
        (fh : ℕ) (r : Reply Bool) (w : World Db)
        → IsValid w.handles
        → w.handles.next + length w.handles.table + 1 < 2 ^ 64
        → Ends (Created w.handles w.files) Never (created e file fh r w)
    unfolding created
    created-Created fh thrown w valid no_wrap =
        Ends-done (neg 5, fh) w
          (record { handle = refused 4 refl (λ j. refl); held = λ z. absurd (ground arith) })
    created-Created fh (ok true) w valid no_wrap = create_local-Created w valid no_wrap
    created-Created fh (ok false) w valid no_wrap =
        Ends-done (neg 9, fh) w
          (record { handle = refused 8 refl (λ j. refl); held = λ z. absurd (ground arith) })

    -- `mgridfs_create` always returns: with 0, a new handle that stands for the file and a file in
    -- memory, or with an error and all handles as before. The path is not empty, and the counter of
    -- the handles is far from its wrap.
    pub mgridfs_create-Created :
        (w : World Db) (mode fh : ℕ)
        → IsValid w.handles
        → w.handles.next + length w.handles.table + 1 < 2 ^ 64
        → Ends (Created w.handles w.files) Never (mgridfs_create e file mode fh w)
    unfolding mgridfs_create
    mgridfs_create-Created w mode fh valid no_wrap =
        Ends-bind {P = λ r v. Same w v} (attempt (create_remote e file (or_bit 15 mode)))
          (created e file fh) w
          (Ends-attempt (create_remote e file (or_bit 15 mode)) w (
            Ends-weaken _ ((create_remote-Quiet (or_bit 15 mode)).run w tt) (λ a v t. t.0)
              (λ v t. t.0)))
          (λ r v s.
            let next : v.handles.next + length v.handles.table + 1 < 2 ^ 64 =
              counted v.handles w.handles s.handles no_wrap in
            Ends-weaken (created e file fh r v)
              (created-Created fh r v (known v.handles w.handles s.handles valid) next)
              (λ x u t. moved v.handles w.handles v.files w.files x u s.handles s.files t)
              (λ u t. t))
      where
        counted :
            (h k : Handles)
            → h ≡ k
            → k.next + length k.table + 1 < 2 ^ 64
            → h.next + length h.table + 1 < 2 ^ 64
        counted h k q lt = rw q lt

        known : (h k : Handles) → h ≡ k → IsValid k → IsValid h
        known h k q v = rw q v
