-- ===== src/FileOps/Fresh.antt =====
-- `mgridfs_create` on a server that answers everything, and the first session of the new file.
use mgridfs.Base.{
  ℕ, ◌+◌, ◌*◌, ◌^◌, ◌≤◌, ◌<◌, ◌≡◌, refl, ap, ◌∙◌, true, false, Option, none, some, [], arith, ◌==◌,
  length, ℤ, pos, Name, bytes, is_empty,
}
use mgridfs.LocalFile.{new_file}
use mgridfs.Handle.{Handles, left_find, assign_handle, file_handle}
use mgridfs.Handle.Assign.{IsValid, Assigned, assign_handle-Assigned}
use mgridfs.Server.{ok, by_id}
use mgridfs.Server.Laws.{ReadLaws, Calm}
use mgridfs.World.{Env, World, ◌>>=◌, return, command, draw, attempt}
use mgridfs.World.Ends.{Ends, Ends-done, Ends-if, Ends-bind, Ends-tried, Ends-weaken}
use mgridfs.World.Quiet.{
  Same, Quiet, Always, Never, Quiet-return, Quiet-command_ok, Quiet-bind, Quiet-draw,
}
use mgridfs.LocalFs.{find_by_name, insert_file, create_file}
use mgridfs.LocalFs.Map.{or_new, find-insert_file_same}
use mgridfs.Ops.{or_bit, entry_changes}
use mgridfs.DataOps.Write.{Open}
use mgridfs.FileOps.{create_remote, create_local, created, made_local, mgridfs_create}
use mgridfs.FileOps.Open.{taken, table_lem, find_new, assign_lem}

module _ (e : Env) (calm : Calm e.server) (laws : ReadLaws e.server) (file : Name) where
  open e.server use {Db, Oid, connect, grid_fs, store_file, update}

  -- The `try` block stores an empty file.
  create_remote-Stored :
      (mode : ℕ)
      → Quiet Always
          (λ b db. (b ≡ true) × (laws.store.stored db file ≡ some []))
          Never
          (create_remote e file mode)
  unfolding create_remote
  create_remote-Stored mode =
      Quiet-bind {P = λ a. Always} (Quiet-command_ok connect (λ db p. (tt, calm.connect db, tt)))
        (λ a.
          Quiet-bind {P = λ b. Always}
            (Quiet-command_ok grid_fs (λ db p. (tt, calm.grid_fs db, tt)))
            (λ b.
              Quiet-bind
                {P = λ o db. ((id : Oid) × (o ≡ some id)) × (laws.store.stored db file ≡ some [])}
                (Quiet-command_ok (store_file [] file) (λ db p.
                  let (id, h) = calm.store_file [] file db in
                  (some id, h, ((id, refl), laws.store.store_saves [] file db id h))))
                (λ o. completed o)))
    where
      completed :
          (o : Option Oid)
          → Quiet {Db = Db}
              (λ db. ((id : Oid) × (o ≡ some id)) × (laws.store.stored db file ≡ some []))
              (λ b db. (b ≡ true) × (laws.store.stored db file ≡ some []))
              Never
              (elim o [
                | none ↦ return false
                | some id ↦ draw e >>= λ m.
                    command (
                      update (by_id id) (
                        entry_changes
                          (bytes "file")
                          file
                          m.now
                          e.context.uid
                          e.context.gid
                          mode
                          none))
                    >>= λ n. return true
              ])
      completed none = record { run = λ w p. absurd (cc p.0.1) }
      completed (some id) =
          Quiet-bind
            {P = λ m db.
              ((i : Oid) × (◌≡◌ {A = Option Oid} (some id) (some i)))
              × (laws.store.stored db file ≡ some [])}
            (Quiet-draw e)
            (λ m.
              let ch =
                entry_changes (bytes "file") file m.now e.context.uid e.context.gid mode none in
              Quiet-bind {P = λ n db. laws.store.stored db file ≡ some []}
                (Quiet-command_ok (update (by_id id) ch) (λ db p.
                  let (n, h) = calm.update (by_id id) ch db in
                  (n, h, laws.store.update_keeps (by_id id) ch db file refl ∙ p.1)))
                (λ n. Quiet-return true (λ db p. (refl, p))))

  -- The state after the creation of a file that was not in memory.
  pub record Fresh (st : Handles) (r : ℤ × ℕ) (v : World Db) : Type 0 where
    pub succeeds : r.0 ≡ pos 0
    pub open_now : Open v r.1 file
    pub held : find_by_name file v.files ≡ some (new_file e.options.mem_chunk_size file)
    pub stored : laws.store.stored v.db file ≡ some []
    pub counter : v.handles.next + length v.handles.table ≤ st.next + 2 * length st.table + 2

  module _ (room : (t : ℕ) → (e.moment t).object ≡ true) (nonempty : is_empty file ≡ false) where
    create_file-Fresh :
        (w v : World Db)
        (a : Assigned
          (record { filename = file; fh = 0 })
          w.handles
          (assign_handle (record { filename = file; fh = 0 }) w.handles))
        → v.handles ≡ a.after
        → find_by_name file v.files ≡ none
        → laws.store.stored v.db file ≡ some []
        → Ends
            (Fresh w.handles)
            Never
            ((create_file e file >>= made_local e (taken file w.handles a)) v)
    unfolding create_file
    create_file-Fresh w v a h absent stored =
        let f = new_file e.options.mem_chunk_size file in
        let v1 : World Db = record v { time = v.time + 1 } in
        let u : World Db = record v1 { files = insert_file file f v.files } in
        let table = table_lem file w.handles a v.handles h in
        Ends-bind {P = λ o x. (o ≡ some f) × (x ≡ u)} (create_file e file) _ v
          (Ends-if (e.moment v.time).object _ _ v1 (λ y. Ends-done (some f) u (refl, refl))
            (λ n. absurd (ground (arith, n, room v.time))))
          (λ o x t.
            rw (t.0, t.1)
              (Ends-done (pos 0, a.fh) u
                (record {
                  succeeds = refl;
                  open_now = record {
                    nonzero = a.nonzero;
                    handle = ap (left_find a.fh) table ∙ find_new a.fh file w.handles.table;
                  };
                  held = find-insert_file_same file f v.files ∙ ap (λ o. some (or_new f o)) absent;
                  stored = stored;
                  counter =
                      let next : v.handles.next ≡ a.fh = ap (λ k. k.next) h ∙ a.next in
                      omega (arith, next, ap length table, a.near);
                })))

    create_local-Fresh :
        (w : World Db)
        → IsValid w.handles
        → w.handles.next + length w.handles.table + 1 < 2 ^ 64
        → find_by_name file w.files ≡ none
        → laws.store.stored w.db file ≡ some []
        → Ends (Fresh w.handles) Never (create_local e file w)
    unfolding create_local assign_handle file_handle
    create_local-Fresh w valid no_wrap absent stored =
        let a =
          assign_handle-Assigned (record { filename = file; fh = 0 }) w.handles valid nonempty
            no_wrap in
        let nonzero : (a.fh == 0) ≡ false = ground (arith, a.nonzero) in
        rw (assign_lem e w file a, nonzero)
          (create_file-Fresh w (record w { handles = a.after }) a refl absent stored)

    -- On a server that answers everything, and with memory at hand, the creation of a file that is not
    -- in memory returns 0 and a new handle; the file is empty, in memory and on the server.
    pub mgridfs_create-Fresh :
        (w : World Db) (mode fh : ℕ)
        → IsValid w.handles
        → w.handles.next + length w.handles.table + 1 < 2 ^ 64
        → find_by_name file w.files ≡ none
        → Ends (Fresh w.handles) Never (mgridfs_create e file mode fh w)
    unfolding mgridfs_create created
    mgridfs_create-Fresh w mode fh valid no_wrap absent =
        Ends-bind {P = λ r v. Same w v × (r ≡ ok true) × (laws.store.stored v.db file ≡ some [])}
          (attempt (create_remote e file (or_bit 15 mode))) (created e file fh) w
          (Ends-tried (create_remote e file (or_bit 15 mode)) w
            ((create_remote-Stored (or_bit 15 mode)).run w tt) (λ b v t. (t.0, ap ok t.1.0, t.1.1))
            (λ v t. absurd t.1))
          (λ r v t. rw t.1 (
            Ends-weaken _
              (create_local-Fresh v (rw t.0.handles valid) (rw t.0.handles no_wrap)
                (ap (find_by_name file) t.0.files ∙ absent) t.2)
              (λ x u k. rw t.0.handles at k) (λ u k. k)))
