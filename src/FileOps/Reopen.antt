-- ===== src/FileOps/Reopen.antt =====
-- The end of one session of a file and the start of the next: `mgridfs_release` of a file that has no
-- changes, and `mgridfs_open` for reading of a file that the server has.
use mgridfs.Base.{
  ℕ, ◌+◌, ◌^◌, ◌≤◌, ◌<◌, ◌≡◌, refl, ap, ◌∙◌, true, false, Option, none, some, List, [], ◌∷◌, arith,
  ◌==◌, length, ℤ, pos, Name, is_empty,
}
use mgridfs.LocalFile.{LocalFile}
use mgridfs.Handle.{
  Handles, FileHandle, Table, left_find, erase, assign_handle, unassign_handle, file_handle,
}
use mgridfs.Handle.Assign.{IsValid, Assigned, assign_handle-Assigned}
use mgridfs.Server.{GridFile, named, ok}
use mgridfs.Server.Laws.{ReadLaws, Calm}
use mgridfs.World.{Env, World, done, return, ask, command, ◌>>◌}
use mgridfs.World.Ends.{
  bind-done, Ends, Ends-done, Ends-bind, Ends-ask_ok, Ends-command_ok, Ends-catching,
}
use mgridfs.World.Quiet.{Never}
use mgridfs.Sync.{flush, destroy}
use mgridfs.LocalFs.{find_by_name, erase_file, release_file, let_go}
use mgridfs.Ops.{is_rdonly, unassign}
use mgridfs.DataOps.Write.{Open, this_handle-open, is_valid-open}
use mgridfs.FileOps.{
  mgridfs_release, release_local, flush_if_dirty, mgridfs_open, open_cases, open_found,
  open_assigned,
}
use mgridfs.FileOps.Open.{taken, table_lem, find_new, assign_lem}

module _ (e : Env) (w : World e.server.Db) (file name : Name) (fh : ℕ) (f : LocalFile)
    (o : Open w fh name) (held : find_by_name name w.files ≡ some f) (clean : f.dirty ≡ false) where
  let_go_clean : let_go e name (some f) w ≡ done true (record w { files = erase_file name w.files })
  unfolding flush destroy
  let_go_clean = rw clean refl

  release_file_clean :
      release_file e name w ≡ done true (record w { files = erase_file name w.files })
  unfolding release_file
  release_file_clean = rw held let_go_clean

  release_local_clean :
      release_local e name (some f) w ≡ done tt (record w { files = erase_file name w.files })
  release_local_clean =
      bind-done (flush_if_dirty e name f) _ w w tt (rw clean refl)
      ∙ bind-done (release_file e name) (λ a. return tt) w _ true release_file_clean

  -- The release of a file without changes does nothing on the server.
  pub mgridfs_release_clean :
      mgridfs_release e file fh w
      ≡ done (pos 0) (record w {
        files = erase_file name w.files;
        handles = (unassign_handle (record { filename = name; fh = fh }) w.handles).1;
      })
  unfolding mgridfs_release
  mgridfs_release_clean =
      let h : FileHandle = record { filename = name; fh = fh } in
      rw (this_handle-open w file name fh o, is_valid-open w name fh o, held)
        (bind-done (release_local e name (some f) >> unassign h) (λ a. return (pos 0)) w _ tt
          (bind-done (release_local e name (some f)) (λ a. unassign h) w _ tt release_local_clean))

length-erase : (k : ℕ) (n : Name) (t : Table) → length (erase k n t) ≤ length t
unfolding erase
length-erase k n [] = omega arith
length-erase k n ((j, m) ∷ t) = ground (arith, length-erase k n t)

pub length-unassign_handle :
    (h : FileHandle) (st : Handles)
    → ((unassign_handle h st).1.next ≡ st.next)
      × (length (unassign_handle h st).1.table ≤ length st.table)
unfolding unassign_handle
length-unassign_handle h st = ground (arith, length-erase h.fh h.filename st.table)

-- The result of an open for reading of a file that the server has: a new handle of the file, whose
-- bytes stay on the server.
pub record Reading (e : Env) (laws : ReadLaws e.server) (file : Name) (buf : List ℕ) (r : ℤ × ℕ)
    (v : World e.server.Db) : Type 0 where
  pub succeeds : r.0 ≡ pos 0
  pub open_now : Open v r.1 file
  pub absent : find_by_name file v.files ≡ none
  pub stored : laws.store.stored v.db file ≡ some buf

module _ (e : Env) (calm : Calm e.server) (laws : ReadLaws e.server) (file : Name) (buf : List ℕ)
    (flags : ℕ) (rdonly : is_rdonly flags ≡ true) where
  open e.server use {Db, connect, grid_fs, find_file}

  module _ (st : Handles)
      (a : Assigned
        (record { filename = file; fh = 0 })
        st
        (assign_handle (record { filename = file; fh = 0 }) st)) where
    record Before (v : World Db) : Type 0 where
      handles : v.handles ≡ a.after
      absent : find_by_name file v.files ≡ none
      stored : laws.store.stored v.db file ≡ some buf

    open_cases-Reading :
        (found : Option GridFile) (v : World Db)
        → Before v
        → find_file (named file) v.db ≡ ok found
        → Ends (Reading e laws file buf) Never (open_cases e file flags (taken file st a) found v)
    unfolding open_cases
    open_cases-Reading none v b h = absurd (cc (laws.missing file v.db h, b.stored))
    open_cases-Reading (some g) v b h = rw rdonly (
        Ends-done (pos 0, a.fh) v
          (record {
            succeeds = refl;
            open_now = record {
              nonzero = a.nonzero;
              handle =
                  ap (left_find a.fh) (table_lem file st a v.handles b.handles)
                  ∙ find_new a.fh file st.table;
            };
            absent = b.absent;
            stored = b.stored;
          }))

    open_found-Reading :
        (w : World Db)
        → Before w
        → Ends (Reading e laws file buf) Never (open_found e file flags (taken file st a) w)
    unfolding open_found
    open_found-Reading w b =
        Ends-bind {P = λ t v. Before v} (command connect) _ w
          (Ends-command_ok connect w (calm.connect w.db) (record {
            handles = b.handles;
            absent = b.absent;
            stored = laws.store.connect_keeps w.db file ∙ b.stored;
          }))
          (λ t v b1.
            Ends-bind {P = λ t' u. Before u} (command grid_fs) _ v
              (Ends-command_ok grid_fs v (calm.grid_fs v.db) (record {
                handles = b1.handles;
                absent = b1.absent;
                stored = laws.store.grid_fs_keeps v.db file ∙ b1.stored;
              }))
              (λ t' u b2.
                let (o, found) = calm.find_file (named file) u.db in
                Ends-bind {P = λ o' x. Before x × (find_file (named file) x.db ≡ ok o')}
                  (ask (find_file (named file))) _ u
                  (Ends-ask_ok (find_file (named file)) u found (b2, found))
                  (λ o' x s. open_cases-Reading o' x s.0 s.1)))

  -- On a server that answers everything, an open for reading of a stored file that is not in memory
  -- returns 0 and a new handle of the file.
  pub mgridfs_open-Reading :
      (w : World Db)
      → IsValid w.handles
      → is_empty file ≡ false
      → w.handles.next + length w.handles.table + 1 < 2 ^ 64
      → find_by_name file w.files ≡ none
      → laws.store.stored w.db file ≡ some buf
      → Ends (Reading e laws file buf) Never (mgridfs_open e file flags w)
  unfolding mgridfs_open open_assigned assign_handle file_handle
  mgridfs_open-Reading w valid nonempty no_wrap absent stored =
      let a =
        assign_handle-Assigned (record { filename = file; fh = 0 }) w.handles valid nonempty
          no_wrap in
      let v : World Db = record w { handles = a.after } in
      let nonzero : (a.fh == 0) ≡ false = ground (arith, a.nonzero) in
      rw (assign_lem e w file a, nonzero, absent)
        (Ends-catching {S = Never} (open_found e file flags (taken file w.handles a)) _ v
          (open_found-Reading w.handles a v
            (record { handles = refl; absent = absent; stored = stored }))
          (λ u h. absurd h))
