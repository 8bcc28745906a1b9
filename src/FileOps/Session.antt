-- ===== src/FileOps/Session.antt =====
-- A whole session of a file: it is written, saved, closed, opened again and read.
use mgridfs.Base.{
  ℕ, ◌+◌, ◌%◌, ◌^◌, ◌<◌, ◌≡◌, refl, ap, ◌∙◌, ◌≢◌, true, false, none, some, List, arith, ◌==◌,
  length, length-take, ℤ, pos, to_int, Name, is_empty, name_eq_refl,
}
use mgridfs.LocalFile.{LocalFile}
use mgridfs.LocalFile.Contents.{contents}
use mgridfs.LocalFile.Grow.{Plenty, flat}
use mgridfs.LocalFile.Valid.{IsValid}
use mgridfs.Handle.{FileHandle, left_find, unassign_handle}
use mgridfs.Handle.Assign
use mgridfs.Handle.Assign.{unassign_handle_lem}
use mgridfs.Server.Laws.{ReadLaws, Calm}
use mgridfs.World.{Env, World, ◌>>=◌, ◌>>◌}
use mgridfs.World.Ends.{Ends, Ends-bind, Ends-returned, Ends-weaken}
use mgridfs.World.Quiet.{Never}
use mgridfs.LocalFs.{find_by_name, erase_file}
use mgridfs.LocalFs.Map.{find-erase_file}
use mgridfs.LocalFs.Consistent.{Consistent}
use mgridfs.LocalFs.Keeps.{find-Held}
use mgridfs.Ops.{is_rdonly}
use mgridfs.DataOps.{mgridfs_read, mgridfs_write}
use mgridfs.DataOps.Write.{Open, mgridfs_write-Left, this_handle-open, is_valid-open}
use mgridfs.DataOps.Remote.{Part}
use mgridfs.DataOps.Answered.{remote_read-Part}
use mgridfs.FileOps.{mgridfs_open, mgridfs_flush, mgridfs_release}
use mgridfs.FileOps.Answered.{mgridfs_flush_succeeds}
use mgridfs.FileOps.Reopen.{
  mgridfs_release_clean, length-unassign_handle, Reading, mgridfs_open-Reading,
}

module _ (e : Env) (calm : Calm e.server) (laws : ReadLaws e.server) (name : Name)
    (nonempty : is_empty name ≡ false) (again : ℕ) (rdonly : is_rdonly again ≡ true)
    (len offset : ℕ) (some_bytes : 0 < len) (small : len < 2 ^ 31)
    (in_range : offset < 2 ^ 63) where
  -- A read through a new handle of a file that is not in memory.
  read_reopened :
      (buf : List ℕ)
      → length buf < 2 ^ 32
      → (r : ℤ × ℕ) (v : World e.server.Db) → Reading e laws name buf r v
      → Ends (λ out u. Part buf len offset out) Never (mgridfs_read e name len offset again r.1 v)
  unfolding mgridfs_read
  read_reopened buf countable r v h =
      let z : (len == 0) ≡ false = ground arith in
      rw
        (
          this_handle-open v name name r.1 h.open_now,
          is_valid-open v name r.1 h.open_now,
          h.absent,
          nonempty,
          z,
          rdonly,
        )
        (remote_read-Part e calm laws buf name len offset some_bytes small countable in_range v
          h.stored)

  -- A file without changes, whose bytes the server has, is closed, opened for reading, and read.
  reread :
      (w : World e.server.Db) (file : Name) (fh : ℕ) (f : LocalFile) (buf : List ℕ)
      → Open w fh name
      → find_by_name name w.files ≡ some f
      → f.dirty ≡ false
      → Assign.IsValid w.handles
      → w.handles.next + length w.handles.table + 1 < 2 ^ 64
      → laws.store.stored w.db name ≡ some buf
      → length buf < 2 ^ 32
      → Ends
          (λ out u. Part buf len offset out)
          Never
          ((do
            mgridfs_release e file fh
            r ← mgridfs_open e name again
            mgridfs_read e name len offset again r.1)
            w)
  reread w file fh f buf o held clean valid no_wrap stored countable =
      let h : FileHandle = record { filename = name; fh = fh } in
      let v : World e.server.Db = record w {
        files = erase_file name w.files;
        handles = (unassign_handle h w.handles).1;
      } in
      let l = length-unassign_handle h w.handles in
      Ends-bind {P = λ code u. u ≡ v} (mgridfs_release e file fh) _ w
        (Ends-returned _ (pos 0) v (mgridfs_release_clean e w file name fh f o held clean) refl)
        (λ code u q. rw q (
          Ends-bind (mgridfs_open e name again) _ v
            (mgridfs_open-Reading e calm laws name buf again rdonly v
              (unassign_handle_lem h w.handles 0 valid o.nonzero).1 nonempty
              (omega (arith, l.0, l.1, no_wrap))
              (rw (find-erase_file name w.files name, name_eq_refl name) refl) stored)
            (λ r x t. read_reopened buf countable r x t)))

module _ (e : Env) (calm : Calm e.server) (laws : ReadLaws e.server)
    (room : (t : ℕ) → (e.moment t).buffer ≢ none) (name : Name) (fh flags again : ℕ)
    (writing : is_rdonly flags ≡ false) (rdonly : is_rdonly again ≡ true) where
  save_and_reread :
      (w : World e.server.Db) (file : Name) (f : LocalFile) (old : List ℕ) (len offset : ℕ)
      → Assign.IsValid w.handles
      → Open w fh name
      → is_empty name ≡ false
      → find_by_name name w.files ≡ some f
      → IsValid e.options.max_mem_file_size f
      → f.filename ≡ name
      → f.dirty ≡ true
      → length (contents f) < 2 ^ 32
      → laws.store.stored w.db name ≡ some old
      → w.handles.next + length w.handles.table + 1 < 2 ^ 64
      → 0 < len
      → len < 2 ^ 31
      → offset < 2 ^ 63
      → Ends
          (λ out u. Part (contents f) len offset out)
          Never
          ((do
            mgridfs_flush e file flags fh
            mgridfs_release e file fh
            r ← mgridfs_open e name again
            mgridfs_read e name len offset again r.1)
            w)
  save_and_reread w file f old len offset handles o nonempty held valid filename dirty countable
        there no_wrap some_bytes small in_range =
      Ends-bind (mgridfs_flush e file flags fh) _ w
        (mgridfs_flush_succeeds e calm laws room w file name fh flags f o held valid writing dirty
          old (rw filename there))
        (λ code u t.
          reread e calm laws name nonempty again rdonly len offset some_bytes small in_range u file
            fh (record f { dirty = false }) (contents f)
            (record {
              nonzero = o.nonzero;
              handle = ap (λ h. left_find fh h.table) t.1.handles ∙ o.handle;
            })
            t.1.clean refl (rw t.1.handles handles) (rw t.1.handles no_wrap)
            (rw filename at t.1.stored) countable)

  -- On a server that answers everything and keeps to its laws, and with memory at hand: a changed file
  -- of fewer than 2 ^ 32 bytes, that the server has, is flushed through a handle open for writing,
  -- closed, and opened again for reading. A read through the new handle returns the bytes that were in
  -- memory, from its offset on and at most as many as were asked for, whether or not the size is a
  -- whole number of chunks. The state is consistent, and the counter of the handles far from its wrap.
  pub mgridfs_read-mgridfs_release :
      (w : World e.server.Db) (file : Name) (f : LocalFile) (old : List ℕ) (len offset : ℕ)
      → Consistent e w
      → Open w fh name
      → is_empty name ≡ false
      → find_by_name name w.files ≡ some f
      → f.dirty ≡ true
      → f.size < 2 ^ 32
      → laws.store.stored w.db name ≡ some old
      → w.handles.next + length w.handles.table + 1 < 2 ^ 64
      → 0 < len
      → len < 2 ^ 31
      → offset < 2 ^ 63
      → Ends
          (λ out u. Part (contents f) len offset out)
          Never
          ((do
            mgridfs_flush e file flags fh
            mgridfs_release e file fh
            r ← mgridfs_open e name again
            mgridfs_read e name len offset again r.1)
            w)
  mgridfs_read-mgridfs_release w file f old len offset c o nonempty held dirty countable there
        no_wrap some_bytes small in_range =
      let k = find-Held e name w.files c.files held in
      save_and_reread w file f old len offset c.handles o nonempty held k.valid k.name dirty
        (omega (arith, length-take f.size (flat f), countable)) there no_wrap some_bytes small
        in_range

  -- What is written through a handle, under the conditions of `mgridfs_write-Left`, saved, and closed,
  -- is read back from the server through a new handle, byte for byte; the conditions on the server and
  -- the state are those of `mgridfs_read-mgridfs_release`.
  pub mgridfs_read-mgridfs_open :
      (w : World e.server.Db) (file : Name) (f : LocalFile) (buf old : List ℕ) (offset : ℕ)
      → Consistent e w
      → Open w fh name
      → is_empty name ≡ false
      → find_by_name name w.files ≡ some f
      → f.read_only ≡ false
      → 0 < length buf
      → length buf < 2 ^ 31
      → Plenty (e.moment w.time).chunks
      → offset + length buf < e.options.max_mem_file_size
      → offset + length buf < 2 ^ 32
      → f.size < 2 ^ 32
      → (offset + 1) % f.chunk_size ≢ 0
      → offset + length buf ≢ f.capacity
      → laws.store.stored w.db name ≡ some old
      → w.handles.next + length w.handles.table + 1 < 2 ^ 64
      → Ends
          (λ out u. out ≡ (pos (length buf), buf))
          Never
          ((do
            mgridfs_write e file buf offset fh
            mgridfs_flush e file flags fh
            mgridfs_release e file fh
            r ← mgridfs_open e name again
            mgridfs_read e name (length buf) offset again r.1)
            w)
  mgridfs_read-mgridfs_open w file f buf old offset c o nonempty held writable some_bytes small
        plenty lt below countable inside ne there no_wrap =
      let k = find-Held e name w.files c.files held in
      let (f', left, effect, valid, chunk, dirty, filename) =
        mgridfs_write-Left e w file name fh f o held k.valid buf offset writable some_bytes plenty
          lt inside ne in
      let size : length (contents f') < 2 ^ 32 =
        omega (arith, effect.size, length-take f.size (flat f), below, countable) in
      let still : Open left.after fh name = record {
        nonzero = o.nonzero;
        handle = ap (λ h. left_find fh h.table) left.handles ∙ o.handle;
      } in
      Ends-bind {P = λ code u. u ≡ left.after} (mgridfs_write e file buf offset fh) _ w
        (Ends-returned _ (to_int (length buf)) left.after left.returned refl)
        (λ code u q. rw q (
          Ends-weaken _
            (save_and_reread left.after file f' old (length buf) offset (rw left.handles c.handles)
              still nonempty left.held valid (filename ∙ k.name) dirty size (rw left.db there)
              (rw left.handles no_wrap) some_bytes small (omega (arith, below)))
            (λ out x t. rw effect.there at t) (λ x t. t)))
