-- ===== src/FileOps/Release.antt =====
-- `mgridfs_release`: what it does to the files in memory and to the table of handles.
use mgridfs.Base.{
  ℕ, ◌<◌, ◌≡◌, refl, ap, ◌∙◌, true, false, Option, none, some, List, arith, ◌==◌, if◌then◌else◌, ℤ,
  pos, neg, Name, name_eq, name_eq_refl,
}
use mgridfs.LocalFile.{LocalFile, ebadf}
use mgridfs.Handle.{FileHandle, left_find, unassign_handle}
use mgridfs.Handle.Table.{Distinct, without, left_find-erase}
use mgridfs.World.{Env, World, done, ◌>>=◌, ◌>>◌, return}
use mgridfs.World.Ends.{Ends, Ends-done, Ends-bind, Ends-weaken, Ends-if}
use mgridfs.World.Quiet.{Same, Never}
use mgridfs.Sync.{flush, destroy}
use mgridfs.Sync.Flush.{Flushed, flush-Flushed}
use mgridfs.LocalFs.{find_by_name, put, erase_file, release_file, let_go}
use mgridfs.LocalFs.Map.{find-erase_file, find-put}
use mgridfs.Ops.{keep, unassign}
use mgridfs.FileOps.{mgridfs_release, release_local, flush_if_dirty}
use mgridfs.DataOps.{mgridfs_write, write_held}
use mgridfs.DataOps.Write.{Open, this_handle-open, is_valid-open}

-- The handles are as before, and so are the files of the other names.
pub record Elsewhere {Db : Type 0} (name : Name) (w v : World Db) : Type 0 where
  pub handles : v.handles ≡ w.handles
  pub others : (n : Name) → name_eq name n ≡ false → find_by_name n v.files ≡ find_by_name n w.files

-- Besides, the file of that name is not in memory.
pub record Gone {Db : Type 0} (name : Name) (w v : World Db) : Type 0 where
  pub elsewhere : Elsewhere name w v
  pub gone : find_by_name name v.files ≡ none

Elsewhere-Same :
    {Db : Type 0} {name : Name} {w v u : World Db}
    → Elsewhere name w v
    → Same v u
    → Elsewhere name w u
Elsewhere-Same a s = record {
  handles = s.handles ∙ a.handles;
  others = λ n ne. ap (find_by_name n) s.files ∙ a.others n ne;
}

Gone-Same :
    {Db : Type 0} {name : Name} {w v u : World Db} → Gone name w v → Same v u → Gone name w u
Gone-Same {name = name} g s = record {
  elsewhere = Elsewhere-Same g.elsewhere s;
  gone = ap (find_by_name name) s.files ∙ g.gone;
}

Elsewhere-Gone :
    {Db : Type 0} {name : Name} {w v u : World Db}
    → Elsewhere name w v
    → Gone name v u
    → Gone name w u
Elsewhere-Gone a g = record {
  elsewhere = record {
    handles = g.elsewhere.handles ∙ a.handles;
    others = λ n ne. g.elsewhere.others n ne ∙ a.others n ne;
  };
  gone = g.gone;
}

module _ (e : Env) (name : Name) where
  destroy-Same :
      (f : LocalFile) (w : World e.server.Db) → Ends (λ a v. Same w v) Never (destroy e f w)
  unfolding destroy
  destroy-Same f w =
      Ends-if f.dirty (flush e f >> return tt) (return tt) w
        (λ y.
          Ends-bind {P = λ r v. Same w v × Flushed f r} (flush e f) (λ r. return tt) w
            (flush-Flushed e f w) (λ r v s. Ends-done tt v s.0))
        (λ n. Ends-done tt w (record { handles = refl; files = refl }))

  let_go-Gone :
      (found : Option LocalFile) (w : World e.server.Db)
      → find_by_name name w.files ≡ found
      → Ends (λ a v. Gone name w v) Never (let_go e name found w)
  let_go-Gone none w h =
      Ends-done true w
        (record { elsewhere = record { handles = refl; others = λ n ne. refl }; gone = h })
  let_go-Gone (some f) w h =
      let v0 : World e.server.Db = record w { files = erase_file name w.files } in
      let start : Gone name w v0 = record {
        elsewhere = record {
          handles = refl;
          others = λ n ne. rw (find-erase_file name w.files n, ne) refl;
        };
        gone = rw (find-erase_file name w.files name, name_eq_refl name) refl;
      } in
      Ends-bind {P = λ r v. Same v0 v × Flushed f r} (flush e f) _ v0 (flush-Flushed e f v0)
        (λ r v s.
          Ends-bind {P = λ a u. Same v u} (destroy e r.1) (λ a. return true) v (destroy-Same r.1 v)
            (λ a u t. Ends-done true u (Gone-Same (Gone-Same start s.0) t)))

  pub release_file-Gone :
      (w : World e.server.Db) → Ends (λ a v. Gone name w v) Never (release_file e name w)
  unfolding release_file
  release_file-Gone w = let_go-Gone (find_by_name name w.files) w refl

  keep-Elsewhere :
      (code : ℤ) (f : LocalFile) (w : World e.server.Db)
      → Ends (λ a v. Elsewhere name w v) Never (keep name (code, f) w)
  keep-Elsewhere code f w =
      Ends-done code (record w { files = put name f w.files })
        (record { handles = refl; others = λ n ne. rw (find-put name f w.files n, ne) refl })

  flush_if_dirty-Elsewhere :
      (f : LocalFile) (w : World e.server.Db)
      → Ends (λ a v. Elsewhere name w v) Never (flush_if_dirty e name f w)
  flush_if_dirty-Elsewhere f w =
      Ends-if f.dirty ((flush e f >>= keep name) >> return tt) (return tt) w
        (λ y.
          Ends-bind {P = λ a v. Elsewhere name w v} (flush e f >>= keep name) (λ a. return tt) w
            (Ends-bind {P = λ r v. Same w v × Flushed f r} (flush e f) (keep name) w
              (flush-Flushed e f w)
              (λ r v s.
                Ends-weaken (keep name r v) (keep-Elsewhere r.0 r.1 v)
                  (λ a u t. record {
                    handles = t.handles ∙ s.0.handles;
                    others = λ n ne. t.others n ne ∙ ap (find_by_name n) s.0.files;
                  })
                  (λ u t. t)))
            (λ a v s. Ends-done tt v s))
        (λ n. Ends-done tt w (record { handles = refl; others = λ n ne. refl }))

  release_local-Gone :
      (found : Option LocalFile) (w : World e.server.Db)
      → find_by_name name w.files ≡ found
      → Ends (λ a v. Gone name w v) Never (release_local e name found w)
  release_local-Gone none w h =
      Ends-done tt w
        (record { elsewhere = record { handles = refl; others = λ n ne. refl }; gone = h })
  release_local-Gone (some f) w h =
      Ends-bind {P = λ a v. Elsewhere name w v} (flush_if_dirty e name f) _ w
        (flush_if_dirty-Elsewhere f w)
        (λ a v s.
          Ends-bind {P = λ b u. Gone name v u} (release_file e name) (λ b. return tt) v
            (release_file-Gone v) (λ b u g. Ends-done tt u (Elsewhere-Gone s g)))

unassign-Ends :
    {Db : Type 0} (h : FileHandle) (w : World Db)
    → 0 < h.fh
    → Distinct w.handles.table
    → Ends
        (λ a v.
          (v.files ≡ w.files)
          × ((j : ℕ)
              → left_find j v.handles.table ≡ (
                  if j == h.fh
                  then without h.filename (left_find j w.handles.table)
                  else left_find j w.handles.table)))
        Never
        (unassign h w)
unfolding unassign_handle
unassign-Ends h w p d =
    let z : (h.fh == 0) ≡ false = ground arith in
    Ends-done tt (record w { handles = (unassign_handle h w.handles).1 })
      (refl, λ j. rw z (left_find-erase h.fh h.filename w.handles.table j d))

-- What is left after the release of a handle.
pub record Released {Db : Type 0} (name : Name) (fh : ℕ) (w : World Db) (v : World Db)
    : Type 0 where
  pub closed : left_find fh v.handles.table ≡ none
  pub handles :
      (j : ℕ) → (j == fh) ≡ false → left_find j v.handles.table ≡ left_find j w.handles.table
  pub gone : find_by_name name v.files ≡ none
  pub others : (n : Name) → name_eq name n ≡ false → find_by_name n v.files ≡ find_by_name n w.files

released_lem :
    {Db : Type 0} (name : Name) (fh : ℕ) (w v u : World Db)
    → Open w fh name
    → Gone name w v
    → u.files ≡ v.files
    → ((j : ℕ)
        → left_find j u.handles.table ≡ (
            if j == fh
            then without name (left_find j v.handles.table)
            else left_find j v.handles.table))
    → Released name fh w u
released_lem name fh w v u o g files handles =
    let same : (j : ℕ) → left_find j v.handles.table ≡ left_find j w.handles.table =
      λ j. ap (λ h. left_find j h.table) g.elsewhere.handles in
    let own : (fh == fh) ≡ true = ground arith in
    record {
      closed = handles fh ∙ rw (own, same fh, o.handle, name_eq_refl name) refl;
      handles = λ j ne. handles j ∙ rw ne (same j);
      gone = ap (find_by_name name) files ∙ g.gone;
      others = λ n ne. ap (find_by_name n) files ∙ g.elsewhere.others n ne;
    }

module _ (e : Env) (w : World e.server.Db) (file name : Name) (fh : ℕ) (o : Open w fh name)
    (distinct : Distinct w.handles.table) where
  -- The release of an open handle returns 0 whether or not its file could be saved. The handle is
  -- closed, its file is not in memory any more, also if other handles are open on it, and all other
  -- handles and files are as before.
  pub mgridfs_release-Released :
      Ends (λ code v. (code ≡ pos 0) × Released name fh w v) Never (mgridfs_release e file fh w)
  unfolding mgridfs_release
  mgridfs_release-Released =
      let h : FileHandle = record { filename = name; fh = fh } in
      rw (this_handle-open w file name fh o, is_valid-open w name fh o)
        (Ends-bind {P = λ a v. Released name fh w v}
          (release_local e name (find_by_name name w.files) >> unassign h) _ w
          (Ends-bind {P = λ a v. Gone name w v} (release_local e name (find_by_name name w.files)) _
            w (release_local-Gone e name (find_by_name name w.files) w refl)
            (λ a v g.
              Ends-weaken (unassign h v)
                (unassign-Ends h v o.nonzero (rw g.elsewhere.handles distinct))
                (λ b u t. released_lem name fh w v u o g t.0 t.1) (λ u t. t)))
          (λ a v r. Ends-done (pos 0) v (refl, r)))

  -- After the release of a handle, a write through another handle of that file, which is still open,
  -- fails with `EBADF`.
  pub mgridfs_write-mgridfs_release :
      (other_file : Name) (other buf_offset : ℕ) (buf : List ℕ)
      → Open w other name
      → (other == fh) ≡ false
      → Ends
          (λ code v. mgridfs_write e other_file buf buf_offset other v ≡ done (neg ebadf) v)
          Never
          (mgridfs_release e file fh w)
  unfolding mgridfs_write write_held
  mgridfs_write-mgridfs_release other_file other buf_offset buf oo ne =
      Ends-weaken (mgridfs_release e file fh w) mgridfs_release-Released
        (λ code v r.
          let still : Open v other name = record {
            nonzero = oo.nonzero;
            handle = r.1.handles other ne ∙ oo.handle;
          } in
          rw
            (
              this_handle-open v other_file name other still,
              is_valid-open v name other still,
              r.1.gone,
            )
            refl)
        (λ v x. x)
