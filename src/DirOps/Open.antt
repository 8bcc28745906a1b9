-- ===== src/DirOps/Open.antt =====
-- `mgridfs_opendir`, and `mgridfs_releasedir` after it.
use mgridfs.Base.{
  ℕ, ◌+◌, ◌^◌, ◌<◌, ◌≡◌, refl, ap, ◌∙◌, Bool, true, false, Option, none, some, arith, ◌==◌,
  if◌then◌else◌, length, ℤ, pos, negsuc, neg, Name, is_empty,
}
use mgridfs.Handle.{Handles, left_find, assign_handle, file_handle, unassign_handle}
use mgridfs.Handle.Assign.{IsValid, Assigned, assign_handle-Assigned}
use mgridfs.Server.{GridFile, named}
use mgridfs.World.{Env, World, ◌>>=◌, return}
use mgridfs.World.Ends.{Ends, Ends-done, Ends-bind, Ends-weaken}
use mgridfs.World.Quiet.{
  Same, Quiet, Always, Never, Quiet-return, Quiet-ask, Quiet-command, Quiet-bind, Quiet-catching,
}
use mgridfs.Sync.Flush.{Code, success, failure}
use mgridfs.FileOps.{assign, is_zero}
use mgridfs.FileOps.Open.{taken, unassign_taken, assign_lem, find_new}
use mgridfs.DataOps.Write.{Open, this_handle-open, is_valid-open}
use mgridfs.AttrOps.{field_or}
use mgridfs.Ops.{s_isdir}
use mgridfs.DirOps.{check_directory, directory_code, mgridfs_opendir, mgridfs_releasedir}

Code-if : (b : Bool) → Code (if b then pos 0 else neg 20)
Code-if true = success
Code-if false = failure 19

module _ (e : Env) (path : Name) where
  open e.server use {Db, connect, grid_fs, find_file}

  directory_code-Code : (found : Option GridFile) → Code (directory_code e found)
  directory_code-Code none = failure 1
  directory_code-Code (some g) = Code-if (s_isdir (field_or g.metadata.mode e.server.absent_int))

  check_directory-Quiet :
      {R : Db → Type 0} → Quiet Always (λ code db. Code code) R (check_directory e path)
  unfolding check_directory
  check_directory-Quiet {R} =
      Quiet-catching {S = Always}
        (Quiet-bind {P = λ a. Always} (Quiet-command connect (λ db a p h. tt) (λ db p. tt)) (λ a.
          Quiet-bind {P = λ b. Always} (Quiet-command grid_fs (λ db b p h. tt) (λ db p. tt)) (λ b.
            Quiet-bind {P = λ found. Always}
              (Quiet-ask (find_file (named path)) (λ db found p h. tt) (λ db p. tt))
              (λ found.
                Quiet-return (directory_code e found) (λ db p. directory_code-Code found)))))
        (Quiet-return (neg 5) (λ db p. failure 4))

-- What is left by the opening of a directory: with 0 a handle of the path, which its release gives
-- back, so that all handles are as they were; with an error all handles are as they were.
pub data DirOpened (e : Env) (path : Name) (st : Handles) (r : ℤ × Option ℕ) (v : World e.server.Db)
    : Type 0 where
  open_dir :
      (fh : ℕ)
      → r ≡ (pos 0, some fh)
      → left_find fh st.table ≡ none
      → Open v fh path
      → Ends
          (λ code u.
            (code ≡ pos 0) × ((j : ℕ) → left_find j u.handles.table ≡ left_find j st.table))
          Never
          (mgridfs_releasedir e path fh v)
      → DirOpened e path st r v
  no_dir : (n : ℕ) → r ≡ (negsuc n, none) → v.handles ≡ st → DirOpened e path st r v

module _ (e : Env) (path : Name) (nonempty : is_empty path ≡ false) where
  open e.server use {Db}

  releasedir-Ends :
      (st : Handles)
      (a : Assigned
        (record { filename = path; fh = 0 })
        st
        (assign_handle (record { filename = path; fh = 0 }) st))
      (v : World Db)
      → v.handles ≡ a.after
      → Open v a.fh path
      → Ends
          (λ code u.
            (code ≡ pos 0) × ((j : ℕ) → left_find j u.handles.table ≡ left_find j st.table))
          Never
          (mgridfs_releasedir e path a.fh v)
  unfolding mgridfs_releasedir
  releasedir-Ends st a v h o =
      rw (this_handle-open v path path a.fh o, is_valid-open v path a.fh o)
        (Ends-done (pos 0) (record v { handles = (unassign_handle (taken path st a) v.handles).1 })
          (refl, unassign_taken path st a v.handles h))

  assigned_dir :
      (w : World Db)
      → IsValid w.handles
      → w.handles.next + length w.handles.table + 1 < 2 ^ 64
      → Ends
          (DirOpened e path w.handles)
          Never
          ((assign e path >>= λ a. return ((if a.0 == 0 then neg 23 else pos 0), some a.0)) w)
  unfolding assign_handle file_handle assign
  assigned_dir w valid no_wrap =
      let a =
        assign_handle-Assigned (record { filename = path; fh = 0 }) w.handles valid nonempty
          no_wrap in
      let v : World Db = record w { handles = a.after } in
      let nonzero : (a.fh == 0) ≡ false = ground (arith, a.nonzero) in
      let o : Open v a.fh path = record {
        nonzero = a.nonzero;
        handle = ap (left_find a.fh) a.table ∙ find_new a.fh path w.handles.table;
      } in
      rw (assign_lem e w path a, nonzero)
        (Ends-done (pos 0, some a.fh) v
          (open_dir a.fh refl a.fresh o (releasedir-Ends w.handles a v refl o)))

  decided :
      (w : World Db) {code : ℤ}
      → Code code
      → IsValid w.handles
      → w.handles.next + length w.handles.table + 1 < 2 ^ 64
      → Ends (DirOpened e path w.handles) Never (
          (if is_zero code
              then assign e path >>= (λ a. return ((if a.0 == 0 then neg 23 else pos 0), some a.0))
              else return (code, none))
            w)
  decided w success valid no_wrap = assigned_dir w valid no_wrap
  decided w (failure n) valid no_wrap = Ends-done (negsuc n, none) w (no_dir n refl refl)

  counted :
      (h k : Handles)
      → h ≡ k
      → k.next + length k.table + 1 < 2 ^ 64
      → h.next + length h.table + 1 < 2 ^ 64
  counted h k q lt = rw q lt

  known : (h k : Handles) → h ≡ k → IsValid k → IsValid h
  known h k q v = rw q v

  moved :
      (h k : Handles) (r : ℤ × Option ℕ) (u : World Db)
      → h ≡ k
      → DirOpened e path h r u
      → DirOpened e path k r u
  moved h k r u q d = rw q at d

  -- `mgridfs_opendir` always returns: with 0 and a new handle of the path, whose release returns 0 and
  -- leaves all handles as they were before, or with an error and the handles untouched. The path is
  -- not empty, and the counter of the handles is far from its wrap.
  pub mgridfs_opendir-DirOpened :
      (w : World Db)
      → IsValid w.handles
      → w.handles.next + length w.handles.table + 1 < 2 ^ 64
      → Ends (DirOpened e path w.handles) Never (mgridfs_opendir e path w)
  unfolding mgridfs_opendir
  mgridfs_opendir-DirOpened w valid no_wrap =
      Ends-bind {P = λ code v. Same w v × Code code} (check_directory e path) _ w
        (Ends-weaken (check_directory e path w) ((check_directory-Quiet e path).run w tt)
          (λ code v t. t) (λ v t. t.1))
        (λ code v t.
          Ends-weaken _
            (decided v t.1 (known v.handles w.handles t.0.handles valid)
              (counted v.handles w.handles t.0.handles no_wrap))
            (λ r u d. moved v.handles w.handles r u t.0.handles d) (λ u x. x))
