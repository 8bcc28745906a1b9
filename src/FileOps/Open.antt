-- ===== src/FileOps/Open.antt =====
-- `mgridfs_open` for reading, and the handle that it leaves.
use mgridfs.Base.{
  ℕ, ◌+◌, ◌^◌, ◌<◌, ◌≡◌, refl, ap, ◌∙◌, inl, inr, true, false, Option, none, some, ◌∷◌, arith, ◌==◌,
  if◌then◌else◌, Bool-cases, length, ℤ, pos, negsuc, neg, Name, is_empty, name_eq_refl,
}
use mgridfs.LocalFile.{LocalFile, eio}
use mgridfs.Handle.{
  Table, Handles, FileHandle, left_find, assign_handle, file_handle, unassign_handle,
}
use mgridfs.Handle.Table.{Distinct, without, left_find-erase}
use mgridfs.Handle.Assign.{IsValid, Assigned, assign_handle-Assigned}
use mgridfs.Server.{GridFile, named}
use mgridfs.World.{done, Env, World, ◌>>◌, return, ask, command}
use mgridfs.World.Ends.{Ends, Ends-done, Ends-bind, Ends-ask, Ends-command, Ends-catching}
use mgridfs.World.Quiet.{Never}
use mgridfs.LocalFs.{find_by_name}
use mgridfs.Ops.{unassign, is_rdonly, o_creat}
use mgridfs.FileOps.{assign, open_cases, open_found, open_assigned, mgridfs_open}

-- The result of an open: a new handle of that file, or an error with no handle taken.
pub data Opened (file : Name) (st : Handles) (code : ℤ) (fh : ℕ) (after : Handles) : Type 0 where
  opened :
      code ≡ pos 0
      → left_find fh st.table ≡ none
      → left_find fh after.table ≡ some file
      → ((j : ℕ) → (j == fh) ≡ false → left_find j after.table ≡ left_find j st.table)
      → Opened file st code fh after
  refused :
      (n : ℕ)
      → code ≡ negsuc n
      → ((j : ℕ) → left_find j after.table ≡ left_find j st.table)
      → Opened file st code fh after

pub find_new : (k : ℕ) (n : Name) (t : Table) → left_find k ((k, n) ∷ t) ≡ some n
unfolding left_find
find_new k n t = ground arith

find_old :
    (k : ℕ) (n : Name) (t : Table) (j : ℕ)
    → (j == k) ≡ false
    → left_find j ((k, n) ∷ t) ≡ left_find j t
unfolding left_find
find_old k n t j h = ground arith

-- A handle taken and given back.
find_again :
    (k : ℕ) (n : Name) (t : Table) (j : ℕ)
    → left_find k t ≡ none
    → (if j == k then without n (left_find j ((k, n) ∷ t)) else left_find j ((k, n) ∷ t))
      ≡ left_find j t
unfolding left_find
find_again k n t j h = elim (Bool-cases (j == k)) [
  | inl y ↦ let same : j ≡ k = ground arith in ground (arith, name_eq_refl n)
  | inr ne ↦ ground arith
]

module _ (file : Name) (st : Handles)
    (a : Assigned
      (record { filename = file; fh = 0 })
      st
      (assign_handle (record { filename = file; fh = 0 }) st)) where
  -- The handle that the call has taken.
  abbrev pub taken : FileHandle
  taken = record { filename = file; fh = a.fh }

  pub table_lem : (hs : Handles) → hs ≡ a.after → hs.table ≡ (a.fh, file) ∷ st.table
  table_lem hs h = ap (λ k. k.table) h ∙ a.table

  pub taken-Opened : (hs : Handles) → hs ≡ a.after → Opened file st (pos 0) a.fh hs
  taken-Opened hs h =
      opened refl a.fresh (ap (left_find a.fh) (table_lem hs h) ∙ find_new a.fh file st.table)
        (λ j ne. ap (left_find j) (table_lem hs h) ∙ find_old a.fh file st.table j ne)

  pub unassign_taken :
      (hs : Handles)
      → hs ≡ a.after
      → (j : ℕ) → left_find j (unassign_handle taken hs).1.table ≡ left_find j st.table
  unfolding unassign_handle
  unassign_taken hs h j =
      let z : (a.fh == 0) ≡ false = ground (arith, a.nonzero) in
      let distinct : Distinct ((a.fh, file) ∷ st.table) = rw a.table at a.valid.distinct in
      rw (z, table_lem hs h)
        (left_find-erase a.fh file ((a.fh, file) ∷ st.table) j distinct
          ∙ find_again a.fh file st.table j a.fresh)

module _ (e : Env) (file : Name) (flags : ℕ) (rdonly : is_rdonly flags ≡ true)
    (old : o_creat flags ≡ false) (st : Handles)
    (a : Assigned
      (record { filename = file; fh = 0 })
      st
      (assign_handle (record { filename = file; fh = 0 }) st)) where
  open e.server use {connect, grid_fs, find_file}

  abbrev Result : ℤ × ℕ → World e.server.Db → Type 0
  Result r v = Opened file st r.0 r.1 v.handles

  abbrev Holding : World e.server.Db → Type 0
  Holding v = v.handles ≡ a.after

  give_back :
      {R : World e.server.Db → Type 0} (n : ℕ) (w : World e.server.Db)
      → Holding w
      → Ends Result R ((unassign (taken file st a) >> return (negsuc n, a.fh)) w)
  give_back {R} n w h =
      Ends-done (negsuc n, a.fh)
        (record w { handles = (unassign_handle (taken file st a) w.handles).1 })
        (refused n refl (unassign_taken file st a w.handles h))

  open_cases-Opened :
      (found : Option GridFile) (w : World e.server.Db)
      → Holding w
      → Ends Result Holding (open_cases e file flags (taken file st a) found w)
  unfolding open_cases
  open_cases-Opened none w h = rw old (give_back 1 w h)
  open_cases-Opened (some g) w h =
      rw rdonly (Ends-done (pos 0, a.fh) w (taken-Opened file st a w.handles h))

  open_found-Opened :
      (w : World e.server.Db)
      → Holding w
      → Ends Result Holding (open_found e file flags (taken file st a) w)
  unfolding open_found
  open_found-Opened w h =
      Ends-bind {P = λ t v. Holding v} (command connect) _ w (Ends-command connect w (λ t q. h) h)
        (λ t v k.
          Ends-bind {P = λ t' u. Holding u} (command grid_fs) _ v
            (Ends-command grid_fs v (λ t' q. k) k)
            (λ t' u l.
              Ends-bind {P = λ found x. Holding x} (ask (find_file (named file))) _ u
                (Ends-ask (find_file (named file)) u (λ found q. l) l)
                (λ found x m. open_cases-Opened found x m)))

  open_assigned-Opened :
      (found : Option LocalFile) (w : World e.server.Db)
      → Holding w
      → Ends Result Never (open_assigned e file flags (taken file st a) found w)
  unfolding open_assigned
  open_assigned-Opened (some f) w h = Ends-done (pos 0, a.fh) w (taken-Opened file st a w.handles h)
  open_assigned-Opened none w h =
      Ends-catching {S = Holding} (open_found e file flags (taken file st a))
        (unassign (taken file st a) >> return (neg eio, a.fh)) w (open_found-Opened w h)
        (λ v k. give_back 4 v k)

pub assign_lem :
    (e : Env) (w : World e.server.Db) (file : Name)
    (a : Assigned
      (record { filename = file; fh = 0 })
      w.handles
      (assign_handle (record { filename = file; fh = 0 }) w.handles))
    → assign e file w ≡ done (a.fh, taken file w.handles a) (record w { handles = a.after })
unfolding assign file_handle
assign_lem e w file a = rw a.returned refl

-- An open for reading, without `O_CREAT`, always returns: with 0 and a new handle that stands for the
-- file, all other handles as before, or with an error and all handles as before. The path is not
-- empty, and the counter of the handles is far from its wrap.
pub mgridfs_open-Opened :
    (e : Env) (w : World e.server.Db) (file : Name) (flags : ℕ)
    → IsValid w.handles
    → is_empty file ≡ false
    → w.handles.next + length w.handles.table + 1 < 2 ^ 64
    → is_rdonly flags ≡ true
    → o_creat flags ≡ false
    → Ends (λ r v. Opened file w.handles r.0 r.1 v.handles) Never (mgridfs_open e file flags w)
unfolding mgridfs_open assign_handle file_handle
mgridfs_open-Opened e w file flags valid nonempty no_wrap rdonly old =
    let a =
      assign_handle-Assigned (record { filename = file; fh = 0 }) w.handles valid nonempty
        no_wrap in
    let v : World e.server.Db = record w { handles = a.after } in
    let nonzero : (a.fh == 0) ≡ false = ground (arith, a.nonzero) in
    rw (assign_lem e w file a, nonzero)
      (open_assigned-Opened e file flags rdonly old w.handles a (find_by_name file w.files) v refl)
