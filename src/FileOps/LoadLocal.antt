-- ===== src/FileOps/LoadLocal.antt =====
-- `mgridfs_open` for writing, from the handle on: the new file is made and filled from the server.
use mgridfs.Base.{
  ℕ, ◌+◌, ◌*◌, ◌%◌, ◌≡◌, refl, ap, ◌∙◌, ◌≢◌, ◌⊎◌, inl, inr, false, not, Option, none, some, List,
  arith, if◌then◌else◌, ℤ, pos, negsuc, neg, Name, name_eq_refl,
}
use mgridfs.LocalFile.{LocalFile, new_file}
use mgridfs.LocalFile.Valid.{Limits, new_file-IsValid}
use mgridfs.LocalFile.Valid
use mgridfs.LocalFile.Contents.{contents}
use mgridfs.Server.Laws.{ReadLaws}
use mgridfs.World.Quiet.{Same, Never}
use mgridfs.LocalFs.{Files, find_by_name, put, insert_file, create_file, release_file}
use mgridfs.LocalFs.Map.{find-put, find-insert_file}
use mgridfs.Sync.{open_remote}
use mgridfs.Sync.Flush.{Code, success, failure}
use mgridfs.Sync.Opening.{Opens, open_remote-Opens}
use mgridfs.Sync.Loading.{Loaded}
use mgridfs.FileOps.Release.{release_file-Gone}
use mgridfs.Ops.{keep, o_trunc}
use mgridfs.FileOps.{is_zero, open_local, truncate_opened}
use mgridfs.Server.{GridFile, named, ok}
use mgridfs.World.{Action, Env, World, ◌>>=◌, ◌>>◌, return}
use mgridfs.World.Ends.{Ends, Ends-done, Ends-bind, Ends-if}

-- A file in memory with these bytes, which need not be saved.
pub record InMemory (m : ℕ) (file : Name) (buf : List ℕ) (fs : Files) : Type 0 where
  pub local : LocalFile
  pub found : find_by_name file fs ≡ some local
  pub content : contents local ≡ buf
  pub clean : local.dirty ≡ false
  pub valid : Valid.IsValid m local

module _ (e : Env) (laws : ReadLaws e.server) (file : Name) (buf : List ℕ)
    (l : Limits e.options.max_mem_file_size e.options.mem_chunk_size)
    (aligned : (g : GridFile) (db : e.server.Db) (i : ℕ)
      → e.server.find_file (named file) db ≡ ok (some g)
      → (i * g.chunk_size + 1) % e.options.mem_chunk_size ≢ 0) where
  open e.server use {Db, connect, grid_fs, find_file}

  abbrev pub m : ℕ
  m = e.options.max_mem_file_size

  abbrev fresh : LocalFile
  fresh = new_file e.options.mem_chunk_size file

  -- The new file stands in the map, and the database is untouched.
  record Made (w v : World Db) (o : Option LocalFile) : Type 0 where
    handles : v.handles ≡ w.handles
    db : v.db ≡ w.db
    held : (f : LocalFile) → o ≡ some f → (f ≡ fresh) × (find_by_name file v.files ≡ some f)

  create_file-Made :
      (w : World Db)
      → find_by_name file w.files ≡ none
      → Ends (λ o v. Made w v o) Never (create_file e file w)
  unfolding create_file
  create_file-Made w absent =
      let w1 : World Db = record w { time = w.time + 1 } in
      Ends-if (e.moment w.time).object _ _ w1
        (λ y.
          Ends-done (some fresh) (record w1 { files = insert_file file fresh w.files })
            (record {
              handles = refl;
              db = refl;
              held = λ f q.
                  let same : fresh ≡ f = cc q in
                  rw (← same) (
                    refl,
                    find-insert_file file fresh w.files file absent ∙ rw (name_eq_refl file) refl,
                  );
            }))
        (λ n. Ends-done none w1 (record { handles = refl; db = refl; held = λ f q. absurd (cc q) }))

  -- How `open_local` ends: loaded, or with an error.
  abbrev pub LocalEnd : World Db → ℤ → World Db → Type 0
  LocalEnd w code v =
      (v.handles ≡ w.handles)
      × (((code ≡ pos 0) × InMemory m file buf v.files) ⊎ ((n : ℕ) × (code ≡ negsuc n)))

  -- The load into the new file, which is then put back into the map.
  load_lem :
      (f : LocalFile) (w : World Db)
      → f ≡ fresh
      → find_by_name file w.files ≡ some f
      → laws.store.stored w.db file ≡ some buf
      → Ends
          (λ code u.
            (u.handles ≡ w.handles) × Code code × (code ≡ pos 0 → InMemory m file buf u.files))
          Never
          ((open_remote e f >>= keep file) w)
  unfolding new_file
  load_lem f w new there stored = rw new (
      Ends-bind {P = λ r u. Same w u × Opens m buf fresh r} (open_remote e fresh) (keep file) w
        (open_remote-Opens e laws buf fresh (new_file-IsValid file l) refl aligned w stored)
        (λ r u t.
          Ends-done r.0 (record u { files = put file r.1 u.files })
            (t.0.handles, t.1.code, λ z. kept r u t.0.files (t.1.loaded z).0 (t.1.loaded z).1)))
    where
      kept :
          (r : ℤ × LocalFile) (u : World Db)
          → u.files ≡ w.files
          → Loaded m buf fresh r.1
          → r.1.dirty ≡ false
          → InMemory m file buf (put file r.1 u.files)
      kept r u same loaded clean = record {
        local = r.1;
        found = find-put file r.1 u.files file ∙ rw (name_eq_refl file, same, there) refl;
        content = loaded.content;
        clean = clean;
        valid = loaded.valid;
      }

  is_zero-failed : {code : ℤ} → Code code → not (is_zero code) ≡ false → code ≡ pos 0
  is_zero-failed success h = refl
  is_zero-failed (failure n) h = absurd (ground arith)

  module _ (flags : ℕ) (whole : o_trunc flags ≡ false) where
    -- A file that is not in memory, and that the server has.
    pub open_local-Ends :
        (w : World Db)
        → find_by_name file w.files ≡ none
        → laws.store.stored w.db file ≡ some buf
        → Ends (LocalEnd w) Never (open_local e file flags w)
    unfolding open_local
    open_local-Ends w absent stored =
        Ends-bind {P = λ o v. Made w v o} (create_file e file) _ w (create_file-Made w absent)
          (λ o v made. after o v made)
      where
        after :
            (o : Option LocalFile) (v : World Db)
            → Made w v o
            → Ends {W = World Db} {A = ℤ} (LocalEnd w) Never (
                (elim o as (λ o. Action (World Db) ℤ) [
                  | none ↦ return (neg 12)
                  | some f ↦
                      ((open_remote e f >>= keep file) >>= λ code.
                      if not (is_zero code)
                      then (release_file e file >> return (neg 5))
                      else if o_trunc flags
                      then truncate_opened e file
                      else return (pos 0))
                ])
                  v)
        after none v made = Ends-done (neg 12) v (made.handles, inr (11, refl))
        after (some f) v made =
            let held = made.held f refl in
            Ends-bind (open_remote e f >>= keep file) _ v
              (load_lem f v held.0 held.1 (ap (λ db. laws.store.stored db file) made.db ∙ stored))
              (λ code u t.
                Ends-if (not (is_zero code)) _ _ u
                  (λ y.
                    Ends-bind (release_file e file) _ u (release_file-Gone e file u) (λ b x gone.
                      Ends-done (neg 5) x
                        (gone.elsewhere.handles ∙ t.0 ∙ made.handles, inr (4, refl))))
                  (λ n. rw whole (
                    Ends-done (pos 0) u
                      (t.0 ∙ made.handles, inl (refl, t.2 (is_zero-failed t.1 n))))))
