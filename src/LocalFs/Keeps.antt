-- ===== src/LocalFs/Keeps.antt =====
-- The steps of the handlers that touch the files in memory and the open handles keep the state
-- consistent.
use mgridfs.Base.{
  ℕ, ◌≡◌, refl, ◌∙◌, ◌≢◌, ◌⊎◌, inl, inr, true, false, Option, none, some, [], ◌∷◌, arith,
  Bool-cases, Option-cases, All, ℤ, pos, Name, name_eq, name_eq→eq, name_eq_refl,
}
use mgridfs.LocalFile.{LocalFile, Alloc, set_size, new_file}
use mgridfs.LocalFile.Valid
use mgridfs.LocalFile.Size.{set_size-IsValid}
use mgridfs.LocalFile.Akin.{Akin, set_size-Akin}
use mgridfs.LocalFile.Valid.{Limits, new_file-IsValid}
use mgridfs.Handle.{FileHandle, unassign_handle}
use mgridfs.Handle.Wrap.{unassign_handle-IsValid}
use mgridfs.LocalFs.{
  Files, find_by_name, put, erase_file, insert_file, create_file, release_file, let_go,
}
use mgridfs.LocalFs.Map.{find-put, find-erase_file}
use mgridfs.LocalFs.Consistent.{
  Distinct, Held, Consistent, Keeps, Keeps-return, Keeps-bind, Keeps-draw, Keeps-world,
  Keeps-set_handles, Keeps-set_files, Keeps-if, Keeps-Ends,
}
use mgridfs.World.{Env, World}
use mgridfs.World.Ends.{Ends-weaken}
use mgridfs.Sync.{flush, destroy}
use mgridfs.Sync.Flush.{Code, success, failure, Flushed, flush-Flushed}
use mgridfs.Ops.{keep, unassign}

module _ (e : Env) where
  abbrev pub Entries : Files → Type 0
  Entries = All (λ p. Held e p.0 p.1)

  pub find-Held :
      (n : Name) (fs : Files) {f : LocalFile} → Entries fs → find_by_name n fs ≡ some f → Held e n f
  unfolding find_by_name
  find-Held n [] a h = absurd (ground arith)
  find-Held n ((m, g) ∷ fs) {f} a h = elim (Bool-cases (name_eq m n)) [
    | inl y ↦ let same : g ≡ f = ground (arith, y) in rw (← name_eq→eq m n y, ← same) a.0
    | inr k ↦ find-Held n fs a.1 (ground (arith, k))
  ]

  put-Entries :
      (n : Name) (f : LocalFile) (fs : Files) → Held e n f → Entries fs → Entries (put n f fs)
  unfolding put
  put-Entries n f [] h a = tt
  put-Entries n f ((m, g) ∷ fs) h a = elim (Bool-cases (name_eq m n)) [
    | inl y ↦ simp y (rw (name_eq→eq m n y) h, a.1)
    | inr k ↦ simp k (a.0, put-Entries n f fs h a.1)
  ]

  erase_file-Entries : (n : Name) (fs : Files) → Entries fs → Entries (erase_file n fs)
  unfolding erase_file
  erase_file-Entries n [] a = tt
  erase_file-Entries n ((m, g) ∷ fs) a = elim (Bool-cases (name_eq m n)) [
    | inl y ↦ rw y (erase_file-Entries n fs a.1)
    | inr k ↦ rw k (a.0, erase_file-Entries n fs a.1)
  ]

put-Distinct : (n : Name) (f : LocalFile) (fs : Files) → Distinct fs → Distinct (put n f fs)
unfolding put
put-Distinct n f [] d = tt
put-Distinct n f ((m, g) ∷ fs) d = elim (Bool-cases (name_eq m n)) [
  | inl y ↦ rw y d
  | inr k ↦ rw k (find-put n f fs m ∙ ground (arith, differs k, d.0), put-Distinct n f fs d.1)
]
  where
    differs : name_eq m n ≡ false → name_eq n m ≡ false
    differs k = elim (Bool-cases (name_eq n m)) [
      | inl y ↦
          let same : name_eq m n ≡ true = rw (name_eq→eq n m y) (name_eq_refl m) in
          absurd (ground (arith, same, k))
      | inr o ↦ o
    ]

erase_file-Distinct : (n : Name) (fs : Files) → Distinct fs → Distinct (erase_file n fs)
unfolding erase_file
erase_file-Distinct n [] d = tt
erase_file-Distinct n ((m, g) ∷ fs) d = elim (Bool-cases (name_eq m n)) [
  | inl y ↦ rw y (erase_file-Distinct n fs d.1)
  | inr k ↦ rw k (find-erase_file n fs m ∙ ground arith, erase_file-Distinct n fs d.1)
]

insert_file-Distinct :
    (n : Name) (f : LocalFile) (fs : Files) → Distinct fs → Distinct (insert_file n f fs)
unfolding insert_file
insert_file-Distinct n f fs d = elim (Option-cases (find_by_name n fs)) [
  | inl free ↦ rw free (free, d)
  | inr (g, taken) ↦ rw taken d
]

module _ (e : Env) where
  insert_file-Entries :
      (n : Name) (f : LocalFile) (fs : Files)
      → Held e n f
      → Entries e fs
      → Entries e (insert_file n f fs)
  unfolding insert_file
  insert_file-Entries n f fs h a = elim (Option-cases (find_by_name n fs)) [
    | inl free ↦ rw free (h, a)
    | inr (g, taken) ↦ rw taken a
  ]

new_file-Held :
    (e : Env) (n : Name)
    → Limits e.options.max_mem_file_size e.options.mem_chunk_size
    → Held e n (new_file e.options.mem_chunk_size n)
unfolding new_file
new_file-Held e n l = record { name = refl; chunk_size = refl; valid = new_file-IsValid n l }

pub clean-Held :
    (e : Env) (n : Name) (f : LocalFile) → Held e n f → Held e n (record f { dirty = false })
clean-Held e n f h = record {
  name = h.name;
  chunk_size = h.chunk_size;
  valid = record {
    limits = h.valid.limits;
    blocks = h.valid.blocks;
    counted = h.valid.counted;
    size_fits = h.valid.size_fits;
    bounded = h.valid.bounded;
  };
}

module _ (e : Env) (n : Name) {f f' : LocalFile} (h : Held e n f) where
  pub Akin-Held : Valid.IsValid e.options.max_mem_file_size f' → Akin f f' → Held e n f'
  Akin-Held v k = record {
    name = k.filename ∙ h.name;
    chunk_size = k.chunk_size ∙ h.chunk_size;
    valid = v;
  }

pub set_size-Held :
    (e : Env) (n : Name) (alloc : Alloc) (size : ℕ) (f : LocalFile)
    → Held e n f
    → Held e n (set_size alloc e.options.max_mem_file_size size f).1
set_size-Held e n alloc size f h =
    Akin-Held e n h (set_size-IsValid alloc size f h.valid) (set_size-Akin alloc size f h.valid)

abbrev pub Anything : {A : Type 0} → A → Type 0
Anything a = Unit {0}

abbrev pub HeldIf : (e : Env) → Name → Option LocalFile → Type 0
HeldIf e n none = Unit {0}
HeldIf e n (some f) = Held e n f

pub find-HeldIf :
    (e : Env) (n : Name) (w : World e.server.Db)
    → Consistent e w
    → HeldIf e n (find_by_name n w.files)
find-HeldIf e n w c = if_held (find_by_name n w.files) refl
  where
    if_held : (o : Option LocalFile) → find_by_name n w.files ≡ o → HeldIf e n o
    if_held none h = tt
    if_held (some f) h = find-Held e n w.files c.files h

Code-cases : {c : ℤ} → Code c → (c ≡ pos 0) ⊎ (c ≢ pos 0)
Code-cases success = inl refl
Code-cases (failure n) = inr (λ h. ground arith)

module _ {e : Env} {R : World e.server.Db → Type 0} where
  pub Keeps-put :
      (n : Name) (f : LocalFile) {A : Type 0} (code : A)
      → Held e n f
      → Keeps e Anything R (keep n (code, f))
  Keeps-put n f code h = record {
    run = λ w c.
        (Keeps-bind
            (Keeps-set_files (put n f w.files) (put-Entries e n f w.files h c.files)
              (put-Distinct n f w.files c.distinct))
            (λ t u. Keeps-return code tt)).run
          w c;
  }

  pub flush-Keeps :
      (n : Name) (f : LocalFile) → Held e n f → Keeps e (λ r. Held e n r.1) R (flush e f)
  flush-Keeps n f h = Keeps-Ends (λ w.
      Ends-weaken (flush e f w) (flush-Flushed e f w) (λ r v t. (t.0, clean r t.1)) (λ v t. t))
    where
      clean : (r : ℤ × LocalFile) → Flushed f r → Held e n r.1
      clean r t = elim (Code-cases t.code) [
        | inl y ↦ rw (t.clean y) (clean-Held e n f h)
        | inr o ↦ rw (t.kept o) h
      ]

  destroy-Keeps : (n : Name) (f : LocalFile) → Held e n f → Keeps e Anything R (destroy e f)
  unfolding destroy
  destroy-Keeps n f h =
      Keeps-if f.dirty (λ y. Keeps-bind (flush-Keeps n f h) (λ r q. Keeps-return tt tt))
        (λ o. Keeps-return tt tt)

  pub create_file-Keeps :
      (name : Name)
      → Limits e.options.max_mem_file_size e.options.mem_chunk_size
      → Keeps e (HeldIf e name) R (create_file e name)
  unfolding create_file
  create_file-Keeps name l = Keeps-bind Keeps-draw (λ m t. Keeps-bind Keeps-world (λ w c.
      Keeps-if m.object
        (λ y.
          Keeps-bind
            (Keeps-set_files (insert_file name (new_file e.options.mem_chunk_size name) w.files)
              (insert_file-Entries e name (new_file e.options.mem_chunk_size name) w.files
                (new_file-Held e name l) c.files)
              (insert_file-Distinct name (new_file e.options.mem_chunk_size name) w.files
                c.distinct))
            (λ u v.
              Keeps-return (some (new_file e.options.mem_chunk_size name))
                (new_file-Held e name l)))
        (λ o. Keeps-return none tt)))

  pub release_file-Keeps : (name : Name) → Keeps e Anything R (release_file e name)
  unfolding release_file
  release_file-Keeps name =
      Keeps-bind Keeps-world
        (λ w c. let_go-Keeps (find_by_name name w.files) (find-HeldIf e name w c))
    where
      let_go-Keeps : (o : Option LocalFile) → HeldIf e name o → Keeps e Anything R (let_go e name o)
      let_go-Keeps none h = Keeps-return true tt
      let_go-Keeps (some f) h = Keeps-bind Keeps-world (λ w c.
          Keeps-bind
            (Keeps-set_files (erase_file name w.files) (erase_file-Entries e name w.files c.files)
              (erase_file-Distinct name w.files c.distinct))
            (λ t u.
              Keeps-bind (flush-Keeps name f h)
                (λ r q. Keeps-bind (destroy-Keeps name r.1 q) (λ t' u'. Keeps-return true tt))))

  pub unassign-Keeps : (h : FileHandle) → Keeps e Anything R (unassign h)
  unassign-Keeps h = record {
    run = λ w c.
        (Keeps-set_handles (unassign_handle h w.handles).1
            (unassign_handle-IsValid h w.handles c.handles)).run
          w c;
  }
