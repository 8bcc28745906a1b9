-- ===== src/Sync/Flush.antt =====
-- The flush of a file in memory: its result, the file that it leaves, and what the server has then.
use mgridfs.Base.{
  ℕ, ◌<◌, ◌≡◌, refl, ap, ◌∙◌, ◌≢◌, inl, inr, true, false, ◌&&◌, Option, none, some, List, [], arith,
  ltb, ◌==◌, if◌then◌else◌, Bool-cases, take, ℤ, pos, negsuc, neg, Name,
}
use mgridfs.LocalFile.{LocalFile, Block, create_flush_buffer, enomem}
use mgridfs.LocalFile.Contents.{contents}
use mgridfs.LocalFile.Grow.{flat}
use mgridfs.LocalFile.Valid.{IsValid}
use mgridfs.LocalFile.Whole.{create_flush_buffer_lem}
use mgridfs.Server.{GridFile, Selector, ok, named, by_id}
use mgridfs.Server.Laws.{StoreLaws}
use mgridfs.World.{Env, Moment, World, ◌>>=◌, command, return}
use mgridfs.World.Ends.{Ends, Ends-weaken}
use mgridfs.World.Quiet.{
  Same, Quiet, Always, Never, Quiet-return, Quiet-ask, Quiet-command, Quiet-catching, Quiet-bind,
  Quiet-draw,
}
use mgridfs.Sync.{save, replace, flushed, flush_changes, flush_dirty, flush, or_nothing, is_null}

-- 0, or an error.
pub data Code : ℤ → Type 0 where
  success : Code (pos 0)
  failure : (n : ℕ) → Code (negsuc n)

-- The result of a flush, with the file that it leaves: clean if the result is 0, else as it was.
pub record Flushed (f : LocalFile) (r : ℤ × LocalFile) : Type 0 where
  pub code : Code r.0
  pub clean : r.0 ≡ pos 0 → r.1 ≡ record f { dirty = false }
  pub kept : r.0 ≢ pos 0 → r.1 ≡ f

Code-pos : {c : ℤ} → Code c → {n : ℕ} → c ≡ pos n → c ≡ pos 0
Code-pos success h = refl
Code-pos (failure k) h = absurd (ground arith)

empty_lem : (f : LocalFile) (b : Block) → (f.size == 0) ≡ true → create_flush_buffer b f ≡ none
unfolding create_flush_buffer
empty_lem f b h = rw h refl

contents-empty : (f : LocalFile) → (f.size == 0) ≡ true → [] ≡ contents f
contents-empty f h = let z : 0 ≡ f.size = ground arith in ap (λ k. take k (flat f)) z

filled :
    {m : ℕ} (f : LocalFile) (b : Block)
    → IsValid m f
    → 0 < f.size
    → (is_null (create_flush_buffer b f) && ltb 0 f.size) ≡ false
    → or_nothing (create_flush_buffer b f) ≡ contents f
unfolding create_flush_buffer
filled f none v p h = absurd (ground arith)
filled f (some fill) v p h = ap or_nothing (create_flush_buffer_lem f fill v p)

buffer_lem :
    {m : ℕ} (f : LocalFile) (b : Block)
    → IsValid m f
    → (is_null (create_flush_buffer b f) && ltb 0 f.size) ≡ false
    → or_nothing (create_flush_buffer b f) ≡ contents f
buffer_lem {m} f b v h = elim (Bool-cases (f.size == 0)) [
  | inl y ↦ ap or_nothing (empty_lem f b y) ∙ contents-empty f y
  | inr n ↦ filled f b v (ground arith) h
]

module _ (e : Env) (Saved : List ℕ → Name → e.server.Db → Type 0) where
  open e.server use {Db, Oid, connect, grid_fs, find_file, store_file, remove_file, update}

  -- What makes `Saved` hold, and keeps it.
  pub record Saves : Type 0 where
    pub store :
        (buf : List ℕ) (n : Name) (db : Db) (id : Oid)
        → (store_file buf n db).0 ≡ ok (some id)
        → Saved buf n (store_file buf n db).1
    pub keep :
        (now : ℕ) (g : GridFile) (sel : Selector Oid) (buf : List ℕ) (n : Name) (db : Db)
        → Saved buf n db
        → Saved buf n (update sel (flush_changes e now n g) db).1

  abbrev pub Outcomes : List ℕ → Name → ℤ → Db → Type 0
  Outcomes buf n code db = Code code × (code ≡ pos 0 → Saved buf n db)

  failed :
      (code : ℕ) (buf : List ℕ) (n : Name) {Pre R : Db → Type 0}
      → Quiet Pre (Outcomes buf n) R (return (negsuc code))
  failed code buf n = Quiet-return (negsuc code) (λ db p. (failure code, λ h. ground arith))

  module _ (s : Saves) (now : ℕ) (buf : List ℕ) (name : Name) where
    save-Quiet :
        {R : Db → Type 0} (g : GridFile)
        → Quiet Always (Outcomes buf name) R (save e now buf name g)
    unfolding save
    save-Quiet {R} g =
        Quiet-catching {S = Always}
          (Quiet-bind {P = λ a. Always} (Quiet-command grid_fs (λ db a p h. tt) (λ db p. tt)) (λ t.
            Quiet-bind {P = λ oid db. (id : Oid) → oid ≡ some id → Saved buf name db}
              (Quiet-command (store_file buf name)
                (λ db a p h id q. s.store buf name db id (h ∙ ap ok q)) (λ db p. tt))
              (λ oid. stored_lem oid)))
          (failed 4 buf name)
      where
        stored_lem :
            (oid : Option Oid)
            → Quiet
                (λ db. (id : Oid) → oid ≡ some id → Saved buf name db)
                (Outcomes buf name)
                Always
                (elim oid [
                  | none ↦ return (negsuc 8)
                  | some id ↦ command (update (by_id id) (flush_changes e now name g)) >>= λ n.
                      return (pos 0)
                ])
        stored_lem none = failed 8 buf name
        stored_lem (some id) =
            Quiet-bind {P = λ n db. Saved buf name db}
              (Quiet-command (update (by_id id) (flush_changes e now name g))
                (λ db a p h. s.keep now g (by_id id) buf name db (p id refl)) (λ db p. tt))
              (λ n. Quiet-return (pos 0) (λ db p. (success, λ h. p)))

    replace-Quiet : {R : Db → Type 0} → Quiet Always (Outcomes buf name) R (replace e now buf name)
    unfolding replace
    replace-Quiet {R} =
        Quiet-catching {S = Always}
          (Quiet-bind {P = λ a. Always} (Quiet-command connect (λ db a p h. tt) (λ db p. tt)) (λ t.
            Quiet-bind {P = λ a. Always} (Quiet-command grid_fs (λ db a p h. tt) (λ db p. tt))
              (λ t'.
                Quiet-bind {P = λ a. Always}
                  (Quiet-ask (find_file (named name)) (λ db a p h. tt) (λ db p. tt))
                  (λ found. found_lem found))))
          (failed 4 buf name)
      where
        found_lem :
            (found : Option GridFile)
            → Quiet Always (Outcomes buf name) Always (elim found [
              | none ↦ return (negsuc 8)
              | some g ↦ command (remove_file name) >>= λ t. save e now buf name g
            ])
        found_lem none = failed 8 buf name
        found_lem (some g) =
            Quiet-bind {P = λ a. Always}
              (Quiet-command (remove_file name) (λ db a p h. tt) (λ db p. tt)) (λ t. save-Quiet g)

  abbrev pub Saving : LocalFile → (Db → Type 0) → ℤ × LocalFile → Db → Type 0
  Saving f After r db = Flushed f r × (r.0 ≡ pos 0 → f.dirty ≡ true → After db)

  module _ (s : Saves) (f : LocalFile) (After : Db → Type 0)
      (enough : (b : Block) (db : Db)
        → (is_null (create_flush_buffer b f) && ltb 0 f.size) ≡ false
        → Saved (or_nothing (create_flush_buffer b f)) f.filename db
        → After db) where
    flushed_lem :
        (buf : List ℕ) (code : ℤ) {R : Db → Type 0}
        → ((db : Db) → Saved buf f.filename db → After db)
        → Quiet (Outcomes buf f.filename code) (Saving f After) R (return (flushed f code))
    flushed_lem buf (pos n) h = Quiet-return (flushed f (pos n)) (λ db p. (
      record { code = p.0; clean = λ q. refl; kept = λ q. absurd (q (Code-pos p.0 refl)) },
      λ q d. h db (p.1 q),
    ))
    flushed_lem buf (negsuc n) h = Quiet-return (flushed f (negsuc n)) (λ db p. (
      record { code = failure n; clean = λ q. absurd (ground arith); kept = λ q. refl },
      λ q. absurd (ground arith),
    ))

    replaced :
        (m : Moment)
        → Quiet Always (Saving f After) Never (
            let buffer = create_flush_buffer m.buffer f in
            if is_null buffer && ltb 0 f.size
            then return (neg enomem, f)
            else replace e m.now (or_nothing buffer) f.filename >>= λ code. return (flushed f code))
    replaced m = elim (Bool-cases (is_null (create_flush_buffer m.buffer f) && ltb 0 f.size)) [
      | inl y ↦ simp y (
          Quiet-return (negsuc 11, f)
            (λ db p. (
              record { code = failure 11; clean = λ q. absurd (ground arith); kept = λ q. refl },
              λ q. absurd (ground arith),
            )))
      | inr n ↦ simp n (
          Quiet-bind
            (replace-Quiet s m.now (or_nothing (create_flush_buffer m.buffer f)) f.filename)
            (λ code.
              flushed_lem (or_nothing (create_flush_buffer m.buffer f)) code
                (λ db p. enough m.buffer db n p)))
    ]

    flush_dirty-Quiet : Quiet Always (Saving f After) Never (flush_dirty e f)
    unfolding flush_dirty
    flush_dirty-Quiet = Quiet-bind (Quiet-draw e) replaced

    pub flush-Quiet : Quiet Always (Saving f After) Never (flush e f)
    unfolding flush
    flush-Quiet = elim (Bool-cases f.dirty) [
      | inl y ↦ simp y (flush_dirty-Quiet)
      | inr n ↦ simp n (
          Quiet-return (pos 0, f)
            (λ db p. (
              record {
                code = success;
                clean = λ q. ap (λ d. record f { dirty = d }) n;
                kept = λ q. refl;
              },
              λ q y. absurd (ground arith),
            )))
    ]

abbrev NoClaim : {Db : Type 0} → List ℕ → Name → Db → Type 0
NoClaim buf n db = Unit {0}

module _ (e : Env) (f : LocalFile) where
  -- A flush always returns, and changes neither the open handles nor the map of the files. With the
  -- result 0 the file is clean and otherwise as before; any other result is an error, and the file,
  -- its dirty mark included, is as before.
  pub flush-Flushed :
      (w : World e.server.Db) → Ends (λ r v. Same w v × Flushed f r) Never (flush e f w)
  flush-Flushed w =
      Ends-weaken (flush e f w)
        ((flush-Quiet e NoClaim
            (record { store = λ buf n db id h. tt; keep = λ now g sel buf n db h. tt }) f
            (λ db. Unit {0}) (λ b db h p. tt)).run
          w tt)
        (λ r v t. (t.0, t.1.0)) (λ v t. t.1)

  -- What the server has after a flush with the result 0 of a file that was dirty: the bytes of the
  -- file, under its name. The server keeps what it stores.
  pub flush_saves :
      {m : ℕ} (laws : StoreLaws e.server) (w : World e.server.Db)
      → IsValid m f
      → f.dirty ≡ true
      → Ends
          (λ r v. r.0 ≡ pos 0 → laws.stored v.db f.filename ≡ some (contents f))
          Never
          (flush e f w)
  flush_saves {m} laws w valid d =
      Ends-weaken (flush e f w)
        ((flush-Quiet e (λ buf n db. laws.stored db n ≡ some buf)
            (record {
              store = λ buf n db id h. laws.store_saves buf n db id h;
              keep = λ now g sel buf n db h.
                  laws.update_keeps sel (flush_changes e now n g) db n refl ∙ h;
            })
            f (λ db. laws.stored db f.filename ≡ some (contents f))
            (λ b db h p. p ∙ ap some (buffer_lem f b valid h))).run
          w tt)
        (λ r v t q. t.1.1 q d) (λ v t. t.1)
