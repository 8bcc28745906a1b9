-- ===== src/Sync/Answered.antt =====
-- Saving and loading on a server that answers everything, with memory at hand: they succeed.
use mgridfs.Base.{
  ℕ, ◌+◌, ◌≡◌, refl, ap₂, ◌∙◌, ◌≢◌, true, false, ◌&&◌, Option, none, some, List, arith, ltb, ℤ, pos,
  neg, Name,
}
use mgridfs.LocalFile.{LocalFile, Block, create_flush_buffer}
use mgridfs.LocalFile.Valid.{IsValid}
use mgridfs.LocalFile.Contents.{contents}
use mgridfs.Server.{GridFile, named, by_id, ok}
use mgridfs.Server.Laws.{ReadLaws, Calm}
use mgridfs.World.{Env, World, ◌>>=◌, return, command}
use mgridfs.World.Ends.{Ends, Ends-done, Ends-bind, Ends-both, Ends-weaken, Ends-if}
use mgridfs.World.Quiet.{
  Never, Always, Quiet, Quiet-return, Quiet-bind, Quiet-catching, Quiet-ask_ok, Quiet-command_ok,
}
use mgridfs.Sync.{save, replace, flush_dirty, flush, is_null, or_nothing, flush_changes, flushed}
use mgridfs.Sync.Flush.{flush-Flushed, flush_saves}

has_room :
    (f : LocalFile) (b : Block)
    → b ≢ none
    → (is_null (create_flush_buffer b f) && ltb 0 f.size) ≡ false
unfolding create_flush_buffer
has_room f none h = absurd (h refl)
has_room f (some fill) h = ground arith

abbrev Zero : {Db : Type 0} → ℤ → Db → Type 0
Zero code db = code ≡ pos 0

module _ (e : Env) (calm : Calm e.server) where
  open e.server use {Db, Oid, connect, grid_fs, find_file, store_file, remove_file, update}

  session : {Pre : Db → Type 0} {R : Db → Type 0} → Quiet Pre (λ a db. Unit {0}) R (command grid_fs)
  session = Quiet-command_ok grid_fs (λ db p. (tt, calm.grid_fs db, tt))

  save-Zero :
      {R : Db → Type 0} (now : ℕ) (buf : List ℕ) (name : Name) (g : GridFile)
      → Quiet Always Zero R (save e now buf name g)
  unfolding save
  save-Zero now buf name g =
      Quiet-catching {S = Never}
        (Quiet-bind {P = λ a. Always} session (λ a.
          Quiet-bind {P = λ o db. (id : Oid) × (o ≡ some id)}
            (Quiet-command_ok (store_file buf name) (λ db p.
              let (id, stored) = calm.store_file buf name db in (some id, stored, (id, refl))))
            (λ o. completed o)))
        (Quiet-return (neg 5) (λ db p. absurd p))
    where
      completed :
          (o : Option Oid)
          → Quiet {Db = Db} {A = ℤ}
              (λ db. (id : Oid) × (o ≡ some id))
              Zero
              Never
              (elim o [
                | none ↦ return (neg 9)
                | some id ↦
                    command (update (by_id id) (flush_changes e now name g)) >>= λ n. return (pos 0)
              ])
      completed none = Quiet-return (neg 9) (λ db p. absurd (cc p.1))
      completed (some id) =
          Quiet-bind {P = λ n. Always}
            (Quiet-command_ok (update (by_id id) (flush_changes e now name g)) (λ db p.
              let (n, met) = calm.update (by_id id) (flush_changes e now name g) db in
              (n, met, tt)))
            (λ n. Quiet-return (pos 0) (λ db p. refl))

  module _ (laws : ReadLaws e.server) where
    replace-Zero :
        {R : Db → Type 0} (now : ℕ) (buf old : List ℕ) (name : Name)
        → Quiet (λ db. laws.store.stored db name ≡ some old) Zero R (replace e now buf name)
    unfolding replace
    replace-Zero now buf old name =
        Quiet-catching {S = Never}
          (Quiet-bind {P = λ a db. laws.store.stored db name ≡ some old}
            (Quiet-command_ok connect
              (λ db p. (tt, calm.connect db, laws.store.connect_keeps db name ∙ p)))
            (λ a.
              Quiet-bind {P = λ b db. laws.store.stored db name ≡ some old}
                (Quiet-command_ok grid_fs
                  (λ db p. (tt, calm.grid_fs db, laws.store.grid_fs_keeps db name ∙ p)))
                (λ b.
                  Quiet-bind {P = λ o db. (g : GridFile) × (o ≡ some g)}
                    (Quiet-ask_ok (find_file (named name)) (λ db p.
                      let (o, found) = calm.find_file (named name) db in
                      (o, found, there db o p found)))
                    (λ o. saved o))))
          (Quiet-return (neg 5) (λ db p. absurd p))
      where
        there :
            (db : Db) (o : Option GridFile)
            → laws.store.stored db name ≡ some old
            → find_file (named name) db ≡ ok o
            → (g : GridFile) × (o ≡ some g)
        there db none p q = absurd (cc (laws.missing name db q, p))
        there db (some g) p q = (g, refl)

        saved :
            (o : Option GridFile)
            → Quiet {Db = Db} {A = ℤ}
                (λ db. (g : GridFile) × (o ≡ some g))
                Zero
                Never
                (elim o [
                  | none ↦ return (neg 9)
                  | some g ↦ command (remove_file name) >>= λ t. save e now buf name g
                ])
        saved none = Quiet-return (neg 9) (λ db p. absurd (cc p.1))
        saved (some g) =
            Quiet-bind {P = λ t. Always}
              (Quiet-command_ok (remove_file name) (λ db p. (tt, calm.remove_file name db, tt)))
              (λ t. save-Zero now buf name g)

    module _ (room : (t : ℕ) → (e.moment t).buffer ≢ none) where
      flush-Zero :
          (f : LocalFile) (old : List ℕ) (w : World Db)
          → f.dirty ≡ true
          → laws.store.stored w.db f.filename ≡ some old
          → Ends (λ r v. r.0 ≡ pos 0) Never (flush e f w)
      unfolding flush flush_dirty
      flush-Zero f old w dirty there =
          let b = (e.moment w.time).buffer in
          let v : World Db = record w { time = w.time + 1 } in
          Ends-if f.dirty _ _ w
            (λ y.
              Ends-if (is_null (create_flush_buffer b f) && ltb 0 f.size) _ _ v
                (λ full. absurd (ground (arith, full, has_room f b (room w.time))))
                (λ fits.
                  Ends-bind {P = λ code u. code ≡ pos 0}
                    (replace e (e.moment w.time).now (or_nothing (create_flush_buffer b f))
                      f.filename)
                    _ v
                    (Ends-weaken _
                      ((replace-Zero (e.moment w.time).now (or_nothing (create_flush_buffer b f))
                          old f.filename).run
                        v there)
                      (λ code u t. t.1) (λ u t. absurd t.1))
                    (λ code u z. Ends-done (flushed f code) u (rw z refl))))
            (λ n. absurd (ground (arith, n, dirty)))

      -- On a server that answers everything and keeps what it stores, a flush of a changed file that
      -- the server has, with memory at hand, ends with the result 0; the server has the bytes of the
      -- file then, and the file is clean and otherwise as before.
      pub flush_succeeds :
          {m : ℕ} (f : LocalFile) (old : List ℕ) (w : World Db)
          → IsValid m f
          → f.dirty ≡ true
          → laws.store.stored w.db f.filename ≡ some old
          → Ends
              (λ r v.
                (r ≡ (pos 0, record f { dirty = false }))
                × (laws.store.stored v.db f.filename ≡ some (contents f)))
              Never
              (flush e f w)
      flush_succeeds f old w valid dirty there =
          Ends-weaken _
            (Ends-both _ (flush-Zero f old w dirty there)
              (Ends-both _ (flush-Flushed e f w) (flush_saves e f laws.store w valid dirty)))
            (λ r v t. (ap₂ (λ (a : ℤ) (b : LocalFile). (a, b)) t.0 (t.1.0.1.clean t.0), t.1.1 t.0))
            (λ v t. t)
