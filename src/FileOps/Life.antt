-- ===== src/FileOps/Life.antt =====
-- The first session of a file: it is created, written, saved, closed, opened again and read.
use mgridfs.Base.{
  ℕ, ◌+◌, ◌*◌, ◌%◌, ◌^◌, ◌<◌, ◌≡◌, refl, ◌≢◌, true, false, none, List, [], arith, length, pos, Name,
  is_empty,
}
use mgridfs.LocalFile.{new_file}
use mgridfs.LocalFile.Grow.{Plenty}
use mgridfs.LocalFile.Valid.{Limits}
use mgridfs.Server.Laws.{ReadLaws, Calm}
use mgridfs.World.{Env, World, Outcome, done, raised, fault, ◌>>=◌, ◌>>◌}
use mgridfs.World.Ends.{Ends, Ends-done, Ends-bind}
use mgridfs.World.Quiet.{Never}
use mgridfs.LocalFs.{find_by_name}
use mgridfs.LocalFs.Consistent.{Consistent, Leaves}
use mgridfs.LocalFs.Keeps.{Anything}
use mgridfs.Ops.{is_rdonly}
use mgridfs.DataOps.{mgridfs_read, mgridfs_write}
use mgridfs.FileOps.{mgridfs_create, mgridfs_open, mgridfs_flush, mgridfs_release}
use mgridfs.FileOps.Keeps.{mgridfs_create-Keeps}
use mgridfs.FileOps.Fresh.{Fresh, mgridfs_create-Fresh}
use mgridfs.FileOps.Session.{mgridfs_read-mgridfs_open}

Ends-Leaves :
    {e : Env} {A : Type 0} {P : A → World e.server.Db → Type 0} {Q : A → Type 0}
    (o : Outcome (World e.server.Db) A)
    → Ends P Never o
    → Leaves e Q Never o
    → Ends (λ a v. P a v × Consistent e v) Never o
Ends-Leaves (done a v) h k = Ends-done a v (h.holds, k.holds.0)
Ends-Leaves (raised v) h k = absurd h.holds
Ends-Leaves fault h k = absurd h.holds

-- Memory is at hand, whatever it is asked for.
pub record AtHand (e : Env) : Type 0 where
  pub objects : (t : ℕ) → (e.moment t).object ≡ true
  pub chunks : (t : ℕ) → Plenty (e.moment t).chunks
  pub buffers : (t : ℕ) → (e.moment t).buffer ≢ none

module _ (e : Env) (calm : Calm e.server) (laws : ReadLaws e.server) (memory : AtHand e)
    (limits : Limits e.options.max_mem_file_size e.options.mem_chunk_size) (file : Name)
    (nonempty : is_empty file ≡ false) (flags again : ℕ) (writing : is_rdonly flags ≡ false)
    (rdonly : is_rdonly again ≡ true) where
  -- On a server that answers everything and keeps to its laws, with memory at hand and the options in
  -- range: a file that is not in memory is created, bytes below the limit of a file are written at its
  -- beginning, and it is flushed, closed, opened for reading, and read. The read gives the bytes that
  -- were written. The state is consistent before, and the counter of the handles far from its wrap.
  pub mgridfs_read-mgridfs_create :
      (w : World e.server.Db) (mode fh : ℕ) (buf : List ℕ)
      → Consistent e w
      → find_by_name file w.files ≡ none
      → w.handles.next + 2 * length w.handles.table + 3 < 2 ^ 64
      → 0 < length buf
      → length buf < 2 ^ 31
      → length buf < e.options.max_mem_file_size
      → Ends
          (λ out u. out ≡ (pos (length buf), buf))
          Never
          ((do
            c ← mgridfs_create e file mode fh
            mgridfs_write e file buf 0 c.1
            mgridfs_flush e file flags c.1
            mgridfs_release e file c.1
            r ← mgridfs_open e file again
            mgridfs_read e file (length buf) 0 again r.1)
            w)
  unfolding new_file
  mgridfs_read-mgridfs_create w mode fh buf c absent no_wrap some_bytes small lt =
      Ends-bind {P = λ r v. Fresh e calm laws file w.handles r v × Consistent e v}
        (mgridfs_create e file mode fh) _ w
        (Ends-Leaves {Q = Anything} _
          (mgridfs_create-Fresh e calm laws file memory.objects nonempty w mode fh c.handles
            (omega (arith, no_wrap)) absent)
          ((mgridfs_create-Keeps e limits file mode fh).run w c))
        (λ r v t.
          let cs = e.options.mem_chunk_size in
          mgridfs_read-mgridfs_open e calm laws memory.buffers file r.1 flags again writing rdonly v
            file (new_file cs file) buf [] 0 t.1 t.0.open_now nonempty t.0.held refl some_bytes
            small (memory.chunks v.time) (omega (arith, lt)) (omega (arith, small)) (omega arith)
            (λ q. first q) (λ q. omega (arith, q, some_bytes)) t.0.stored
            (omega (arith, t.0.counter, no_wrap)))
    where
      first : 1 % e.options.mem_chunk_size ≢ 0
      first q = grind (arith, limits.two)
