-- ===== src/Sync/Largest.antt =====
-- `openRemote` of a file of exactly the largest size: it passes the test for that size, but `setSize`
-- then refuses it.
use mgridfs.Base.{
  ℕ, ◌+◌, ◌≤◌, ◌<◌, ◌≡◌, refl, ap, ◌∙◌, false, Option, none, some, List, arith, ltb, le→ltb, le→leb,
  lt→leb, length, ℤ, negsuc, neg, bytes,
}
use mgridfs.LocalFile.{LocalFile, Alloc, set_size, eio}
use mgridfs.Server.{GridFile, Reply, ok, thrown}
use mgridfs.Server.Laws.{ReadLaws}
use mgridfs.World.{Env, World, Action, return, attempt}
use mgridfs.World.Ends.{Ends, Ends-done, Ends-bind}
use mgridfs.World.Quiet.{Never}
use mgridfs.Sync.Lookup.{Sought, look_up, Replied, look_up-Replied}
use mgridfs.Sync.{fill_from, init_local_buffers, open_remote}

set_size_largest :
    (alloc : Alloc) (m : ℕ) (f : LocalFile)
    → f.size < m
    → f.capacity ≤ m
    → set_size alloc m m f ≡ (false, f)
unfolding set_size
set_size_largest alloc m f above room =
    rw (lt→leb m f.size above, le→ltb m f.capacity room, le→leb m m (omega arith)) refl

module _ (e : Env) (laws : ReadLaws e.server) (buf : List ℕ) (f : LocalFile)
    (largest : length buf ≡ e.options.max_mem_file_size)
    (small : f.size < e.options.max_mem_file_size)
    (room : f.capacity ≤ e.options.max_mem_file_size) where
  open e.server use {Db, connect, grid_fs, find_file}

  fill_largest :
      (alloc : Alloc) (g : GridFile) (w : World Db)
      → g.content_length ≡ e.options.max_mem_file_size
      → Ends (λ r v. r ≡ (neg eio, f)) Never (fill_from e alloc f g w)
  unfolding fill_from init_local_buffers
  fill_largest alloc g w h =
      let m = e.options.max_mem_file_size in
      let passed : ltb m m ≡ false = le→ltb m m (omega arith) in
      rw (h, passed, set_size_largest alloc m f small room) (Ends-done (neg eio, f) w refl)

  refused_lem :
      (alloc : Alloc) (r : Reply (Option GridFile)) (w : World Db)
      → ((found : Option GridFile) → r ≡ ok found → Sought e laws buf f.filename found w.db)
      → Ends {W = World Db} {A = ℤ × LocalFile}
          (λ r u. r ≡ (neg eio, f))
          Never
          ((elim r as (λ r. Action (World Db) (ℤ × LocalFile)) [
            | thrown ↦ return (negsuc 4, f)
            | ok none ↦ return (negsuc 8, f)
            | ok (some g) ↦ fill_from e alloc f g
          ])
            w)
  refused_lem alloc thrown w h = Ends-done (neg eio, f) w refl
  refused_lem alloc (ok none) w h =
      absurd (cc (laws.missing f.filename w.db (h none refl).1, (h none refl).0))
  refused_lem alloc (ok (some g)) w h =
      let sought = h (some g) refl in
      let (bytes, e1, doc) = laws.found f.filename w.db g sought.1 in
      let same : bytes ≡ buf = cc (e1, sought.0) in
      fill_largest alloc g w (doc.size ∙ ap length same ∙ largest)

  -- A file of exactly the largest size, which `openRemote` does not refuse as too large, is never
  -- loaded: the call always returns `-EIO`, and the file in memory is as it was. Before, its size is
  -- below the largest one, and its capacity not above it. The server meets the laws on reading.
  pub open_remote_largest :
      (w : World Db)
      → laws.store.stored w.db f.filename ≡ some buf
      → Ends (λ r u. r ≡ (neg eio, f)) Never (open_remote e f w)
  unfolding open_remote
  open_remote_largest w stored =
      let w1 : World Db = record w { time = w.time + 1 } in
      Ends-bind {P = Replied e laws buf f.filename w1} (attempt (look_up e laws buf f.filename)) _
        w1 (look_up-Replied e laws buf f.filename w1 stored)
        (λ r u t. refused_lem (e.moment w.time).chunks r u t.1)
