-- ===== src/Sync/Opening.antt =====
-- `openRemote` of a new file in memory: its result, and the bytes of the file then.
use mgridfs.Base.{
  ℕ, ◌+◌, ◌*◌, ◌%◌, ◌^◌, ◌≤◌, ◌<◌, min, ◌≡◌, refl, ◌∙◌, ◌≢◌, inl, inr, true, false, Option, none,
  some, List, arith, dec_le, ltb, length, ℤ, pos, negsuc, bytes,
}
use mgridfs.LocalFile.{LocalFile, Alloc}
use mgridfs.LocalFile.Valid.{IsValid}
use mgridfs.Server.{Reply, GridFile, ok, thrown, named}
use mgridfs.Server.Laws.{Document}
use mgridfs.World.{Env, World, Action, return, attempt}
use mgridfs.World.Ends.{Ends, Ends-done, Ends-bind, Ends-weaken, Ends-if}
use mgridfs.World.Quiet.{Same, Never}
use mgridfs.Server.Laws.{ReadLaws}
use mgridfs.LocalFile.{set_size}
use mgridfs.LocalFile.Size.{set_size-IsValid, set_size-Keeps, size-set_size}
use mgridfs.Sync.Flush.{Code, success, failure}
use mgridfs.Sync.{opened, fill_from, init_local_buffers, open_remote, Load, full, null_chunk, threw}
use mgridfs.Sync.Lookup.{Sought, look_up, Replied, look_up-Replied}
use mgridfs.Sync.Loading.{Loaded, IfFull, Filled, load_chunks-Loaded}

-- A file that `openRemote` has filled, or its error.
pub record Opens (m : ℕ) (buf : List ℕ) (f : LocalFile) (r : ℤ × LocalFile) : Type 0 where
  pub code : Code r.0
  pub loaded : r.0 ≡ pos 0 → Loaded m buf f r.1 × (r.1.dirty ≡ false)

opened-Opens :
    {m : ℕ} (buf : List ℕ) (f : LocalFile) (l : Load)
    → IfFull (Loaded m buf f) l
    → Opens m buf f (opened l)
opened-Opens buf f (full f') h = record {
  code = success;
  loaded = λ q. (
    record {
      valid = record {
        limits = h.valid.limits;
        blocks = h.valid.blocks;
        counted = h.valid.counted;
        size_fits = h.valid.size_fits;
        bounded = h.valid.bounded;
      };
      chunk_size = h.chunk_size;
      filename = h.filename;
      content = h.content;
    },
    refl,
  );
}
opened-Opens buf f (null_chunk f') h = record {
  code = failure 4;
  loaded = λ q. absurd (ground arith);
}
opened-Opens buf f (threw f') h = record { code = failure 4; loaded = λ q. absurd (ground arith) }

module _ (e : Env) (laws : ReadLaws e.server) (buf : List ℕ) (f : LocalFile)
    (v : IsValid e.options.max_mem_file_size f) (new : f.capacity ≡ 0)
    (aligned : (g : GridFile) (db : e.server.Db) (i : ℕ)
      → e.server.find_file (named f.filename) db ≡ ok (some g)
      → (i * g.chunk_size + 1) % f.chunk_size ≢ 0) where
  open e.server use {Db, connect, grid_fs, find_file, num_chunks}

  abbrev m : ℕ
  m = e.options.max_mem_file_size

  sized-Filled :
      (alloc : Alloc) (g : GridFile) (db : Db)
      → Document e.server g buf db
      → (set_size alloc m g.content_length f).0 ≡ true
      → Filled m buf f.chunk_size
          (min (0 * g.chunk_size) (length buf))
          (set_size alloc m g.content_length f).1
  sized-Filled alloc g db d granted =
      let grown =
        size-set_size alloc g.content_length f v granted (elim (dec_le g.content_length f.size) [
          | yes p ↦ inr p
          | no p ↦ inl (omega (arith, new, v.size_fits))
        ]) in
      let keeps = set_size-Keeps alloc g.content_length f v in
      record {
        valid = set_size-IsValid alloc g.content_length f v;
        chunk_size = keeps.chunk_size;
        size = grown.0 ∙ d.size;
        room = omega (arith, grown.1, d.size);
        start = let z : min (0 * g.chunk_size) (length buf) ≡ 0 = omega arith in rw z refl;
      }

  init_local_buffers-Loaded :
      (alloc : Alloc) (g : GridFile) (w : World Db)
      → Document e.server g buf w.db
      → length buf < 2 ^ 63
      → ((i : ℕ) → (i * g.chunk_size + 1) % f.chunk_size ≢ 0)
      → Ends (λ l u. Same w u × IfFull (Loaded m buf f) l) Never (init_local_buffers e alloc g f w)
  unfolding init_local_buffers
  init_local_buffers-Loaded alloc g w d small inside =
      let r = set_size alloc m g.content_length f in
      Ends-if r.0 _ _ w
        (λ y.
          let z : min (0 * g.chunk_size) (length buf) ≡ 0 = omega arith in
          rw z at (
            load_chunks-Loaded e g buf f inside small (num_chunks g) 0 r.1 w d (omega arith)
              (sized-Filled alloc g w.db d y) (set_size-Keeps alloc g.content_length f v).filename))
        (λ n. Ends-done (null_chunk r.1) w (record { handles = refl; files = refl }, tt))

  fill_from-Opens :
      (alloc : Alloc) (g : GridFile) (w : World Db)
      → Document e.server g buf w.db
      → ((i : ℕ) → (i * g.chunk_size + 1) % f.chunk_size ≢ 0)
      → Ends (λ r u. Same w u × Opens m buf f r) Never (fill_from e alloc f g w)
  unfolding fill_from
  fill_from-Opens alloc g w d inside =
      Ends-if (ltb m g.content_length) _ _ w
        (λ y.
          Ends-done (negsuc 29, f) w
            (
              record { handles = refl; files = refl },
              record { code = failure 29; loaded = λ q. absurd (ground arith) },
            ))
        (λ n.
          Ends-bind (init_local_buffers e alloc g f) _ w
            (init_local_buffers-Loaded alloc g w d
              (let le : g.content_length ≤ m = ground arith in
                omega (arith, le, d.size, v.limits.no_wrap, v.limits.two))
              inside)
            (λ l u t. Ends-done (opened l) u (t.0, opened-Opens buf f l t.1)))

  cases_lem :
      (alloc : Alloc) (r : Reply (Option GridFile)) (w : World Db)
      → ((found : Option GridFile) → r ≡ ok found → Sought e laws buf f.filename found w.db)
      → Ends {W = World Db} {A = ℤ × LocalFile}
          (λ r u. Same w u × Opens m buf f r)
          Never
          ((elim r as (λ r. Action (World Db) (ℤ × LocalFile)) [
            | thrown ↦ return (negsuc 4, f)
            | ok none ↦ return (negsuc 8, f)
            | ok (some g) ↦ fill_from e alloc f g
          ])
            w)
  cases_lem alloc thrown w h =
      Ends-done (negsuc 4, f) w
        (
          record { handles = refl; files = refl },
          record { code = failure 4; loaded = λ q. absurd (ground arith) },
        )
  cases_lem alloc (ok none) w h =
      absurd (cc (laws.missing f.filename w.db (h none refl).1, (h none refl).0))
  cases_lem alloc (ok (some g)) w h =
      let sought = h (some g) refl in
      let (bytes, e1, doc) = laws.found f.filename w.db g sought.1 in
      let same : bytes ≡ buf = cc (e1, sought.0) in
      fill_from-Opens alloc g w (rw same at doc) (λ i. aligned g w.db i sought.1)

  -- The load of a new file. It always returns, and changes neither the open handles nor the files in
  -- memory; its result is 0 or an error, and with the result 0 the file has the bytes that the server
  -- has under its name, and is clean. The server keeps to its laws, and no chunk of the stored file
  -- starts at the last byte of a chunk in memory.
  pub open_remote-Opens :
      (w : World Db)
      → laws.store.stored w.db f.filename ≡ some buf
      → Ends (λ r u. Same w u × Opens m buf f r) Never (open_remote e f w)
  unfolding open_remote
  open_remote-Opens w stored =
      let w1 : World Db = record w { time = w.time + 1 } in
      let alloc = (e.moment w.time).chunks in
      Ends-bind {P = Replied e laws buf f.filename w1} (attempt (look_up e laws buf f.filename)) _
        w1 (look_up-Replied e laws buf f.filename w1 stored)
        (λ r u t.
          Ends-weaken _ (cases_lem alloc r u t.1)
            (λ r' u' t'. (
              record { handles = t'.0.handles ∙ t.0.handles; files = t'.0.files ∙ t.0.files },
              t'.1,
            ))
            (λ u' t'. t'))
