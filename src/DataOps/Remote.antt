-- ===== src/DataOps/Remote.antt =====
-- The part of `mgridfs_read` that reads a file from the server.
use mgridfs.Base.{
  ℕ, zero, suc, ◌+◌, ◌-◌, ◌*◌, ◌/◌, ◌^◌, ◌≤◌, ◌<◌, min, ◌≡◌, refl, sym, ap, ◌∙◌, false, ◌||◌,
  Option, none, some, List, [], arith, dec_lt, leb, leb→le, length, take, drop, length-take,
  length-drop, drop_of_le, take-nil, ℤ, pos, neg, uint32, to_int, off_le, off_neg, to_int_small,
  off_le-leb, Name, bytes,
}
use native.Mathlib.Nat.{div-add-mod'}
use mgridfs.LocalFile.{eio}
use mgridfs.LocalFile.Grow.{lt_of_mul_lt}
use mgridfs.Server.{GridFile, ok, named}
use mgridfs.Server.Laws.{ReadLaws, Document}
use mgridfs.World.{Env, World, ask, command, return, ◌>>=◌, ◌>>◌}
use mgridfs.World.Ends.{
  Ends, Ends-done, Ends-if, Ends-bind, Ends-ask, Ends-command, Ends-catching, Ends-weaken,
}
use mgridfs.World.Quiet.{Never}
use mgridfs.DataOps.Copied.{take_same, step_lem}
use mgridfs.DataOps.{remote_chunks, serve, remote_read}

reply_lem :
    (got out : List ℕ)
    → got ≡ out
    → length out < 2 ^ 31
    → ◌≡◌ {A = ℤ × List ℕ} (to_int (length got), got) (pos (length out), out)
reply_lem got out h small = rw h (ap (λ c. (c, out)) (to_int_small (length out) small))

-- What a read of the bytes `buf` gives: those from the offset on, at most as many as were asked for.
abbrev pub Part : List ℕ → ℕ → ℕ → ℤ × List ℕ → Type 0
Part buf len offset r = r ≡ (pos (length (take len (drop offset buf))), take len (drop offset buf))

-- The same, or the read's error.
pub data Served (buf : List ℕ) (len offset : ℕ) (r : ℤ × List ℕ) : Type 0 where
  served : Part buf len offset r → Served buf len offset r
  failed : r ≡ (neg eio, []) → Served buf len offset r

-- How a question for a chunk of the file may end: `R` holds if it throws.
abbrev pub Asks : (e : Env) → GridFile → (World e.server.Db → Type 0) → Type 0
Asks e g R =
    (i : ℕ) (w : World e.server.Db)
    → i < e.server.num_chunks g
    → Ends (λ c v. (v ≡ w) × (e.server.get_chunk g i w.db ≡ ok c)) R
        (ask (e.server.get_chunk g i) w)

module _ (e : Env) (g : GridFile) (buf : List ℕ) (len offset : ℕ) {R : World e.server.Db → Type 0}
    (asks : Asks e g R) where
  -- From the chunk `i` on: what is read reaches to that chunk.
  remote_chunks-Part :
      (n i : ℕ) (got : List ℕ) (w : World e.server.Db)
      → Document e.server g buf w.db
      → 0 < len
      → len < 2 ^ 31
      → offset < length buf
      → offset / g.chunk_size ≤ i
      → i + n ≡ e.server.num_chunks g
      → got ≡ take (min len (i * g.chunk_size - offset)) (drop offset buf)
      → Ends (λ r v. Part buf len offset r) R (remote_chunks e g len offset n i got w)
  unfolding remote_chunks
  remote_chunks-Part zero i got w d some_bytes small inside le count eq =
      let whole : got ≡ take len (drop offset buf) =
        eq
        ∙ take_same (min len (i * g.chunk_size - offset)) len (drop offset buf)
            (omega (arith, d.all, end, length-drop offset buf)) in
      Ends-done _ w (reply_lem got _ whole (omega (arith, length-take len (drop offset buf))))
    where
      end : i * g.chunk_size ≡ e.server.num_chunks g * g.chunk_size
      end = ap (λ k. k * g.chunk_size) (omega (arith, count))
  remote_chunks-Part (suc n) i got w d some_bytes small inside le count eq =
      let x = drop offset buf in
      let p = i * g.chunk_size - offset in
      Ends-if (leb len (length got)) _ _ w
        (λ y.
          let enough : len ≤ length got = leb→le len (length got) y in
          let whole : got ≡ take len x =
            eq
            ∙ take_same (min len p) len x
                (omega (arith, ap length eq, length-take (min len p) x, enough)) in
          Ends-done _ w (reply_lem got _ whole (omega (arith, length-take len x))))
        (λ more.
          Ends-bind {P = λ c v. (v ≡ w) × (e.server.get_chunk g i w.db ≡ ok c)}
            (ask (e.server.get_chunk g i)) _ w (asks i w (omega (arith, count)))
            (λ c v t.
              let has : c ≡ some (take g.chunk_size (drop (i * g.chunk_size) buf)) =
                d.chunk i c (omega (arith, count)) t.1 in
              let step =
                step_lem buf g.chunk_size len offset i got d.some_bytes d.small small inside le
                  (d.tight i (omega (arith, count))) eq more in
              rw has (
                rw step (
                  remote_chunks-Part n (i + 1) _ v (rw t.0 d) some_bytes small inside
                    (omega (arith, le)) (omega (arith, count))
                    (ap (λ k. take (min len (k * g.chunk_size - offset)) x) {x = suc i}
                      (omega arith))))))

few_chunks :
    (e : Env) (g : GridFile) (buf : List ℕ) (db : e.server.Db)
    → Document e.server g buf db
    → length buf < 2 ^ 32
    → e.server.num_chunks g < 2 ^ 32
few_chunks e g buf db d h = elim (dec_lt (e.server.num_chunks g) (2 ^ 32)) [
  | yes p ↦ p
  | no p ↦
      let there : (2 ^ 32 - 1) * g.chunk_size < length buf = d.tight (2 ^ 32 - 1) (omega arith) in
      absurd (omega (arith, there, d.some_bytes, h))
]

module _ (e : Env) (laws : ReadLaws e.server) (buf : List ℕ) (file : Name) (len offset : ℕ)
    (some_bytes : 0 < len) (small : len < 2 ^ 31) (countable : length buf < 2 ^ 32)
    (in_range : offset < 2 ^ 63) where
  open e.server use {connect, grid_fs, find_file}

  past_end : length buf ≤ offset → Part buf len offset (pos 0, [])
  past_end h =
      let none_left : drop offset buf ≡ [] = drop_of_le offset buf h in
      let nothing : take len (drop offset buf) ≡ [] = ap (take len) none_left ∙ take-nil len in
      ap (λ xs. (pos (length xs), xs)) (sym nothing)

  pub serve-Part :
      {R : World e.server.Db → Type 0} (g : GridFile)
      → Asks e g R
      → (w : World e.server.Db) → Document e.server g buf w.db
      → Ends (λ r v. Part buf len offset r) R (serve e len offset (some g) w)
  unfolding serve
  serve-Part g asks w d =
      let cs = g.chunk_size in
      let size : off_le g.content_length offset ≡ leb (length buf) offset =
        ap (λ k. off_le k offset) d.size
        ∙ off_le-leb (length buf) offset (omega (arith, countable)) in_range in
      let chunks : e.server.num_chunks g < 2 ^ 32 = few_chunks e g buf w.db d countable in
      let whole : off_neg offset ≡ false = ground arith in
      Ends-if (off_neg offset || off_le g.content_length offset) _ _ w
        (λ y. Ends-done _ w (past_end (ground (arith, size, whole))))
        (λ n.
          let inside : offset < length buf = ground (arith, size, whole) in
          let below : offset / cs < e.server.num_chunks g =
            lt_of_mul_lt (offset / cs) (e.server.num_chunks g) cs
              (omega (arith, div-add-mod' offset cs, inside, d.all)) in
          let e1 : uint32 (offset / cs) ≡ offset / cs = omega (arith, below, chunks) in
          let e2 : uint32 (e.server.num_chunks g) ≡ e.server.num_chunks g = omega (arith, chunks) in
          rw (e1, e2)
            (remote_chunks-Part e g buf len offset asks (e.server.num_chunks g - offset / cs)
              (offset / cs) [] w d some_bytes small inside (omega arith) (omega (arith, below))
              (ap (λ k. take k (drop offset buf)) {x = 0} (omega (arith, div-add-mod' offset cs)))))

  -- On a server that meets the laws, a read of a file below 2 ^ 32 bytes gives the bytes of the file
  -- from the offset on, at most as many as were asked for, or returns `-EIO`.
  pub remote_read-Served :
      (w : World e.server.Db)
      → laws.store.stored w.db file ≡ some buf
      → Ends (λ r v. Served buf len offset r) Never (remote_read e file len offset w)
  unfolding remote_read
  remote_read-Served w stored =
      Ends-catching {S = λ v. Unit {0}}
        (do
          command connect
          command grid_fs
          found ← ask (find_file (named file))
          serve e len offset found)
        (return (neg eio, [])) w
        (Ends-bind {P = λ a v. laws.store.stored v.db file ≡ some buf} (command connect) _ w
          (Ends-command connect w (λ a h. laws.store.connect_keeps w.db file ∙ stored) tt)
          (λ a w1 s1.
            Ends-bind {P = λ b v. laws.store.stored v.db file ≡ some buf} (command grid_fs) _ w1
              (Ends-command grid_fs w1 (λ b h. laws.store.grid_fs_keeps w1.db file ∙ s1) tt)
              (λ b w2 s2.
                Ends-bind
                  {P = λ found v.
                    (laws.store.stored v.db file ≡ some buf)
                    × (find_file (named file) v.db ≡ ok found)}
                  (ask (find_file (named file))) _ w2
                  (Ends-ask (find_file (named file)) w2 (λ found h. (s2, h)) tt)
                  (λ found w3 s3. found_lem found w3 s3.0 s3.1))))
        (λ v t. Ends-done (neg eio, []) v (failed refl))
    where
      found_lem :
          (found : Option GridFile) (v : World e.server.Db)
          → laws.store.stored v.db file ≡ some buf
          → e.server.find_file (named file) v.db ≡ ok found
          → Ends (λ r v. Served buf len offset r) (λ v. Unit {0}) (serve e len offset found v)
      found_lem none v s h = absurd (cc (laws.missing file v.db h, s))
      found_lem (some g) v s h =
          let (bytes, e1, doc) = laws.found file v.db g h in
          let same : bytes ≡ buf = cc (e1, s) in
          Ends-weaken (serve e len offset (some g) v)
            (serve-Part g (λ i u inside. Ends-ask (e.server.get_chunk g i) u (λ c q. (refl, q)) tt)
              v (rw same at doc))
            (λ r u t. served t) (λ u t. tt)
