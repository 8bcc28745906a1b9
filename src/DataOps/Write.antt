-- ===== src/DataOps/Write.antt =====
-- `mgridfs_write` and `mgridfs_read` through an open handle of a file in memory.
use mgridfs.Base.{
  ℕ, ◌+◌, ◌%◌, ◌^◌, ◌<◌, max, ◌≡◌, refl, sym, ap, ◌∙◌, ◌≢◌, true, false, some, List, arith, ◌==◌,
  length, length-take, ℤ, pos, to_int, to_int_small, Name, name_eq, is_empty, name_eq_refl,
}
use mgridfs.LocalFile.{LocalFile, write, read}
use mgridfs.LocalFile.Valid.{IsValid}
use mgridfs.LocalFile.Grow.{Plenty, flat, length-flat}
use mgridfs.LocalFile.Contents.{contents, Overwrites}
use mgridfs.LocalFile.Write.{write-Wrote}
use mgridfs.LocalFile.Whole.{read_whole}
use mgridfs.Handle.{left_find, is_valid, file_handle}
use mgridfs.World.{Env, World, Outcome, done}
use mgridfs.Ops.{this_handle, keep}
use mgridfs.LocalFs.{find_by_name, put}
use mgridfs.LocalFs.Map.{find-put}
use mgridfs.DataOps.{mgridfs_write, mgridfs_read, write_held}

-- The handle is open for that name.
pub record Open {Db : Type 0} (w : World Db) (fh : ℕ) (name : Name) : Type 0 where
  pub nonzero : 0 < fh
  pub handle : left_find fh w.handles.table ≡ some name

pub this_handle-open :
    {Db : Type 0} (w : World Db) (file name : Name) (fh : ℕ)
    → Open w fh name
    → this_handle w file fh ≡ record { filename = name; fh = fh }
unfolding file_handle
this_handle-open w file name fh o =
    let z : (fh == 0) ≡ false = ground (arith, o.nonzero) in rw (z, o.handle) refl

pub is_valid-open :
    {Db : Type 0} (w : World Db) (name : Name) (fh : ℕ)
    → Open w fh name
    → is_valid w.handles (record { filename = name; fh = fh }) ≡ true
unfolding is_valid
is_valid-open w name fh o = rw o.handle refl

-- A call that left the file of that name as `f`, with everything else but the clock as it was.
pub record Left {Db A : Type 0} (w : World Db) (name : Name) (a : A) (f : LocalFile)
    (out : Outcome (World Db) A) : Type 0 where
  pub after : World Db
  pub returned : out ≡ done a after
  pub db : after.db ≡ w.db
  pub handles : after.handles ≡ w.handles
  pub held : find_by_name name after.files ≡ some f
  pub others :
      (n : Name) → name_eq name n ≡ false → find_by_name n after.files ≡ find_by_name n w.files

pub keep-Left :
    {Db A : Type 0} (w : World Db) (t : ℕ) (name : Name) (g : LocalFile) (a : A) (f : LocalFile)
    → find_by_name name w.files ≡ some g
    → Left w name a f (keep name (a, f) (record w { time = t }))
keep-Left w t name g a f h = record {
  after = record w { time = t; files = put name f w.files };
  returned = refl;
  db = refl;
  handles = refl;
  held = rw (find-put name f w.files name, name_eq_refl name, h) refl;
  others = λ n ne. rw (find-put name f w.files n, ne) refl;
}

write_open :
    (e : Env) (w : World e.server.Db) (file name : Name) (fh : ℕ) (f : LocalFile)
    → Open w fh name
    → find_by_name name w.files ≡ some f
    → (buf : List ℕ) (offset : ℕ) (code : ℤ) (f' : LocalFile)
    → write (e.moment w.time).chunks e.options.max_mem_file_size buf offset f ≡ some (code, f')
    → mgridfs_write e file buf offset fh w ≡ keep name (code, f') (record w { time = w.time + 1 })
unfolding mgridfs_write write_held
write_open e w file name fh f o held buf offset code f' h =
    rw (this_handle-open w file name fh o, is_valid-open w name fh o, held) (rw h refl)

read_open :
    (e : Env) (w : World e.server.Db) (file name : Name) (fh : ℕ) (f : LocalFile)
    → Open w fh name
    → is_empty name ≡ false
    → find_by_name name w.files ≡ some f
    → (len offset flags : ℕ) (out : ℤ × List ℕ) → 0 < len
    → read len offset f ≡ some out
    → mgridfs_read e file len offset flags fh w ≡ done out w
unfolding mgridfs_read
read_open e w file name fh f o named held len offset flags out some_bytes h =
    let z : (len == 0) ≡ false = ground arith in
    rw (this_handle-open w file name fh o, is_valid-open w name fh o, held, named, z) (rw h refl)

module _ (e : Env) (w : World e.server.Db) (file name : Name) (fh : ℕ) (f : LocalFile)
    (o : Open w fh name) (held : find_by_name name w.files ≡ some f)
    (v : IsValid e.options.max_mem_file_size f) (buf : List ℕ) (offset : ℕ) where
  -- A write through an open handle returns the number of bytes and leaves the file of that handle,
  -- and no other, with those bytes at the offset and all its other bytes as they were; the database
  -- and the handles are as before; the file has changes to save then. The file is writable, memory is at hand, the end of the write is
  -- below the limit and is not the capacity, and it does not start at the last byte of a chunk.
  pub mgridfs_write-Left :
      f.read_only ≡ false
      → 0 < length buf
      → Plenty (e.moment w.time).chunks
      → offset + length buf < e.options.max_mem_file_size
      → (offset + 1) % f.chunk_size ≢ 0
      → offset + length buf ≢ f.capacity
      → (f' : LocalFile) × Left w name
          (to_int (length buf))
          f'
          (mgridfs_write e file buf offset fh w)
        × Overwrites (contents f) offset buf (contents f')
        × IsValid e.options.max_mem_file_size f'
        × (f'.chunk_size ≡ f.chunk_size)
        × (f'.dirty ≡ true)
        × (f'.filename ≡ f.filename)
  mgridfs_write-Left writable some_bytes plenty lt inside ne =
      let wrote =
        write-Wrote (e.moment w.time).chunks f v buf offset writable some_bytes plenty lt inside
          ne in
      let step = write_open e w file name fh f o held buf offset _ wrote.result wrote.returned in
      (
        wrote.result,
        rw step (keep-Left w (w.time + 1) name f _ wrote.result held),
        wrote.effect,
        wrote.valid,
        wrote.chunk_size,
        wrote.dirty,
        wrote.filename,
      )

length-contents : {m : ℕ} (f : LocalFile) → IsValid m f → length (contents f) ≡ f.size
length-contents f v = omega (arith, length-take f.size (flat f), length-flat f v, v.size_fits)

-- A read at the place of a write gives the bytes that were written.
read_back :
    {m : ℕ} (before : List ℕ) (f : LocalFile) (buf : List ℕ) (offset : ℕ)
    → IsValid m f
    → Overwrites before offset buf (contents f)
    → 0 < length buf
    → length buf < 2 ^ 31
    → max (length before) (offset + length buf) % f.chunk_size ≡ 0
    → read (length buf) offset f ≡ some (pos (length buf), buf)
read_back before f buf offset v effect some_bytes small whole =
    let size : max (length before) (offset + length buf) ≡ f.size =
      sym effect.size ∙ length-contents f v in
    let r =
      read_whole f v (length buf) offset some_bytes small (omega (arith, size))
        (rw size at whole) in
    rw effect.there at r

module _ (e : Env) (w : World e.server.Db) (file name : Name) (fh : ℕ) (f : LocalFile)
    (o : Open w fh name) (held : find_by_name name w.files ≡ some f)
    (v : IsValid e.options.max_mem_file_size f) (buf : List ℕ) (offset flags : ℕ) where
  -- What is written through a handle is read back through it, if the file's size is then a whole
  -- number of chunks; the conditions on the write are those of `mgridfs_write-Left`.
  pub mgridfs_read-mgridfs_write :
      is_empty name ≡ false
      → f.read_only ≡ false
      → 0 < length buf
      → length buf < 2 ^ 31
      → Plenty (e.moment w.time).chunks
      → offset + length buf < e.options.max_mem_file_size
      → (offset + 1) % f.chunk_size ≢ 0
      → offset + length buf ≢ f.capacity
      → max f.size (offset + length buf) % f.chunk_size ≡ 0
      → (after : World e.server.Db) × (mgridfs_write e file buf offset fh w
          ≡ done (pos (length buf)) after)
        × (mgridfs_read e file (length buf) offset flags fh after
            ≡ done (pos (length buf), buf) after)
  mgridfs_read-mgridfs_write named writable some_bytes small plenty lt inside ne whole =
      let (f', left, effect, valid, chunk, dirty, filename) =
        mgridfs_write-Left e w file name fh f o held v buf offset writable some_bytes plenty lt
          inside ne in
      let size = length-contents f v in
      let whole' : max (length (contents f)) (offset + length buf) % f'.chunk_size ≡ 0 =
        rw (size, chunk) whole in
      let still : Open left.after fh name = record {
        nonzero = o.nonzero;
        handle = ap (λ h. left_find fh h.table) left.handles ∙ o.handle;
      } in
      (
        left.after,
        left.returned ∙ ap (λ c. done c left.after) (to_int_small (length buf) small),
        read_open e left.after file name fh f' still named left.held (length buf) offset flags _
            some_bytes (read_back (contents f) f' buf offset valid effect some_bytes small whole'),
      )
