-- ===== src/DataOps/Allocate.antt =====
-- `mgridfs_fallocate` and `mgridfs_ftruncate`, which set the size of a file in memory.
use mgridfs.Base.{
  ℕ, ◌+◌, ◌≤◌, ◌<◌, min, ◌≡◌, refl, ap, ◌∙◌, ◌≢◌, ◌⊎◌, true, some, arith, if◌then◌else◌, take, pos,
  neg, add64, Name,
}
use mgridfs.LocalFile.{LocalFile, set_size, eio}
use mgridfs.LocalFile.Valid.{IsValid}
use mgridfs.LocalFile.Grow.{Plenty}
use mgridfs.LocalFile.Contents.{contents}
use mgridfs.LocalFile.Truncate.{take-set_size, set_size_cut, set_size_within}
use mgridfs.LocalFile.Size.{size-set_size, set_size-Plenty, set_size-IsValid}
use mgridfs.Handle.{left_find}
use mgridfs.World.{Env, World, done}
use mgridfs.LocalFs.{find_by_name}
use mgridfs.DataOps.{
  mgridfs_fallocate, fallocate_held, mgridfs_ftruncate, mgridfs_truncate, truncate_held,
}
use mgridfs.DataOps.Write.{Open, Left, keep-Left, this_handle-open, is_valid-open}

fallocate_open :
    (e : Env) (w : World e.server.Db) (file name : Name) (fh : ℕ) (f : LocalFile)
    → Open w fh name
    → find_by_name name w.files ≡ some f
    → (mode offset len size : ℕ) → add64 len offset ≡ size
    → let r = set_size (e.moment w.time).chunks e.options.max_mem_file_size size f in
      Left w name (if r.0 then pos 1 else pos 0) r.1 (mgridfs_fallocate e file mode offset len fh w)
unfolding mgridfs_fallocate fallocate_held
fallocate_open e w file name fh f o held mode offset len size h =
    let r = set_size (e.moment w.time).chunks e.options.max_mem_file_size size f in
    rw (this_handle-open w file name fh o, is_valid-open w name fh o, held, h)
      (keep-Left w (w.time + 1) name f (if r.0 then pos 1 else pos 0) r.1 held)

truncate_open :
    (e : Env) (w : World e.server.Db) (file name : Name) (fh : ℕ) (f : LocalFile)
    → Open w fh name
    → find_by_name name w.files ≡ some f
    → (size : ℕ)
    → let r = set_size (e.moment w.time).chunks e.options.max_mem_file_size size f in
      Left w name (if r.0 then pos 0 else neg eio) r.1 (mgridfs_ftruncate e file size fh w)
unfolding mgridfs_ftruncate mgridfs_truncate truncate_held
truncate_open e w file name fh f o held size =
    let r = set_size (e.moment w.time).chunks e.options.max_mem_file_size size f in
    rw (this_handle-open w file name fh o, is_valid-open w name fh o, held)
      (keep-Left w (w.time + 1) name f (if r.0 then pos 0 else neg eio) r.1 held)

module _ (e : Env) (w : World e.server.Db) (file name : Name) (fh : ℕ) (f : LocalFile)
    (o : Open w fh name) (held : find_by_name name w.files ≡ some f)
    (v : IsValid e.options.max_mem_file_size f) (plenty : Plenty (e.moment w.time).chunks) where
  -- With memory at hand a truncation through an open handle to a size below the limit returns 0, and
  -- the file of that handle, and no other, has that size, and the bytes that it had below it, unless
  -- the size is the capacity and above the size that the file had.
  pub mgridfs_ftruncate-Left :
      (size : ℕ)
      → size < e.options.max_mem_file_size
      → ((size ≢ f.capacity) ⊎ (size ≤ f.size))
      → (f' : LocalFile) × Left w name (pos 0) f' (mgridfs_ftruncate e file size fh w)
        × (f'.size ≡ size)
        × IsValid e.options.max_mem_file_size f'
        × (take (min size f.size) (contents f') ≡ take (min size f.size) (contents f))
  mgridfs_ftruncate-Left size lt ne =
      let alloc = (e.moment w.time).chunks in
      let granted = set_size-Plenty alloc size f v plenty lt in
      let left = truncate_open e w file name fh f o held size in
      (
        (set_size alloc e.options.max_mem_file_size size f).1,
        rw granted at left,
        (size-set_size alloc size f v granted ne).0,
        set_size-IsValid alloc size f v,
        take-set_size alloc size (min size f.size) f v granted ne (omega arith) (omega arith),
      )

  -- With memory at hand `mgridfs_fallocate` of a range that ends below the limit, other than a growth
  -- to exactly the capacity, makes the file of the handle, and no other, reach to the end of the range,
  -- and returns 1, where FUSE has 0 for a success.
  pub mgridfs_fallocate-one :
      (mode offset len : ℕ)
      → offset + len < e.options.max_mem_file_size
      → ((offset + len ≢ f.capacity) ⊎ (offset + len ≤ f.size))
      → (f' : LocalFile) × Left w name (pos 1) f' (mgridfs_fallocate e file mode offset len fh w)
        × (f'.size ≡ offset + len)
        × IsValid e.options.max_mem_file_size f'
  mgridfs_fallocate-one mode offset len lt ne =
      let alloc = (e.moment w.time).chunks in
      let granted = set_size-Plenty alloc (offset + len) f v plenty lt in
      let sum : add64 len offset ≡ offset + len = omega (arith, v.limits.no_wrap) in
      let left = fallocate_open e w file name fh f o held mode offset len (offset + len) sum in
      (
        (set_size alloc e.options.max_mem_file_size (offset + len) f).1,
        rw granted at left,
        (size-set_size alloc (offset + len) f v granted ne).0,
        set_size-IsValid alloc (offset + len) f v,
      )

module _ (e : Env) (w : World e.server.Db) (file name : Name) (fh : ℕ) (f : LocalFile)
    (o : Open w fh name) (held : find_by_name name w.files ≡ some f) where
  -- A file with room in its last chunk that is truncated to a smaller size and back through a handle
  -- has the bytes again that were cut off, where a file has zeros; both calls return 0.
  pub mgridfs_ftruncate_twice :
      (size : ℕ)
      → size < f.size
      → f.size < f.capacity
      → (after : World e.server.Db) × (after' : World e.server.Db) × (f' : LocalFile)
        × (mgridfs_ftruncate e file size fh w ≡ done (pos 0) after)
        × (mgridfs_ftruncate e file f.size fh after ≡ done (pos 0) after')
        × (find_by_name name after'.files ≡ some f')
        × (contents f' ≡ contents f)
  mgridfs_ftruncate_twice size cut room =
      let m = e.options.max_mem_file_size in
      let short : LocalFile = record f { size = size; dirty = true } in
      let first = set_size_cut (e.moment w.time).chunks m size f (omega arith) in
      let left : Left w name (pos 0) short (mgridfs_ftruncate e file size fh w) =
        rw first at (truncate_open e w file name fh f o held size) in
      let still : Open left.after fh name = record {
        nonzero = o.nonzero;
        handle = ap (λ h. left_find fh h.table) left.handles ∙ o.handle;
      } in
      let second = set_size_within (e.moment left.after.time).chunks m f.size short cut room in
      let again : Left left.after name (pos 0) (record f { dirty = true })
          (mgridfs_ftruncate e file f.size fh left.after) =
        rw second at (truncate_open e left.after file name fh short still left.held f.size) in
      (
        left.after,
        again.after,
        record f { dirty = true },
        left.returned,
        again.returned,
        again.held,
        refl,
      )
