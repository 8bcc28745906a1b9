-- ===== src/DataOps.antt =====
-- file_meta_ops.cpp: the operations that move the bytes of an open file or set its size:
-- `mgridfs_read`, `mgridfs_write`, `mgridfs_truncate`, `mgridfs_ftruncate` and `mgridfs_fallocate`.
pub mod Write
pub mod Copied
pub mod Remote
pub mod Allocate
pub mod Keeps
pub mod Answered
use mgridfs.Base.{
  ℕ, zero, suc, ◌+◌, ◌-◌, ◌/◌, ◌%◌, min, not, ◌||◌, Option, none, some, List, [], ◌++◌, leb, ◌==◌,
  if◌then◌else◌, length, take, drop, ℤ, pos, neg, add64, sub64, uint32, int_size, to_int, off_le,
  off_neg, Name, is_empty,
}
use mgridfs.LocalFile.{LocalFile, set_size, write, read, eio, ebadf}
use mgridfs.Handle.{is_valid}
use mgridfs.Server.{GridFile, named}
use mgridfs.World.{
  Env, World, Action, done, ◌>>=◌, ◌>>◌, return, catching, total, ask, command, draw,
}
use mgridfs.LocalFs.{find_by_name}
use mgridfs.Ops.{this_handle, keep, is_rdonly}

-- One chunk of a read from the server; a copy from behind the chunk's end is a fault.
abbrev pub copied : ℕ → ℕ → List ℕ → List ℕ → Option (List ℕ)
copied len start buf got =
    let count = int_size (min (sub64 (length buf) start) (sub64 len (length got))) in
    if leb (start + count) (length buf) then some (got ++ take count (drop start buf)) else none

module _ (e : Env) where
  open e.server use {connect, grid_fs, find_file, num_chunks, get_chunk}

  -- The loop of `mgridfs_read`: at most `n` chunks are left, the next is number `i`, and `got` is in
  -- the caller's buffer.
  unfoldable pub remote_chunks :
      GridFile → ℕ → ℕ → ℕ → ℕ → List ℕ → Action (World e.server.Db) (ℤ × List ℕ)
  remote_chunks g len offset zero i got = return (to_int (length got), got)
  remote_chunks g len offset (suc n) i got =
      if leb len (length got) then return (to_int (length got), got) else (do
        c ← ask (get_chunk g i)
        elim c [
          | none ↦ return (neg eio, [])
          | some buf ↦ do
            let start = if length got == 0 then offset % g.chunk_size else 0
            got' ← total (copied len start buf got)
            remote_chunks g len offset n (i + 1) got'
        ])

  -- The file that was found, or not.
  unfoldable pub serve : ℕ → ℕ → Option GridFile → Action (World e.server.Db) (ℤ × List ℕ)
  unfolding remote_chunks
  serve len offset none = return (neg ebadf, [])
  serve len offset (some g) =
      if off_neg offset || off_le g.content_length offset
      then return (pos 0, [])
      else (let active = uint32 (offset / g.chunk_size) in
          remote_chunks g len offset (uint32 (num_chunks g) - active) active [])

  unfoldable pub remote_read : Name → ℕ → ℕ → Action (World e.server.Db) (ℤ × List ℕ)
  unfolding serve
  remote_read file len offset =
      catching
        (do
          command connect
          command grid_fs
          found ← ask (find_file (named file))
          serve len offset found)
        (return (neg eio, []))

  -- The result and the bytes put into the caller's buffer (none, on an error).
  unfoldable pub mgridfs_read : Name → ℕ → ℕ → ℕ → ℕ → Action (World e.server.Db) (ℤ × List ℕ)
  unfolding remote_read
  mgridfs_read file len offset flags fh w =
      let h = this_handle w file fh in
      if len == 0
      then done (pos 0, []) w
      else if not (is_valid w.handles h) || is_empty h.filename
      then done (neg ebadf, []) w
      else elim (find_by_name h.filename w.files) [
        | some f ↦ total (read len offset f) w
        | none ↦ if is_rdonly flags then remote_read file len offset w else done (neg ebadf, []) w
      ]

  -- `LocalGridFile::write` of the file that was found.
  unfoldable pub write_held : List ℕ → ℕ → Name → Option LocalFile → Action (World e.server.Db) ℤ
  write_held buf offset name none = return (neg ebadf)
  write_held buf offset name (some f) = do
    m ← draw e
    r ← total (write m.chunks e.options.max_mem_file_size buf offset f)
    keep name r

  unfoldable pub mgridfs_write : Name → List ℕ → ℕ → ℕ → Action (World e.server.Db) ℤ
  unfolding write_held
  mgridfs_write file buf offset fh w =
      let h = this_handle w file fh in
      if not (is_valid w.handles h)
      then done (neg ebadf) w
      else write_held buf offset h.filename (find_by_name h.filename w.files) w

  -- `LocalGridFile::setSize` of the file that was found.
  unfoldable pub truncate_held : ℕ → Name → Option LocalFile → Action (World e.server.Db) ℤ
  truncate_held len name none = return (neg ebadf)
  truncate_held len name (some f) = do
    m ← draw e
    fits ← keep name (set_size m.chunks e.options.max_mem_file_size len f)
    return (if fits then pos 0 else neg eio)

  unfoldable pub mgridfs_truncate : Name → ℕ → Action (World e.server.Db) ℤ
  unfolding truncate_held
  mgridfs_truncate file len w = truncate_held len file (find_by_name file w.files) w

  unfoldable pub mgridfs_ftruncate : Name → ℕ → ℕ → Action (World e.server.Db) ℤ
  unfolding mgridfs_truncate
  mgridfs_ftruncate file offset fh w =
      let h = this_handle w file fh in
      if is_valid w.handles h then mgridfs_truncate h.filename offset w else done (neg ebadf) w

  -- The `bool` of `setSize` is returned as the `int`.
  unfoldable pub fallocate_held : ℕ → Name → Option LocalFile → Action (World e.server.Db) ℤ
  fallocate_held size name none = return (neg ebadf)
  fallocate_held size name (some f) = do
    m ← draw e
    fits ← keep name (set_size m.chunks e.options.max_mem_file_size size f)
    return (if fits then pos 1 else pos 0)

  unfoldable pub mgridfs_fallocate : Name → ℕ → ℕ → ℕ → ℕ → Action (World e.server.Db) ℤ
  unfolding fallocate_held
  mgridfs_fallocate file mode offset len fh w =
      let h = this_handle w file fh in
      if not (is_valid w.handles h)
      then done (neg ebadf) w
      else fallocate_held (add64 len offset) h.filename (find_by_name h.filename w.files) w
