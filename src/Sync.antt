-- ===== src/Sync.antt =====
-- `openRemote`, `initLocalBuffers` and `flush` of local_grid_file.cpp: an in-memory file filled from
-- the server and saved to it.
pub mod Flush
pub mod Keeps
pub mod Loading
pub mod Lookup
pub mod Opening
pub mod Largest
pub mod Answered
use mgridfs.Base.{
  ℕ, zero, suc, ◌+◌, Bool, true, false, ◌&&◌, Option, none, some, List, [], ltb, if◌then◌else◌,
  length, ℤ, pos, negsuc, neg, add64, Name, bytes,
}
use mgridfs.LocalFile.{
  LocalFile, Alloc, set_size, raw_write, create_flush_buffer, eio, ebadf, enomem, erofs,
}
use mgridfs.Utils.{get_path_basename, get_path_dirname}
use mgridfs.Server.{GridFile, Changes, named, by_id, ok, thrown}
use mgridfs.World.{
  Env, World, Action, ◌>>=◌, ◌>>◌, return, catching, attempt, total, ask, command, draw,
}

-- How the loop that fills a file ends: with all chunks, with a null pointer, or by an exception. The
-- file has then what was written up to there.
pub data Load : Type 0 where
  full : LocalFile → Load
  null_chunk : LocalFile → Load
  threw : LocalFile → Load

abbrev pub after_write : Option (ℤ × LocalFile) → Option LocalFile
after_write none = none
after_write (some (code, f)) = some f

abbrev pub or_nothing : Option (List ℕ) → List ℕ
or_nothing none = []
or_nothing (some buf) = buf

abbrev pub is_null : Option (List ℕ) → Bool
is_null none = true
is_null (some buf) = false

abbrev pub flushed : LocalFile → ℤ → ℤ × LocalFile
flushed f (pos n) = (pos n, record f { dirty = false })
flushed f (negsuc n) = (negsuc n, f)

abbrev pub opened : Load → ℤ × LocalFile
opened (full f) = (pos 0, record f { dirty = false })
opened (null_chunk f) = (neg eio, f)
opened (threw f) = (neg eio, f)

module _ (e : Env) where
  open e.server use {
    Db, Oid, connect, grid_fs, find_file, store_file, remove_file, update, num_chunks, get_chunk,
  }

  -- The loop of `initLocalBuffers`: `n` chunks are left, the next is number `i`.
  unfoldable pub load_chunks : GridFile → ℕ → ℕ → ℕ → LocalFile → Action (World Db) Load
  load_chunks g zero i offset f = return (full f)
  load_chunks g (suc n) i offset f = do
    r ← attempt (ask (get_chunk g i))
    elim r [
      | thrown ↦ return (threw f)
      | ok none ↦ return (null_chunk f)
      | ok (some buf) ↦ do
        f' ← total (after_write (raw_write buf offset f))
        load_chunks g n (i + 1) (add64 offset (length buf)) f'
    ]

  unfoldable pub init_local_buffers : Alloc → GridFile → LocalFile → Action (World Db) Load
  unfolding load_chunks
  init_local_buffers alloc g f =
      let (fits, f') = set_size alloc e.options.max_mem_file_size g.content_length f in
      if fits then load_chunks g (num_chunks g) 0 0 f' else return (null_chunk f')

  -- The body of the `try` block, once the file is found.
  unfoldable pub fill_from : Alloc → LocalFile → GridFile → Action (World Db) (ℤ × LocalFile)
  unfolding init_local_buffers
  fill_from alloc f g =
      if ltb e.options.max_mem_file_size g.content_length
      then return (neg erofs, f)
      else do l ← init_local_buffers alloc g f; return (opened l)

  unfoldable pub open_remote : LocalFile → Action (World Db) (ℤ × LocalFile)
  unfolding fill_from
  open_remote f = do
    m ← draw e
    r ← attempt do command connect; command grid_fs; ask (find_file (named f.filename))
    elim r [
      | thrown ↦ return (neg eio, f)
      | ok none ↦ return (neg ebadf, f)
      | ok (some g) ↦ fill_from m.chunks f g
    ]

  -- The `$set` of a flush: the upload date, owner and mode are those of the old document.
  abbrev pub flush_changes : ℕ → Name → GridFile → Changes
  flush_changes now name g = record {
    filename = none;
    upload_date = some g.upload_date;
    metadata = record {
      kind = some (bytes "file");
      base = some (get_path_basename name);
      directory = some (get_path_dirname name);
      last_updated = some now;
      uid = g.metadata.uid;
      gid = g.metadata.gid;
      mode = g.metadata.mode;
      target = none;
    };
  }

  -- The inner `try` block: the new file is stored and its document completed.
  unfoldable pub save : ℕ → List ℕ → Name → GridFile → Action (World Db) ℤ
  save now buf name g =
      catching
        (do
          command grid_fs
          oid ← command (store_file buf name)
          elim oid [
            | none ↦ return (neg ebadf)
            | some id ↦ do command (update (by_id id) (flush_changes now name g)); return (pos 0)
          ])
        (return (neg eio))

  -- The outer `try` block: the old file is looked up and removed first.
  unfoldable pub replace : ℕ → List ℕ → Name → Action (World Db) ℤ
  unfolding save
  replace now buf name =
      catching
        (do
          command connect
          command grid_fs
          found ← ask (find_file (named name))
          elim found [
            | none ↦ return (neg ebadf)
            | some g ↦ do command (remove_file name); save now buf name g
          ])
        (return (neg eio))

  -- The part of `flush` behind the test that there is something to save.
  unfoldable pub flush_dirty : LocalFile → Action (World Db) (ℤ × LocalFile)
  unfolding replace
  flush_dirty f = do
    m ← draw e
    let buffer = create_flush_buffer m.buffer f
    if is_null buffer && ltb 0 f.size
        then return (neg enomem, f)
        else do code ← replace m.now (or_nothing buffer) f.filename; return (flushed f code)

  unfoldable pub flush : LocalFile → Action (World Db) (ℤ × LocalFile)
  unfolding flush_dirty
  flush f = if f.dirty then flush_dirty f else return (pos 0, f)

  -- The destructor saves a file that is still dirty; its result is not looked at.
  unfoldable pub destroy : LocalFile → Action (World Db) (Unit {0})
  unfolding flush
  destroy f = if f.dirty then (flush f >> return tt) else return tt
