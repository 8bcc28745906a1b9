-- ===== src/LocalFs.antt =====
-- local_gridfs.h and local_gridfs.cpp: `_localGridFileMap`, the files that are held in memory, as an
-- association list of the state. `NULL` entries do not arise: a file is put in only if it was made.
pub mod Map
pub mod Consistent
pub mod Keeps
use mgridfs.Base.{
  Bool, true, false, Option, none, some, List, [], ◌∷◌, if◌then◌else◌, Name, name_eq,
}
use mgridfs.LocalFile.{LocalFile, new_file}
use mgridfs.Handle.{is_some}
use mgridfs.World.{Env, World, Action, ◌>>=◌, ◌>>◌, return, draw, world, set_files}
use mgridfs.Sync.{flush, destroy}

abbrev pub Files : Type 0
Files = List (Name × LocalFile)

unfoldable pub find_by_name : Name → Files → Option LocalFile
find_by_name n [] = none
find_by_name n ((m, f) ∷ fs) = if name_eq m n then some f else find_by_name n fs

-- The file behind a pointer of the map, after a call that changed it.
unfoldable pub put : Name → LocalFile → Files → Files
put n f [] = []
put n f ((m, g) ∷ fs) = if name_eq m n then (m, f) ∷ fs else (m, g) ∷ put n f fs

unfoldable pub erase_file : Name → Files → Files
erase_file n [] = []
erase_file n ((m, f) ∷ fs) = if name_eq m n then erase_file n fs else (m, f) ∷ erase_file n fs

-- `map::insert`: an entry that is there stays as it is.
unfoldable pub insert_file : Name → LocalFile → Files → Files
insert_file n f fs = if is_some (find_by_name n fs) then fs else (n, f) ∷ fs

module _ (e : Env) where
  unfoldable pub create_file : Name → Action (World e.server.Db) (Option LocalFile)
  create_file name = do
    m ← draw e
    w ← world
    let f = new_file e.options.mem_chunk_size name
    if m.object then (do set_files (insert_file name f w.files); return (some f)) else return none

  -- The file leaves the map, is flushed, and is destroyed.
  abbrev pub let_go : Name → Option LocalFile → Action (World e.server.Db) Bool
  let_go name none = return true
  let_go name (some f) = do
    w ← world
    set_files (erase_file name w.files)
    r ← flush e f
    destroy e r.1
    return true

  unfoldable pub release_file : Name → Action (World e.server.Db) Bool
  release_file name = do w ← world; let_go name (find_by_name name w.files)

  unfoldable pub release_all_files : Bool → Action (World e.server.Db) Bool
  release_all_files flush_all = return false
