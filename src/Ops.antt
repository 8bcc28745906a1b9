-- ===== src/Ops.antt =====
-- What the handlers of file_meta_ops.cpp, dir_meta_ops.cpp and fs_meta_ops.cpp share: errno values,
-- flag and mode bits, the object `FileHandle` of a call, and the update of a file in memory. A
-- handler's result is the `int` that it returns; `ffinfo->fh` and `ffinfo->flags` are arguments, and
-- a handler that sets the handle returns it too.
use mgridfs.Base.{ℕ, ◌+◌, ◌/◌, ◌%◌, ◌^◌, Bool, Option, none, some, ◌==◌, if◌then◌else◌, Name}
use mgridfs.LocalFile.{LocalFile}
use mgridfs.Handle.{FileHandle, file_handle, unassign_handle}
use mgridfs.Utils.{get_path_basename, get_path_dirname}
use mgridfs.Server.{Changes}
use mgridfs.World.{World, Action, ◌>>◌, return, set_handles, set_files}
use mgridfs.LocalFs.{put}

abbrev pub eacces : ℕ
eacces = 13

abbrev pub enotdir : ℕ
enotdir = 20

abbrev pub einval : ℕ
einval = 22

abbrev pub enfile : ℕ
enfile = 23

abbrev pub enotempty : ℕ
enotempty = 39

abbrev pub enotsup : ℕ
enotsup = 95

-- Bit `k` of a flag word, and the word with it set.
abbrev pub bit : ℕ → ℕ → Bool
bit k x = x / 2 ^ k % 2 == 1

abbrev pub or_bit : ℕ → ℕ → ℕ
or_bit k x = if bit k x then x else x + 2 ^ k

-- `(flags & O_ACCMODE) == O_RDONLY`, `flags & O_CREAT` and `flags & O_TRUNC`.
abbrev pub is_rdonly : ℕ → Bool
is_rdonly flags = flags % 4 == 0

abbrev pub o_creat : ℕ → Bool
o_creat flags = bit 6 flags

abbrev pub o_trunc : ℕ → Bool
o_trunc flags = bit 9 flags

-- `S_ISDIR`, `S_ISREG` and `S_ISLNK`: the file type is in the four bits above the lowest twelve.
abbrev pub s_isdir : ℕ → Bool
s_isdir mode = mode / 2 ^ 12 % 16 == 4

abbrev pub s_isreg : ℕ → Bool
s_isreg mode = mode / 2 ^ 12 % 16 == 8

abbrev pub s_islnk : ℕ → Bool
s_islnk mode = mode / 2 ^ 12 % 16 == 10

-- The `$set` that completes the document of a new entry.
abbrev pub entry_changes : Name → Name → ℕ → ℕ → ℕ → ℕ → Option Name → Changes
entry_changes kind path now uid gid mode target = record {
  filename = none;
  upload_date = none;
  metadata = record {
    kind = some kind;
    base = some (get_path_basename path);
    directory = some (get_path_dirname path);
    last_updated = some now;
    uid = some uid;
    gid = some gid;
    mode = some mode;
    target = target;
  };
}

module _ {Db : Type 0} where
  -- The object of a handler's call.
  abbrev pub this_handle : World Db → Name → ℕ → FileHandle
  this_handle w file fh = file_handle w.handles file fh

  abbrev pub unassign : FileHandle → Action (World Db) (Unit {0})
  unassign h w = set_handles (unassign_handle h w.handles).1 w

  -- A call on the file of that name left it as it is here.
  abbrev pub keep : {A : Type 0} → Name → A × LocalFile → Action (World Db) A
  keep name (code, f) w = (set_files (put name f w.files) >> return code) w
