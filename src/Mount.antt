-- ===== src/Mount.antt =====
-- fs_options.cpp: `fromCommandLine` as a whole, over what the FUSE library makes of the command line.
-- The globals `globalFSOptions` and the log manager are what it returns; its messages are left out.
pub mod Mounted
use mgridfs.Base.{ℕ, Bool, Option, none, some, List, [], ◌∷◌, if◌then◌else◌, ℤ, Name, bytes}
use mgridfs.Logger.{Manager, set_log_level, register_destination}
use mgridfs.Options.{ParsedOptions, FsOptions, Key, FuseOpt, Handled, resolve}
use mgridfs.World.{Env, World, Action, ◌>>=◌, return}
use mgridfs.FileOps.{is_zero}
use mgridfs.DirOps.{mgridfs_load_or_create_root}

-- How `fuse_opt_parse` ends: the callback ended the program, or it returns -1, or the options are
-- parsed, with the flag that the callback left.
pub data Parse : Type 0 where
  parse_exit : Parse
  parse_failed : Parse
  parsed : ParsedOptions → Bool → Parse

-- `fuse_opt_parse` as a function of the table of options, the callback and the arguments.
abbrev pub FuseOptParse : Type 0
FuseOptParse = List FuseOpt → (Key → Bool → Handled) → List Name → Parse

-- How `fromCommandLine` ends: the program has ended, or it returns false, or true with the options and
-- the log manager set up.
pub data Started : Type 0 where
  exited : Started
  refused : Started
  started : FsOptions → Manager → Started

-- The keys of the extended attributes.
abbrev pub metadata_keys : List (Name × Name)
metadata_keys =
    (bytes "file.chunksize", bytes "chunkSize")
    ∷ (bytes "file.contenttype", bytes "contentType")
    ∷ (bytes "file.uploaddate", bytes "uploadDate")
    ∷ (bytes "file.md5", bytes "MD5")
    ∷ (bytes "file.chunks", bytes "numChunks")
    ∷ []

-- The log file, if one is named, takes the messages from here on.
unfoldable pub with_log_file : Option Name → FsOptions → Manager → Started
unfolding register_destination
with_log_file none o m = started (record o { metadata_key_map = metadata_keys }) m
with_log_file (some f) o m =
    started (record o { log_file = f; metadata_key_map = metadata_keys })
      (register_destination (some f) m).1

-- The result of loading the root directory.
unfoldable pub rooted : Option Name → FsOptions → Manager → ℤ → Started
unfolding with_log_file
rooted log_file o m code = if is_zero code then with_log_file log_file o m else refused

module _ (e : Env) (euid egid : ℕ) where
  -- The root directory is loaded with the options in force.
  unfoldable pub mount_with :
      Option Name → Manager → Option FsOptions → Action (World e.server.Db) Started
  unfolding rooted set_log_level
  mount_with log_file m none = return refused
  mount_with log_file m (some o) = do
    code ← mgridfs_load_or_create_root (record e { options = o }) euid egid
    return (rooted log_file o (set_log_level o.log_level m) code)

  unfoldable pub from_command_line : Manager → Parse → Action (World e.server.Db) Started
  unfolding mount_with
  from_command_line m parse_exit = return exited
  from_command_line m parse_failed = return refused
  from_command_line m (parsed p dyn) = mount_with p.log_file m (resolve p dyn)
