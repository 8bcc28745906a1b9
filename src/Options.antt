-- ===== src/Options.antt =====
-- fs_options.h and fs_options.cpp: the options of the file system, from what the FUSE library has
-- parsed of the command line. Mount.antt has the end of `fromCommandLine`, which talks to the server.
pub mod Limits
use mgridfs.Base.{
  ℕ, zero, suc, ◌+◌, ◌*◌, ◌/◌, ◌%◌, ◌^◌, Bool, true, not, Option, none, some, List, [], ◌∷◌, ◌++◌,
  ltb, ◌==◌, if◌then◌else◌, ℤ, pos, neg, uint32, Name, bytes,
}
use mgridfs.Logger.{LogLevel, ll_invalid, ll_info, level, string_to_log_level}
use mgridfs.Utils.{to_upper}

-- `_ParsedFuseOptions`; a null pointer is `none`, a number that is not given is 0.
pub record ParsedOptions : Type 0 where
  pub host : Option Name
  pub db : Option Name
  pub coll_prefix : Option Name
  pub port : ℕ
  pub mem_chunk_size : ℕ
  pub max_mem_file_chunks : ℕ
  pub log_file : Option Name
  pub log_level : Option Name

-- `FSOptions`. The host and port stand for `_hostAndPort` too.
pub record FsOptions : Type 0 where
  pub host : Name
  pub db : Name
  pub coll_prefix : Name
  pub connect_string : Name
  pub port : ℕ
  pub log_file : Name
  pub log_level : LogLevel
  pub files_ns : Name
  pub chunks_ns : Name
  pub mem_chunk_size : ℕ
  pub max_mem_file_chunks : ℕ
  pub max_mem_file_size : ℕ
  pub enable_dyn_mem_chunk : Bool
  pub metadata_key_map : List (Name × Name)

abbrev pub default_memory_grid_file_chunk_size : ℕ
default_memory_grid_file_chunk_size = 128

abbrev pub default_max_memory_file_chunks : ℕ
default_max_memory_file_chunks = 64 * 1024 / 128

-- The keys of `MGRIDFS_KEYS`, and any other key that FUSE hands over.
pub data Key : Type 0 where
  key_none key_enable_dyn_mem_chunk key_help key_version key_other : Key

-- A field of `_ParsedFuseOptions`, into which FUSE parses the value of an option.
pub data Field : Type 0 where
  to_host to_port to_db to_coll_prefix to_log_file to_log_level : Field
  to_mem_chunk_size to_max_mem_file_chunks : Field

-- An entry of `mgridfsOptions`: a template with its field (`MGRIDFS_OPT_KEY`), or an option that goes
-- to the callback with its key (`FUSE_OPT_KEY`).
pub data FuseOpt : Type 0 where
  opt_field : Name → Field → FuseOpt
  opt_key : Name → Key → FuseOpt

abbrev pub mgridfs_options : List FuseOpt
mgridfs_options =
    opt_field (bytes "--host=%s") to_host
    ∷ opt_field (bytes "--port=%d") to_port
    ∷ opt_field (bytes "--db=%s") to_db
    ∷ opt_field (bytes "--collprefix=%s") to_coll_prefix
    ∷ opt_field (bytes "--logfile=%s") to_log_file
    ∷ opt_field (bytes "--loglevel=%s") to_log_level
    ∷ opt_field (bytes "--memChunkSize=%d") to_mem_chunk_size
    ∷ opt_field (bytes "--maxMemFileChunks=%d") to_max_mem_file_chunks
    ∷ opt_key (bytes "--enableDynMemChunk") key_enable_dyn_mem_chunk
    ∷ opt_key (bytes "--help") key_help
    ∷ opt_key (bytes "--version") key_version
    ∷ []

-- What `fuseOptionCallback` does: it ends the program, or returns a number and leaves the flag
-- `_enableDynMemChunk` set or not.
pub data Handled : Type 0 where
  exits : Handled
  returned : ℤ → Bool → Handled

unfoldable pub fuse_option_callback : Key → Bool → Handled
fuse_option_callback key_help dyn = exits
fuse_option_callback key_version dyn = exits
fuse_option_callback key_enable_dyn_mem_chunk dyn = returned (neg 1) true
fuse_option_callback key_none dyn = returned (pos 1) dyn
fuse_option_callback key_other dyn = returned (pos 1) dyn

-- The decimal digits that the string stream prints; a number of 32 bits has at most ten.
unfoldable pub digits_of : ℕ → ℕ → Name → Name
digits_of zero n out = out
digits_of (suc fuel) n out =
    let rest = digits_of fuel (n / 10) ((b'0' + n % 10) ∷ out) in
    if ltb n 10 then (b'0' + n) ∷ out else rest

abbrev pub decimal : ℕ → Name
decimal n = digits_of 10 n []

abbrev pub or_default : Option Name → Name → Name
or_default none d = d
or_default (some n) d = n

abbrev pub or_number : ℕ → ℕ → ℕ
or_number n d = if n == 0 then d else n

-- The port is 0, which stands for the default, or one that exists.
unfoldable pub port_in_range : ℕ → Bool
port_in_range port = if port == 0 then true else not (ltb 65535 port)

abbrev pub level_or_info : LogLevel → LogLevel
level_or_info l = if level l == level ll_invalid then ll_info else l

unfoldable pub chosen_level : Option Name → LogLevel
chosen_level none = ll_info
chosen_level (some s) = level_or_info (string_to_log_level (name_of (to_upper (some s))))
  where
    name_of : Option Name → Name
    name_of none = []
    name_of (some n) = n

abbrev pub dot : Name
dot = bytes "."

-- The product of an `unsigned int` and 1024 is an `unsigned int`; that of two `size_t` is a `size_t`.
unfoldable pub chunk_bytes : ParsedOptions → ℕ
chunk_bytes p = uint32 (or_number p.mem_chunk_size default_memory_grid_file_chunk_size * 1024)

unfoldable pub max_chunks : ParsedOptions → ℕ
max_chunks p = or_number p.max_mem_file_chunks default_max_memory_file_chunks

-- The options with the defaults filled in.
unfoldable pub options_of : ParsedOptions → Bool → FsOptions
options_of p dyn =
    let host = or_default p.host (bytes "localhost") in
    let port = or_number p.port 27017 in
    let db = or_default p.db (bytes "test") in
    let coll_prefix = or_default p.coll_prefix (bytes "fs") in
    record {
      host = host;
      db = db;
      coll_prefix = coll_prefix;
      connect_string = host ++ bytes ":" ++ decimal port;
      port = port;
      log_file = [];
      log_level = chosen_level p.log_level;
      files_ns = db ++ dot ++ coll_prefix ++ bytes ".files";
      chunks_ns = db ++ dot ++ coll_prefix ++ bytes ".chunks";
      mem_chunk_size = chunk_bytes p;
      max_mem_file_chunks = max_chunks p;
      max_mem_file_size = chunk_bytes p * max_chunks p % 2 ^ 64;
      enable_dyn_mem_chunk = dyn;
      metadata_key_map = [];
    }

-- `fromCommandLine` up to the call that loads the root; `none` is its `false`.
unfoldable pub resolve : ParsedOptions → Bool → Option FsOptions
resolve p dyn = if port_in_range p.port then some (options_of p dyn) else none
