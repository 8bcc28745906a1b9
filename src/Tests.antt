-- ===== src/Tests.antt =====
-- Concrete files, handles and a concrete server, on which the theorems are applied.
pub mod Local
pub mod Parts
pub mod Handlers
pub mod Entries
pub mod Runs
pub mod Saving
pub mod Sessions
pub mod Directories
use mgridfs.Base.{
  ℕ, ◌+◌, ◌≤◌, ◌≡◌, refl, ◌≢◌, true, false, none, some, List, [], ◌∷◌, arith, Name, bytes,
  name_eq_refl,
}
use mgridfs.LocalFile.{LocalFile, Alloc}
use mgridfs.LocalFile.Valid.{IsValid, Limits}
use mgridfs.Handle.{Handles, left_find}
use mgridfs.Handle.Assign
use mgridfs.Logger.{LogLevel, ll_info}
use mgridfs.Options.{FsOptions}
use mgridfs.Server.{Server}
use mgridfs.Server.Memory.{memory, Doc}
use mgridfs.World.{Env, World, Moment}
use mgridfs.LocalFs.{find_by_name}
use mgridfs.DataOps.Write.{Open}

abbrev pub name_a : Name
name_a = bytes "/a"

-- Two chunks of four bytes.
abbrev pub two_chunks : List (List ℕ)
two_chunks = (1 ∷ 2 ∷ 3 ∷ 4 ∷ []) ∷ (5 ∷ 6 ∷ 7 ∷ 8 ∷ []) ∷ []

abbrev pub sized : ℕ → LocalFile
sized n = record {
  size = n;
  capacity = 8;
  read_only = false;
  dirty = true;
  filename = name_a;
  chunk_size = 4;
  chunks = two_chunks;
}

pub sized-IsValid : (n : ℕ) → n ≤ 8 → IsValid 100 (sized n)
sized-IsValid n h = record {
  limits = record {
    two = omega arith;
    small = omega arith;
    no_wrap = omega arith;
    countable = omega arith;
  };
  blocks = (refl, (refl, tt));
  counted = refl;
  size_fits = h;
  bounded = omega arith;
}

abbrev pub zeros : Alloc
zeros i = some (λ j. 0)

pub zeros-Plenty : (i : ℕ) → zeros i ≢ none
zeros-Plenty i h = ground arith

-- Two handles on one file.
abbrev pub two_handles : Handles
two_handles = record { table = (12, name_a) ∷ (11, name_a) ∷ []; next = 12 }

pub two_handles-IsValid : Assign.IsValid two_handles
unfolding left_find
two_handles-IsValid = record {
  distinct = (refl, (refl, tt));
  proper = ((omega arith, refl), ((omega arith, refl), tt));
  started = omega arith;
}

abbrev pub options : FsOptions
options = record {
  host = bytes "localhost";
  db = bytes "test";
  coll_prefix = bytes "fs";
  connect_string = bytes "localhost:27017";
  port = 27017;
  log_file = [];
  log_level = ll_info;
  files_ns = bytes "test.fs.files";
  chunks_ns = bytes "test.fs.chunks";
  mem_chunk_size = 4;
  max_mem_file_chunks = 25;
  max_mem_file_size = 100;
  enable_dyn_mem_chunk = false;
  metadata_key_map = [];
}

abbrev pub env : Env
env = record {
  server = memory;
  options = options;
  context = record { uid = 1000; gid = 100; umask = 18 };
  moment = λ t. record { chunks = zeros; buffer = some (λ j. 0); object = true; now = 5000 + t };
}

abbrev pub docs : List Doc
docs =
    record {
      id = 0;
      name = name_a;
      content = 1 ∷ 2 ∷ 3 ∷ 4 ∷ 5 ∷ [];
      upload_date = 0;
      metadata = mgridfs.Server.no_meta;
    }
    ∷ []

abbrev pub at_work : ℕ → World (List Doc)
at_work n = record { db = docs; files = (name_a, sized n) ∷ []; handles = two_handles; time = 0 }

pub open_12 : (n : ℕ) → Open (at_work n) 12 name_a
unfolding left_find
open_12 n = record { nonzero = omega arith; handle = refl }

pub held : (n : ℕ) → find_by_name name_a (at_work n).files ≡ some (sized n)
unfolding find_by_name
held n = rw (name_eq_refl name_a)
