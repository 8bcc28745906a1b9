-- ===== src/Tests/Parts.antt =====
-- The theorems on handles, paths, log levels, log statements and options, at concrete values.
use mgridfs.Base.{◌≡◌, refl, false, none, some, [], ◌∷◌, ◌++◌, arith, bytes}
use mgridfs.LocalFile.Valid.{Limits}
use mgridfs.Handle.{FileHandle, assign_handle}
use mgridfs.Handle.Assign.{Assigned, assign_handle-Assigned}
use mgridfs.Utils.{slash, drop_slashes, get_path_basename, get_path_dirname}
use mgridfs.Utils.Paths.{path_parts}
use mgridfs.Logger.{LogLevel, ll_info, ll_error, statement, Manager, header, sink}
use mgridfs.Logger.Laws.{statement_lem}
use mgridfs.Options.{ParsedOptions, resolve, port_in_range, options_of}
use mgridfs.Options.Limits.{resolve-Limits}
use mgridfs.Tests.{name_a, two_handles, two_handles-IsValid}

abbrev for_b : FileHandle
for_b = record { filename = bytes "/b"; fh = 0 }

assign_handle-Assigned_example : Assigned for_b two_handles (assign_handle for_b two_handles)
assign_handle-Assigned_example =
    assign_handle-Assigned for_b two_handles two_handles-IsValid refl (omega arith)

abbrev handle_12 : FileHandle
handle_12 = record { filename = name_a; fh = 12 }

path_parts_example :
    (get_path_basename (bytes "/a" ++ slash ∷ bytes "b") ≡ bytes "b")
    × (get_path_dirname (bytes "/a" ++ slash ∷ bytes "b") ≡ bytes "/a")
unfolding drop_slashes
path_parts_example = path_parts (bytes "/a") (bytes "b") (refl, tt) refl refl

abbrev manager : LogLevel → Manager
manager l = record { ll = l; log_destination = none }

statement_lem_example :
    statement
      (manager ll_info)
      (manager ll_info)
      (bytes "now")
      ll_error
      (bytes "disk " ∷ bytes "full" ∷ [])
      []
    ≡ (sink none, header (bytes "now") ll_error ++ bytes "disk full") ∷ []
statement_lem_example =
    statement_lem (manager ll_info) (manager ll_info) (bytes "now") ll_error (bytes "disk ")
      (bytes "full" ∷ []) []

abbrev parsed : ParsedOptions
parsed = record {
  host = none;
  db = some (bytes "media");
  coll_prefix = none;
  port = 0;
  mem_chunk_size = 256;
  max_mem_file_chunks = 0;
  log_file = none;
  log_level = some (bytes "debug");
}

resolve-Limits_example :
    Limits (options_of parsed false).max_mem_file_size (options_of parsed false).mem_chunk_size
unfolding resolve port_in_range
resolve-Limits_example =
    resolve-Limits parsed false (options_of parsed false) refl (omega arith) (omega arith)
