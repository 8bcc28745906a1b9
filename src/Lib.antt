-- ===== src/Lib.antt =====
-- Verification library of mgridfs, a FUSE file system on MongoDB's GridFS.
--
-- The program and its model. FUSE calls the handlers `mgridfs_*`. A file that is open for writing is
-- held in memory as chunks of one size and saved to the server when it is flushed or released; a
-- file that is open for reading is read from the server chunk by chunk. Open handles are kept in a
-- table. A paragraph for each part, with the file that models it:
--
--   Base        lists and words: `size_t`, `off_t` and the other integers are natural numbers with
--               the wrap of their width written out, and a negative `off_t` is its two's complement.
--   LocalFile   local_grid_file.h and local_grid_file.cpp, `LocalMemoryGridFile`: the record of its
--               fields, with `setSize`, `write`, `_write`, `read` and `createFlushBuffer`. Memory that
--               is allocated has arbitrary bytes, an allocation may fail, and an index out of range
--               is the fault `none`. Valid has the representation invariant.
--   Sync        `openRemote`, `initLocalBuffers`, `flush` and the destructor of the same class. Loading
--               and Opening follow the chunks of the server into memory, Answered a flush that succeeds.
--   Handle      file_handle.h and file_handle.cpp: the table of handles and their generator.
--   LocalFs     local_gridfs.cpp, `LocalGridFS`: the files in memory by name. Consistent has the
--               invariant of the state that all handlers share, with the rules to show that an action
--               keeps it; the module Keeps of each part shows it of the operations of that part.
--   DataOps     file_meta_ops.cpp: `mgridfs_read`, `mgridfs_write` and the calls that set a size.
--   FileOps     file_meta_ops.cpp: create, open, flush, fsync and release. Session and Life
--               follow a file through several calls: created, written, saved, closed, opened and read.
--   AttrOps     file_meta_ops.cpp: the handlers that read or update a file's document, and those
--               that only refuse (Unsupported). Documents has what an update leaves, Shown what
--               `mgridfs_getattr` makes of it, and Symlinks a link made and read.
--   DirOps      dir_meta_ops.cpp and fs_meta_ops.cpp: directories, the root, the statistics. Listing
--               follows a directory through the making of an entry, a listing and a removal.
--   Options     fs_options.h and fs_options.cpp: the table of the options, the callback for those that
--               have a key, the defaults and the limits.
--   Mount       fs_options.cpp, `fromCommandLine`: the options are put in force, the root directory is
--               loaded, the log file is opened.
--   Main        main.cpp: the table of the FUSE operations and `main`, with `mgridfs_init` and
--               `mgridfs_destroy` of fs_meta_ops.cpp. Reach has the runs of the mounted file system as
--               a relation: in each step the kernel makes a call with any arguments at all. Runs
--               has the ways in which the program ends, and the demands on the main loop of FUSE.
--   Logger      fs_logger.h and fs_logger.cpp: levels, destinations and the log stream.
--   Utils       utils.cpp: paths, upper case, blocks.
--   Server      the MongoDB driver and its GridFS class, which are not part of the repository: a
--               record of operations, a parameter of every handler. Each operation may throw. Laws
--               states what the code relies on: of stored files, of documents, of listings, and of a
--               server that answers everything. Memory is a concrete database; Answers, Listing and
--               Names show that it meets them.
--   World       the state that the handlers share, and their monad: an action returns, throws, or is
--               a fault. Ends and Quiet are the rules to reason on it.
--   Ops         flags, modes and errno values of the handlers.
--   Tests       concrete states to which the theorems are applied.
--
-- Conventions. A handler is a function of its arguments and the state to its result and the state;
-- `ffinfo->fh` and `ffinfo->flags` are arguments, and a buffer or a structure that is filled in is
-- part of the result. Time, memory and the caller's identity are in the environment, time and memory
-- as a sequence of moments, of which an action takes the next one each time that it asks.
--
-- Bounds and fuel. The search for a handle runs on fuel of one round for each open handle and two
-- more: each round but the last meets an open handle that no later round meets again. The loops over
-- chunks are recursion on the number of rounds that the code computes. The theorems on files in
-- memory assume chunks of at least two bytes that an `int` counts and a largest size far from the
-- wrap of 64 bits; sizes of files read from the server are below 2 ^ 32.
--
-- Not modelled. The placeholder test_main.cpp and the programs of driver/ are not part of the file
-- system. `fuse_opt_parse` and `fuse_main` are FUSE's: `main` takes them as arguments, and Main/Runs
-- states what it relies on. The text of the help and of log messages has no effect on the results and
-- is left out. The FUSE calls come one at a time, as the README has the program run with a single
-- thread. The scaling in floating point of `mgridfs_statfs` is an argument.
pub mod Base
pub mod LocalFile
pub mod Handle
pub mod Utils
pub mod Logger
pub mod Options
pub mod Server
pub mod World
pub mod Sync
pub mod LocalFs
pub mod Ops
pub mod DataOps
pub mod FileOps
pub mod AttrOps
pub mod DirOps
pub mod Mount
pub mod Main
pub mod Tests
