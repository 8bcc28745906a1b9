-- ===== src/Tests/Runs.antt =====
-- The theorems on runs of the program, on the concrete server.
use mgridfs.Base.{
  ℕ, ◌≡◌, refl, ap, ◌∙◌, ◌≢◌, Bool, true, false, Option, none, some, List, [], ◌∷◌, arith, ℤ, pos,
  negsuc, bytes, name_eq,
}
use mgridfs.World.{Env, World, Outcome, done, raised, fault, return, ◌>>◌, Action}
use mgridfs.Main.{Call, Answer, open_file, write, flush, release, unlink, main, mgridfs_ops}
use mgridfs.LocalFile.{
  LocalFile, raw_write, write_chunks, add_chunk, grow, set_size, new_file, make_room,
}
use mgridfs.LocalFile
use mgridfs.Handle.{
  assign_handle, file_handle, generate_next_handle, scan, left_find, insert, is_valid,
}
use mgridfs.LocalFs.{find_by_name, put, insert_file, create_file}
use mgridfs.Sync.{open_remote}
use mgridfs.FileOps.{assign}
use mgridfs.LocalFile.Valid.{Limits}
use mgridfs.LocalFs.Consistent.{Consistent}
use mgridfs.World.Ends.{Ends}
use mgridfs.World.Quiet.{Same, Never}
use mgridfs.Logger.{new_manager}
use mgridfs.Options.{
  ParsedOptions, FsOptions, Key, Handled, exits, returned, mgridfs_options, fuse_option_callback,
}
use mgridfs.AttrOps.{mgridfs_unlink}
use mgridfs.Mount.{FuseOptParse, Parse, parse_exit, parse_failed, parsed, from_command_line}
use mgridfs.Mount.Mounted.{Tells, from_command_line-Tells}
use mgridfs.Main.Runs.{
  key_of, ParseLaws, Served, returns, throws, faults, Serves, Modest, Ended, main_enable_dyn,
  main-Ended,
}
use mgridfs.Server.Memory.{Doc, find_doc}
use mgridfs.DataOps.{mgridfs_write}
use mgridfs.Main.Reach.{
  fresh, fresh-Consistent, Reach, Step, call, here, next, Reach-Consistent, Reach-no_throw,
}
use mgridfs.FileOps.{mgridfs_open}
use mgridfs.Tests.{name_a, env, docs, at_work, sized-IsValid}

-- What the calls leave: an open for writing of the stored file, a write and a flush.
abbrev file_now : List ℕ → Bool → LocalFile
file_now first dirty = record {
  size = 5;
  capacity = 8;
  read_only = false;
  dirty = dirty;
  filename = name_a;
  chunk_size = 4;
  chunks = first ∷ (5 ∷ 0 ∷ 0 ∷ 0 ∷ []) ∷ [];
}

abbrev after_open : World (List Doc)
after_open = record {
  db = docs;
  files = (name_a, file_now (1 ∷ 2 ∷ 3 ∷ 4 ∷ []) false) ∷ [];
  handles = record { table = (11, name_a) ∷ []; next = 11 };
  time = 2;
}

abbrev after_write : World (List Doc)
after_write = record after_open {
  files = (name_a, file_now (1 ∷ 9 ∷ 9 ∷ 4 ∷ []) true) ∷ [];
  time = 3;
}

abbrev nothing_scaled : ℕ → ℕ → ℕ → ℕ
nothing_scaled a b n = n

opening : Step env nothing_scaled (fresh docs) after_open
unfolding mgridfs_ops mgridfs_open assign assign_handle file_handle generate_next_handle scan
    left_find insert find_by_name put insert_file create_file find_doc name_eq open_remote raw_write
    write_chunks add_chunk grow set_size new_file
opening = call (open_file name_a 2) {a = (pos 0, 11)} {w = fresh docs} {w' = after_open} refl refl

writing : Step env nothing_scaled after_open after_write
unfolding mgridfs_ops mgridfs_write file_handle is_valid left_find find_by_name name_eq put
    LocalFile.write make_room raw_write write_chunks
writing =
    call (write name_a (9 ∷ 9 ∷ []) 1 11) {a = pos 2} {w = after_open} {w' = after_write} refl refl

limits : Limits 100 4
limits = (sized-IsValid 6 (omega arith)).limits

Reach-Consistent_example : Consistent env after_write
Reach-Consistent_example =
    Reach-Consistent env limits nothing_scaled (fresh-Consistent env docs)
      (next (next here opening) writing)

Reach-no_throw_example : mgridfs_unlink env name_a after_write ≢ raised after_open
unfolding mgridfs_ops
Reach-no_throw_example =
    Reach-no_throw env limits nothing_scaled (unlink name_a) (fresh-Consistent env docs)
      (next (next here opening) writing) refl

-- A command line without options, and one with a key.
abbrev no_options : ParsedOptions
no_options = record {
  host = none;
  db = none;
  coll_prefix = none;
  port = 0;
  mem_chunk_size = 0;
  max_mem_file_chunks = 0;
  log_file = none;
  log_level = none;
}

abbrev after_callback : Handled → Parse
after_callback exits = parse_exit
after_callback (returned (pos n) dyn) = parsed no_options dyn
after_callback (returned (negsuc n) dyn) = parse_failed

-- A parser that looks at the first argument only.
abbrev keyed : (Key → Bool → Handled) → Option Key → Parse
keyed callback none = parsed no_options false
keyed callback (some k) = after_callback (callback k false)

abbrev first_only : FuseOptParse
first_only options callback [] = parsed no_options false
first_only options callback (program ∷ []) = parsed no_options false
first_only options callback (program ∷ a ∷ rest) = keyed callback (key_of a options)

abbrev first_only_laws : ParseLaws first_only
first_only_laws = record {
  fails =
      λ options callback program b more rest k dyn h q. ap (keyed callback) h ∙ ap after_callback q;
}

-- A main loop that makes the calls of a list, one after the other.
abbrev env_of : FsOptions → Env
env_of o = record env { options = o }

abbrev if_supported :
    {A : Type 0}
    → Action (World (List Doc)) ℤ
    → Option (Action (World (List Doc)) A)
    → Action (World (List Doc)) ℤ
if_supported k none = k
if_supported k (some m) = m >> k

abbrev run_calls : List Call → FsOptions → Action (World (List Doc)) ℤ
run_calls [] o = return (pos 0)
run_calls (c ∷ cs) o = if_supported (run_calls cs o) (mgridfs_ops (env_of o) nothing_scaled c)

abbrev GoesOn : FsOptions → World (List Doc) → Action (World (List Doc)) ℤ → Type 0
GoesOn o w k =
    (v : World (List Doc))
    → Reach (env_of o) nothing_scaled w v
    → Served (env_of o) nothing_scaled w (k v)

module _ (o : FsOptions) (w : World (List Doc)) (k : Action (World (List Doc)) ℤ)
    (rest : GoesOn o w k) (c : Call) where
  outcome-Served :
      (m : Action (World (List Doc)) (Answer c)) (v : World (List Doc))
      → Reach (env_of o) nothing_scaled w v
      → mgridfs_ops (env_of o) nothing_scaled c ≡ some m
      → (out : Outcome (World (List Doc)) (Answer c)) → m v ≡ out
      → Served
          (env_of o)
          nothing_scaled
          w
          (elim out [ done a u ↦ k u | raised u ↦ raised u | fault ↦ fault ])
  outcome-Served m v r q (done a u) h = rest u (next r (call c q h))
  outcome-Served m v r q (raised u) h = throws c m v u refl r q h
  outcome-Served m v r q fault h = faults c m v refl r q h

  supported-Served :
      (q : Option (Action (World (List Doc)) (Answer c)))
      → mgridfs_ops (env_of o) nothing_scaled c ≡ q
      → GoesOn o w (if_supported k q)
  supported-Served none h v r = rest v r
  supported-Served (some m) h v r = outcome-Served m v r h (m v) refl

run_calls-GoesOn :
    (cs : List Call) (o : FsOptions) (w : World (List Doc)) → GoesOn o w (run_calls cs o)
run_calls-GoesOn [] o w = λ v r. returns (pos 0) v refl r
run_calls-GoesOn (c ∷ cs) o w =
    supported-Served o w (run_calls cs o) (run_calls-GoesOn cs o w) c
      (mgridfs_ops (env_of o) nothing_scaled c) refl

run_calls-Serves : (cs : List Call) → Serves env nothing_scaled (run_calls cs)
run_calls-Serves cs o w = run_calls-GoesOn cs o w w here

abbrev session : List Call
session =
    open_file name_a 2 ∷ write name_a (9 ∷ 9 ∷ []) 1 11 ∷ flush name_a 2 11 ∷ release name_a 11 ∷ []

main_enable_dyn_example :
    main env first_only
      (run_calls session)
      0
      0
      (bytes "mgridfs" ∷ bytes "--enableDynMemChunk" ∷ bytes "/mnt" ∷ [])
      (at_work 6)
    ≡ done 1 (at_work 6)
main_enable_dyn_example =
    main_enable_dyn env nothing_scaled (run_calls session) first_only first_only_laws 0 0
      (bytes "mgridfs") (bytes "/mnt" ∷ []) (at_work 6)

modest : Modest (first_only mgridfs_options fuse_option_callback [])
modest p dyn h = let same : no_options ≡ p = cc h in rw (← same) (omega arith, omega arith)

main-Ended_example :
    Ended env nothing_scaled
      (run_calls session)
      0
      0
      (first_only mgridfs_options fuse_option_callback [])
      (fresh docs)
      (main env first_only (run_calls session) 0 0 [] (fresh docs))
main-Ended_example =
    main-Ended env nothing_scaled (run_calls session) first_only (run_calls-Serves session) 0 0 []
      docs modest

from_command_line-Tells_example :
    Ends
      (λ r v.
        Same (at_work 6) v × Tells env 0 0 new_manager (parsed no_options false) (at_work 6) r v)
      Never
      (from_command_line env 0 0 new_manager (parsed no_options false) (at_work 6))
from_command_line-Tells_example =
    from_command_line-Tells env 0 0 new_manager (parsed no_options false) (at_work 6)
