-- ===== src/Tests/Entries.antt =====
-- The theorems on creation, directories, links and times, in the concrete state.
use mgridfs.Base.{refl, arith, bytes}
use mgridfs.World.Ends.{Ends}
use mgridfs.World.Quiet.{Same, Never}
use mgridfs.FileOps.{mgridfs_create}
use mgridfs.FileOps.Create.{Created, mgridfs_create-Created}
use mgridfs.DirOps.{mgridfs_opendir, mgridfs_load_or_create_root}
use mgridfs.DirOps.Root.{Rooted, mgridfs_load_or_create_root-Rooted}
use mgridfs.DirOps.Open.{DirOpened, mgridfs_opendir-DirOpened}
use mgridfs.Tests.{name_a, two_handles, two_handles-IsValid, env, at_work}

mgridfs_create-Created_example :
    Ends
      (Created env (bytes "/b") two_handles (at_work 6).files)
      Never
      (mgridfs_create env (bytes "/b") 420 0 (at_work 6))
mgridfs_create-Created_example =
    mgridfs_create-Created env (bytes "/b") refl (at_work 6) 420 0 two_handles-IsValid (omega arith)

mgridfs_opendir-DirOpened_example :
    Ends (DirOpened env name_a two_handles) Never (mgridfs_opendir env name_a (at_work 6))
mgridfs_opendir-DirOpened_example =
    mgridfs_opendir-DirOpened env name_a refl (at_work 6) two_handles-IsValid (omega arith)

-- a target of six bytes in a buffer of four
mgridfs_load_or_create_root-Rooted_example :
    Ends
      (λ code v. Same (at_work 6) v × Rooted env code v.db)
      Never
      (mgridfs_load_or_create_root env 0 0 (at_work 6))
mgridfs_load_or_create_root-Rooted_example = mgridfs_load_or_create_root-Rooted env 0 0 (at_work 6)
