-- ===== src/Tests/Directories.antt =====
-- The theorems on directories and links, on the concrete server: the root directory is open as the handle 13.
use mgridfs.Base.{
  ℕ, ◌≡◌, refl, ◌⊎◌, false, none, some, List, [], ◌∷◌, arith, pos, neg, Name, bytes, is_empty,
}
use mgridfs.Handle.{left_find}
use mgridfs.Utils.{get_path_basename, get_path_dirname}
use mgridfs.Server.Memory.{Doc}
use mgridfs.Server.Listing.{memory_listing}
use mgridfs.Server.Names.{memory_names}
use mgridfs.AttrOps.{mgridfs_symlink, mgridfs_readlink}
use mgridfs.AttrOps.Symlinks.{Target, mgridfs_readlink-mgridfs_symlink}
use mgridfs.World.{World}
use mgridfs.World.Ends.{Ends}
use mgridfs.World.Quiet.{Same, Never}
use mgridfs.Ops.{enotempty}
use mgridfs.DataOps.Write.{Open}
use mgridfs.DirOps.{mgridfs_mkdir, mgridfs_readdir, mgridfs_rmdir}
use mgridfs.DirOps.Listing.{Lists, mgridfs_readdir-mgridfs_mkdir, mgridfs_rmdir-mgridfs_mkdir}
use mgridfs.Tests.{env, docs}

abbrev in_root : World (List Doc)
in_root = record {
  db = docs;
  files = [];
  handles = record { table = (13, bytes "/") ∷ []; next = 13 };
  time = 0;
}

abbrev dir_d : Name
dir_d = bytes "/d"

dirname-dir_d : get_path_dirname dir_d ≡ bytes "/"
unfolding get_path_dirname mgridfs.Utils.dirname mgridfs.Utils.drop_slashes mgridfs.Utils.from_slash
dirname-dir_d = refl

basename-dir_d : is_empty (get_path_basename dir_d) ≡ false
unfolding get_path_basename mgridfs.Utils.basename mgridfs.Utils.before_slash
    mgridfs.Utils.drop_slashes
basename-dir_d = refl

open_13 : Open in_root 13 (get_path_dirname dir_d)
unfolding left_find
open_13 = record { nonzero = omega arith; handle = rw dirname-dir_d refl }

mgridfs_readdir-mgridfs_mkdir_example :
    Ends
      (λ code v.
        Same in_root v
        × (code ≡ pos 0
            → Ends
                (λ r u. Lists env memory_listing (get_path_basename dir_d) r)
                Never
                (mgridfs_readdir env (get_path_dirname dir_d) 13 v)))
      Never
      (mgridfs_mkdir env dir_d 448 in_root)
mgridfs_readdir-mgridfs_mkdir_example =
    mgridfs_readdir-mgridfs_mkdir env memory_listing dir_d 448 13 in_root basename-dir_d open_13

mgridfs_rmdir-mgridfs_mkdir_example :
    Ends
      (λ code v.
        code ≡ pos 0
        → Ends
            (λ r u. (r ≡ neg enotempty) ⊎ (r ≡ neg 5))
            Never
            (mgridfs_rmdir env (get_path_dirname dir_d) v))
      Never
      (mgridfs_mkdir env dir_d 448 in_root)
mgridfs_rmdir-mgridfs_mkdir_example =
    mgridfs_rmdir-mgridfs_mkdir env memory_listing dir_d 448 in_root

mgridfs_readlink-mgridfs_symlink_example :
    Ends
      (λ code v.
        Same in_root v
        × (((code ≡ pos 0)
              × Ends
                  (λ r u.
                    ((buf : List ℕ) × (r ≡ (pos 0, some buf)) × Target 8 (bytes "/a") buf)
                    ⊎ (r ≡ (neg 5, none)))
                  Never
                  (mgridfs_readlink env dir_d 8 v))
            ⊎ (code ≡ neg 5)))
      Never
      (mgridfs_symlink env (bytes "/a") dir_d in_root)
mgridfs_readlink-mgridfs_symlink_example =
    mgridfs_readlink-mgridfs_symlink env memory_names (bytes "/a") dir_d 8 in_root (omega arith)
