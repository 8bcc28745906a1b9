-- ===== src/Tests/Handlers.antt =====
-- The theorems on the handlers, in a concrete state with one file in memory and two handles on it.
use mgridfs.Base.{
  ℕ, ◌≡◌, refl, inl, true, some, List, [], ◌∷◌, arith, take, pos, neg, bytes, name_eq_refl,
}
use mgridfs.LocalFile.{LocalFile}
use mgridfs.LocalFile.Contents.{contents, Overwrites}
use mgridfs.LocalFile.Valid.{IsValid}
use mgridfs.Handle.{left_find}
use mgridfs.World.{World, done}
use mgridfs.World.Ends.{Ends}
use mgridfs.World.Quiet.{Same, Never}
use mgridfs.Sync.{flush}
use mgridfs.Sync.Flush.{Flushed, flush-Flushed}
use mgridfs.Server.Memory.{memory_store, memory_read, find_doc, Doc}
use mgridfs.DataOps.{mgridfs_write, mgridfs_read, mgridfs_fallocate, mgridfs_ftruncate, remote_read}
use mgridfs.DataOps.Write.{Open, Left, mgridfs_write-Left, mgridfs_read-mgridfs_write}
use mgridfs.DataOps.Allocate.{
  mgridfs_ftruncate-Left, mgridfs_ftruncate_twice, mgridfs_fallocate-one,
}
use mgridfs.DataOps.Remote.{Served, remote_read-Served}
use mgridfs.LocalFs.{find_by_name}
use mgridfs.FileOps.{mgridfs_open, mgridfs_flush, mgridfs_release}
use mgridfs.FileOps.Open.{Opened, mgridfs_open-Opened}
use mgridfs.FileOps.Release.{Released, mgridfs_release-Released, mgridfs_write-mgridfs_release}
use mgridfs.FileOps.Save.{Saved, mgridfs_flush-Saved}
use mgridfs.Tests.{
  open_12, held, name_a, sized, sized-IsValid, zeros-Plenty, two_handles-IsValid, env, at_work,
}

open_11 : (n : ℕ) → Open (at_work n) 11 name_a
unfolding left_find
open_11 n = record { nonzero = omega arith; handle = refl }

six : IsValid 100 (sized 6)
six = sized-IsValid 6 (omega arith)

abbrev nines : List ℕ
nines = 9 ∷ 9 ∷ []

mgridfs_write-Left_example :
    (f' : LocalFile) × Left
      (at_work 6)
      name_a
      (pos 2)
      f'
      (mgridfs_write env name_a nines 1 12 (at_work 6))
    × Overwrites (contents (sized 6)) 1 nines (contents f')
    × IsValid 100 f'
    × (f'.chunk_size ≡ 4)
    × (f'.dirty ≡ true)
    × (f'.filename ≡ name_a)
mgridfs_write-Left_example =
    mgridfs_write-Left env (at_work 6) name_a name_a 12 (sized 6) (open_12 6) (held 6) six nines 1
      refl (omega arith) zeros-Plenty (omega arith) (λ h. omega (arith, h)) (λ h. omega (arith, h))

mgridfs_read-mgridfs_write_example :
    (after : World (List Doc)) × (mgridfs_write env name_a nines 1 12 (at_work 8)
      ≡ done (pos 2) after)
    × (mgridfs_read env name_a 2 1 2 12 after ≡ done (pos 2, nines) after)
mgridfs_read-mgridfs_write_example =
    mgridfs_read-mgridfs_write env (at_work 8) name_a name_a 12 (sized 8) (open_12 8) (held 8)
      (sized-IsValid 8 (omega arith)) nines 1 2 refl refl (omega arith) (omega arith) zeros-Plenty
      (omega arith) (λ h. omega (arith, h)) (λ h. omega (arith, h)) refl

mgridfs_ftruncate-Left_example :
    (f' : LocalFile) × Left
      (at_work 6)
      name_a
      (pos 0)
      f'
      (mgridfs_ftruncate env name_a 20 12 (at_work 6))
    × (f'.size ≡ 20)
    × IsValid 100 f'
    × (take 6 (contents f') ≡ take 6 (contents (sized 6)))
mgridfs_ftruncate-Left_example =
    mgridfs_ftruncate-Left env (at_work 6) name_a name_a 12 (sized 6) (open_12 6) (held 6) six
      zeros-Plenty 20 (omega arith) (inl (λ h. omega (arith, h)))

mgridfs_ftruncate_twice_example :
    (after : World (List Doc)) × (after' : World (List Doc)) × (f' : LocalFile) × (mgridfs_ftruncate
        env name_a 2 12
        (at_work 6)
      ≡ done (pos 0) after)
    × (mgridfs_ftruncate env name_a 6 12 after ≡ done (pos 0) after')
    × (find_by_name name_a after'.files ≡ some f')
    × (contents f' ≡ contents (sized 6))
mgridfs_ftruncate_twice_example =
    mgridfs_ftruncate_twice env (at_work 6) name_a name_a 12 (sized 6) (open_12 6) (held 6) 2
      (omega arith) (omega arith)

mgridfs_fallocate-one_example :
    (f' : LocalFile) × Left
      (at_work 6)
      name_a
      (pos 1)
      f'
      (mgridfs_fallocate env name_a 0 5 15 12 (at_work 6))
    × (f'.size ≡ 20)
    × IsValid 100 f'
mgridfs_fallocate-one_example =
    mgridfs_fallocate-one env (at_work 6) name_a name_a 12 (sized 6) (open_12 6) (held 6) six
      zeros-Plenty 0 5 15 (omega arith) (inl (λ h. omega (arith, h)))

remote_read-Served_example :
    Ends
      (λ r v. Served (1 ∷ 2 ∷ 3 ∷ 4 ∷ 5 ∷ []) 10 2 r)
      Never
      (remote_read env name_a 10 2 (at_work 6))
unfolding memory_read memory_store find_doc
remote_read-Served_example =
    remote_read-Served env memory_read (1 ∷ 2 ∷ 3 ∷ 4 ∷ 5 ∷ []) name_a 10 2 (omega arith)
      (omega arith) (omega arith) (omega arith) (at_work 6) (rw (name_eq_refl name_a))

flush-Flushed_example :
    Ends (λ r v. Same (at_work 6) v × Flushed (sized 6) r) Never (flush env (sized 6) (at_work 6))
flush-Flushed_example = flush-Flushed env (sized 6) (at_work 6)

mgridfs_flush-Saved_example :
    Ends
      (λ code u.
        code ≡ pos 0
        → Saved env memory_store
            (at_work 6)
            name_a
            name_a
            12
            2
            (sized 6)
            (open_12 6)
            (held 6)
            six
            refl
            refl
            u)
      Never
      (mgridfs_flush env name_a 2 12 (at_work 6))
mgridfs_flush-Saved_example =
    mgridfs_flush-Saved env memory_store (at_work 6) name_a name_a 12 2 (sized 6) (open_12 6)
      (held 6) six refl refl

mgridfs_release-Released_example :
    Ends
      (λ code v. (code ≡ pos 0) × Released name_a 12 (at_work 6) v)
      Never
      (mgridfs_release env name_a 12 (at_work 6))
mgridfs_release-Released_example =
    mgridfs_release-Released env (at_work 6) name_a name_a 12 (open_12 6)
      two_handles-IsValid.distinct

mgridfs_write-mgridfs_release_example :
    Ends
      (λ code v. mgridfs_write env name_a nines 1 11 v ≡ done (neg 9) v)
      Never
      (mgridfs_release env name_a 12 (at_work 6))
mgridfs_write-mgridfs_release_example =
    mgridfs_write-mgridfs_release env (at_work 6) name_a name_a 12 (open_12 6)
      two_handles-IsValid.distinct name_a 11 1 nines (open_11 6) refl

mgridfs_open-Opened_example :
    Ends
      (λ r v. Opened (bytes "/b") (at_work 6).handles r.0 r.1 v.handles)
      Never
      (mgridfs_open env (bytes "/b") 0 (at_work 6))
mgridfs_open-Opened_example =
    mgridfs_open-Opened env (at_work 6) (bytes "/b") 0 two_handles-IsValid refl (omega arith) refl
      refl
