-- ===== src/Tests/Sessions.antt =====
-- The theorems on sessions, on the concrete server: a file of five bytes, of which six are in memory.
use mgridfs.Base.{◌≡◌, refl, [], ◌∷◌, arith, pos, Name, bytes, name_eq}
use mgridfs.LocalFile.Contents.{contents}
use mgridfs.Server.Memory.{memory_store, memory_read, find_doc}
use mgridfs.Server.Answers.{memory_calm}
use mgridfs.World.{◌>>=◌, ◌>>◌}
use mgridfs.World.Ends.{Ends}
use mgridfs.World.Quiet.{Never}
use mgridfs.LocalFs.{find_by_name}
use mgridfs.LocalFs.Consistent.{Consistent}
use mgridfs.DataOps.{mgridfs_read, mgridfs_write}
use mgridfs.DataOps.Remote.{Part}
use mgridfs.LocalFile.Valid.{Limits}
use mgridfs.FileOps.Life.{AtHand, mgridfs_read-mgridfs_create}
use mgridfs.FileOps.{mgridfs_create, mgridfs_open, mgridfs_flush, mgridfs_release}
use mgridfs.FileOps.Session.{mgridfs_read-mgridfs_release, mgridfs_read-mgridfs_open}
use mgridfs.Tests.{
  open_12, held, name_a, sized, sized-IsValid, env, at_work, two_handles-IsValid, zeros-Plenty,
}

working : Consistent env (at_work 6)
unfolding find_by_name
working = record {
  handles = two_handles-IsValid;
  files = (record { name = refl; chunk_size = refl; valid = sized-IsValid 6 (omega arith) }, tt);
  distinct = (refl, tt);
}

mgridfs_read-mgridfs_release_example :
    Ends
      (λ out u. Part (contents (sized 6)) 100 1 out)
      Never
      ((do
        mgridfs_flush env name_a 2 12
        mgridfs_release env name_a 12
        r ← mgridfs_open env name_a 0
        mgridfs_read env name_a 100 1 0 r.1)
        (at_work 6))
unfolding memory_read memory_store find_doc name_eq
mgridfs_read-mgridfs_release_example =
    mgridfs_read-mgridfs_release env memory_calm memory_read (λ t h. ground arith) name_a 12 2 0
      refl refl (at_work 6) name_a (sized 6) (1 ∷ 2 ∷ 3 ∷ 4 ∷ 5 ∷ []) 100 1 working (open_12 6) refl
      (held 6) refl (omega arith) refl (omega arith) (omega arith) (omega arith) (omega arith)

mgridfs_read-mgridfs_open_example :
    Ends
      (λ out u. out ≡ (pos 2, 9 ∷ 9 ∷ []))
      Never
      ((do
        mgridfs_write env name_a (9 ∷ 9 ∷ []) 1 12
        mgridfs_flush env name_a 2 12
        mgridfs_release env name_a 12
        r ← mgridfs_open env name_a 0
        mgridfs_read env name_a 2 1 0 r.1)
        (at_work 6))
unfolding memory_read memory_store find_doc name_eq
mgridfs_read-mgridfs_open_example =
    mgridfs_read-mgridfs_open env memory_calm memory_read (λ t h. ground arith) name_a 12 2 0 refl
      refl (at_work 6) name_a (sized 6) (9 ∷ 9 ∷ []) (1 ∷ 2 ∷ 3 ∷ 4 ∷ 5 ∷ []) 1 working (open_12 6)
      refl (held 6) refl (omega arith) (omega arith) zeros-Plenty (omega arith) (omega arith)
      (omega arith) (λ h. omega (arith, h)) (λ h. omega (arith, h)) refl (omega arith)

at_hand : AtHand env
at_hand = record { objects = λ t. refl; chunks = λ t. zeros-Plenty; buffers = λ t h. ground arith }

limits : Limits 100 4
limits = (sized-IsValid 6 (omega arith)).limits

abbrev name_n : Name
name_n = bytes "/n"

mgridfs_read-mgridfs_create_example :
    Ends
      (λ out u. out ≡ (pos 3, 7 ∷ 8 ∷ 9 ∷ []))
      Never
      ((do
        c ← mgridfs_create env name_n 420 0
        mgridfs_write env name_n (7 ∷ 8 ∷ 9 ∷ []) 0 c.1
        mgridfs_flush env name_n 2 c.1
        mgridfs_release env name_n c.1
        r ← mgridfs_open env name_n 0
        mgridfs_read env name_n 3 0 0 r.1)
        (at_work 6))
unfolding find_by_name name_eq
mgridfs_read-mgridfs_create_example =
    mgridfs_read-mgridfs_create env memory_calm memory_read at_hand limits name_n refl 2 0 refl refl
      (at_work 6) 420 0 (7 ∷ 8 ∷ 9 ∷ []) working refl (omega arith) (omega arith) (omega arith)
      (omega arith)
