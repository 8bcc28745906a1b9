-- ===== src/Tests/Local.antt =====
-- The theorems on files in memory, at concrete files.
use mgridfs.Base.{ℕ, ◌+◌, ◌≤◌, ◌<◌, ◌≡◌, refl, true, none, some, List, [], ◌∷◌, arith, splice, pos}
use mgridfs.LocalFile.{LocalFile, write, set_size, read, create_flush_buffer}
use mgridfs.LocalFile.Valid.{IsValid}
use mgridfs.LocalFile.Grow.{flat}
use mgridfs.LocalFile.Size.{set_size-capacity}
use mgridfs.LocalFile.Write.{Wrote, write-Wrote, write-IsValid}
use mgridfs.LocalFile.Misplaced.{write_last_byte}
use mgridfs.LocalFile.Read.{read_lem}
use mgridfs.LocalFile.Whole.{read_lost_tail, create_flush_buffer_lem}
use mgridfs.Tests.{sized, sized-IsValid, zeros, zeros-Plenty}

six : IsValid 100 (sized 6)
six = sized-IsValid 6 (omega arith)

abbrev nines : List ℕ
nines = 9 ∷ 9 ∷ 9 ∷ []

-- a write across two chunks
write-Wrote_example : Wrote 100 nines 2 (sized 6) (write zeros 100 nines 2 (sized 6))
write-Wrote_example =
    write-Wrote zeros (sized 6) six nines 2 refl (omega arith) zeros-Plenty (omega arith)
      (λ h. omega (arith, h)) (λ h. omega (arith, h))

-- a write that makes the file grow by a chunk
write-IsValid_example :
    let wrote =
      write-Wrote zeros
        (sized 6)
        six
        nines
        6
        refl
        (omega arith)
        zeros-Plenty
        (omega arith)
        (λ h. omega (arith, h))
        (λ h. omega (arith, h)) in
    IsValid 100 wrote.result
write-IsValid_example =
    write-IsValid zeros (sized 6) nines 6 six
      (write-Wrote zeros (sized 6) six nines 6 refl (omega arith) zeros-Plenty (omega arith)
        (λ h. omega (arith, h)) (λ h. omega (arith, h))).returned

write_last_byte_example :
    (3 + 4 + 1 ≤ 8
      → (f' : LocalFile) × (write zeros 100 (9 ∷ []) 3 (sized 6) ≡ some (pos 1, f'))
        × (flat f' ≡ splice (flat (sized 6)) (3 + 4) (9 ∷ [])))
    × (8 < 3 + 4 + 1 → write zeros 100 (9 ∷ []) 3 (sized 6) ≡ none)
write_last_byte_example =
    write_last_byte zeros (sized 6) six (9 ∷ []) 3 refl (omega arith) (omega arith) refl

read_lost_tail_example : read 1 5 (sized 6) ≡ some (pos 0, [])
read_lost_tail_example =
    read_lost_tail (sized 6) six 1 5 (omega arith) (omega arith) (omega arith) (omega arith)
      (λ h. omega (arith, h))

read_lem_example : read 9 1 (sized 6) ≡ some (pos 3, 2 ∷ 3 ∷ 4 ∷ [])
read_lem_example = read_lem (sized 6) six 9 1 (omega arith) (omega arith) (omega arith)

create_flush_buffer_lem_example :
    create_flush_buffer (some (λ i. 0)) (sized 6) ≡ some (1 ∷ 2 ∷ 3 ∷ 4 ∷ 5 ∷ 6 ∷ [])
create_flush_buffer_lem_example = create_flush_buffer_lem (sized 6) (λ i. 0) six (omega arith)

set_size-capacity_example : set_size zeros 100 8 (sized 6) ≡ (true, sized 6)
set_size-capacity_example = set_size-capacity zeros 8 (sized 6) six (omega arith) refl (omega arith)
