-- ===== src/LocalFile/Akin.antt =====
-- What no operation changes of a file in memory: its name and its chunk size.
use mgridfs.Base.{
  ℕ, ◌/◌, ◌≡◌, refl, ◌∙◌, inl, inr, true, some, List, ◌++◌, ltb, Bool-cases, map-eq-some, length,
  take, ℤ, add64,
}
use mgridfs.LocalFile.{LocalFile, Alloc, raw_write, set_size, make_room, write}
use mgridfs.LocalFile.Valid.{IsValid}
use mgridfs.LocalFile.Size.{set_size-Keeps}
use mgridfs.LocalFile.Write.{write_cases}

pub record Akin (f f' : LocalFile) : Type 0 where
  pub filename : f'.filename ≡ f.filename
  pub chunk_size : f'.chunk_size ≡ f.chunk_size

pub set_size-Akin :
    (alloc : Alloc) {m : ℕ} (size : ℕ) (f : LocalFile)
    → IsValid m f
    → Akin f (set_size alloc m size f).1
set_size-Akin alloc size f v =
    let k = set_size-Keeps alloc size f v in
    record { filename = k.filename; chunk_size = k.chunk_size }

make_room-Akin :
    (alloc : Alloc) {m : ℕ} (updated : ℕ) (f : LocalFile)
    → IsValid m f
    → Akin f (make_room alloc m updated f).1
unfolding make_room
make_room-Akin alloc updated f v = elim (Bool-cases (ltb updated f.capacity)) [
  | inl y ↦ rw y (record { filename = refl; chunk_size = refl })
  | inr n ↦ rw n (set_size-Akin alloc updated f v)
]

pub raw_write-Akin :
    (buf : List ℕ) (offset : ℕ) (f : LocalFile) {code : ℤ} {f' : LocalFile}
    → raw_write buf offset f ≡ some (code, f')
    → Akin f f'
unfolding raw_write
raw_write-Akin buf offset f {f' = f'} e =
    let (written, ew, ef) = map-eq-some _ _ e in
    let which = add64 offset 1 / f.chunk_size in
    let same : record f { chunks = take which f.chunks ++ written; dirty = true } ≡ f' = cc ef in
    rw (← same) (record { filename = refl; chunk_size = refl })

pub write-Akin :
    (alloc : Alloc) {m : ℕ} (f : LocalFile) (buf : List ℕ) (offset : ℕ) {code : ℤ} {f' : LocalFile}
    → IsValid m f
    → write alloc m buf offset f ≡ some (code, f')
    → Akin f f'
write-Akin alloc {m} f buf offset v e =
    let updated = add64 offset (length buf) in
    let room = make_room-Akin alloc updated f v in
    write_cases (Akin f) alloc m f buf offset (record { filename = refl; chunk_size = refl }) room
      (λ r.
        let k = raw_write-Akin buf offset (make_room alloc m updated f).1 r in
        record {
          filename = k.filename ∙ room.filename;
          chunk_size = k.chunk_size ∙ room.chunk_size;
        })
      e
