-- ===== src/LocalFile/Truncate.antt =====
-- What `setSize` does to the bytes of a file: those below the old and the new size stay, and a file
-- that is cut and grown again shows the bytes that were cut off.
use mgridfs.Base.{
  ℕ, ◌≤◌, ◌<◌, min, ◌≡◌, refl, sym, ap, ◌∙◌, ◌≢◌, ◌⊎◌, true, ◌++◌, arith, lt→ltb, le→leb, lt→leb,
  take, concat, take-take, concat-append,
}
use mgridfs.LocalFile.{LocalFile, Alloc, set_size}
use mgridfs.LocalFile.Valid.{IsValid}
use mgridfs.LocalFile.Grow.{flat, length-flat}
use mgridfs.LocalFile.Contents.{contents, take_before}
use mgridfs.LocalFile.Size.{size-set_size, set_size-Keeps}

take-contents : (k : ℕ) (f : LocalFile) → k ≤ f.size → take k (contents f) ≡ take k (flat f)
take-contents k f h =
    let least : min k f.size ≡ k = omega arith in
    take-take k f.size (flat f) ∙ ap (λ j. take j (flat f)) least

-- The bytes below both sizes are as they were.
pub take-set_size :
    (alloc : Alloc) {m : ℕ} (s k : ℕ) (f : LocalFile)
    → IsValid m f
    → (set_size alloc m s f).0 ≡ true
    → ((s ≢ f.capacity) ⊎ (s ≤ f.size))
    → k ≤ s
    → k ≤ f.size
    → take k (contents (set_size alloc m s f).1) ≡ take k (contents f)
take-set_size alloc {m} s k f v granted ne below inside =
    let f' = (set_size alloc m s f).1 in
    let keeps = set_size-Keeps alloc s f v in
    let size = (size-set_size alloc s f v granted ne).0 in
    let all : flat f' ≡ flat f ++ concat keeps.added =
      ap concat keeps.chunks ∙ concat-append f.chunks keeps.added in
    take-contents k f' (omega (arith, size, below))
    ∙ ap (take k) all
    ∙ take_before k (flat f) (concat keeps.added)
        (omega (arith, length-flat f v, v.size_fits, inside))
    ∙ sym (take-contents k f inside)

pub set_size_cut :
    (alloc : Alloc) (m s : ℕ) (f : LocalFile)
    → s ≤ f.size
    → set_size alloc m s f ≡ (true, record f { size = s; dirty = true })
unfolding set_size
set_size_cut alloc m s f h = rw (le→leb s f.size h) refl

pub set_size_within :
    (alloc : Alloc) (m s : ℕ) (f : LocalFile)
    → f.size < s
    → s < f.capacity
    → set_size alloc m s f ≡ (true, record f { size = s; dirty = true })
unfolding set_size
set_size_within alloc m s f above h = rw (lt→leb s f.size above, lt→ltb s f.capacity h) refl
