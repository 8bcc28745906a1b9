-- ===== src/LocalFile/Whole.antt =====
-- `read` against the bytes of the file, and `createFlushBuffer`.
use native.Mathlib.Nat.{div-add-mod', add-mul-mod_self_right, mod-eq_of_lt}
use mgridfs.Base.{
  ℕ, ◌+◌, ◌-◌, ◌*◌, ◌/◌, ◌%◌, ◌^◌, ◌≤◌, ◌<◌, min, ◌≡◌, refl, sym, ap, ◌≢◌, false, some, List, [],
  ◌∷◌, arith, dec_lt, dec_le, ◌==◌, lt→ltb, le→ltb, le→leb, lt→leb, length, take, drop, tabulate,
  concat, overlay, length-take, length-drop, length-tabulate, take_of_le, take-nil, take-append,
  take-take, Blocks, pos,
}
use mgridfs.LocalFile.{LocalFile, read, copy_chunks, create_flush_buffer}
use mgridfs.LocalFile.Valid.{IsValid}
use mgridfs.LocalFile.Grow.{flat, length-flat}
use mgridfs.LocalFile.Contents.{contents, drop-take}
use mgridfs.LocalFile.Read.{readable, read_lem}

-- The chunks that `read` counts hold the file's bytes exactly if the size is a number of chunks.
readable_whole :
    (f : LocalFile) → 2 ≤ f.chunk_size → f.size % f.chunk_size ≡ 0 → readable f ≡ f.size
readable_whole f h e = grind arith

readable_last : (n cs : ℕ) → 2 ≤ cs → (n + 1) % cs ≢ 0 → (n + 1) / cs * cs ≡ n / cs * cs
readable_last n cs h ne = grind arith

-- A size that is one short of whole chunks is no number of whole chunks.
short_of_whole : (n k cs : ℕ) → 2 ≤ cs → (n + 1) % cs ≡ 0 → n ≢ k * cs
short_of_whole n k cs h last e =
    let whole : (k * cs + 1) % cs ≡ 0 = rw e at last in
    let one : (1 + k * cs) % cs ≡ 1 % cs = add-mul-mod_self_right 1 k cs in
    let small : 1 % cs ≡ 1 = mod-eq_of_lt {n = 1} {m = cs} h in
    let same : (1 + k * cs) % cs ≡ (k * cs + 1) % cs =
      ap (λ t. t % cs) {x = 1 + k * cs} (omega arith) in
    absurd (omega (arith, whole, one, small, same))

module _ {m : ℕ} (f : LocalFile) (v : IsValid m f) (len offset : ℕ) where
  -- Of a file of whole chunks, `read` gives the bytes of the file from the offset on, up to the length
  -- that was asked for or the end.
  pub read_whole :
      0 < len
      → len < 2 ^ 31
      → offset < f.size
      → f.size % f.chunk_size ≡ 0
      → let out = take len (drop offset (contents f)) in
        read len offset f ≡ some (pos (length out), out)
  read_whole some_bytes small before whole =
      let e = readable_whole f (omega (arith, v.limits.two)) whole in
      let same : take (min len (readable f - offset)) (drop offset (flat f))
          ≡ take len (drop offset (contents f)) =
        rw (
          e,
          drop-take offset f.size (flat f),
          take-take len (f.size - offset) (drop offset (flat f)),
        ) in
      rw (← same) (read_lem f v len offset some_bytes small before)

  -- A `read` that starts inside a file, but behind its last full chunk, gives 0 and no bytes, as at the
  -- end of the file, unless the size of the file is one short of a number of chunks.
  pub read_lost_tail :
      0 < len
      → len < 2 ^ 31
      → offset < f.size
      → f.size / f.chunk_size * f.chunk_size ≤ offset
      → (f.size + 1) % f.chunk_size ≢ 0
      → read len offset f ≡ some (pos 0, [])
  read_lost_tail some_bytes small before tail ne =
      let e : min len (readable f - offset) ≡ 0 =
        omega (arith, readable_last f.size f.chunk_size v.limits.two ne) in
      rw e at (read_lem f v len offset some_bytes small before)

  -- If the size is one byte short of a number of chunks, a long enough `read` gives one byte more than
  -- the file has.
  pub read_past_end :
      len < 2 ^ 31
      → offset < f.size
      → f.size - offset < len
      → (f.size + 1) % f.chunk_size ≡ 0
      → (out : List ℕ) × (read len offset f ≡ some (pos (f.size - offset + 1), out))
        × (take (f.size - offset) out ≡ drop offset (contents f))
  read_past_end small before long last =
      let out = take (min len (readable f - offset)) (drop offset (flat f)) in
      let e : readable f ≡ f.size + 1 = omega (arith, div-add-mod' (f.size + 1) f.chunk_size) in
      let e' : min len (readable f - offset) ≡ f.size - offset + 1 = omega (arith, e) in
      let room : f.size < f.capacity = omega (
        arith,
        v.size_fits,
        v.counted,
        short_of_whole f.size (length f.chunks) f.chunk_size v.limits.two last,
      ) in
      let l : length out ≡ f.size - offset + 1 = omega (
        arith,
        e',
        length-take (min len (readable f - offset)) (drop offset (flat f)),
        length-drop offset (flat f),
        length-flat f v,
      ) in
      let cut : min (f.size - offset) (f.size - offset + 1) ≡ f.size - offset = omega arith in
      (
        out,
        rw l at (read_lem f v len offset (omega arith) small before),
        rw (e', take-take (f.size - offset) (f.size - offset + 1) (drop offset (flat f)), cut)
            (sym (drop-take offset f.size (flat f))),
      )

-- The copy loop gives the bytes that are pending.
copy_chunks_lem :
    (cs pending : ℕ) (chunks : List (List ℕ))
    → Blocks cs chunks
    → copy_chunks cs pending chunks ≡ take pending (concat chunks)
unfolding copy_chunks
copy_chunks_lem cs pending [] h = sym (take-nil pending)
copy_chunks_lem cs pending (b ∷ bs) h = elim (dec_lt 0 pending) [
  | yes some_bytes ↦ elim (dec_le cs pending) [
    | yes p ↦
        let left : pending - length b ≡ pending - cs = omega (arith, h.0) in
        rw (
          lt→ltb 0 pending some_bytes,
          le→leb cs pending p,
          copy_chunks_lem cs (pending - cs) bs h.1,
          take-append pending b (concat bs),
          left,
          take_of_le cs b (omega (arith, h.0)),
          take_of_le pending b (omega (arith, h.0)),
        )
    | no p ↦
        let none_left : pending - pending ≡ 0 = omega arith in
        let none_left' : pending - length b ≡ 0 = omega (arith, h.0) in
        rw (
          lt→ltb 0 pending some_bytes,
          lt→leb cs pending (omega arith),
          copy_chunks_lem cs (pending - pending) bs h.1,
          take-append pending b (concat bs),
          none_left,
          none_left',
        )
  ]
  | no p ↦ let e : pending ≡ 0 = omega arith in rw (le→ltb 0 pending (omega arith), e)
]

overlay_all : (xs ys : List ℕ) → length xs ≡ length ys → overlay xs ys ≡ xs
overlay_all [] [] h = refl
overlay_all [] (y ∷ ys) h = absurd (omega arith)
overlay_all (x ∷ xs) [] h = absurd (omega arith)
overlay_all (x ∷ xs) (y ∷ ys) h = ap (◌∷◌ x) (overlay_all xs ys (omega arith))

-- The flush buffer of a file that is not empty is the bytes of the file, whatever the memory held.
pub create_flush_buffer_lem :
    {m : ℕ} (f : LocalFile) (fill : ℕ → ℕ)
    → IsValid m f
    → 0 < f.size
    → create_flush_buffer (some fill) f ≡ some (contents f)
unfolding create_flush_buffer
create_flush_buffer_lem {m} f fill v some_bytes =
    let nonzero : (f.size == 0) ≡ false = ground arith in
    let copied = copy_chunks_lem f.chunk_size f.size f.chunks v.blocks in
    simp (nonzero, copied)
      (ap some (
        overlay_all (contents f) (tabulate fill 0 f.size) (
          omega (
            arith,
            length-take f.size (flat f),
            length-tabulate fill 0 f.size,
            length-flat f v,
            v.size_fits,
          ))))
