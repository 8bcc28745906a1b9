-- ===== src/LocalFile/Read.antt =====
-- `read` and `createFlushBuffer`: which bytes they give.
use mathlib.Core.Option
use native.Mathlib.Nat.{mod-lt, div-add-mod'}
use mgridfs.Base.{
  ℕ, zero, suc, ◌+◌, ◌-◌, ◌*◌, ◌/◌, ◌%◌, ◌^◌, ◌≤◌, ◌<◌, min, ◌≡◌, refl, ap, ◌∙◌, false, some, List,
  [], ◌∷◌, ◌++◌, arith, dec_lt, dec_le, ◌==◌, lt→ltb, le→ltb, lt→leb, length, take, drop, concat,
  length-take, length-drop, take_of_le, take-nil, drop-nil, take-append, drop-append, take-take,
  drop-drop, Blocks, All-drop, pos, add64, sub64, uint32, int_size, to_int, off_le, int_size_small,
  to_int_small, off_le-leb,
}
use mgridfs.LocalFile.{LocalFile, copy_start, bytes_to_read, read_chunks, read}
use mgridfs.LocalFile.Chunks.{concat-take, concat-drop}
use mgridfs.LocalFile.Valid.{IsValid}
use mgridfs.LocalFile.Grow.{flat, lt_of_mul_lt, mul_mono}
use mgridfs.LocalFile.Contents.{drop-take}

copy_start-lt : (cs offset got : ℕ) → 0 < cs → copy_start cs offset got < cs
unfolding copy_start
copy_start-lt cs offset got h = ground (arith, mod-lt offset h)

copy_start_later : (cs offset got : ℕ) → 0 < got → copy_start cs offset got ≡ 0
unfolding copy_start
copy_start_later cs offset got h = ground arith

-- With the sizes in range no conversion changes the count.
bytes_to_read_lem :
    (cs start len got : ℕ)
    → start < cs
    → cs < 2 ^ 31
    → len < 2 ^ 63
    → got ≤ len
    → bytes_to_read cs start len got ≡ min (cs - start) (len - got)
unfolding bytes_to_read
bytes_to_read_lem cs start len got lt small l g =
    let e : sub64 (int_size cs) start ≡ cs - start = rw (int_size_small cs small) (omega arith) in
    let e' : sub64 len got ≡ len - got = omega arith in
    rw (e, e') (int_size_small (min (cs - start) (len - got)) (omega arith))

-- What one chunk gives, and what the chunks behind it give after that.
read_split :
    (k r start cs : ℕ) (b rest : List ℕ)
    → length b ≡ cs
    → start ≤ cs
    → k ≡ min (cs - start) r
    → take k (drop start b) ++ take (r - k) rest ≡ take r (drop start (b ++ rest))
read_split k r start cs b rest len le e =
    let none_left : start - length b ≡ 0 = omega arith in
    let l : length (drop start b) ≡ cs - start = omega (arith, length-drop start b) in
    rw (drop-append start b rest, none_left, take-append r (drop start b) rest, l, e)
      (elim (dec_le r (cs - start)) [
        | yes p ↦
            let e1 : min (cs - start) r ≡ r = omega arith in
            let e2 : r - r ≡ r - (cs - start) = omega arith in rw (e1, e2)
        | no p ↦
            let e1 : min (cs - start) r ≡ cs - start = omega arith in
            rw (
              e1,
              take_of_le (cs - start) (drop start b) (omega (arith, l)),
              take_of_le r (drop start b) (omega (arith, l)),
            )
      ])

-- From `got` bytes on the loop gives the rest of what was asked for, as far as its chunks go.
read_chunks_lem :
    (cs offset len got n : ℕ) (chunks : List (List ℕ))
    → 0 < cs
    → cs < 2 ^ 31
    → len < 2 ^ 63
    → got ≤ len
    → n ≤ length chunks
    → Blocks cs chunks
    → read_chunks cs offset len got n chunks
      ≡ some (take (len - got) (drop (copy_start cs offset got) (concat (take n chunks))))
unfolding read_chunks
read_chunks_lem cs offset len got zero chunks pos_cs small l g fits h =
    rw (drop-nil (copy_start cs offset got), take-nil (len - got))
read_chunks_lem cs offset len got (suc n) [] pos_cs small l g fits h = absurd (omega arith)
read_chunks_lem cs offset len got (suc n) (b ∷ bs) pos_cs small l g fits h = elim (dec_lt got len) [
  | yes p ↦
      let start = copy_start cs offset got in
      let k = min (cs - start) (len - got) in
      let lt = copy_start-lt cs offset got pos_cs in
      let e = bytes_to_read_lem cs start len got lt small l g in
      let ih =
        read_chunks_lem cs offset len (got + k) n bs pos_cs small l (omega arith) (omega arith)
          h.1 in
      let later = copy_start_later cs offset (got + k) (omega (arith, lt)) in
      let left : len - (got + k) ≡ len - got - k = omega arith in
      rw (lt→ltb got len p, e, ih, later, left, Option.map, e)
        (ap some
          (read_split k (len - got) start cs b (concat (take n bs)) h.0 (omega (arith, lt)) refl))
  | no p ↦ let e : len - got ≡ 0 = omega arith in rw (le→ltb got len (omega arith), e)
]

sub_mul : (a b c : ℕ) → (a - b) * c ≡ a * c - b * c
sub_mul a b c = elim (dec_le b a) [
  | yes p ↦ let split : (a - b) + b ≡ a = omega arith in omega (arith, ap (λ (t : ℕ). t * c) split)
  | no p ↦ let e : a - b ≡ 0 = omega arith in rw e (omega (arith, mul_mono a b c (omega arith)))
]

-- `size` bytes have this many chunks for `read`: those that end by one byte past the size.
abbrev pub readable : LocalFile → ℕ
readable f = (f.size + 1) / f.chunk_size * f.chunk_size

module _ {m : ℕ} (f : LocalFile) (v : IsValid m f) (len offset : ℕ) where
  count : (f.size + 1) / f.chunk_size < length f.chunks + 1
  count =
      lt_of_mul_lt ((f.size + 1) / f.chunk_size) (length f.chunks + 1) f.chunk_size (
        omega (arith, div-add-mod' (f.size + 1) f.chunk_size, v.size_fits, v.counted, v.limits.two))

  small_count : (n : ℕ) → n ≤ f.size + 1 → n / f.chunk_size < 2 ^ 32
  small_count n le =
      lt_of_mul_lt (n / f.chunk_size) (2 ^ 32) f.chunk_size
        (omega (arith, div-add-mod' n f.chunk_size, v.limits.countable, v.size_fits, v.bounded))

  -- The chunks that `read` goes through, from the offset on.
  from_offset :
      (n a r : ℕ)
      → a * f.chunk_size + r ≡ offset
      → take len (drop r (concat (take (n - a) (drop a f.chunks))))
        ≡ take (min len (n * f.chunk_size - offset)) (drop offset (flat f))
  from_offset n a r e =
      let rest = drop a f.chunks in
      let left : (n - a) * f.chunk_size - r ≡ n * f.chunk_size - offset =
        omega (arith, sub_mul n a f.chunk_size) in
      rw (
        concat-take f.chunk_size (n - a) rest
            (All-drop (λ b. length b ≡ f.chunk_size) a f.chunks v.blocks),
        concat-drop f.chunk_size a f.chunks v.blocks,
        drop-take r ((n - a) * f.chunk_size) (drop (a * f.chunk_size) (flat f)),
        drop-drop r (a * f.chunk_size) (flat f),
        e,
        left,
        take-take len (n * f.chunk_size - offset) (drop offset (flat f)),
      )

  -- The conversions of `read` change no number.
  read_step :
      0 < len
      → offset < f.size
      → read len offset f
        ≡ Option.map
            (λ out. (to_int (length out), out))
            (read_chunks f.chunk_size offset len 0
              ((f.size + 1) / f.chunk_size - offset / f.chunk_size)
              (drop (offset / f.chunk_size) f.chunks))
  unfolding read
  read_step some_bytes before =
      let s1 : add64 f.size 1 ≡ f.size + 1 =
        omega (arith, v.limits.no_wrap, v.size_fits, v.bounded) in
      let active : uint32 (offset / f.chunk_size) ≡ offset / f.chunk_size =
        omega (arith, small_count offset (omega arith)) in
      let num : uint32 ((f.size + 1) / f.chunk_size) ≡ (f.size + 1) / f.chunk_size =
        omega (arith, small_count (f.size + 1) (omega arith)) in
      let inside : off_le f.size offset ≡ false =
        off_le-leb f.size offset (omega (arith, v.limits.no_wrap, v.size_fits, v.bounded))
          (omega (arith, v.limits.no_wrap, v.size_fits, v.bounded))
        ∙ lt→leb f.size offset before in
      let nonzero : (len == 0) ≡ false = ground arith in rw (inside, nonzero, s1, num, active)

  -- Before the end of the file `read` gives the bytes from the offset on, at most as many as were
  -- asked for, and stops where the last chunk that it counts does.
  pub read_lem :
      0 < len
      → len < 2 ^ 31
      → offset < f.size
      → let out = take (min len (readable f - offset)) (drop offset (flat f)) in
        read len offset f ≡ some (pos (length out), out)
  unfolding copy_start
  read_lem some_bytes small before =
      let n = (f.size + 1) / f.chunk_size in
      let a = offset / f.chunk_size in
      let e =
        read_chunks_lem f.chunk_size offset len 0 (n - a) (drop a f.chunks)
          (omega (arith, v.limits.two)) v.limits.small (omega arith) (omega arith)
          (omega (arith, length-drop a f.chunks, count))
          (All-drop (λ b. length b ≡ f.chunk_size) a f.chunks v.blocks) in
      let out = take (min len (readable f - offset)) (drop offset (flat f)) in
      let all : len - 0 ≡ len = omega arith in
      let e' : read_chunks f.chunk_size offset len 0 (n - a) (drop a f.chunks) ≡ some out =
        e
        ∙ rw all (
            ap some (from_offset n a (offset % f.chunk_size) (div-add-mod' offset f.chunk_size))) in
      read_step some_bytes before
      ∙ ap (Option.map λ out. (to_int (length out), out)) e'
      ∙ ap (λ c. some (c, out))
          (to_int_small (length out)
            (omega (arith, length-take (min len (readable f - offset)) (drop offset (flat f)))))
