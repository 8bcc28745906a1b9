-- ===== src/LocalFile/Misplaced.antt =====
-- Two border cases of `write`: a start at the last byte of a chunk, and an end at the capacity.
use mgridfs.Base.{
  ℕ, ◌+◌, ◌%◌, ◌^◌, ◌≤◌, ◌<◌, ◌≡◌, ap, ◌∙◌, Bool, true, false, none, some, List, arith, ltb, ◌==◌,
  if◌then◌else◌, lt→ltb, length, splice, neg, add64, to_int,
}
use mgridfs.LocalFile.{LocalFile, Alloc, make_room, raw_write, write, enomem}
use mgridfs.LocalFile.Valid.{IsValid}
use mgridfs.LocalFile.Grow.{flat}
use mgridfs.LocalFile.RawWrite.{place, place_last_byte, raw_write-Placed, raw_write-none}

module _ (alloc : Alloc) {m : ℕ} (f : LocalFile) (v : IsValid m f) (buf : List ℕ) (offset : ℕ)
    (writable : f.read_only ≡ false) (some_bytes : 0 < length buf) where
  -- `write` once the guards have passed and the room is known.
  write_step :
      (r : Bool × LocalFile)
      → offset + length buf < 2 ^ 64
      → make_room alloc m (offset + length buf) f ≡ r
      → write alloc m buf offset f
        ≡ (if r.0 then raw_write buf offset r.1 else some (neg enomem, r.1))
  unfolding write
  write_step r small e =
      let sum : add64 offset (length buf) ≡ offset + length buf = omega arith in
      let nonempty : (length buf == 0) ≡ false = ground arith in simp (writable, nonempty, sum, e)

  -- The file that a write within the capacity works on.
  resized : LocalFile
  resized = record f {
    size = if ltb f.size (offset + length buf) then offset + length buf else f.size;
  }

  make_room_inside :
      offset + length buf < f.capacity → make_room alloc m (offset + length buf) f ≡ (true, resized)
  unfolding make_room resized
  make_room_inside lt = rw (lt→ltb (offset + length buf) f.capacity lt)

  resized-IsValid : offset + length buf < f.capacity → IsValid m resized
  unfolding resized
  resized-IsValid lt = record {
    limits = v.limits;
    blocks = v.blocks;
    counted = v.counted;
    size_fits = ground (arith, v.size_fits);
    bounded = v.bounded;
  }

  -- A write inside the capacity that starts at the last byte of a chunk goes one chunk too far; where
  -- there is no such room it leaves the vector of chunks.
  pub write_last_byte :
      offset + length buf < f.capacity
      → (offset + 1) % f.chunk_size ≡ 0
      → (offset + f.chunk_size + length buf ≤ f.capacity
          → (f' : LocalFile) × (write alloc m buf offset f ≡ some (to_int (length buf), f'))
            × (flat f' ≡ splice (flat f) (offset + f.chunk_size) buf))
        × (f.capacity < offset + f.chunk_size + length buf → write alloc m buf offset f ≡ none)
  unfolding resized
  write_last_byte lt last =
      let cs = f.chunk_size in
      let at : place cs offset ≡ offset + cs =
        place_last_byte cs offset (omega (arith, v.limits.two)) last in
      let small : offset + 1 < 2 ^ 64 = omega (arith, v.limits.no_wrap, v.bounded) in
      let step =
        write_step (true, resized) (omega (arith, v.limits.no_wrap, v.bounded))
          (make_room_inside lt) in
      (
        λ fits.
            let w = raw_write-Placed buf offset resized (resized-IsValid lt) small (rw at fits) in
            (w.result, step ∙ w.returned, w.content ∙ ap (λ k. splice (flat f) k buf) at),
        λ over.
            step
            ∙ raw_write-none buf offset resized (resized-IsValid lt) small some_bytes (rw at over),
      )
