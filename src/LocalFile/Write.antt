-- ===== src/LocalFile/Write.antt =====
-- `write`: its effect on the bytes of the file, and the invariant.
use mgridfs.Base.{
  ℕ, ◌+◌, ◌%◌, ◌<◌, max, ◌≡◌, refl, sym, ap, ◌∙◌, ◌≢◌, inl, Bool, true, false, Option, some, List,
  [], ◌++◌, append-nil, arith, dec_lt, ◌==◌, if◌then◌else◌, lt→ltb, le→ltb, length, concat,
  length-append, concat-append, ℤ, pos, neg, add64, to_int,
}
use mgridfs.LocalFile.{LocalFile, raw_write, Alloc, make_room, raw_write, write, erofs, enomem}
use mgridfs.LocalFile.Valid.{IsValid}
use mgridfs.LocalFile.Grow.{flat, length-flat, Plenty}
use mgridfs.LocalFile.Size.{Keeps, set_size-IsValid, set_size-Keeps, size-set_size, set_size-Plenty}
use mgridfs.LocalFile.Contents.{contents, Overwrites, splice-Overwrites}
use mgridfs.LocalFile.RawWrite.{place, place_inside, raw_write-Placed, raw_write-IsValid}

-- What `write` knows once there is room: the size covers the write and no chunk has changed.
record Room (m : ℕ) (updated : ℕ) (f : LocalFile) (r : Bool × LocalFile) : Type 0 where
  granted : r.0 ≡ true
  size : r.1.size ≡ max f.size updated
  valid : IsValid m r.1
  keeps : Keeps f r.1

module _ (alloc : Alloc) {m : ℕ} (f : LocalFile) (v : IsValid m f) where
  make_room-IsValid : (updated : ℕ) → IsValid m (make_room alloc m updated f).1
  unfolding make_room
  make_room-IsValid updated = elim (dec_lt updated f.capacity) [
    | yes p ↦ rw (lt→ltb updated f.capacity p) (record {
      limits = v.limits;
      blocks = v.blocks;
      counted = v.counted;
      size_fits = ground (arith, v.size_fits);
      bounded = v.bounded;
    })
    | no p ↦ rw (le→ltb updated f.capacity (omega arith)) (set_size-IsValid alloc updated f v)
  ]

  make_room-Room :
      (updated : ℕ)
      → Plenty alloc
      → updated < m
      → updated ≢ f.capacity
      → Room m updated f (make_room alloc m updated f)
  unfolding make_room
  make_room-Room updated plenty lt ne = elim (dec_lt updated f.capacity) [
    | yes p ↦ rw (lt→ltb updated f.capacity p) (record {
      granted = refl;
      size = ground arith;
      valid = record {
        limits = v.limits;
        blocks = v.blocks;
        counted = v.counted;
        size_fits = ground (arith, v.size_fits);
        bounded = v.bounded;
      };
      keeps = record {
        added = [];
        chunks = sym (append-nil f.chunks);
        chunk_size = refl;
        read_only = refl;
        filename = refl;
      };
    })
    | no p ↦
        let done = set_size-Plenty alloc updated f v plenty lt in
        rw (le→ltb updated f.capacity (omega arith)) (record {
          granted = done;
          size = (size-set_size alloc updated f v done (inl ne)).0 ∙ omega (arith, v.size_fits);
          valid = set_size-IsValid alloc updated f v;
          keeps = set_size-Keeps alloc updated f v;
        })
  ]

-- A write that succeeds.
pub record Wrote (m : ℕ) (buf : List ℕ) (offset : ℕ) (f : LocalFile) (out : Option (ℤ × LocalFile))
    : Type 0 where
  pub result : LocalFile
  pub returned : out ≡ some (to_int (length buf), result)
  pub effect : Overwrites (contents f) offset buf (contents result)
  pub valid : IsValid m result
  pub dirty : result.dirty ≡ true
  pub filename : result.filename ≡ f.filename
  pub chunk_size : result.chunk_size ≡ f.chunk_size

module _ (alloc : Alloc) {m : ℕ} (f : LocalFile) (v : IsValid m f) (buf : List ℕ) (offset : ℕ)
    (writable : f.read_only ≡ false) (some_bytes : 0 < length buf) where
  write_in_room :
      (r : Bool × LocalFile)
      → offset + length buf < m
      → (offset + 1) % f.chunk_size ≢ 0
      → Room m (offset + length buf) f r
      → Wrote m buf offset f (if r.0 then raw_write buf offset r.1 else some (neg enomem, r.1))
  write_in_room (fits, f1) lt inside room =
      let cs_eq = room.keeps.chunk_size in
      let at : place f1.chunk_size offset ≡ offset =
        rw cs_eq (place_inside f.chunk_size offset (omega (arith, v.limits.two)) inside) in
      let w =
        raw_write-Placed buf offset f1 room.valid (omega (arith, v.limits.no_wrap))
          (rw at (omega (arith, room.size, room.valid.size_fits))) in
      let new = concat room.keeps.added in
      let flat1 : flat f1 ≡ flat f ++ new =
        ap concat room.keeps.chunks ∙ concat-append f.chunks room.keeps.added in
      let total : length (flat f) + length new ≡ f1.capacity =
        sym (length-append (flat f) new) ∙ sym (ap length flat1) ∙ length-flat f1 room.valid in
      rw room.granted (record {
        result = w.result;
        returned = w.returned;
        effect =
            rw (w.size, w.content, at, flat1, room.size)
              (splice-Overwrites (flat f) new f.size offset buf
                (omega (arith, length-flat f v, v.size_fits))
                (omega (arith, total, room.size, room.valid.size_fits)));
        valid = w.valid;
        dirty = w.dirty;
        filename = w.filename ∙ room.keeps.filename;
        chunk_size = w.chunk_size ∙ room.keeps.chunk_size;
      })

  -- With memory at hand a write below the limit, of a writable file, returns its length, reads back,
  -- and changes no other byte, unless it starts at the last byte of a chunk or ends exactly at the
  -- capacity.
  pub write-Wrote :
      Plenty alloc
      → offset + length buf < m
      → (offset + 1) % f.chunk_size ≢ 0
      → offset + length buf ≢ f.capacity
      → Wrote m buf offset f (write alloc m buf offset f)
  unfolding write
  write-Wrote plenty lt inside ne =
      let e : add64 offset (length buf) ≡ offset + length buf = omega (arith, v.limits.no_wrap) in
      let nonempty : (length buf == 0) ≡ false = ground arith in
      simp (writable, nonempty, e)
        (write_in_room (make_room alloc m (offset + length buf) f) lt inside
          (make_room-Room alloc f v (offset + length buf) plenty lt ne))

-- What the file in each branch of `write` has, the file that it leaves has.
guards_lem :
    (P : LocalFile → Type 0) (read_only empty fits : Bool) (a b c : ℤ) (f f1 : LocalFile)
    (raw : Option (ℤ × LocalFile)) {code : ℤ} {f' : LocalFile}
    → P f
    → P f1
    → (raw ≡ some (code, f') → P f')
    → (if read_only
        then some (a, f)
        else if empty
        then some (b, f)
        else if fits
        then raw
        else some (c, f1))
      ≡ some (code, f')
    → P f'
guards_lem P true empty fits a b c f f1 raw {f' = f'} v v1 k e =
    let same : f ≡ f' = cc in rw same at v
guards_lem P false true fits a b c f f1 raw {f' = f'} v v1 k e =
    let same : f ≡ f' = cc in rw same at v
guards_lem P false false true a b c f f1 raw v v1 k e = k e
guards_lem P false false false a b c f f1 raw {f' = f'} v v1 k e =
    let same : f1 ≡ f' = cc in rw same at v1

-- A property of the file on each branch holds of the file that is left.
pub write_cases :
    (P : LocalFile → Type 0) (alloc : Alloc) (m : ℕ) (f : LocalFile) (buf : List ℕ) (offset : ℕ)
    {code : ℤ} {f' : LocalFile}
    → P f
    → P (make_room alloc m (add64 offset (length buf)) f).1
    → (raw_write buf offset (make_room alloc m (add64 offset (length buf)) f).1 ≡ some (code, f')
        → P f')
    → write alloc m buf offset f ≡ some (code, f')
    → P f'
unfolding write
write_cases P alloc m f buf offset v room_valid k e =
    let room = make_room alloc m (add64 offset (length buf)) f in
    guards_lem P f.read_only (length buf == 0) room.0 (neg erofs) (pos 0) (neg enomem) f room.1
      (raw_write buf offset room.1) v room_valid k e

-- Whatever `write` returns, the file that it leaves is valid.
pub write-IsValid :
    (alloc : Alloc) {m : ℕ} (f : LocalFile) (buf : List ℕ) (offset : ℕ) {code : ℤ} {f' : LocalFile}
    → IsValid m f
    → write alloc m buf offset f ≡ some (code, f')
    → IsValid m f'
write-IsValid alloc {m} f buf offset v e =
    let room_valid = make_room-IsValid alloc f v (add64 offset (length buf)) in
    write_cases (IsValid m) alloc m f buf offset v room_valid
      (raw_write-IsValid buf offset (make_room alloc m (add64 offset (length buf)) f).1 room_valid)
      e
