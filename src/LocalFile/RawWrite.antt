-- ===== src/LocalFile/RawWrite.antt =====
-- `_write`: where its bytes go.
use mathlib.Core.Option
use native.Mathlib.Nat.{mod-lt}
use mgridfs.Base.{
  ℕ, suc, ◌+◌, ◌-◌, ◌*◌, ◌/◌, ◌%◌, ◌^◌, ◌≤◌, ◌<◌, ◌≡◌, refl, sym, ap, ◌∙◌, ◌≢◌, true, Option, none,
  some, List, [], ◌∷◌, ◌++◌, arith, dec_lt, map-eq-some, length, take, drop, concat, splice,
  length-append, length-take, length-drop, length-splice, take-append-drop, splice-skip, Blocks,
  length-concat, concat-append, All-append, All-take, All-drop, ℤ, add64, to_int,
}
use mgridfs.LocalFile.{LocalFile, raw_write, write_chunks, round}
use mgridfs.LocalFile.Chunks.{write_chunks-Written, write_chunks-none, concat-take, concat-drop}
use mgridfs.LocalFile.Valid.{IsValid}
use mgridfs.LocalFile.Grow.{flat, mul_mono, lt_of_mul_lt}

-- The index at which `_write` puts the first byte of a write at `offset`.
abbrev pub place : ℕ → ℕ → ℕ
place cs offset = (offset + 1) / cs * cs + offset % cs

-- It is the offset, unless that is the last byte of a chunk: then it is one chunk further on.
pub place_inside : (cs offset : ℕ) → 2 ≤ cs → (offset + 1) % cs ≢ 0 → place cs offset ≡ offset
place_inside cs offset h ne = grind arith

pub place_last_byte :
    (cs offset : ℕ) → 2 ≤ cs → (offset + 1) % cs ≡ 0 → place cs offset ≡ offset + cs
place_last_byte cs offset h e = grind arith

-- The chunks from number `which` on take a write that fits.
record InChunks (cs which start : ℕ) (buf : List ℕ) (chunks : List (List ℕ)) : Type 0 where
  result : List (List ℕ)
  returned : write_chunks cs start buf (drop which chunks) ≡ some result
  content : concat (take which chunks ++ result) ≡ splice (concat chunks) (which * cs + start) buf
  blocks : Blocks cs (take which chunks ++ result)
  count : length (take which chunks ++ result) ≡ length chunks

in_chunks :
    (cs which start : ℕ) (buf : List ℕ) (chunks : List (List ℕ))
    → 0 < cs
    → start < cs
    → Blocks cs chunks
    → which * cs + start + length buf ≤ length chunks * cs
    → InChunks cs which start buf chunks
in_chunks cs which start buf chunks pos_cs lt h fits =
    let before = take which chunks in
    let after = drop which chunks in
    let le : which < length chunks + 1 = lt_of_mul_lt which (length chunks + 1) cs (omega arith) in
    let split : (length chunks - which) + which ≡ length chunks = omega arith in
    let w =
      write_chunks-Written cs start buf after pos_cs lt
        (All-drop (λ b. length b ≡ cs) which chunks h)
        (rw (length-drop which chunks) (omega (arith, ap (λ (t : ℕ). t * cs) split))) in
    let before_length : length (concat before) ≡ which * cs =
      rw
        (
          concat-take cs which chunks h,
          length-take (which * cs) (concat chunks),
          length-concat cs chunks h,
        )
        (omega (arith, mul_mono which (length chunks) cs)) in
    let whole : concat chunks ≡ concat before ++ concat after =
      rw (concat-take cs which chunks h, concat-drop cs which chunks h)
        (sym (take-append-drop (which * cs) (concat chunks))) in
    record {
      result = w.result;
      returned = w.returned;
      content =
          rw (concat-append before w.result, w.content, whole)
            (sym (
              splice-skip (concat before) (concat after) (which * cs + start) start buf
                (omega (arith, before_length))));
      blocks =
          All-append (λ b. length b ≡ cs) before w.result
            (All-take (λ b. length b ≡ cs) which chunks h) w.blocks;
      count = omega (
        arith,
        length-append before w.result,
        w.count,
        length-take which chunks,
        length-drop which chunks,
      );
    }

-- The room behind chunk `which`, also if there is no such chunk.
beyond : (k which cs : ℕ) (n : ℕ) → 0 < n → k * cs < which * cs + n → (k - which) * cs < n
beyond k which cs n pos_n h = elim (dec_lt which k) [
  | yes p ↦
      let split : (k - which) + which ≡ k = omega arith in
      omega (arith, ap (λ (t : ℕ). t * cs) split)
  | no p ↦ let e : k - which ≡ 0 = omega arith in rw e (omega arith)
]

-- A write that `_write` has made: the code, the bytes, and what stays as it was.
pub record Placed (m : ℕ) (buf : List ℕ) (offset : ℕ) (f : LocalFile) (out : Option (ℤ × LocalFile))
    : Type 0 where
  pub result : LocalFile
  pub returned : out ≡ some (to_int (length buf), result)
  pub content : flat result ≡ splice (flat f) (place f.chunk_size offset) buf
  pub valid : IsValid m result
  pub size : result.size ≡ f.size
  pub dirty : result.dirty ≡ true
  pub capacity : result.capacity ≡ f.capacity
  pub filename : result.filename ≡ f.filename
  pub chunk_size : result.chunk_size ≡ f.chunk_size

module _ {m : ℕ} (buf : List ℕ) (offset : ℕ) (f : LocalFile) (v : IsValid m f)
    (small : offset + 1 < 2 ^ 64) where
  pub raw_write-Placed :
      place f.chunk_size offset + length buf ≤ f.capacity
      → Placed m buf offset f (raw_write buf offset f)
  unfolding raw_write
  raw_write-Placed fits =
      let cs = f.chunk_size in
      let which = (offset + 1) / cs in
      let e : add64 offset 1 / cs ≡ which = ap (λ k. k / cs) {x = add64 offset 1} (omega arith) in
      let c =
        in_chunks cs which (offset % cs) buf f.chunks (omega (arith, v.limits.two))
          (mod-lt offset (omega (arith, v.limits.two))) v.blocks (omega (arith, v.counted)) in
      record {
        result = record f { chunks = take which f.chunks ++ c.result; dirty = true };
        returned = rw (e, c.returned, Option.map, e);
        content = c.content;
        valid = record {
          limits = v.limits;
          blocks = c.blocks;
          counted = rw c.count v.counted;
          size_fits = v.size_fits;
          bounded = v.bounded;
        };
        size = refl;
        dirty = refl;
        capacity = refl;
        filename = refl;
        chunk_size = refl;
      }

  -- A write past the end of the last chunk indexes the vector out of range.
  pub raw_write-none :
      0 < length buf
      → f.capacity < place f.chunk_size offset + length buf
      → raw_write buf offset f ≡ none
  unfolding raw_write
  raw_write-none some_bytes over =
      let cs = f.chunk_size in
      let which = (offset + 1) / cs in
      let e : add64 offset 1 / cs ≡ which = ap (λ k. k / cs) {x = add64 offset 1} (omega arith) in
      rw (
        e,
        write_chunks-none cs (offset % cs) buf (drop which f.chunks) (omega (arith, v.limits.two))
            (mod-lt offset (omega (arith, v.limits.two))) some_bytes
            (rw (length-drop which f.chunks) (
              beyond (length f.chunks) which cs (offset % cs + length buf) (omega arith)
                (omega (arith, v.counted)))),
      )

-- The loop of a write changes bytes in chunks, and no chunk's length.
write_chunks-Blocks :
    (cs start : ℕ) (buf : List ℕ) (chunks : List (List ℕ)) {out : List (List ℕ)}
    → Blocks cs chunks
    → write_chunks cs start buf chunks ≡ some out
    → Blocks cs out × (length out ≡ length chunks)
unfolding write_chunks
write_chunks-Blocks cs start [] chunks {out = out} h e =
    let same : chunks ≡ out = cc e in rw (← same) (h, refl)
write_chunks-Blocks cs start (d ∷ ds) [] h e = absurd (ground arith)
write_chunks-Blocks cs start (d ∷ ds) (chunk ∷ chunks) h e =
    let n = round (cs - start) (length (d ∷ ds)) in
    let (rest, er, eo) = map-eq-some _ (write_chunks cs 0 (drop n (d ∷ ds)) chunks) e in
    let ih = write_chunks-Blocks cs 0 (drop n (d ∷ ds)) chunks h.1 er in
    rw (← eo) ((length-splice chunk start _ ∙ h.0, ih.0), ap suc ih.1)

-- A write into the chunks keeps the invariant, wherever it lands.
pub raw_write-IsValid :
    {m : ℕ} (buf : List ℕ) (offset : ℕ) (f : LocalFile) {code : ℤ} {f' : LocalFile}
    → IsValid m f
    → raw_write buf offset f ≡ some (code, f')
    → IsValid m f'
unfolding raw_write
raw_write-IsValid {m} buf offset f {f' = f'} v e =
    let which = add64 offset 1 / f.chunk_size in
    let (written, ew, ef) = map-eq-some _ _ e in
    let w =
      write_chunks-Blocks _ _ buf (drop which f.chunks) (All-drop _ which f.chunks v.blocks) ew in
    let same : f' ≡ record f { chunks = take which f.chunks ++ written; dirty = true } = cc ef in
    rw same (record {
      limits = v.limits;
      blocks = All-append _ _ written (All-take _ which f.chunks v.blocks) w.0;
      counted =
          v.counted
          ∙ ap (λ n. n * f.chunk_size)
              (omega (
                arith,
                length-append (take which f.chunks) written,
                length-take which f.chunks,
                w.1,
                length-drop which f.chunks,
              ));
      size_fits = v.size_fits;
      bounded = v.bounded;
    })
