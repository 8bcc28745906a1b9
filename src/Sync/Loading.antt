-- ===== src/Sync/Loading.antt =====
-- The loading of a file from the server: the bytes that the file in memory has then.
use mgridfs.Base.{
  ℕ, zero, suc, ◌+◌, ◌*◌, ◌%◌, ◌^◌, ◌≤◌, ◌<◌, min, ◌≡◌, refl, sym, ap, ap₂, ◌∙◌, ◌≢◌, Option, none,
  some, List, [], ◌∷◌, ◌++◌, arith, length, take, drop, splice, length-take, length-drop,
  take_of_le, take-nil, take-take, take-drop-splice, take-splice, ℤ, add64, to_int,
}
use mgridfs.LocalFile.{LocalFile, raw_write}
use mgridfs.LocalFile.Valid.{IsValid}
use mgridfs.LocalFile.Grow.{flat, length-flat}
use mgridfs.LocalFile.Contents.{contents}
use mgridfs.LocalFile.RawWrite.{place, place_inside, raw_write-Placed}
use mgridfs.Server.{Reply, GridFile, ok, thrown}
use mgridfs.Server.Laws.{Document}
use mgridfs.World.{Env, World, Action, ◌>>=◌, return, total, ask, attempt}
use mgridfs.World.Ends.{Ends, Ends-done, Ends-bind, Ends-attempt-ask}
use mgridfs.World.Quiet.{Same, Never}
use mgridfs.Sync.{Load, full, null_chunk, threw, load_chunks, after_write}

take-plus : {A : Type 0} (a b : ℕ) (xs : List A) → take (a + b) xs ≡ take a xs ++ take b (drop a xs)
take-plus zero b xs = ap (λ k. take k xs) {x = zero + b} (omega arith)
take-plus (suc a) b [] = take-nil (suc a + b) ∙ sym (take-nil b)
take-plus (suc a) b (x ∷ xs) =
    let e : suc a + b ≡ suc (a + b) = omega arith in rw e (ap (◌∷◌ x) (take-plus a b xs))

take_of_length : {A : Type 0} (n : ℕ) (xs : List A) → take (length (take n xs)) xs ≡ take n xs
take_of_length zero xs = refl
take_of_length (suc n) [] = refl
take_of_length (suc n) (x ∷ xs) = ap (◌∷◌ x) (take_of_length n xs)

-- A piece of the bytes, put behind those that are there already.
splice_next :
    (xs buf : List ℕ) (offset n : ℕ)
    → offset + length (take n (drop offset buf)) ≤ length xs
    → take offset xs ≡ take offset buf
    → let c = take n (drop offset buf) in
      take (offset + length c) (splice xs offset c) ≡ take (offset + length c) buf
splice_next xs buf offset n fits same =
    let c = take n (drop offset buf) in
    take-plus offset (length c) (splice xs offset c)
    ∙ ap₂ ◌++◌ (take-splice xs offset c ∙ same)
        (take-drop-splice xs offset c fits ∙ sym (take_of_length n (drop offset buf)))
    ∙ sym (take-plus offset (length c) buf)

-- A file that has been filled up to `offset`.
pub record Filled (m : ℕ) (buf : List ℕ) (cs offset : ℕ) (f : LocalFile) : Type 0 where
  pub valid : IsValid m f
  pub chunk_size : f.chunk_size ≡ cs
  pub size : f.size ≡ length buf
  pub room : length buf ≤ f.capacity
  pub start : take offset (flat f) ≡ take offset buf

written_next :
    {m : ℕ} (buf : List ℕ) (cs offset n : ℕ) (f : LocalFile)
    → Filled m buf cs offset f
    → (offset + 1) % cs ≢ 0
    → offset < length buf
    → let c = take n (drop offset buf) in
      (f' : LocalFile) × (code : ℤ) × (raw_write c offset f ≡ some (code, f'))
      × Filled m buf cs (offset + length c) f'
      × (f'.filename ≡ f.filename)
written_next buf cs offset n f h inside before =
    let c = take n (drop offset buf) in
    let v = h.valid in
    let fits : offset + length c ≤ length buf =
      omega (arith, length-take n (drop offset buf), length-drop offset buf) in
    let e : place f.chunk_size offset ≡ offset =
      rw h.chunk_size (place_inside cs offset (rw h.chunk_size at v.limits.two) inside) in
    let w =
      raw_write-Placed c offset f v
        (omega (arith, h.room, v.bounded, v.limits.no_wrap, v.limits.small))
        (rw e (omega (arith, fits, h.room))) in
    (
      w.result,
      to_int (length c),
      w.returned,
      record {
        valid = w.valid;
        chunk_size = w.chunk_size ∙ h.chunk_size;
        size = w.size ∙ h.size;
        room = rw w.capacity h.room;
        start =
            ap (take (offset + length c)) (w.content ∙ ap (λ o. splice (flat f) o c) e)
            ∙ splice_next (flat f) buf offset n (omega (arith, fits, h.room, length-flat f v))
                h.start;
      },
      w.filename,
    )

-- What the loop leaves if it gets all chunks: the bytes of the document, under the old name.
pub record Loaded (m : ℕ) (buf : List ℕ) (f f' : LocalFile) : Type 0 where
  pub valid : IsValid m f'
  pub chunk_size : f'.chunk_size ≡ f.chunk_size
  pub filename : f'.filename ≡ f.filename
  pub content : contents f' ≡ buf

abbrev pub IfFull : (LocalFile → Type 0) → Load → Type 0
IfFull P (full f) = P f
IfFull P (null_chunk f) = Unit {0}
IfFull P (threw f) = Unit {0}

Filled-Loaded :
    {m : ℕ} (buf : List ℕ) (offset : ℕ) (f f' : LocalFile)
    → Filled m buf f.chunk_size offset f'
    → f'.filename ≡ f.filename
    → length buf ≤ offset
    → Loaded m buf f f'
Filled-Loaded buf offset f f' h name end = record {
  valid = h.valid;
  chunk_size = h.chunk_size;
  filename = name;
  content =
      ap (λ n. take n (flat f')) h.size
      ∙ sym (ap (λ k. take k (flat f')) {x = min (length buf) offset} (omega arith))
      ∙ sym (take-take (length buf) offset (flat f'))
      ∙ ap (take (length buf)) h.start
      ∙ take-take (length buf) offset buf
      ∙ take_of_le (min (length buf) offset) buf (omega arith);
}

module _ (e : Env) (g : GridFile) (buf : List ℕ) {m : ℕ} (first : LocalFile)
    (aligned : (i : ℕ) → (i * g.chunk_size + 1) % first.chunk_size ≢ 0)
    (small : length buf < 2 ^ 63) where
  open e.server use {Db, num_chunks, get_chunk}

  -- A run of the loop from chunk `i` on: it ends with the bytes of the document, or was broken off.
  pub load_chunks-Loaded :
      (n i : ℕ) (f : LocalFile) (w : World Db)
      → Document e.server g buf w.db
      → i + n ≡ num_chunks g
      → Filled m buf first.chunk_size (min (i * g.chunk_size) (length buf)) f
      → f.filename ≡ first.filename
      → Ends
          (λ l v. Same w v × IfFull (Loaded m buf first) l)
          Never
          (load_chunks e g n i (min (i * g.chunk_size) (length buf)) f w)
  unfolding load_chunks
  load_chunks-Loaded zero i f w d count h name = Ends-done (full f) w (
    record { handles = refl; files = refl },
    Filled-Loaded buf (min (i * g.chunk_size) (length buf)) first f h name (
        omega (
          arith,
          d.all,
          ap (λ k. k * g.chunk_size) {x = i} {y = num_chunks g} (omega (arith, count)),
        )),
  )
  load_chunks-Loaded (suc n) i f w d count h name =
      let offset = min (i * g.chunk_size) (length buf) in
      Ends-bind {P = λ r v. (v ≡ w) × (r ≡ get_chunk g i w.db)} (attempt (ask (get_chunk g i))) _ w
        (Ends-attempt-ask (get_chunk g i) w (refl, refl))
        (λ r v t.
          rw t.0
            (next r (sym t.1) (λ f'. load_chunks-Loaded n (i + 1) f' w d (omega (arith, count)))))
    where
      next :
          (r : Reply (Option (List ℕ)))
          → get_chunk g i w.db ≡ r
          → ((f' : LocalFile)
              → Filled m buf first.chunk_size (min ((i + 1) * g.chunk_size) (length buf)) f'
              → f'.filename ≡ first.filename
              → Ends
                  (λ l v. Same w v × IfFull (Loaded m buf first) l)
                  Never
                  (load_chunks e g n (i + 1) (min ((i + 1) * g.chunk_size) (length buf)) f' w))
          → Ends {W = World Db} {A = Load}
              (λ l v. Same w v × IfFull (Loaded m buf first) l)
              Never
              ((elim r as (λ r. Action (World Db) Load) [
                | thrown ↦ return (threw f)
                | ok none ↦ return (null_chunk f)
                | ok (some c) ↦
                    total (after_write (raw_write c (min (i * g.chunk_size) (length buf)) f))
                    >>= λ f'.
                        load_chunks e g n
                          (i + 1)
                          (add64 (min (i * g.chunk_size) (length buf)) (length c))
                          f'
              ])
                w)
      next thrown q rest = Ends-done (threw f) w (record { handles = refl; files = refl }, tt)
      next (ok none) q rest = absurd (cc (d.chunk i none (omega (arith, count)) q))
      next (ok (some c)) q rest =
          let S = g.chunk_size in
          let o = min (i * S) (length buf) in
          let before : i * S < length buf = d.tight i (omega (arith, count)) in
          let at : o ≡ i * S = omega (arith, before) in
          let has : c ≡ take S (drop o buf) =
            cc (d.chunk i (some c) (omega (arith, count)) q, ap (λ k. take S (drop k buf)) at) in
          let (f', code, written, filled, same) =
            written_next buf first.chunk_size o S f h (rw at (aligned i))
              (omega (arith, at, before)) in
          let after : o + length (take S (drop o buf)) ≡ min ((i + 1) * S) (length buf) =
            omega (arith, at, length-take S (drop o buf), length-drop o buf) in
          let next_offset : add64 o (length c) ≡ min ((i + 1) * S) (length buf) =
            rw has (omega (arith, after, small)) in
          let wrote : raw_write c o f ≡ some (code, f') = rw has written in
          rw (wrote, next_offset) (rest f' (rw after at filled) (same ∙ name))
