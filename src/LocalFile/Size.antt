-- ===== src/LocalFile/Size.antt =====
-- `setSize`: which sizes it takes, what it leaves of the bytes, and the invariant.
use mgridfs.Base.{
  ℕ, ◌+◌, ◌*◌, ◌≤◌, ◌<◌, ◌≡◌, refl, sym, ap, ◌∙◌, ◌≢◌, ◌⊎◌, inl, inr, true, false, List, [], ◌++◌,
  append-nil, arith, dec_lt, dec_le, lt→ltb, le→ltb, le→leb, lt→leb, length, length-append,
  All-append,
}
use mgridfs.LocalFile.{LocalFile, Alloc, grow, set_size, chunk_count}
use mgridfs.LocalFile.Valid.{IsValid}
use mgridfs.LocalFile.Grow.{Grown, Plenty, rounds, growth, grow-Grown, grow-Plenty, mul_mono}

-- No chunk that was there changes, and neither do the file's name, mode and chunk size.
pub record Keeps (f f' : LocalFile) : Type 0 where
  pub added : List (List ℕ)
  pub chunks : f'.chunks ≡ f.chunks ++ added
  pub chunk_size : f'.chunk_size ≡ f.chunk_size
  pub read_only : f'.read_only ≡ f.read_only
  pub filename : f'.filename ≡ f.filename

module _ (alloc : Alloc) {m : ℕ} (s : ℕ) (f : LocalFile) (v : IsValid m f) where
  -- The branches of `setSize`; the one for a miscounted capacity is dead.
  pub set_size_cases :
      ((s < f.capacity ⊎ s ≤ f.size)
        × (set_size alloc m s f ≡ (true, record f { size = s; dirty = true })))
      ⊎ ((f.size < s) × (f.capacity ≤ s) × (m ≤ s) × (set_size alloc m s f ≡ (false, f)))
      ⊎ ((f.size < s)
          × (f.capacity ≤ s)
          × (s < m)
          × (set_size alloc m s f ≡ grow alloc s 0 (rounds s f) f))
  unfolding set_size
  set_size_cases = elim (dec_le s f.size) [
    | yes p ↦ inl (inr p, rw (le→leb s f.size p))
    | no p ↦ elim (dec_lt s f.capacity) [
      | yes q ↦ inl (inl q, rw (lt→leb s f.size (omega arith), lt→ltb s f.capacity q))
      | no q ↦ elim (dec_le m s) [
        | yes big ↦ inr (
            inl (
              omega arith,
              omega arith,
              big,
              rw (lt→leb s f.size (omega arith), le→ltb s f.capacity (omega arith), le→leb m s big),
            ))
        | no fits ↦ inr (
            inr (
              omega arith,
              omega arith,
              omega arith,
              rw (
                lt→leb s f.size (omega arith),
                le→ltb s f.capacity (omega arith),
                lt→leb m s (omega arith),
                le→ltb (chunk_count f.chunk_size s) (chunk_count f.chunk_size f.capacity)
                    (growth s f v (omega arith) (omega arith)).ordered,
              ),
            ))
      ]
    ]
  ]

  -- The loop runs only in the third branch, with no wrap of `_capacity`.
  grown : f.capacity ≤ s → s < m → Grown s (rounds s f) f (grow alloc s 0 (rounds s f) f)
  grown le lt =
      grow-Grown alloc s 0 (rounds s f) f
        (omega (arith, (growth s f v le lt).tight, v.limits.no_wrap))

  grown-IsValid : f.capacity ≤ s → s < m → IsValid m (grow alloc s 0 (rounds s f) f).1
  grown-IsValid le lt =
      let g = grown le lt in
      let t = growth s f v le lt in
      record {
        limits = rw g.chunk_size v.limits;
        blocks =
            rw (g.chunks, g.chunk_size)
              (All-append (λ b. length b ≡ f.chunk_size) f.chunks g.added v.blocks g.blocks);
        counted =
            rw (g.chunks, g.chunk_size, g.capacity, length-append f.chunks g.added)
              (omega (arith, v.counted));
        size_fits = ground (arith, g.size, g.capacity, v.size_fits);
        bounded = rw g.chunk_size (
            omega (
              arith,
              g.capacity,
              mul_mono (length g.added) (rounds s f) f.chunk_size g.few,
              t.tight,
            ));
      }

  size_grown :
      (le : f.capacity ≤ s) (lt : s < m)
      → s ≢ f.capacity
      → (grow alloc s 0 (rounds s f) f).0 ≡ true
      → ((grow alloc s 0 (rounds s f) f).1.size ≡ s)
        × (s ≤ (grow alloc s 0 (rounds s f) f).1.capacity)
  size_grown le lt ne done =
      let g = grown le lt in
      let t = growth s f v le lt in
      let all = g.all_added done in
      let some_added = t.some_needed (omega arith) in
      let cap : (grow alloc s 0 (rounds s f) f).1.capacity
          ≡ f.capacity + rounds s f * f.chunk_size =
        g.capacity ∙ ap (λ k. f.capacity + k * f.chunk_size) all in
      (ground (arith, g.size, cap, all, some_added, t.enough), omega (arith, cap, t.enough))

  -- `setSize` keeps the invariant, also when an allocation fails half-way.
  pub set_size-IsValid : IsValid m (set_size alloc m s f).1
  set_size-IsValid = elim set_size_cases [
    | inl (small, e) ↦ rw e (record {
      limits = v.limits;
      blocks = v.blocks;
      counted = v.counted;
      size_fits = omega (arith, v.size_fits);
      bounded = v.bounded;
    })
    | inr (inl (_, _, _, e)) ↦ rw e v
    | inr (inr (_, le, lt, e)) ↦ rw e (grown-IsValid le lt)
  ]

  -- A size that is granted is the new size and is backed by chunks, unless it is exactly the capacity.
  pub size-set_size :
      (set_size alloc m s f).0 ≡ true
      → ((s ≢ f.capacity) ⊎ (s ≤ f.size))
      → ((set_size alloc m s f).1.size ≡ s) × (s ≤ (set_size alloc m s f).1.capacity)
  size-set_size done ne = elim set_size_cases [
    | inl (small, e) ↦ rw e (omega (arith, v.size_fits))
    | inr (inl (_, _, _, e)) ↦ ground (arith, e)
    | inr (inr (above, le, lt, e)) ↦
        let differs : s ≢ f.capacity = elim ne [ inl n ↦ n | inr small ↦ absurd (omega arith) ] in
        rw e (size_grown le lt differs (rw e at done))
  ]

  -- At exactly the capacity the request is granted and nothing happens.
  pub set_size-capacity : f.size < s → s ≡ f.capacity → s < m → set_size alloc m s f ≡ (true, f)
  unfolding grow
  set_size-capacity above at_cap lt = elim set_size_cases [
    | inl (small, e) ↦ absurd (omega arith)
    | inr (inl (_, _, big, e)) ↦ absurd (omega arith)
    | inr (inr (_, le, _, e)) ↦ e ∙ rw ((growth s f v le lt).none_needed at_cap, grow)
  ]

  -- Below the limit the request is granted if there is memory.
  pub set_size-Plenty : Plenty alloc → s < m → (set_size alloc m s f).0 ≡ true
  set_size-Plenty h lt = elim set_size_cases [
    | inl (_, e) ↦ rw e
    | inr (inl (_, _, big, e)) ↦ absurd (omega arith)
    | inr (inr (_, _, _, e)) ↦ rw e (grow-Plenty alloc s 0 (rounds s f) f h)
  ]

  pub set_size-Keeps : Keeps f (set_size alloc m s f).1
  set_size-Keeps = elim set_size_cases [
    | inl (_, e) ↦ rw e (record {
      added = [];
      chunks = sym (append-nil f.chunks);
      chunk_size = refl;
      read_only = refl;
      filename = refl;
    })
    | inr (inl (_, _, _, e)) ↦ rw e (record {
      added = [];
      chunks = sym (append-nil f.chunks);
      chunk_size = refl;
      read_only = refl;
      filename = refl;
    })
    | inr (inr (_, le, lt, e)) ↦
        let g = grown le lt in
        rw e (record {
          added = g.added;
          chunks = g.chunks;
          chunk_size = g.chunk_size;
          read_only = g.read_only;
          filename = g.filename;
        })
  ]
