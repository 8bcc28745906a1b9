-- ===== src/LocalFile/Grow.antt =====
-- The loop of `setSize` that adds chunks, and the number of its rounds.
use mgridfs.Base.{
  ℕ, zero, suc, ◌+◌, ◌-◌, ◌*◌, ◌^◌, ◌≤◌, ◌<◌, min, ◌≡◌, refl, sym, ap, ◌∙◌, ◌≢◌, inl, inr, Bool,
  true, none, List, [], ◌∷◌, ◌++◌, append-nil, append_assoc, arith, dec_lt, ◌==◌, if◌then◌else◌,
  Option-cases, length, tabulate, concat, length-tabulate, Blocks, length-concat,
}
use mgridfs.LocalFile.{LocalFile, Alloc, add_chunk, grow, chunk_count}
use mgridfs.LocalFile.Valid.{IsValid, chunk_count-mul, chunk_count_bounds}

-- The bytes of a file's chunks, end to end.
abbrev pub flat : LocalFile → List ℕ
flat f = concat f.chunks

pub length-flat : {m : ℕ} (f : LocalFile) → IsValid m f → length (flat f) ≡ f.capacity
length-flat f v = length-concat f.chunk_size f.chunks v.blocks ∙ sym v.counted

-- What the loop does to `f`: it puts blocks behind the chunks, all that were asked for unless an
-- allocation fails.
pub record Grown (target n : ℕ) (f : LocalFile) (r : Bool × LocalFile) : Type 0 where
  pub added : List (List ℕ)
  pub few : length added ≤ n
  pub all_added : r.0 ≡ true → length added ≡ n
  pub blocks : Blocks f.chunk_size added
  pub chunks : r.1.chunks ≡ f.chunks ++ added
  pub capacity : r.1.capacity ≡ f.capacity + length added * f.chunk_size
  pub size : r.1.size ≡ (if length added == 0 then f.size else min r.1.capacity target)
  pub chunk_size : r.1.chunk_size ≡ f.chunk_size
  pub read_only : r.1.read_only ≡ f.read_only
  pub filename : r.1.filename ≡ f.filename

-- Memory never runs out.
abbrev pub Plenty : Alloc → Type 0
Plenty alloc = (i : ℕ) → alloc i ≢ none

pub grow-Plenty :
    (alloc : Alloc) (target i n : ℕ) (f : LocalFile)
    → Plenty alloc
    → (grow alloc target i n f).0 ≡ true
unfolding grow
grow-Plenty alloc target i zero f h = refl
grow-Plenty alloc target i (suc n) f h = elim (Option-cases (alloc i)) [
  | inl e ↦ absurd (h i e)
  | inr (fill, e) ↦ rw (e, grow) (grow-Plenty alloc target (i + 1) n (add_chunk target fill f) h)
]

-- One round, and the rounds after it.
after_one :
    (target n : ℕ) (f : LocalFile) (fill : ℕ → ℕ) (r : Bool × LocalFile)
    → f.capacity + f.chunk_size < 2 ^ 64
    → Grown target n (add_chunk target fill f) r
    → Grown target (suc n) f r
unfolding add_chunk
after_one target n f fill r h g =
    let block = tabulate fill 0 f.chunk_size in
    record {
      added = block ∷ g.added;
      few = omega (arith, g.few);
      all_added = λ e. omega (arith, g.all_added e);
      blocks = (length-tabulate fill 0 f.chunk_size, g.blocks);
      chunks = g.chunks ∙ append_assoc f.chunks (block ∷ []) g.added;
      capacity = omega (arith, g.capacity);
      size = ground (arith, g.size);
      chunk_size = g.chunk_size;
      read_only = g.read_only;
      filename = g.filename;
    }

pub grow-Grown :
    (alloc : Alloc) (target i n : ℕ) (f : LocalFile)
    → f.capacity + n * f.chunk_size < 2 ^ 64
    → Grown target n f (grow alloc target i n f)
unfolding grow add_chunk
grow-Grown alloc target i zero f h = record {
  added = [];
  few = omega arith;
  all_added = λ _. refl;
  blocks = tt;
  chunks = sym (append-nil f.chunks);
  capacity = omega arith;
  size = refl;
  chunk_size = refl;
  read_only = refl;
  filename = refl;
}
grow-Grown alloc target i (suc n) f h = elim (Option-cases (alloc i)) [
  | inl e ↦
      rw (e, grow)
        (record {
          added = [];
          few = omega arith;
          all_added = λ p. ground arith;
          blocks = tt;
          chunks = sym (append-nil f.chunks);
          capacity = omega arith;
          size = refl;
          chunk_size = refl;
          read_only = refl;
          filename = refl;
        })
  | inr (fill, e) ↦
      rw (e, grow)
        (after_one target n f fill _ (omega arith)
          (grow-Grown alloc target (i + 1) n (add_chunk target fill f) (omega arith)))
]

pub lt_of_mul_lt : (a b cs : ℕ) → a * cs < b * cs → a < b
lt_of_mul_lt a b cs h = elim (dec_lt a b) [
  | yes p ↦ p
  | no p ↦ let le : b ≤ a = omega arith in absurd (grind arith)
]

pub mul_mono : (a b cs : ℕ) → a ≤ b → a * cs ≤ b * cs
mul_mono a b cs h = grind arith

-- The arithmetic of growing from `k` chunks to the `c` chunks that hold `s` bytes.
more_chunks :
    (k c cs s : ℕ)
    → 0 < cs
    → k * cs ≤ s
    → s ≤ c * cs
    → c * cs < s + cs
    → (k ≤ c)
      × (k * cs + (c - k) * cs ≡ c * cs)
      × (s ≡ k * cs → c - k ≡ 0)
      × (k * cs < s → 0 < c - k)
more_chunks k c cs s h a b d =
    let le : k < c + 1 = lt_of_mul_lt k (c + 1) cs (omega arith) in
    let split : (c - k) + k ≡ c = omega arith in
    (
      omega arith,
      omega (arith, ap (λ (t : ℕ). t * cs) split),
      λ e. let up : c < k + 1 = lt_of_mul_lt c (k + 1) cs (omega arith) in omega arith,
      λ p. let up : k < c = lt_of_mul_lt k c cs (omega arith) in omega arith,
    )

-- The rounds that `setSize` asks for.
abbrev pub rounds : ℕ → LocalFile → ℕ
rounds s f = chunk_count f.chunk_size s - chunk_count f.chunk_size f.capacity

-- What is said below of `setSize` when it has to look at the capacity.
pub record Growth (s : ℕ) (f : LocalFile) : Type 0 where
  pub enough : s ≤ f.capacity + rounds s f * f.chunk_size
  pub tight : f.capacity + rounds s f * f.chunk_size < s + f.chunk_size
  pub ordered : chunk_count f.chunk_size f.capacity ≤ chunk_count f.chunk_size s
  pub none_needed : s ≡ f.capacity → rounds s f ≡ 0
  pub some_needed : f.capacity < s → 0 < rounds s f

pub growth : {m : ℕ} (s : ℕ) (f : LocalFile) → IsValid m f → f.capacity ≤ s → s < m → Growth s f
growth {m} s f v le lt =
    let cs = f.chunk_size in
    let k = length f.chunks in
    let e : chunk_count cs f.capacity ≡ k =
      rw v.counted (chunk_count-mul v.limits k (omega (arith, v.counted, v.bounded))) in
    let b = chunk_count_bounds v.limits s lt in
    let facts =
      more_chunks k (chunk_count cs s) cs s (omega arith) (omega (arith, v.counted)) b.0 b.1 in
    record {
      enough = rw (e, v.counted, facts.1) b.0;
      tight = rw (e, v.counted, facts.1) b.1;
      ordered = rw e facts.0;
      none_needed = λ p. rw e (facts.2 (p ∙ v.counted));
      some_needed = λ p. rw e (facts.3 (rw v.counted at p));
    }
