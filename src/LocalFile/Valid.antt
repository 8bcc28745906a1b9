-- ===== src/LocalFile/Valid.antt =====
-- The representation invariant of an in-memory file, and the count of chunks for a size.
use mgridfs.Base.{ℕ, ◌+◌, ◌*◌, ◌^◌, ◌≤◌, ◌<◌, ◌≡◌, arith, length, Blocks, Name}
use mgridfs.LocalFile.{LocalFile, chunk_count, new_file}

-- The options that the arithmetic of the file relies on: chunks of two bytes or more that an `int`
-- can count, and sizes that stay far from the wrap of `size_t`, in fewer
-- chunks than an `unsigned int` counts. The options are multiples of 1024.
pub record Limits (max_mem_file_size cs : ℕ) : Type 0 where
  pub two : 2 ≤ cs
  pub small : cs < 2 ^ 31
  pub no_wrap : max_mem_file_size + 2 * cs ≤ 2 ^ 63
  pub countable : max_mem_file_size + 2 * cs ≤ cs * 2 ^ 32

-- The capacity is that of the chunks, each of the chunk size, and covers the size; it stays below
-- the largest file by less than a chunk.
pub record IsValid (max_mem_file_size : ℕ) (f : LocalFile) : Type 0 where
  pub limits : Limits max_mem_file_size f.chunk_size
  pub blocks : Blocks f.chunk_size f.chunks
  pub counted : f.capacity ≡ length f.chunks * f.chunk_size
  pub size_fits : f.size ≤ f.capacity
  pub bounded : f.capacity < max_mem_file_size + f.chunk_size

module _ {m cs : ℕ} (l : Limits m cs) where
  pub chunk_count-mul : (k : ℕ) → k * cs < m + cs → chunk_count cs (k * cs) ≡ k
  chunk_count-mul k h = grind arith

  pub chunk_count_bounds :
      (x : ℕ) → x < m → (x ≤ chunk_count cs x * cs) × (chunk_count cs x * cs < x + cs)
  chunk_count_bounds x h = grind arith

pub new_file-IsValid : {m cs : ℕ} (name : Name) → Limits m cs → IsValid m (new_file cs name)
unfolding new_file
new_file-IsValid {m} {cs} name l = omega arith
