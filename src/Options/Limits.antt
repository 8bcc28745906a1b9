-- ===== src/Options/Limits.antt =====
-- The options that are accepted: their port and their sizes.
use mgridfs.Base.{ℕ, ◌+◌, ◌*◌, ◌%◌, ◌^◌, ◌≤◌, ◌<◌, ◌≡◌, Bool, none, some, arith}
use mgridfs.LocalFile.Valid.{Limits}
use mgridfs.Options.{
  ParsedOptions, FsOptions, resolve, options_of, chunk_bytes, max_chunks, port_in_range,
}

-- The command line is refused exactly for a port above 65535, and an accepted port is one that exists.
pub resolve-port :
    (p : ParsedOptions) (dyn : Bool)
    → (65535 < p.port → resolve p dyn ≡ none)
      × (p.port ≤ 65535
          → (o : FsOptions) × (resolve p dyn ≡ some o) × (0 < o.port) × (o.port ≤ 65535))
unfolding resolve options_of port_in_range
resolve-port p dyn =
    (λ h. ground arith, λ h. (options_of p dyn, ground arith, ground arith, ground arith))

resolve-some :
    (p : ParsedOptions) (dyn : Bool) (o : FsOptions) → resolve p dyn ≡ some o → options_of p dyn ≡ o
unfolding resolve
resolve-some p dyn o e = ground arith

chunk_bytes_small :
    (p : ParsedOptions) → p.mem_chunk_size < 2 ^ 21 → (2 ≤ chunk_bytes p) × (chunk_bytes p < 2 ^ 31)
unfolding chunk_bytes
chunk_bytes_small p h = ground arith

max_chunks_few :
    (p : ParsedOptions) → p.max_mem_file_chunks + 2 ≤ 2 ^ 32 → max_chunks p + 2 ≤ 2 ^ 32
unfolding max_chunks
max_chunks_few p h = ground arith

product-Limits : (cs n : ℕ) → 2 ≤ cs → cs < 2 ^ 31 → n + 2 ≤ 2 ^ 32 → Limits (cs * n % 2 ^ 64) cs
product-Limits cs n two small few =
    let all : cs * (n + 2) ≤ cs * 2 ^ 32 = grind arith in
    let e : cs * n % 2 ^ 64 ≡ cs * n = omega arith in
    rw e (record { two = two; small = small; no_wrap = omega arith; countable = omega arith })

options-Limits :
    (p : ParsedOptions) (dyn : Bool)
    → p.mem_chunk_size < 2 ^ 21
    → p.max_mem_file_chunks + 2 ≤ 2 ^ 32
    → Limits (options_of p dyn).max_mem_file_size (options_of p dyn).mem_chunk_size
unfolding options_of
options-Limits p dyn small few =
    let b = chunk_bytes_small p small in
    product-Limits (chunk_bytes p) (max_chunks p) b.0 b.1 (max_chunks_few p few)

-- Accepted options keep the arithmetic of the in-memory files in range, if a chunk has less than two
-- gigabytes and the number of chunks leaves room for two more.
pub resolve-Limits :
    (p : ParsedOptions) (dyn : Bool) (o : FsOptions)
    → resolve p dyn ≡ some o
    → p.mem_chunk_size < 2 ^ 21
    → p.max_mem_file_chunks + 2 ≤ 2 ^ 32
    → Limits o.max_mem_file_size o.mem_chunk_size
resolve-Limits p dyn o e small few =
    let same : options_of p dyn ≡ o = resolve-some p dyn o e in
    rw same at (options-Limits p dyn small few)
