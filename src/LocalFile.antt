-- ===== src/LocalFile.antt =====
-- The in-memory file of local_grid_file.h and local_grid_file.cpp (`LocalMemoryGridFile`): a list
-- of chunks of one size, written and read in place. `openRemote` and `flush`, which talk to the
-- server, stand in Sync.antt. A vector index out of range is the fault `none`. Fresh memory has the
-- bytes that the allocator left there; an allocation may fail.
pub mod Chunks
pub mod Valid
pub mod Grow
pub mod Size
pub mod Truncate
pub mod RawWrite
pub mod Contents
pub mod Write
pub mod Akin
pub mod Misplaced
pub mod Read
pub mod Whole
use mathlib.Core.Option
use mgridfs.Base.{
  ℕ, zero, suc, ◌+◌, ◌-◌, ◌/◌, ◌%◌, min, Bool, true, false, not, ◌||◌, Option, none, some, List, [],
  ◌∷◌, ◌++◌, Name, is_empty, ltb, leb, ◌==◌, if◌then◌else◌, length, take, drop, tabulate, overlay,
  splice, add64, sub64, uint32, int_size, to_int, off_le, ℤ, pos, neg,
}

-- errno values.
abbrev pub enoent : ℕ
enoent = 2

abbrev pub eio : ℕ
eio = 5

abbrev pub ebadf : ℕ
ebadf = 9

abbrev pub enomem : ℕ
enomem = 12

abbrev pub erofs : ℕ
erofs = 30

-- `LocalGridFile` with the fields that `LocalMemoryGridFile` adds.
pub record LocalFile : Type 0 where
  pub size : ℕ
  pub capacity : ℕ
  pub read_only : Bool
  pub dirty : Bool
  pub filename : Name
  pub chunk_size : ℕ
  pub chunks : List (List ℕ)

-- What `new (nothrow) char[n]` gives at each call: no memory, or a block with some bytes in it.
abbrev pub Block : Type 0
Block = Option (ℕ → ℕ)

abbrev pub Alloc : Type 0
Alloc = ℕ → Block

-- `LocalMemoryGridFile(filename)`; the chunk size is the option `_memChunkSize`.
unfoldable pub new_file : ℕ → Name → LocalFile
new_file mem_chunk_size name = record {
  size = 0;
  capacity = 0;
  read_only = false;
  dirty = false;
  filename = name;
  chunk_size = mem_chunk_size;
  chunks = [];
}

unfoldable pub set_dirty : Bool → LocalFile → LocalFile
set_dirty flag f = if f.read_only then f else record f { dirty = flag }

unfoldable pub set_capacity : ℕ → LocalFile → Bool × LocalFile
set_capacity capacity f = (false, f)

unfoldable pub set_read_only : LocalFile → Bool × LocalFile
set_read_only f = if f.dirty then (false, f) else (true, record f { read_only = true })

unfoldable pub set_filename : Name → LocalFile → Bool × LocalFile
set_filename name f =
    if not (is_empty f.filename) || f.dirty
    then (false, f)
    else (true, record f { filename = name })

-- The number of chunks that hold `x` bytes.
abbrev pub chunk_count : ℕ → ℕ → ℕ
chunk_count cs x = sub64 (add64 x cs) 1 / cs

-- One round of the loop that grows a file.
unfoldable pub add_chunk : ℕ → (ℕ → ℕ) → LocalFile → LocalFile
add_chunk target fill f =
    let capacity = add64 f.capacity f.chunk_size in
    record f {
      chunks = f.chunks ++ (tabulate fill 0 f.chunk_size ∷ []);
      capacity = capacity;
      size = if ltb capacity target then capacity else target;
      dirty = true;
    }

-- The loop: `n` rounds are left, the next is round `i`.
unfoldable pub grow : Alloc → ℕ → ℕ → ℕ → LocalFile → Bool × LocalFile
grow alloc target i zero f = (true, f)
grow alloc target i (suc n) f = elim (alloc i) [
  | none ↦ (false, f)
  | some fill ↦ grow alloc target (i + 1) n (add_chunk target fill f)
]

module _ (alloc : Alloc) (max_mem_file_size : ℕ) where
  unfoldable pub set_size : ℕ → LocalFile → Bool × LocalFile
  set_size size f =
      let current = chunk_count f.chunk_size f.capacity in
      let wanted = chunk_count f.chunk_size size in
      if leb size f.size
      then (true, record f { size = size; dirty = true })
      else if ltb size f.capacity
      then (true, record f { size = size; dirty = true })
      else if leb max_mem_file_size size
      then (false, f)
      else if ltb wanted current
      then (false, f)
      else grow alloc size 0 (wanted - current) f

-- The bytes that one round of a copy takes.
abbrev pub round : ℕ → ℕ → ℕ
round room pending = if ltb room pending then room else pending

-- The loop of `_write` over the chunks from the first one written.
unfoldable pub write_chunks : ℕ → ℕ → List ℕ → List (List ℕ) → Option (List (List ℕ))
write_chunks cs start [] chunks = some chunks
write_chunks cs start (d ∷ ds) [] = none
write_chunks cs start (d ∷ ds) (chunk ∷ chunks) =
    let n = round (cs - start) (length (d ∷ ds)) in
    Option.map (λ rest. splice chunk start (take n (d ∷ ds)) ∷ rest)
      (write_chunks cs 0 (drop n (d ∷ ds)) chunks)

-- `_write`. The first chunk written is `(offset + 1) / _chunkSize`.
unfoldable pub raw_write : List ℕ → ℕ → LocalFile → Option (ℤ × LocalFile)
raw_write buf offset f =
    let which = add64 offset 1 / f.chunk_size in
    Option.map
      (λ written.
        (to_int (length buf), record f { chunks = take which f.chunks ++ written; dirty = true }))
      (write_chunks f.chunk_size (offset % f.chunk_size) buf (drop which f.chunks))

module _ (alloc : Alloc) (max_mem_file_size : ℕ) where
  -- The branch of `write` that makes room: by the size alone if the capacity is larger.
  unfoldable pub make_room : ℕ → LocalFile → Bool × LocalFile
  make_room updated f =
      if ltb updated f.capacity
      then (true, record f { size = if ltb f.size updated then updated else f.size })
      else set_size alloc max_mem_file_size updated f

  unfoldable pub write : List ℕ → ℕ → LocalFile → Option (ℤ × LocalFile)
  write buf offset f =
      let (fits, f') = make_room (add64 offset (length buf)) f in
      if f.read_only
      then some (neg erofs, f)
      else if length buf == 0
      then some (pos 0, f)
      else if fits
      then raw_write buf offset f'
      else some (neg enomem, f')

-- Where the copy begins in a chunk: inside it in the round that starts with no byte read.
unfoldable pub copy_start : ℕ → ℕ → ℕ → ℕ
copy_start cs offset got = if got == 0 then offset % cs else 0

-- `bytesToRead`, through the `int`s that hold it and the chunk size.
unfoldable pub bytes_to_read : ℕ → ℕ → ℕ → ℕ → ℕ
bytes_to_read cs start len got = int_size (min (sub64 (int_size cs) start) (sub64 len got))

-- The loop of `read`: `got` bytes are read, at most `n` rounds are left.
unfoldable pub read_chunks : ℕ → ℕ → ℕ → ℕ → ℕ → List (List ℕ) → Option (List ℕ)
read_chunks cs offset len got zero chunks = some []
read_chunks cs offset len got (suc n) [] = if ltb got len then none else some []
read_chunks cs offset len got (suc n) (chunk ∷ chunks) =
    let start = copy_start cs offset got in
    let count = bytes_to_read cs start len got in
    let rest =
      Option.map (λ out. take count (drop start chunk) ++ out)
        (read_chunks cs offset len (got + count) n chunks) in
    if ltb got len then rest else some []

-- The result and the bytes put into the caller's buffer. `EOF` is -1, so `-EOF` is 1.
unfoldable pub read : ℕ → ℕ → LocalFile → Option (ℤ × List ℕ)
read len offset f =
    let num_chunks = uint32 (add64 f.size 1 / f.chunk_size) in
    let active = uint32 (offset / f.chunk_size) in
    if off_le f.size offset
    then some (pos 1, [])
    else if len == 0
    then some (pos 0, [])
    else Option.map (λ out. (to_int (length out), out))
        (read_chunks f.chunk_size offset len 0 (num_chunks - active) (drop active f.chunks))

-- The copy loop of `createFlushBuffer`.
unfoldable pub copy_chunks : ℕ → ℕ → List (List ℕ) → List ℕ
copy_chunks cs pending [] = []
copy_chunks cs pending (chunk ∷ chunks) =
    let n = if leb cs pending then cs else pending in
    let rest = copy_chunks cs (pending - n) chunks in
    if ltb 0 pending then take n chunk ++ rest else []

-- `none` is the null pointer: of an empty file, or of an allocation that failed.
unfoldable pub create_flush_buffer : Block → LocalFile → Option (List ℕ)
create_flush_buffer block f =
    if f.size == 0
    then none
    else Option.map
        (λ fill. overlay (copy_chunks f.chunk_size f.size f.chunks) (tabulate fill 0 f.size)) block
