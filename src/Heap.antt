-- ===== src/Heap.antt =====
-- kernel/mem/heap.cc: the regions of small chunks. A region's bitset has a bit for each chunk. What
-- a block's header tells, the number of its chunks, is a function of the header's address.
pub mod Bitset
pub mod Zeroes
pub mod Scan
pub mod Search
pub mod Blocks
mod Tests
use Prim.Native.Nat.{bit_and, bit_or}
use umbongo.Base.{
  ℕ, zero, suc, ◌+◌, ◌-◌, ◌*◌, ◌/◌, ◌%◌, ◌^◌, List, [], ◌∷◌, Bool, true, false, not, ◌&&◌, Option,
  none, some, ◌==◌, leb, ltb, if◌then◌else◌, get_elem?, set, replicate, add_size, mul_size,
  sub_size,
}
use umbongo.Base.Bits.{complement}
use umbongo.Base.Panic.{◌>>=◌, ◌>>◌, assert}

abbrev pub bucket_bit_count : ℕ
bucket_bit_count = 64

abbrev pub chunk_size : ℕ
chunk_size = 32

abbrev pub header_size : ℕ
header_size = 16

abbrev pub limit : ℕ
limit = 2 ^ 64 - 1

pub record Region : Type 0 where
  pub memory : ℕ
  pub bitset : List ℕ
  pub chunk_count : ℕ
  pub used_chunk_count : ℕ

-- The constructor on so many bytes of memory. The bitset is kept as far as its buckets are whole,
-- since no other bit is looked at; all of these are cleared.
unfoldable pub new_region : ℕ → ℕ → Region
new_region memory memory_size = record {
  memory = memory;
  bitset = replicate (memory_size / (chunk_size + 1) / bucket_bit_count) 0;
  chunk_count = memory_size / (chunk_size + 1);
  used_chunk_count = 0;
}

-- `__builtin_ctzll` of a word that is not 0, of which so many bits are left to look at.
unfoldable pub ctz : ℕ → ℕ → ℕ
ctz zero word = 0
ctz (suc bits) word = let rest = ctz bits (word / 2) in if word % 2 == 1 then 0 else suc rest

-- `first_chunk` and `free_chunk_count`.
pub record Run : Type 0 where
  pub first : ℕ
  pub free : ℕ

-- A run is begun at a chunk, if none is under way, and takes so many chunks more.
abbrev pub extend : ℕ → ℕ → Run → Run
extend chunk more r = record {
  first = if r.free == 0 then chunk else r.first;
  free = add_size r.free more;
}

abbrev pub broken : Run → Run
broken r = record r { free = 0 }

module _ (desired : ℕ) where
  -- The loop over the bits of a bucket, of which `viewed` are shifted out, with its rounds counted.
  unfoldable pub scan_bucket : ℕ → ℕ → ℕ → ℕ → Run → Option Run
  scan_bucket zero start bucket viewed r = none
  scan_bucket (suc fuel) start bucket viewed r =
      let zeroes = ctz 64 bucket in
      let shifted = bucket / 2 ^ zeroes in
      let longer = extend (start + viewed) zeroes r in
      let ones = ctz 64 (complement shifted) in
      let rest =
        scan_bucket fuel start (shifted / 2 ^ ones) (viewed + zeroes + ones) (broken longer) in
      if not (ltb viewed bucket_bit_count)
      then some r
      else if bucket == 0
      then some (extend (start + viewed) (bucket_bit_count - viewed) r)
      else if leb desired longer.free
      then some longer
      else rest

  -- The loop over the buckets, with `rounds` left.
  unfoldable pub scan : ℕ → ℕ → List ℕ → Run → Option Run
  scan zero index bitset r = some r
  scan (suc rounds) index bitset r =
      let start = index * bucket_bit_count in
      let free = scan rounds (index + 1) bitset (extend start bucket_bit_count r) in
      let full = scan rounds (index + 1) bitset (broken r) in
      let mixed =
        λ (bucket : ℕ). scan_bucket 65 start bucket 0 r >>= scan rounds (index + 1) bitset in
      if leb desired r.free
      then some r
      else get_elem? bitset index >>= λ bucket.
          if bucket == 0 then free else if bucket == limit then full else mixed bucket

abbrev pub mask : ℕ → ℕ
mask i = 2 ^ (i % bucket_bit_count)

-- The index of a chunk's bucket as it is written.
abbrev pub bucket_of : ℕ → ℕ
bucket_of i = (i + bucket_bit_count) / bucket_bit_count - 1

-- The loops that set and clear the bits of a run.
unfoldable pub set_chunks : ℕ → ℕ → List ℕ → Option (List ℕ)
set_chunks zero i bitset = some bitset
set_chunks (suc rounds) i bitset = do
  bucket ← get_elem? bitset (bucket_of i)
  assert (bit_and bucket (mask i) == 0)
  set_chunks rounds (i + 1) (set bitset (bucket_of i) (bit_or bucket (mask i)))

unfoldable pub clear_chunks : ℕ → ℕ → List ℕ → Option (List ℕ)
clear_chunks zero i bitset = some bitset
clear_chunks (suc rounds) i bitset = do
  bucket ← get_elem? bitset (bucket_of i)
  assert (not (bit_and bucket (mask i) == 0))
  clear_chunks rounds (i + 1) (set bitset (bucket_of i) (bit_and bucket (complement (mask i))))

-- The headers that are in memory, by address.
abbrev pub Headers : Type 0
Headers = ℕ → Option ℕ

abbrev pub chunks_for : ℕ → ℕ
chunks_for size = add_size (add_size size header_size) (chunk_size - 1) / chunk_size

-- The header and the bits of a block at its first chunk, with the block's address.
unfoldable pub take_run : ℕ → ℕ → Headers → Region → Option (ℕ × Headers × Region)
take_run desired first headers region = do
  bitset ← set_chunks desired first region.bitset
  let header = region.memory + first * chunk_size
  let used = add_size region.used_chunk_count desired
  let headers : Headers = λ a. if a == header then some desired else headers a
  some (header + header_size, headers, record region { bitset = bitset; used_chunk_count = used })

-- `Region::allocate`: the block, or null.
unfoldable pub allocate : ℕ → Headers → Region → Option (Option (ℕ × Headers × Region))
allocate size headers region =
    let desired = chunks_for size in
    let start : Run = record { first = 0; free = 0 } in
    scan desired (region.chunk_count / bucket_bit_count) 0 region.bitset start >>= λ r.
    if ltb r.free desired
    then some none
    else (take_run desired r.first headers region >>= λ b. some (some b))

-- `Region::deallocate`; a header whose check is not right is none.
unfoldable pub deallocate : ℕ → Headers → Region → Option Region
deallocate ptr headers region = do
  count ← headers (ptr - header_size)
  bitset ← clear_chunks count ((ptr - header_size - region.memory) / chunk_size) region.bitset
  some
      (record region { bitset = bitset; used_chunk_count = sub_size region.used_chunk_count count })

unfoldable pub contains : ℕ → Headers → Region → Option Bool
contains ptr headers region = do
  count ← headers (ptr - header_size)
  let end = region.memory + region.chunk_count * chunk_size
  some (not (ltb (ptr - header_size) region.memory) && not (leb end ptr))

-- Where `allocate` and `deallocate` of the heap change from regions to frames of their own: at a
-- size, and at what a block's header counts.
abbrev pub region_limit : Region → ℕ
region_limit base = sub_size (mul_size base.chunk_count chunk_size) 1024

unfoldable pub takes_frames : Region → ℕ → Bool
takes_frames base size = leb (region_limit base) size

unfoldable pub frees_frames : Region → ℕ → Bool
frees_frames base chunk_count = ltb (region_limit base) (mul_size chunk_count chunk_size)
