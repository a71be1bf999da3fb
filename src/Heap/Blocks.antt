-- ===== src/Heap/Blocks.antt =====
-- `Region::allocate` and `Region::deallocate`: blocks of free chunks, and their way back.
use umbongo.Base.{
  ℕ, ◌+◌, ◌-◌, ◌*◌, ◌/◌, ◌^◌, ◌≤◌, ◌<◌, ◌≡◌, refl, sym, subst, ◌∙◌, true, false, ◌&&◌, inl, inr,
  Option, none, some, arith, ◌==◌, ==_iff, lt→ltb, ltb, leb, if◌then◌else◌, Bool-cases, length,
  add_size, sub_size,
}
use umbongo.Heap.{
  bucket_bit_count, chunk_size, header_size, Region, Headers, chunks_for, take_run, allocate,
  deallocate, region_limit, takes_frames, frees_frames,
}
use umbongo.Heap.Bitset.{IsValid, is_taken, Marked, set_chunks_lem, clear_chunks_lem}
use umbongo.Heap.Scan.{IsRun}
use umbongo.Heap.Search.{scan_lem}

-- The chunks that have a whole bucket.
abbrev pub chunks : Region → ℕ
chunks r = r.chunk_count / bucket_bit_count * bucket_bit_count

-- The bitset reaches to the chunks, and no address or count wraps around.
pub record IsSound (r : Region) : Type 0 where
  pub bits : IsValid (chunks r) r.bitset
  pub short : length r.bitset < 2 ^ 57
  pub room : r.memory + r.chunk_count * chunk_size < 2 ^ 64
  pub used : r.used_chunk_count < 2 ^ 64

-- A block of a region: chunks that were free and are taken, in memory, with a header that counts
-- them.
pub record Block (size : ℕ) (headers : Headers) (r : Region) (ptr : ℕ) (headers' : Headers)
    (r' : Region) : Type 0 where
  pub first : ℕ
  pub count : ℕ
  pub enough : size + header_size ≤ count * chunk_size
  pub within : first + count ≤ r.chunk_count
  pub address : ptr ≡ r.memory + first * chunk_size + header_size
  pub header :
      (a : ℕ) → headers' a ≡ (if a == r.memory + first * chunk_size then some count else headers a)
  pub free : (k : ℕ) → first ≤ k → k < first + count → is_taken r.bitset k ≡ false
  pub marked : Marked true (chunks r) first count r.bitset r'.bitset
  pub counted : r'.used_chunk_count ≡ add_size r.used_chunk_count count
  pub memory : r'.memory ≡ r.memory
  pub size_kept : r'.chunk_count ≡ r.chunk_count
  pub whole : first + count ≤ chunks r

chunks_for_lem :
    (size : ℕ) → size + 47 < 2 ^ 64 → (size + 16 ≤ chunks_for size * 32) × (0 < chunks_for size)
chunks_for_lem size h = (omega arith, omega arith)

-- What `allocate` returns.
pub data Allocated (size : ℕ) (headers : Headers) (r : Region)
    : Option (Option (ℕ × Headers × Region)) → Type 0 where
  null : Allocated size headers r (some none)
  block :
      (ptr : ℕ) (headers' : Headers) (r' : Region)
      → Block size headers r ptr headers' r'
      → Allocated size headers r (some (some (ptr, headers', r')))

-- `Region::allocate` of a size below 2^64 - 47 from a region whose bitset is sound passes its
-- checks and ends. It returns null, or a block in the region's memory that holds the size and a
-- header: its chunks were free, and exactly these are taken besides those that were. The header
-- counts them, and no other header changes.
pub allocate_lem :
    (size : ℕ) (headers : Headers) (r : Region)
    → IsSound r
    → size + 47 < 2 ^ 64
    → Allocated size headers r (allocate size headers r)
unfolding allocate take_run
allocate_lem size headers r v small =
    let desired = chunks_for size in
    let (fits, some_chunk) = chunks_for_lem size small in
    let begin : IsRun (is_taken r.bitset) (0 * bucket_bit_count) (record { first = 0; free = 0 }) =
      record { clear = λ k lo hi. absurd (omega arith); place = inl refl } in
    let (run, found, scanned) =
      scan_lem desired (r.chunk_count / bucket_bit_count) 0 r.bitset
        (record { first = 0; free = 0 }) v.bits.words (omega (arith, v.bits.buckets)) v.short
        begin in
    elim (Bool-cases (ltb run.free desired)) [
      | inl less ↦ rw found (rw less null)
      | inr enough ↦
          let long : desired ≤ run.free = ground arith in
          let inside : run.first + run.free ≤ chunks r = elim (scanned.run.place) [
            | inl z ↦ absurd (omega (arith, long, some_chunk, z))
            | inr e ↦ omega (arith, e, scanned.upto)
          ] in
          let free = λ (k : ℕ) (lo : run.first ≤ k) (hi : k < run.first + desired).
            scanned.run.clear k lo (omega arith) in
          let (bitset, set, marked) = set_chunks_lem desired run.first v.bits (omega arith) free in
          rw found (
            rw enough (
              rw set (
                block _ _ _ (record {
                  first = run.first;
                  count = desired;
                  enough = fits;
                  within = omega arith;
                  address = refl;
                  header = λ a. refl;
                  free = free;
                  marked = marked;
                  counted = refl;
                  memory = refl;
                  size_kept = refl;
                  whole = omega arith;
                }))))
    ]

-- The block that a call returned, if it did.
abbrev IsBlock : ℕ → Headers → Region → Option (Option (ℕ × Headers × Region)) → Type 0
IsBlock size headers r (some (some (ptr, headers', r'))) = Block size headers r ptr headers' r'
IsBlock size headers r (some none) = Unit
IsBlock size headers r none = Unit

Allocated-IsBlock :
    (size : ℕ) (headers : Headers) (r : Region) (o : Option (Option (ℕ × Headers × Region)))
    → Allocated size headers r o
    → IsBlock size headers r o
Allocated-IsBlock size headers r _ null = tt
Allocated-IsBlock size headers r _ (block ptr headers' r' b) = b

header-Block :
    (size : ℕ) (headers : Headers) (r : Region) (ptr : ℕ) (headers' : Headers) (r' : Region)
    (b : Block size headers r ptr headers' r')
    → headers' (ptr - header_size) ≡ some b.count
header-Block size headers r ptr headers' r' b =
    let back : ptr - header_size ≡ r.memory + b.first * chunk_size = omega (arith, b.address) in
    b.header (ptr - header_size)
    ∙ rw ((==_iff (ptr - header_size) (r.memory + b.first * chunk_size)).1 back) refl

inside_lem :
    (first count k : ℕ)
    → first ≤ k
    → k < first + count
    → (leb first k && ltb k (first + count)) ≡ true
inside_lem first count k lo hi = ground arith

deallocate-Block :
    (size : ℕ) (headers : Headers) (r : Region) (ptr : ℕ) (headers' : Headers) (r' : Region)
    → IsSound r
    → Block size headers r ptr headers' r'
    → (r'' : Region) × (deallocate ptr headers' r' ≡ some r'')
      × ((k : ℕ) → is_taken r''.bitset k ≡ is_taken r.bitset k)
      × (r''.used_chunk_count ≡ r.used_chunk_count)
unfolding deallocate
deallocate-Block size headers r ptr headers' r' v b =
    let count = header-Block size headers r ptr headers' r' b in
    let back : ptr - header_size ≡ r.memory + b.first * chunk_size = omega (arith, b.address) in
    let place : (ptr - header_size - r'.memory) / chunk_size ≡ b.first =
      omega (arith, back, b.memory) in
    let all : (k : ℕ) → b.first ≤ k → k < b.first + b.count → is_taken r'.bitset k ≡ true =
      λ k lo hi. b.marked.taken k ∙ rw (inside_lem b.first b.count k lo hi) refl in
    let (bitset, cleared, marked) = clear_chunks_lem b.count b.first b.marked.valid b.whole all in
    (
      record r' { bitset = bitset; used_chunk_count = sub_size r'.used_chunk_count b.count },
      rw count (rw place (rw cleared refl)),
      (λ k. elim (Bool-cases (leb b.first k && ltb k (b.first + b.count))) [
        | inl inside ↦ marked.taken k ∙ rw inside (sym (b.free k (ground arith) (ground arith)))
        | inr outside ↦ marked.taken k ∙ rw outside (b.marked.taken k ∙ rw outside refl)
      ]),
      omega (arith, b.counted, v.used, v.room, b.within),
    )

-- `Region::deallocate` of a block that `allocate` returned, of a size below 2^64 - 47, right after
-- it passes its checks, and leaves each chunk as free or taken as it was before the allocation, and
-- the count of the taken ones too.
pub deallocate-allocate :
    (size : ℕ) (headers : Headers) (r : Region) (ptr : ℕ) (headers' : Headers) (r' : Region)
    → IsSound r
    → size + 47 < 2 ^ 64
    → allocate size headers r ≡ some (some (ptr, headers', r'))
    → (r'' : Region) × (deallocate ptr headers' r' ≡ some r'')
      × ((k : ℕ) → is_taken r''.bitset k ≡ is_taken r.bitset k)
      × (r''.used_chunk_count ≡ r.used_chunk_count)
deallocate-allocate size headers r ptr headers' r' v small e =
    deallocate-Block size headers r ptr headers' r' v (
      subst (IsBlock size headers r) e
        (Allocated-IsBlock size headers r _ (allocate_lem size headers r v small)))

-- A size less than 16 bytes below the limit of the heap's regions is taken from a region. The
-- header of the block that a sound region gives for it counts more than the limit, so that
-- `deallocate` gives the block to the frame allocator.
pub frees_frames-allocate :
    (base : Region) (size : ℕ) (headers : Headers) (r : Region) (ptr : ℕ) (headers' : Headers)
    (r' : Region)
    → IsSound r
    → size + 47 < 2 ^ 64
    → allocate size headers r ≡ some (some (ptr, headers', r'))
    → size < region_limit base
    → region_limit base < size + header_size
    → (takes_frames base size ≡ false)
      × ((count : ℕ) × (headers' (ptr - header_size) ≡ some count)
          × (frees_frames base count ≡ true))
unfolding takes_frames frees_frames
frees_frames-allocate base size headers r ptr headers' r' v small e below near =
    let b =
      subst (IsBlock size headers r) e
        (Allocated-IsBlock size headers r _ (allocate_lem size headers r v small)) in
    let chunks = b.count in
    let fits : chunks * chunk_size < 2 ^ 64 = omega (arith, b.within, v.room) in
    let long : size + header_size ≤ chunks * chunk_size = b.enough in
    (
      ground arith,
      (
        chunks,
        header-Block size headers r ptr headers' r' b,
        lt→ltb _ _ (omega (arith, near, long, fits)),
      ),
    )
