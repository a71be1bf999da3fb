-- ===== src/Heap/Tests.antt =====
-- Tests and instances for the heap's regions.
use umbongo.Base.{
  ℕ, zero, suc, ◌^◌, ◌+◌, ◌==◌, if◌then◌else◌, ◌≡◌, ◌<◌, ◌-◌, refl, [], ◌∷◌, none, some, true,
  false, get_or, arith,
}
use umbongo.Heap.{
  Region, Headers, allocate, deallocate, scan, scan_bucket, ctz, set_chunks, take_run, clear_chunks,
  takes_frames, frees_frames,
}
use umbongo.Heap.Bitset.{is_taken}
use umbongo.Heap.Blocks.{
  IsSound, Allocated, allocate_lem, deallocate-allocate, frees_frames-allocate,
}

abbrev no_headers : Headers
no_headers a = none

-- 128 chunks, of which 3 are taken.
abbrev region : Region
region = record { memory = 4096; bitset = 11 ∷ 0 ∷ []; chunk_count = 130; used_chunk_count = 3 }

words : (i : ℕ) → get_or (11 ∷ 0 ∷ []) i 0 < 2 ^ 64
words zero = omega arith
words (suc zero) = omega arith
words (suc (suc i)) = omega arith

region-IsSound : IsSound region
region-IsSound = record {
  bits = record { buckets = omega arith; words = words };
  short = omega arith;
  room = omega arith;
  used = omega arith;
}

-- 40 bytes and the header fill two chunks, the first that are free in a row are 4 and 5.
abbrev after : Region
after = record region { bitset = 59 ∷ 0 ∷ []; used_chunk_count = 5 }

abbrev headers_after : Headers
headers_after a = if a == 4224 then some 2 else none

allocate_test : allocate 40 no_headers region ≡ some (some (4240, headers_after, after))
unfolding allocate scan scan_bucket ctz take_run set_chunks
allocate_test = refl

deallocate_test : deallocate 4240 headers_after after ≡ some region
unfolding deallocate clear_chunks
deallocate_test = refl

allocate_lem_example : Allocated 40 no_headers region (allocate 40 no_headers region)
allocate_lem_example = allocate_lem 40 no_headers region region-IsSound (omega arith)

deallocate-allocate_example :
    (r : Region) × (deallocate 4240 headers_after after ≡ some r)
    × ((k : ℕ) → is_taken r.bitset k ≡ is_taken region.bitset k)
    × (r.used_chunk_count ≡ 3)
deallocate-allocate_example =
    deallocate-allocate 40 no_headers region 4240 headers_after after region-IsSound (omega arith)
      allocate_test

-- A base region of 64 chunks has its limit at 1024 bytes.
abbrev base : Region
base = record { memory = 0; bitset = 0 ∷ []; chunk_count = 64; used_chunk_count = 0 }

abbrev large_after : Region
large_after = record region { bitset = (2 ^ 37 - 16 + 11) ∷ 0 ∷ []; used_chunk_count = 36 }

abbrev large_headers : Headers
large_headers a = if a == 4224 then some 33 else none

large_test : allocate 1020 no_headers region ≡ some (some (4240, large_headers, large_after))
unfolding allocate scan scan_bucket ctz take_run set_chunks
large_test = refl

frees_frames-allocate_example :
    (takes_frames base 1020 ≡ false)
    × ((count : ℕ) × (large_headers 4224 ≡ some count) × (frees_frames base count ≡ true))
frees_frames-allocate_example =
    frees_frames-allocate base 1020 no_headers region 4240 large_headers large_after region-IsSound
      (omega arith) large_test (omega arith) (omega arith)
