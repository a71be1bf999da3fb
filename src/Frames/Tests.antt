-- ===== src/Frames/Tests.antt =====
-- Runs of the frame allocator of kernel/mem/memory_manager.cc, and its theorems at a concrete bitset.
use umbongo.Base.{
  ℕ, zero, suc, ◌≡◌, ◌≤◌, ◌<◌, ◌+◌, ◌*◌, ◌/◌, ◌%◌, ◌^◌, ◌==◌, ltb, refl, [], ◌∷◌, arith, false, not,
  ◌&&◌, ◌||◌, some, none, get_or, if◌then◌else◌,
}
use umbongo.Base.Bits.{align_up}
use umbongo.Frames.{
  Frames, alloc_frame, alloc_frame_from, free_frame, set_frame, is_frame_set, update_bucket,
  frame_bitset_bucket, alloc_contiguous, frames_of, frame_size, alloc_contiguous_from, any_set,
  set_range, claim_range,
}
use umbongo.Frames.Inv.{IsValid, is_used, released}
use umbongo.Frames.Alloc.{alloc_frame_lem, free_frame_lem}
use umbongo.Frames.Marks.{in_range}
use umbongo.Frames.Range.{alloc_contiguous_lem}

-- 128 frames; frames 0 to 3 and 6 are taken. Bucket 0 is never used.
abbrev small : Frames
small = record { frame_bitset = 0 ∷ 0x4f ∷ 0 ∷ []; frame_count = 128 }

small_words : (i : ℕ) → get_or small.frame_bitset i 0 < 2 ^ 64
small_words zero = omega arith
small_words (suc zero) = omega arith
small_words (suc (suc zero)) = omega arith
small_words (suc (suc (suc i))) = omega arith

small-IsValid : IsValid small
small-IsValid = record { small = omega arith; buckets = omega arith; words = small_words }

abbrev with_4 : Frames
with_4 = record small { frame_bitset = 0 ∷ 0x5f ∷ 0 ∷ [] }

alloc_frame-small : alloc_frame small ≡ some (0x4000, with_4)
unfolding alloc_frame alloc_frame_from is_frame_set set_frame update_bucket frame_bitset_bucket
alloc_frame-small = refl

alloc_frame_lem_example :
    ◌≡◌ {A = ℕ} (0x4000 % frame_size) 0
    × (0x4000 / frame_size < 128)
    × (is_used small (0x4000 / frame_size) ≡ false)
    × ((ltb 2 (0x4000 / frame_size) && not (is_used small 2)) ≡ false)
    × (is_used with_4 2 ≡ (0x4000 / frame_size == 2 || is_used small 2))
    × IsValid with_4
alloc_frame_lem_example = alloc_frame_lem small-IsValid alloc_frame-small 2 (omega arith)

free_frame_lem_example : free_frame 0x6000 small ≡ (
    if is_used small (0x6000 / frame_size)
    then some (released (0x6000 / frame_size) small)
    else none)
free_frame_lem_example = free_frame_lem 0x6000 small-IsValid refl (omega arith)

abbrev with_8_to_11 : Frames
with_8_to_11 = record small { frame_bitset = 0 ∷ 0xf4f ∷ 0 ∷ [] }

-- Four frames: the runs from 0 and from 4 are not free.
alloc_contiguous-small : alloc_contiguous 0x3001 small ≡ some (0x8000, with_8_to_11)
unfolding alloc_contiguous alloc_contiguous_from claim_range any_set set_range is_frame_set
    set_frame update_bucket frame_bitset_bucket align_up
alloc_contiguous-small = refl

alloc_contiguous_lem_example :
    let n = frames_of 0x3001 in
    let first = 0x8000 / frame_size in
    (0x3001 ≤ n * frame_size)
    × (first + n ≤ 128)
    × ((round : ℕ) × (◌≡◌ {A = ℕ} 0x8000 (round * n * frame_size)))
    × ((in_range first n 9 && is_used small 9) ≡ false)
    × (is_used with_8_to_11 9 ≡ (in_range first n 9 || is_used small 9))
    × IsValid with_8_to_11
alloc_contiguous_lem_example =
    alloc_contiguous_lem 0x3001 small-IsValid (omega arith) alloc_contiguous-small 9 (omega arith)
