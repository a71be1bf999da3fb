-- ===== src/Frames.antt =====
-- kernel/mem/memory_manager.cc: the bitset of physical frames, and the allocation of frames.
-- `s_lock` makes each operation atomic; `s_data` is the state that is passed on.
pub mod Inv
pub mod Alloc
pub mod Marks
pub mod Range
mod Tests
use Prim.Native.Nat.{bit_and, bit_or}
use umbongo.Base.{
  ℕ, zero, suc, ◌+◌, ◌*◌, ◌/◌, ◌%◌, ◌^◌, List, [], ◌∷◌, Bool, true, false, not, Option, none, some,
  ◌==◌, leb, ltb, if◌then◌else◌, get_elem?, set, length, add_size, sub_size, mul_size,
}
use umbongo.Base.Bits.{complement, align_up}
use umbongo.Base.Panic.{◌>>=◌, ◌>>◌, assert}

abbrev pub bucket_bit_count : ℕ
bucket_bit_count = 64

abbrev pub frame_size : ℕ
frame_size = 4096

-- `MemoryManagerData`, less the kernel's `VmObject`. A bucket is a `size_t`.
pub record Frames : Type 0 where
  pub frame_bitset : List ℕ
  pub frame_count : ℕ

-- The bucket that `frame_bitset_bucket` takes for a frame, and the frame's mask in it.
abbrev pub bucket_index : ℕ → ℕ
bucket_index index = add_size index bucket_bit_count / bucket_bit_count

abbrev pub mask : ℕ → ℕ
mask index = 2 ^ (index % bucket_bit_count)

-- `frame_bitset_bucket(index)`, read, and written through the reference that it returns.
pub frame_bitset_bucket : ℕ → Frames → Option ℕ
frame_bitset_bucket index m = do
  assert (ltb index m.frame_count)
  get_elem? m.frame_bitset (bucket_index index)

pub update_bucket : ℕ → (ℕ → ℕ) → Frames → Option Frames
unfolding frame_bitset_bucket
update_bucket index f m = do
  bucket ← frame_bitset_bucket index m
  some (record m { frame_bitset = set m.frame_bitset (bucket_index index) (f bucket) })

pub clear_frame : ℕ → Frames → Option Frames
clear_frame index = update_bucket index (λ bucket. bit_and bucket (complement (mask index)))

pub set_frame : ℕ → Frames → Option Frames
set_frame index = update_bucket index (λ bucket. bit_or bucket (mask index))

pub is_frame_set : ℕ → Frames → Option Bool
is_frame_set index m = do
  bucket ← frame_bitset_bucket index m
  some (not (bit_and bucket (mask index) == 0))

-- The loop of `alloc_frame` with `rounds` frames left to look at.
pub alloc_frame_from : ℕ → ℕ → Frames → Option (ℕ × Frames)
alloc_frame_from zero i m = none
alloc_frame_from (suc rounds) i m =
    let rest = alloc_frame_from rounds (add_size i 1) m in
    is_frame_set i m >>= λ used.
    if used then rest else (set_frame i m >>= λ m'. some (mul_size i frame_size, m'))

pub alloc_frame : Frames → Option (ℕ × Frames)
alloc_frame m = alloc_frame_from m.frame_count 0 m

pub free_frame : ℕ → Frames → Option Frames
free_frame frame m = do
  assert (frame % frame_size == 0)
  used ← is_frame_set (frame / frame_size) m
  assert used
  clear_frame (frame / frame_size) m

pub is_frame_free : ℕ → Frames → Option Bool
is_frame_free frame m = do
  assert (frame % frame_size == 0)
  used ← is_frame_set (frame / frame_size) m
  some (not used)

-- How many frames hold `size` bytes.
abbrev pub frames_of : ℕ → ℕ
frames_of size = align_up size frame_size / frame_size

-- The loops over a range of frames: whether one is set (`found_space = false; break`), set all,
-- and check and clear all.
pub any_set : ℕ → ℕ → Frames → Option Bool
any_set zero j m = some false
any_set (suc n) j m =
    let rest = any_set n (add_size j 1) m in
    is_frame_set j m >>= λ used. if used then some true else rest

pub set_range : ℕ → ℕ → Frames → Option Frames
set_range zero j m = some m
set_range (suc n) j m = set_frame j m >>= λ m'. set_range n (add_size j 1) m'

pub clear_range : ℕ → ℕ → Frames → Option Frames
clear_range zero j m = some m
clear_range (suc n) j m = do
  used ← is_frame_set j m
  assert used
  m' ← clear_frame j m
  clear_range n (add_size j 1) m'

-- What `alloc_contiguous` does with the space that it found.
pub claim_range : ℕ → ℕ → Frames → Option (ℕ × Frames)
claim_range n i m = set_range n i m >>= λ m'. some (mul_size i frame_size, m')

-- The outer loop of `alloc_contiguous`, with fuel; running out of it is the loop that never ends.
pub alloc_contiguous_from : ℕ → ℕ → ℕ → Frames → Option (ℕ × Frames)
alloc_contiguous_from zero n i m = none
alloc_contiguous_from (suc fuel) n i m =
    let rest = alloc_contiguous_from fuel n (add_size i n) m in
    if ltb i m.frame_count
    then (any_set n i m >>= λ taken. if taken then rest else claim_range n i m)
    else none

pub alloc_contiguous : ℕ → Frames → Option (ℕ × Frames)
alloc_contiguous size m = alloc_contiguous_from (suc m.frame_count) (frames_of size) 0 m

pub free_contiguous : ℕ → ℕ → Frames → Option Frames
free_contiguous ptr size m = do
  assert (ptr % frame_size == 0)
  clear_range (frames_of size) (ptr / frame_size) m
