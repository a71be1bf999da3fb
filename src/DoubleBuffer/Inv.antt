-- ===== src/DoubleBuffer/Inv.antt =====
-- The representation invariant of `DoubleBuffer`: the halves tile `m_data`, and nothing leaves them.
use umbongo.Base.{
  ℕ, ◌+◌, ◌^◌, ◌≤◌, ◌<◌, ◌≡◌, ◌⊎◌, List, arith, length, length-copy_in, take, min, add_size,
  sub_size,
}
use umbongo.DoubleBuffer.{DoubleBuffer, create, swap_halves, read_half, read, write}

pub record IsValid (b : DoubleBuffer) : Type 0 where
  pub small : b.size < 2 ^ 62
  pub storage : length b.bytes ≡ b.size + b.size
  pub tiled :
      (b.read_buffer.start ≡ b.size) × (b.write_buffer.start ≡ 0)
      ⊎ (b.read_buffer.start ≡ 0) × (b.write_buffer.start ≡ b.size)
  pub read_fits : b.read_buffer.size ≤ b.size
  pub write_fits : b.write_buffer.size ≤ b.size
  pub position : b.read_position ≤ b.read_buffer.size

pub create-IsValid :
    (size : ℕ) (memory : List ℕ)
    → size < 2 ^ 62
    → length memory ≡ size + size
    → IsValid (create size memory)
unfolding create
create-IsValid size memory h e = omega arith

pub swap_halves-IsValid : {b : DoubleBuffer} → IsValid b → IsValid (swap_halves b)
unfolding swap_halves
swap_halves-IsValid v = ground arith

read_half-IsValid : (n : ℕ) {b : DoubleBuffer} → IsValid b → IsValid (read_half n b).1
unfolding read_half
read_half-IsValid n v = ground arith

pub read-IsValid : (n : ℕ) {b : DoubleBuffer} → IsValid b → IsValid (read n b).1
unfolding read
read-IsValid n v = read_half-IsValid n (swap_halves-IsValid v)

pub write-IsValid : (source : List ℕ) {b : DoubleBuffer} → IsValid b → IsValid (write source b).1
unfolding write
write-IsValid source {b} v = ground (
  arith,
  length-copy_in b.bytes (add_size b.write_buffer.start b.write_buffer.size)
      (take (min (length source) (sub_size b.size b.write_buffer.size)) source),
)
