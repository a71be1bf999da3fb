-- ===== src/DoubleBuffer.antt =====
-- kernel/ipc/double_buffer.{hh,cc}: the byte buffer behind pipes and sockets. A writer fills one
-- half while a reader empties the other; the halves change places when the reader runs dry.
-- The spin lock makes each operation atomic, so an operation is one function on the state.
pub mod Inv
pub mod Refine
mod Tests
use umbongo.Base.{
  ℕ, ◌+◌, min, List, [], Bool, true, false, not, ◌&&◌, ◌==◌, leb, if◌then◌else◌, take, length,
  add_size, sub_size, copy_in, copy_out,
}

-- `struct Buffer`: where the half starts in `m_data`, and how many bytes it holds.
pub record Buffer : Type 0 where
  pub start : ℕ
  pub size : ℕ

-- `read_buffer` and `write_buffer` are the two `Buffer`s as the pointers `m_read_buffer` and
-- `m_write_buffer` name them. The pointers never name the same one, and nothing else reads
-- `m_buffer1` and `m_buffer2`, so exchanging the pointers is exchanging these fields.
pub record DoubleBuffer : Type 0 where
  pub bytes : List ℕ
  pub size : ℕ
  pub read_buffer : Buffer
  pub write_buffer : Buffer
  pub read_position : ℕ

-- The constructor, over the `size * 2` bytes that `new` returned.
pub create : ℕ → List ℕ → DoubleBuffer
create size memory = record {
  bytes = memory;
  size = size;
  read_buffer = record { start = size; size = 0 };
  write_buffer = record { start = 0; size = 0 };
  read_position = 0;
}

pub empty : DoubleBuffer → Bool
empty b = leb b.read_buffer.size b.read_position && b.write_buffer.size == 0

pub full : DoubleBuffer → Bool
full b = sub_size b.size b.write_buffer.size == 0

-- The first statement of `read`: the halves change places.
pub swap_halves : DoubleBuffer → DoubleBuffer
swap_halves b =
    if leb b.read_buffer.size b.read_position && not (b.write_buffer.size == 0)
    then record b {
      read_buffer = b.write_buffer;
      write_buffer = record { start = b.read_buffer.start; size = 0 };
      read_position = 0;
    }
    else b

-- The rest of `read`: at most `n` bytes of the read half, from the read position on.
read_half : ℕ → DoubleBuffer → List ℕ × DoubleBuffer
read_half n b =
    let read_size = min n (sub_size b.read_buffer.size b.read_position) in
    if leb b.read_buffer.size b.read_position then ([], b) else (
      copy_out b.bytes (add_size b.read_buffer.start b.read_position) read_size,
      record b { read_position = add_size b.read_position read_size },
    )

-- `read` into a span of `n` bytes: the bytes that it copies there, as many as it returns.
pub read : ℕ → DoubleBuffer → List ℕ × DoubleBuffer
read n b = read_half n (swap_halves b)

-- `write` of a span: how many bytes it takes.
pub write : List ℕ → DoubleBuffer → ℕ × DoubleBuffer
write source b =
    let write_size = min (length source) (sub_size b.size b.write_buffer.size) in
    (
      write_size,
      record b {
        bytes =
            copy_in b.bytes (add_size b.write_buffer.start b.write_buffer.size)
              (take write_size source);
        write_buffer = record {
          start = b.write_buffer.start;
          size = add_size b.write_buffer.size write_size;
        };
      },
    )
