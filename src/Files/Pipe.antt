-- ===== src/Files/Pipe.antt =====
-- kernel/ipc/pipe.{hh,cc}: a double buffer and the numbers of its readers and writers, which are
-- 32-bit.
pub mod Ends
use umbongo.Base.{
  ℕ, ◌+◌, ◌-◌, List, [], Option, none, some, Bool, true, false, not, ◌&&◌, ◌==◌, ltb, add_u32,
  if◌then◌else◌,
}
use umbongo.Base.Panic.{◌>>=◌, ◌>>◌, assert}
use umbongo.DoubleBuffer.{DoubleBuffer}
use umbongo.DoubleBuffer
use umbongo.Files.{
  SysResult, ok, File, AttachDirection, read_direction, write_direction, read_write_direction,
}

pub record Pipe : Type 0 where
  pub buffer : DoubleBuffer
  pub reader_count : ℕ
  pub writer_count : ℕ

-- The constructor, over the memory of its buffer.
abbrev pub pipe : List ℕ → Pipe
pipe memory = record {
  buffer = DoubleBuffer.create 0x10000 memory;
  reader_count = 0;
  writer_count = 0;
}

unfoldable pub attach : AttachDirection → Pipe → Option Pipe
attach read_direction p = some (record p { reader_count = add_u32 p.reader_count 1 })
attach write_direction p = some (record p { writer_count = add_u32 p.writer_count 1 })
attach read_write_direction p = none

unfoldable pub detach : AttachDirection → Pipe → Option Pipe
detach read_direction p =
    assert (ltb 0 p.reader_count) >> some (record p { reader_count = p.reader_count - 1 })
detach write_direction p =
    assert (ltb 0 p.writer_count) >> some (record p { writer_count = p.writer_count - 1 })
detach read_write_direction p = none

unfoldable pub pipe_file : File Pipe
pipe_file = record {
  read = λ n offset p.
      let r = DoubleBuffer.read n p.buffer in some (ok r.0, record p { buffer = r.1 });
  write = λ source offset p.
      let r = DoubleBuffer.write source p.buffer in some (ok r.0, record p { buffer = r.1 });
  read_would_block = λ offset p. not (p.writer_count == 0) && DoubleBuffer.empty p.buffer;
  write_would_block = λ offset p. DoubleBuffer.full p.buffer;
  attach = attach;
  detach = detach;
}
