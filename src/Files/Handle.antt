-- ===== src/Files/Handle.antt =====
-- kernel/fs/file_handle.{hh,cc}: a position in a file. `ioctl`, `mmap` and `valid` only call the
-- file's own and are left out.
pub mod Writes
use umbongo.Base.{ℕ, List, Option, none, some, Bool, add_size, length}
use umbongo.Base.Panic.{◌>>=◌}
use umbongo.Files.{SysResult, ok, error, File, AttachDirection}

pub record FileHandle : Type 0 where
  pub direction : AttachDirection
  pub offset : ℕ

pub data SeekMode : Type 0 where
  add set : SeekMode

abbrev pub moved_by : ℕ → FileHandle → FileHandle
moved_by n h = record h { offset = add_size h.offset n }

unfoldable pub seek : ℕ → SeekMode → FileHandle → FileHandle
seek offset add h = moved_by offset h
seek offset set h = record h { offset = offset }

module _ {S : Type 0} (file : File S) where
  -- `TRY`: an error is passed on, and the position stays.
  abbrev pub after_read : FileHandle → SysResult (List ℕ) → FileHandle
  after_read h (ok bytes) = moved_by (length bytes) h
  after_read h (error e) = h

  abbrev pub after_write : FileHandle → SysResult ℕ → FileHandle
  after_write h (ok n) = moved_by n h
  after_write h (error e) = h

  abbrev pub open_handle : AttachDirection → S → Option (FileHandle × S)
  open_handle direction s =
      file.attach direction s >>= λ t. some (record { direction = direction; offset = 0 }, t)

  abbrev pub close_handle : FileHandle → S → Option S
  close_handle h s = file.detach h.direction s

  abbrev pub read_would_block : FileHandle → S → Bool
  read_would_block h s = file.read_would_block h.offset s

  abbrev pub write_would_block : FileHandle → S → Bool
  write_would_block h s = file.write_would_block h.offset s

  abbrev pub read_handle : ℕ → FileHandle → S → Option (SysResult (List ℕ) × FileHandle × S)
  read_handle n h s = file.read n h.offset s >>= λ r. some (r.0, after_read h r.0, r.1)

  abbrev pub write_handle : List ℕ → FileHandle → S → Option (SysResult ℕ × FileHandle × S)
  write_handle source h s = file.write source h.offset s >>= λ r. some (r.0, after_write h r.0, r.1)
