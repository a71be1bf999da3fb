-- ===== src/Files.antt =====
-- kernel/fs and kernel/ipc/pipe.cc: what is behind a file descriptor. `File` is the interface of
-- kernel/fs/file.hh, FileHandle the position in a file that a process has open.
pub mod Ram
pub mod Pipe
pub mod ServerSocket
pub mod Handle
mod Tests
use umbongo.Base.{ℕ, List, [], ◌∷◌, Option, none, some, Bool, true, false, add_size}
use umbongo.Base.Panic.{◌>>=◌}

-- `SysResult`, with the number of the error.
pub data SysResult {ℓ} (A : Type ℓ) : Type ℓ where
  ok : A → SysResult A
  error : ℕ → SysResult A

pub data AttachDirection : Type 0 where
  read_direction write_direction read_write_direction : AttachDirection

-- A class that implements `File`, over the state `S` that it keeps: reads of at most so many bytes
-- give the bytes, writes how many they took.
pub record File (S : Type 0) : Type 0 where
  pub read : ℕ → ℕ → S → Option (SysResult (List ℕ) × S)
  pub write : List ℕ → ℕ → S → Option (SysResult ℕ × S)
  pub read_would_block : ℕ → S → Bool
  pub write_would_block : ℕ → S → Bool
  pub attach : AttachDirection → S → Option S
  pub detach : AttachDirection → S → Option S
