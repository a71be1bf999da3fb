-- ===== src/Files/Tests.antt =====
-- A file in memory and a pipe at concrete contents.
use umbongo.Base.{
  ◌≤◌, ◌+◌, ℕ, ◌-◌, ◌≡◌, ◌↔◌, ◌<◌, refl, List, [], ◌∷◌, ◌++◌, some, true, arith, max, length,
  get_or, leb, ltb, ◌&&◌, take, if◌then◌else◌, replicate, length-replicate,
}
use umbongo.DoubleBuffer.Refine.{contents}
use umbongo.Files.{ok, read_write_direction, read_direction}
use umbongo.Files.Ram.{RamFsInode, inode_file, write}
use umbongo.Files.Ram.Bytes.{get_or-write}
use umbongo.Files.ServerSocket.{ServerSocket, server_socket, Op, arrive, serve, run, run-fifo}
use umbongo.Files.Handle.{FileHandle, moved_by, seek, set, read_handle, read_would_block}
use umbongo.Files.Handle.Writes.{write_all, join, read_handle-write_all}
use umbongo.Files.Pipe.{Pipe, pipe, pipe_file, attach}
use umbongo.Files.Pipe.Ends.{Reached, created, reader_opened, read_would_block_iff}

abbrev inode : RamFsInode
inode = record { name = 97 ∷ []; bytes = 1 ∷ 2 ∷ 3 ∷ [] }

-- Two bytes at offset 5, with a gap before them.
abbrev two : List ℕ
two = 8 ∷ 9 ∷ []

get_or-write_example :
    (after : RamFsInode) × (write two 5 inode ≡ some (2, after))
    × (length after.bytes ≡ max 7 3)
    × (get_or after.bytes 4 0
        ≡ (if leb 5 4 && ltb 4 7 then get_or two (4 - 5) 0 else get_or inode.bytes 4 0))
get_or-write_example = get_or-write two 5 inode 4 (omega arith)

abbrev handle : FileHandle
handle = record { direction = read_write_direction; offset = 3 }

abbrev pieces : List (List ℕ)
pieces = two ∷ (7 ∷ []) ∷ []

read_handle-write_all_example :
    (end : FileHandle) × (after : RamFsInode) × (write_all pieces handle inode ≡ some (end, after))
    × (end.offset ≡ length (inode.bytes ++ join pieces))
    × (read_handle inode_file 5 (seek 0 set end) after
        ≡ some (
          ok (take 5 (inode.bytes ++ join pieces)),
          moved_by (length (take 5 (inode.bytes ++ join pieces))) (seek 0 set end),
          after,
        ))
read_handle-write_all_example = read_handle-write_all pieces handle inode 5 refl (omega arith)

abbrev reader : FileHandle
reader = record { direction = read_direction; offset = 0 }

abbrev new_pipe : Pipe
new_pipe = pipe (replicate 0x20000 0)

abbrev opened_pipe : Pipe
opened_pipe = record new_pipe { reader_count = 1 }

opened-Reached : Reached 1 0 opened_pipe
unfolding pipe_file attach
opened-Reached =
    let byte : ℕ = 0 in
    reader_opened reader (created (replicate 0x20000 byte) (length-replicate 0x20000 byte))
      (omega arith) refl

read_would_block_iff_example :
    (opened_pipe.reader_count ≡ 1)
    × (opened_pipe.writer_count ≡ 0)
    × ((read_would_block pipe_file reader opened_pipe ≡ true)
        ↔ ((0 < 0) × (contents opened_pipe.buffer ≡ [])))
read_would_block_iff_example = read_would_block_iff reader opened-Reached

-- Three clients come to a server socket with room for two, and two are served.
abbrev clients : List (Op ℕ)
clients = arrive 11 ∷ arrive 12 ∷ arrive 13 ∷ serve ∷ arrive 14 ∷ serve ∷ []

abbrev waiting : ServerSocket ℕ
waiting = server_socket 16 3

run-fifo_example :
    ((run 16 clients waiting).0 ++ (run 16 clients waiting).2.connection_queue
      ≡ waiting.connection_queue ++ (run 16 clients waiting).1)
    × (length (run 16 clients waiting).2.connection_queue + 1 ≤ max 1 3)
    × ((run 16 clients waiting).2.capacity ≡ 3)
run-fifo_example = run-fifo 16 clients waiting (omega arith) (omega arith)
