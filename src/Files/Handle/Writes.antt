-- ===== src/Files/Handle/Writes.antt =====
-- A file in memory that is written through a handle, piece after piece, and read back.
use umbongo.Base.{
  ℕ, ◌+◌, ◌^◌, ◌<◌, ◌≡◌, sym, ap, ◌∙◌, List, [], ◌∷◌, ◌++◌, append_assoc, append-nil, Option, some,
  arith, length, length-append, take,
}
use umbongo.Base.Panic.{◌>>=◌}
use umbongo.Files.{ok}
use umbongo.Files.Ram.{RamFsInode, inode_file}
use umbongo.Files.Ram.Bytes.{write-end, read-start}
use umbongo.Files.Handle.{FileHandle, moved_by, set, seek, read_handle, write_handle}

-- A sequence of writes through one handle.
pub write_all : List (List ℕ) → FileHandle → RamFsInode → Option (FileHandle × RamFsInode)
write_all [] h inode = some (h, inode)
write_all (piece ∷ pieces) h inode =
    write_handle inode_file piece h inode >>= λ r. write_all pieces r.1 r.2

abbrev pub join : List (List ℕ) → List ℕ
join [] = []
join (piece ∷ pieces) = piece ++ join pieces

write_handle-end :
    (piece : List ℕ) (h : FileHandle) (inode : RamFsInode)
    → h.offset ≡ length inode.bytes
    → length inode.bytes + length piece < 2 ^ 64
    → write_handle inode_file piece h inode
      ≡ some (
        ok (length piece),
        moved_by (length piece) h,
        record inode { bytes = inode.bytes ++ piece },
      )
unfolding inode_file
write_handle-end piece h inode at small = rw (at, write-end piece inode small)

write_all-end :
    (pieces : List (List ℕ)) (h : FileHandle) (inode : RamFsInode)
    → h.offset ≡ length inode.bytes
    → length inode.bytes + length (join pieces) < 2 ^ 64
    → (after : FileHandle) × (write_all pieces h inode
        ≡ some (after, record inode { bytes = inode.bytes ++ join pieces }))
      × (after.offset ≡ length (inode.bytes ++ join pieces))
unfolding write_all
write_all-end [] h inode at small =
    (h, rw (append-nil inode.bytes), at ∙ ap length (sym (append-nil inode.bytes)))
write_all-end (piece ∷ pieces) h inode at small =
    let len = length-append piece (join pieces) in
    let grown = length-append inode.bytes piece in
    let step = write_handle-end piece h inode at (omega (arith, len)) in
    let moved : (moved_by (length piece) h).offset ≡ length (inode.bytes ++ piece) =
      omega (arith, len, grown) in
    let (after, ran, end) =
      write_all-end pieces (moved_by (length piece) h)
        (record inode { bytes = inode.bytes ++ piece }) moved (omega (arith, len, grown)) in
    let shape = append_assoc inode.bytes piece (join pieces) in
    (
      after,
      rw step (ran ∙ ap (λ t. some (after, record inode { bytes = t })) shape),
      end ∙ ap length shape,
    )

-- Pieces that are written one after the other through a handle at the end of a file are all taken,
-- and leave the handle at the new end; a read from the start, once the handle is set back, gives the
-- first bytes of what was there with the pieces behind it in order. What there is then is shorter
-- than 2^64.
pub read_handle-write_all :
    (pieces : List (List ℕ)) (h : FileHandle) (inode : RamFsInode) (n : ℕ)
    → h.offset ≡ length inode.bytes
    → length inode.bytes + length (join pieces) < 2 ^ 64
    → (end : FileHandle) × (after : RamFsInode) × (write_all pieces h inode ≡ some (end, after))
      × (end.offset ≡ length (inode.bytes ++ join pieces))
      × (read_handle inode_file n (seek 0 set end) after
          ≡ some (
            ok (take n (inode.bytes ++ join pieces)),
            moved_by (length (take n (inode.bytes ++ join pieces))) (seek 0 set end),
            after,
          ))
unfolding inode_file seek
read_handle-write_all pieces h inode n at small =
    let (end, ran, offset) = write_all-end pieces h inode at small in
    let after = record inode { bytes = inode.bytes ++ join pieces } in
    let start = read-start n after (omega (arith, length-append inode.bytes (join pieces))) in
    (end, after, ran, offset, rw start)
