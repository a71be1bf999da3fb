-- ===== src/Files/Ram.antt =====
-- `RamFsInode` of kernel/fs/ram_fs.{hh,cc}, and `InodeFile` of kernel/fs/inode_file.cc over it. The
-- lock makes each operation one step. A write outside of the vector's memory has no result.
pub mod Bytes
use umbongo.Base.{
  ℕ, ◌+◌, ◌-◌, List, [], ◌++◌, Option, none, some, Bool, true, false, leb, ltb, if◌then◌else◌,
  length, replicate, copy_in, copy_out, add_size, sub_size,
}
use umbongo.Base.Panic.{◌>>=◌, ◌>>◌, assert}
use umbongo.Files.{SysResult, ok, File}

pub record RamFsInode : Type 0 where
  pub name : List ℕ
  pub bytes : List ℕ

-- `Vector::ensure_size` of bytes: what is new is zero.
unfoldable pub ensure_size : ℕ → List ℕ → List ℕ
ensure_size size v = if leb size (length v) then v else v ++ replicate (size - length v) 0

unfoldable pub read : ℕ → ℕ → RamFsInode → List ℕ
read size offset inode =
    let left = sub_size (length inode.bytes) offset in
    if leb (length inode.bytes) offset
    then []
    else copy_out inode.bytes offset (if ltb left size then left else size)

unfoldable pub size : RamFsInode → ℕ
size inode = length inode.bytes

unfoldable pub truncate : RamFsInode → RamFsInode
truncate inode = record inode { bytes = [] }

unfoldable pub write : List ℕ → ℕ → RamFsInode → Option (ℕ × RamFsInode)
unfolding ensure_size
write source offset inode =
    let grown = ensure_size (add_size offset (length source)) inode.bytes in
    assert (leb (offset + length source) (length grown))
    >> some (length source, record inode { bytes = copy_in grown offset source })

-- `InodeFile`; `would_block`, `attach` and `detach` are the ones that `File` has.
unfoldable pub inode_file : File RamFsInode
inode_file = record {
  read = λ n offset inode. some (ok (read n offset inode), inode);
  write = λ source offset inode. write source offset inode >>= λ r. some (ok r.0, r.1);
  read_would_block = λ offset inode. false;
  write_would_block = λ offset inode. false;
  attach = λ direction inode. some inode;
  detach = λ direction inode. some inode;
}
