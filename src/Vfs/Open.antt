-- ===== src/Vfs/Open.antt =====
-- The rest of kernel/fs/vfs.cc: what is done with the inode of a path.
use umbongo.Base.{
  ℕ, List, [], ◌∷◌, ◌++◌, Option, none, some, Bool, if◌then◌else◌, length, get_elem?, set,
}
use umbongo.Base.Panic.{◌>>=◌}
use umbongo.Strings.{same_view}
use umbongo.Files.{SysResult, ok, error}
use umbongo.Vfs.{
  anonymous_file, directory, regular_file, non_existent, invalid, not_directory, Inode, Vfs,
  resolve_path, create,
}

-- An `InodeFile`, or the file that was bound to an anonymous one.
pub data OpenFile : Type 0 where
  inode_file : ℕ → OpenFile
  bound_file : ℕ → OpenFile

abbrev pub bound_result : Option ℕ → SysResult OpenFile
bound_result none = error invalid
bound_result (some file) = ok (bound_file file)

-- `Inode::open` with `open_impl`, which a directory does not have.
unfoldable pub open_inode : Vfs → ℕ → Option (SysResult OpenFile)
open_inode s self = get_elem? s.inodes self >>= λ inode. some (elim inode.type [
  | anonymous_file ↦ bound_result inode.bound
  | directory ↦ error invalid
  | regular_file ↦ ok (inode_file self)
])

-- `bind_anonymous_file`, with its assertion.
unfoldable pub bind_anonymous_file : Vfs → ℕ → ℕ → Option Vfs
bind_anonymous_file s self file = get_elem? s.inodes self >>= λ inode. elim inode.bound [
  | some bound ↦ none
  | none ↦ some (record s { inodes = set s.inodes self (record inode { bound = some file }) })
]

-- `truncate`: a file in memory loses its bytes.
unfoldable pub truncate : Vfs → ℕ → Option (SysResult (Unit {0}) × Vfs)
truncate s self = get_elem? s.inodes self >>= λ inode. some (elim inode.type [
  | directory ↦ (error invalid, s)
  | anonymous_file ↦
      (ok tt, record s { inodes = set s.inodes self (record inode { data_bytes = [] }) })
  | regular_file ↦
      (ok tt, record s { inodes = set s.inodes self (record inode { data_bytes = [] }) })
])

pub record OpenMode : Type 0 where
  pub create_flag : Bool
  pub truncate_flag : Bool

abbrev pub with_state : {A : Type 0} → Vfs → Option (SysResult A) → Option (SysResult A × Vfs)
with_state s none = none
with_state s (some r) = some (r, s)

-- `TRY(Vfs::create(...))->open()`
abbrev pub open_created : Option (SysResult ℕ × Vfs) → Option (SysResult OpenFile × Vfs)
open_created none = none
open_created (some (error e, s)) = some (error e, s)
open_created (some (ok inode, s)) = with_state s (open_inode s inode)

abbrev pub open_truncated :
    ℕ → Option (SysResult (Unit {0}) × Vfs) → Option (SysResult OpenFile × Vfs)
open_truncated inode none = none
open_truncated inode (some (error e, s)) = some (error e, s)
open_truncated inode (some (ok _, s)) = with_state s (open_inode s inode)

-- `Vfs::open` once the path is resolved, and as a whole.
abbrev pub open_at :
    Vfs → List ℕ → OpenMode → Option ℕ → Option ℕ → Option (SysResult OpenFile × Vfs)
open_at s path mode base none =
    if mode.create_flag
    then open_created (create s path base regular_file)
    else some (error non_existent, s)
open_at s path mode base (some inode) =
    if mode.truncate_flag
    then open_truncated inode (truncate s inode)
    else with_state s (open_inode s inode)

unfoldable pub open_path : Vfs → List ℕ → OpenMode → Option ℕ → Option (SysResult OpenFile × Vfs)
open_path s path mode base = resolve_path s path base >>= λ r. open_at s path mode base r.current

-- `Vfs::open_directory`
unfoldable pub open_directory : Vfs → List ℕ → Option ℕ → Option (SysResult ℕ)
open_directory s path base = resolve_path s path base >>= λ r. elim r.current [
  | none ↦ some (error non_existent)
  | some self ↦ get_elem? s.inodes self >>= λ inode. some (elim inode.type [
    | directory ↦ ok self
    | anonymous_file ↦ error not_directory
    | regular_file ↦ error not_directory
  ])
]

-- `Vfs::mkdir`, whose result has no value.
abbrev pub no_value : Option (SysResult ℕ × Vfs) → Option (SysResult (Unit {0}) × Vfs)
no_value none = none
no_value (some (error e, s)) = some (error e, s)
no_value (some (ok inode, s)) = some (ok tt, s)

unfoldable pub mkdir : Vfs → List ℕ → Option ℕ → Option (SysResult (Unit {0}) × Vfs)
mkdir s path base = no_value (create s path base directory)

-- The root of a file system in memory that is mounted, named as its host.
abbrev pub ram_fs_root : Option ℕ → List ℕ → Inode
ram_fs_root parent name = record {
  type = directory;
  parent = parent;
  name = name;
  children = [];
  data_bytes = [];
  bound = none;
}

-- `Vfs::mount` of a file system in memory, with `RamFs::mount`.
unfoldable pub mount : Vfs → List ℕ → Option (SysResult (Unit {0}) × Vfs)
mount s path = resolve_path s path none >>= λ r. elim r.current [
  | none ↦ some (error non_existent, s)
  | some host ↦ get_elem? s.inodes host >>= λ inode. some (
    ok tt,
    record s {
      inodes = s.inodes ++ ram_fs_root r.out_parent inode.name ∷ [];
      mounts = s.mounts ++ (some host, length s.inodes) ∷ [];
    },
  )
]

-- `RamFsDirectoryInode::remove`: the first child of the name, as the list without it.
unfoldable pub remove_child : List Inode → List ℕ → List ℕ → Option (Option (List ℕ))
remove_child inodes name [] = some none
remove_child inodes name (child ∷ children) =
    let rest = remove_child inodes name children in
    get_elem? inodes child >>= λ inode.
    if same_view inode.name name
    then some (some children)
    else (rest >>= λ left. some (elim left [ none ↦ none | some others ↦ some (child ∷ others) ]))
