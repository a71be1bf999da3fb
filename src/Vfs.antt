-- ===== src/Vfs.antt =====
-- kernel/fs/vfs.cc, the directories of kernel/fs/ram_fs.cc and kernel/fs/inode.cc. An inode is its
-- place in the list of all inodes; a null pointer is `none`. A step that panics has no result.
pub mod Added
pub mod Resolve
pub mod Create
pub mod RoundTrip
pub mod Open
pub mod OpenCreate
mod Tests
use umbongo.Base.{
  ℕ, ◌+◌, List, [], ◌∷◌, ◌++◌, Option, none, some, Bool, true, false, not, ◌&&◌, ◌==◌,
  if◌then◌else◌, length, get_elem?, set,
}
use umbongo.Base.Panic.{◌>>=◌, ◌>>◌, assert}
use umbongo.Files.{SysResult, ok, error}
use umbongo.Strings.{same_view}

pub data InodeType : Type 0 where
  anonymous_file : InodeType
  directory : InodeType
  regular_file : InodeType

-- The numbers of errors.
abbrev pub non_existent : ℕ
non_existent = 2

abbrev pub invalid : ℕ
invalid = 4

abbrev pub not_directory : ℕ
not_directory = 6

abbrev pub already_exists : ℕ
already_exists = 7

-- `bound` is the file that was bound to an anonymous file.
pub record Inode : Type 0 where
  pub type : InodeType
  pub parent : Option ℕ
  pub name : List ℕ
  pub children : List ℕ
  pub data_bytes : List ℕ
  pub bound : Option ℕ

-- A mount is its host and the root of the file system there.
pub record Vfs : Type 0 where
  pub inodes : List Inode
  pub root_inode : Option ℕ
  pub mounts : List (Option ℕ × ℕ)

-- The loop of `RamFsDirectoryInode::lookup`.
unfoldable pub find_child : List Inode → List ℕ → List ℕ → Option (Option ℕ)
find_child inodes name [] = some none
find_child inodes name (child ∷ children) =
    let rest = find_child inodes name children in
    get_elem? inodes child >>= λ inode.
    if same_view inode.name name then some (some child) else rest

abbrev pub lookup_in : List Inode → ℕ → Inode → List ℕ → Option (Option ℕ)
lookup_in inodes self inode name =
    if same_view name (46 ∷ [])
    then some (some self)
    else if same_view name (46 ∷ 46 ∷ [])
    then some inode.parent
    else find_child inodes name inode.children

-- `lookup`, which is not to be reached in a file.
unfoldable pub lookup : Vfs → ℕ → List ℕ → Option (Option ℕ)
lookup s self name = get_elem? s.inodes self >>= λ inode. elim inode.type [
  | directory ↦ lookup_in s.inodes self inode name
  | anonymous_file ↦ none
  | regular_file ↦ none
]

-- `find_mount`, and the inode that stands for one that may be a host.
unfoldable pub mounted : List (Option ℕ × ℕ) → ℕ → ℕ
mounted [] inode = inode
mounted (mount ∷ mounts) inode =
    let rest = mounted mounts inode in
    elim mount.0 [ some host ↦ if host == inode then mount.1 else rest | none ↦ rest ]

-- What `consume_part` gives, one call after the other: each slash, and the text between slashes.
unfoldable pub parts_of : List ℕ → List (List ℕ)
parts_of [] = []
parts_of (ch ∷ path) =
    let rest = parts_of path in if ch == 47 then (47 ∷ []) ∷ rest else join ch rest
  where
    join : ℕ → List (List ℕ) → List (List ℕ)
    join ch [] = (ch ∷ []) ∷ []
    join ch ((c ∷ part) ∷ parts) =
        if c == 47 then (ch ∷ []) ∷ (c ∷ part) ∷ parts else (ch ∷ c ∷ part) ∷ parts
    join ch ([] ∷ parts) = (ch ∷ []) ∷ parts

abbrev pub is_slash : List ℕ → Bool
is_slash [] = false
is_slash (ch ∷ part) = ch == 47

-- The inode, and what the caller is told of the last part and where it was looked for.
pub record Resolved : Type 0 where
  pub current : Option ℕ
  pub out_parent : Option ℕ
  pub out_part : List ℕ

-- The loop while `current` is null.
unfoldable pub walk_null : List (List ℕ) → Option ℕ → List ℕ → Resolved
walk_null [] parent name = record { current = none; out_parent = parent; out_part = name }
walk_null (part ∷ parts) parent name =
    let rest = walk_null parts parent name in
    if is_slash part then rest else record { current = none; out_parent = none; out_part = name }

-- What follows a part that is not there: the next part is taken, and the loop goes on.
abbrev pub missed : List (List ℕ) → ℕ → List ℕ → Resolved
missed [] parent name = walk_null [] (some parent) name
missed (part ∷ parts) parent name =
    walk_null parts (if is_slash part then some parent else none) name

-- The loop of `resolve_path`.
unfoldable pub walk : Vfs → List (List ℕ) → ℕ → Option ℕ → List ℕ → Option Resolved
walk s [] current parent name =
    some (record { current = some current; out_parent = parent; out_part = name })
walk s (part ∷ parts) current parent name =
    let rest = walk s parts in
    if is_slash part
    then rest current parent name
    else (lookup s current part >>= λ found. elim found [
      | none ↦ some (missed parts current part)
      | some inode ↦ rest (mounted s.mounts inode) (some current) part
    ])

abbrev pub starts_at : Vfs → List ℕ → Option ℕ → Option (Option ℕ)
starts_at s [] base = none
starts_at s (ch ∷ path) base = some (if ch == 47 then s.root_inode else base)

-- `resolve_path`; the first character of an empty path is not to be read.
unfoldable pub resolve_path : Vfs → List ℕ → Option ℕ → Option Resolved
resolve_path s path base = starts_at s path base >>= λ start. elim start [
  | none ↦ some (walk_null (parts_of path) none [])
  | some current ↦ walk s (parts_of path) current none []
]

abbrev pub new_inode : InodeType → ℕ → List ℕ → Inode
new_inode type parent name = record {
  type = type;
  parent = some parent;
  name = name;
  children = [];
  data_bytes = [];
  bound = none;
}

-- The inodes with a new one, which its parent holds last.
abbrev pub added : List Inode → ℕ → Inode → Inode → List Inode
added inodes self parent inode =
    set inodes self (record parent { children = parent.children ++ length inodes ∷ [] })
    ++ inode ∷ []

-- `Inode::create` and `RamFsDirectoryInode::create`.
unfoldable pub create_in : Vfs → ℕ → List ℕ → InodeType → Option (SysResult ℕ × Vfs)
create_in s self name type = get_elem? s.inodes self >>= λ parent. elim parent.type [
  | directory ↦ some (
    ok (length s.inodes),
    record s { inodes = added s.inodes self parent (new_inode type self name) },
  )
  | anonymous_file ↦ some (error not_directory, s)
  | regular_file ↦ some (error not_directory, s)
]

-- `Vfs::create` once the path is resolved.
abbrev pub create_at : Vfs → InodeType → Resolved → Option (SysResult ℕ × Vfs)
create_at s type r = elim r.current [
  | some inode ↦ some (error already_exists, s)
  | none ↦ elim r.out_parent [
    | none ↦ some (error non_existent, s)
    | some parent ↦ elim r.out_part [
      | [] ↦ some (error invalid, s)
      | ch ∷ name ↦ create_in s parent (ch ∷ name) type
    ]
  ]
]

unfoldable pub create : Vfs → List ℕ → Option ℕ → InodeType → Option (SysResult ℕ × Vfs)
create s path base type = resolve_path s path base >>= create_at s type
