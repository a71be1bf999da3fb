-- ===== src/Vfs/RoundTrip.antt =====
-- A path that is created resolves to the inode that was created for it.
use umbongo.Base.{
  ℕ, ◌≡◌, refl, sym, ap, ◌∙◌, List, [], ◌∷◌, Option, none, some, true, false, ◌==◌, if◌then◌else◌,
  length, get_elem?, Option-cases, inl, inr, ◌⊎◌,
}
use umbongo.Strings.{same_view}
use umbongo.Files.{SysResult, ok, error}
use umbongo.Vfs.{
  InodeType, anonymous_file, directory, regular_file, Inode, Vfs, not_directory, added, new_inode,
  Resolved, walk_null, walk, resolve_path, create_in, create_at, create, parts_of,
}
use umbongo.Vfs.Resolve.{InodeType-cases}
use umbongo.Vfs.Create.{hosts_below, walk-new, walk_null-parent}

-- What an operation that went well tells of the state before it.
abbrev Created : Vfs → InodeType → Option ℕ → Option ℕ → List ℕ → ℕ → Vfs → Type 0
Created s type current parent name i s' =
    (self : ℕ) × (dir : Inode) × (current ≡ none)
    × (parent ≡ some self)
    × (get_elem? s.inodes self ≡ some dir)
    × (dir.type ≡ directory)
    × (i ≡ length s.inodes)
    × (s' ≡ record s { inodes = added s.inodes self dir (new_inode type self name) })

create_in-gone :
    (s : Vfs) (self : ℕ) (name : List ℕ) (type : InodeType)
    → get_elem? s.inodes self ≡ none
    → create_in s self name type ≡ none
unfolding create_in
create_in-gone s self name type gone = rw gone refl

create_in-file :
    (s : Vfs) (self : ℕ) (dir : Inode) (name : List ℕ) (type : InodeType)
    → get_elem? s.inodes self ≡ some dir
    → (dir.type ≡ anonymous_file) ⊎ (dir.type ≡ regular_file)
    → create_in s self name type ≡ some (error not_directory, s)
unfolding create_in
create_in-file s self dir name type there (inl e) = rw (there, e) refl
create_in-file s self dir name type there (inr e) = rw (there, e) refl

create_in-dir :
    (s : Vfs) (self : ℕ) (dir : Inode) (name : List ℕ) (type : InodeType)
    → get_elem? s.inodes self ≡ some dir
    → dir.type ≡ directory
    → create_in s self name type
      ≡ some (
        ok (length s.inodes),
        record s { inodes = added s.inodes self dir (new_inode type self name) },
      )
unfolding create_in
create_in-dir s self dir name type there e =
    let made : Vfs = record s { inodes = added s.inodes self dir (new_inode type self name) } in
    rw there (
      ap
        (λ t. elim t as (λ _. Option (SysResult ℕ × Vfs)) [
          | directory ↦ some (ok (length s.inodes), made)
          | anonymous_file ↦ some (error not_directory, s)
          | regular_file ↦ some (error not_directory, s)
        ])
        e)

create_in-Created :
    (s : Vfs) (self : ℕ) (name : List ℕ) (type : InodeType) (i : ℕ) (s' : Vfs)
    → create_in s self name type ≡ some (ok i, s')
    → Created s type none (some self) name i s'
create_in-Created s self name type i s' made = elim (Option-cases (get_elem? s.inodes self)) [
  | inl gone ↦ absurd (cc (create_in-gone s self name type gone))
  | inr (dir, there) ↦ elim (InodeType-cases dir.type) [
    | inr file ↦ absurd (cc (create_in-file s self dir name type there file))
    | inl is_dir ↦
        let ran = create_in-dir s self dir name type there is_dir in
        (self, dir, refl, refl, there, is_dir, cc, cc)
  ]
]

create_at-Created :
    (s : Vfs) (type : InodeType) (current parent : Option ℕ) (name : List ℕ) (i : ℕ) (s' : Vfs)
    → create_at s type (record { current = current; out_parent = parent; out_part = name })
      ≡ some (ok i, s')
    → Created s type current parent name i s'
create_at-Created s type (some c) parent name i s' made = absurd (cc)
create_at-Created s type none none name i s' made = absurd (cc)
create_at-Created s type none (some q) [] i s' made = absurd (cc)
create_at-Created s type none (some q) (ch ∷ name) i s' made =
    create_in-Created s q (ch ∷ name) type i s' made

create-resolved :
    (s : Vfs) (path : List ℕ) (base : Option ℕ) (type : InodeType) (r : Resolved)
    → resolve_path s path base ≡ some r
    → create s path base type ≡ create_at s type r
unfolding create
create-resolved s path base type r resolved = rw resolved refl

resolve_path-new :
    (s : Vfs) (path : List ℕ) (base : Option ℕ) (type : InodeType) (self : ℕ) (dir : Inode)
    (r : Resolved)
    → get_elem? s.inodes self ≡ some dir
    → dir.type ≡ directory
    → same_view r.out_part (46 ∷ 46 ∷ []) ≡ false
    → hosts_below (length s.inodes) s.mounts ≡ true
    → resolve_path s path base ≡ some r
    → r.current ≡ none
    → r.out_parent ≡ some self
    → (r' : Resolved) × ((resolve_path
            (record s { inodes = added s.inodes self dir (new_inode type self r.out_part) })
            path
            base
          ≡ some r')
        × (r'.current ≡ some (length s.inodes)))
unfolding resolve_path
resolve_path-new s [] base type self dir r there is_dir not_up hosts resolved gone at = absurd (cc)
resolve_path-new s (ch ∷ path) base type self dir r there is_dir not_up hosts resolved gone at =
    elim (Option-cases (if ch == 47 then s.root_inode else base)) [
      | inl nowhere ↦
          let ran : some (walk_null (parts_of (ch ∷ path)) none []) ≡ some r =
            (rw nowhere at resolved) in
          let same : walk_null (parts_of (ch ∷ path)) none [] ≡ r = cc in
          let (never, _, _) =
            walk_null-parent (parts_of (ch ∷ path)) none [] self
              (ap (λ x. x.out_parent) same ∙ at) in
          absurd (cc)
      | inr (start, begins) ↦
          let ran : walk s (parts_of (ch ∷ path)) start none [] ≡ some r =
            (rw begins at resolved) in
          rw begins (
            walk-new s self dir type r.out_part there is_dir not_up hosts (parts_of (ch ∷ path))
              start none [] r ran (gone, at, refl))
    ]

-- A path that is created resolves from then on, from the same directory, to the new inode. The last
-- part of the path is not `..`, and every host of a mount is an inode.
pub resolve_path-create :
    (s : Vfs) (path : List ℕ) (base : Option ℕ) (type : InodeType) (i : ℕ) (s' : Vfs) (r : Resolved)
    → resolve_path s path base ≡ some r
    → same_view r.out_part (46 ∷ 46 ∷ []) ≡ false
    → hosts_below (length s.inodes) s.mounts ≡ true
    → create s path base type ≡ some (ok i, s')
    → (r' : Resolved) × ((resolve_path s' path base ≡ some r') × (r'.current ≡ some i))
resolve_path-create s path base type i s' r resolved not_up hosts made =
    let (self, dir, gone, at, there, is_dir, number, state) =
      create_at-Created s type r.current r.out_parent r.out_part i s'
        (sym (create-resolved s path base type r resolved) ∙ made) in
    let (r', (ran, found)) =
      resolve_path-new s path base type self dir r there is_dir not_up hosts resolved gone at in
    (r', (rw state ran, found ∙ ap some (sym number)))
