-- ===== src/Vfs/Resolve.antt =====
-- What a new inode changes in the lookups of names.
use umbongo.Base.{
  ℕ, ◌≡◌, refl, sym, ap, subst, ◌∙◌, List, [], ◌∷◌, ◌++◌, none, some, true, false, ◌==◌, ==_iff,
  length, get_elem?, Bool-cases, Option-cases, inl, inr, arith, ◌⊎◌, append-nil,
}
use umbongo.Strings.{same_view}
use umbongo.Vfs.{
  InodeType, anonymous_file, directory, regular_file, Inode, Vfs, find_child, lookup_in, lookup,
  added,
}
use umbongo.Vfs.Added.{changed, added_self, added_ne, find_child-added, find_child-new}

pub InodeType-cases :
    (t : InodeType) → (t ≡ directory) ⊎ ((t ≡ anonymous_file) ⊎ (t ≡ regular_file))
InodeType-cases directory = inl refl
InodeType-cases anonymous_file = inr (inl refl)
InodeType-cases regular_file = inr (inr refl)

lookup-gone :
    (s : Vfs) (i : ℕ) (name : List ℕ) → get_elem? s.inodes i ≡ none → lookup s i name ≡ none
unfolding lookup
lookup-gone s i name gone = rw gone refl

lookup-file :
    (s : Vfs) (i : ℕ) (x : Inode) (name : List ℕ)
    → get_elem? s.inodes i ≡ some x
    → (x.type ≡ anonymous_file) ⊎ (x.type ≡ regular_file)
    → lookup s i name ≡ none
unfolding lookup
lookup-file s i x name got (inl e) = rw (got, e) refl
lookup-file s i x name got (inr e) = rw (got, e) refl

-- The lookups of a state with the new inode.
module _ (s : Vfs) (self : ℕ) (dir new : Inode) (there : get_elem? s.inodes self ≡ some dir)
    (is_dir : dir.type ≡ directory) where
  abbrev pub with_new : Vfs
  with_new = record s { inodes = added s.inodes self dir new }

  lookup_in-added :
      (i : ℕ) (x : Inode) (name more : List ℕ) (j : ℕ)
      → lookup_in s.inodes i x name ≡ some (some j)
      → lookup_in with_new.inodes i (record x { children = x.children ++ more }) name
        ≡ some (some j)
  lookup_in-added i x name more j h = elim (Bool-cases (same_view name (46 ∷ []))) [
    | inl here ↦ ground (arith, h, here)
    | inr other ↦ elim (Bool-cases (same_view name (46 ∷ 46 ∷ []))) [
      | inl up ↦ ground (arith, h, other, up)
      | inr down ↦
          let found : find_child s.inodes name x.children ≡ some (some j) =
            ground (arith, h, other, down) in
          rw (other, down)
            (find_child-added s.inodes self dir new there name x.children more j found)
    ]
  ]

  lookup-dir :
      (t : Vfs) (i : ℕ) (x : Inode) (name : List ℕ)
      → get_elem? t.inodes i ≡ some x
      → x.type ≡ directory
      → lookup t i name ≡ lookup_in t.inodes i x name
  unfolding lookup
  lookup-dir t i x name got e = rw (got, e) refl

  -- What was found is found.
  pub lookup-with_new :
      (i : ℕ) (name : List ℕ) (j : ℕ)
      → lookup s i name ≡ some (some j)
      → lookup with_new i name ≡ some (some j)
  lookup-with_new i name j h = elim (Option-cases (get_elem? s.inodes i)) [
    | inl gone ↦ absurd (cc (lookup-gone s i name gone))
    | inr (x, got) ↦ elim (InodeType-cases x.type) [
      | inr file ↦ absurd (cc (lookup-file s i x name got file))
      | inl x_dir ↦
          let before : lookup_in s.inodes i x name ≡ some (some j) =
            sym (lookup-dir s i x name got x_dir) ∙ h in
          elim (Bool-cases (self == i)) [
            | inl same ↦
                let e : self ≡ i = (==_iff self i).0 same in
                let found : get_elem? with_new.inodes i
                    ≡ some (changed s.inodes self dir new there) =
                  subst
                    (λ n. get_elem? with_new.inodes n ≡ some (changed s.inodes self dir new there))
                    e (added_self s.inodes self dir new there) in
                let x_is : x ≡ dir = cc in
                lookup-dir with_new i (changed s.inodes self dir new there) name found is_dir
                ∙ lookup_in-added i dir name (length s.inodes ∷ []) j
                    (subst (λ y. lookup_in s.inodes i y name ≡ some (some j)) x_is before)
            | inr other ↦
                let kept : record x { children = x.children ++ [] } ≡ x =
                  ap (λ cs. record x { children = cs }) (append-nil x.children) in
                lookup-dir with_new i x name (added_ne s.inodes self dir new there i x other got)
                  x_dir
                ∙ subst (λ y. lookup_in with_new.inodes i y name ≡ some (some j)) kept
                    (lookup_in-added i x name [] j before)
          ]
    ]
  ]

  -- What was not found in the directory is the new inode.
  pub lookup-new :
      (name : List ℕ)
      → same_view new.name name ≡ true
      → same_view name (46 ∷ 46 ∷ []) ≡ false
      → lookup s self name ≡ some none
      → lookup with_new self name ≡ some (some (length s.inodes))
  lookup-new name named not_up h =
      let before : lookup_in s.inodes self dir name ≡ some none =
        sym (lookup-dir s self dir name there is_dir) ∙ h in
      lookup-dir with_new self (changed s.inodes self dir new there) name
        (added_self s.inodes self dir new there) is_dir
      ∙ elim (Bool-cases (same_view name (46 ∷ []))) [
        | inl here ↦ absurd (ground (arith, before, here))
        | inr other ↦
            let missing : find_child s.inodes name dir.children ≡ some none =
              ground (arith, before, other, not_up) in
            rw (other, not_up)
              (find_child-new s.inodes self dir new there name dir.children named missing)
      ]
