-- ===== src/Vfs/Added.antt =====
-- What a new inode changes in the list of all inodes and in the names of a directory.
use umbongo.Base.{
  ℕ, zero, suc, ◌<◌, ◌≡◌, refl, sym, ap, subst, ◌∙◌, List, [], ◌∷◌, ◌++◌, none, some, true, false,
  ◌==◌, ==_iff, if◌then◌else◌, length, get_elem?, set, length-set, get_elem?-set_self,
  get_elem?-set_ne, Bool-cases, Option-cases, inl, inr, arith,
}
use umbongo.Strings.{same_view}
use umbongo.Vfs.{Inode, find_child, added}

get_elem?-append-left :
    {A : Type 0} (xs ys : List A) (i : ℕ) (x : A)
    → get_elem? xs i ≡ some x
    → get_elem? (xs ++ ys) i ≡ some x
get_elem?-append-left [] ys i x h = absurd (ground arith)
get_elem?-append-left (a ∷ xs) ys zero x h = h
get_elem?-append-left (a ∷ xs) ys (suc i) x h = get_elem?-append-left xs ys i x h

get_elem?-append_last :
    {A : Type 0} (xs : List A) (x : A) → get_elem? (xs ++ x ∷ []) (length xs) ≡ some x
get_elem?-append_last [] x = refl
get_elem?-append_last (a ∷ xs) x = get_elem?-append_last xs x

get_elem?-lt : {A : Type 0} (xs : List A) (i : ℕ) (x : A) → get_elem? xs i ≡ some x → i < length xs
get_elem?-lt [] i x h = absurd (ground arith)
get_elem?-lt (a ∷ xs) zero x h = omega arith
get_elem?-lt (a ∷ xs) (suc i) x h = omega (arith, get_elem?-lt xs i x h)

find_child-nil : (inodes : List Inode) (name : List ℕ) → find_child inodes name [] ≡ some none
unfolding find_child
find_child-nil inodes name = refl

module _ (inodes : List Inode) (name : List ℕ) (c : ℕ) (children : List ℕ) where
  find_child-gone : get_elem? inodes c ≡ none → find_child inodes name (c ∷ children) ≡ none
  unfolding find_child
  find_child-gone gone = rw gone refl

  find_child-step :
      (x : Inode)
      → get_elem? inodes c ≡ some x
      → find_child inodes name (c ∷ children)
        ≡ (if same_view x.name name then some (some c) else find_child inodes name children)
  unfolding find_child
  find_child-step x got = rw got refl

-- An inode `new` in the directory `dir` with the number `self`.
module _ (inodes : List Inode) (self : ℕ) (dir new : Inode)
    (there : get_elem? inodes self ≡ some dir) where
  abbrev pub changed : Inode
  changed = record dir { children = dir.children ++ length inodes ∷ [] }

  pub added_self : get_elem? (added inodes self dir new) self ≡ some changed
  added_self =
      get_elem?-append-left (set inodes self changed) (new ∷ []) self changed
        (get_elem?-set_self inodes self changed (get_elem?-lt inodes self dir there))

  pub added_ne :
      (i : ℕ) (x : Inode)
      → (self == i) ≡ false
      → get_elem? inodes i ≡ some x
      → get_elem? (added inodes self dir new) i ≡ some x
  added_ne i x other h =
      get_elem?-append-left (set inodes self changed) (new ∷ []) i x
        (get_elem?-set_ne inodes changed (λ e. absurd (ground (arith, other, e))) ∙ h)

  added_new : get_elem? (added inodes self dir new) (length inodes) ≡ some new
  added_new =
      ap (get_elem? (added inodes self dir new)) (sym (length-set inodes self changed))
      ∙ get_elem?-append_last (set inodes self changed) new

  -- Every inode keeps its name.
  added-name :
      (i : ℕ) (x : Inode)
      → get_elem? inodes i ≡ some x
      → (x' : Inode) × ((get_elem? (added inodes self dir new) i ≡ some x') × (x'.name ≡ x.name))
  added-name i x h = elim (Bool-cases (self == i)) [
    | inl same ↦
        let e : self ≡ i = (==_iff self i).0 same in
        let found : get_elem? (added inodes self dir new) i ≡ some changed =
          subst (λ n. get_elem? (added inodes self dir new) n ≡ some changed) e added_self in
        let is_dir : dir ≡ x = cc in (changed, (found, ap (λ y. y.name) is_dir))
    | inr other ↦ (x, (added_ne i x other h, refl))
  ]

  pub find_child-added :
      (name : List ℕ) (children more : List ℕ) (j : ℕ)
      → find_child inodes name children ≡ some (some j)
      → find_child (added inodes self dir new) name (children ++ more) ≡ some (some j)
  find_child-added name [] more j h = absurd (cc (find_child-nil inodes name))
  find_child-added name (c ∷ children) more j h =
      let rest = find_child-added name children more j in
      elim (Option-cases (get_elem? inodes c)) [
        | inl gone ↦ absurd (cc (find_child-gone inodes name c children gone))
        | inr (x, got) ↦
            let (x', (got', same)) = added-name c x got in
            let now =
              find_child-step (added inodes self dir new) name c (children ++ more) x' got' in
            let was = find_child-step inodes name c children x got in
            let shape : same_view x'.name name ≡ same_view x.name name =
              ap (λ n. same_view n name) same in
            elim (Bool-cases (same_view x.name name)) [
              | inl hit ↦ now ∙ rw (shape, hit) (sym (was ∙ rw hit refl) ∙ h)
              | inr other ↦ now ∙ rw (shape, other) (rest (sym (was ∙ rw other refl) ∙ h))
            ]
      ]

  pub find_child-new :
      (name : List ℕ) (children : List ℕ)
      → same_view new.name name ≡ true
      → find_child inodes name children ≡ some none
      → find_child (added inodes self dir new) name (children ++ length inodes ∷ [])
        ≡ some (some (length inodes))
  find_child-new name [] named h =
      find_child-step (added inodes self dir new) name (length inodes) [] new added_new
      ∙ rw named refl
  find_child-new name (c ∷ children) named h =
      let rest = find_child-new name children named in
      elim (Option-cases (get_elem? inodes c)) [
        | inl gone ↦ absurd (cc (find_child-gone inodes name c children gone))
        | inr (x, got) ↦
            let (x', (got', same)) = added-name c x got in
            let now =
              find_child-step (added inodes self dir new) name c (children ++ length inodes ∷ []) x'
                got' in
            let was = find_child-step inodes name c children x got in
            let shape : same_view x'.name name ≡ same_view x.name name =
              ap (λ n. same_view n name) same in
            elim (Bool-cases (same_view x.name name)) [
              | inl hit ↦
                  let found : find_child inodes name (c ∷ children) ≡ some (some c) =
                    was ∙ rw hit refl in
                  absurd (cc found)
              | inr other ↦ now ∙ rw (shape, other) (rest (sym (was ∙ rw other refl) ∙ h))
            ]
      ]
