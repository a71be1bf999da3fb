-- ===== src/Vfs/Create.antt =====
-- A path that is created resolves to the inode that was created for it.
use umbongo.Base.{
  ℕ, ◌≡◌, refl, sym, ap, subst, ◌∙◌, List, [], ◌∷◌, Option, none, some, Bool, true, false, ◌&&◌,
  if◌then◌else◌, length, get_elem?, Bool-cases, Option-cases, inl, inr, arith, ltb,
}
use umbongo.Strings.{same_view, same_view_iff}
use umbongo.Vfs.{
  InodeType, directory, Inode, Vfs, lookup, new_inode, Resolved, walk_null, missed, walk, mounted,
  is_slash,
}
use umbongo.Vfs.Resolve.{with_new, lookup-with_new, lookup-new}

abbrev all_slashes : List (List ℕ) → Bool
all_slashes [] = true
all_slashes (part ∷ parts) = is_slash part && all_slashes parts

-- What a walk that ends at null with a parent went through.
pub walk_null-parent :
    (parts : List (List ℕ)) (parent : Option ℕ) (name : List ℕ) (q : ℕ)
    → (walk_null parts parent name).out_parent ≡ some q
    → (parent ≡ some q)
      × ((walk_null parts parent name).out_part ≡ name)
      × (all_slashes parts ≡ true)
unfolding walk_null
walk_null-parent [] parent name q h = (h, refl, refl)
walk_null-parent (part ∷ parts) parent name q h =
    let rest = walk_null-parent parts parent name q in
    elim (Bool-cases (is_slash part)) [
      | inl slash ↦
          let (same, named, slashes) = rest (rw slash at h) in
          (same, rw slash named, ground (arith, slash, slashes))
      | inr text ↦ absurd (ground (arith, h, text))
    ]

missed-parent :
    (parts : List (List ℕ)) (c : ℕ) (name : List ℕ) (q : ℕ)
    → (missed parts c name).out_parent ≡ some q
    → (c ≡ q) × ((missed parts c name).out_part ≡ name) × (all_slashes parts ≡ true)
missed-parent [] c name q h =
    let (same, named, slashes) = walk_null-parent [] (some c) name q h in (cc, named, refl)
missed-parent (part ∷ parts) c name q h =
    let (same, named, slashes) =
      walk_null-parent parts (if is_slash part then some c else none) name q h in
    elim (Bool-cases (is_slash part)) [
      | inl slash ↦ (ground (arith, same, slash), named, ground (arith, slash, slashes))
      | inr text ↦ absurd (ground (arith, same, text))
    ]

walk-slashes :
    (s : Vfs) (parts : List (List ℕ)) (c : ℕ) (parent : Option ℕ) (name : List ℕ)
    → all_slashes parts ≡ true
    → walk s parts c parent name
      ≡ some (record { current = some c; out_parent = parent; out_part = name })
unfolding walk
walk-slashes s [] c parent name h = refl
walk-slashes s (part ∷ parts) c parent name h =
    let slash : is_slash part ≡ true = ground (arith, h) in
    rw slash (walk-slashes s parts c parent name (ground (arith, h)))

-- Every host of a mount is an inode.
abbrev pub hosts_below : ℕ → List (Option ℕ × ℕ) → Bool
hosts_below n [] = true
hosts_below n (mount ∷ mounts) =
    elim mount.0 [ some host ↦ ltb host n | none ↦ true ] && hosts_below n mounts

mounted-new :
    (mounts : List (Option ℕ × ℕ)) (n : ℕ) → hosts_below n mounts ≡ true → mounted mounts n ≡ n
unfolding mounted
mounted-new [] n h = refl
mounted-new ((none, root) ∷ mounts) n h = mounted-new mounts n (ground (arith, h))
mounted-new ((some host, root) ∷ mounts) n h = ground (arith, mounted-new mounts n)

walk-nil :
    (s : Vfs) (c : ℕ) (parent : Option ℕ) (name : List ℕ)
    → walk s [] c parent name
      ≡ some (record { current = some c; out_parent = parent; out_part = name })
unfolding walk
walk-nil s c parent name = refl

-- The steps of the walk.
module _ (s : Vfs) (part : List ℕ) (parts : List (List ℕ)) (c : ℕ) (parent : Option ℕ)
    (name : List ℕ) where
  walk-slash :
      is_slash part ≡ true → walk s (part ∷ parts) c parent name ≡ walk s parts c parent name
  unfolding walk
  walk-slash slash = rw slash refl

  walk-stopped :
      is_slash part ≡ false → lookup s c part ≡ none → walk s (part ∷ parts) c parent name ≡ none
  unfolding walk
  walk-stopped text stopped = rw (text, stopped) refl

  walk-missed :
      is_slash part ≡ false
      → lookup s c part ≡ some none
      → walk s (part ∷ parts) c parent name ≡ some (missed parts c part)
  unfolding walk
  walk-missed text gone = rw (text, gone) refl

  walk-found :
      (i : ℕ)
      → is_slash part ≡ false
      → lookup s c part ≡ some (some i)
      → walk s (part ∷ parts) c parent name ≡ walk s parts (mounted s.mounts i) (some c) part
  unfolding walk
  walk-found i text found = rw (text, found) refl

-- The walk through the state with the new inode, where the walk before it missed that inode.
module _ (s : Vfs) (self : ℕ) (dir : Inode) (type : InodeType) (name : List ℕ)
    (there : get_elem? s.inodes self ≡ some dir) (is_dir : dir.type ≡ directory)
    (not_up : same_view name (46 ∷ 46 ∷ []) ≡ false)
    (hosts : hosts_below (length s.inodes) s.mounts ≡ true) where
  abbrev after : Vfs
  after = with_new s self dir (new_inode type self name) there is_dir

  -- What the walk gave when it missed the inode, and what it is to give.
  abbrev Missed : Resolved → Type 0
  Missed r = (r.current ≡ none) × (r.out_parent ≡ some self) × (r.out_part ≡ name)

  abbrev Finds : Option Resolved → Type 0
  Finds m = (r : Resolved) × ((m ≡ some r) × (r.current ≡ some (length s.inodes)))

  found_new :
      lookup s self name ≡ some none → lookup after self name ≡ some (some (length s.inodes))
  found_new h =
      lookup-new s self dir (new_inode type self name) there is_dir name
        ((same_view_iff name name).1 refl) not_up h

  pub walk-new :
      (parts : List (List ℕ)) (c : ℕ) (parent : Option ℕ) (last : List ℕ) (r : Resolved)
      → walk s parts c parent last ≡ some r
      → Missed r
      → Finds (walk after parts c parent last)
  walk-new [] c parent last r ran (gone, _, _) =
      let here : Resolved = record { current = some c; out_parent = parent; out_part = last } in
      let same : here ≡ r = cc (walk-nil s c parent last) in
      let stands : some c ≡ none = ap (λ x. x.current) same ∙ gone in absurd (cc stands)
  walk-new (part ∷ parts) c parent last r ran missed_it = elim (Bool-cases (is_slash part)) [
    | inl slash ↦ subst Finds (sym (walk-slash after part parts c parent last slash)) (
        walk-new parts c parent last r (sym (walk-slash s part parts c parent last slash) ∙ ran)
          missed_it)
    | inr text ↦ elim (Option-cases (lookup s c part)) [
      | inl stopped ↦ absurd (cc (walk-stopped s part parts c parent last text stopped))
      | inr (found, looked) ↦ elim (Option-cases found) [
        | inl nothing ↦
            let looked' : lookup s c part ≡ some none = looked ∙ ap some nothing in
            let same : missed parts c part ≡ r =
              cc (walk-missed s part parts c parent last text looked') in
            let (at, named, slashes) =
              missed-parent parts c part self (ap (λ x. x.out_parent) same ∙ missed_it.1) in
            let part_is : part ≡ name = sym named ∙ ap (λ x. x.out_part) same ∙ missed_it.2 in
            let now : lookup after c part ≡ some (some (length s.inodes)) =
              subst (λ x. lookup after x part ≡ some (some (length s.inodes))) (sym at)
                (subst (λ x. lookup after self x ≡ some (some (length s.inodes))) (sym part_is)
                  (found_new (
                    subst (λ x. lookup s self x ≡ some none) part_is
                      (subst (λ x. lookup s x part ≡ some none) at looked')))) in
            let place = mounted-new s.mounts (length s.inodes) hosts in
            (
              record {
                current = some (mounted s.mounts (length s.inodes));
                out_parent = some c;
                out_part = part;
              },
              (
                walk-found after part parts c parent last (length s.inodes) text now
                    ∙ walk-slashes after parts (mounted s.mounts (length s.inodes)) (some c) part
                        slashes,
                ap some place,
              ),
            )
        | inr (i, something) ↦
            let looked' : lookup s c part ≡ some (some i) = looked ∙ ap some something in
            let kept =
              lookup-with_new s self dir (new_inode type self name) there is_dir c part i looked' in
            subst Finds (sym (walk-found after part parts c parent last i text kept)) (
              walk-new parts (mounted s.mounts i) (some c) part r
                (sym (walk-found s part parts c parent last i text looked') ∙ ran) missed_it)
      ]
    ]
  ]
