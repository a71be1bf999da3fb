-- ===== src/Paging/Entries.antt =====
-- When a level of the page tables is well formed: its count is that of its entries, and every table
-- it points to is well formed and not empty.
use umbongo.Base.{
  ℕ, zero, suc, ◌+◌, ◌<◌, ◌≤◌, ◌≡◌, refl, sym, ap, List, [], ◌∷◌, true, false, if◌then◌else◌,
  get_or, set, length, replicate, length-replicate, arith,
}
use umbongo.Paging.{PageLevelEntry, PageLevel, empty, table, page, is_empty, new_level, all_empty}

module _ {A : Type 0} where
  abbrev pub filled : List (PageLevelEntry A) → ℕ
  filled [] = 0
  filled (entry ∷ entries) = (if is_empty entry then 0 else 1) + filled entries

  filled-le : (entries : List (PageLevelEntry A)) → filled entries ≤ length entries
  filled-le [] = omega arith
  filled-le (entry ∷ entries) = ground (arith, filled-le entries)

  -- An empty entry that is filled, and a filled one that is overwritten.
  pub filled-set-empty :
      (entries : List (PageLevelEntry A)) (i : ℕ) (entry : PageLevelEntry A)
      → i < length entries
      → is_empty (get_or entries i empty) ≡ true
      → is_empty entry ≡ false
      → (filled (set entries i entry) ≡ filled entries + 1) × (filled entries < length entries)
  filled-set-empty [] i entry h e new = absurd (omega arith)
  filled-set-empty (x ∷ entries) zero entry h e new = ground (arith, e, new, filled-le entries)
  filled-set-empty (x ∷ entries) (suc i) entry h e new =
      let rest = filled-set-empty entries i entry (omega arith) e new in ground (arith, rest)

  pub filled-set-filled :
      (entries : List (PageLevelEntry A)) (i : ℕ) (entry : PageLevelEntry A)
      → is_empty (get_or entries i empty) ≡ false
      → is_empty entry ≡ false
      → filled (set entries i entry) ≡ filled entries
  filled-set-filled [] i entry old new = ground (arith, old)
  filled-set-filled (x ∷ entries) zero entry old new = ground (arith, old, new)
  filled-set-filled (x ∷ entries) (suc i) entry old new =
      ap (λ n. (if is_empty x then 0 else 1) + n) (filled-set-filled entries i entry old new)

  pub filled-positive :
      (entries : List (PageLevelEntry A)) (i : ℕ)
      → is_empty (get_or entries i empty) ≡ false
      → 0 < filled entries
  filled-positive [] i h = ground (arith, h)
  filled-positive (x ∷ entries) zero h = ground (arith, h)
  filled-positive (x ∷ entries) (suc i) h = omega (arith, filled-positive entries i h)

  pub filled-zero :
      (entries : List (PageLevelEntry A)) → filled entries ≡ 0 → all_empty entries ≡ true
  filled-zero [] h = refl
  filled-zero (x ∷ entries) h = ground (arith, filled-zero entries)

  filled-replicate :
      (n : ℕ) (entry : PageLevelEntry A) → is_empty entry ≡ true → filled (replicate n entry) ≡ 0
  filled-replicate zero entry h = refl
  filled-replicate (suc n) entry h = ground (arith, h, filled-replicate n entry h)

  module _ (Valid : A → Type 0) where
    -- What is asked of the table behind an entry.
    abbrev pub EntryValid : PageLevelEntry A → Type 0
    EntryValid empty = Unit
    EntryValid (table child) = Valid child
    EntryValid (page phys flags) = Unit

    abbrev pub AllValid : List (PageLevelEntry A) → Type 0
    AllValid [] = Unit
    AllValid (entry ∷ entries) = EntryValid entry × AllValid entries

    pub AllValid-get_or :
        (entries : List (PageLevelEntry A)) (i : ℕ)
        → AllValid entries
        → EntryValid (get_or entries i empty)
    AllValid-get_or [] i h = tt
    AllValid-get_or (entry ∷ entries) zero h = h.0
    AllValid-get_or (entry ∷ entries) (suc i) h = AllValid-get_or entries i h.1

    pub set-AllValid :
        (entries : List (PageLevelEntry A)) (i : ℕ) (entry : PageLevelEntry A)
        → AllValid entries
        → EntryValid entry
        → AllValid (set entries i entry)
    set-AllValid [] i entry h h' = tt
    set-AllValid (x ∷ entries) zero entry h h' = (h', h.1)
    set-AllValid (x ∷ entries) (suc i) entry h h' = (h.0, set-AllValid entries i entry h.1 h')

    -- A level that may be empty, as a new one is, and one that another points to.
    abbrev pub LevelValid : PageLevel A → Type 0
    LevelValid level =
        (length level.entries ≡ 512)
        × (level.entry_count ≡ filled level.entries)
        × AllValid level.entries

    abbrev pub ChildValid : PageLevel A → Type 0
    ChildValid level = LevelValid level × (0 < level.entry_count)

    replicate-AllValid : (n : ℕ) → AllValid (replicate n empty)
    replicate-AllValid zero = tt
    replicate-AllValid (suc n) = (tt, replicate-AllValid n)

    pub new_level-LevelValid : LevelValid new_level
    new_level-LevelValid =
        let unused : PageLevelEntry A = empty in
        (
          length-replicate 512 unused,
          sym (filled-replicate 512 unused refl),
          replicate-AllValid 512,
        )
