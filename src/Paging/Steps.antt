-- ===== src/Paging/Steps.antt =====
-- The single steps of a level of the page tables: what they give, and that the level stays well formed.
use umbongo.Base.{
  ℕ, zero, suc, ◌+◌, ◌<◌, ◌≡◌, refl, ap, ◌∙◌, List, [], ◌∷◌, Option, some, Bool, true, false, set,
  length-set, arith, ltb, lt→ltb,
}
use umbongo.Paging.{
  PageLevelEntry, PageLevel, empty, table, page, is_empty, entry_at, put_entry, set_entry, ensure,
  in_ensured,
}
use umbongo.Paging.Entries.{
  filled-set-empty, filled-set-filled, filled-positive, set-AllValid, LevelValid, ChildValid,
  EntryValid,
}

-- Nothing is in the way of an entry of the table behind this entry.
abbrev pub vacant : {A : Type 0} → (A → Bool) → PageLevelEntry A → Bool
vacant free empty = true
vacant free (table child) = free child
vacant free (page phys flags) = false

pub set-set : {A : Type 0} (xs : List A) (i : ℕ) (a b : A) → set (set xs i a) i b ≡ set xs i b
set-set [] i a b = refl
set-set (x ∷ xs) zero a b = refl
set-set (x ∷ xs) (suc i) a b = ap (λ t. x ∷ t) (set-set xs i a b)

-- The two kinds of entries that nothing in the way allows.
pub data Vacant {A : Type 0} (free : A → Bool) (entry : PageLevelEntry A) : Type 0 where
  unused : entry ≡ empty → Vacant free entry
  pointing : (child : A) → entry ≡ table child → free child ≡ true → Vacant free entry

pub Vacant-cases :
    {A : Type 0} (free : A → Bool) (entry : PageLevelEntry A)
    → vacant free entry ≡ true
    → Vacant free entry
Vacant-cases free empty h = unused refl
Vacant-cases free (table child) h = pointing child refl h
Vacant-cases free (page phys flags) h = absurd (ground (arith, h))

module _ {A : Type 0} (Valid : A → Type 0) (i : ℕ) (small : i < 512) where
  -- A new entry at `i`, the count with it.
  abbrev pub added : PageLevelEntry A → PageLevel A → PageLevel A
  added entry level = record (put_entry i entry level) { entry_count = level.entry_count + 1 }

  pub set_entry_lem :
      (entry : PageLevelEntry A) (level : PageLevel A)
      → LevelValid Valid level
      → is_empty (entry_at i level) ≡ true
      → is_empty entry ≡ false
      → set_entry i entry level ≡ some (added entry level)
  unfolding set_entry
  set_entry_lem entry level (len, count, all) vacant_here new =
      let (grown, room) =
        filled-set-empty level.entries i entry (omega (arith, len)) vacant_here new in
      let inside : ltb i 512 ≡ true = lt→ltb i 512 small in
      let spare : ltb level.entry_count 512 ≡ true =
        lt→ltb level.entry_count 512 (omega (arith, len, count)) in
      rw (inside, vacant_here, spare) refl

  pub added-ChildValid :
      (entry : PageLevelEntry A) (level : PageLevel A)
      → LevelValid Valid level
      → is_empty (entry_at i level) ≡ true
      → is_empty entry ≡ false
      → EntryValid Valid entry
      → ChildValid Valid (added entry level)
  added-ChildValid entry level (len, count, all) vacant_here new ok =
      let (grown, room) =
        filled-set-empty level.entries i entry (omega (arith, len)) vacant_here new in
      (
        (
          length-set level.entries i entry ∙ len,
          omega (arith, grown, count),
          set-AllValid Valid level.entries i entry all ok,
        ),
        omega arith,
      )

  pub put-ChildValid :
      (entry : PageLevelEntry A) (level : PageLevel A)
      → LevelValid Valid level
      → is_empty (entry_at i level) ≡ false
      → is_empty entry ≡ false
      → EntryValid Valid entry
      → ChildValid Valid (put_entry i entry level)
  put-ChildValid entry level (len, count, all) taken new ok =
      let same = filled-set-filled level.entries i entry taken new in
      (
        (
          length-set level.entries i entry ∙ len,
          omega (arith, same, count),
          set-AllValid Valid level.entries i entry all ok,
        ),
        omega (arith, count, filled-positive level.entries i taken),
      )

  pub ensure-empty :
      (fresh : A) (level : PageLevel A)
      → entry_at i level ≡ empty
      → set_entry i (table fresh) level ≡ some (added (table fresh) level)
      → ensure fresh i level ≡ some (fresh, added (table fresh) level)
  unfolding ensure
  ensure-empty fresh level e ran =
      let inside : ltb i 512 ≡ true = lt→ltb i 512 small in rw (inside, e, ran) refl

  pub ensure-table :
      (fresh child : A) (level : PageLevel A)
      → entry_at i level ≡ table child
      → ensure fresh i level ≡ some (child, level)
  unfolding ensure
  ensure-table fresh child level e =
      let inside : ltb i 512 ≡ true = lt→ltb i 512 small in rw (inside, e) refl

  pub in_ensured_lem :
      (fresh child child' : A) (f : A → Option A) (level level' : PageLevel A)
      → ensure fresh i level ≡ some (child, level')
      → f child ≡ some child'
      → in_ensured fresh i f level ≡ some (put_entry i (table child') level')
  unfolding in_ensured
  in_ensured_lem fresh child child' f level level' got ran = rw (got, ran) refl
