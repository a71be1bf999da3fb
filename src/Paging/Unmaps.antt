-- ===== src/Paging/Unmaps.antt =====
-- Taking a mapping back gives the tables that were there before it, one level at a time.
use umbongo.Base.{
  ℕ, zero, suc, ◌+◌, ◌-◌, ◌<◌, ◌≡◌, refl, sym, ap, subst, ◌∙◌, List, [], ◌∷◌, Option, some, Bool,
  true, false, ◌==◌, get_or, get_or-set, set, length, length-set, arith, ltb, lt→ltb,
}
use umbongo.Paging.{
  PageFlags, PageLevelEntry, PageLevel, empty, table, page, is_empty, entry_at, put_entry,
  set_entry, in_ensured, unset_entry, delete_entry, in_expected, expect,
}
use umbongo.Paging.Entries.{AllValid-get_or, LevelValid, EntryValid}
use umbongo.Paging.Steps.{
  vacant, unused, pointing, Vacant-cases, set-set, added, set_entry_lem, ensure-empty, ensure-table,
  in_ensured_lem,
}

-- `g` takes back what `f` did.
abbrev pub Undoes : {A : Type 0} (In : A → Type 0) (free : A → Bool) (f g : A → Option A) → Type 0
Undoes {A = A} In free f g = (c c' : A) → In c → free c ≡ true → f c ≡ some c' → g c' ≡ some c

set-same :
    {A : Type 0} (xs : List A) (i : ℕ) (a d : A)
    → i < length xs
    → get_or xs i d ≡ a
    → set xs i a ≡ xs
set-same [] i a d h e = refl
set-same (x ∷ xs) zero a d h e = ap (λ t. t ∷ xs) (sym e)
set-same (x ∷ xs) (suc i) a d h e = ap (λ t. x ∷ t) (set-same xs i a d (omega arith) e)

is_empty-empty : {A : Type 0} (entry : PageLevelEntry A) → is_empty entry ≡ true → entry ≡ empty
is_empty-empty empty h = refl
is_empty-empty (table child) h = absurd (ground (arith, h))
is_empty-empty (page phys flags) h = absurd (ground (arith, h))

some-injective : {A : Type 0} {a b : A} → some a ≡ some b → a ≡ b
some-injective e = cc

module _ {A : Type 0} (Valid : A → Type 0) (i : ℕ) (small : i < 512) where
  -- An entry that was added goes, and the level is what it was.
  unset_entry-added :
      (clear : A → Bool) (entry : PageLevelEntry A) (level : PageLevel A)
      → LevelValid Valid level
      → is_empty (entry_at i level) ≡ true
      → is_empty entry ≡ false
      → delete_entry clear entry ≡ some tt
      → unset_entry clear i
          (record (put_entry i entry level) { entry_count = level.entry_count + 1 })
        ≡ some level
  unfolding unset_entry
  unset_entry-added clear entry level (len, count, all) vacant_here new gone =
      let inside : ltb i 512 ≡ true = lt→ltb i 512 small in
      let there : get_or (set level.entries i entry) i empty ≡ entry =
        get_or-set level.entries i i entry empty (omega (arith, len)) ∙ ground arith in
      let counted : ltb 0 (level.entry_count + 1) ≡ true = ground arith in
      let back : set (set level.entries i entry) i empty ≡ level.entries =
        set-set level.entries i entry empty
        ∙ set-same level.entries i empty empty (omega (arith, len))
            (is_empty-empty (entry_at i level) vacant_here) in
      let less : level.entry_count + 1 - 1 ≡ level.entry_count = omega arith in
      rw (inside, there, new, gone, counted, back, less) refl

  pub set_entry-Undoes :
      (clear : A → Bool) (phys : ℕ) (flags : PageFlags)
      → Undoes
          (LevelValid Valid)
          (λ level. is_empty (entry_at i level))
          (set_entry i (page phys flags))
          (unset_entry clear i)
  set_entry-Undoes clear phys flags level level' h free ran =
      let entry : PageLevelEntry A = page phys flags in
      let added' : PageLevel A = record (put_entry i entry level) {
        entry_count = level.entry_count + 1;
      } in
      let same : added' ≡ level' =
        some-injective (sym (set_entry_lem Valid i small entry level h free refl) ∙ ran) in
      subst (λ l. unset_entry clear i l ≡ some level) same
        (unset_entry-added clear entry level h free refl refl)

  entry-put :
      (entries : List (PageLevelEntry A)) (entry : PageLevelEntry A)
      → i < length entries
      → get_or (set entries i entry) i empty ≡ entry
  entry-put entries entry h = get_or-set entries i i entry empty h ∙ ground arith

  module _ (count : A → ℕ) (clear : A → Bool) (g : A → Option A) where
    -- The table is empty again, and goes; or it is not, and stays.
    in_expected-gone :
        (child fresh : A) (level level' : PageLevel A)
        → entry_at i level ≡ table child
        → g child ≡ some fresh
        → count fresh ≡ 0
        → unset_entry clear i (put_entry i (table fresh) level) ≡ some level'
        → in_expected count clear i g level ≡ some level'
    unfolding in_expected expect
    in_expected-gone child fresh level level' e ran zero_left gone =
        let inside : ltb i 512 ≡ true = lt→ltb i 512 small in
        rw (inside, e, ran, zero_left, gone) refl

    in_expected-kept :
        (child old : A) (level : PageLevel A)
        → entry_at i level ≡ table child
        → g child ≡ some old
        → 0 < count old
        → in_expected count clear i g level ≡ some (put_entry i (table old) level)
    unfolding in_expected expect
    in_expected-kept child old level e ran some_left =
        let inside : ltb i 512 ≡ true = lt→ltb i 512 small in
        let test : (count old == 0) ≡ false = ground arith in rw (inside, e, ran, test) refl

    pub in_ensured-Undoes :
        (In : A → Type 0) (free : A → Bool) (f : A → Option A) (fresh : A)
        → ((c : A) → Valid c → In c)
        → ((c : A) → Valid c → 0 < count c)
        → In fresh
        → free fresh ≡ true
        → count fresh ≡ 0
        → clear fresh ≡ true
        → ((c : A) → In c → free c ≡ true → (c' : A) × (f c ≡ some c'))
        → Undoes In free f g
        → Undoes
            (LevelValid Valid)
            (λ level. vacant free (entry_at i level))
            (in_ensured fresh i f)
            (in_expected count clear i g)
    in_ensured-Undoes In free f fresh weaken positive fresh_ok fresh_free zero_left is_clear' maps
          undoes level level' h room ran =
        elim (Vacant-cases free (entry_at i level) room) [
          | unused e ↦
              let (child, mapped) = maps fresh fresh_ok fresh_free in
              let vacant_here : is_empty (entry_at i level) ≡ true = rw e refl in
              let start = set_entry_lem Valid i small (table fresh) level h vacant_here refl in
              let base : PageLevel A = added Valid i small (table fresh) level in
              let after : PageLevel A = put_entry i (table child) base in
              let got = ensure-empty Valid i small fresh level e start in
              let same : after ≡ level' = some-injective (
                sym (in_ensured_lem Valid i small fresh fresh child f level base got mapped)
                ∙ ran) in
              let room_left : i < length (set level.entries i (table fresh)) =
                omega (arith, h.0, length-set level.entries i (table fresh)) in
              let back : put_entry i (table fresh) after ≡ base =
                ap (λ es. record { entries = es; entry_count = level.entry_count + 1 })
                  (set-set (set level.entries i (table fresh)) i (table child) (table fresh)
                    ∙ set-set level.entries i (table fresh) (table fresh)) in
              let gone =
                unset_entry-added clear (table fresh) level h vacant_here refl
                  (rw is_clear' refl) in
              subst (λ l. in_expected count clear i g l ≡ some level) same
                (in_expected-gone child fresh after level
                  (entry-put (set level.entries i (table fresh)) (table child) room_left)
                  (undoes fresh child fresh_ok fresh_free mapped) zero_left
                  (ap (unset_entry clear i) back ∙ gone))
          | pointing old e old_free ↦
              let old_ok : Valid old =
                subst (λ x. EntryValid Valid x) e (AllValid-get_or Valid level.entries i h.2) in
              let (child, mapped) = maps old (weaken old old_ok) old_free in
              let after : PageLevel A = put_entry i (table child) level in
              let got = ensure-table Valid i small fresh old level e in
              let same : after ≡ level' = some-injective (
                sym (in_ensured_lem Valid i small fresh old child f level level got mapped)
                ∙ ran) in
              let back : put_entry i (table old) after ≡ level =
                ap (λ es. record { entries = es; entry_count = level.entry_count })
                  (set-set level.entries i (table child) (table old)
                    ∙ set-same level.entries i (table old) empty (omega (arith, h.0)) e) in
              subst (λ l. in_expected count clear i g l ≡ some level) same
                (in_expected-kept child old after
                    (entry-put level.entries (table child) (omega (arith, h.0)))
                    (undoes old child (weaken old old_ok) old_free mapped) (positive old old_ok)
                  ∙ ap some back)
        ]
