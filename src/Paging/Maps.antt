-- ===== src/Paging/Maps.antt =====
-- What a mapping does to the addresses that the tables translate, one level at a time. `hit` tells
-- the addresses that are mapped.
use umbongo.Base.{
  ℕ, ◌+◌, ◌<◌, ◌≡◌, refl, sym, ap, subst, ◌∙◌, List, Option, none, some, Bool, true, false, ◌&&◌,
  ◌==◌, ==_iff, if◌then◌else◌, get_or, get_or-set, set, length, arith, Bool-cases, inl, inr,
}
use umbongo.Paging.{
  PageFlags, PageLevelEntry, PageLevel, empty, table, page, is_empty, entry_at, put_entry,
  set_entry, in_ensured,
}
use umbongo.Paging.Steps.{
  vacant, unused, pointing, Vacant-cases, set-set, added, set_entry_lem, added-ChildValid,
  put-ChildValid, ensure-empty, ensure-table, in_ensured_lem,
}
use umbongo.Paging.Entries.{AllValid-get_or, LevelValid, ChildValid, EntryValid}

-- What the processor finds behind an entry: a page, or what is behind the table.
abbrev pub look {ℓ} :
    {A : Type 0} {R : Type ℓ}
    → (ℕ → PageFlags → Option R)
    → (A → Option R)
    → PageLevelEntry A
    → Option R
look on_page below empty = none
look on_page below (table child) = below child
look on_page below (page phys flags) = on_page phys flags

-- `f` maps the addresses that `hit` tells to `result`, and leaves the others.
abbrev pub Maps {ℓ} :
    {A : Type 0} {R : Type ℓ} (In Out : A → Type 0) (free : A → Bool) (view : ℕ → A → Option R)
    (f : A → Option A) (hit : ℕ → Bool) (result : ℕ → Option R)
    → Type ℓ
Maps {A = A} In Out free view f hit result =
    (c : A)
    → In c
    → free c ≡ true
    → (c' : A) × ((f c ≡ some c')
        × (Out c' × ((v : ℕ) → view v c' ≡ (if hit v then result v else view v c))))

module _ {ℓ} {A : Type 0} {R : Type ℓ} (Valid : A → Type 0) (on_page : ℕ → ℕ → PageFlags → Option R)
    (below : ℕ → A → Option R) (index : ℕ → ℕ) (i : ℕ) (small : i < 512) where
  abbrev pub view_level : ℕ → PageLevel A → Option R
  view_level v level = look (on_page v) (below v) (entry_at (index v) level)

  -- What is found after an entry was overwritten.
  view-put :
      (entries : List (PageLevelEntry A)) (entry : PageLevelEntry A) (v : ℕ)
      → length entries ≡ 512
      → look (on_page v) (below v) (get_or (set entries i entry) (index v) empty) ≡ (
          if i == index v
          then look (on_page v) (below v) entry
          else look (on_page v) (below v) (get_or entries (index v) empty))
  view-put entries entry v len =
      rw (get_or-set entries i (index v) entry empty (omega (arith, len))) (ground arith)

  pub set_entry-Maps :
      (phys : ℕ) (flags : PageFlags)
      → Maps
          (LevelValid Valid)
          (ChildValid Valid)
          (λ level. is_empty (entry_at i level))
          view_level
          (set_entry i (page phys flags))
          (λ v. i == index v)
          (λ v. on_page v phys flags)
  set_entry-Maps phys flags level h free =
      let entry : PageLevelEntry A = page phys flags in
      let ran = set_entry_lem Valid i small entry level h free refl in
      (
        added Valid i small entry level,
        (
          ran,
          (
            added-ChildValid Valid i small entry level h free refl tt,
            λ v. view-put level.entries entry v h.0,
          ),
        ),
      )

  view-put-child :
      (hit : ℕ → Bool) (result : ℕ → Option R) (level : PageLevel A) (child : A) (v : ℕ)
      (before : Option R)
      → length level.entries ≡ 512
      → look (on_page v) (below v) (entry_at i level) ≡ before
      → below v child ≡ (if hit v then result v else before)
      → look (on_page v) (below v) (get_or (set level.entries i (table child)) (index v) empty)
        ≡ (if (i == index v) && hit v then result v else view_level v level)
  view-put-child hit result level child v before len old new =
      view-put level.entries (table child) v len ∙ elim (Bool-cases (i == index v)) [
        | inl here ↦
            let there : view_level v level ≡ before =
              ap (λ n. look (on_page v) (below v) (entry_at n level))
                (sym ((==_iff i (index v)).0 here))
              ∙ old in
            rw (here, there) new
        | inr other ↦ rw other refl
      ]

  pub in_ensured-Maps :
      (In : A → Type 0) (free : A → Bool) (f : A → Option A) (hit : ℕ → Bool)
      (result : ℕ → Option R) (fresh : A)
      → ((c : A) → Valid c → In c)
      → In fresh
      → free fresh ≡ true
      → ((v : ℕ) → below v fresh ≡ none)
      → Maps In Valid free below f hit result
      → Maps
          (LevelValid Valid)
          (ChildValid Valid)
          (λ level. vacant free (entry_at i level))
          view_level
          (in_ensured fresh i f)
          (λ v. (i == index v) && hit v)
          result
  in_ensured-Maps In free f hit result fresh weaken fresh_ok fresh_free fresh_view maps level h
        room =
      elim (Vacant-cases free (entry_at i level) room) [
        | unused e ↦
            let (child, (ran, (ok, view))) = maps fresh fresh_ok fresh_free in
            let vacant_here : is_empty (entry_at i level) ≡ true = rw e refl in
            let got =
              ensure-empty Valid i small fresh level e
                (set_entry_lem Valid i small (table fresh) level h vacant_here refl) in
            let same : put_entry i (table child) (added Valid i small (table fresh) level)
                ≡ added Valid i small (table child) level =
              ap (λ es. record { entries = es; entry_count = level.entry_count + 1 })
                (set-set level.entries i (table fresh) (table child)) in
            (
              added Valid i small (table child) level,
              (
                in_ensured_lem Valid i small fresh fresh child f level
                      (added Valid i small (table fresh) level) got ran
                    ∙ ap some same,
                (
                  added-ChildValid Valid i small (table child) level h vacant_here refl ok,
                  λ v.
                      view-put-child hit result level child v none h.0
                        (ap (λ x. look (on_page v) (below v) x) e)
                        (view v ∙ ap (λ x. if hit v then result v else x) (fresh_view v)),
                ),
              ),
            )
        | pointing old e old_free ↦
            let old_ok : Valid old =
              subst (λ x. EntryValid Valid x) e (AllValid-get_or Valid level.entries i h.2) in
            let (child, (ran, (ok, view))) = maps old (weaken old old_ok) old_free in
            let taken : is_empty (entry_at i level) ≡ false = rw e refl in
            (
              put_entry i (table child) level,
              (
                in_ensured_lem Valid i small fresh old child f level level
                    (ensure-table Valid i small fresh old level e) ran,
                (
                  put-ChildValid Valid i small (table child) level h taken refl ok,
                  λ v.
                      view-put-child hit result level child v (below v old) h.0
                        (ap (λ x. look (on_page v) (below v) x) e) (view v),
                ),
              ),
            )
      ]
