-- ===== src/Paging/RoundTrip.antt =====
-- Unmapping a page that was mapped gives the tables back as they were.
use umbongo.Base.{
  ℕ, ◌%◌, ◌^◌, ◌<◌, ◌≡◌, refl, sym, ◌∙◌, Option, none, some, Bool, true, ◌==◌, arith,
}
use umbongo.Base.Panic.{◌>>=◌}
use umbongo.Paging.{
  PageFlags, PageLevel, is_clear, entry_at, unset_entry, in_ensured, in_expected_level, new_level,
  Pml4, index_of, map_4KiB, unmap_4KiB,
}
use umbongo.Paging.Entries.{LevelValid, ChildValid, new_level-LevelValid}
use umbongo.Paging.Steps.{vacant}
use umbongo.Paging.Unmaps.{Undoes, set_entry-Undoes, in_ensured-Undoes}
use umbongo.Paging.Translate.{
  TableValid, DirectoryValid, IsPml4, free_4KiB, free_in_table, free_in_directory, free_in_pointers,
  fresh-is_empty, fresh-vacant, index_of-lt, page-Maps, small_in_table, small_in_directory,
  small_in_directory-Maps, small_in_pointers-Maps, map_4KiB_lem,
}

-- A mapping that has a result where the page is free.
abbrev Runs : {A : Type 0} (In : A → Type 0) (free : A → Bool) (f : A → Option A) → Type 0
Runs {A = A} In free f = (c : A) → In c → free c ≡ true → (c' : A) × (f c ≡ some c')

module _ {A : Type 0} (Valid : A → Type 0) (free : PageLevel A → Bool)
    (f g : PageLevel A → Option (PageLevel A)) (fresh_free : free new_level ≡ true)
    (runs : Runs (LevelValid Valid) free f) (undoes : Undoes (LevelValid Valid) free f g) where
  in_fresh-Undoes :
      (shift virt : ℕ)
      → Undoes
          (LevelValid (ChildValid Valid))
          (λ level. vacant free (entry_at (index_of shift virt) level))
          (in_ensured new_level (index_of shift virt) f)
          (in_expected_level (index_of shift virt) g)
  in_fresh-Undoes shift virt =
      in_ensured-Undoes (ChildValid Valid) (index_of shift virt) (index_of-lt shift virt)
        (λ child. child.entry_count) is_clear g (LevelValid Valid) free f new_level (λ c h. h.0)
        (λ c h. h.1) (new_level-LevelValid Valid) fresh_free refl refl runs undoes

module _ (virt phys : ℕ) (flags : PageFlags) where
  small_in_table-Runs :
      Runs (LevelValid (λ _. Unit)) (free_in_table virt) (small_in_table virt phys flags)
  small_in_table-Runs c h free =
      let (c', (ran, _)) = page-Maps (λ _. Unit) (λ _ _. none) 12 virt phys flags c h free in
      (c', ran)

  small_in_directory-Runs :
      Runs (LevelValid TableValid) (free_in_directory virt) (small_in_directory virt phys flags)
  small_in_directory-Runs c h free =
      let (c', (ran, _)) = small_in_directory-Maps virt phys flags c h free in (c', ran)

  small_in_pointers-Runs :
      Runs
        (LevelValid DirectoryValid)
        (free_in_pointers virt)
        (in_ensured new_level (index_of 30 virt) (small_in_directory virt phys flags))
  small_in_pointers-Runs c h free =
      let (c', (ran, _)) = small_in_pointers-Maps virt phys flags c h free in (c', ran)

  small_in_directory-Undoes :
      Undoes
        (LevelValid TableValid)
        (free_in_directory virt)
        (small_in_directory virt phys flags)
        (in_expected_level (index_of 21 virt) (unset_entry (λ _. true) (index_of 12 virt)))
  small_in_directory-Undoes =
      in_fresh-Undoes (λ _. Unit) (free_in_table virt) (small_in_table virt phys flags)
        (unset_entry (λ _. true) (index_of 12 virt)) (fresh-is_empty ℕ (index_of 12 virt))
        small_in_table-Runs
        (set_entry-Undoes (λ _. Unit) (index_of 12 virt) (index_of-lt 12 virt) (λ _. true)
          (phys % 2 ^ 52) flags)
        21 virt

  small_in_pointers-Undoes :
      Undoes
        (LevelValid DirectoryValid)
        (free_in_pointers virt)
        (in_ensured new_level (index_of 30 virt) (small_in_directory virt phys flags))
        (in_expected_level
          (index_of 30 virt)
          (in_expected_level (index_of 21 virt) (unset_entry (λ _. true) (index_of 12 virt))))
  small_in_pointers-Undoes =
      in_fresh-Undoes TableValid (free_in_directory virt) (small_in_directory virt phys flags)
        (in_expected_level (index_of 21 virt) (unset_entry (λ _. true) (index_of 12 virt)))
        (fresh-vacant (index_of 21 virt) (free_in_table virt)) small_in_directory-Runs
        small_in_directory-Undoes 30 virt

-- The two operations past their assertions.
map_4KiB-aligned :
    (virt phys : ℕ) (flags : PageFlags) (pml4 : Pml4)
    → virt % 4096 ≡ 0
    → phys % 4096 ≡ 0
    → map_4KiB virt phys flags pml4
      ≡ in_ensured new_level
          (index_of 39 virt)
          (in_ensured new_level (index_of 30 virt) (small_in_directory virt phys flags))
          pml4
unfolding map_4KiB
map_4KiB-aligned virt phys flags pml4 h h' =
    let test : (virt % 4096 == 0) ≡ true = ground arith in
    let test' : (phys % 4096 == 0) ≡ true = ground arith in rw (test, test') refl

unmap_4KiB-aligned :
    (virt : ℕ) (pml4 : Pml4)
    → virt % 4096 ≡ 0
    → unmap_4KiB virt pml4
      ≡ in_expected_level
          (index_of 39 virt)
          (in_expected_level
            (index_of 30 virt)
            (in_expected_level (index_of 21 virt) (unset_entry (λ _. true) (index_of 12 virt))))
          pml4
unfolding unmap_4KiB
unmap_4KiB-aligned virt pml4 h = let test : (virt % 4096 == 0) ≡ true = ground arith in rw test refl

-- A page of 4 KiB that is mapped where nothing is and unmapped again leaves the page tables exactly
-- as they were; neither step fails. Addresses are aligned and have 48 bits.
pub unmap_4KiB-map_4KiB :
    (virt phys : ℕ) (flags : PageFlags) (pml4 : Pml4)
    → virt % 4096 ≡ 0
    → phys % 4096 ≡ 0
    → virt < 2 ^ 48
    → phys < 2 ^ 52
    → IsPml4 pml4
    → free_4KiB virt pml4 ≡ true
    → (map_4KiB virt phys flags pml4 >>= unmap_4KiB virt) ≡ some pml4
unmap_4KiB-map_4KiB virt phys flags pml4 aligned aligned' small small' ok free =
    let (pml4', (ran, _)) =
      map_4KiB_lem virt phys flags pml4 aligned aligned' small small' ok free in
    let in_tables =
      in_expected_level (index_of 21 virt) (unset_entry (λ _. true) (index_of 12 virt)) in
    let undone =
      in_fresh-Undoes DirectoryValid (free_in_pointers virt)
        (in_ensured new_level (index_of 30 virt) (small_in_directory virt phys flags))
        (in_expected_level (index_of 30 virt) in_tables)
        (fresh-vacant (index_of 30 virt) (free_in_directory virt))
        (small_in_pointers-Runs virt phys flags) (small_in_pointers-Undoes virt phys flags) 39 virt
        pml4 pml4' ok free (sym (map_4KiB-aligned virt phys flags pml4 aligned aligned') ∙ ran) in
    rw ran (unmap_4KiB-aligned virt pml4' aligned ∙ undone)
