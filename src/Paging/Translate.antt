-- ===== src/Paging/Translate.antt =====
-- How the processor translates an address by the tables, and what the three mappings do to it.
use umbongo.Base.{
  ℕ, zero, suc, ◌+◌, ◌/◌, ◌%◌, ◌^◌, ◌<◌, ◌≡◌, refl, ap, ◌∙◌, Option, none, some, Bool, true, ◌&&◌,
  ◌==◌, if◌then◌else◌, get_or, replicate, arith,
}
use umbongo.Paging.{
  PageFlags, PageLevel, empty, is_empty, entry_at, set_entry, in_ensured, new_level, PageTable,
  PageDirectory, PageDirectoryPtrTable, Pml4, index_of, page_entry, map_4KiB,
}
use umbongo.Paging.Entries.{LevelValid, ChildValid, new_level-LevelValid}
use umbongo.Paging.Steps.{vacant}
use umbongo.Paging.Maps.{look, Maps, set_entry-Maps, in_ensured-Maps}

-- The physical address, and the flags of its page.
abbrev pub Place : Type 0
Place = ℕ × PageFlags

abbrev pub in_page : ℕ → ℕ → ℕ → PageFlags → Option Place
in_page shift v phys flags = some (phys + v % 2 ^ shift, flags)

abbrev pub in_table : ℕ → PageTable → Option Place
in_table v level = look (in_page 12 v) (λ _. none) (entry_at (index_of 12 v) level)

abbrev pub in_directory : ℕ → PageDirectory → Option Place
in_directory v level = look (in_page 21 v) (in_table v) (entry_at (index_of 21 v) level)

abbrev pub in_pointers : ℕ → PageDirectoryPtrTable → Option Place
in_pointers v level = look (in_page 30 v) (in_directory v) (entry_at (index_of 30 v) level)

pub translate : ℕ → Pml4 → Option Place
translate v level = look (λ _ _. none) (in_pointers v) (entry_at (index_of 39 v) level)

abbrev pub TableValid : PageTable → Type 0
TableValid = ChildValid (λ _. Unit)

abbrev pub DirectoryValid : PageDirectory → Type 0
DirectoryValid = ChildValid TableValid

abbrev pub PointersValid : PageDirectoryPtrTable → Type 0
PointersValid = ChildValid DirectoryValid

-- Well-formed page tables, without empty ones below the top.
abbrev pub IsPml4 : Pml4 → Type 0
IsPml4 = LevelValid PointersValid

abbrev pub same_index : ℕ → ℕ → ℕ → Bool
same_index shift a b = index_of shift a == index_of shift b

abbrev pub same_from_21 : ℕ → ℕ → Bool
same_from_21 a b = same_index 21 a b && same_index 12 a b

abbrev pub same_from_30 : ℕ → ℕ → Bool
same_from_30 a b = same_index 30 a b && same_from_21 a b

-- Nothing is mapped where the entry of a page of 4 KiB would be.
abbrev pub free_in_table : ℕ → PageTable → Bool
free_in_table virt level = is_empty (entry_at (index_of 12 virt) level)

abbrev pub free_in_directory : ℕ → PageDirectory → Bool
free_in_directory virt level = vacant (free_in_table virt) (entry_at (index_of 21 virt) level)

abbrev pub free_in_pointers : ℕ → PageDirectoryPtrTable → Bool
free_in_pointers virt level = vacant (free_in_directory virt) (entry_at (index_of 30 virt) level)

abbrev pub free_4KiB : ℕ → Pml4 → Bool
free_4KiB virt pml4 = vacant (free_in_pointers virt) (entry_at (index_of 39 virt) pml4)

get_or-replicate : {A : Type 0} (n j : ℕ) (a : A) → get_or (replicate n a) j a ≡ a
get_or-replicate zero j a = refl
get_or-replicate (suc n) zero a = refl
get_or-replicate (suc n) (suc j) a = get_or-replicate n j a

module _ {A : Type 0} where
  pub fresh-vacant : (i : ℕ) (free : A → Bool) → vacant free (entry_at i new_level) ≡ true
  fresh-vacant i free = ap (vacant free) (get_or-replicate 512 i empty)

  pub fresh-look :
      (i : ℕ) (on_page : ℕ → PageFlags → Option Place) (below : A → Option Place)
      → look on_page below (entry_at i new_level) ≡ none
  fresh-look i on_page below = ap (look on_page below) (get_or-replicate 512 i empty)

pub fresh-is_empty : (A : Type 0) (i : ℕ) → is_empty (entry_at i (new_level {A = A})) ≡ true
fresh-is_empty A i = ap is_empty (get_or-replicate 512 i empty)

pub index_of-lt : (shift v : ℕ) → index_of shift v < 512
index_of-lt shift v = omega arith

-- The indices that two addresses of 48 bits share are their page.
same_4KiB :
    (a b : ℕ)
    → a < 2 ^ 48
    → b < 2 ^ 48
    → (same_index 39 a b && same_from_30 a b) ≡ (a / 2 ^ 12 == b / 2 ^ 12)
same_4KiB a b h h' = ground arith

-- The mapping one level down, put behind an entry of a level whose children are tables.
module _ {A : Type 0} (Valid : A → Type 0) (free : PageLevel A → Bool)
    (f : PageLevel A → Option (PageLevel A)) (view : ℕ → PageLevel A → Option Place)
    (hit : ℕ → Bool) (result : ℕ → Option Place) (fresh_free : free new_level ≡ true)
    (fresh_view : (v : ℕ) → view v new_level ≡ none)
    (maps : Maps (LevelValid Valid) (ChildValid Valid) free view f hit result) where
  pub in_fresh-Maps :
      (on_page : ℕ → ℕ → PageFlags → Option Place) (shift virt : ℕ)
      → Maps
          (LevelValid (ChildValid Valid))
          (ChildValid (ChildValid Valid))
          (λ level. vacant free (entry_at (index_of shift virt) level))
          (λ v level. look (on_page v) (view v) (entry_at (index_of shift v) level))
          (in_ensured new_level (index_of shift virt) f)
          (λ v. (index_of shift virt == index_of shift v) && hit v)
          result
  in_fresh-Maps on_page shift virt =
      in_ensured-Maps (ChildValid Valid) on_page view (index_of shift) (index_of shift virt)
        (index_of-lt shift virt) (LevelValid Valid) free f hit result new_level (λ c h. h.0)
        (new_level-LevelValid Valid) fresh_free fresh_view maps

-- The entry of a page in a level of tables or of pages.
pub page-Maps :
    {A : Type 0} (Valid : A → Type 0) (below : ℕ → A → Option Place) (shift virt phys : ℕ)
    (flags : PageFlags)
    → Maps
        (LevelValid Valid)
        (ChildValid Valid)
        (λ level. is_empty (entry_at (index_of shift virt) level))
        (λ v level. look (in_page shift v) (below v) (entry_at (index_of shift v) level))
        (set_entry (index_of shift virt) (page_entry phys flags))
        (λ v. index_of shift virt == index_of shift v)
        (λ v. in_page shift v (phys % 2 ^ 52) flags)
page-Maps Valid below shift virt phys flags =
    set_entry-Maps Valid (in_page shift) below (index_of shift) (index_of shift virt)
      (index_of-lt shift virt) (phys % 2 ^ 52) flags

-- A page of 4 KiB in a page directory, and in what points to that.
module _ (virt phys : ℕ) (flags : PageFlags) where
  abbrev pub small_in_table : PageTable → Option PageTable
  small_in_table = set_entry (index_of 12 virt) (page_entry phys flags)

  abbrev pub small_in_directory : PageDirectory → Option PageDirectory
  small_in_directory = in_ensured new_level (index_of 21 virt) small_in_table

  abbrev pub small_place : ℕ → Option Place
  small_place v = in_page 12 v (phys % 2 ^ 52) flags

  pub small_in_directory-Maps :
      Maps
        (LevelValid TableValid)
        DirectoryValid
        (free_in_directory virt)
        in_directory
        small_in_directory
        (same_from_21 virt)
        small_place
  small_in_directory-Maps =
      in_fresh-Maps (λ _. Unit) (free_in_table virt) small_in_table in_table (same_index 12 virt)
        small_place (fresh-is_empty ℕ (index_of 12 virt))
        (λ v. fresh-look (index_of 12 v) (in_page 12 v) (λ _. none))
        (page-Maps (λ _. Unit) (λ _ _. none) 12 virt phys flags) (in_page 21) 21 virt

  pub small_in_pointers-Maps :
      Maps
        (LevelValid DirectoryValid)
        PointersValid
        (free_in_pointers virt)
        in_pointers
        (in_ensured new_level (index_of 30 virt) small_in_directory)
        (same_from_30 virt)
        small_place
  small_in_pointers-Maps =
      in_fresh-Maps TableValid (free_in_directory virt) small_in_directory in_directory
        (same_from_21 virt) small_place (fresh-vacant (index_of 21 virt) (free_in_table virt))
        (λ v. fresh-look (index_of 21 v) (in_page 21 v) (in_table v)) small_in_directory-Maps
        (in_page 30) 30 virt

-- Mapping a page of 4 KiB where nothing is mapped never fails: the tables stay well formed, every
-- address of the page is then translated to the same place of the physical page, with its flags, and
-- every other address as before. Addresses are aligned and have 48 bits.
pub map_4KiB_lem :
    (virt phys : ℕ) (flags : PageFlags) (pml4 : Pml4)
    → virt % 4096 ≡ 0
    → phys % 4096 ≡ 0
    → virt < 2 ^ 48
    → phys < 2 ^ 52
    → IsPml4 pml4
    → free_4KiB virt pml4 ≡ true
    → (pml4' : Pml4) × ((map_4KiB virt phys flags pml4 ≡ some pml4')
        × (IsPml4 pml4'
            × ((v : ℕ)
                → v < 2 ^ 48
                → translate v pml4' ≡ (
                    if virt / 2 ^ 12 == v / 2 ^ 12
                    then some (phys + v % 2 ^ 12, flags)
                    else translate v pml4))))
unfolding map_4KiB translate
map_4KiB_lem virt phys flags pml4 aligned aligned' small small' ok free =
    let (pml4', (ran, ((ok', _), view))) =
      in_fresh-Maps DirectoryValid (free_in_pointers virt)
        (in_ensured new_level (index_of 30 virt) (small_in_directory virt phys flags)) in_pointers
        (same_from_30 virt) (small_place virt phys flags)
        (fresh-vacant (index_of 30 virt) (free_in_directory virt))
        (λ v. fresh-look (index_of 30 v) (in_page 30 v) (in_directory v))
        (small_in_pointers-Maps virt phys flags) (λ _ _ _. none) 39 virt pml4 ok free in
    let test : (virt % 4096 == 0) ≡ true = ground arith in
    let test' : (phys % 4096 == 0) ≡ true = ground arith in
    let whole : phys % 2 ^ 52 ≡ phys = omega arith in
    (
      pml4',
      (
        rw (test, test') ran,
        (
          ok',
          λ v bits.
              view v
              ∙ rw (same_4KiB virt v small bits) (
                  ap
                    (λ p.
                      if virt / 2 ^ 12 == v / 2 ^ 12
                      then some (p + v % 2 ^ 12, flags)
                      else translate v pml4)
                    whole),
        ),
      ),
    )
