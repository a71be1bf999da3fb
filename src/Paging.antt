-- ===== src/Paging.antt =====
-- kernel/arch/paging.hh, and the page tables of kernel/mem/address_space.cc. An entry that points
-- to a table of the next level holds that table; a large page is an entry above the last level.
pub mod Entries
pub mod Steps
pub mod Maps
pub mod Translate
pub mod Unmaps
pub mod RoundTrip
mod Tests
use umbongo.Base.{
  ℕ, ◌+◌, ◌-◌, ◌/◌, ◌%◌, ◌^◌, List, [], ◌∷◌, Option, none, some, Bool, true, false, not, ◌&&◌, ◌==◌,
  ltb, if◌then◌else◌, get_or, set, replicate,
}
use umbongo.Base.Panic.{◌>>=◌, ◌>>◌, assert}

-- The flags that are set; each entry is present, and none is written through.
pub record PageFlags : Type 0 where
  pub writable : Bool
  pub user : Bool
  pub cache_disable : Bool
  pub large : Bool
  pub global : Bool
  pub no_execute : Bool

pub data PageLevelEntry (A : Type 0) : Type 0 where
  empty : PageLevelEntry A
  table : A → PageLevelEntry A
  page : ℕ → PageFlags → PageLevelEntry A

pub record PageLevel (A : Type 0) : Type 0 where
  pub entries : List (PageLevelEntry A)
  pub entry_count : ℕ

module _ {A : Type 0} where
  abbrev pub is_empty : PageLevelEntry A → Bool
  is_empty empty = true
  is_empty _ = false

  -- `m_entries[index]`
  abbrev pub entry_at : ℕ → PageLevel A → PageLevelEntry A
  entry_at index level = get_or level.entries index empty

  -- What a store through the pointer of an entry does to the level that holds it.
  abbrev pub put_entry : ℕ → PageLevelEntry A → PageLevel A → PageLevel A
  put_entry index entry level = record level { entries = set level.entries index entry }

  abbrev pub all_empty : List (PageLevelEntry A) → Bool
  all_empty [] = true
  all_empty (entry ∷ entries) = is_empty entry && all_empty entries

  -- The assertions of the destructor.
  abbrev pub is_clear : PageLevel A → Bool
  is_clear level = level.entry_count == 0 && all_empty level.entries

  unfoldable pub set_entry : ℕ → PageLevelEntry A → PageLevel A → Option (PageLevel A)
  set_entry index entry level =
      assert (ltb index 512)
      >> assert (is_empty (entry_at index level))
      >> assert (ltb level.entry_count 512)
      >> some (record (put_entry index entry level) { entry_count = level.entry_count + 1 })

  -- `delete entry.entry()` of a table, whose destructor has its assertions.
  abbrev pub delete_entry : (A → Bool) → PageLevelEntry A → Option (Unit {0})
  delete_entry clear (table child) = assert (clear child)
  delete_entry clear _ = some tt

  unfoldable pub unset_entry : (A → Bool) → ℕ → PageLevel A → Option (PageLevel A)
  unset_entry clear index level =
      assert (ltb index 512)
      >> assert (not (is_empty (entry_at index level)))
      >> delete_entry clear (entry_at index level)
      >> assert (ltb 0 level.entry_count)
      >> some (record (put_entry index empty level) { entry_count = level.entry_count - 1 })

  -- The table behind an entry that is not a large page.
  abbrev pub child_of : PageLevelEntry A → Option A
  child_of (table child) = some child
  child_of _ = none

  unfoldable pub ensure : A → ℕ → PageLevel A → Option (A × PageLevel A)
  ensure fresh index level = assert (ltb index 512) >> elim (entry_at index level) [
    | empty ↦ (set_entry index (table fresh) level >>= λ level'. some (fresh, level'))
    | table child ↦ some (child, level)
    | page phys flags ↦ none
  ]

  unfoldable pub expect : ℕ → PageLevel A → Option A
  expect index level = assert (ltb index 512) >> child_of (entry_at index level)

  -- `ensure`, and then what is done to the table it points to.
  unfoldable pub in_ensured : A → ℕ → (A → Option A) → PageLevel A → Option (PageLevel A)
  in_ensured fresh index f level =
      ensure fresh index level >>= λ r. f r.0 >>= λ child. some (put_entry index (table child) r.1)

  -- `expect`, what is done to the table, and that it is unset once it has no entries.
  unfoldable pub in_expected :
      (A → ℕ) → (A → Bool) → ℕ → (A → Option A) → PageLevel A → Option (PageLevel A)
  in_expected count clear index f level =
      let unset = λ (child : A). unset_entry clear index (put_entry index (table child) level) in
      expect index level >>= f >>= λ child.
      if count child == 0 then unset child else some (put_entry index (table child) level)

  abbrev pub new_level : PageLevel A
  new_level = record { entries = replicate 512 empty; entry_count = 0 }

-- A last-level entry points to no table; the page's address is all that is read of it.
abbrev pub PageTable : Type 0
PageTable = PageLevel ℕ

abbrev pub PageDirectory : Type 0
PageDirectory = PageLevel PageTable

abbrev pub PageDirectoryPtrTable : Type 0
PageDirectoryPtrTable = PageLevel PageDirectory

abbrev pub Pml4 : Type 0
Pml4 = PageLevel PageDirectoryPtrTable

-- `(virt >> shift) & 0x1ff`
abbrev pub index_of : ℕ → ℕ → ℕ
index_of shift virt = virt / 2 ^ shift % 512

-- `PageLevelEntry(phys, flags)`; `Large` is set for a page above the last level.
abbrev pub page_entry : {A : Type 0} → ℕ → PageFlags → PageLevelEntry A
page_entry phys flags = page (phys % 2 ^ 52) flags

abbrev pub with_large : PageFlags → PageFlags
with_large flags = record flags { large = true }

unfoldable pub map_4KiB : ℕ → ℕ → PageFlags → Pml4 → Option Pml4
map_4KiB virt phys flags pml4 =
    assert (virt % 4096 == 0)
    >> assert (phys % 4096 == 0)
    >> in_ensured new_level (index_of 39 virt)
        (in_ensured new_level (index_of 30 virt) (
          in_ensured new_level (index_of 21 virt)
            (set_entry (index_of 12 virt) (page_entry phys flags))))
        pml4

unfoldable pub map_2MiB : ℕ → ℕ → PageFlags → Pml4 → Option Pml4
map_2MiB virt phys flags pml4 =
    assert (virt % 2 ^ 21 == 0)
    >> assert (phys % 2 ^ 21 == 0)
    >> in_ensured new_level (index_of 39 virt)
        (in_ensured new_level (index_of 30 virt)
          (set_entry (index_of 21 virt) (page_entry phys (with_large flags))))
        pml4

unfoldable pub map_1GiB : ℕ → ℕ → PageFlags → Pml4 → Option Pml4
map_1GiB virt phys flags pml4 =
    assert (virt % 2 ^ 30 == 0)
    >> assert (phys % 2 ^ 30 == 0)
    >> in_ensured new_level (index_of 39 virt)
        (set_entry (index_of 30 virt) (page_entry phys (with_large flags))) pml4

module _ {A : Type 0} where
  -- `expect` and so on at a level whose tables are levels themselves.
  abbrev pub in_expected_level :
      ℕ
      → (PageLevel A → Option (PageLevel A))
      → PageLevel (PageLevel A)
      → Option (PageLevel (PageLevel A))
  in_expected_level = in_expected (λ child. child.entry_count) is_clear

unfoldable pub unmap_4KiB : ℕ → Pml4 → Option Pml4
unmap_4KiB virt pml4 =
    assert (virt % 4096 == 0)
    >> in_expected_level (index_of 39 virt)
        (in_expected_level (index_of 30 virt)
          (in_expected_level (index_of 21 virt) (unset_entry (λ page. true) (index_of 12 virt))))
        pml4

unfoldable pub unmap_2MiB : ℕ → Pml4 → Option Pml4
unmap_2MiB virt pml4 =
    assert (virt % 2 ^ 21 == 0)
    >> in_expected_level (index_of 39 virt)
        (in_expected_level (index_of 30 virt) (unset_entry is_clear (index_of 21 virt))) pml4

unfoldable pub unmap_1GiB : ℕ → Pml4 → Option Pml4
unmap_1GiB virt pml4 =
    assert (virt % 2 ^ 30 == 0)
    >> in_expected_level (index_of 39 virt) (unset_entry is_clear (index_of 30 virt)) pml4
