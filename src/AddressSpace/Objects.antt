-- ===== src/AddressSpace/Objects.antt =====
-- kernel/mem/vm_object.cc and region.cc: the pages of a memory object, their mapping into a region,
-- and the translation of kernel/mem/address_space.cc by the regions.
use umbongo.Base.{
  ℕ, zero, suc, ◌^◌, List, [], ◌∷◌, Option, none, some, Bool, true, false, not, ◌||◌, ◌==◌, ltb,
  leb, if◌then◌else◌, add_size, sub_size,
}
use umbongo.Base.Panic.{◌>>=◌, ◌>>◌, assert}
use umbongo.Base.Bits.{align_up}
use umbongo.Paging.{
  PageFlags, Pml4, map_4KiB, map_2MiB, map_1GiB, unmap_4KiB, unmap_2MiB, unmap_1GiB,
}
use umbongo.AddressSpace.{VirtualRange, range_end}
use umbongo.AddressSpace.Pages.{
  PhysicalPageSize, normal, large_page, huge, PhysicalPage, page_phys, page_size, create_page,
}

pub record VmObject : Type 0 where
  pub physical_pages : List PhysicalPage
  pub size : ℕ

abbrev pub from_page_size : PhysicalPageSize → ℕ
from_page_size normal = 4096
from_page_size large_page = 2 ^ 21
from_page_size huge = 2 ^ 30

-- `to_page_size` of the size that the loop takes next.
abbrev pub next_page_size : ℕ → PhysicalPageSize
next_page_size size =
    if leb (2 ^ 30) size then huge else if leb (2 ^ 21) size then large_page else normal

-- The loop of `create_physical`, which takes a page before it looks at the size that is left; it has
-- no result when the fuel is used up.
unfoldable pub pages_from : ℕ → ℕ → ℕ → Option (List PhysicalPage)
pages_from zero base size = none
pages_from (suc fuel) base size =
    let next = from_page_size (next_page_size size) in
    let page : PhysicalPage = create_page base (next_page_size size) in
    let rest = pages_from fuel (add_size base next) (sub_size size next) in
    if sub_size size next == 0 then some (page ∷ []) else (rest >>= λ pages. some (page ∷ pages))

unfoldable pub create_physical : ℕ → ℕ → ℕ → Option VmObject
create_physical fuel base size = pages_from fuel base (align_up size 4096) >>= λ pages.
    some (record { physical_pages = pages; size = align_up size 4096 })

-- `RegionAccess`, bit by bit.
pub record RegionAccess : Type 0 where
  pub writable : Bool
  pub executable : Bool
  pub user_accessible : Bool
  pub uncacheable : Bool
  pub global : Bool

unfoldable pub page_flags : RegionAccess → PageFlags
page_flags access = record {
  writable = access.writable;
  user = access.user_accessible;
  cache_disable = access.uncacheable;
  large = false;
  global = access.global;
  no_execute = not access.executable;
}

-- The switches of the loops over an object's pages. A page whose bits for the size name no size is
-- passed over, and the address stays.
abbrev pub page_bytes : PhysicalPage → ℕ
page_bytes page = elim (page_size page) [ some size ↦ from_page_size size | none ↦ 0 ]

abbrev pub map_page : ℕ → PhysicalPage → PageFlags → Pml4 → Option Pml4
map_page virt page flags pml4 = elim (page_size page) [
  | none ↦ some pml4
  | some normal ↦ map_4KiB virt (page_phys page) flags pml4
  | some large_page ↦ map_2MiB virt (page_phys page) flags pml4
  | some huge ↦ map_1GiB virt (page_phys page) flags pml4
]

abbrev pub unmap_page : ℕ → PhysicalPage → Pml4 → Option Pml4
unmap_page virt page pml4 = elim (page_size page) [
  | none ↦ some pml4
  | some normal ↦ unmap_4KiB virt pml4
  | some large_page ↦ unmap_2MiB virt pml4
  | some huge ↦ unmap_1GiB virt pml4
]

-- The loops of `Region::map` and `Region::unmap_if_needed`.
unfoldable pub map_pages : ℕ → PageFlags → List PhysicalPage → Pml4 → Option Pml4
map_pages virt flags [] pml4 = some pml4
map_pages virt flags (page ∷ pages) pml4 =
    map_page virt page flags pml4 >>= map_pages (add_size virt (page_bytes page)) flags pages

unfoldable pub unmap_pages : ℕ → List PhysicalPage → Pml4 → Option Pml4
unmap_pages virt [] pml4 = some pml4
unmap_pages virt (page ∷ pages) pml4 =
    unmap_page virt page pml4 >>= unmap_pages (add_size virt (page_bytes page)) pages

-- A region, with what it maps.
pub record Region : Type 0 where
  pub range : VirtualRange
  pub access : RegionAccess
  pub vm_object : Option VmObject

abbrev pub is_none : {A : Type 0} → Option A → Bool
is_none none = true
is_none (some a) = false

-- `Region::map` and `Region::unmap_if_needed`, on the page tables of the region's address space.
unfoldable pub map_region : VmObject → Region → Pml4 → Option (Region × Pml4)
map_region object region pml4 =
    assert (is_none region.vm_object)
    >> assert (leb object.size region.range.size)
    >> map_pages region.range.base (page_flags region.access) object.physical_pages pml4
    >>= λ pml4'. some (record region { vm_object = some object }, pml4')

unfoldable pub unmap_region : Region → Pml4 → Option (Region × Pml4)
unmap_region region pml4 = elim region.vm_object [
  | none ↦ some (region, pml4)
  | some object ↦ unmap_pages region.range.base object.physical_pages pml4 >>= λ pml4'.
      some (record region { vm_object = none }, pml4')
]

-- `virt_to_phys`: the loop over a region's pages, which stays at the base after a page that does not
-- hold the address, and the loop over the regions. A region without an object is not to be reached.
unfoldable pub phys_in_pages : ℕ → ℕ → List PhysicalPage → Option ℕ
phys_in_pages virt page_virt [] = none
phys_in_pages virt page_virt (page ∷ pages) =
    let rest = phys_in_pages virt page_virt pages in
    if ltb virt page_virt || leb (add_size page_virt (page_bytes page)) virt
    then rest
    else some (add_size (page_phys page) (sub_size virt page_virt))

unfoldable pub virt_to_phys : ℕ → List Region → Option (Option ℕ)
virt_to_phys virt [] = some none
virt_to_phys virt (region ∷ regions) =
    let rest = virt_to_phys virt regions in
    if ltb virt region.range.base || leb (range_end region.range) virt
    then rest
    else elim region.vm_object [
      | none ↦ none
      | some object ↦ elim (phys_in_pages virt region.range.base object.physical_pages) [
        | some found ↦ some (some found)
        | none ↦ rest
      ]
    ]
