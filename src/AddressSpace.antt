-- ===== src/AddressSpace.antt =====
-- kernel/mem/address_space.cc, region.cc and vm_object.cc: the regions of a process, and where a new
-- one goes. The tree of the regions is kept as what walking it gives: the regions from
-- `minimum_node` on, in the order of their bases, and those in front of it, which no walk reaches.
pub mod Gaps
pub mod Complete
pub mod Pages
pub mod Objects
pub mod Tree
pub mod Cover
mod Tests
use umbongo.Base.{
  ℕ, ◌+◌, ◌-◌, ◌%◌, ◌^◌, List, [], ◌∷◌, Option, none, some, Bool, true, false, ◌&&◌, ◌==◌, ltb, leb,
  if◌then◌else◌, add_size,
}
use umbongo.Base.Bits.{align_up}
use umbongo.Base.Panic.{◌>>=◌, ◌>>◌, assert}

pub record VirtualRange : Type 0 where
  pub base : ℕ
  pub size : ℕ

abbrev pub range_end : VirtualRange → ℕ
range_end range = add_size range.base range.size

abbrev pub total_size : ℕ
total_size = 2 ^ 48

abbrev pub alignment_for : ℕ → ℕ
alignment_for size =
    if leb (2 ^ 30) size then 2 ^ 30 else if leb (2 ^ 21) size then 2 ^ 21 else 4096

-- The gap in front of a region.
abbrev pub gap_before : ℕ → VirtualRange → VirtualRange
gap_before previous_region_end region = record {
  base = previous_region_end;
  size = region.base - previous_region_end;
}

-- The loop over the regions and what follows it. The end of it that is never to be reached has no
-- result.
unfoldable pub range_from : ℕ → ℕ → ℕ → List VirtualRange → Option VirtualRange
range_from size alignment previous_region_end [] =
    if ltb previous_region_end total_size && leb size (total_size - previous_region_end)
    then some (record { base = previous_region_end; size = size })
    else none
range_from size alignment previous_region_end (region ∷ regions) =
    let rest = range_from size alignment (align_up (range_end region) alignment) regions in
    let available_range = gap_before previous_region_end region in
    if ltb previous_region_end region.base
      && (leb size available_range.size && ltb (range_end available_range) total_size)
    then some (record { base = available_range.base; size = size })
    else rest

unfoldable pub allocate_range_anywhere : ℕ → List VirtualRange → Option VirtualRange
allocate_range_anywhere size regions =
    assert (size % 4096 == 0) >> range_from size (alignment_for size) (alignment_for size) regions

-- Where a region stands in the order of the bases, behind those of the same base.
unfoldable pub insert_ordered : VirtualRange → List VirtualRange → List VirtualRange
insert_ordered range [] = range ∷ []
insert_ordered range (region ∷ regions) =
    let rest = insert_ordered range regions in
    if ltb range.base region.base then range ∷ region ∷ regions else region ∷ rest

pub record RegionTree : Type 0 where
  pub hidden : List VirtualRange
  pub walked : List VirtualRange

-- `insert`. It looks for the new region at the minimum's left child after it was made the root, so
-- that the minimum stays what it is; a tree of hidden regions only has a null minimum to look at.
unfoldable pub insert_region : VirtualRange → RegionTree → Option RegionTree
insert_region range tree = elim tree.walked [
  | [] ↦ elim tree.hidden [
    | [] ↦ some (record { hidden = []; walked = range ∷ [] })
    | region ∷ regions ↦ none
  ]
  | first ∷ regions ↦
      if ltb range.base first.base
      then some (record tree { hidden = insert_ordered range tree.hidden })
      else some (record tree { walked = insert_ordered range (first ∷ regions) })
]

-- `allocate_anywhere` and `allocate_specific`: the range of the new region, and the tree with it.
unfoldable pub allocate_anywhere : ℕ → RegionTree → Option (VirtualRange × RegionTree)
allocate_anywhere size tree = allocate_range_anywhere size tree.walked >>= λ range.
    insert_region range tree >>= λ tree'. some (range, tree')

unfoldable pub allocate_specific : VirtualRange → RegionTree → Option (VirtualRange × RegionTree)
allocate_specific range tree = insert_region range tree >>= λ tree'. some (range, tree')
