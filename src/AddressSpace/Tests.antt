-- ===== src/AddressSpace/Tests.antt =====
-- A process with two regions, and objects in physical memory.
use umbongo.Base.{
  ℕ, ◌+◌, ◌*◌, ◌/◌, ◌%◌, ◌^◌, ◌<◌, ◌≤◌, ◌≡◌, refl, List, [], ◌∷◌, Option, some, none, Bool, true,
  arith,
}
use umbongo.AddressSpace.{
  VirtualRange, RegionTree, alignment_for, allocate_range_anywhere, allocate_anywhere, range_from,
  insert_region, insert_ordered,
}
use umbongo.SplayTree.{Node, SplayTree, splay_tree, null, fork, insert}
use umbongo.SplayTree.Insert.{IsValid}
use umbongo.AddressSpace.Tree.{range_at, region_tree, Views, regions, insert_region-Views}
use umbongo.AddressSpace.Gaps.{is_free, allocate_range_anywhere_lem}
use umbongo.AddressSpace.Complete.{allocate_range_anywhere-ne-none}
use umbongo.AddressSpace.Objects.{VmObject, create_physical}
use umbongo.AddressSpace.Cover.{Cover, create_physical-Cover}

abbrev two_regions : List VirtualRange
two_regions = record { base = 4096; size = 4096 } ∷ record { base = 16384; size = 8192 } ∷ []

abbrev gap : VirtualRange
gap = record { base = 8192; size = 8192 }

gap_test : allocate_range_anywhere 8192 two_regions ≡ some gap
unfolding allocate_range_anywhere range_from umbongo.Base.Bits.align_up
gap_test = refl

-- Two regions that are put in front of the first one of the tree get the same range.
abbrev program : RegionTree
program = record { hidden = []; walked = record { base = 2 ^ 22; size = 4096 } ∷ [] }

abbrev first_page : VirtualRange
first_page = record { base = 4096; size = 4096 }

abbrev once : RegionTree
once = record program { hidden = first_page ∷ [] }

hidden_test : allocate_anywhere 4096 program ≡ some (first_page, once)
unfolding allocate_anywhere allocate_range_anywhere range_from umbongo.Base.Bits.align_up
    insert_region insert_ordered
hidden_test = refl

overlap_test :
    allocate_anywhere 4096 once
    ≡ some (first_page, record once { hidden = first_page ∷ first_page ∷ [] })
unfolding allocate_anywhere allocate_range_anywhere range_from umbongo.Base.Bits.align_up
    insert_region insert_ordered
overlap_test = refl

allocate_range_anywhere_lem_example :
    (gap.size ≡ 8192)
    × (0 < gap.base)
    × (gap.base % alignment_for 8192 ≡ 0)
    × (gap.base + 8192 ≤ 2 ^ 48)
    × (is_free gap two_regions ≡ true)
allocate_range_anywhere_lem_example =
    allocate_range_anywhere_lem 8192 two_regions gap
      (omega arith, omega arith, omega arith, (omega arith, omega arith, omega arith, tt)) gap_test

allocate_range_anywhere-ne-none_example :
    (range : VirtualRange) × (allocate_range_anywhere 8192 two_regions ≡ some range)
allocate_range_anywhere-ne-none_example =
    allocate_range_anywhere-ne-none 8192 two_regions (record { base = 65536; size = 8192 })
      (omega arith, omega arith, omega arith, (omega arith, omega arith, omega arith, tt))
      (omega arith) refl refl (omega arith) refl (omega arith) refl

create_physical-Cover_example :
    (object : VmObject) × ((create_physical 2 65536 5000 ≡ some object)
      × ((object.size ≡ (5000 + 4095) / 4096 * 4096)
          × Cover 65536 object.size object.physical_pages))
create_physical-Cover_example =
    create_physical-Cover 2 65536 5000 (omega arith) (omega arith) (omega arith)

-- A tree of one region, and a second one in front of it.
abbrev page_node : Node
page_node = record { address = 1; key = 8192 }

abbrev front_node : Node
front_node = record { address = 2; key = 4096 }

abbrev one_region : SplayTree
one_region = splay_tree (fork null page_node null) (some page_node)

abbrev page_sizes : ℕ → ℕ
page_sizes address = 4096

one_region-IsValid : IsValid one_region
one_region-IsValid = record { sorted = (tt, tt); pointed = λ e. (page_node, refl) }

insert_region-Views_example :
    (t' : SplayTree) × (tree' : RegionTree) × (insert one_region front_node ≡ some t')
    × (insert_region
          (range_at page_sizes front_node)
          (region_tree [] (range_at page_sizes page_node ∷ []))
        ≡ some tree')
    × Views page_sizes t' tree'
insert_region-Views_example =
    insert_region-Views page_sizes one_region (region_tree [] (range_at page_sizes page_node ∷ []))
      front_node one_region-IsValid (regions [] page_node [] refl refl) (omega arith)
