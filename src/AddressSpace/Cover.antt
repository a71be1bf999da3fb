-- ===== src/AddressSpace/Cover.antt =====
-- The pages of a memory object are one behind the other and cover it.
use umbongo.Base.{
  ℕ, zero, suc, ◌+◌, ◌-◌, ◌*◌, ◌/◌, ◌%◌, ◌^◌, ◌<◌, ◌≤◌, ◌≡◌, refl, List, [], ◌∷◌, some, false, ◌==◌,
  leb, add_size, sub_size, arith, Bool-cases, inl, inr,
}
use umbongo.Base.Bits.{align_up, align_up-pow}
use umbongo.AddressSpace.Objects.{
  VmObject, from_page_size, next_page_size, pages_from, create_physical,
}
use umbongo.AddressSpace.Pages.{
  PhysicalPageSize, PhysicalPage, page_phys, page_size, is_allocated, create_page,
  page_phys-create_page, page_size-create_page, is_allocated-create_page,
}

-- Pages from `base` on, each where the one before it ends, of `size` bytes together; none of them is
-- one that the memory manager gave and gets back.
abbrev pub Cover : ℕ → ℕ → List PhysicalPage → Type 0
Cover base size [] = size ≡ 0
Cover base size (page ∷ pages) =
    (page_phys page ≡ base)
    × (is_allocated page ≡ false)
    × (bytes : PhysicalPageSize) × (page_size page ≡ some bytes)
    × (from_page_size bytes ≤ size)
    × Cover (base + from_page_size bytes) (size - from_page_size bytes) pages

next_page_size-le :
    (size : ℕ)
    → 4096 ≤ size
    → (from_page_size (next_page_size size) ≤ size)
      × (4096 ≤ from_page_size (next_page_size size))
      × (from_page_size (next_page_size size) % 4096 ≡ 0)
next_page_size-le size h = elim (Bool-cases (leb (2 ^ 30) size)) [
  | inl fits ↦ rw fits (ground arith, omega arith, refl)
  | inr less ↦ elim (Bool-cases (leb (2 ^ 21) size)) [
    | inl fits ↦ rw (less, fits) (ground arith, omega arith, refl)
    | inr small ↦ rw (less, small) (h, omega arith, refl)
  ]
]

abbrev next_page : ℕ → ℕ → PhysicalPage
next_page base size = create_page base (next_page_size size)

next_page-Cover :
    (base size : ℕ)
    → from_page_size (next_page_size size) ≤ size
    → base < 2 ^ 52
    → (pages : List PhysicalPage)
    → Cover
        (base + from_page_size (next_page_size size))
        (size - from_page_size (next_page_size size))
        pages
    → Cover base size (next_page base size ∷ pages)
next_page-Cover base size le small pages rest =
    let bytes = next_page_size size in
    (
      page_phys-create_page base bytes small,
      is_allocated-create_page base bytes small,
      bytes,
      page_size-create_page base bytes small,
      le,
      rest,
    )

-- The rounds of the loop.
module _ (fuel base size next : ℕ) (same : from_page_size (next_page_size size) ≡ next)
    (le : next ≤ size) (small : base + size < 2 ^ 52 + 4096) where
  pages_from-last :
      size - next ≡ 0 → pages_from (suc fuel) base size ≡ some (next_page base size ∷ [])
  unfolding pages_from
  pages_from-last last =
      let none_left : sub_size size next ≡ 0 = omega (arith, last) in rw (same, none_left) refl

  pages_from-more :
      (pages : List PhysicalPage)
      → 0 < size - next
      → pages_from fuel (base + next) (size - next) ≡ some pages
      → pages_from (suc fuel) base size ≡ some (next_page base size ∷ pages)
  unfolding pages_from
  pages_from-more pages more ran =
      let left : sub_size size next ≡ size - next = omega arith in
      let place : add_size base next ≡ base + next = omega arith in
      let some_left : (size - next == 0) ≡ false = ground arith in
      rw (same, left, place, some_left, ran) refl

pages_from-Cover :
    (fuel base size : ℕ)
    → 0 < size
    → size % 4096 ≡ 0
    → size ≤ fuel * 4096
    → base + size < 2 ^ 52 + 4096
    → (pages : List PhysicalPage) × ((pages_from fuel base size ≡ some pages)
        × Cover base size pages)
pages_from-Cover zero base size some_bytes whole enough small = absurd (omega arith)
pages_from-Cover (suc fuel) base size some_bytes whole enough small =
    let (le, least, multiple) = next_page_size-le size (omega arith) in
    let next : ℕ = from_page_size (next_page_size size) in
    elim (Bool-cases (size - next == 0)) [
      | inl last ↦
          let zero_left : size - next ≡ 0 = ground (arith, last) in
          (
            next_page base size ∷ [],
            (
              pages_from-last fuel base size next refl le small zero_left,
              next_page-Cover base size le (omega arith) [] zero_left,
            ),
          )
      | inr more ↦
          let some_left : 0 < size - next = ground (arith, more) in
          let (pages, (ran, cover)) =
            pages_from-Cover fuel (base + next) (size - next) some_left
              (omega (arith, le, multiple)) (omega (arith, le, least)) (omega (arith, le)) in
          (
            next_page base size ∷ pages,
            (
              pages_from-more fuel base size next refl le small pages some_left ran,
              next_page-Cover base size le (omega arith) pages cover,
            ),
          )
    ]

-- An object of some bytes of physical memory gets pages that cover them, rounded up to whole pages,
-- one behind the other from the base on; the loop ends within a round for each 4 KiB. No page is one
-- of the memory manager's. The bytes end at 2^52 at the latest, where physical addresses do.
pub create_physical-Cover :
    (fuel base size : ℕ)
    → 0 < size
    → base + size ≤ 2 ^ 52
    → size ≤ fuel * 4096
    → (object : VmObject) × ((create_physical fuel base size ≡ some object)
        × ((object.size ≡ (size + 4095) / 4096 * 4096)
            × Cover base object.size object.physical_pages))
unfolding create_physical
create_physical-Cover fuel base size some_bytes small enough =
    let rounded = align_up-pow size 12 (omega arith) (omega arith) in
    let (pages, (ran, cover)) =
      pages_from-Cover fuel base (align_up size 4096) (omega (arith, rounded))
        (omega (arith, rounded)) (omega (arith, rounded)) (omega (arith, rounded)) in
    (
      record { physical_pages = pages; size = align_up size 4096 },
      (rw ran refl, (omega (arith, rounded), cover)),
    )
