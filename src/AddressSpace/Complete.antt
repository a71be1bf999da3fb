-- ===== src/AddressSpace/Complete.antt =====
-- A range is found wherever there is one.
use umbongo.Base.{
  ℕ, ◌+◌, ◌%◌, ◌^◌, ◌<◌, ◌≤◌, ◌≡◌, ◌∙◌, List, [], ◌∷◌, some, true, false, ◌==◌, leb, arith,
  Bool-cases, inl, inr,
}
use umbongo.Base.Bits.{align_up}
use umbongo.AddressSpace.{
  VirtualRange, range_end, alignment_for, gap_before, range_from, allocate_range_anywhere,
}
use umbongo.AddressSpace.Gaps.{
  AreOrdered, is_apart, is_free, Rounds, alignment-cases, alignment_for-Rounds, fits_before,
  range_from-end, range_from-before, range_from-behind,
}

-- A candidate that does not fit in front of a region lies behind it.
not_before :
    (size previous : ℕ) (region candidate : VirtualRange)
    → candidate.size ≡ size
    → 0 < size
    → previous ≤ candidate.base
    → region.base + region.size ≤ 2 ^ 48
    → fits_before size previous region ≡ false
    → 0 < region.size
    → is_apart candidate region ≡ true
    → region.base + region.size ≤ candidate.base
not_before size previous region candidate same some_bytes h low full filled apart =
    elim (Bool-cases (leb (candidate.base + candidate.size) region.base)) [
      | inl before ↦
          let end : range_end (gap_before previous region) ≡ region.base = ground (arith, before) in
          absurd (ground (arith, before, end, full))
      | inr after ↦ ground (arith, after)
    ]

-- The first multiple of an alignment behind null is it.
first : (size b : ℕ) → 0 < b → b % alignment_for size ≡ 0 → alignment_for size ≤ b
first size =
    alignment-cases (λ a. (b : ℕ) → 0 < b → b % a ≡ 0 → a ≤ b) size (λ b h e. omega arith)
      (λ b h e. omega arith) (λ b h e. omega arith)

range_from-ne-none :
    (size alignment previous from : ℕ) (regions : List VirtualRange) (candidate : VirtualRange)
    → Rounds alignment
    → AreOrdered from regions
    → 0 < size
    → candidate.size ≡ size
    → previous ≤ candidate.base
    → candidate.base % alignment ≡ 0
    → candidate.base + size ≤ 2 ^ 48
    → is_free candidate regions ≡ true
    → (range : VirtualRange) × (range_from size alignment previous regions ≡ some range)
range_from-ne-none size alignment previous from [] candidate rounds ordered some_bytes same h
      aligned inside free =
    (record { base = previous; size = size }, range_from-end size alignment previous (ground arith))
range_from-ne-none size alignment previous from (region ∷ regions) candidate rounds
      (at, filled, low, ordered) some_bytes same h aligned inside free =
    let (up, small, multiple, least) = rounds (region.base + region.size) low in
    let rest =
      range_from-ne-none size alignment (align_up (region.base + region.size) alignment)
        (region.base + region.size) regions candidate rounds ordered some_bytes same in
    elim (Bool-cases (fits_before size previous region)) [
      | inl fits ↦ (
        record { base = previous; size = size },
        range_from-before size alignment previous region regions fits,
      )
      | inr full ↦
          let behind : region.base + region.size ≤ candidate.base =
            not_before size previous region candidate same some_bytes h low full filled
              (ground arith) in
          let (range, found) =
            rest (least candidate.base behind aligned) aligned inside (ground arith) in
          (
            range,
            range_from-behind size alignment previous region regions (omega arith) full ∙ found,
          )
    ]

-- A range is found if there is one of the size, aligned as it is to be and not at null, in 48 bits
-- and apart from every region that is walked. The size is a multiple of 4096 and not zero, and the
-- regions are of at least a byte each and lie one behind the other.
pub allocate_range_anywhere-ne-none :
    (size : ℕ) (regions : List VirtualRange) (candidate : VirtualRange)
    → AreOrdered 0 regions
    → 0 < size
    → size % 4096 ≡ 0
    → candidate.size ≡ size
    → 0 < candidate.base
    → candidate.base % alignment_for size ≡ 0
    → candidate.base + size ≤ 2 ^ 48
    → is_free candidate regions ≡ true
    → (range : VirtualRange) × (allocate_range_anywhere size regions ≡ some range)
unfolding allocate_range_anywhere
allocate_range_anywhere-ne-none size regions candidate ordered some_bytes whole same positive
      aligned inside free =
    let test : (size % 4096 == 0) ≡ true = ground arith in
    let (range, found) =
      range_from-ne-none size (alignment_for size) (alignment_for size) 0 regions candidate
        (alignment_for-Rounds size) ordered some_bytes same
        (first size candidate.base positive aligned) aligned inside free in
    (range, rw test found)
