-- ===== src/AddressSpace/Gaps.antt =====
-- The range that is found is free, and one is found where there is one.
use umbongo.Base.{
  ℕ, ◌+◌, ◌-◌, ◌%◌, ◌^◌, ◌<◌, ◌≤◌, ◌≡◌, refl, sym, subst, ◌∙◌, List, [], ◌∷◌, none, some, Bool,
  true, false, ◌&&◌, ◌||◌, ◌==◌, ltb, leb, arith, Bool-cases, inl, inr,
}
use umbongo.Base.Bits.{align_up, align_up-pow}
use umbongo.AddressSpace.{
  VirtualRange, range_end, total_size, alignment_for, gap_before, range_from,
  allocate_range_anywhere,
}

-- Regions of at least a byte that lie one behind the other, from some address on, in 48 bits.
abbrev pub AreOrdered : ℕ → List VirtualRange → Type 0
AreOrdered from [] = Unit
AreOrdered from (region ∷ regions) =
    (from ≤ region.base)
    × (0 < region.size)
    × (region.base + region.size ≤ 2 ^ 48)
    × AreOrdered (region.base + region.size) regions

abbrev pub is_apart : VirtualRange → VirtualRange → Bool
is_apart a b = leb (a.base + a.size) b.base || leb (b.base + b.size) a.base

abbrev pub is_free : VirtualRange → List VirtualRange → Bool
is_free range [] = true
is_free range (region ∷ regions) = is_apart range region && is_free range regions

-- What rounding up does below 2^48.
abbrev pub Rounds : ℕ → Type 0
Rounds alignment =
    (x : ℕ)
    → x ≤ 2 ^ 48
    → (x ≤ align_up x alignment)
      × (align_up x alignment ≤ 2 ^ 49)
      × (align_up x alignment % alignment ≡ 0)
      × ((b : ℕ) → x ≤ b → b % alignment ≡ 0 → align_up x alignment ≤ b)

Rounds-4096 : Rounds 4096
Rounds-4096 x h =
    let e = align_up-pow x 12 (omega arith) (omega arith) in
    (omega (arith, e), omega (arith, e), omega (arith, e), λ b le aligned. omega (arith, e))

Rounds-2MiB : Rounds (2 ^ 21)
Rounds-2MiB x h =
    let e = align_up-pow x 21 (omega arith) (omega arith) in
    (omega (arith, e), omega (arith, e), omega (arith, e), λ b le aligned. omega (arith, e))

Rounds-1GiB : Rounds (2 ^ 30)
Rounds-1GiB x h =
    let e = align_up-pow x 30 (omega arith) (omega arith) in
    (omega (arith, e), omega (arith, e), omega (arith, e), λ b le aligned. omega (arith, e))

pub alignment-cases :
    (P : ℕ → Type 0) (size : ℕ) → P 4096 → P (2 ^ 21) → P (2 ^ 30) → P (alignment_for size)
alignment-cases P size p p' p'' = elim (Bool-cases (leb (2 ^ 30) size)) [
  | inl huge ↦ subst P (sym (rw huge refl)) p''
  | inr less ↦ elim (Bool-cases (leb (2 ^ 21) size)) [
    | inl large ↦ subst P (sym (rw (less, large) refl)) p'
    | inr small ↦ subst P (sym (rw (less, small) refl)) p
  ]
]

pub alignment_for-Rounds : (size : ℕ) → Rounds (alignment_for size)
alignment_for-Rounds size = alignment-cases Rounds size Rounds-4096 Rounds-2MiB Rounds-1GiB

behind-is_free :
    (range : VirtualRange) (from : ℕ) (regions : List VirtualRange)
    → range.base + range.size ≤ from
    → AreOrdered from regions
    → is_free range regions ≡ true
behind-is_free range from [] h ordered = refl
behind-is_free range from (region ∷ regions) h (at, some_bytes, inside, ordered) =
    ground (arith, behind-is_free range (region.base + region.size) regions)

-- What is asked of the range that is found behind `from`.
abbrev Found : ℕ → ℕ → ℕ → List VirtualRange → VirtualRange → Type 0
Found size alignment from regions range =
    (range.size ≡ size)
    × (from ≤ range.base)
    × (0 < range.base)
    × (range.base % alignment ≡ 0)
    × (range.base + size ≤ 2 ^ 48)
    × (is_free range regions ≡ true)

-- The test of the loop.
abbrev pub fits_before : ℕ → ℕ → VirtualRange → Bool
fits_before size previous region =
    ltb previous region.base
    && (leb size (region.base - previous)
        && ltb (range_end (gap_before previous region)) total_size)

-- The cases of the loop.
module _ (size alignment previous : ℕ) where
  pub range_from-end :
      (ltb previous total_size && leb size (total_size - previous)) ≡ true
      → range_from size alignment previous [] ≡ some (record { base = previous; size = size })
  unfolding range_from
  range_from-end fits = rw fits refl

  pub range_from-full :
      (ltb previous total_size && leb size (total_size - previous)) ≡ false
      → range_from size alignment previous [] ≡ none
  unfolding range_from
  range_from-full full = rw full refl

  pub range_from-before :
      (region : VirtualRange) (regions : List VirtualRange)
      → fits_before size previous region ≡ true
      → range_from size alignment previous (region ∷ regions)
        ≡ some (record { base = previous; size = size })
  unfolding range_from
  range_from-before region regions fits = rw fits refl

  pub range_from-behind :
      (region : VirtualRange) (regions : List VirtualRange)
      → region.base + region.size < 2 ^ 64
      → fits_before size previous region ≡ false
      → range_from size alignment previous (region ∷ regions)
        ≡ range_from size alignment (align_up (region.base + region.size) alignment) regions
  unfolding range_from
  range_from-behind region regions small full =
      let end : range_end region ≡ region.base + region.size = omega arith in rw (full, end) refl

range_from-Found :
    (size alignment previous from : ℕ) (regions : List VirtualRange) (range : VirtualRange)
    → Rounds alignment
    → AreOrdered from regions
    → from ≤ previous
    → previous ≤ 2 ^ 49
    → 0 < previous
    → previous % alignment ≡ 0
    → range_from size alignment previous regions ≡ some range
    → Found size alignment from regions range
range_from-Found size alignment previous from [] range rounds ordered h small positive aligned
      found =
    elim (Bool-cases (ltb previous total_size && leb size (total_size - previous))) [
      | inl fits ↦
          let here : VirtualRange = record { base = previous; size = size } in
          let same : here ≡ range = cc (range_from-end size alignment previous fits) in
          subst (Found size alignment from []) same (refl, h, positive, aligned, ground arith, refl)
      | inr full ↦ absurd (cc (range_from-full size alignment previous full))
    ]
range_from-Found size alignment previous from (region ∷ regions) range rounds
      (at, some_bytes, inside, ordered) h small positive aligned found =
    let (up, low, multiple, least) = rounds (region.base + region.size) inside in
    let rest =
      range_from-Found size alignment (align_up (region.base + region.size) alignment)
        (region.base + region.size) regions range rounds ordered up low (omega (arith, up))
        multiple in
    elim (Bool-cases (fits_before size previous region)) [
      | inl fits ↦
          let here : VirtualRange = record { base = previous; size = size } in
          let same : here ≡ range =
            cc (range_from-before size alignment previous region regions fits) in
          let behind : is_free here regions ≡ true =
            behind-is_free here (region.base + region.size) regions (ground arith) ordered in
          let free : is_free here (region ∷ regions) ≡ true = ground (arith, behind) in
          subst (Found size alignment from (region ∷ regions)) same
            (refl, h, positive, aligned, ground arith, free)
      | inr full ↦
          let later = rest (
            sym (range_from-behind size alignment previous region regions (omega arith) full)
            ∙ found) in
          (later.0, omega (arith, later.1), later.2, later.3, later.4, ground (arith, later))
    ]

pub alignment_for-le :
    (size : ℕ)
    → (0 < alignment_for size)
      × (alignment_for size ≤ 2 ^ 30)
      × (alignment_for size % alignment_for size ≡ 0)
alignment_for-le size =
    alignment-cases (λ a. (0 < a) × (a ≤ 2 ^ 30) × (a % a ≡ 0)) size
      (omega arith, omega arith, refl) (omega arith, omega arith, refl)
      (omega arith, omega arith, refl)

asked :
    (size : ℕ) (regions : List VirtualRange) (range : VirtualRange)
    → allocate_range_anywhere size regions ≡ some range
    → range_from size (alignment_for size) (alignment_for size) regions ≡ some range
unfolding allocate_range_anywhere
asked size regions range found = elim (Bool-cases (size % 4096 == 0)) [
  | inl whole ↦ cc
  | inr torn ↦ ground (arith, torn, found)
]

-- The range that is given has the size asked for, is aligned to the largest page that is not larger,
-- lies in 48 bits and not at null, and is apart from every region that is walked. These are of at
-- least a byte each and lie one behind the other.
pub allocate_range_anywhere_lem :
    (size : ℕ) (regions : List VirtualRange) (range : VirtualRange)
    → AreOrdered 0 regions
    → allocate_range_anywhere size regions ≡ some range
    → (range.size ≡ size)
      × (0 < range.base)
      × (range.base % alignment_for size ≡ 0)
      × (range.base + size ≤ 2 ^ 48)
      × (is_free range regions ≡ true)
allocate_range_anywhere_lem size regions range ordered found =
    let (positive, low, aligned) = alignment_for-le size in
    let (same, _, base, multiple, inside, free) =
      range_from-Found size (alignment_for size) (alignment_for size) 0 regions range
        (alignment_for-Rounds size) ordered (omega arith) (omega (arith, low)) positive aligned
        (asked size regions range found) in
    (same, base, multiple, inside, free)
