-- ===== src/AddressSpace/Pages.antt =====
-- kernel/mem/physical_page.hh: a page of physical memory, whose address, size and flag are packed
-- into one word.
use Prim.Native.Nat.{bit_and, bit_or}
use umbongo.Base.{
  ℕ, zero, suc, ◌+◌, ◌*◌, ◌/◌, ◌^◌, ◌<◌, ◌≡◌, refl, ap, ◌∙◌, Option, none, some, Bool, false, not,
  ◌==◌, if◌then◌else◌, mul_size, arith,
}
use umbongo.Base.Bits.{bit_and-pow}
use umbongo.Base.Bits.Fields.{bit_and_low, bit_or_shifted, bit_or_zero, bit-lt}

pub data PhysicalPageSize : Type 0 where
  normal : PhysicalPageSize
  large_page : PhysicalPageSize
  huge : PhysicalPageSize

pub record PhysicalPage : Type 0 where
  pub m_phys : ℕ

-- `static_cast` from and to the enumeration; a number behind the last enumerator names none.
abbrev pub page_size_number : PhysicalPageSize → ℕ
page_size_number normal = 0
page_size_number large_page = 1
page_size_number huge = 2

abbrev pub numbered : ℕ → Option PhysicalPageSize
numbered zero = some normal
numbered (suc zero) = some large_page
numbered (suc (suc zero)) = some huge
numbered (suc (suc (suc _))) = none

unfoldable pub physical_page : ℕ → PhysicalPageSize → Bool → PhysicalPage
physical_page phys size allocated = record {
  m_phys =
      bit_or (bit_or phys (mul_size (page_size_number size) (2 ^ 56)))
        (if allocated then 2 ^ 63 else 0);
}

unfoldable pub page_phys : PhysicalPage → ℕ
page_phys page = bit_and page.m_phys 0xfffffffffffff

unfoldable pub page_size : PhysicalPage → Option PhysicalPageSize
page_size page = numbered (bit_and (page.m_phys / 2 ^ 56) 0xf)

unfoldable pub is_allocated : PhysicalPage → Bool
is_allocated page = not (bit_and page.m_phys (2 ^ 63) == 0)

-- `PhysicalPage::create`
unfoldable pub create_page : ℕ → PhysicalPageSize → PhysicalPage
create_page phys size = physical_page phys size false

number-lt : (size : PhysicalPageSize) → page_size_number size < 3
number-lt normal = omega arith
number-lt large_page = omega arith
number-lt huge = omega arith

numbered_lem : (size : PhysicalPageSize) → numbered (page_size_number size) ≡ some size
numbered_lem normal = refl
numbered_lem large_page = refl
numbered_lem huge = refl

-- Reading the fields again.
module _ (phys : ℕ) (size : PhysicalPageSize) (small : phys < 2 ^ 52) where
  create_page-word : (create_page phys size).m_phys ≡ page_size_number size * 2 ^ 56 + phys
  unfolding create_page physical_page
  create_page-word =
      ap (λ t. bit_or (bit_or phys t) 0) (omega (arith, number-lt size))
      ∙ ap (λ t. bit_or t 0) (bit_or_shifted 56 phys (page_size_number size) (omega arith))
      ∙ bit_or_zero 60 _ (omega (arith, number-lt size))

  pub page_phys-create_page : page_phys (create_page phys size) ≡ phys
  unfolding page_phys
  page_phys-create_page = bit_and_low 52 _ ∙ omega (arith, create_page-word)

  pub page_size-create_page : page_size (create_page phys size) ≡ some size
  unfolding page_size
  page_size-create_page =
      ap numbered (bit_and_low 4 _ ∙ omega (arith, create_page-word, number-lt size))
      ∙ numbered_lem size

  pub is_allocated-create_page : is_allocated (create_page phys size) ≡ false
  unfolding is_allocated
  is_allocated-create_page =
      bit_and-pow 63 _ ∙ bit-lt 63 _ (omega (arith, create_page-word, number-lt size))
