-- ===== src/Strings.antt =====
-- ustd/string_view.{hh,cc} and ustd/string_cast.hh: views of bytes, their comparison, and numbers read
-- from text. A view that leaves the memory of its string has no result.
pub mod Cast
pub mod Builder
mod Tests
use umbongo.Base.{
  ℕ, ◌+◌, ◌-◌, List, [], ◌∷◌, Option, none, some, Bool, true, false, ◌&&◌, ◌==◌, leb, length, take,
  drop, add_size, sub_size, ◌≡◌, ◌↔◌, refl, ap, arith, if◌then◌else◌,
}
use umbongo.Base.Panic.{◌>>◌, assert}

-- `memcmp(a, b, n) == 0` of as many bytes as both have.
abbrev pub same_bytes : List ℕ → List ℕ → Bool
same_bytes [] [] = true
same_bytes (x ∷ a) (y ∷ b) = x == y && same_bytes a b
same_bytes _ _ = false

-- `operator==` of two views, whose data are not null.
unfoldable pub same_view : List ℕ → List ℕ → Bool
same_view a b = if length a == length b then same_bytes a b else false

pub same_bytes_iff : (a b : List ℕ) → (same_bytes a b ≡ true) ↔ (a ≡ b)
same_bytes_iff [] [] = (λ h. refl, λ h. refl)
same_bytes_iff [] (y ∷ b) = (λ h. cc, λ h. cc)
same_bytes_iff (x ∷ a) [] = (λ h. cc, λ h. cc)
same_bytes_iff (x ∷ a) (y ∷ b) = ground (arith, same_bytes_iff a b)

pub same_view_iff : (a b : List ℕ) → (same_view a b ≡ true) ↔ (a ≡ b)
unfolding same_view
same_view_iff a b = (
  λ h. ground (arith, same_bytes_iff a b, h),
  λ h. ground (arith, same_bytes_iff a b, h, ap length h),
)

-- `substr(begin, end)`: the assertion, and that the view lies in the string.
unfoldable pub substr : ℕ → ℕ → List ℕ → Option (List ℕ)
substr begin end s =
    assert (leb (add_size begin (sub_size end begin)) (length s))
    >> assert (leb (begin + sub_size end begin) (length s))
    >> some (take (sub_size end begin) (drop begin s))

-- `substr(begin)`
unfoldable pub substr_from : ℕ → List ℕ → Option (List ℕ)
unfolding substr
substr_from begin s = substr begin (length s) s
