-- ===== src/Posix/Compare.antt =====
-- Comparing two strings tells whether they are the same, and which is first.
use umbongo.Base.{
  ℕ, ◌^◌, ◌<◌, ◌≡◌, ◌↔◌, refl, List, [], ◌∷◌, ◌++◌, Option, some, Bool, true, false, ◌&&◌, ◌||◌,
  ◌==◌, ltb, leb, sub_u32, arith, Bool-cases, inl, inr, ==_iff,
}
use umbongo.Posix.{strcmp}

-- Characters of a string: bytes, and none that ends it.
abbrev pub AreChars : List ℕ → Type 0
AreChars [] = Unit
AreChars (ch ∷ s) = (0 < ch) × (ch < 256) × AreChars s

-- The order of the strings by their first different byte.
abbrev pub is_before : List ℕ → List ℕ → Bool
is_before a [] = false
is_before [] (y ∷ b) = true
is_before (x ∷ a) (y ∷ b) = ltb x y || (x == y && is_before a b)

-- What an `int` tells.
abbrev pub Tells : List ℕ → List ℕ → Option ℕ → Type 0
Tells a b m =
    (order : ℕ) × ((m ≡ some order)
      × (((order ≡ 0) ↔ (a ≡ b)) × ((leb (2 ^ 31) order) ≡ is_before a b)))

cons-eq : (c d : ℕ) (a b : List ℕ) → c ≡ d → a ≡ b → (c ∷ a) ≡ d ∷ b
cons-eq c d a b e e' = cc

head-eq : (c d : ℕ) (a b : List ℕ) → (c ∷ a) ≡ d ∷ b → c ≡ d
head-eq c d a b e = cc

tail-eq : (c d : ℕ) (a b : List ℕ) → (c ∷ a) ≡ d ∷ b → a ≡ b
tail-eq c d a b e = cc

-- The comparison of two terminated strings, whatever lies behind them, is zero exactly if they are
-- the same, and negative exactly if the first one comes before the second in the order of bytes.
pub strcmp-Tells :
    (a b x y : List ℕ) → AreChars a → AreChars b → Tells a b (strcmp (a ++ 0 ∷ x) (b ++ 0 ∷ y))
unfolding strcmp
strcmp-Tells [] [] x y h h' = (0, (refl, ((λ e. refl, λ e. refl), refl)))
strcmp-Tells [] (d ∷ b) x y h (some_char, byte, h') =
    let ends : (0 == d) ≡ false = ground arith in
    (sub_u32 0 d, (rw ends refl, ((λ e. absurd (omega arith), λ e. absurd cc), ground arith)))
strcmp-Tells (c ∷ a) [] x y (some_char, byte, h) h' =
    let ends : (c == 0) ≡ false = ground arith in
    (sub_u32 c 0, (rw ends refl, ((λ e. absurd (omega arith), λ e. absurd cc), ground arith)))
strcmp-Tells (c ∷ a) (d ∷ b) x y (some_char, byte, h) (some_char', byte', h') =
    let (order, (ran, (same, first))) = strcmp-Tells a b x y h h' in
    elim (Bool-cases (c == d)) [
      | inl equal ↦
          let goes_on : (c == 0) ≡ false = ground arith in
          let char : c ≡ d = (==_iff c d).0 equal in
          let iff : (order ≡ 0) ↔ ((c ∷ a) ≡ d ∷ b) =
            (λ e. cons-eq c d a b char (same.0 e), λ e. same.1 (tail-eq c d a b e)) in
          (order, (rw (equal, goes_on) ran, (iff, ground (arith, equal, first))))
      | inr differs ↦
          let iff : (sub_u32 c d ≡ 0) ↔ ((c ∷ a) ≡ d ∷ b) = (
            λ e. absurd (ground (arith, differs, e)),
            λ e. absurd (ground (arith, differs, head-eq c d a b e)),
          ) in
          (sub_u32 c d, (rw differs refl, (iff, ground (arith, differs))))
    ]
