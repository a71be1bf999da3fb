-- ===== src/Base/Vector.antt =====
-- `ustd::Vector`'s index operator as a step that may fail its assertion, and how the writes that
-- make room for an element act on a list.
use Prim.Native.Nat.{ℕ, zero, suc, ◌+◌, ◌<◌}
use mathlib.Core.Path.{◌≡◌, refl, sym, ap, ◌∙◌}
use mathlib.Core.List.{List, [], ◌∷◌, ◌++◌, append_assoc, append-nil}
use mathlib.Core.Option.{Option, some}
use native.Mathlib.Omega.{arith}
use umbongo.Base.Tests.{ltb}
use umbongo.Base.Lists.{
  length, get_elem?, get_or, set, take, drop, replicate, length-append, length-set,
  get_elem?-eq-get_or,
}
use umbongo.Base.Slices.{copy_in, copy_out}
use umbongo.Base.Panic.{◌>>=◌, ◌>>◌, assert}

-- `v[i] = x`
abbrev pub put {ℓ} : {A : Type ℓ} → List A → ℕ → A → Option (List A)
put v i x = assert (ltb i (length v)) >> some (set v i x)

-- `v[to] = v[from]`
abbrev pub move_elem : List ℕ → ℕ → ℕ → Option (List ℕ)
move_elem v to from = get_elem? v from >>= put v to

module _ {ℓ} {A : Type ℓ} where
  pub put-set : (v : List A) (i : ℕ) (x : A) → i < length v → put v i x ≡ some (set v i x)
  put-set v i x h = ground arith

  pub set-append :
      (xs : List A) (z : A) (ys : List A) (n : ℕ) (v : A)
      → n ≡ length xs
      → set (xs ++ z ∷ ys) n v ≡ xs ++ v ∷ ys
  set-append [] z ys zero v e = refl
  set-append [] z ys (suc n) v e = absurd (omega arith)
  set-append (x ∷ xs) z ys zero v e = absurd (omega arith)
  set-append (x ∷ xs) z ys (suc n) v e = ap (λ t. x ∷ t) (set-append xs z ys n v (omega arith))

  pub get_elem?-append :
      (xs : List A) (w : A) (ys : List A) (n : ℕ)
      → n ≡ length xs
      → get_elem? (xs ++ w ∷ ys) n ≡ some w
  get_elem?-append [] w ys zero e = refl
  get_elem?-append [] w ys (suc n) e = absurd (omega arith)
  get_elem?-append (x ∷ xs) w ys zero e = absurd (omega arith)
  get_elem?-append (x ∷ xs) w ys (suc n) e = get_elem?-append xs w ys n (omega arith)

  pub take-append : (xs ys : List A) (n : ℕ) → n ≡ length xs → take n (xs ++ ys) ≡ xs
  take-append [] ys zero e = refl
  take-append [] ys (suc n) e = absurd (omega arith)
  take-append (x ∷ xs) ys zero e = absurd (omega arith)
  take-append (x ∷ xs) ys (suc n) e = ap (λ t. x ∷ t) (take-append xs ys n (omega arith))

  pub drop-append : (xs ys : List A) (n : ℕ) → n ≡ length xs → drop n (xs ++ ys) ≡ ys
  drop-append [] ys zero e = refl
  drop-append [] ys (suc n) e = absurd (omega arith)
  drop-append (x ∷ xs) ys zero e = absurd (omega arith)
  drop-append (x ∷ xs) ys (suc n) e = drop-append xs ys n (omega arith)

  pub drop_cons-append :
      (xs : List A) (w : A) (ys : List A) (n : ℕ) → n ≡ length xs → drop (suc n) (xs ++ w ∷ ys) ≡ ys
  drop_cons-append [] w ys zero e = refl
  drop_cons-append [] w ys (suc n) e = absurd (omega arith)
  drop_cons-append (x ∷ xs) w ys zero e = absurd (omega arith)
  drop_cons-append (x ∷ xs) w ys (suc n) e = drop_cons-append xs w ys n (omega arith)

  -- A list that is not empty, from its end.
  pub last_view :
      (xs : List A) (n : ℕ)
      → length xs ≡ suc n
      → (ys : List A) × (y : A) × (xs ≡ ys ++ y ∷ []) × (length ys ≡ n)
  last_view [] n e = absurd (omega arith)
  last_view (x ∷ []) n e = ([], x, refl, omega arith)
  last_view (x ∷ y ∷ xs) zero e = absurd (omega arith)
  last_view (x ∷ y ∷ xs) (suc n) e =
      let (ys, z, eq, len) = last_view (y ∷ xs) n (omega arith) in
      (x ∷ ys, z, ap (λ t. x ∷ t) eq, omega (arith, len))

  -- A list up to a place in it, and from there.
  pub split_at :
      (xs : List A) (n : ℕ)
      → n < suc (length xs)
      → (ys zs : List A) × (xs ≡ ys ++ zs) × (n ≡ length ys)
  split_at xs zero h = ([], xs, refl, refl)
  split_at [] (suc n) h = absurd (omega arith)
  split_at (x ∷ xs) (suc n) h =
      let (ys, zs, eq, len) = split_at xs n (omega arith) in
      (x ∷ ys, zs, ap (λ t. x ∷ t) eq, ap suc len)

  pub replicate_snoc : (n : ℕ) (a : A) → replicate n a ++ a ∷ [] ≡ a ∷ replicate n a
  replicate_snoc zero a = refl
  replicate_snoc (suc n) a = ap (λ t. a ∷ t) (replicate_snoc n a)

-- The move of the last of `ws` to the place behind it.
pub move_elem-append :
    (xs ws : List ℕ) (w z : ℕ) (ys : List ℕ) (from to : ℕ)
    → from ≡ length xs + length ws
    → to ≡ from + 1
    → move_elem (xs ++ ((ws ++ w ∷ []) ++ z ∷ ys)) to from ≡ some (xs ++ (ws ++ w ∷ w ∷ ys))
move_elem-append xs ws w z ys from to e f =
    let there : xs ++ ((ws ++ w ∷ []) ++ z ∷ ys) ≡ (xs ++ ws) ++ w ∷ z ∷ ys = simp append_assoc in
    let next : (xs ++ ws) ++ w ∷ z ∷ ys ≡ ((xs ++ ws) ++ w ∷ []) ++ z ∷ ys = simp append_assoc in
    let len = length-append xs ws in
    let size = length-append (xs ++ ws) (w ∷ z ∷ ys) in
    rw
      (
        there,
        get_elem?-append (xs ++ ws) w (z ∷ ys) from (omega (arith, len)),
        put-set ((xs ++ ws) ++ w ∷ z ∷ ys) to w (omega (arith, len, size)),
        next,
        set-append ((xs ++ ws) ++ w ∷ []) z ys to w
            (omega (arith, len, length-append (xs ++ ws) (w ∷ []))),
      )
      (ap some (simp append_assoc))

pub move_elem-ne-none :
    (v : List ℕ) (from to : ℕ)
    → from < length v
    → to < length v
    → (u : List ℕ) × (move_elem v to from ≡ some u) × (length u ≡ length v)
move_elem-ne-none v from to h k =
    let x = get_or v from 0 in
    (set v to x, rw (get_elem?-eq-get_or v from 0 h, put-set v to x k), length-set v to x)

module _ {ℓ} {A : Type ℓ} where
  -- `memcpy` at the end of a prefix, onto as many elements as it writes,
  pub copy_in-append :
      (xs vs source ys : List A) (n : ℕ)
      → n ≡ length xs
      → length source ≡ length vs
      → copy_in (xs ++ (vs ++ ys)) n source ≡ xs ++ (source ++ ys)
  unfolding copy_in
  copy_in-append (x ∷ xs) vs source ys zero e f = absurd (omega arith)
  copy_in-append (x ∷ xs) vs source ys (suc n) e f =
      ap (λ t. x ∷ t) (copy_in-append xs vs source ys n (omega arith) f)
  copy_in-append [] vs source ys (suc n) e f = absurd (omega arith)
  copy_in-append [] [] [] [] zero e f = refl
  copy_in-append [] [] [] (y ∷ ys) zero e f = refl
  copy_in-append [] [] (s ∷ source) ys zero e f = absurd (omega arith)
  copy_in-append [] (v ∷ vs) [] ys zero e f = absurd (omega arith)
  copy_in-append [] (v ∷ vs) (s ∷ source) ys zero e f =
      ap (λ t. s ∷ t) (copy_in-append [] vs source ys zero e (omega arith))

  -- and of all that is behind a prefix.
  pub copy_out-suffix :
      (xs ys : List A) (n k : ℕ) → n ≡ length xs → k ≡ length ys → copy_out (xs ++ ys) n k ≡ ys
  unfolding copy_out
  copy_out-suffix xs ys n k e f =
      rw (drop-append xs ys n e) (ap (λ t. take k t) (sym (append-nil ys)) ∙ take-append ys [] k f)
