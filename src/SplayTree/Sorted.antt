-- ===== src/SplayTree/Sorted.antt =====
-- Lists of nodes in the order of their keys, as what a tree is from left to right.
use umbongo.Base.{
  ◌≤◌, ◌<◌, ◌≡◌, List, [], ◌∷◌, ◌++◌, ltb, if◌then◌else◌, Bool-cases, inl, inr, arith,
}
use umbongo.SplayTree.{Node}

abbrev pub All : (Node → Type 0) → List Node → Type 0
All P [] = Unit
All P (x ∷ xs) = P x × All P xs

abbrev pub IsSorted : List Node → Type 0
IsSorted [] = Unit
IsSorted (x ∷ xs) = All (λ y. x.key ≤ y.key) xs × IsSorted xs

-- A node goes before the first that has a greater key.
unfoldable pub insert_sorted : Node → List Node → List Node
insert_sorted x [] = x ∷ []
insert_sorted x (y ∷ ys) = if ltb x.key y.key then x ∷ y ∷ ys else y ∷ insert_sorted x ys

pub All-append : (P : Node → Type 0) (xs ys : List Node) → All P (xs ++ ys) → All P xs × All P ys
All-append P [] ys h = (tt, h)
All-append P (x ∷ xs) ys h = let (a, b) = All-append P xs ys h.1 in ((h.0, a), b)

pub append-All : (P : Node → Type 0) (xs ys : List Node) → All P xs → All P ys → All P (xs ++ ys)
append-All P [] ys h k = k
append-All P (x ∷ xs) ys h k = (h.0, append-All P xs ys h.1 k)

pub All-imp :
    {P Q : Node → Type 0} → ((x : Node) → P x → Q x) → (xs : List Node) → All P xs → All Q xs
All-imp f [] h = tt
All-imp f (x ∷ xs) h = (f x h.0, All-imp f xs h.1)

-- The two sides of a node of a sorted list.
pub record Halves (xs : List Node) (n : Node) (ys : List Node) : Type 0 where
  pub low : IsSorted xs
  pub below : All (λ y. y.key ≤ n.key) xs
  pub above : All (λ y. n.key ≤ y.key) ys
  pub high : IsSorted ys

pub IsSorted-Halves :
    (xs : List Node) (n : Node) (ys : List Node) → IsSorted (xs ++ n ∷ ys) → Halves xs n ys
IsSorted-Halves [] n ys h = record { low = tt; below = tt; above = h.0; high = h.1 }
IsSorted-Halves (x ∷ xs) n ys h =
    let rest = IsSorted-Halves xs n ys h.1 in
    let (a, b) = All-append (λ y. x.key ≤ y.key) xs (n ∷ ys) h.0 in
    record { low = (a, rest.low); below = (b.0, rest.below); above = rest.above; high = rest.high }

pub Halves-IsSorted :
    (xs : List Node) (n : Node) (ys : List Node) → Halves xs n ys → IsSorted (xs ++ n ∷ ys)
Halves-IsSorted [] n ys h = (h.above, h.high)
Halves-IsSorted (x ∷ xs) n ys h = (
  append-All (λ y. x.key ≤ y.key) xs (n ∷ ys) h.low.0
      (h.below.0, All-imp (λ y le. omega (arith, h.below.0)) ys h.above),
  Halves-IsSorted xs n ys
      (record { low = h.low.1; below = h.below.1; above = h.above; high = h.high }),
)

pub insert_sorted-lt :
    (x n : Node) (xs ys : List Node)
    → x.key < n.key
    → insert_sorted x (xs ++ n ∷ ys) ≡ insert_sorted x xs ++ n ∷ ys
unfolding insert_sorted
insert_sorted-lt x n [] ys h = ground arith
insert_sorted-lt x n (y ∷ xs) ys h = ground (arith, insert_sorted-lt x n xs ys h)

pub insert_sorted-ge :
    (x n : Node) (xs ys : List Node)
    → n.key ≤ x.key
    → All (λ y. y.key ≤ n.key) xs
    → insert_sorted x (xs ++ n ∷ ys) ≡ xs ++ n ∷ insert_sorted x ys
unfolding insert_sorted
insert_sorted-ge x n [] ys h a = ground arith
insert_sorted-ge x n (y ∷ xs) ys h a = ground (arith, insert_sorted-ge x n xs ys h a.1)

All-insert_sorted :
    (P : Node → Type 0) (x : Node) (xs : List Node) → P x → All P xs → All P (insert_sorted x xs)
unfolding insert_sorted
All-insert_sorted P x [] p a = (p, tt)
All-insert_sorted P x (y ∷ xs) p a = ground (arith, All-insert_sorted P x xs p a.1)

pub insert_sorted-IsSorted :
    (x : Node) (xs : List Node) → IsSorted xs → IsSorted (insert_sorted x xs)
unfolding insert_sorted
insert_sorted-IsSorted x [] h = (tt, tt)
insert_sorted-IsSorted x (y ∷ xs) h = elim (Bool-cases (ltb x.key y.key)) [
  | inl lt ↦ rw lt ((ground arith, All-imp (λ z le. ground arith) xs h.0), h)
  | inr ge ↦ rw ge (
    All-insert_sorted (λ z. y.key ≤ z.key) x xs (ground arith) h.0,
    insert_sorted-IsSorted x xs h.1,
  )
]
