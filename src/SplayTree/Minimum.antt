-- ===== src/SplayTree/Minimum.antt =====
-- The left child of a node, which `insert` asks of the minimum.
use umbongo.Base.{
  ℕ, ◌≡◌, ◌≢◌, refl, List, ◌∷◌, false, Option, none, some, ◌==◌, Bool-cases, inl, inr, arith,
}
use umbongo.SplayTree.{Node, Tree, null, fork, same_node, or_else, left_child_of}
use umbongo.SplayTree.Splayed.{inorder}
use umbongo.SplayTree.Sorted.{All, All-append}

abbrev pub Fresh : ℕ → List Node → Type 0
Fresh a xs = All (λ n. n.address ≢ a) xs

-- The address is not that of the child that is found.
abbrev Misses : ℕ → ℕ → Tree → Type 0
Misses a b t = same_node (left_child_of a t) b ≡ false

or_else-misses :
    (b : ℕ) (p q : Option Node)
    → same_node p b ≡ false
    → same_node q b ≡ false
    → same_node (or_else p q) b ≡ false
or_else-misses b none q h k = k
or_else-misses b (some n) q h k = h

fork-Misses :
    (a b : ℕ) (l : Tree) (n : Node) (r : Tree)
    → Misses a b l
    → Misses a b r
    → Fresh b (inorder l)
    → Misses a b (fork l n r)
unfolding left_child_of
fork-Misses a b null n r on_left on_right fresh = elim (Bool-cases (n.address == a)) [
  | inl e ↦ rw e refl
  | inr e ↦ rw e on_right
]
fork-Misses a b (fork x m y) n r on_left on_right fresh = elim (Bool-cases (n.address == a)) [
  | inl e ↦
      let here = (All-append (λ k. k.address ≢ b) (inorder x) (m ∷ inorder y) fresh).1.0 in
      rw e (ground (arith, here))
  | inr e ↦
      rw e (or_else-misses b (left_child_of a (fork x m y)) (left_child_of a r) on_left on_right)
]

all-Misses : (a b : ℕ) (t : Tree) → Fresh b (inorder t) → Misses a b t
all-Misses a b null fresh = unfold left_child_of in refl
all-Misses a b (fork l n r) fresh =
    let (on_left, rest) = All-append (λ k. k.address ≢ b) (inorder l) (n ∷ inorder r) fresh in
    fork-Misses a b l n r (all-Misses a b l on_left) (all-Misses a b r rest.1) on_left

-- A root that is fresh among the other nodes is the left child of none.
pub root-Misses :
    (a : ℕ) (l : Tree) (x : Node) (r : Tree)
    → Fresh x.address (inorder l)
    → Fresh x.address (inorder r)
    → same_node (left_child_of a (fork l x r)) x.address ≡ false
root-Misses a l x r low high =
    fork-Misses a x.address l x r (all-Misses a x.address l low) (all-Misses a x.address r high) low
