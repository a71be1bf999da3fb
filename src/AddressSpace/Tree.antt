-- ===== src/AddressSpace/Tree.antt =====
-- The regions as nodes of the splay tree, and the two lists of regions that stand for it.
use umbongo.Base.{
  ℕ, ◌≡◌, refl, ap, subst, ◌∙◌, List, [], ◌∷◌, ◌++◌, map, true, false, some, ltb, Bool-cases, inl,
  inr, arith,
}
use umbongo.AddressSpace.{VirtualRange, RegionTree, insert_ordered, insert_region}
use umbongo.SplayTree.{Node, Tree, null, fork, is_null, SplayTree, insert}
use umbongo.SplayTree.Splayed.{inorder}
use umbongo.SplayTree.Sorted.{
  insert_sorted, insert_sorted-lt, insert_sorted-ge, IsSorted, IsSorted-Halves,
}
use umbongo.SplayTree.Minimum.{Fresh}
use umbongo.SplayTree.Insert.{IsValid, insert_lem}

-- The range of a region: its key is its base, and its size goes with its address.
abbrev pub range_at : (ℕ → ℕ) → Node → VirtualRange
range_at sizes n = record { base = n.key; size = sizes n.address }

abbrev pub region_tree : List VirtualRange → List VirtualRange → RegionTree
region_tree hidden walked = record { hidden = hidden; walked = walked }

-- The lists that stand for a tree: its nodes in front of the minimum, and those from it on.
pub data Views (sizes : ℕ → ℕ) (t : SplayTree) : RegionTree → Type 0 where
  no_region : is_null t.root_node ≡ true → Views sizes t (region_tree [] [])
  regions :
      (pre : List Node) (m : Node) (post : List Node)
      → inorder t.root_node ≡ pre ++ m ∷ post
      → t.minimum_node ≡ some m
      → Views sizes t (region_tree (map (range_at sizes) pre) (map (range_at sizes) (m ∷ post)))

map-insert_sorted :
    (sizes : ℕ → ℕ) (x : Node) (xs : List Node)
    → map (range_at sizes) (insert_sorted x xs)
      ≡ insert_ordered (range_at sizes x) (map (range_at sizes) xs)
unfolding insert_sorted insert_ordered
map-insert_sorted sizes x [] = refl
map-insert_sorted sizes x (y ∷ ys) = elim (Bool-cases (ltb x.key y.key)) [
  | inl lt ↦ rw lt refl
  | inr ge ↦ rw ge (ap (λ rs. range_at sizes y ∷ rs) (map-insert_sorted sizes x ys))
]

no_nodes : (t : Tree) → is_null t ≡ true → inorder t ≡ []
no_nodes null e = refl
no_nodes (fork l n r) e = cc

some_nodes :
    (t : Tree) (pre : List Node) (m : Node) (post : List Node)
    → inorder t ≡ pre ++ m ∷ post
    → is_null t ≡ false
some_nodes null [] m post e = cc
some_nodes null (y ∷ pre) m post e = cc
some_nodes (fork l n r) pre m post e = refl

-- `insert` of the splay tree does to the regions in front of the minimum and from it on what
-- `insert_region` does to the two lists, if the nodes of the tree stand in the order of their keys,
-- it points at a node as its minimum as soon as it has one, and no node has the address of the new
-- one. Neither fails a check.
pub insert_region-Views :
    (sizes : ℕ → ℕ) (t : SplayTree) (tree : RegionTree) (x : Node)
    → IsValid t
    → Views sizes t tree
    → Fresh x.address (inorder t.root_node)
    → (t' : SplayTree) × (tree' : RegionTree) × (insert t x ≡ some t')
      × (insert_region (range_at sizes x) tree ≡ some tree')
      × Views sizes t' tree'
unfolding insert_region
insert_region-Views sizes t _ x v (no_region e) fresh =
    let (t', done, i) = insert_lem t x v in
    let order : inorder t'.root_node ≡ x ∷ [] =
      i.order ∙ ap (insert_sorted x) (no_nodes t.root_node e) ∙ unfold insert_sorted in refl in
    (t', _, done, refl, regions [] x [] order (i.started e))
insert_region-Views sizes t _ x v (regions pre m post e least) fresh =
    let (t', done, i) = insert_lem t x v in
    let kept = i.kept m (some_nodes t.root_node pre m post e) least fresh in
    let halves = IsSorted-Halves pre m post (subst IsSorted e v.sorted) in
    let order = i.order ∙ ap (insert_sorted x) e in
    elim (Bool-cases (ltb x.key m.key)) [
      | inl lt ↦ (
        t',
        _,
        done,
        rw lt refl,
        subst (λ hidden. Views sizes t' (region_tree hidden (map (range_at sizes) (m ∷ post))))
            (map-insert_sorted sizes x pre)
            (regions (insert_sorted x pre) m post
              (order ∙ insert_sorted-lt x m pre post (ground arith)) kept),
      )
      | inr ge ↦ (
        t',
        _,
        done,
        rw ge refl,
        subst (λ walked. Views sizes t' (region_tree (map (range_at sizes) pre) walked))
            (map-insert_sorted sizes x (m ∷ post))
            (unfold insert_sorted in
              rw ge (
                regions pre m (insert_sorted x post)
                  (order ∙ insert_sorted-ge x m pre post (ground arith) halves.below) kept)),
      )
    ]
