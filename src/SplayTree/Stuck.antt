-- ===== src/SplayTree/Stuck.antt =====
-- `insert` below the minimum, and `remove` of what was the minimum.
use umbongo.Base.{
  ◌<◌, ◌≡◌, ◌≢◌, refl, sym, ap, ◌∙◌, List, [], ◌∷◌, ◌++◌, false, none, some, ==_iff, arith, subst,
}
use umbongo.SplayTree.{Node, fork, is_null, Tree, null, Place, SplayTree, insert, remove}
use umbongo.SplayTree.Splayed.{inorder}
use umbongo.SplayTree.Sorted.{insert_sorted}
use umbongo.SplayTree.Minimum.{Fresh}
use umbongo.SplayTree.Insert.{IsValid, insert_lem}
use umbongo.SplayTree.Remove.{IsPlaceOf, inorder-place, remove-eq-none}
use umbongo.SplayTree.Successor.{nodes_before, nodes_after}

insert_sorted-first :
    (x m : Node) (xs : List Node) → x.key < m.key → insert_sorted x (m ∷ xs) ≡ x ∷ m ∷ xs
unfolding insert_sorted
insert_sorted-first x m xs lt = ground arith

has_node : (t : Tree) (m : Node) (xs : List Node) → inorder t ≡ m ∷ xs → is_null t ≡ false
has_node null m xs e = absurd (cc e)
has_node (fork l n r) m xs e = refl

-- The node with the smaller key stands before.
not_first :
    (xs ys rest : List Node) (x m : Node) → x.key < m.key → x ∷ rest ≡ xs ++ m ∷ ys → xs ≢ []
not_first [] ys rest x m lt e f = let same : x ≡ m = cc in omega (arith, ap (λ n. n.key) same)
not_first (z ∷ xs) ys rest x m lt e f = cc

-- In a valid tree that points at its first node as the minimum, insert a node with a smaller key
-- and an address of its own. Then `remove` of the old first node, wherever it is in the tree by
-- then, fails a check.
pub remove-insert :
    (t : SplayTree) (x m : Node) (rest : List Node)
    → IsValid t
    → inorder t.root_node ≡ m ∷ rest
    → t.minimum_node ≡ some m
    → x.key < m.key
    → Fresh x.address (m ∷ rest)
    → (t' : SplayTree) × (insert t x ≡ some t')
      × ((p : Place) → IsPlaceOf t' p → p.node ≡ m → remove t' p ≡ none)
remove-insert t x m rest v nodes least lt fresh =
    let (t', done, inserted) = insert_lem t x v in
    let kept =
      inserted.kept m (has_node t.root_node m rest nodes) least
        (subst (Fresh x.address) (sym nodes) fresh) in
    let order : x ∷ m ∷ rest ≡ inorder t'.root_node =
      sym (inserted.order ∙ ap (insert_sorted x) nodes ∙ insert_sorted-first x m rest lt) in
    (
      t',
      done,
      λ p holds same.
          remove-eq-none t' p (rw kept (rw same ((==_iff m.address m.address).1 refl))) (
            not_first (nodes_before p) (nodes_after p) (m ∷ rest) x m lt (
              order
              ∙ inorder-place t' p holds
              ∙ ap (λ n. nodes_before p ++ n ∷ nodes_after p) same)),
    )
