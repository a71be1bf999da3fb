-- ===== src/SplayTree/Remove.antt =====
-- `remove`, by the nodes of a tree from left to right.
use umbongo.Base.{
  ℕ, ◌≡◌, ◌≢◌, refl, sym, ap, ap₂, subst, ◌∙◌, List, [], ◌∷◌, ◌++◌, true, false, not, ◌||◌, Option,
  none, some, ==_iff, append_assoc, append-nil, arith,
}
use umbongo.SplayTree.{
  Node, Tree, null, fork, is_null, Parent, left_of, right_of, hang, Place, place, subtree,
  SplayTree, splay_tree, same_node, node_of, is_none, next_minimum, join, remove,
}
use umbongo.SplayTree.Splayed.{inorder, before, after, splay_lem}
use umbongo.SplayTree.Minimum.{Fresh}
use umbongo.SplayTree.Successor.{nodes_before, nodes_after, Next, next, last, successor_lem}

abbrev pub first : List Node → Option Node
first [] = none
first (x ∷ xs) = some x

-- The whole tree around a subtree.
abbrev pub plug : Tree → List Parent → Tree
plug t [] = t
plug t (p ∷ parents) = plug (hang p t) parents

-- The place is one of the tree.
abbrev pub IsPlaceOf : SplayTree → Place → Type 0
IsPlaceOf t p = plug (subtree p) p.parents ≡ t.root_node

inorder-plug :
    (t : Tree) (parents : List Parent)
    → inorder (plug t parents) ≡ before parents ++ (inorder t ++ after parents)
inorder-plug t [] = sym (append-nil _)
inorder-plug t (left_of n b ∷ parents) = inorder-plug (fork t n b) parents ∙ simp (append_assoc)
inorder-plug t (right_of n a ∷ parents) = inorder-plug (fork a n t) parents ∙ simp (append_assoc)

pub inorder-place :
    (t : SplayTree) (p : Place)
    → IsPlaceOf t p
    → inorder t.root_node ≡ nodes_before p ++ p.node ∷ nodes_after p
inorder-place t p e = ap inorder (sym e) ∙ inorder-plug (subtree p) p.parents ∙ simp (append_assoc)

inorder-join : (l r : Tree) → inorder (join l r) ≡ inorder l ++ inorder r
unfolding join
inorder-join null r = refl
inorder-join (fork a n b) r = simp (inorder-join b r, append_assoc)

node_of-Next :
    {earlier later : List Node} {q : Option Place} → Next earlier later q → node_of q ≡ first later
node_of-Next (next q e f) = ap first (sym f)
node_of-Next (last f) = ap first (sym f)

first-append :
    (xs : List Node) (x : Node) (ys zs : List Node)
    → first (xs ++ x ∷ ys) ≡ first ((xs ++ x ∷ ys) ++ zs)
first-append [] x ys zs = refl
first-append (y ∷ xs) x ys zs = refl

not_same :
    (xs : List Node) (x : Node) (ys : List Node) (a : ℕ)
    → Fresh a (xs ++ x ∷ ys)
    → same_node (first (xs ++ x ∷ ys)) a ≡ false
not_same [] x ys a h = ground (arith, h.0)
not_same (y ∷ xs) x ys a h = ground (arith, h.0)

next_minimum_lem :
    (l : Tree) (x : Node) (r : Tree) (least : Option Node)
    → Fresh x.address (inorder l)
    → least ≡ first (inorder (fork l x r))
    → next_minimum (place l x r []) least ≡ some (first (inorder l ++ inorder r))
next_minimum_lem null x r least fresh e = rw e (
    rw ((==_iff x.address x.address).1 refl) (
      ap some
        (node_of-Next (successor_lem (place null x r [])) ∙ ap first (append-nil (inorder r)))))
next_minimum_lem (fork a m b) x r least fresh e =
    let xs = inorder a in
    let own : least ≡ first (xs ++ m ∷ inorder b) =
      e ∙ sym (first-append xs m (inorder b) (x ∷ inorder r)) in
    rw own (
      rw (not_same xs m (inorder b) x.address fresh)
        (ap some (first-append xs m (inorder b) (inorder r))))

-- A tree with no node has no minimum.
emptied : (t : Tree) → (not (is_null t) || is_none (first (inorder t))) ≡ true
emptied null = refl
emptied (fork l n r) = refl

-- What `remove` leaves.
pub record Removed (p : Place) (t' : SplayTree) : Type 0 where
  pub order : inorder t'.root_node ≡ nodes_before p ++ nodes_after p
  pub minimum : t'.minimum_node ≡ first (inorder t'.root_node)

-- `remove` of a node at its place in a tree passes its checks if the tree points at its first node
-- as the minimum and the addresses of the nodes before the place differ from the node's. It leaves
-- the nodes that stood before it and after it, in their order, and points at the first of them as
-- the minimum.
pub remove_lem :
    (t : SplayTree) (p : Place)
    → IsPlaceOf t p
    → t.minimum_node ≡ first (inorder t.root_node)
    → Fresh p.node.address (nodes_before p)
    → (t' : SplayTree) × (remove t p ≡ some t') × Removed p t'
unfolding remove
remove_lem t p holds least fresh =
    let x = p.node in
    let up = splay_lem p.left_child x p.right_child p.parents in
    let whole : inorder (fork up.left x up.right) ≡ inorder t.root_node =
      ap₂ (λ a b. a ++ x ∷ b) up.left_order up.right_order ∙ sym (inorder-place t p holds) in
    let chosen =
      next_minimum_lem up.left x up.right t.minimum_node
        (subst (Fresh x.address) (sym up.left_order) fresh) (least ∙ ap first (sym whole)) in
    let root = join up.left up.right in
    let order = inorder-join up.left up.right in
    (
      splay_tree root (first (inorder root)),
      rw (up.raised, remove) (rw (chosen, remove) (rw (sym order) (rw (emptied root) refl))),
      record { order = order ∙ ap₂ ◌++◌ up.left_order up.right_order; minimum = refl },
    )

-- A left child means that nodes stand before.
kept_below :
    (p : Place) → nodes_before p ≢ [] → (l : Tree) → inorder l ≡ nodes_before p → is_null l ≡ false
kept_below p some_before null e = absurd (some_before (sym e))
kept_below p some_before (fork a m b) e = refl

-- `remove` of the node that the tree points at as its minimum fails a check if a node stands
-- before it.
pub remove-eq-none :
    (t : SplayTree) (p : Place)
    → same_node t.minimum_node p.node.address ≡ true
    → nodes_before p ≢ []
    → remove t p ≡ none
unfolding remove
remove-eq-none t p same some_before =
    let up = splay_lem p.left_child p.node p.right_child p.parents in
    rw (up.raised, remove)
      (rw (same, remove) (rw (kept_below p some_before up.left up.left_order) refl))
