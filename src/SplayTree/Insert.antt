-- ===== src/SplayTree/Insert.antt =====
-- `insert`, by the nodes of a tree from left to right.
use umbongo.Base.{
  ◌<◌, ◌≤◌, ◌≡◌, ◌≢◌, refl, sym, ap, ◌∙◌, List, [], ◌∷◌, ◌++◌, true, false, Option, none, some, ltb,
  Bool-cases, inl, inr, append_assoc, append-nil, subst, ap₂, arith,
}
use umbongo.SplayTree.{
  Node, Tree, null, fork, is_null, Parent, left_of, right_of, Place, SplayTree, splay_tree,
  parent_for, link, insert, new_minimum,
}
use umbongo.SplayTree.Splayed.{inorder, before, after, splay_lem}
use umbongo.SplayTree.Sorted.{
  IsSorted, IsSorted-Halves, insert_sorted, insert_sorted-lt, insert_sorted-ge,
  insert_sorted-IsSorted, All-append,
}
use umbongo.SplayTree.Minimum.{Fresh, root-Misses}

-- Where a new node hangs.
record Linked (x : Node) (t : Tree) (above : List Parent) : Type 0 where
  parent : Place
  parents : List Parent
  found : parent_for x.key t above ≡ some parent
  linked : link x parent ≡ some parents
  order :
      before parents ++ x ∷ after parents
      ≡ before above ++ (insert_sorted x (inorder t) ++ after above)
  others : before parents ++ after parents ≡ before above ++ (inorder t ++ after above)

Linked-left :
    (x : Node) (l : Tree) (n : Node) (r : Tree) (above : List Parent)
    → x.key < n.key
    → (is_null l ≡ false → Linked x l (left_of n r ∷ above))
    → Linked x (fork l n r) above
unfolding parent_for link insert_sorted
Linked-left x null n r above lt below = record {
  parent = record { left_child = null; node = n; right_child = r; parents = above };
  parents = left_of n r ∷ above;
  found = ground arith;
  linked = ground arith;
  order =
      ap (λ q. before above ++ (q ++ after above)) (sym (insert_sorted-lt x n [] (inorder r) lt));
  others = refl;
}
Linked-left x (fork a m b) n r above lt below =
    let deep = below refl in
    record {
      parent = deep.parent;
      parents = deep.parents;
      found = ground arith;
      linked = deep.linked;
      others = deep.others ∙ simp (append_assoc);
      order =
          deep.order
          ∙ rw (insert_sorted-lt x n (inorder (fork a m b)) (inorder r) lt) (simp (append_assoc));
    }

Linked-right :
    (x : Node) (l : Tree) (n : Node) (r : Tree) (above : List Parent)
    → n.key ≤ x.key
    → IsSorted (inorder (fork l n r))
    → (is_null r ≡ false → Linked x r (right_of n l ∷ above))
    → Linked x (fork l n r) above
unfolding parent_for link insert_sorted
Linked-right x l n null above ge sorted below = record {
  parent = record { left_child = l; node = n; right_child = null; parents = above };
  parents = right_of n l ∷ above;
  others = simp (append_assoc);
  found = ground arith;
  linked = ground arith;
  order =
      rw (insert_sorted-ge x n (inorder l) [] ge (IsSorted-Halves (inorder l) n [] sorted).below)
        (simp (append_assoc));
}
Linked-right x l n (fork a m b) above ge sorted below =
    let deep = below refl in
    record {
      parent = deep.parent;
      parents = deep.parents;
      found = ground arith;
      linked = deep.linked;
      others = deep.others ∙ simp (append_assoc);
      order =
          deep.order
          ∙ rw
              (insert_sorted-ge x n (inorder l) (inorder (fork a m b)) ge
                (IsSorted-Halves (inorder l) n _ sorted).below)
              (simp (append_assoc));
    }

link_lem :
    (x : Node) (t : Tree) (above : List Parent)
    → IsSorted (inorder t)
    → is_null t ≡ false
    → Linked x t above
link_lem x null above sorted some_node = cc
link_lem x (fork l n r) above sorted some_node =
    let halves = IsSorted-Halves (inorder l) n (inorder r) sorted in
    elim (Bool-cases (ltb x.key n.key)) [
      | inl lt ↦ Linked-left x l n r above (ground arith) (link_lem x l _ halves.low)
      | inr ge ↦ Linked-right x l n r above (ground arith) sorted (link_lem x r _ halves.high)
    ]

-- The tree points at some node as its minimum as soon as it has a node.
pub record IsValid (t : SplayTree) : Type 0 where
  pub sorted : IsSorted (inorder t.root_node)
  pub pointed : is_null t.root_node ≡ false → (n : Node) × (t.minimum_node ≡ some n)

-- What `insert` leaves.
pub record Inserted (x : Node) (t t' : SplayTree) : Type 0 where
  pub left : Tree
  pub right : Tree
  pub root : t'.root_node ≡ fork left x right
  pub order : inorder t'.root_node ≡ insert_sorted x (inorder t.root_node)
  pub valid : IsValid t'
  pub kept :
      (m : Node)
      → is_null t.root_node ≡ false
      → t.minimum_node ≡ some m
      → Fresh x.address (inorder t.root_node)
      → t'.minimum_node ≡ some m
  pub started : is_null t.root_node ≡ true → t'.minimum_node ≡ some x

inserted :
    (x : Node) (root : Tree) (least : Option Node)
    → IsValid (splay_tree root least)
    → (t' : SplayTree) × (insert (splay_tree root least) x ≡ some t')
      × Inserted x (splay_tree root least) t'
unfolding insert
inserted x null least v = (
  splay_tree (fork null x null) (some x),
  (unfold parent_for in refl),
  record {
    left = null;
    right = null;
    root = refl;
    order = (unfold insert_sorted in refl);
    valid = record { sorted = (tt, tt); pointed = λ e. (x, refl) };
    kept = λ m e. absurd (cc e);
    started = λ e. refl;
  },
)
inserted x (fork l n r) none v = absurd (cc (v.pointed refl).1)
inserted x (fork l n r) (some m) v =
    let linked = link_lem x (fork l n r) [] v.sorted refl in
    let up = splay_lem null x null linked.parents in
    let root = fork up.left x up.right in
    let order : inorder root ≡ insert_sorted x (inorder (fork l n r)) =
      ap₂ (λ a b. a ++ x ∷ b) up.left_order up.right_order
      ∙ simp (append-nil) (linked.order ∙ append-nil _) in
    (
      splay_tree root (some (new_minimum x root m)),
      rw (linked.found, insert) (rw linked.linked (rw up.raised refl)),
      record {
        left = up.left;
        right = up.right;
        root = refl;
        order = order;
        valid = record {
          sorted = subst IsSorted (sym order) (insert_sorted-IsSorted x _ v.sorted);
          pointed = λ e. (new_minimum x root m, refl);
        };
        kept = λ k some_node e fresh.
            let apart =
              All-append (λ n. n.address ≢ x.address) (before linked.parents) (after linked.parents)
                (subst (Fresh x.address) (sym (linked.others ∙ append-nil _)) fresh) in
            let root_misses =
              root-Misses m.address up.left x up.right
                (subst (Fresh x.address) (sym (up.left_order ∙ append-nil _)) apart.0)
                (subst (Fresh x.address) (sym up.right_order) apart.1) in
            rw root_misses e;
        started = λ e. absurd (cc e);
      },
    )

-- `insert` into a tree whose nodes stand in the order of their keys passes its checks. The new node
-- is the root after it, and from left to right the tree has the nodes it had, with the new one
-- before the first that has a greater key. So the nodes are in order again. The node that the tree
-- points at as its minimum stays the same from the second node on, also where the new key is
-- smaller, if no node of the tree has the address of the new one.
pub insert_lem :
    (t : SplayTree) (x : Node)
    → IsValid t
    → (t' : SplayTree) × (insert t x ≡ some t') × Inserted x t t'
insert_lem t x v = inserted x t.root_node t.minimum_node v
