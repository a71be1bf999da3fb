-- ===== src/SplayTree/Find.antt =====
-- `find_no_splay` and `find`.
use umbongo.Base.{
  ℕ, ◌≡◌, ◌≢◌, refl, sym, ap, ap₂, ◌∙◌, List, [], ◌∷◌, ◌++◌, Option, none, some, ltb, ◌==◌,
  Bool-cases, Option-cases, inl, inr, append_assoc, append-nil, arith,
}
use umbongo.SplayTree.{
  Node, Tree, null, fork, Parent, left_of, right_of, Place, SplayTree, subtree, place, find_from,
  find_no_splay, find,
}
use umbongo.SplayTree.Splayed.{inorder, before, after, splay_lem}
use umbongo.SplayTree.Sorted.{All, append-All, All-imp, IsSorted, IsSorted-Halves}

-- The nodes from left to right of the tree in which the place is.
abbrev pub around : Place → List Node
around p = before p.parents ++ (inorder (subtree p) ++ after p.parents)

-- What a search of a subtree tells.
record Search (key : ℕ) (t : Tree) (above : List Parent) (p : Option Place) : Type 0 where
  hit :
      (q : Place)
      → p ≡ some q
      → (q.node.key ≡ key) × (around q ≡ before above ++ (inorder t ++ after above))
  miss : p ≡ none → All (λ n. n.key ≢ key) (inorder t)

search_lem :
    (key : ℕ) (t : Tree) (above : List Parent)
    → IsSorted (inorder t)
    → Search key t above (find_from key t above)
unfolding find_from
search_lem key null above sorted = record { hit = λ q e. cc; miss = λ e. tt }
search_lem key (fork l n r) above sorted =
    let halves = IsSorted-Halves (inorder l) n (inorder r) sorted in
    elim (Bool-cases (n.key == key)) [
      | inl here ↦ rw here (record {
        hit =
            λ q e. let same : place l n r above ≡ q = cc in ((ground arith), ap around (sym same));
        miss = λ e. absurd (cc e);
      })
      | inr other ↦ elim (Bool-cases (ltb key n.key)) [
        | inl lt ↦
            let deep = search_lem key l (left_of n r ∷ above) halves.low in
            rw other (
              rw lt (record {
                hit = λ q e. ((deep.hit q e).0, (deep.hit q e).1 ∙ simp (append_assoc));
                miss = λ e.
                    append-All (λ m. m.key ≢ key) (inorder l) (n ∷ inorder r) (deep.miss e)
                      (ground arith, All-imp (λ m le same. ground arith) (inorder r) halves.above);
              }))
        | inr ge ↦
            let deep = search_lem key r (right_of n l ∷ above) halves.high in
            rw other (
              rw ge (record {
                hit = λ q e. ((deep.hit q e).0, (deep.hit q e).1 ∙ simp (append_assoc));
                miss = λ e.
                    append-All (λ m. m.key ≢ key) (inorder l) (n ∷ inorder r)
                      (All-imp (λ m le same. ground arith) (inorder l) halves.below)
                      (ground arith, deep.miss e);
              }))
      ]
    ]

-- What `find` tells and leaves: the node is at the root of a tree of the same nodes, or no node
-- has the key.
pub data Found (t : SplayTree) (key : ℕ) : SplayTree → Option Node → Type 0 where
  hit :
      (l r : Tree) (n : Node)
      → n.key ≡ key
      → inorder (fork l n r) ≡ inorder t.root_node
      → Found t key (record t { root_node = fork l n r }) (some n)
  miss : All (λ n. n.key ≢ key) (inorder t.root_node) → Found t key t none

-- `find` in a tree whose nodes stand in the order of their keys passes its checks. It returns no
-- node exactly when no node has the key. A node that it returns has the key and is the root of the
-- tree then, which has the same nodes from left to right and the same minimum.
pub find_lem :
    (t : SplayTree) (key : ℕ)
    → IsSorted (inorder t.root_node)
    → (t' : SplayTree) × (n : Option Node) × (find t key ≡ some (t', n)) × Found t key t' n
unfolding find find_no_splay
find_lem t key sorted =
    let search = search_lem key t.root_node [] sorted in
    elim (Option-cases (find_from key t.root_node [])) [
      | inl e ↦ (t, none, rw (e, find), miss (search.miss e))
      | inr (p, e) ↦
          let up = splay_lem p.left_child p.node p.right_child p.parents in
          let regroup : (before p.parents ++ inorder p.left_child)
                ++ p.node ∷ (inorder p.right_child ++ after p.parents)
              ≡ around p =
            simp (append_assoc) in
          (
            record t { root_node = fork up.left p.node up.right },
            some p.node,
            rw (e, find) (rw up.raised refl),
            hit up.left up.right p.node (search.hit p e).0 (
                ap₂ (λ a b. a ++ p.node ∷ b) up.left_order up.right_order
                ∙ regroup
                ∙ (search.hit p e).1
                ∙ append-nil _),
          )
    ]
