-- ===== src/SplayTree/Successor.antt =====
-- `successor`: the next node from left to right.
use umbongo.Base.{
  ◌≡◌, refl, sym, subst, List, [], ◌∷◌, ◌++◌, Option, none, some, append_assoc, append-nil,
}
use umbongo.SplayTree.{
  Node, Tree, null, fork, Parent, left_of, right_of, Place, place, leftmost, first_above, successor,
}
use umbongo.SplayTree.Splayed.{inorder, before, after}

-- The nodes that stand before and after the node of a place.
abbrev pub nodes_before : Place → List Node
nodes_before p = before p.parents ++ inorder p.left_child

abbrev pub nodes_after : Place → List Node
nodes_after p = inorder p.right_child ++ after p.parents

-- What a step from a place tells: the place of the next node, or that there is none.
pub data Next (earlier later : List Node) : Option Place → Type 0 where
  next :
      (q : Place)
      → nodes_before q ≡ earlier
      → later ≡ q.node ∷ nodes_after q
      → Next earlier later (some q)
  last : later ≡ [] → Next earlier later none

leftmost_lem :
    (l : Tree) (n : Node) (r : Tree) (above : List Parent)
    → Next (before above) (inorder (fork l n r) ++ after above) (some (leftmost l n r above))
unfolding leftmost
leftmost_lem null n r above = next _ (append-nil _) refl
leftmost_lem (fork a m b) n r above =
    let regroup : inorder (fork a m b) ++ (n ∷ inorder r ++ after above)
        ≡ inorder (fork (fork a m b) n r) ++ after above =
      simp (append_assoc) in
    subst (λ later. Next (before above) later (some (leftmost a m b (left_of n r ∷ above)))) regroup
      (leftmost_lem a m b (left_of n r ∷ above))

first_above_lem :
    (t : Tree) (above : List Parent)
    → Next (before above ++ inorder t) (after above) (first_above t above)
unfolding first_above
first_above_lem t [] = last refl
first_above_lem t (left_of n b ∷ above) = next _ refl refl
first_above_lem t (right_of n a ∷ above) =
    let regroup : before above ++ inorder (fork a n t)
        ≡ before (right_of n a ∷ above) ++ inorder t =
      simp (append_assoc) in
    subst (λ earlier. Next earlier (after above) (first_above (fork a n t) above)) regroup
      (first_above_lem (fork a n t) above)

step :
    (l : Tree) (n : Node) (r : Tree) (above : List Parent)
    → Next
        (nodes_before (place l n r above) ++ n ∷ [])
        (nodes_after (place l n r above))
        (successor (place l n r above))
unfolding successor
step l n null above =
    subst (λ earlier. Next earlier (after above) (first_above (fork l n null) above))
      (sym (append_assoc (before above) (inorder l) (n ∷ [])))
      (first_above_lem (fork l n null) above)
step l n (fork a m b) above = leftmost_lem a m b (right_of n l ∷ above)

-- `successor` of the node at a place is the node that follows it from left to right, at its place
-- in the same tree. It is null exactly for the last node.
pub successor_lem : (p : Place) → Next (nodes_before p ++ p.node ∷ []) (nodes_after p) (successor p)
successor_lem p = step p.left_child p.node p.right_child p.parents
