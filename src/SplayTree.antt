-- ===== src/SplayTree.antt =====
-- ustd/splay_tree.hh. A node is its address and its key. The tree hangs by child links, and a node
-- in it is met as a place: the node with its children, and the nodes above it by its parent links.
pub mod Splayed
pub mod Sorted
pub mod Insert
pub mod Find
pub mod Remove
pub mod Minimum
pub mod Successor
pub mod Stuck
mod Tests
use umbongo.Base.{
  ℕ, ◌≡◌, List, [], ◌∷◌, ◌++◌, Bool, true, false, not, ◌||◌, Option, none, some, ◌==◌, ltb,
  if◌then◌else◌,
}
use umbongo.Base.Panic.{◌>>=◌, ◌>>◌, assert}

pub record Node : Type 0 where
  pub address : ℕ
  pub key : ℕ

pub data Direction : Type 0 where
  left_side right_side : Direction

pub data Tree : Type 0 where
  null : Tree
  fork : Tree → Node → Tree → Tree

-- A parent: which child of it is meant, the node, and its other child.
pub data Parent : Type 0 where
  left_of : Node → Tree → Parent
  right_of : Node → Tree → Parent

pub record Place : Type 0 where
  pub left_child : Tree
  pub node : Node
  pub right_child : Tree
  pub parents : List Parent

abbrev pub place : Tree → Node → Tree → List Parent → Place
place l n r above = record { left_child = l; node = n; right_child = r; parents = above }

pub record SplayTree : Type 0 where
  pub root_node : Tree
  pub minimum_node : Option Node

abbrev pub splay_tree : Tree → Option Node → SplayTree
splay_tree root least = record { root_node = root; minimum_node = least }

-- A subtree that hangs from its parent.
abbrev pub hang : Parent → Tree → Tree
hang (left_of n other) t = fork t n other
hang (right_of n other) t = fork other n t

abbrev pub is_null : Tree → Bool
is_null null = true
is_null (fork _ _ _) = false

-- `rotate<Dir>` of the node at the head of a subtree; what holds the subtree takes the pivot.
unfoldable pub rotate : Direction → Tree → Option Tree
rotate right_side (fork (fork a pivot b) n c) = some (fork a pivot (fork b n c))
rotate left_side (fork a n (fork b pivot c)) = some (fork (fork a n b) pivot c)
rotate _ _ = none

-- One round of `splay` below a grandparent. The second rotation is of the node's parent by then.
splay_round : Tree → Parent → Parent → Option Tree
splay_round t (left_of n b) (left_of m c) =
    rotate right_side (hang (left_of m c) (hang (left_of n b) t)) >>= rotate right_side
splay_round t (right_of n a) (right_of m c) =
    rotate left_side (hang (right_of m c) (hang (right_of n a) t)) >>= rotate left_side
splay_round t (left_of n b) (right_of m c) =
    rotate right_side (hang (left_of n b) t) >>= λ u. rotate left_side (hang (right_of m c) u)
splay_round t (right_of n a) (left_of m c) =
    rotate left_side (hang (right_of n a) t) >>= λ u. rotate right_side (hang (left_of m c) u)

-- The node at the head of the subtree goes up until it has no parent. What is left is the root.
unfoldable pub splay : Tree → List Parent → Option Tree
unfolding splay_round rotate
splay t [] = some t
splay t (left_of n b ∷ []) = rotate right_side (hang (left_of n b) t)
splay t (right_of n a ∷ []) = rotate left_side (hang (right_of n a) t)
splay t (p ∷ g ∷ parents) = splay_round t p g >>= λ u. splay u parents

-- The loop of `find_no_splay`.
unfoldable pub find_from : ℕ → Tree → List Parent → Option Place
find_from key null above = none
find_from key (fork l n r) above =
    let down_left = find_from key l (left_of n r ∷ above) in
    let down_right = find_from key r (right_of n l ∷ above) in
    if n.key == key
    then some (record { left_child = l; node = n; right_child = r; parents = above })
    else if ltb key n.key
    then down_left
    else down_right

unfoldable pub find_no_splay : SplayTree → ℕ → Option Place
find_no_splay t key = find_from key t.root_node []

abbrev pub subtree : Place → Tree
subtree p = fork p.left_child p.node p.right_child

-- A key that is found comes with the tree that has its node at the root.
unfoldable pub find : SplayTree → ℕ → Option (SplayTree × Option Node)
unfolding find_no_splay
find t key = elim (find_no_splay t key) [
  | none ↦ some (t, none)
  | some p ↦ splay (subtree p) p.parents >>= λ u. some (record t { root_node = u }, some p.node)
]

-- The loop of `insert`: the last node on the way of a key, if there is one.
unfoldable pub parent_for : ℕ → Tree → List Parent → Option Place
parent_for key null above = none
parent_for key (fork l n r) above =
    let down_left = parent_for key l (left_of n r ∷ above) in
    let down_right = parent_for key r (right_of n l ∷ above) in
    let here : Place = record { left_child = l; node = n; right_child = r; parents = above } in
    let on_left = if is_null l then some here else down_left in
    let on_right = if is_null r then some here else down_right in
    if ltb key n.key then on_left else on_right

-- A new node hangs from that node, on the side of its key, where nothing may hang yet.
link : Node → Place → Option (List Parent)
link x p =
    if ltb x.key p.node.key
    then (assert (is_null p.left_child) >> some (left_of p.node p.right_child ∷ p.parents))
    else (assert (is_null p.right_child) >> some (right_of p.node p.left_child ∷ p.parents))

abbrev pub or_else : Option Node → Option Node → Option Node
or_else none other = other
or_else (some n) other = some n

-- The left child of a node, by the node's address.
pub left_child_of : ℕ → Tree → Option Node
left_child_of a null = none
left_child_of a (fork null n r) = if n.address == a then none else left_child_of a r
left_child_of a (fork (fork x m y) n r) =
    if n.address == a then some m else or_else (left_child_of a (fork x m y)) (left_child_of a r)

abbrev pub same_node : Option Node → ℕ → Bool
same_node none a = false
same_node (some n) a = n.address == a

-- The last test of `insert`, on the tree whose root is the new node.
abbrev new_minimum : Node → Tree → Node → Node
new_minimum x root least =
    if same_node (left_child_of least.address root) x.address then x else least

unfoldable pub insert : SplayTree → Node → Option SplayTree
unfolding parent_for link left_child_of
insert t x = elim (parent_for x.key t.root_node []) [
  | none ↦ some (record { root_node = fork null x null; minimum_node = some x })
  | some parent ↦ (do
    parents ← link x parent
    root ← splay (fork null x null) parents
    least ← t.minimum_node
    some (record { root_node = root; minimum_node = some (new_minimum x root least) }))
]

-- The two loops of `successor`.
unfoldable pub leftmost : Tree → Node → Tree → List Parent → Place
leftmost null n r above = record { left_child = null; node = n; right_child = r; parents = above }
leftmost (fork a m b) n r above = leftmost a m b (left_of n r ∷ above)

unfoldable pub first_above : Tree → List Parent → Option Place
first_above t [] = none
first_above t (left_of n b ∷ parents) =
    some (record { left_child = t; node = n; right_child = b; parents = parents })
first_above t (right_of n a ∷ parents) = first_above (fork a n t) parents

unfoldable pub successor : Place → Option Place
unfolding leftmost first_above
successor p = elim (p.right_child) [
  | null ↦ first_above (subtree p) p.parents
  | fork a m b ↦ some (leftmost a m b (right_of p.node p.left_child ∷ p.parents))
]

abbrev pub node_of : Option Place → Option Node
node_of none = none
node_of (some p) = some p.node

-- The loop of `remove`: the right subtree hangs from the last node of the left one.
unfoldable pub join : Tree → Tree → Tree
join null r = r
join (fork a n b) r = fork a n (join b r)

-- What `remove` does with the minimum, of the tree whose root is the node that goes.
abbrev next_minimum : Place → Option Node → Option (Option Node)
next_minimum p least =
    if same_node least p.node.address
    then (assert (is_null p.left_child) >> some (node_of (successor p)))
    else some least

abbrev is_none : Option Node → Bool
is_none none = true
is_none (some n) = false

-- `remove` of the node at a place.
unfoldable pub remove : SplayTree → Place → Option SplayTree
unfolding successor join
remove t p = splay (subtree p) p.parents >>= λ u. elim u [
  | null ↦ none
  | fork l n r ↦ (do
    least ←
        next_minimum (record { left_child = l; node = n; right_child = r; parents = [] })
          t.minimum_node
    let root = join l r
    assert (not (is_null root) || is_none least)
    some (record { root_node = root; minimum_node = least }))
]
