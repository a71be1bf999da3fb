-- ===== src/SplayTree/Splayed.antt =====
-- `rotate` and `splay`, by the nodes of a tree from left to right.
use umbongo.Base.{◌≡◌, refl, sym, ◌∙◌, List, [], ◌∷◌, ◌++◌, Option, some, append_assoc, append-nil}
use umbongo.SplayTree.{Node, Tree, null, fork, Parent, left_of, right_of, splay}

-- The nodes from left to right.
abbrev pub inorder : Tree → List Node
inorder null = []
inorder (fork l n r) = inorder l ++ n ∷ inorder r

-- What stands before and after a subtree that hangs below these parents.
abbrev pub before : List Parent → List Node
before [] = []
before (left_of n b ∷ parents) = before parents
before (right_of n a ∷ parents) = before parents ++ inorder a ++ n ∷ []

abbrev pub after : List Parent → List Node
after [] = []
after (left_of n b ∷ parents) = n ∷ inorder b ++ after parents
after (right_of n a ∷ parents) = after parents

-- What a splay that succeeds leaves at the root.
pub record Raised (l : Tree) (x : Node) (r : Tree) (parents : List Parent) (t : Option Tree)
    : Type 0 where
  pub left : Tree
  pub right : Tree
  pub raised : t ≡ some (fork left x right)
  pub left_order : inorder left ≡ before parents ++ inorder l
  pub right_order : inorder right ≡ inorder r ++ after parents

pub splay_lem :
    (l : Tree) (x : Node) (r : Tree) (parents : List Parent)
    → Raised l x r parents (splay (fork l x r) parents)
unfolding splay
splay_lem l x r [] = record {
  left = l;
  right = r;
  raised = refl;
  left_order = refl;
  right_order = sym (append-nil _);
}
splay_lem l x r (left_of n b ∷ []) = record {
  left = l;
  right = fork r n b;
  raised = refl;
  left_order = refl;
  right_order = simp (append-nil);
}
splay_lem l x r (right_of n a ∷ []) = record {
  left = fork a n l;
  right = r;
  raised = refl;
  left_order = simp (append_assoc);
  right_order = sym (append-nil _);
}
splay_lem l x r (left_of n b ∷ left_of m c ∷ parents) =
    let up = splay_lem l x (fork r n (fork b m c)) parents in
    record {
      left = up.left;
      right = up.right;
      raised = up.raised;
      left_order = up.left_order;
      right_order = up.right_order ∙ simp (append_assoc);
    }
splay_lem l x r (right_of n a ∷ right_of m c ∷ parents) =
    let up = splay_lem (fork (fork c m a) n l) x r parents in
    record {
      left = up.left;
      right = up.right;
      raised = up.raised;
      left_order = up.left_order ∙ simp (append_assoc);
      right_order = up.right_order;
    }
splay_lem l x r (left_of n b ∷ right_of m c ∷ parents) =
    let up = splay_lem (fork c m l) x (fork r n b) parents in
    record {
      left = up.left;
      right = up.right;
      raised = up.raised;
      left_order = up.left_order ∙ simp (append_assoc);
      right_order = up.right_order ∙ simp (append_assoc);
    }
splay_lem l x r (right_of n a ∷ left_of m c ∷ parents) =
    let up = splay_lem (fork a n l) x (fork r m c) parents in
    record {
      left = up.left;
      right = up.right;
      raised = up.raised;
      left_order = up.left_order ∙ simp (append_assoc);
      right_order = up.right_order ∙ simp (append_assoc);
    }
