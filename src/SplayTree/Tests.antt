-- ===== src/SplayTree/Tests.antt =====
-- Tests and instances for the splay tree.
use umbongo.Base.{ℕ, ◌≡◌, refl, [], ◌∷◌, Option, none, some, arith}
use umbongo.SplayTree.{
  Node, null, fork, left_of, place, SplayTree, splay_tree, insert, find, find_no_splay, find_from,
  remove, splay, Place,
}
use umbongo.SplayTree.Splayed.{Raised, splay_lem}
use umbongo.SplayTree.Insert.{IsValid, Inserted, insert_lem}
use umbongo.SplayTree.Find.{Found, find_lem}
use umbongo.SplayTree.Remove.{Removed, IsPlaceOf, remove_lem}
use umbongo.SplayTree.Stuck.{remove-insert}

abbrev at : ℕ → ℕ → Node
at a k = record { address = a; key = k }

-- 10 above 5, whose parent is 20.
abbrev three : SplayTree
three =
    splay_tree (fork (fork (fork null (at 1 5) null) (at 2 10) null) (at 3 20) null) (some (at 1 5))

abbrev deepest : Place
deepest = place null (at 1 5) null (left_of (at 2 10) null ∷ left_of (at 3 20) null ∷ [])

three-IsValid : IsValid three
three-IsValid = record { sorted = omega arith; pointed = λ e. (at 1 5, refl) }

insert_test :
    insert three (at 4 15)
    ≡ some (
        splay_tree
          (fork
            (fork (fork null (at 1 5) null) (at 2 10) null)
            (at 4 15)
            (fork null (at 3 20) null))
          (some (at 1 5)))
unfolding insert splay
insert_test = refl

find_test :
    find three 5
    ≡ some (
      splay_tree
          (fork null (at 1 5) (fork null (at 2 10) (fork null (at 3 20) null)))
          (some (at 1 5)),
      some (at 1 5),
    )
unfolding find splay find_no_splay find_from
find_test = refl

remove_test :
    remove three deepest
    ≡ some (splay_tree (fork null (at 2 10) (fork null (at 3 20) null)) (some (at 2 10)))
unfolding remove splay
remove_test = refl

splay_lem_example :
    Raised null (at 1 5) null (deepest.parents) (splay (fork null (at 1 5) null) (deepest.parents))
splay_lem_example = splay_lem null (at 1 5) null (deepest.parents)

insert_lem_example :
    (t' : SplayTree) × (insert three (at 4 15) ≡ some t') × Inserted (at 4 15) three t'
insert_lem_example = insert_lem three (at 4 15) three-IsValid

find_lem_example :
    (t' : SplayTree) × (n : Option Node) × (find three 5 ≡ some (t', n)) × Found three 5 t' n
find_lem_example = find_lem three 5 (three-IsValid.sorted)

remove_lem_example : (t' : SplayTree) × (remove three deepest ≡ some t') × Removed deepest t'
remove_lem_example = remove_lem three deepest refl refl tt

remove-insert_example :
    (t' : SplayTree) × (insert three (at 4 1) ≡ some t')
    × ((p : Place) → IsPlaceOf t' p → p.node ≡ at 1 5 → remove t' p ≡ none)
remove-insert_example =
    remove-insert three (at 4 1) (at 1 5) (at 2 10 ∷ at 3 20 ∷ []) three-IsValid refl refl
      (omega arith) (omega arith)
