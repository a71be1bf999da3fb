-- ===== src/Vfs/Tests.antt =====
-- A root directory with a file "a" and a directory "d".
use umbongo.Base.{ℕ, ◌≡◌, refl, List, [], ◌∷◌, Option, none, some}
use umbongo.Files.{ok, error}
use umbongo.Vfs.{
  InodeType, directory, regular_file, Inode, Vfs, non_existent, Resolved, resolve_path, create,
  parts_of, walk, walk_null, lookup, find_child, create_in, mounted,
}
use umbongo.Vfs.RoundTrip.{resolve_path-create}
use umbongo.Vfs.Open.{inode_file, open_path, open_inode}
use umbongo.Vfs.OpenCreate.{plain_mode, create_mode, open_path-again}

abbrev inode : InodeType → Option ℕ → List ℕ → List ℕ → Inode
inode type parent name children = record {
  type = type;
  parent = parent;
  name = name;
  children = children;
  data_bytes = [];
  bound = none;
}

abbrev tree : Vfs
tree = record {
  inodes =
      inode directory none (47 ∷ []) (1 ∷ 2 ∷ [])
      ∷ inode regular_file (some 0) (97 ∷ []) []
      ∷ inode directory (some 0) (100 ∷ []) []
      ∷ [];
  root_inode = some 0;
  mounts = (none, 0) ∷ [];
}

-- "/d/b"
abbrev path : List ℕ
path = 47 ∷ 100 ∷ 47 ∷ 98 ∷ []

abbrev after : Vfs
after = record tree {
  inodes =
      inode directory none (47 ∷ []) (1 ∷ 2 ∷ [])
      ∷ inode regular_file (some 0) (97 ∷ []) []
      ∷ inode directory (some 0) (100 ∷ []) (3 ∷ [])
      ∷ inode regular_file (some 2) (98 ∷ []) []
      ∷ [];
}

abbrev missing : Resolved
missing = record { current = none; out_parent = some 2; out_part = 98 ∷ [] }

resolve_test : resolve_path tree path none ≡ some missing
unfolding resolve_path parts_of walk walk_null lookup find_child mounted umbongo.Strings.same_view
resolve_test = refl

-- "/d/b/c", whose parent is not there.
deep_test :
    create tree (47 ∷ 100 ∷ 47 ∷ 98 ∷ 47 ∷ 99 ∷ []) none regular_file
    ≡ some (error non_existent, tree)
unfolding create create_in resolve_path parts_of walk walk_null lookup find_child mounted
    umbongo.Strings.same_view
deep_test = refl

-- A path through a file panics.
file_test : resolve_path tree (47 ∷ 97 ∷ 47 ∷ 98 ∷ []) none ≡ none
unfolding resolve_path parts_of walk walk_null lookup find_child mounted umbongo.Strings.same_view
file_test = refl

create_test : create tree path none regular_file ≡ some (ok 3, after)
unfolding create create_in resolve_path parts_of walk walk_null lookup find_child mounted
    umbongo.Strings.same_view
create_test = refl

open_test : open_path tree path create_mode none ≡ some (ok (inode_file 3), after)
unfolding open_path open_inode create create_in resolve_path parts_of walk walk_null lookup
    find_child mounted umbongo.Strings.same_view
open_test = refl

resolve_path-create_example :
    (r : Resolved) × ((resolve_path after path none ≡ some r) × (r.current ≡ some 3))
unfolding umbongo.Strings.same_view
resolve_path-create_example =
    resolve_path-create tree path none regular_file 3 after missing resolve_test refl refl
      create_test

open_path-again_example : open_path after path plain_mode none ≡ some (ok (inode_file 3), after)
unfolding umbongo.Strings.same_view
open_path-again_example =
    open_path-again tree after path none (inode_file 3) missing resolve_test refl refl open_test
