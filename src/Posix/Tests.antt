-- ===== src/Posix/Tests.antt =====
-- Overlapping moves, and the strings "ab" and "b".
use umbongo.Base.{ℕ, ◌≡◌, refl, List, [], ◌∷◌, some, arith}
use umbongo.Posix.{
  memmove, memcpy, move_down, strstr, strstr_from, strlen, strncmp, strspn, strcspn, set_has,
}
use umbongo.Posix.Move.{Moved, memmove-Moved}

abbrev memory : List ℕ
memory = 1 ∷ 2 ∷ 3 ∷ 4 ∷ 5 ∷ []

move_test : memmove 1 0 4 memory ≡ some (1 ∷ 1 ∷ 2 ∷ 3 ∷ 4 ∷ [])
unfolding memmove memcpy move_down
move_test = refl

-- "xab" has "ab" at 1.
strstr_test : strstr (120 ∷ 97 ∷ 98 ∷ 0 ∷ []) (97 ∷ 98 ∷ 0 ∷ []) ≡ some (some 1)
unfolding strstr strstr_from strlen strncmp
strstr_test = refl

-- The first space of "a b" is at 1.
strcspn_test : strcspn (97 ∷ 32 ∷ 98 ∷ 0 ∷ []) (32 ∷ 0 ∷ []) ≡ some 1
unfolding strcspn set_has
strcspn_test = refl

strspn_test : strspn (32 ∷ 32 ∷ 98 ∷ 0 ∷ []) (32 ∷ 0 ∷ []) ≡ some 2
unfolding strspn set_has
strspn_test = refl

memmove-Moved_example : Moved 1 0 4 memory (memmove 1 0 4 memory)
memmove-Moved_example = memmove-Moved 1 0 4 memory (omega arith) (omega arith)
