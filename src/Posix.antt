-- ===== src/Posix.antt =====
-- ustd/builtin.cc, and libs/posix/string.cc and ctype.cc: bytes of memory and strings in it. A string
-- is the memory from its first byte on; reading past the memory has no result. An `int` below zero
-- is its two's complement in 32 bits.
pub mod Move
pub mod Compare
mod Tests
use umbongo.Base.{
  ℕ, zero, suc, ◌+◌, ◌-◌, ◌%◌, ◌^◌, List, [], ◌∷◌, Option, none, some, Bool, true, false, not, ◌&&◌,
  ◌||◌, ◌==◌, ltb, leb, if◌then◌else◌, sub_u32, get_elem?, drop,
}
use umbongo.Base.Panic.{◌>>=◌}
use umbongo.Base.Vector.{put}

-- The loop of `memcpy`, with so many bytes left.
unfoldable pub memcpy : ℕ → ℕ → ℕ → List ℕ → Option (List ℕ)
memcpy zero dst src memory = some memory
memcpy (suc n) dst src memory =
    get_elem? memory src >>= put memory dst >>= memcpy n (dst + 1) (src + 1)

-- The loop of `memmove` from the end.
unfoldable pub move_down : ℕ → ℕ → ℕ → List ℕ → Option (List ℕ)
move_down zero dst src memory = some memory
move_down (suc n) dst src memory =
    get_elem? memory (src + n) >>= put memory (dst + n) >>= move_down n dst src

unfoldable pub memmove : ℕ → ℕ → ℕ → List ℕ → Option (List ℕ)
memmove dst src size memory =
    if ltb dst src then memcpy size dst src memory else move_down size dst src memory

-- The loop of `memset`.
unfoldable pub memset : ℕ → ℕ → ℕ → List ℕ → Option (List ℕ)
memset zero buf value memory = some memory
memset (suc n) buf value memory = put memory buf (value % 256) >>= memset n (buf + 1) value

unfoldable pub memcmp : ℕ → List ℕ → List ℕ → Option ℕ
memcmp zero a b = some 0
memcmp (suc n) (x ∷ a) (y ∷ b) =
    let rest = memcmp n a b in
    if ltb x y then some (sub_u32 0 1) else if ltb y x then some 1 else rest
memcmp (suc n) _ _ = none

unfoldable pub strlen : List ℕ → Option ℕ
strlen [] = none
strlen (ch ∷ str) =
    let rest = strlen str in if ch == 0 then some 0 else (rest >>= λ len. some (len + 1))

unfoldable pub strcmp : List ℕ → List ℕ → Option ℕ
strcmp (x ∷ s1) (y ∷ s2) =
    let rest = strcmp s1 s2 in
    if x == y then (if x == 0 then some 0 else rest) else some (sub_u32 x y)
strcmp _ _ = none

unfoldable pub strncmp : List ℕ → List ℕ → ℕ → Option ℕ
strncmp s1 s2 zero = some 0
strncmp (x ∷ s1) (y ∷ s2) (suc n) =
    let rest = strncmp s1 s2 n in
    if not (x == y) then some (sub_u32 x y) else if x == 0 then some 0 else rest
strncmp _ _ (suc n) = none

unfoldable pub strnlen : List ℕ → ℕ → Option ℕ
strnlen str zero = some 0
strnlen [] (suc n) = none
strnlen (ch ∷ str) (suc n) =
    let rest = strnlen str n in if ch == 0 then some 0 else (rest >>= λ len. some (len + 1))

-- `strchrnul` and `strchr`: where in the string the character is.
unfoldable pub strchrnul : List ℕ → ℕ → Option ℕ
strchrnul [] c = none
strchrnul (ch ∷ str) c =
    let rest = strchrnul str c in
    if ch == 0 || ch == c then some 0 else (rest >>= λ i. some (i + 1))

-- A loop over a set of characters up to its end.
unfoldable pub set_has : List ℕ → ℕ → Option Bool
set_has [] ch = none
set_has (ac ∷ accept) ch =
    let rest = set_has accept ch in
    if ac == 0 then some false else if ac == ch then some true else rest

unfoldable pub strspn : List ℕ → List ℕ → Option ℕ
strspn [] accept = none
strspn (ch ∷ str) accept =
    let rest = strspn str accept in
    set_has accept ch >>= λ found. if found then (rest >>= λ n. some (n + 1)) else some 0

-- The terminator of `reject` is looked for too.
unfoldable pub strcspn : List ℕ → List ℕ → Option ℕ
strcspn [] reject = none
strcspn (ch ∷ str) reject =
    let rest = strcspn str reject in
    set_has reject ch >>= λ found. if found || ch == 0 then some 0 else (rest >>= λ n. some (n + 1))

-- The loop of `strstr` for a needle of so many characters.
unfoldable pub strstr_from : List ℕ → List ℕ → ℕ → Option (Option ℕ)
strstr_from [] needle len = none
strstr_from (ch ∷ haystack) needle len =
    let rest = strstr_from haystack needle len in
    if ch == 0
    then some none
    else (strncmp (ch ∷ haystack) needle len >>= λ order.
        if order == 0
        then some (some 0)
        else (rest >>= λ found. some (elim found [ none ↦ none | some i ↦ some (i + 1) ])))

unfoldable pub strstr : List ℕ → List ℕ → Option (Option ℕ)
strstr haystack needle =
    strlen needle >>= λ len. if len == 0 then some (some 0) else strstr_from haystack needle len
