-- ===== src/Posix/Move.antt =====
-- A move takes every byte before it is overwritten.
use umbongo.Base.{
  ℕ, zero, suc, ◌+◌, ◌-◌, ◌<◌, ◌≤◌, ◌≡◌, refl, ap, ◌∙◌, List, Option, some, ◌&&◌, ◌==◌, ltb, leb,
  if◌then◌else◌, get_elem?, get_or, set, get_or-set, get_elem?-eq-get_or, length, length-set, arith,
  Bool-cases, inl, inr,
}
use umbongo.Base.Panic.{◌>>=◌}
use umbongo.Base.Vector.{put, put-set}
use umbongo.Posix.{memcpy, move_down, memmove}

abbrev pub byte_at : List ℕ → ℕ → ℕ
byte_at memory i = get_or memory i 0

-- Each byte of the destination is the one that the source had there; the others stay.
abbrev pub Moved : ℕ → ℕ → ℕ → List ℕ → Option (List ℕ) → Type 0
Moved dst src n memory m =
    (moved : List ℕ) × ((m ≡ some moved)
      × ((length moved ≡ length memory)
          × ((i : ℕ)
              → byte_at moved i ≡ (
                  if leb dst i && ltb i (dst + n)
                  then byte_at memory (src + (i - dst))
                  else byte_at memory i))))

-- One byte.
step :
    (memory : List ℕ) (dst src : ℕ) (f : List ℕ → Option (List ℕ))
    → dst < length memory
    → src < length memory
    → (get_elem? memory src >>= put memory dst >>= f) ≡ f (set memory dst (byte_at memory src))
step memory dst src f h h' =
    rw (get_elem?-eq-get_or memory src 0 h', put-set memory dst (byte_at memory src) h) refl

memcpy-Moved :
    (n dst src : ℕ) (memory : List ℕ)
    → dst ≤ src
    → src + n ≤ length memory
    → Moved dst src n memory (memcpy n dst src memory)
unfolding memcpy
memcpy-Moved zero dst src memory h room = (memory, (refl, (refl, λ i. ground arith)))
memcpy-Moved (suc n) dst src memory h room =
    let next : List ℕ = set memory dst (byte_at memory src) in
    let len = length-set memory dst (byte_at memory src) in
    let (moved, (ran, (same, bytes))) =
      memcpy-Moved n (dst + 1) (src + 1) next (omega arith) (omega (arith, len)) in
    let now : (i : ℕ)
        → byte_at next i ≡ (if dst == i then byte_at memory src else byte_at memory i) =
      λ i. get_or-set memory dst i (byte_at memory src) 0 (omega arith) in
    (
      moved,
      (
        step memory dst src (memcpy n (dst + 1) (src + 1)) (omega arith) (omega arith) ∙ ran,
        (
          same ∙ len,
          λ i. elim (Bool-cases (leb (dst + 1) i && ltb i (dst + 1 + n))) [
            | inl inside ↦
                let index : src + 1 + (i - (dst + 1)) ≡ src + (i - dst) = ground (arith, inside) in
                let old : byte_at next (src + 1 + (i - (dst + 1)))
                    ≡ byte_at memory (src + (i - dst)) =
                  ap (byte_at next) index ∙ now (src + (i - dst)) ∙ ground (arith, inside) in
                ground (arith, bytes i, inside, old)
            | inr outside ↦ elim (Bool-cases (dst == i)) [
              | inl here ↦
                  let index : src + (i - dst) ≡ src = ground (arith, here) in
                  ground (arith, bytes i, outside, now i, here, ap (byte_at memory) index)
              | inr other ↦ ground (arith, bytes i, outside, now i, other)
            ]
          ],
        ),
      ),
    )

move_down-Moved :
    (n dst src : ℕ) (memory : List ℕ)
    → src ≤ dst
    → dst + n ≤ length memory
    → Moved dst src n memory (move_down n dst src memory)
unfolding move_down
move_down-Moved zero dst src memory h room = (memory, (refl, (refl, λ i. ground arith)))
move_down-Moved (suc n) dst src memory h room =
    let byte : ℕ = byte_at memory (src + n) in
    let next : List ℕ = set memory (dst + n) byte in
    let len = length-set memory (dst + n) byte in
    let (moved, (ran, (same, bytes))) = move_down-Moved n dst src next h (omega (arith, len)) in
    let now : (i : ℕ) → byte_at next i ≡ (if dst + n == i then byte else byte_at memory i) =
      λ i. get_or-set memory (dst + n) i byte 0 (omega arith) in
    (
      moved,
      (
        step memory (dst + n) (src + n) (move_down n dst src) (omega arith) (omega arith) ∙ ran,
        (
          same ∙ len,
          λ i. elim (Bool-cases (leb dst i && ltb i (dst + n))) [
            | inl inside ↦
                let old : byte_at next (src + (i - dst)) ≡ byte_at memory (src + (i - dst)) =
                  now (src + (i - dst)) ∙ ground (arith, inside) in
                ground (arith, bytes i, inside, old)
            | inr outside ↦ elim (Bool-cases (dst + n == i)) [
              | inl here ↦
                  let index : src + (i - dst) ≡ src + n = ground (arith, here) in
                  ground (arith, bytes i, outside, now i, here, ap (byte_at memory) index)
              | inr other ↦ ground (arith, bytes i, outside, now i, other)
            ]
          ],
        ),
      ),
    )

-- Moving bytes within a block of memory gives each place of the destination the byte that its place
-- of the source held before, however the two overlap, and leaves every other byte. Both lie in the
-- block.
pub memmove-Moved :
    (dst src size : ℕ) (memory : List ℕ)
    → dst + size ≤ length memory
    → src + size ≤ length memory
    → Moved dst src size memory (memmove dst src size memory)
unfolding memmove
memmove-Moved dst src size memory room room' = elim (Bool-cases (ltb dst src)) [
  | inl up ↦ rw up (memcpy-Moved size dst src memory (ground (arith, up)) room')
  | inr down ↦ rw down (move_down-Moved size dst src memory (ground (arith, down)) room)
]
