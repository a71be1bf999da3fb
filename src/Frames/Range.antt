-- ===== src/Frames/Range.antt =====
-- `alloc_contiguous` and `free_contiguous`: runs of frames.
use umbongo.Base.{
  ℕ, zero, suc, ◌+◌, ◌*◌, ◌/◌, ◌%◌, ◌^◌, ◌≤◌, ◌<◌, ◌≡◌, ap, subst, ◌∙◌, Bool, true, false, ◌&&◌,
  ◌||◌, some, arith, ◌==◌, ltb, mul_size, Bool-cases, Option-cases, inl, inr,
}
use umbongo.Base.Bits.{align_up-pow}
use umbongo.Frames.{
  Frames, frame_size, frame_bitset_bucket, is_frame_set, any_set, claim_range, frames_of,
  alloc_contiguous_from, alloc_contiguous, free_contiguous,
}
use umbongo.Frames.Inv.{IsValid, is_used, is_frame_set_lem}
use umbongo.Frames.Marks.{in_range, Marked, set_range_lem, clear_range_lem}

-- A check that returns has looked at frames below `frame_count` only,
is_frame_set-inside :
    (j : ℕ) (m : Frames) {b : Bool} → is_frame_set j m ≡ some b → j < m.frame_count
unfolding is_frame_set frame_bitset_bucket
is_frame_set-inside j m e = ground arith

-- and one that finds none set has seen them all free.
any_set-false :
    (n j : ℕ) {m : Frames}
    → IsValid m
    → any_set n j m ≡ some false
    → (k : ℕ) → j ≤ k
    → k < j + n
    → (k < m.frame_count) × (is_used m k ≡ false)
unfolding any_set
any_set-false zero j v e k lo hi = absurd (omega arith)
any_set-false (suc n) j {m} v e k lo hi = elim (Option-cases (is_frame_set j m)) [
  | inl stop ↦ cc (rw stop at e)
  | inr (b, seen) ↦
      let inside = is_frame_set-inside j m seen in
      let next : (j + 1) % 2 ^ 64 ≡ j + 1 = omega (arith, v.small, inside) in
      let free : is_used m j ≡ false = ground (arith, e, is_frame_set_lem v j inside) in
      let rest : any_set n (j + 1) m ≡ some false =
        (rw (is_frame_set_lem v j inside, free, next) at e) in
      elim (Bool-cases (j == k)) [
        | inl same ↦ let same' : j ≡ k = ground arith in rw (← same') (inside, free)
        | inr other ↦ any_set-false n (j + 1) v rest k (ground arith) (omega arith)
      ]
]

-- What a search for `n` frames that returns has found.
record Grant (n : ℕ) (m m' : Frames) (ptr : ℕ) : Type 0 where
  round : ℕ
  first : ℕ
  step : first ≡ round * n
  room : first + n ≤ m.frame_count
  address : ptr ≡ first * frame_size
  free : (k : ℕ) → first ≤ k → k < first + n → is_used m k ≡ false
  marked : Marked true first n m m'

-- A range that is seen free lies in memory.
fits :
    (n i : ℕ) {m : Frames}
    → IsValid m
    → i < m.frame_count
    → any_set n i m ≡ some false
    → i + n ≤ m.frame_count
fits zero i v low seen = omega arith
fits (suc n) i v low seen =
    omega (arith, (any_set-false (suc n) i v seen (i + n) (omega arith) (omega arith)).0)

claim_range-Grant :
    (n i round : ℕ) {m m' : Frames} {ptr : ℕ}
    → IsValid m
    → i ≡ round * n
    → i < m.frame_count
    → any_set n i m ≡ some false
    → claim_range n i m ≡ some (ptr, m')
    → Grant n m m' ptr
unfolding claim_range
claim_range-Grant n i round {m} {m'} {ptr} v e low seen run =
    let room = fits n i v low seen in
    let (m'', ran, marked) = set_range_lem n i v room in
    let done : some (mul_size i frame_size, m'') ≡ some (ptr, m') = (rw ran at run) in
    let same : m'' ≡ m' = cc in
    let at : mul_size i frame_size ≡ ptr = cc in
    record {
      round = round;
      first = i;
      step = e;
      room = room;
      address = omega (arith, at, v.small);
      free = λ k lo hi. (any_set-false n i v seen k lo hi).1;
      marked = subst (λ t. Marked true i n m t) same marked;
    }

alloc_contiguous_from-Grant :
    (fuel n i round : ℕ) {m m' : Frames} {ptr : ℕ}
    → IsValid m
    → n < 2 ^ 52
    → i ≡ round * n
    → alloc_contiguous_from fuel n i m ≡ some (ptr, m')
    → Grant n m m' ptr
unfolding alloc_contiguous_from
alloc_contiguous_from-Grant zero n i round v small e run = cc
alloc_contiguous_from-Grant (suc fuel) n i round {m} {m'} {ptr} v small e run =
    elim (Bool-cases (ltb i m.frame_count)) [
      | inr out ↦ cc (rw out at run)
      | inl low ↦ elim (Option-cases (any_set n i m)) [
        | inl stop ↦ cc (rw (low, stop) at run)
        | inr (true, seen) ↦
            let next : (i + n) % 2 ^ 64 ≡ i + n = ground (arith, v.small) in
            alloc_contiguous_from-Grant fuel n (i + n) (round + 1) v small (grind arith)
              (rw (low, seen, next) at run)
        | inr (false, seen) ↦
            claim_range-Grant n i round v e (ground arith) seen (rw (low, seen) at run)
      ]
    ]

frames_of_lem : (size : ℕ) → size + 4096 < 2 ^ 64 → frames_of size ≡ (size + 4095) / 4096
frames_of_lem size h = omega (arith, align_up-pow size 12 (omega arith) (omega (arith, h)))

alloc_contiguous-Grant :
    {m m' : Frames} {ptr : ℕ} (size : ℕ)
    → IsValid m
    → size + 4096 < 2 ^ 64
    → alloc_contiguous size m ≡ some (ptr, m')
    → Grant (frames_of size) m m' ptr
unfolding alloc_contiguous
alloc_contiguous-Grant {m} size v small run =
    alloc_contiguous_from-Grant (suc m.frame_count) (frames_of size) 0 0 v
      (omega (arith, frames_of_lem size small)) (omega arith) run

-- What `alloc_contiguous` returns from a valid bitset is a run of whole frames in memory that
-- holds `size` bytes. It starts at a multiple of its own length, so a run of 2 MiB or 1 GiB can
-- back a large page. No frame of it was taken; after the call exactly these are taken besides
-- those that were. `size` is below 2^64 - 4096.
pub alloc_contiguous_lem :
    {m m' : Frames} {ptr : ℕ} (size : ℕ)
    → IsValid m
    → size + 4096 < 2 ^ 64
    → alloc_contiguous size m ≡ some (ptr, m')
    → (k : ℕ) → k < m.frame_count
    → let n = frames_of size in
      let first = ptr / frame_size in
      (size ≤ n * frame_size)
      × (first + n ≤ m.frame_count)
      × ((round : ℕ) × (ptr ≡ round * n * frame_size))
      × ((in_range first n k && is_used m k) ≡ false)
      × (is_used m' k ≡ (in_range first n k || is_used m k))
      × IsValid m'
alloc_contiguous_lem {m} {m'} {ptr} size v small run k h =
    let g = alloc_contiguous-Grant size v small run in
    let at : ptr / frame_size ≡ g.first = omega (arith, g.address) in
    (
      omega (arith, frames_of_lem size small),
      rw at g.room,
      (g.round, g.address ∙ ap (λ t. t * frame_size) g.step),
      rw at (untaken g),
      rw at (g.marked.used k h ∙ ground arith),
      g.marked.valid,
    )
  where
    untaken :
        (g : Grant (frames_of size) m m' ptr)
        → (in_range g.first (frames_of size) k && is_used m k) ≡ false
    untaken g = elim (Bool-cases (in_range g.first (frames_of size) k)) [
      | inl e ↦ rw (e, g.free k (ground arith) (ground arith))
      | inr e ↦ rw e
    ]

-- Freeing what `alloc_contiguous` returned from a valid bitset succeeds, and every frame is
-- again as it was. `size` is below 2^64 - 4096.
pub free_contiguous-alloc_contiguous :
    {m m' : Frames} {ptr : ℕ} (size : ℕ)
    → IsValid m
    → size + 4096 < 2 ^ 64
    → alloc_contiguous size m ≡ some (ptr, m')
    → (k : ℕ) → k < m.frame_count
    → (m'' : Frames) × (free_contiguous ptr size m' ≡ some m'') × (is_used m'' k ≡ is_used m k)
unfolding free_contiguous
free_contiguous-alloc_contiguous {m} {m'} {ptr} size v small run k h =
    let g = alloc_contiguous-Grant size v small run in
    let n = frames_of size in
    let c : m'.frame_count ≡ m.frame_count = g.marked.count in
    let at : ptr / frame_size ≡ g.first = omega (arith, g.address) in
    let first = ptr / frame_size in
    let room : first + n ≤ m'.frame_count = omega (arith, c, at, g.room) in
    let taken = λ (j : ℕ) (lo : first ≤ j) (hi : j < first + n).
      g.marked.used j (omega (arith, at, g.room)) ∙ ground (arith, at) in
    let (m'', ran, cleared) = clear_range_lem n first g.marked.valid room taken in
    let even : (ptr % frame_size == 0) ≡ true = ground (arith, g.address) in
    (
      m'',
      rw even ran,
      cleared.used k (omega (arith, c, h)) ∙ ground (arith, at, g.marked.used k h, g.free k),
    )
