-- ===== src/Frames/Alloc.antt =====
-- `alloc_frame` and `free_frame`: first fit, one frame at a time.
use umbongo.Base.{
  ℕ, zero, suc, ◌+◌, ◌*◌, ◌/◌, ◌%◌, ◌^◌, ◌≤◌, ◌<◌, ◌≡◌, ◌≢◌, ◌∙◌, true, false, not, ◌&&◌, ◌||◌,
  Option, none, some, arith, ◌==◌, ltb, mul_size, if◌then◌else◌, Bool-cases, inl, inr,
}
use umbongo.Frames.{Frames, frame_size, alloc_frame_from, alloc_frame, free_frame}
use umbongo.Frames.Inv.{
  IsValid, is_used, claimed, released, is_frame_set_lem, set_frame_lem, clear_frame_lem,
  claimed-IsValid, is_used-claimed, is_used-released, frame_count-updated,
}

-- What the search from frame `i` on comes to.
data Search (m : Frames) (i : ℕ) : Option (ℕ × Frames) → Type 0 where
  found :
      (k : ℕ)
      → k < m.frame_count
      → is_used m k ≡ false
      → ((j : ℕ) → i ≤ j → j < k → is_used m j ≡ true)
      → Search m i (some (k * frame_size, claimed k m))
  exhausted : ((j : ℕ) → i ≤ j → j < m.frame_count → is_used m j ≡ true) → Search m i none

-- A frame that is passed over because it is taken.
Search-pass :
    {m : Frames} (i : ℕ) {r : Option (ℕ × Frames)}
    → is_used m i ≡ true
    → Search m (i + 1) r
    → Search m i r
Search-pass i taken (found k inside free before) = found k inside free (λ j lo hi.
    elim (Bool-cases (i == j)) [
      | inl e ↦ let e' : i ≡ j = ground arith in (rw e' at taken)
      | inr ne ↦ before j (ground arith) hi
    ])
Search-pass i taken (exhausted all) = exhausted (λ j lo hi. elim (Bool-cases (i == j)) [
  | inl e ↦ let e' : i ≡ j = ground arith in (rw e' at taken)
  | inr ne ↦ all j (ground arith) hi
])

alloc_frame_from-Search :
    {m : Frames} (rounds i : ℕ)
    → IsValid m
    → i + rounds ≡ m.frame_count
    → Search m i (alloc_frame_from rounds i m)
unfolding alloc_frame_from
alloc_frame_from-Search zero i v e = exhausted (λ j lo hi. absurd (omega arith))
alloc_frame_from-Search {m} (suc rounds) i v e = elim (Bool-cases (is_used m i)) [
  | inl taken ↦
      rw (is_frame_set_lem v i (omega arith), taken, next)
        (Search-pass i taken (alloc_frame_from-Search rounds (i + 1) v (omega arith)))
  | inr free ↦
      rw (is_frame_set_lem v i (omega arith), free, set_frame_lem v i (omega arith), unwrapped)
        (found i (omega arith) free (λ j lo hi. absurd (omega arith)))
]
  where
    next : (i + 1) % 2 ^ 64 ≡ i + 1
    next = omega (arith, v.small)

    unwrapped : mul_size i frame_size ≡ i * frame_size
    unwrapped = omega (arith, v.small)

alloc_frame-Search : {m : Frames} → IsValid m → Search m 0 (alloc_frame m)
unfolding alloc_frame
alloc_frame-Search {m} v = alloc_frame_from-Search m.frame_count 0 v (omega arith)

-- What a search that returns has found.
record Grant (m m' : Frames) (addr : ℕ) : Type 0 where
  frame : ℕ
  inside : frame < m.frame_count
  address : addr ≡ frame * frame_size
  free : is_used m frame ≡ false
  before : (j : ℕ) → j < frame → is_used m j ≡ true
  after : m' ≡ claimed frame m

Grant-Search :
    {m m' : Frames} {addr : ℕ} {r : Option (ℕ × Frames)}
    → Search m 0 r
    → r ≡ some (addr, m')
    → Grant m m' addr
Grant-Search (found k inside free before) e = record {
  frame = k;
  inside = inside;
  address = cc;
  free = free;
  before = λ j hi. before j (omega arith) hi;
  after = cc;
}
Grant-Search (exhausted all) e = cc

frame-Grant : {m m' : Frames} {addr : ℕ} (g : Grant m m' addr) → addr / frame_size ≡ g.frame
frame-Grant g = omega (arith, g.address)

-- A frame that `alloc_frame` returns from a valid bitset is aligned, lies below `frame_count`,
-- was free and is the lowest free one; the call takes exactly it, and keeps the bitset valid.
pub alloc_frame_lem :
    {m m' : Frames} {addr : ℕ}
    → IsValid m
    → alloc_frame m ≡ some (addr, m')
    → (j : ℕ) → j < m.frame_count
    → (addr % frame_size ≡ 0)
      × (addr / frame_size < m.frame_count)
      × (is_used m (addr / frame_size) ≡ false)
      × ((ltb j (addr / frame_size) && not (is_used m j)) ≡ false)
      × (is_used m' j ≡ (addr / frame_size == j || is_used m j))
      × IsValid m'
alloc_frame_lem {m} {m'} {addr} v e j h =
    let g = Grant-Search (alloc_frame-Search v) e in
    let k : addr / frame_size ≡ g.frame = frame-Grant g in
    (
      omega (arith, g.address),
      omega (arith, k, g.inside),
      rw k g.free,
      elim (Bool-cases (ltb j g.frame)) [
        | inl lt ↦ rw (k, lt, g.before j (ground arith))
        | inr ge ↦ rw (k, ge)
      ],
      rw (k, g.after) (is_used-claimed v g.frame g.inside j h),
      rw g.after (claimed-IsValid v g.frame g.inside),
    )

-- `alloc_frame` on a valid bitset panics only if no frame is free.
pub alloc_frame-ne-none :
    {m : Frames}
    → IsValid m
    → (j : ℕ) → j < m.frame_count
    → is_used m j ≡ false
    → alloc_frame m ≢ none
alloc_frame-ne-none {m} v j h free = refute (alloc_frame-Search v)
  where
    refute : {r : Option (ℕ × Frames)} → Search m 0 r → r ≢ none
    refute (found k inside f before) e = cc
    refute (exhausted all) e = cc (all j (omega arith) h)

-- Freeing the frame at an aligned address below `frame_count` returns it, if it is taken, and
-- changes no other; freeing a free frame is caught.
pub free_frame_lem :
    {m : Frames} (frame : ℕ)
    → IsValid m
    → frame % frame_size ≡ 0
    → frame / frame_size < m.frame_count
    → free_frame frame m
      ≡ (if is_used m (frame / frame_size) then some (released (frame / frame_size) m) else none)
unfolding free_frame
free_frame_lem {m} frame v a h =
    ground
      (arith, is_frame_set_lem v (frame / frame_size) h, clear_frame_lem v (frame / frame_size) h)

-- Freeing what `alloc_frame` returned from a valid bitset succeeds, and every frame is again as
-- it was.
pub free_frame-alloc_frame :
    {m m' : Frames} {addr : ℕ}
    → IsValid m
    → alloc_frame m ≡ some (addr, m')
    → (j : ℕ) → j < m.frame_count
    → (m'' : Frames) × (free_frame addr m' ≡ some m'') × (is_used m'' j ≡ is_used m j)
free_frame-alloc_frame {m} {m'} {addr} v e j h =
    let g = Grant-Search (alloc_frame-Search v) e in
    let k = g.frame in
    let v' : IsValid m' = rw g.after (claimed-IsValid v k g.inside) in
    let c : m'.frame_count ≡ m.frame_count = rw g.after (frame_count-updated k _ m) in
    let inside : k < m'.frame_count = omega (arith, c, g.inside) in
    let used : is_used m' k ≡ true =
      rw g.after (is_used-claimed v k g.inside k g.inside ∙ ground arith) in
    let same : is_used m' j ≡ (k == j || is_used m j) =
      rw g.after (is_used-claimed v k g.inside j h) in
    let at : addr / frame_size ≡ k = frame-Grant g in
    (
      released k m',
      free_frame_lem addr v' (omega (arith, g.address)) (omega (arith, at, inside)) ∙ rw (at, used),
      is_used-released v' k inside j (omega (arith, c, h)) ∙ ground (arith, same, g.free),
    )
