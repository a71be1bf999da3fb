-- ===== src/Frames/Marks.antt =====
-- `set_range` and `clear_range`: what marking a run of frames leaves in the bitset.
use umbongo.Base.{
  ℕ, zero, suc, ◌+◌, ◌%◌, ◌^◌, ◌≤◌, ◌<◌, ◌≡◌, refl, ◌∙◌, Bool, true, false, ◌&&◌, some, arith, ltb,
  leb, if◌then◌else◌,
}
use umbongo.Frames.{Frames, set_range, clear_range}
use umbongo.Frames.Inv.{
  IsValid, is_used, claimed, released, is_frame_set_lem, set_frame_lem, clear_frame_lem,
  claimed-IsValid, released-IsValid, is_used-claimed, is_used-released, frame_count-updated,
}

-- Whether frame `k` is one of the `n` frames from `j` on.
abbrev pub in_range : ℕ → ℕ → ℕ → Bool
in_range j n k = leb j k && ltb k (j + n)

-- `m'` is `m` with the frames of a range marked as `b`.
pub record Marked (b : Bool) (j n : ℕ) (m m' : Frames) : Type 0 where
  pub valid : IsValid m'
  pub count : m'.frame_count ≡ m.frame_count
  pub used :
      (k : ℕ) → k < m.frame_count → is_used m' k ≡ (if in_range j n k then b else is_used m k)

Marked-zero : (b : Bool) (j : ℕ) {m : Frames} → IsValid m → Marked b j 0 m m
Marked-zero b j v = record { valid = v; count = refl; used = λ k h. ground arith }

pub set_range_lem :
    (n j : ℕ) {m : Frames}
    → IsValid m
    → j + n ≤ m.frame_count
    → (m' : Frames) × (set_range n j m ≡ some m') × Marked true j n m m'
unfolding set_range
set_range_lem zero j {m} v h = (m, refl, Marked-zero true j v)
set_range_lem (suc n) j {m} v h =
    let inside : j < m.frame_count = omega arith in
    let c : (claimed j m).frame_count ≡ m.frame_count = frame_count-updated j _ m in
    let (m', run, marked) =
      set_range_lem n (j + 1) (claimed-IsValid v j inside) (omega (arith, c, h)) in
    let next : (j + 1) % 2 ^ 64 ≡ j + 1 = omega (arith, v.small) in
    (
      m',
      rw (set_frame_lem v j inside, next) run,
      record {
        valid = marked.valid;
        count = marked.count ∙ c;
        used = λ k hk.
            ground (arith, marked.used k (omega (arith, c, hk)), is_used-claimed v j inside k hk);
      },
    )

pub clear_range_lem :
    (n j : ℕ) {m : Frames}
    → IsValid m
    → j + n ≤ m.frame_count
    → ((k : ℕ) → j ≤ k → k < j + n → is_used m k ≡ true)
    → (m' : Frames) × (clear_range n j m ≡ some m') × Marked false j n m m'
unfolding clear_range
clear_range_lem zero j {m} v h all = (m, refl, Marked-zero false j v)
clear_range_lem (suc n) j {m} v h all =
    let inside : j < m.frame_count = omega arith in
    let c : (released j m).frame_count ≡ m.frame_count = frame_count-updated j _ m in
    let rest = λ (k : ℕ) (lo : j + 1 ≤ k) (hi : k < j + 1 + n).
      is_used-released v j inside k (omega arith)
      ∙ ground (arith, all k (omega arith) (omega arith)) in
    let (m', run, marked) =
      clear_range_lem n (j + 1) (released-IsValid v j inside) (omega (arith, c, h)) rest in
    let next : (j + 1) % 2 ^ 64 ≡ j + 1 = omega (arith, v.small) in
    (
      m',
      rw
          (
            is_frame_set_lem v j inside,
            all j (omega arith) (omega arith),
            clear_frame_lem v j inside,
            next,
          )
          run,
      record {
        valid = marked.valid;
        count = marked.count ∙ c;
        used = λ k hk.
            ground (arith, marked.used k (omega (arith, c, hk)), is_used-released v j inside k hk);
      },
    )
