-- ===== src/Heap/Scan.antt =====
-- `scan_bucket`: the runs of free chunks in one bucket.
use native.Mathlib.Nat.{div-le_self}
use umbongo.Base.{
  ℕ, zero, suc, ◌+◌, ◌-◌, ◌/◌, ◌^◌, ◌≤◌, ◌<◌, ◌≡◌, ◌≢◌, refl, sym, ap, subst, ◌∙◌, Bool, true,
  false, not, ◌⊎◌, inl, inr, some, arith, ◌==◌, ==_iff, leb→le, ltb→lt, leb, ltb, if◌then◌else◌,
  Bool-cases,
}
use umbongo.Base.Bits.{bit, bit-zero, complement}
use umbongo.Heap.{bucket_bit_count, ctz, Run, extend, broken, scan_bucket}
use umbongo.Heap.Zeroes.{bit-shift, shift-lt, ctz-low, ctz-lt, ones_pos}

ended :
    (desired fuel start bucket viewed : ℕ) (r : Run)
    → 0 < fuel
    → ltb viewed bucket_bit_count ≡ false
    → scan_bucket desired fuel start bucket viewed r ≡ some r
unfolding scan_bucket
ended desired zero start bucket viewed r f over = absurd (omega arith)
ended desired (suc fuel) start bucket viewed r f over = rw over refl

module _ (u : ℕ → Bool) where
  -- A run of free chunks that ends before `pos`, or none.
  pub record IsRun (pos : ℕ) (r : Run) : Type 0 where
    pub clear : (k : ℕ) → r.first ≤ k → k < r.first + r.free → u k ≡ false
    pub place : (r.free ≡ 0) ⊎ (r.first + r.free ≡ pos)

  pub extend-IsRun :
      (pos more : ℕ) (r : Run)
      → IsRun pos r
      → ((k : ℕ) → pos ≤ k → k < pos + more → u k ≡ false)
      → pos + more < 2 ^ 64
      → IsRun (pos + more) (extend pos more r)
  extend-IsRun pos more r h free small = elim (h.place) [
    | inl e ↦ record {
      clear = λ k lo hi. free k (ground arith) (ground arith);
      place = inr (ground arith);
    }
    | inr e ↦ elim (Bool-cases (r.free == 0)) [
      | inl z ↦ record {
        clear = λ k lo hi. free k (ground arith) (ground arith);
        place = inr (ground arith);
      }
      | inr z ↦
          let start : (if r.free == 0 then pos else r.first) ≡ r.first = rw z refl in
          record {
            clear = λ k lo hi. elim (Bool-cases (ltb k pos)) [
              | inl before ↦ h.clear k (ground arith) (ground arith)
              | inr behind ↦ free k (ground arith) (ground arith)
            ];
            place = inr (ground arith);
          }
    ]
  ]

  pub broken-IsRun : (pos : ℕ) (r : Run) → IsRun pos (broken r)
  broken-IsRun pos r = record { clear = λ k lo hi. absurd (omega arith); place = inl refl }

  -- A bucket of which `viewed` bits are shifted out and `left` are not.
  pub record Shows (start viewed left bucket : ℕ) : Type 0 where
    pub sum : viewed + left ≡ 64
    pub small : bucket < 2 ^ left
    pub word : bucket < 2 ^ 64
    pub bits : (j : ℕ) → j < left → bit j bucket ≡ u (start + viewed + j)

  -- Bits that are not set are free chunks.
  seen :
      (start viewed left bucket : ℕ)
      → Shows start viewed left bucket
      → (n : ℕ) → n ≤ left
      → ((j : ℕ) → j < n → bit j bucket ≡ false)
      → (k : ℕ) → start + viewed ≤ k
      → k < start + viewed + n
      → u k ≡ false
  seen start viewed left bucket s n le clear k lo hi =
      let place : start + viewed + (k - (start + viewed)) ≡ k = omega arith in
      ap u (sym place)
      ∙ sym (s.bits (k - (start + viewed)) (omega arith))
      ∙ clear (k - (start + viewed)) (omega arith)

  -- The bucket after both shifts of a round.
  shifted-Shows :
      (start viewed left bucket zeroes ones : ℕ)
      → Shows start viewed left bucket
      → viewed + zeroes + ones < 64
      → Shows start
          (viewed + zeroes + ones)
          (bucket_bit_count - (viewed + zeroes + ones))
          (bucket / 2 ^ zeroes / 2 ^ ones)
  shifted-Shows start viewed left bucket zeroes ones s within =
      let rest = bucket_bit_count - (viewed + zeroes + ones) in
      let whole : left ≡ zeroes + (ones + rest) = omega (arith, s.sum) in
      record {
        sum = omega arith;
        small =
            shift-lt ones rest (bucket / 2 ^ zeroes)
              (shift-lt zeroes (ones + rest) bucket (subst (λ n. bucket < 2 ^ n) whole s.small));
        word = omega (
          arith,
          div-le_self bucket (2 ^ zeroes),
          div-le_self (bucket / 2 ^ zeroes) (2 ^ ones),
          s.word,
        );
        bits = λ j lt.
            let place : start + viewed + (zeroes + (ones + j))
                ≡ start + (viewed + zeroes + ones) + j =
              omega arith in
            bit-shift ones j (bucket / 2 ^ zeroes)
            ∙ bit-shift zeroes (ones + j) bucket
            ∙ s.bits (zeroes + (ones + j)) (omega (arith, s.sum))
            ∙ ap u place;
      }

  -- A run at the end of what was to be looked at, or one that is long enough.
  pub record Scanned (desired stop : ℕ) (r : Run) : Type 0 where
    pub pos : ℕ
    pub upto : pos ≤ stop
    pub run : IsRun pos r
    pub end : (pos ≡ stop) ⊎ (desired ≤ r.free)

  pub scan_bucket_lem :
      (desired fuel start bucket viewed left : ℕ) (r : Run)
      → Shows start viewed left bucket
      → IsRun (start + viewed) r
      → left < fuel
      → start + 64 < 2 ^ 64
      → (r' : Run) × (scan_bucket desired fuel start bucket viewed r ≡ some r')
        × Scanned desired (start + 64) r'
  unfolding scan_bucket
  scan_bucket_lem desired zero start bucket viewed left r s h f small = absurd (omega arith)
  scan_bucket_lem desired (suc fuel) start bucket viewed zero r s h f small =
      let done : not (ltb viewed bucket_bit_count) ≡ true = ground (arith, s.sum) in
      (
        r,
        rw done refl,
        record {
          pos = start + viewed;
          upto = omega (arith, s.sum);
          run = h;
          end = inl (omega (arith, s.sum));
        },
      )
  scan_bucket_lem desired (suc fuel) start bucket viewed (suc left) r s h f small =
      let more : not (ltb viewed bucket_bit_count) ≡ false = ground (arith, s.sum) in
      elim (Bool-cases (bucket == 0)) [
        | inl empty ↦
            let none_set = λ (j : ℕ) (lt : j < bucket_bit_count - viewed).
              subst (λ w. bit j w ≡ false) (sym ((==_iff bucket 0).0 empty)) (bit-zero j) in
            let free =
              seen start viewed (suc left) bucket s (bucket_bit_count - viewed)
                (omega (arith, s.sum)) none_set in
            (
              extend (start + viewed) (bucket_bit_count - viewed) r,
              rw more (rw empty refl),
              record {
                pos = start + viewed + (bucket_bit_count - viewed);
                upto = omega (arith, s.sum);
                run =
                    extend-IsRun (start + viewed) (bucket_bit_count - viewed) r h free
                      (omega (arith, s.sum));
                end = inl (omega (arith, s.sum));
              },
            )
        | inr some_bit ↦
            let zeroes = ctz 64 bucket in
            let longer = extend (start + viewed) zeroes r in
            let shifted = bucket / 2 ^ zeroes in
            let ones = ctz 64 (complement shifted) in
            let set : bucket ≢ 0 = λ e. ground arith in
            let few = ctz-lt 64 bucket (suc left) set s.small (omega (arith, s.sum)) in
            let free =
              seen start viewed (suc left) bucket s zeroes (omega (arith, few))
                (ctz-low 64 bucket) in
            let run = extend-IsRun (start + viewed) zeroes r h free (omega (arith, few, s.sum)) in
            let next = viewed + zeroes + ones in
            elim (Bool-cases (leb desired longer.free)) [
              | inl enough ↦ (
                longer,
                rw more (rw some_bit (rw enough refl)),
                record {
                  pos = start + viewed + zeroes;
                  upto = omega (arith, few, s.sum);
                  run = run;
                  end = inr (leb→le desired longer.free enough);
                },
              )
              | inr short ↦ elim (Bool-cases (ltb next bucket_bit_count)) [
                | inl within ↦
                    let progress = ones_pos bucket set s.word in
                    let (r', run', scanned) =
                      scan_bucket_lem desired fuel start (shifted / 2 ^ ones) next
                        (bucket_bit_count - next) (broken longer)
                        (shifted-Shows start viewed (suc left) bucket zeroes ones s
                          (ltb→lt next 64 within))
                        (broken-IsRun (start + next) longer)
                        (omega (arith, progress, s.sum, ltb→lt next 64 within)) small in
                    (r', rw more (rw some_bit (rw short run')), scanned)
                | inr over ↦ (
                  broken longer,
                  rw more (
                      rw some_bit (
                        rw short (
                          ended desired fuel start (shifted / 2 ^ ones) next (broken longer)
                            (omega arith) over))),
                  record {
                    pos = start + 64;
                    upto = omega arith;
                    run = broken-IsRun (start + 64) longer;
                    end = inl refl;
                  },
                )
              ]
            ]
      ]
