-- ===== src/Heap/Search.antt =====
-- `scan`: the runs of free chunks in the buckets of a bitset.
use umbongo.Base.{
  ℕ, zero, suc, ◌+◌, ◌*◌, ◌/◌, ◌%◌, ◌^◌, ◌≤◌, ◌<◌, ◌≡◌, refl, subst, ◌∙◌, List, true, false, inl,
  inr, some, arith, ◌==◌, ==_iff, leb→le, leb, Bool-cases, get_or, get_elem?-eq-get_or, length,
}
use umbongo.Base.Bits.{bit-zero}
use umbongo.Heap.{bucket_bit_count, limit, Run, extend, broken, scan}
use umbongo.Heap.Bitset.{is_taken}
use umbongo.Heap.Scan.{IsRun, extend-IsRun, broken-IsRun, Shows, Scanned, scan_bucket_lem}

scan-enough :
    (desired rounds index : ℕ) (bitset : List ℕ) (r : Run)
    → leb desired r.free ≡ true
    → scan desired rounds index bitset r ≡ some r
unfolding scan
scan-enough desired zero index bitset r e = refl
scan-enough desired (suc rounds) index bitset r e = rw e refl

bucket-Shows :
    (bitset : List ℕ) (index : ℕ)
    → get_or bitset index 0 < 2 ^ 64
    → Shows (is_taken bitset) (index * bucket_bit_count) 0 64 (get_or bitset index 0)
unfolding is_taken
bucket-Shows bitset index word = record {
  sum = omega arith;
  small = word;
  word = word;
  bits = λ j lt.
      let place : (index * bucket_bit_count + 0 + j) % 64 ≡ j = omega arith in
      let bucket : (index * bucket_bit_count + 0 + j) / 64 ≡ index = omega arith in
      rw (place, bucket) refl;
}

empty_bucket :
    (bitset : List ℕ) (index k : ℕ)
    → get_or bitset index 0 ≡ 0
    → index * bucket_bit_count ≤ k
    → k < index * bucket_bit_count + bucket_bit_count
    → is_taken bitset k ≡ false
unfolding is_taken
empty_bucket bitset index k e lo hi =
    let bucket : k / 64 ≡ index = omega arith in rw bucket (rw e (bit-zero (k % 64)))

pub scan_lem :
    (desired rounds index : ℕ) (bitset : List ℕ) (r : Run)
    → ((i : ℕ) → get_or bitset i 0 < 2 ^ 64)
    → index + rounds ≤ length bitset
    → length bitset < 2 ^ 57
    → IsRun (is_taken bitset) (index * bucket_bit_count) r
    → (r' : Run) × (scan desired rounds index bitset r ≡ some r')
      × Scanned (is_taken bitset) desired ((index + rounds) * bucket_bit_count) r'
unfolding scan
scan_lem desired zero index bitset r words room small h = (
  r,
  refl,
  record { pos = index * bucket_bit_count; upto = omega arith; run = h; end = inl (omega arith) },
)
scan_lem desired (suc rounds) index bitset r words room small h =
    let u = is_taken bitset in
    let start = index * bucket_bit_count in
    let bucket = get_or bitset index 0 in
    let found = get_elem?-eq-get_or bitset index 0 (omega arith) in
    let next : start + bucket_bit_count ≡ (index + 1) * bucket_bit_count = omega arith in
    let last : (index + 1 + rounds) * bucket_bit_count ≡ (index + suc rounds) * bucket_bit_count =
      omega arith in
    let onward = λ (r1 : Run) (run : IsRun u ((index + 1) * bucket_bit_count) r1).
      scan_lem desired rounds (index + 1) bitset r1 words (omega arith) small run in
    elim (Bool-cases (leb desired r.free)) [
      | inl enough ↦ (
        r,
        rw enough refl,
        record {
          pos = start;
          upto = omega arith;
          run = h;
          end = inr (leb→le desired r.free enough);
        },
      )
      | inr short ↦ elim (Bool-cases (bucket == 0)) [
        | inl empty ↦
            let free = λ (k : ℕ) (lo : start ≤ k) (hi : k < start + bucket_bit_count).
              empty_bucket bitset index k ((==_iff bucket 0).0 empty) lo hi in
            let (r', e, scanned) = onward (extend start bucket_bit_count r) (
              subst (λ p. IsRun u p (extend start bucket_bit_count r)) next
                (extend-IsRun u start bucket_bit_count r h free (omega arith))) in
            (r', rw short (rw found (rw empty e)), subst (λ p. Scanned u desired p r') last scanned)
        | inr some_bit ↦ elim (Bool-cases (bucket == limit)) [
          | inl full ↦
              let (r', e, scanned) =
                onward (broken r) (broken-IsRun u ((index + 1) * bucket_bit_count) r) in
              (
                r',
                rw short (rw found (rw some_bit (rw full e))),
                subst (λ p. Scanned u desired p r') last scanned,
              )
          | inr mixed ↦
              let begin : start ≡ start + 0 = omega arith in
              let (r1, e, scanned) =
                scan_bucket_lem u desired 65 start bucket 0 64 r
                  (bucket-Shows bitset index (words index)) (subst (λ p. IsRun u p r) begin h)
                  (omega arith) (omega arith) in
              elim (scanned.end) [
                | inl all ↦
                    let (r', f, scanned') =
                      onward r1 (subst (λ p. IsRun u p r1) (all ∙ next) scanned.run) in
                    (
                      r',
                      rw short (rw found (rw some_bit (rw mixed (rw e f)))),
                      subst (λ p. Scanned u desired p r') last scanned',
                    )
                | inr enough ↦
                    let stop = scan-enough desired rounds (index + 1) bitset r1 (ground arith) in
                    (
                      r1,
                      rw short (rw found (rw some_bit (rw mixed (rw e stop)))),
                      record {
                        pos = scanned.pos;
                        upto = omega (arith, scanned.upto);
                        run = scanned.run;
                        end = inr enough;
                      },
                    )
              ]
        ]
      ]
    ]
