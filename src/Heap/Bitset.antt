-- ===== src/Heap/Bitset.antt =====
-- Chunks by the bits of their buckets, and the loops that set and clear the bits of a run.
use Prim.Native.Nat.{bit_and, bit_or}
use umbongo.Base.{
  ℕ, zero, suc, ◌+◌, ◌*◌, ◌/◌, ◌%◌, ◌^◌, ◌≤◌, ◌<◌, ◌≡◌, refl, ◌∙◌, List, Bool, true, false, not,
  ◌&&◌, ◌||◌, some, arith, ◌==◌, leb, ltb, if◌then◌else◌, get_or, set, get_or-set, get_elem?,
  get_elem?-eq-get_or, length, length-set,
}
use umbongo.Base.Bits.{
  bit, bit-bit_or, bit-bit_and, bit-pow, bit-complement, bit_and-pow, bit_or-lt, bit_and-le, pow-lt,
  complement,
}
use umbongo.Heap.{mask, bucket_of, set_chunks, clear_chunks}

-- Every bucket is a word, and they reach so far.
pub record IsValid (chunks : ℕ) (bitset : List ℕ) : Type 0 where
  pub buckets : chunks ≤ length bitset * 64
  pub words : (i : ℕ) → get_or bitset i 0 < 2 ^ 64

-- Whether a chunk is taken.
unfoldable pub is_taken : List ℕ → ℕ → Bool
is_taken bitset i = bit (i % 64) (get_or bitset (i / 64) 0)

eq_of_not : (b : Bool) → not b ≡ false → b ≡ true
eq_of_not true e = refl
eq_of_not false e = cc

bucket_of_lem : (i : ℕ) → bucket_of i ≡ i / 64
bucket_of_lem i = omega arith

-- A bitset in which the run of `n` chunks from `j` on is marked as `b`.
pub record Marked (b : Bool) (chunks j n : ℕ) (bitset bitset' : List ℕ) : Type 0 where
  pub valid : IsValid chunks bitset'
  pub taken :
      (k : ℕ) → is_taken bitset' k ≡ (if leb j k && ltb k (j + n) then b else is_taken bitset k)

mask_lt : (i : ℕ) → mask i < 2 ^ 64
mask_lt i = pow-lt 64 (i % 64) (omega arith)

-- The bitset after a write of a chunk's bucket.
abbrev updated : ℕ → (ℕ → ℕ) → List ℕ → List ℕ
updated i f bitset = set bitset (i / 64) (f (get_or bitset (i / 64) 0))

abbrev added : ℕ → List ℕ → List ℕ
added i = updated i (λ bucket. bit_or bucket (mask i))

abbrev dropped : ℕ → List ℕ → List ℕ
dropped i = updated i (λ bucket. bit_and bucket (complement (mask i)))

module _ {chunks : ℕ} {bitset : List ℕ} (v : IsValid chunks bitset) (i : ℕ) (h : i < chunks) where
  inside : i / 64 < length bitset
  inside = omega (arith, v.buckets)

  bucket_lem : get_elem? bitset (bucket_of i) ≡ some (get_or bitset (i / 64) 0)
  bucket_lem = rw (bucket_of_lem i) (get_elem?-eq-get_or bitset (i / 64) 0 inside)

  test_lem : not (bit_and (get_or bitset (i / 64) 0) (mask i) == 0) ≡ is_taken bitset i
  unfolding is_taken
  test_lem = bit_and-pow (i % 64) _

  updated-IsValid :
      (f : ℕ → ℕ) → ((w : ℕ) → w < 2 ^ 64 → f w < 2 ^ 64) → IsValid chunks (updated i f bitset)
  updated-IsValid f keep = record {
    buckets = omega (arith, v.buckets, length-set bitset (i / 64) (f (get_or bitset (i / 64) 0)));
    words = λ j. ground (
      arith,
      get_or-set bitset (i / 64) j (f (get_or bitset (i / 64) 0)) 0 inside,
      v.words j,
      keep (get_or bitset (i / 64) 0) (v.words (i / 64)),
    );
  }

  added-IsValid : IsValid chunks (added i bitset)
  added-IsValid = updated-IsValid _ (λ w hw. bit_or-lt 64 w (mask i) hw (mask_lt i))

  dropped-IsValid : IsValid chunks (dropped i bitset)
  dropped-IsValid =
      updated-IsValid (λ w. bit_and w (complement (mask i)))
        (λ w hw. omega (arith, bit_and-le w (complement (mask i))))

  is_taken-added : (j : ℕ) → is_taken (added i bitset) j ≡ (i == j || is_taken bitset j)
  unfolding is_taken
  is_taken-added j = ground (
    arith,
    get_or-set bitset (i / 64) (j / 64) (bit_or (get_or bitset (i / 64) 0) (mask i)) 0 inside,
    bit-bit_or (j % 64) (get_or bitset (i / 64) 0) (mask i),
    bit-pow (j % 64) (i % 64),
  )

  is_taken-dropped : (j : ℕ) → is_taken (dropped i bitset) j ≡ (not (i == j) && is_taken bitset j)
  unfolding is_taken
  is_taken-dropped j = ground (
    arith,
    get_or-set bitset (i / 64) (j / 64) (bit_and (get_or bitset (i / 64) 0) (complement (mask i))) 0
        inside,
    bit-bit_and (j % 64) (get_or bitset (i / 64) 0) (complement (mask i)),
    bit-complement (j % 64) (mask i) (omega arith) (mask_lt i),
    bit-pow (j % 64) (i % 64),
  )

pub set_chunks_lem :
    (n j : ℕ) {chunks : ℕ} {bitset : List ℕ}
    → IsValid chunks bitset
    → j + n ≤ chunks
    → ((k : ℕ) → j ≤ k → k < j + n → is_taken bitset k ≡ false)
    → (bitset' : List ℕ) × (set_chunks n j bitset ≡ some bitset')
      × Marked true chunks j n bitset bitset'
unfolding set_chunks
set_chunks_lem zero j {bitset = bitset} v h all =
    (bitset, refl, record { valid = v; taken = λ k. ground arith })
set_chunks_lem (suc n) j {bitset = bitset} v h all =
    let within : j < _ = omega arith in
    let free = eq_of_not _ (test_lem v j within ∙ all j (omega arith) (omega arith)) in
    let rest = λ (k : ℕ) (lo : j + 1 ≤ k) (hi : k < j + 1 + n).
      is_taken-added v j within k ∙ ground (arith, all k (omega arith) (omega arith)) in
    let (bitset', run, marked) =
      set_chunks_lem n (j + 1) (added-IsValid v j within) (omega arith) rest in
    (
      bitset',
      rw (bucket_lem v j within, free, bucket_of_lem j) run,
      record {
        valid = marked.valid;
        taken = λ k. ground (arith, marked.taken k, is_taken-added v j within k);
      },
    )

pub clear_chunks_lem :
    (n j : ℕ) {chunks : ℕ} {bitset : List ℕ}
    → IsValid chunks bitset
    → j + n ≤ chunks
    → ((k : ℕ) → j ≤ k → k < j + n → is_taken bitset k ≡ true)
    → (bitset' : List ℕ) × (clear_chunks n j bitset ≡ some bitset')
      × Marked false chunks j n bitset bitset'
unfolding clear_chunks
clear_chunks_lem zero j {bitset = bitset} v h all =
    (bitset, refl, record { valid = v; taken = λ k. ground arith })
clear_chunks_lem (suc n) j {bitset = bitset} v h all =
    let within : j < _ = omega arith in
    let taken = test_lem v j within ∙ all j (omega arith) (omega arith) in
    let rest = λ (k : ℕ) (lo : j + 1 ≤ k) (hi : k < j + 1 + n).
      is_taken-dropped v j within k ∙ ground (arith, all k (omega arith) (omega arith)) in
    let (bitset', run, marked) =
      clear_chunks_lem n (j + 1) (dropped-IsValid v j within) (omega arith) rest in
    (
      bitset',
      rw (bucket_lem v j within, taken, bucket_of_lem j) run,
      record {
        valid = marked.valid;
        taken = λ k. ground (arith, marked.taken k, is_taken-dropped v j within k);
      },
    )
