-- ===== src/Frames/Inv.antt =====
-- The frame bitset as a set of frames: which frames are used, and what setting and clearing one does.
use Prim.Native.Nat.{bit_and, bit_or}
use umbongo.Base.{
  ℕ, ◌+◌, ◌/◌, ◌%◌, ◌^◌, ◌<◌, ◌≡◌, refl, ap, Bool, not, ◌&&◌, ◌||◌, some, arith, ◌==◌, get_or, set,
  get_or-set, get_elem?-eq-get_or, length, length-set,
}
use umbongo.Base.Bits.{
  bit, bit-bit_or, bit-bit_and, bit-pow, bit-complement, bit_and-pow, bit_or-lt, bit_and-le, pow-lt,
  complement,
}
use umbongo.Frames.{
  Frames, bucket_index, mask, frame_bitset_bucket, update_bucket, clear_frame, set_frame,
  is_frame_set,
}

-- Every frame below `frame_count` has a bucket, buckets are words, and no sum on frames wraps.
pub record IsValid (m : Frames) : Type 0 where
  pub small : m.frame_count < 2 ^ 52
  pub buckets : (m.frame_count + 63) / 64 < length m.frame_bitset
  pub words : (i : ℕ) → get_or m.frame_bitset i 0 < 2 ^ 64

-- Whether a frame is taken, by the bit of its bucket.
unfoldable pub is_used : Frames → ℕ → Bool
is_used m i = bit (i % 64) (get_or m.frame_bitset (bucket_index i) 0)

-- The state after a write of a frame's bucket.
pub updated : ℕ → (ℕ → ℕ) → Frames → Frames
updated i f m = record m {
  frame_bitset = set m.frame_bitset (bucket_index i) (f (get_or m.frame_bitset (bucket_index i) 0));
}

module _ {m : Frames} (v : IsValid m) (i : ℕ) (h : i < m.frame_count) where
  bucket_in : bucket_index i < length m.frame_bitset
  bucket_in = omega (arith, v.buckets, v.small)

  frame_bitset_bucket_lem :
      frame_bitset_bucket i m ≡ some (get_or m.frame_bitset (bucket_index i) 0)
  unfolding frame_bitset_bucket
  frame_bitset_bucket_lem =
      ground (arith, get_elem?-eq-get_or m.frame_bitset (bucket_index i) 0 bucket_in)

  pub is_frame_set_lem : is_frame_set i m ≡ some (is_used m i)
  unfolding is_frame_set is_used
  is_frame_set_lem = rw frame_bitset_bucket_lem (ap some (bit_and-pow (i % 64) _))

  update_bucket_lem : (f : ℕ → ℕ) → update_bucket i f m ≡ some (updated i f m)
  unfolding update_bucket updated
  update_bucket_lem f = rw frame_bitset_bucket_lem

  updated-IsValid : (f : ℕ → ℕ) → ((w : ℕ) → w < 2 ^ 64 → f w < 2 ^ 64) → IsValid (updated i f m)
  unfolding updated
  updated-IsValid f keep = record {
    small = v.small;
    buckets = omega (
      arith,
      v.buckets,
      length-set m.frame_bitset (bucket_index i) (f (get_or m.frame_bitset (bucket_index i) 0)),
    );
    words = λ j. ground (
      arith,
      get_or-set m.frame_bitset (bucket_index i) j (f (get_or m.frame_bitset (bucket_index i) 0)) 0
          bucket_in,
      v.words j,
      keep (get_or m.frame_bitset (bucket_index i) 0) (v.words (bucket_index i)),
    );
  }

  mask_lt : mask i < 2 ^ 64
  mask_lt = pow-lt 64 (i % 64) (omega arith)

-- The states that setting and clearing a frame leave.
abbrev pub claimed : ℕ → Frames → Frames
claimed i = updated i (λ bucket. bit_or bucket (mask i))

abbrev pub released : ℕ → Frames → Frames
released i = updated i (λ bucket. bit_and bucket (complement (mask i)))

module _ {m : Frames} (v : IsValid m) (i : ℕ) (h : i < m.frame_count) where
  pub set_frame_lem : set_frame i m ≡ some (claimed i m)
  unfolding set_frame
  set_frame_lem = update_bucket_lem v i h (λ bucket. bit_or bucket (mask i))

  pub clear_frame_lem : clear_frame i m ≡ some (released i m)
  unfolding clear_frame
  clear_frame_lem = update_bucket_lem v i h (λ bucket. bit_and bucket (complement (mask i)))

  pub claimed-IsValid : IsValid (claimed i m)
  claimed-IsValid = updated-IsValid v i h _ (λ w hw. bit_or-lt 64 w (mask i) hw (mask_lt v i h))

  pub released-IsValid : IsValid (released i m)
  released-IsValid =
      updated-IsValid v i h _ (λ w hw. omega (arith, bit_and-le w (complement (mask i))))

  pub is_used-claimed :
      (j : ℕ) → j < m.frame_count → is_used (claimed i m) j ≡ (i == j || is_used m j)
  unfolding is_used updated
  is_used-claimed j hj = ground (
    arith,
    v.small,
    get_or-set m.frame_bitset (bucket_index i) (bucket_index j)
        (bit_or (get_or m.frame_bitset (bucket_index i) 0) (mask i)) 0 (bucket_in v i h),
    bit-bit_or (j % 64) (get_or m.frame_bitset (bucket_index i) 0) (mask i),
    bit-pow (j % 64) (i % 64),
  )

  pub is_used-released :
      (j : ℕ) → j < m.frame_count → is_used (released i m) j ≡ (not (i == j) && is_used m j)
  unfolding is_used updated
  is_used-released j hj = ground (
    arith,
    v.small,
    get_or-set m.frame_bitset (bucket_index i) (bucket_index j)
        (bit_and (get_or m.frame_bitset (bucket_index i) 0) (complement (mask i))) 0
        (bucket_in v i h),
    bit-bit_and (j % 64) (get_or m.frame_bitset (bucket_index i) 0) (complement (mask i)),
    bit-complement (j % 64) (mask i) (omega arith) (mask_lt v i h),
    bit-pow (j % 64) (i % 64),
  )

pub frame_count-updated :
    (i : ℕ) (f : ℕ → ℕ) (m : Frames) → (updated i f m).frame_count ≡ m.frame_count
unfolding updated
frame_count-updated i f m = refl
