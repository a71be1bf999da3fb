-- ===== src/Messages/Bytes.antt =====
-- One encode, and one decode, as what they do to the bytes of a message.
use native.Mathlib.Nat.{pow-suc}
use umbongo.Base.{
  ℕ, zero, suc, ◌+◌, ◌/◌, ◌^◌, ◌<◌, ◌≡◌, refl, ap, ap₂, ◌∙◌, List, ◌++◌, some, true, arith, length,
  length-append, ltb, leb, lt→ltb, add_size, copy_in, copy_out, length-copy_in, copy_out-append,
  copy_out-copy_in_before, copy_out-copy_in_self,
}
use umbongo.Base.Vector.{take-append, drop-append}
use umbongo.Messages.{MessageEncoder, to_bytes, of_bytes, encode_bytes, decode_bytes}

pub length-to_bytes : (n v : ℕ) → length (to_bytes n v) ≡ n
unfolding to_bytes
length-to_bytes zero v = refl
length-to_bytes (suc n) v = ap suc (length-to_bytes n (v / 256))

pub of_bytes-to_bytes : (n v : ℕ) → v < 256 ^ n → of_bytes (to_bytes n v) ≡ v
unfolding to_bytes of_bytes
of_bytes-to_bytes zero v h = omega arith
of_bytes-to_bytes (suc n) v h =
    let h' = (rw (pow-suc 256 n) at h) in
    omega (arith, of_bytes-to_bytes n (v / 256) (omega (arith, h')))

-- The bytes that are encoded so far.
abbrev pub written : MessageEncoder → List ℕ
written e = copy_out e.buffer 0 e.size

pub encode_bytes_lem :
    (obj : List ℕ) (e : MessageEncoder)
    → e.size + length obj < length e.buffer
    → length e.buffer < 2 ^ 64
    → (f : MessageEncoder) × (encode_bytes obj e ≡ some f)
      × (written f ≡ written e ++ obj)
      × (f.size ≡ e.size + length obj)
      × (length f.buffer ≡ length e.buffer)
unfolding encode_bytes
encode_bytes_lem obj e room small =
    let end : add_size e.size (length obj) ≡ e.size + length obj = omega arith in
    let memory = copy_in e.buffer e.size obj in
    let inside : ltb (e.size + length obj) (length e.buffer) ≡ true =
      lt→ltb (e.size + length obj) (length e.buffer) room in
    (
      record e { buffer = memory; size = e.size + length obj },
      rw (end, inside),
      copy_out-append memory 0 e.size (length obj) (e.size + length obj) e.size refl (omega arith)
          ∙ ap₂ (λ s t. s ++ t) (copy_out-copy_in_before e.buffer obj e.size 0 e.size (omega arith))
              (copy_out-copy_in_self e.buffer obj e.size (omega arith)),
      refl,
      length-copy_in e.buffer e.size obj,
    )

pub decode_bytes-append :
    (xs obj ys : List ℕ) (n at : ℕ)
    → at ≡ length xs
    → n ≡ length obj
    → decode_bytes n (record { buffer = xs ++ (obj ++ ys); bytes_decoded = at })
      ≡ some (obj, record { buffer = xs ++ (obj ++ ys); bytes_decoded = at + n })
unfolding decode_bytes copy_out
decode_bytes-append xs obj ys n at e f =
    let inside : leb (at + n) (length (xs ++ (obj ++ ys))) ≡ true =
      ground (arith, e, f, length-append xs (obj ++ ys), length-append obj ys) in
    rw (inside, drop-append xs (obj ++ ys) at e, take-append obj ys n f)
