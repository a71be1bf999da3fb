-- ===== src/Strings/Builder/Room.antt =====
-- Every format of a number leaves room in the builder's buffer.
use umbongo.Base.{
  ℕ, zero, suc, ◌+◌, ◌-◌, ◌%◌, ◌^◌, ◌≤◌, ◌<◌, ◌≡◌, refl, sym, subst, ◌∙◌, List, [], ◌∷◌, ◌++◌,
  Option, some, true, false, arith, ◌||◌, if◌then◌else◌, ltb, lt→ltb, ◌==◌, length, length-append,
  Bool-cases, inl, inr,
}
use umbongo.Base.Panic.{◌>>=◌}
use umbongo.Strings.Builder.{
  digits_of, emit, append_single, buf_size, pad_with, push_buf, padded, prefixed, opt, base_of,
}
use umbongo.Strings.Builder.Print.{FitsIn, digits_of-FitsIn}

push_buf-FitsIn :
    (k ch : ℕ) (buf : List ℕ) → length buf ≤ k → k < buf_size → FitsIn (suc k) (push_buf ch buf)
push_buf-FitsIn k ch buf h small =
    let test : ltb (length buf) 20 ≡ true = lt→ltb (length buf) 20 (omega arith) in
    (buf ++ ch ∷ [], (rw test, omega (arith, length-append buf (ch ∷ []))))

pad_with-FitsIn :
    (n k ch : ℕ) (buf : List ℕ) → length buf + n ≤ k → k ≤ buf_size → FitsIn k (pad_with n ch buf)
unfolding pad_with
pad_with-FitsIn zero k ch buf h small = (buf, (refl, omega arith))
pad_with-FitsIn (suc n) k ch buf h small =
    let (buf', (e, short)) = push_buf-FitsIn (length buf) ch buf (omega arith) (omega arith) in
    let (buf'', (e', short')) = pad_with-FitsIn n k ch buf' (omega arith) small in
    (buf'', ((rw e) ∙ e', short'))

padded-FitsIn :
    (k : ℕ) (opts buf : List ℕ)
    → length buf ≤ k
    → opt 2 opts ≤ 48 + k
    → k ≤ buf_size
    → FitsIn k (padded opts buf)
padded-FitsIn k opts buf h width small = elim (Bool-cases (opt 2 opts == 0)) [
  | inl unpadded ↦ (buf, ((rw unpadded), h))
  | inr more ↦
      let (buf', (e, short)) =
        pad_with-FitsIn (opt 2 opts - 48 - length buf) k
          (if opt 3 opts == 0 then 48 else opt 3 opts) buf (omega arith) small in
      (buf', ((rw more) ∙ e, short))
]

prefixed-FitsIn :
    (opts buf : List ℕ) → length buf ≤ 18 → (out : List ℕ) × (prefixed opts buf ≡ some out)
prefixed-FitsIn opts buf h = elim (Bool-cases (opt 1 opts == 104)) [
  | inl hex ↦
      let (buf', (e, short)) = push_buf-FitsIn 18 120 buf h (omega arith) in
      let (buf'', (e', _)) = push_buf-FitsIn 19 48 buf' short (omega arith) in
      let pushed : push_buf 120 buf >>= push_buf 48 ≡ some buf'' = (rw e) ∙ e' in
      (buf'', (rw hex) ∙ pushed)
  | inr plain ↦ (buf, rw plain)
]

-- The text of a number once its digits are in the buffer.
finish :
    (opts : List ℕ) (arg k : ℕ)
    → (opt 1 opts == 99) ≡ false
    → k ≤ buf_size
    → opt 2 opts ≤ 48 + k
    → ((buf : List ℕ) → length buf ≤ k → (out : List ℕ) × (prefixed opts buf ≡ some out))
    → FitsIn k (digits_of buf_size (base_of opts) arg)
    → (text : List ℕ) × (append_single opts arg ≡ some text)
unfolding append_single
finish opts arg k other small width prefix (buf, (e, short)) =
    let (buf', (e', short')) = padded-FitsIn k opts buf short width small in
    let (out, e'') = prefix buf' short' in
    let text : digits_of buf_size (base_of opts) arg
          >>= padded opts
          >>= prefixed opts
          >>= (λ buf. some (emit buf))
        ≡ some (emit out) =
      rw (e, e', e'') in
    (emit out, (rw other) ∙ text)

one_char :
    (opts : List ℕ) (arg : ℕ)
    → (opt 1 opts == 99) ≡ true
    → (text : List ℕ) × (append_single opts arg ≡ some text)
unfolding append_single
one_char opts arg char = (arg % 256 ∷ [], rw char)

widen : {r : Option (List ℕ)} → FitsIn 16 r → FitsIn 18 r
widen (buf, (e, short)) = (buf, (e, omega arith))

-- Whatever the format, a 64-bit number never overruns the builder's buffer, if it is padded to at
-- most 18 places; the parser of the formats takes one digit for them.
pub append_single-ne-none :
    (opts : List ℕ) (arg : ℕ)
    → arg < 2 ^ 64
    → opt 2 opts ≤ 66
    → (text : List ℕ) × (append_single opts arg ≡ some text)
append_single-ne-none opts arg small width = elim (Bool-cases (opt 1 opts == 99)) [
  | inl char ↦ one_char opts arg char
  | inr other ↦ elim (Bool-cases (opt 1 opts == 104 || opt 1 opts == 120)) [
    | inl hex ↦
        let base : base_of opts ≡ 16 = rw hex in
        let digits : FitsIn 16 (digits_of 20 16 arg) =
          digits_of-FitsIn 19 15 16 arg (omega arith) (omega arith) (omega arith) in
        let digits' : FitsIn 18 (digits_of buf_size (base_of opts) arg) =
          subst (λ b. FitsIn 18 (digits_of 20 b arg)) (sym base) (widen digits) in
        finish opts arg 18 other (omega arith) width (prefixed-FitsIn opts) digits'
    | inr decimal ↦
        let base : base_of opts ≡ 10 = rw decimal in
        let digits : FitsIn 20 (digits_of 20 10 arg) =
          digits_of-FitsIn 19 19 10 arg (omega arith) (omega arith) (omega arith) in
        let digits' = subst (λ b. FitsIn 20 (digits_of 20 b arg)) (sym base) digits in
        let bare : (opt 1 opts == 104) ≡ false = ground arith in
        finish opts arg 20 other (omega arith) (omega arith) (λ buf _. (buf, rw bare)) digits'
  ]
]
