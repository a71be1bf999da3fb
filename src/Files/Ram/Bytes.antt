-- ===== src/Files/Ram/Bytes.antt =====
-- The bytes of a file in memory after a write, and what reads of it give.
use umbongo.Base.{
  ℕ, zero, suc, ◌+◌, ◌-◌, ◌^◌, ◌≤◌, ◌<◌, ◌≡◌, refl, sym, ap, ◌∙◌, List, [], ◌∷◌, ◌++◌, append-nil,
  some, true, ◌&&◌, Bool-cases, inl, inr, leb, ltb, if◌then◌else◌, arith, length, length-append,
  length-replicate, get_or, replicate, take, eq_nil_of_length, add_size, sub_size, copy_in,
  copy_out, length-copy_in, copy_out-copy_in_self, max,
}
use umbongo.Base.Vector.{copy_in-append}
use umbongo.Files.Ram.{RamFsInode, ensure_size, read, write}

get_or-copy_in :
    (memory : List ℕ) (at : ℕ) (source : List ℕ) (i : ℕ)
    → at + length source ≤ length memory
    → get_or (copy_in memory at source) i 0 ≡ (
        if leb at i && ltb i (at + length source)
        then get_or source (i - at) 0
        else get_or memory i 0)
unfolding copy_in
get_or-copy_in [] at source i h = ground arith
get_or-copy_in (y ∷ memory) (suc at) source zero h = ground arith
get_or-copy_in (y ∷ memory) (suc at) source (suc i) h =
    get_or-copy_in memory at source i (omega arith) ∙ ground arith
get_or-copy_in (y ∷ memory) zero [] i h = ground arith
get_or-copy_in (y ∷ memory) zero (x ∷ source) zero h = ground arith
get_or-copy_in (y ∷ memory) zero (x ∷ source) (suc i) h =
    get_or-copy_in memory zero source i (omega arith) ∙ ground arith

abbrev zeros : ℕ → List ℕ
zeros n = replicate n 0

get_or-replicate : (n i : ℕ) → ◌≡◌ {A = ℕ} (get_or (zeros n) i 0) 0
get_or-replicate zero i = refl
get_or-replicate (suc n) zero = refl
get_or-replicate (suc n) (suc i) = get_or-replicate n i

get_or-zeros : (v : List ℕ) (n i : ℕ) → get_or (v ++ replicate n 0) i 0 ≡ get_or v i 0
get_or-zeros [] n i = get_or-replicate n i
get_or-zeros (x ∷ v) n zero = refl
get_or-zeros (x ∷ v) n (suc i) = get_or-zeros v n i

length-zeros : (n : ℕ) → length (zeros n) ≡ n
length-zeros n = let none_set : ℕ = 0 in length-replicate n none_set

length-ensure_size : (size : ℕ) (v : List ℕ) → length (ensure_size size v) ≡ max size (length v)
unfolding ensure_size
length-ensure_size size v =
    ground (arith, length-append v (zeros (size - length v)), length-zeros (size - length v))

get_or-ensure_size :
    (size : ℕ) (v : List ℕ) (i : ℕ) → get_or (ensure_size size v) i 0 ≡ get_or v i 0
unfolding ensure_size
get_or-ensure_size size v i = elim (Bool-cases (leb size (length v))) [
  | inl e ↦ rw e
  | inr e ↦ rw e (get_or-zeros v (size - length v) i)
]

-- A write returns as many bytes as it is given. Behind it the file is as long as before, or up to
-- the end of the write if that is further; the bytes of the write are the ones given, every other
-- byte is as before, and zero where the file was shorter. The end of the write is below 2^64.
pub get_or-write :
    (source : List ℕ) (offset : ℕ) (inode : RamFsInode) (i : ℕ)
    → offset + length source < 2 ^ 64
    → (after : RamFsInode) × (write source offset inode ≡ some (length source, after))
      × (length after.bytes ≡ max (offset + length source) (length inode.bytes))
      × (get_or after.bytes i 0 ≡ (
          if leb offset i && ltb i (offset + length source)
          then get_or source (i - offset) 0
          else get_or inode.bytes i 0))
unfolding write
get_or-write source offset inode i small =
    let total = add_size offset (length source) in
    let end : total ≡ offset + length source = omega arith in
    let grown = ensure_size total inode.bytes in
    let len : length grown ≡ max (offset + length source) (length inode.bytes) =
      length-ensure_size total inode.bytes ∙ ap (λ t. max t (length inode.bytes)) end in
    let fits : leb (offset + length source) (length grown) ≡ true = ground (arith, len) in
    (
      record inode { bytes = copy_in grown offset source },
      rw fits,
      length-copy_in grown offset source ∙ len,
      get_or-copy_in grown offset source i (omega (arith, len))
          ∙ ap
              (λ t.
                if leb offset i && ltb i (offset + length source)
                then get_or source (i - offset) 0
                else t)
              (get_or-ensure_size total inode.bytes i),
    )

-- What is written at an offset is read back there. The end of the write and the length of the
-- file are below 2^64.
pub read-write :
    (source : List ℕ) (offset : ℕ) (inode : RamFsInode)
    → offset + length source < 2 ^ 64
    → length inode.bytes < 2 ^ 64
    → (after : RamFsInode) × (write source offset inode ≡ some (length source, after))
      × (read (length source) offset after ≡ source)
unfolding write read
read-write source offset inode small small' =
    let total = add_size offset (length source) in
    let end : total ≡ offset + length source = omega arith in
    let grown = ensure_size total inode.bytes in
    let len : length grown ≡ max (offset + length source) (length inode.bytes) =
      length-ensure_size total inode.bytes ∙ ap (λ t. max t (length inode.bytes)) end in
    let fits : leb (offset + length source) (length grown) ≡ true = ground (arith, len) in
    let after = record inode { bytes = copy_in grown offset source } in
    let len' = length-copy_in grown offset source in
    let all : (if ltb (sub_size (length after.bytes) offset) (length source)
          then sub_size (length after.bytes) offset
          else length source)
        ≡ length source =
      ground (arith, len, len') in
    (
      after,
      rw fits,
      elim (Bool-cases (leb (length after.bytes) offset)) [
        | inr inside ↦
            rw (inside, all) (copy_out-copy_in_self grown source offset (omega (arith, len)))
        | inl outside ↦
            rw outside (sym (eq_nil_of_length source (ground (arith, outside, len, len'))))
      ],
    )

-- A write at the end appends.
pub write-end :
    (source : List ℕ) (inode : RamFsInode)
    → length inode.bytes + length source < 2 ^ 64
    → write source (length inode.bytes) inode
      ≡ some (length source, record inode { bytes = inode.bytes ++ source })
unfolding write ensure_size
write-end source inode small =
    let v = inode.bytes in
    let total = add_size (length v) (length source) in
    let end : total ≡ length v + length source = omega arith in
    let grown : ensure_size total v ≡ v ++ zeros (length source) =
      elim (Bool-cases (leb total (length v))) [
        | inl short ↦
            let nil : length source ≡ 0 = ground (arith, short) in
            rw (short, nil) (sym (append-nil v))
        | inr long ↦ let gap : total - length v ≡ length source = omega arith in rw (long, gap)
      ] in
    let fits : leb (length v + length source) (length (v ++ zeros (length source))) ≡ true =
      ground (arith, length-append v (zeros (length source)), length-zeros (length source)) in
    let copied : copy_in (v ++ zeros (length source)) (length v) source ≡ v ++ source =
      ap (λ t. copy_in (v ++ t) (length v) source) (sym (append-nil (zeros (length source))))
      ∙ copy_in-append v (zeros (length source)) source [] (length v) refl
          (sym (length-zeros (length source)))
      ∙ ap (λ t. v ++ t) (append-nil source) in
    rw (grown, fits) (ap (λ t. some (length source, record inode { bytes = t })) copied)

-- A read from the start gives the first bytes.
take-short : (n : ℕ) (v : List ℕ) → length v ≤ n → take n v ≡ v
take-short zero [] h = refl
take-short zero (x ∷ v) h = absurd (omega arith)
take-short (suc n) [] h = refl
take-short (suc n) (x ∷ v) h = ap (λ t. x ∷ t) (take-short n v (omega arith))

take-nil : (n : ℕ) → take {A = ℕ} n [] ≡ []
take-nil zero = refl
take-nil (suc n) = refl

pub read-start :
    (n : ℕ) (inode : RamFsInode) → length inode.bytes < 2 ^ 64 → read n 0 inode ≡ take n inode.bytes
unfolding read copy_out
read-start n inode small =
    let v = inode.bytes in
    let left : sub_size (length v) 0 ≡ length v = omega arith in
    elim (Bool-cases (leb (length v) 0)) [
      | inl empty ↦
          rw empty
            (sym (ap (λ t. take n t) (eq_nil_of_length v (ground (arith, empty))) ∙ take-nil n))
      | inr full ↦ elim (Bool-cases (ltb (length v) n)) [
        | inl long ↦
            rw (full, left, long)
              (take-short (length v) v (omega arith) ∙ sym (take-short n v (ground (arith, long))))
        | inr short ↦ rw (full, left, short)
      ]
    ]
