-- ===== src/Shell/LineEditor/Edits.antt =====
-- What the editor's loops do to the line, written as what is before the cursor and what is behind it.
use umbongo.Base.{
  ℕ, zero, suc, ◌+◌, ◌^◌, ◌≤◌, ◌<◌, ◌≡◌, refl, sym, ap, ◌∙◌, List, [], ◌∷◌, ◌++◌, append_assoc,
  append-nil, some, true, arith, length, length-append, get_or, add_u32, sub_u32, eq_nil_of_length,
  ltb, lt→ltb, Bool-cases, inl, inr, ◌==◌, get_elem?-eq-get_or,
}
use umbongo.Base.Vector.{
  put, move_elem, put-set, set-append, move_elem-append, last_view, take-append, drop_cons-append,
}
use umbongo.Shell.Lexer.Words.{All}
use umbongo.Shell.LineBuffer.{remove, remove_before, shift_right, word_right, word_left}

module _ {ℓ κ} {A : Type ℓ} (P : A → Type κ) where
  pub All-append : (xs ys : List A) → All P xs → All P ys → All P (xs ++ ys)
  All-append [] ys h k = k
  All-append (x ∷ xs) ys h k = (h.0, All-append xs ys h.1 k)

  pub All-front : (xs ys : List A) → All P (xs ++ ys) → All P xs
  All-front [] ys h = tt
  All-front (x ∷ xs) ys h = (h.0, All-front xs ys h.1)

  pub All-back : (xs ys : List A) → All P (xs ++ ys) → All P ys
  All-back [] ys h = h
  All-back (x ∷ xs) ys h = All-back xs ys h.1

  pub All-get_or : (xs : List A) (i : ℕ) (d : A) → All P xs → i < length xs → P (get_or xs i d)
  All-get_or [] i d h k = absurd (omega arith)
  All-get_or (x ∷ xs) zero d h k = h.0
  All-get_or (x ∷ xs) (suc i) d h k = All-get_or xs i d h.1 (omega arith)

pub remove-append :
    (xs : List ℕ) (w : ℕ) (ws : List ℕ) (n : ℕ)
    → n ≡ length xs
    → remove n (xs ++ w ∷ ws) ≡ some (xs ++ ws)
unfolding remove
remove-append xs w ws n e =
    let inside : ltb n (length (xs ++ w ∷ ws)) ≡ true =
      lt→ltb n (length (xs ++ w ∷ ws)) (omega (arith, length-append xs (w ∷ ws))) in
    let next : n + 1 ≡ suc n = omega arith in
    rw (inside, next, take-append xs (w ∷ ws) n e, drop_cons-append xs w ws n e)

pub remove_before-append :
    (n : ℕ) (xs ws : List ℕ) → n ≡ length xs → remove_before n (xs ++ ws) ≡ some ws
unfolding remove_before
remove_before-append zero xs ws e = rw (eq_nil_of_length xs (sym e))
remove_before-append (suc n) xs ws e =
    let (ys, y, split, len) = last_view xs n (sym e) in
    let shape : xs ++ ws ≡ ys ++ y ∷ ws = rw split (append_assoc ys (y ∷ []) ws) in
    rw (shape, remove-append ys y ws n (sym len)) (remove_before-append n ys ws (sym len))

-- The loop moves `ws` one place to the right; what it leaves behind is to be overwritten.
shift_right-append :
    (i pos : ℕ) (xs ws : List ℕ) (z : ℕ) (ys : List ℕ)
    → pos ≡ length xs
    → i ≡ length ws
    → pos + i < 2 ^ 32
    → (x : ℕ) × (shift_right i pos (xs ++ (ws ++ z ∷ ys)) ≡ some (xs ++ x ∷ (ws ++ ys)))
unfolding shift_right
shift_right-append zero pos xs ws z ys e f small = (z, rw (eq_nil_of_length ws (sym f)))
shift_right-append (suc i) pos xs ws z ys e f small =
    let (vs, w, split, len) = last_view ws i (sym f) in
    let moved : move_elem (xs ++ (ws ++ z ∷ ys)) (add_u32 pos (suc i)) (add_u32 pos i)
        ≡ some (xs ++ (vs ++ w ∷ w ∷ ys)) =
      rw split (
        move_elem-append xs vs w z ys (add_u32 pos i) (add_u32 pos (suc i)) (omega (arith, len))
          (omega arith)) in
    let (x, ran) = shift_right-append i pos xs vs w (w ∷ ys) e (sym len) (omega arith) in
    let shape : vs ++ w ∷ ys ≡ ws ++ ys = rw split (sym (append_assoc vs (w ∷ []) ys)) in
    (x, rw moved (rw (ran, shape)))

-- Room is made at the end, and a character is put before `ws`.
pub shift_right-put :
    (pos : ℕ) (xs ws : List ℕ) (ch : ℕ)
    → pos ≡ length xs
    → length (xs ++ ws) + 1 < 2 ^ 32
    → (v : List ℕ) × (shift_right
          (sub_u32 (sub_u32 (length (xs ++ ws) + 1) pos) 1)
          pos
          ((xs ++ ws) ++ 0 ∷ [])
        ≡ some v)
      × (put v pos ch ≡ some (xs ++ ch ∷ ws))
shift_right-put pos xs ws ch e small =
    let len = length-append xs ws in
    let rounds : sub_u32 (sub_u32 (length (xs ++ ws) + 1) pos) 1 ≡ length ws = omega (arith, len) in
    let (x, ran) =
      shift_right-append (sub_u32 (sub_u32 (length (xs ++ ws) + 1) pos) 1) pos xs ws 0 [] e rounds
        (omega (arith, len)) in
    (
      xs ++ x ∷ ws,
      rw (append_assoc xs ws (0 ∷ []), ran, append-nil ws),
      put-set (xs ++ x ∷ ws) pos ch (omega (arith, length-append xs (x ∷ ws)))
          ∙ ap some (set-append xs x ws pos ch e),
    )

-- The cursor goes right by at most the characters that are there.
pub word_right_lem :
    (n pos : ℕ) (v : List ℕ)
    → pos + n ≡ length v
    → (k : ℕ) × (word_right n pos v ≡ some k) × (k ≤ n)
unfolding word_right
word_right_lem zero pos v e = (0, refl, omega arith)
word_right_lem (suc n) pos v e = elim (Bool-cases (pos + 1 == length v)) [
  | inl end ↦ (1, rw end, omega arith)
  | inr more ↦
      let inside : pos + 1 < length v = ground arith in
      let (k, ran, small) = word_right_lem n (pos + 1) v (omega arith) in
      elim (Bool-cases (get_or v (pos + 1) 0 == 32)) [
        | inl blank ↦ (1, rw (more, get_elem?-eq-get_or v (pos + 1) 0 inside, blank), omega arith)
        | inr ink ↦ (
          suc k,
          rw (more, get_elem?-eq-get_or v (pos + 1) 0 inside, ink, ran),
          omega (arith, small),
        )
      ]
]

pub word_left_lem :
    (i : ℕ) (v : List ℕ) → i ≤ length v → (k : ℕ) × (word_left i v ≡ some k) × (k ≤ i)
unfolding word_left
word_left_lem zero v h = (0, refl, omega arith)
word_left_lem (suc i) v h =
    let (k, ran, small) = word_left_lem i v (omega arith) in
    elim (Bool-cases (get_or v i 0 == 32)) [
      | inl blank ↦ (i, rw (get_elem?-eq-get_or v i 0 (omega arith), blank), omega arith)
      | inr ink ↦ (k, rw (get_elem?-eq-get_or v i 0 (omega arith), ink, ran), omega (arith, small))
    ]
