-- ===== src/Console/Terminal/Edits.antt =====
-- What a character that is typed into a line, or taken out of it, does to the line.
use umbongo.Base.{
  ℕ, zero, suc, ◌+◌, ◌-◌, ◌/◌, ◌^◌, ◌<◌, ◌≡◌, refl, sym, ap, ◌∙◌, List, [], ◌∷◌, ◌++◌, append_assoc,
  append-nil, some, true, arith, length, length-append, length-set, add_u32, sub_u32, copy_in,
  copy_out, length-copy_in, eq_nil_of_length, ltb, lt→ltb,
}
use umbongo.Base.Vector.{
  move_elem, put-set, set-append, move_elem-append, move_elem-ne-none, last_view, copy_in-append,
  copy_out-suffix,
}
use umbongo.Console.Terminal.{Line, shift_right, insert_char, remove_char, copy_words}

-- The loop moves `ws` one place to the right, over `z`; what it leaves behind is to be overwritten.
shift_right-append :
    (i col : ℕ) (l : Line) (xs ws : List ℕ) (z : ℕ) (ys : List ℕ)
    → col ≡ length xs
    → i ≡ length ws
    → col + i < 2 ^ 32
    → l.chars ≡ xs ++ (ws ++ z ∷ ys)
    → length l.colours ≡ length l.chars
    → (x : ℕ) × (m : Line) × (shift_right i col l ≡ some m)
      × (m.chars ≡ xs ++ x ∷ (ws ++ ys))
      × (length m.colours ≡ length l.colours)
unfolding shift_right
shift_right-append zero col l xs ws z ys e f small chars colours =
    let nil : ws ≡ [] = eq_nil_of_length ws (sym f) in (z, l, refl, chars ∙ rw nil, refl)
shift_right-append (suc i) col l xs ws z ys e f small chars colours =
    let (vs, w, split, len) = last_view ws i (sym f) in
    let size : length l.chars ≡ length xs + (length ws + suc (length ys)) =
      omega (arith, ap length chars, length-append xs (ws ++ z ∷ ys), length-append ws (z ∷ ys)) in
    let from : add_u32 col i ≡ length xs + length vs = omega (arith, len) in
    let to : add_u32 col (suc i) ≡ add_u32 col i + 1 = omega arith in
    let moved : move_elem l.chars (add_u32 col (suc i)) (add_u32 col i)
        ≡ some (xs ++ (vs ++ w ∷ w ∷ ys)) =
      rw (chars, split)
        (move_elem-append xs vs w z ys (add_u32 col i) (add_u32 col (suc i)) from to) in
    let (u, moved', len') =
      move_elem-ne-none l.colours (add_u32 col i) (add_u32 col (suc i)) (omega arith)
        (omega arith) in
    let size' : length (xs ++ (vs ++ w ∷ w ∷ ys)) ≡ length l.chars =
      omega (arith, len, length-append xs (vs ++ w ∷ w ∷ ys), length-append vs (w ∷ w ∷ ys)) in
    let (x, m, ran, chars', colours') =
      shift_right-append i col (record l { chars = xs ++ (vs ++ w ∷ w ∷ ys); colours = u }) xs vs w
        (w ∷ ys) e (sym len) (omega arith) refl (omega (arith, len', size')) in
    (
      x,
      m,
      rw (moved, moved') ran,
      chars' ∙ ap (λ t. xs ++ x ∷ t) (rw split (simp append_assoc)),
      omega (arith, colours', len'),
    )

-- A character is put before `ws`, and the last one falls off the line.
pub insert_char-append :
    (col ch : ℕ) (l : Line) (xs ws : List ℕ) (z : ℕ)
    → col ≡ length xs
    → length l.chars < 2 ^ 32
    → l.chars ≡ xs ++ (ws ++ z ∷ [])
    → length l.colours ≡ length l.chars
    → (m : Line) × (insert_char col ch l ≡ some m)
      × (m.chars ≡ xs ++ ch ∷ ws)
      × (length m.chars ≡ length l.chars)
      × (length m.colours ≡ length l.chars)
unfolding insert_char
insert_char-append col ch l xs ws z e small chars colours =
    let size : length l.chars ≡ length xs + (length ws + 1) =
      omega (arith, ap length chars, length-append xs (ws ++ z ∷ []), length-append ws (z ∷ [])) in
    let rounds : sub_u32 (sub_u32 (length l.chars) col) 1 ≡ length ws = omega arith in
    let (x, m, ran, chars', colours') =
      shift_right-append (sub_u32 (sub_u32 (length l.chars) col) 1) col l xs ws z [] e rounds
        (omega arith) chars colours in
    let behind : m.chars ≡ xs ++ x ∷ ws = chars' ∙ ap (λ t. xs ++ x ∷ t) (append-nil ws) in
    let inside : col < length m.chars =
      omega (arith, ap length behind, length-append xs (x ∷ ws)) in
    (
      record m { chars = xs ++ ch ∷ ws },
      rw ran (rw (put-set m.chars col ch inside, behind, set-append xs x ws col ch e)),
      refl,
      omega (arith, size, length-append xs (ch ∷ ws)),
      omega (arith, colours', colours),
    )

length-copy_words : (v : List ℕ) (col n : ℕ) → length (copy_words v col n) ≡ length v
length-copy_words v col n =
    length-set (copy_in v col (copy_out v (col + 1) (n / 4))) (col + n / 4) _
    ∙ length-copy_in v col (copy_out v (col + 1) (n / 4))

-- A character is taken out, and the last one of the line stays behind the ones that move up.
pub remove_char-append :
    (col : ℕ) (l : Line) (xs ws : List ℕ) (c z : ℕ)
    → col ≡ length xs
    → l.chars ≡ xs ++ c ∷ (ws ++ z ∷ [])
    → length l.colours ≡ length l.chars
    → (m : Line) × (remove_char col l ≡ some m)
      × (m.chars ≡ xs ++ (ws ++ z ∷ z ∷ []))
      × (length m.chars ≡ length l.chars)
      × (length m.colours ≡ length l.chars)
unfolding remove_char
remove_char-append col l xs ws c z e chars colours =
    let size : length l.chars ≡ length xs + (length ws + 2) =
      omega (
        arith,
        ap length chars,
        length-append xs (c ∷ (ws ++ z ∷ [])),
        length-append ws (z ∷ []),
      ) in
    let end = ws ++ z ∷ [] in
    let count : length l.chars - col - 1 ≡ length end = omega (arith, length-append ws (z ∷ [])) in
    let one_more : xs ++ c ∷ end ≡ (xs ++ c ∷ []) ++ end = simp append_assoc in
    let source : copy_out l.chars (col + 1) (length l.chars - col - 1) ≡ end =
      ap (λ t. copy_out t (col + 1) (length l.chars - col - 1)) (chars ∙ one_more)
      ∙ copy_out-suffix (xs ++ c ∷ []) end (col + 1) (length l.chars - col - 1)
          (omega (arith, length-append xs (c ∷ []))) count in
    let copied : copy_in l.chars col end ≡ xs ++ (end ++ z ∷ []) =
      ap (λ t. copy_in t col end) chars
      ∙ copy_in-append xs (c ∷ ws) end (z ∷ []) col e (omega (arith, length-append ws (z ∷ []))) in
    let inside : ltb col (length l.chars) ≡ true = lt→ltb col (length l.chars) (omega arith) in
    let inside' : ltb (col + 1) (length l.chars) ≡ true =
      lt→ltb (col + 1) (length l.chars) (omega arith) in
    let fits : ltb col (length l.colours) ≡ true = lt→ltb col (length l.colours) (omega arith) in
    let fits' : ltb (col + 1) (length l.colours) ≡ true =
      lt→ltb (col + 1) (length l.colours) (omega arith) in
    (
      record l {
        chars = xs ++ (ws ++ z ∷ z ∷ []);
        colours = copy_words l.colours col (length l.colours - col - 1);
      },
      rw (inside, inside', fits, fits', source, copied)
          (ap
            (λ t. some (record l {
              chars = t;
              colours = copy_words l.colours col (length l.colours - col - 1);
            }))
            (simp append_assoc)),
      refl,
      omega (arith, size, length-append xs (ws ++ z ∷ z ∷ []), length-append ws (z ∷ z ∷ [])),
      length-copy_words l.colours col (length l.colours - col - 1) ∙ colours,
    )
