-- ===== src/Console/Shown.antt =====
-- A terminal whose current row shows a text behind a prefix, with the cursor in the text; and how it
-- follows the characters and the escape sequences that a line editor sends.
use umbongo.Base.{
  ℕ, zero, suc, ◌+◌, ◌-◌, ◌^◌, ◌≤◌, ◌<◌, ◌≡◌, ◌⊎◌, refl, sym, ap, ◌∙◌, List, [], ◌∷◌, ◌++◌,
  append_assoc, some, false, arith, length, length-append, length-replicate, replicate, set,
  get_elem?, get_elem?-set_self, add_u32, sub_u32, ◌==◌, length-set,
}
use umbongo.Base.Vector.{put-set, replicate_snoc}
use umbongo.Console.Terminal.{
  Terminal, Line, set_line_dirty, set_char, put_char, put_at_cursor, backspace, move_left,
  move_right,
}
use umbongo.Console.Terminal.Edits.{insert_char-append, remove_char-append}

-- `text` behind `prefix` in the cursor's row, blanks behind it, and the cursor before the text's
-- character `pos`.
pub record Shown (columns : ℕ) (prefix text : List ℕ) (pos : ℕ) (t : Terminal) : Type 0 where
  pub line : Line
  pub blank : ℕ
  pub count : ℕ
  pub is_blank : (blank ≡ 0) ⊎ (blank ≡ 32)
  pub here : get_elem? t.lines t.cursor_y ≡ some line
  pub chars : line.chars ≡ prefix ++ (text ++ replicate (suc count) blank)
  pub colours : length line.colours ≡ length line.chars
  pub width : length line.chars ≡ columns
  pub columns_eq : t.column_count ≡ columns
  pub small : columns < 2 ^ 32
  pub cursor : t.cursor_x ≡ length prefix + pos
  pub inside : pos ≤ length text

get_elem?-inside {ℓ} :
    {A : Type ℓ} (xs : List A) (i : ℕ) {x : A} → get_elem? xs i ≡ some x → i < length xs
get_elem?-inside [] i e = absurd cc
get_elem?-inside (x ∷ xs) zero e = omega arith
get_elem?-inside (x ∷ xs) (suc i) e = omega (arith, get_elem?-inside xs i e)

module _ {columns : ℕ} {prefix text : List ℕ} {pos : ℕ} {t : Terminal}
    (s : Shown columns prefix text pos t) where
  pub columns-Shown : columns ≡ length prefix + (length text + suc s.count)
  columns-Shown = omega (
    arith,
    s.width,
    ap length s.chars,
    length-append prefix (text ++ replicate (suc s.count) s.blank),
    length-append text (replicate (suc s.count) s.blank),
    length-replicate s.count s.blank,
  )

  -- The cursor moves within the text.
  pub move_right-Shown : pos < length text → Shown columns prefix text (pos + 1) (move_right t)
  unfolding move_right
  move_right-Shown h = record {
    line = s.line;
    blank = s.blank;
    count = s.count;
    is_blank = s.is_blank;
    here = s.here;
    chars = s.chars;
    colours = s.colours;
    width = s.width;
    columns_eq = s.columns_eq;
    small = s.small;
    cursor = omega (arith, s.cursor, columns-Shown, s.small);
    inside = omega arith;
  }

  pub move_left-Shown : (p : ℕ) → pos ≡ suc p → Shown columns prefix text p (move_left t)
  unfolding move_left
  move_left-Shown p e = record {
    line = s.line;
    blank = s.blank;
    count = s.count;
    is_blank = s.is_blank;
    here = s.here;
    chars = s.chars;
    colours = s.colours;
    width = s.width;
    columns_eq = s.columns_eq;
    small = s.small;
    cursor = omega (arith, s.cursor, columns-Shown, s.small, s.inside);
    inside = omega (arith, s.inside);
  }

-- The row before an edit, as what is before the place and what is behind it less the last blank;
split_row :
    (prefix xs ws : List ℕ) (n blank : ℕ)
    → prefix ++ ((xs ++ ws) ++ replicate (suc n) blank)
      ≡ (prefix ++ xs) ++ ((ws ++ replicate n blank) ++ blank ∷ [])
split_row prefix xs ws n blank =
    ap (λ r. prefix ++ ((xs ++ ws) ++ r)) (sym (replicate_snoc n blank)) ∙ simp append_assoc

-- after a character has been typed, and after one has been taken out.
typed_row :
    (prefix xs ws : List ℕ) (ch n m blank : ℕ)
    → n ≡ suc m
    → (prefix ++ xs) ++ ch ∷ (ws ++ replicate n blank)
      ≡ prefix ++ ((xs ++ ch ∷ ws) ++ replicate (suc m) blank)
typed_row prefix xs ws ch n m blank e =
    ap (λ r. (prefix ++ xs) ++ ch ∷ (ws ++ replicate r blank)) e ∙ simp append_assoc

snoc_two : (n a : ℕ) → replicate n a ++ a ∷ a ∷ [] ≡ replicate (suc (suc n)) a
snoc_two zero a = refl
snoc_two (suc n) a = ap (λ r. a ∷ r) (snoc_two n a)

erased_row :
    (prefix xs ws : List ℕ) (n blank : ℕ)
    → (prefix ++ xs) ++ ((ws ++ replicate n blank) ++ blank ∷ blank ∷ [])
      ≡ prefix ++ ((xs ++ ws) ++ replicate (suc (suc n)) blank)
erased_row prefix xs ws n blank =
    append_assoc prefix xs _
    ∙ ap (λ r. prefix ++ (xs ++ r)) (append_assoc ws (replicate n blank) _)
    ∙ ap (λ r. prefix ++ (xs ++ (ws ++ r))) (snoc_two n blank)
    ∙ ap (λ r. prefix ++ r) (sym (append_assoc xs ws _))

-- A character is typed into the text.
pub put_char-Shown :
    {columns : ℕ} {prefix : List ℕ} (xs ws : List ℕ) {t : Terminal} (ch : ℕ)
    → Shown columns prefix (xs ++ ws) (length xs) t
    → (ch == 8) ≡ false
    → length prefix + length (xs ++ ws) + 1 < columns
    → (t' : Terminal) × (put_char ch t ≡ some t')
      × Shown columns prefix (xs ++ ch ∷ ws) (length xs + 1) t'
unfolding put_char put_at_cursor set_char
put_char-Shown {columns} {prefix} xs ws {t} ch s other room =
    let cols = columns-Shown s in
    let blanks = replicate s.count s.blank in
    let split = s.chars ∙ split_row prefix xs ws s.count s.blank in
    let at : t.cursor_x ≡ length (prefix ++ xs) =
      omega (arith, s.cursor, length-append prefix xs) in
    let (m, ran, chars, size, colours) =
      insert_char-append t.cursor_x ch (set_line_dirty s.line) (prefix ++ xs) (ws ++ blanks) s.blank
        at (omega (arith, s.width, s.small)) split s.colours in
    let no_wrap : (t.cursor_x == sub_u32 t.column_count 1) ≡ false =
      ground (arith, s.cursor, s.columns_eq, s.small, length-append xs ws) in
    let row = get_elem?-inside t.lines t.cursor_y s.here in
    let row' : t.cursor_y < length (set t.lines t.cursor_y m) =
      omega (arith, row, length-set t.lines t.cursor_y m) in
    let fits : t.cursor_x < length m.colours =
      omega (arith, colours, s.colours, s.width, s.cursor, cols, length-append xs ws) in
    let fewer : s.count ≡ suc (s.count - 1) = omega (arith, cols) in
    let typed = chars ∙ typed_row prefix xs ws ch s.count (s.count - 1) s.blank fewer in
    let painted = record m { colours = set m.colours t.cursor_x t.colour } in
    (
      record t {
        lines = set (set t.lines t.cursor_y m) t.cursor_y painted;
        cursor_x = add_u32 t.cursor_x 1;
      },
      rw (
        no_wrap,
        s.here,
        other,
        ran,
        get_elem?-set_self t.lines t.cursor_y m row,
        put-set m.colours t.cursor_x t.colour fits,
      ),
      record {
        line = painted;
        blank = s.blank;
        count = s.count - 1;
        is_blank = s.is_blank;
        here = get_elem?-set_self (set t.lines t.cursor_y m) t.cursor_y painted row';
        chars = typed;
        colours = omega (arith, length-set m.colours t.cursor_x t.colour, colours, size);
        width = omega (arith, size, s.width);
        columns_eq = s.columns_eq;
        small = s.small;
        cursor = omega (arith, s.cursor, cols, s.small, length-append xs ws);
        inside = omega (arith, length-append xs (ch ∷ ws));
      },
    )

-- The character before the cursor is taken out of the text.
pub backspace-Shown :
    {columns : ℕ} {prefix : List ℕ} (xs : List ℕ) (c : ℕ) (ws : List ℕ) {t : Terminal}
    → Shown columns prefix (xs ++ c ∷ ws) (length xs + 1) t
    → (t' : Terminal) × (backspace t ≡ some t') × Shown columns prefix (xs ++ ws) (length xs) t'
unfolding backspace set_char
backspace-Shown {columns} {prefix} xs c ws {t} s =
    let cols = columns-Shown s in
    let blanks = replicate s.count s.blank in
    let split = s.chars ∙ split_row prefix xs (c ∷ ws) s.count s.blank in
    let x : (t.cursor_x == 0) ≡ false = ground (arith, s.cursor) in
    let at : sub_u32 t.cursor_x 1 ≡ length (prefix ++ xs) =
      omega (arith, s.cursor, length-append prefix xs, cols, s.small, length-append xs (c ∷ ws)) in
    let (m, ran, chars, size, colours) =
      remove_char-append (sub_u32 t.cursor_x 1) (set_line_dirty s.line) (prefix ++ xs)
        (ws ++ blanks) c s.blank at split s.colours in
    let row = get_elem?-inside t.lines t.cursor_y s.here in
    let erased = chars ∙ erased_row prefix xs ws s.count s.blank in
    (
      record t { lines = set t.lines t.cursor_y m; cursor_x = sub_u32 t.cursor_x 1 },
      rw (x, s.here, ran),
      record {
        line = m;
        blank = s.blank;
        count = suc s.count;
        is_blank = s.is_blank;
        here = get_elem?-set_self t.lines t.cursor_y m row;
        chars = erased;
        colours = omega (arith, colours, size);
        width = omega (arith, size, s.width);
        columns_eq = s.columns_eq;
        small = s.small;
        cursor = omega (arith, at, length-append prefix xs);
        inside = omega (arith, length-append xs ws);
      },
    )
