-- ===== src/Console/Follow.antt =====
-- How a console that shows a text follows the bytes that a line editor prints.
use umbongo.Base.{
  ℕ, suc, ◌+◌, ◌<◌, ◌≡◌, refl, sym, subst, List, [], ◌∷◌, ◌++◌, some, false, Bool, Bool-cases,
  Option-cases, if◌then◌else◌, not, inl, inr, ◌==◌, length,
}
use umbongo.Base.Panic.{◌>>=◌}
use umbongo.Console.Terminal.{Terminal}
use umbongo.Console.EscapeParser.{
  Screens, current, with_current, EscapeParser, parse, parse_in_escape,
}
use umbongo.Console.Feed.{Console, feed, feed_char}
use umbongo.Console.Shown.{
  Shown, move_left-Shown, move_right-Shown, put_char-Shown, backspace-Shown,
}

-- Bytes that are shown as they are.
abbrev pub IsPlain : ℕ → Type 0
IsPlain ch = ((ch == 27) ≡ false) × ((ch == 8) ≡ false) × ((ch == 10) ≡ false)

-- The console is in no escape sequence, and its current terminal shows the text.
pub record Displays (columns : ℕ) (prefix text : List ℕ) (pos : ℕ) (c : Console) : Type 0 where
  pub idle : c.parser.in_escape ≡ false
  pub shown : Shown columns prefix text pos (current c.screens)

-- What a console that is fed `out` comes to.
abbrev pub Feeds : List ℕ → Console → (Console → Type 0) → Type 0
Feeds out c P = (d : Console) × (feed out c ≡ some d) × P d

pub feed-append : (xs ys : List ℕ) (c : Console) → feed (xs ++ ys) c ≡ (feed xs c >>= feed ys)
unfolding feed
feed-append [] ys c = refl
feed-append (x ∷ xs) ys c = elim (Option-cases (feed_char x c)) [
  | inl stopped ↦ rw stopped
  | inr (d, ran) ↦ rw ran (feed-append xs ys d)
]

pub Feeds-append :
    (xs ys : List ℕ) (c : Console) {P Q : Console → Type 0}
    → Feeds xs c P
    → ((d : Console) → P d → Feeds ys d Q)
    → Feeds (xs ++ ys) c Q
Feeds-append xs ys c (d, ran, p) next =
    let (e, ran', q) = next d p in (e, rw (feed-append xs ys c, ran) ran', q)

pub Feeds-nil : (c : Console) {P : Console → Type 0} → P c → Feeds [] c P
unfolding feed
Feeds-nil c p = (c, refl, p)

current-with_current : (t : Terminal) (s : Screens) → current (with_current t s) ≡ t
current-with_current t s = elim (Bool-cases s.on_alternate) [ inl e ↦ rw e | inr e ↦ rw e ]

third_branch {ℓ} :
    {A : Type ℓ} (a b : Bool) (x y z : A)
    → a ≡ false
    → b ≡ false
    → (if a then x else if not b then y else z) ≡ y
third_branch a b x y z e f = rw (e, f)

parse-idle :
    (ch : ℕ) (p : EscapeParser) (s : Screens)
    → (ch == 27) ≡ false
    → p.in_escape ≡ false
    → parse ch p s ≡ (false, p, s)
unfolding parse
parse-idle ch p s e f = third_branch (ch == 27) p.in_escape _ _ _ e f

module _ {columns : ℕ} {prefix : List ℕ} where
  Displays-with :
      {text : List ℕ} {pos : ℕ} {t : Terminal} (p : EscapeParser) (s : Screens)
      → p.in_escape ≡ false
      → Shown columns prefix text pos t
      → Displays columns prefix text pos (record { parser = p; screens = with_current t s })
  Displays-with {text} {pos} {t} p s idle shown = record {
    idle = idle;
    shown = subst (λ u. Shown columns prefix text pos u) (sym (current-with_current t s)) shown;
  }

  pub typed :
      (xs ws : List ℕ) {c : Console} (ch : ℕ)
      → Displays columns prefix (xs ++ ws) (length xs) c
      → IsPlain ch
      → length prefix + length (xs ++ ws) + 1 < columns
      → Feeds (ch ∷ []) c (Displays columns prefix (xs ++ ch ∷ ws) (length xs + 1))
  unfolding feed feed_char
  typed xs ws {c} ch d plain room =
      let (t, ran, shown) = put_char-Shown xs ws ch d.shown plain.1 room in
      (
        record { parser = c.parser; screens = with_current t c.screens },
        rw (parse-idle ch c.parser c.screens plain.0 d.idle, plain.1, plain.2, ran),
        Displays-with c.parser c.screens d.idle shown,
      )

  pub erased :
      (xs : List ℕ) (x : ℕ) (ws : List ℕ) {c : Console}
      → Displays columns prefix (xs ++ x ∷ ws) (length xs + 1) c
      → Feeds (8 ∷ []) c (Displays columns prefix (xs ++ ws) (length xs))
  unfolding feed feed_char
  erased xs x ws {c} d =
      let (t, ran, shown) = backspace-Shown xs x ws d.shown in
      (
        record { parser = c.parser; screens = with_current t c.screens },
        rw (parse-idle 8 c.parser c.screens refl d.idle, ran),
        Displays-with c.parser c.screens d.idle shown,
      )

  pub moved_right :
      {text : List ℕ} {pos : ℕ} {c : Console}
      → Displays columns prefix text pos c
      → pos < length text
      → Feeds (27 ∷ 91 ∷ 67 ∷ []) c (Displays columns prefix text (pos + 1))
  unfolding feed feed_char parse parse_in_escape
  moved_right {c} d h = (_, refl, Displays-with _ c.screens refl (move_right-Shown d.shown h))

  pub moved_left :
      {text : List ℕ} {pos : ℕ} {c : Console}
      → Displays columns prefix text (suc pos) c
      → Feeds (27 ∷ 91 ∷ 68 ∷ []) c (Displays columns prefix text pos)
  unfolding feed feed_char parse parse_in_escape
  moved_left {pos} {c} d =
      (_, refl, Displays-with _ c.screens refl (move_left-Shown d.shown pos refl))
